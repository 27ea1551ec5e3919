-- ===== src/Nested/Keeps.antt =====
-- The VMX instructions of src/nested/nested_instructions.cpp keep the store sound.
use knhv.Prelude.{
  ℕ, ◌+◌, ◌≡◌, refl, sym, ◌∙◌, ◌≢◌, inl, inr, true, false, not, ◌&&◌, ◌||◌, Option, none, some,
  arith,
}
use knhv.Prelude.Tests.{leb, ◌==◌, ◌!=◌, if◌then◌else◌, Bool-cases, Option-cases, and_parts}
use knhv.Prelude.Bits.{u64_max, u32, any_bits}
use knhv.Prelude.Lists.{length, set, length-set}
use knhv.Abi.{cap_nested_vmx, HvStatus}
use knhv.Nested.Defs.{
  nested_vmcs_fields, vmcs_field_instruction_error, memory_read, vmcs_active, NestedAction,
  NestedCapabilities, VmxInstruction, NestedResult, NestedVmcs12,
}
use knhv.Nested.Store.{
  find_field_rule, field_index, is_linear_range_canonical, find_slot, is_free, find_vmcs,
  set_vmcs_read_only,
}
use knhv.Nested.Memory.{NestedMemory, read_linear}
use knhv.Nested.Vcpu.{
  NestedVcpu, is_vmfail_valid, slot, current_vmcs, show_error, clear_vm_instruction_error,
  make_vmfail,
}
use knhv.Nested.Region.{from_bytes, is_region_address, is_region_valid, validate_vmx_region}
use knhv.Nested.Instructions.{
  fresh_vmcs, succeed, emulate_vmxon, emulate_vmxoff, allocate_vmcs, clear_region, emulate_vmclear,
  load_region, emulate_vmptrld,
}
use knhv.Nested.Slots.{at}
use knhv.Nested.Sound.{IsSound, KeepsSlot, found_region, set-IsStore, leave-IsStore, load-IsStore}
use knhv.Nested.Allocation.{fresh-IsStore, clear-IsStore}

pub set_read_only-KeepsSlot :
    (m : NestedVmcs12) (encoding value : ℕ) → KeepsSlot m (set_vmcs_read_only m encoding value)
unfolding set_vmcs_read_only
set_read_only-KeepsSlot m encoding value = elim (Option-cases (find_field_rule encoding)) [
  | inl e ↦ rw (set_vmcs_read_only, e) (same m)
  | inr (r, e) ↦ elim (Bool-cases (leb nested_vmcs_fields (field_index r))) [
    | inl f ↦ rw (set_vmcs_read_only, e, f) (same m)
    | inr f ↦
        rw (set_vmcs_read_only, e, f)
          record {
            same_region = λ g. refl;
            same_fields = length-set m.fields (field_index r) _;
            same_state = inl refl;
          }
  ]
]
  where
    same : (m : NestedVmcs12) → KeepsSlot m m
    same m = record { same_region = λ g. refl; same_fields = refl; same_state = inl refl }

not_running : (n : ℕ) → (n != 0) ≡ false → n ≡ 0
not_running n h = ground arith

address-proper : (c : NestedCapabilities) (g : ℕ) → is_region_address c g ≡ true → g ≢ u64_max
unfolding is_region_address
address-proper c g h = ground arith

module _ {S : Type 0} where
  -- The answer leaves a sound processor.
  unfoldable pub Leaves : NestedResult × NestedVcpu S → Type 0
  Leaves r = IsSound r.1

  pub leaves : (r : NestedResult × NestedVcpu S) → IsSound r.1 → Leaves r
  unfolding Leaves
  leaves r s = s

  pub current-found :
      (v : NestedVcpu S) (i : ℕ)
      → current_vmcs v ≡ some i
      → (v.current_vmcs_gpa ≢ u64_max) × (find_vmcs v.vmcs v.current_vmcs_gpa ≡ some i)
  unfolding current_vmcs
  current-found v i h = ground arith

  pub show-IsSound : (v : NestedVcpu S) (error : ℕ) → IsSound v → IsSound (show_error v error)
  unfolding show_error
  show-IsSound v error s = elim (Option-cases (current_vmcs v)) [
    | inl e ↦ rw (show_error, e) s
    | inr (i, e) ↦
        let (_, found) = current-found v i e in
        let (low, _) = found_region v.vmcs v.current_vmcs_gpa i found in
        rw (show_error, e)
          (set-IsStore i _ low
            (set_read_only-KeepsSlot (at v.vmcs i) vmcs_field_instruction_error error) s)
  ]

  pub clear-IsSound : (v : NestedVcpu S) → IsSound v → IsSound (clear_vm_instruction_error v)
  unfolding clear_vm_instruction_error
  clear-IsSound v s = show-IsSound v 0 s

  pub fail-Leaves :
      (v : NestedVcpu S) (status : HvStatus) (error length : ℕ)
      → IsSound v
      → Leaves (make_vmfail v status error length)
  unfolding make_vmfail Leaves
  fail-Leaves v status error length s = elim (Bool-cases (is_vmfail_valid status)) [
    | inl e ↦ rw e (show-IsSound v error s)
    | inr e ↦ rw e s
  ]

  pub succeed-Leaves :
      (v : NestedVcpu S) (action : NestedAction) (length value : ℕ)
      → IsSound v
      → Leaves (succeed v action length value)
  unfolding Leaves
  succeed-Leaves v action length value s = clear-IsSound v s

  region_valid-proper :
      (c : NestedCapabilities) (m : NestedMemory S) (g : ℕ)
      → is_region_valid c m g ≡ true
      → g ≢ u64_max
  unfolding is_region_valid
  region_valid-proper c m g h =
      let (address, _) = and_parts (is_region_address c g) _ h in address-proper c g address

  pub region-proper :
      (v : NestedVcpu S) (operand g : ℕ) → validate_vmx_region v operand ≡ some g → g ≢ u64_max
  unfolding validate_vmx_region
  region-proper v operand g h =
      elim (Bool-cases (is_linear_range_canonical v.capabilities operand 8)) [
        | inr e ↦ absurd (ground (arith, rw e at h))
        | inl e ↦ elim (Option-cases (read_linear v.memory operand 8 memory_read)) [
          | inl f ↦ absurd (ground (arith, rw (e, f) at h))
          | inr (bytes, f) ↦
              elim (Bool-cases (is_region_valid v.capabilities v.memory (from_bytes bytes))) [
                | inr k ↦ absurd (ground (arith, rw (e, f, k) at h))
                | inl k ↦
                    let same : from_bytes bytes ≡ g = ground (arith, rw (e, f, k) at h) in
                    rw same at (region_valid-proper v.capabilities v.memory (from_bytes bytes) k)
              ]
        ]
      ]

  pub vmxon-Leaves :
      (v : NestedVcpu S) (x : VmxInstruction) → IsSound v → Leaves (emulate_vmxon v x)
  unfolding emulate_vmxon
  vmxon-Leaves v x s = elim (Bool-cases (v.vmxon_active != 0)) [
    | inl a ↦ rw (emulate_vmxon, a) (fail-Leaves v _ _ _ s)
    | inr a ↦
        elim (Bool-cases
          (not (any_bits v.capabilities.feature_bits cap_nested_vmx) || v.vmxe_enabled == 0)) [
            | inl b ↦ rw (emulate_vmxon, a, b) (leaves _ s)
            | inr b ↦ elim (Option-cases (validate_vmx_region v x.linear_operand)) [
              | inl e ↦ rw (emulate_vmxon, a, b, e) (leaves _ s)
              | inr (g, e) ↦
                  rw (emulate_vmxon, a, b, e)
                    (succeed-Leaves
                      (record v {
                        vmxon_active = 1;
                        vmxon_gpa = g;
                        current_vmcs_gpa = u64_max;
                        l2_running = 0;
                        generation = u32 (v.generation + 1);
                      })
                      _ _ _ (leave-IsStore 1 s))
            ]
          ]
  ]

  pub vmxoff-Leaves :
      (v : NestedVcpu S) (x : VmxInstruction) → IsSound v → Leaves (emulate_vmxoff v x)
  unfolding emulate_vmxoff
  vmxoff-Leaves v x s = elim (Bool-cases (v.vmxon_active == 0)) [
    | inl a ↦ rw (emulate_vmxoff, a) (leaves _ s)
    | inr a ↦ elim (Bool-cases (v.l2_running != 0)) [
      | inl b ↦ rw (emulate_vmxoff, a, b) (leaves _ s)
      | inr b ↦ rw (emulate_vmxoff, a, b) (leaves _ (leave-IsStore 0 s))
    ]
  ]

  -- A region that has a slot: it had one, or a free slot has been taken for it.
  abbrev Allocated : NestedVcpu S → ℕ → Option (ℕ × NestedVcpu S) → Type 0
  Allocated v g none = Unit
  Allocated v g (some (i, w)) =
      IsSound w
      × (find_vmcs w.vmcs g ≡ some i)
      × (w.l2_running ≡ v.l2_running)
      × (w.vmxon_active ≡ v.vmxon_active)

  allocate-Allocated : (v : NestedVcpu S) (g : ℕ) → IsSound v → Allocated v g (allocate_vmcs v g)
  unfolding allocate_vmcs
  allocate-Allocated v g s = elim (Option-cases (find_vmcs v.vmcs g)) [
    | inr (i, e) ↦ rw (allocate_vmcs, e) (s, e, refl, refl)
    | inl e ↦ elim (Option-cases (find_slot is_free v.vmcs)) [
      | inl f ↦ rw (allocate_vmcs, e, f) tt
      | inr (i, f) ↦
          let (sound, found) = fresh-IsStore i g _ e f s in
          rw (allocate_vmcs, e, f) (sound, found, refl, refl)
    ]
  ]

  -- Instructions that name a region and then work on its slot.
  pub vmclear-Leaves :
      (v : NestedVcpu S) (x : VmxInstruction) → IsSound v → Leaves (emulate_vmclear v x)
  unfolding emulate_vmclear clear_region
  vmclear-Leaves v x s = elim (Bool-cases (v.l2_running != 0)) [
    | inl a ↦ rw (emulate_vmclear, a) (leaves _ s)
    | inr a ↦ elim (Option-cases (validate_vmx_region v x.linear_operand)) [
      | inl e ↦ rw (emulate_vmclear, a, e) (leaves _ s)
      | inr (g, e) ↦ elim (Bool-cases (g == v.vmxon_gpa)) [
        | inl b ↦ rw (emulate_vmclear, a, e, b) (fail-Leaves v _ _ _ s)
        | inr b ↦ elim (Option-cases (allocate_vmcs v g)) [
          | inl f ↦ rw (emulate_vmclear, a, e, b, f) (leaves _ s)
          | inr ((i, w), f) ↦
              let (sound, found, same_l2, _) = rw f at (allocate-Allocated v g s) in
              let idle : w.l2_running ≡ 0 = same_l2 ∙ not_running v.l2_running a in
              rw (emulate_vmclear, a, e, b, f)
                (succeed-Leaves
                  (record w {
                    vmcs = set w.vmcs i (fresh_vmcs (slot w i).region_gpa (slot w i).revision);
                    current_vmcs_gpa =
                        if w.current_vmcs_gpa == g then u64_max else w.current_vmcs_gpa;
                  })
                  _ _ _ (clear-IsStore i g _ found idle sound))
        ]
      ]
    ]
  ]

  pub vmptrld-Leaves :
      (v : NestedVcpu S) (x : VmxInstruction)
      → v.vmxon_active ≢ 0
      → IsSound v
      → Leaves (emulate_vmptrld v x)
  unfolding emulate_vmptrld load_region
  vmptrld-Leaves v x on s = elim (Option-cases (validate_vmx_region v x.linear_operand)) [
    | inl e ↦ rw (emulate_vmptrld, e) (leaves _ s)
    | inr (g, e) ↦ elim (Bool-cases (g == v.vmxon_gpa)) [
      | inl b ↦ rw (emulate_vmptrld, e, b) (fail-Leaves v _ _ _ s)
      | inr b ↦ elim (Option-cases (allocate_vmcs v g)) [
        | inl f ↦ rw (emulate_vmptrld, e, b, f) (leaves _ s)
        | inr ((i, w), f) ↦
            let (sound, found, _, same_on) = rw f at (allocate-Allocated v g s) in
            elim (Bool-cases ((slot w i).state == vmcs_active && w.current_vmcs_gpa != g)) [
              | inl c ↦ rw (emulate_vmptrld, e, b, f, c) (fail-Leaves w _ _ _ sound)
              | inr c ↦
                  rw (emulate_vmptrld, e, b, f, c)
                    (succeed-Leaves
                      (record w {
                        vmcs = set w.vmcs i (record (slot w i) { state = vmcs_active });
                        current_vmcs_gpa = g;
                      })
                      _ _ _
                      (load-IsStore i g found (region-proper v x.linear_operand g e)
                        (λ q. on (sym same_on ∙ q)) sound))
            ]
      ]
    ]
  ]
