-- ===== src/Nested/Leaves.antt =====
-- The further VMX instructions of src/nested/nested_instructions.cpp, on fields and guests, keep the store sound.
use knhv.Prelude.{ℕ, refl, ◌≢◌, inl, inr, Bool, not, ◌||◌, arith}
use knhv.Prelude.Tests.{leb, ◌==◌, ◌!=◌, if◌then◌else◌, Bool-cases, Option-cases}
use knhv.Prelude.Bits.{any_bits}
use knhv.Prelude.Lists.{length, length-set}
use knhv.Abi.{vmfail_valid}
use knhv.Nested.Defs.{
  nested_vmcs_fields, instruction_operand_is_register, nested_secondary_enable_vmfunc,
  vmcs_field_secondary_controls, vmcs_field_exit_reason, vmcs_field_exit_qualification, vmcs_active,
  vmcs_launched, VmxInstruction, NestedVmcs12, NestedExitRecord, FieldRule,
}
use knhv.Nested.Store.{
  find_field_rule, field_index, write_stored_field, is_linear_range_canonical, is_reserved_valid,
  validate_control_value,
}
use knhv.Nested.Entry.{validate_entry_state}
use knhv.Nested.Memory.{write_linear}
use knhv.Nested.Vcpu.{
  NestedVcpu, slot, set_slot, current_vmcs, read_nested_vmcs_field, write_nested_vmcs_field,
}
use knhv.Nested.Region.{to_bytes}
use knhv.Nested.Instructions.{
  is_field_writable, store_word, emulate_vmptrst, emulate_vmread, emulate_vmwrite, emulate_vm_entry,
}
use knhv.Nested.Dispatch.{show_exit, read_descriptor, emulate_invalidation, emulate_vmfunc}
use knhv.Nested.Slots.{at}
use knhv.Nested.Sound.{IsSound, KeepsSlot, KeepsSlot-trans, found_region, set-IsStore, run-IsStore}
use knhv.Nested.Keeps.{
  set_read_only-KeepsSlot, Leaves, leaves, current-found, fail-Leaves, succeed-Leaves,
}

write_stored-KeepsSlot :
    (m : NestedVmcs12) (r : ℕ × FieldRule) (value : ℕ) → KeepsSlot m (write_stored_field m r value)
unfolding write_stored_field
write_stored-KeepsSlot m r value = record {
  same_region = λ g. refl;
  same_fields = length-set m.fields (field_index r) _;
  same_state = inl refl;
}

pub show_exit-KeepsSlot : (m : NestedVmcs12) (e : NestedExitRecord) → KeepsSlot m (show_exit m e)
unfolding show_exit
show_exit-KeepsSlot m e =
    let first = set_read_only-KeepsSlot m vmcs_field_exit_reason e.reason in
    let second = set_read_only-KeepsSlot _ vmcs_field_exit_qualification e.qualification in
    let third = set_read_only-KeepsSlot _ 0x440C e.instruction_length in
    KeepsSlot-trans (KeepsSlot-trans first second) third

module _ {S : Type 0} where
  write_field-IsSound :
      (v : NestedVcpu S) (encoding value : ℕ)
      → IsSound v
      → IsSound (write_nested_vmcs_field v encoding value).1
  unfolding write_nested_vmcs_field
  write_field-IsSound v encoding value s = elim (Option-cases (current_vmcs v)) [
    | inl e ↦ rw (write_nested_vmcs_field, e) s
    | inr (i, e) ↦ elim (Option-cases (find_field_rule encoding)) [
      | inl f ↦ rw (write_nested_vmcs_field, e, f) s
      | inr (r, f) ↦
          let refused =
            r.1.writable == 0
            || leb nested_vmcs_fields (field_index r)
            || not (is_reserved_valid r.1 value)
            || not (validate_control_value v.capabilities r.1 value) in
          elim (Bool-cases refused) [
            | inl k ↦ rw (write_nested_vmcs_field, e, f, k) s
            | inr k ↦
                let (_, found) = current-found v i e in
                let (low, _) = found_region v.vmcs v.current_vmcs_gpa i found in
                rw (write_nested_vmcs_field, e, f, k)
                  (set-IsStore i _ low (write_stored-KeepsSlot (at v.vmcs i) r value) s)
          ]
    ]
  ]

  pub store-Leaves :
      (v : NestedVcpu S) (destination value length : ℕ)
      → IsSound v
      → Leaves (store_word v destination value length)
  unfolding store_word
  store-Leaves v destination value length s =
      elim (Bool-cases (not (is_linear_range_canonical v.capabilities destination 8))) [
        | inl a ↦ rw (store_word, a) (leaves _ s)
        | inr a ↦ elim (Bool-cases (write_linear v.memory destination (to_bytes 8 value)).0) [
          | inl b ↦
              rw (store_word, a, b)
                (succeed-Leaves
                  (record v { memory = (write_linear v.memory destination (to_bytes 8 value)).1 }) _
                  _ _ s)
          | inr b ↦ rw (store_word, a, b) (leaves _ s)
        ]
      ]

  pub vmptrst-Leaves :
      (v : NestedVcpu S) (x : VmxInstruction) → IsSound v → Leaves (emulate_vmptrst v x)
  unfolding emulate_vmptrst
  vmptrst-Leaves v x s = elim (Bool-cases (any_bits x.flags instruction_operand_is_register)) [
    | inl a ↦ rw (emulate_vmptrst, a) (leaves _ s)
    | inr a ↦ rw (emulate_vmptrst, a) (store-Leaves v _ _ _ s)
  ]

  pub vmread-Leaves :
      (v : NestedVcpu S) (x : VmxInstruction) → IsSound v → Leaves (emulate_vmread v x)
  unfolding emulate_vmread
  vmread-Leaves v x s = elim (Option-cases (read_nested_vmcs_field v x.encoding)) [
    | inl e ↦ rw (emulate_vmread, e) (leaves _ s)
    | inr (value, e) ↦ elim (Bool-cases (any_bits x.flags instruction_operand_is_register)) [
      | inl a ↦ rw (emulate_vmread, e, a) (succeed-Leaves v _ _ _ s)
      | inr a ↦ rw (emulate_vmread, e, a) (store-Leaves v _ _ _ s)
    ]
  ]

  pub vmwrite-Leaves :
      (v : NestedVcpu S) (x : VmxInstruction) → IsSound v → Leaves (emulate_vmwrite v x)
  unfolding emulate_vmwrite
  vmwrite-Leaves v x s = elim (Option-cases (current_vmcs v)) [
    | inl e ↦ rw (emulate_vmwrite, e) (leaves _ s)
    | inr (i, e) ↦ elim (Bool-cases (is_field_writable x.encoding)) [
      | inr a ↦ rw (emulate_vmwrite, e, a) (leaves _ s)
      | inl a ↦
          let sound = write_field-IsSound v x.encoding x.source s in
          elim (Bool-cases (write_nested_vmcs_field v x.encoding x.source).0) [
            | inl b ↦
                rw (emulate_vmwrite, e, a, b)
                  (succeed-Leaves (write_nested_vmcs_field v x.encoding x.source).1 _ _ _ sound)
            | inr b ↦ rw (emulate_vmwrite, e, a, b) (fail-Leaves v vmfail_valid _ _ s)
          ]
    ]
  ]

  pub entry-Leaves :
      (v : NestedVcpu S) (x : VmxInstruction) (launch : Bool)
      → v.vmxon_active ≢ 0
      → IsSound v
      → Leaves (emulate_vm_entry v x launch)
  unfolding emulate_vm_entry
  entry-Leaves v x launch on s = elim (Option-cases (current_vmcs v)) [
    | inl e ↦ rw (emulate_vm_entry, e) (leaves _ s)
    | inr (i, e) ↦
        let wrong = (slot v i).state != (if launch then vmcs_active else vmcs_launched) in
        let invalid = v.l2_running != 0 || not (validate_entry_state v.capabilities (slot v i)) in
        elim (Bool-cases wrong) [
          | inl a ↦ rw (emulate_vm_entry, e, a) (fail-Leaves v vmfail_valid _ _ s)
          | inr a ↦ elim (Bool-cases invalid) [
            | inl b ↦ rw (emulate_vm_entry, e, a, b) (fail-Leaves v vmfail_valid _ _ s)
            | inr b ↦
                let (here, found) = current-found v i e in
                let (low, _) = found_region v.vmcs v.current_vmcs_gpa i found in
                let entered = record (at v.vmcs i) { state = vmcs_launched } in
                let keeps : KeepsSlot (at v.vmcs i) entered = record {
                  same_region = λ g. refl;
                  same_fields = refl;
                  same_state = inr (omega arith);
                } in
                rw (emulate_vm_entry, e, a, b)
                  (succeed-Leaves
                    (record (set_slot v i (record (slot v i) { state = vmcs_launched })) {
                      l2_running = 1;
                    })
                    _ _ _ (run-IsStore on here (set-IsStore i entered low keeps s)))
          ]
        ]
  ]

  pub invalidation-Leaves :
      (v : NestedVcpu S) (x : VmxInstruction) (capability : ℕ) (is_valid : ℕ × ℕ → Bool)
      → IsSound v
      → Leaves (emulate_invalidation v x capability is_valid)
  unfolding emulate_invalidation
  invalidation-Leaves v x capability is_valid s =
      elim (Bool-cases (any_bits v.capabilities.feature_bits capability)) [
        | inr a ↦ rw (emulate_invalidation, a) (leaves _ s)
        | inl a ↦ elim (Option-cases (read_descriptor v x)) [
          | inl e ↦ rw (emulate_invalidation, a, e) (leaves _ s)
          | inr (d, e) ↦ elim (Bool-cases (is_valid d)) [
            | inl b ↦ rw (emulate_invalidation, a, e, b) (succeed-Leaves v _ _ _ s)
            | inr b ↦ rw (emulate_invalidation, a, e, b) (leaves _ s)
          ]
        ]
      ]

  pub vmfunc-Leaves :
      (v : NestedVcpu S) (x : VmxInstruction) → IsSound v → Leaves (emulate_vmfunc v x)
  unfolding emulate_vmfunc
  vmfunc-Leaves v x s =
      elim (Option-cases (read_nested_vmcs_field v vmcs_field_secondary_controls)) [
        | inl e ↦ rw (emulate_vmfunc, e) (leaves _ s)
        | inr (secondary, e) ↦
            let wrong = x.source != 0 || leb v.capabilities.eptp_list_entries x.descriptor_type in
            elim (Bool-cases (any_bits secondary nested_secondary_enable_vmfunc)) [
              | inr a ↦ rw (emulate_vmfunc, e, a) (leaves _ s)
              | inl a ↦ elim (Bool-cases wrong) [
                | inl b ↦ rw (emulate_vmfunc, e, a, b) (fail-Leaves v vmfail_valid _ _ s)
                | inr b ↦
                    rw (emulate_vmfunc, e, a, b)
                      (succeed-Leaves (record v { eptp_index = x.descriptor_type }) _ _ _ s)
              ]
            ]
      ]
