-- ===== src/Nested/Run.antt =====
-- Rows of instructions and exits of src/nested/nested_instructions.cpp on a nested processor.
use knhv.Prelude.{
  ℕ, zero, suc, ◌+◌, ◌≡◌, refl, ◌≢◌, ◌⊎◌, inl, inr, Bool, true, false, not, ◌||◌, Option, none,
  some, List, [], ◌∷◌, arith,
}
use knhv.Prelude.Tests.{◌==◌, if◌then◌else◌, Bool-cases, Option-cases}
use knhv.Prelude.Bits.{u32}
use knhv.Prelude.Lists.{replicate}
use knhv.Abi.{cap_ept, cap_vpid}
use knhv.Nested.Defs.{
  opcode_vmxon, opcode_vmxoff, opcode_vmclear, opcode_vmptrld, opcode_vmptrst, opcode_vmread,
  opcode_vmwrite, opcode_vmlaunch, opcode_vmresume, opcode_invept, opcode_invvpid, opcode_vmfunc,
  opcode_vmcall, NestedCapabilities, VmxInstruction, NestedResult, NestedVmcs12, NestedExitRecord,
  resume_l1, reflect_vmexit,
}
use knhv.Nested.Memory.{NestedMemory}
use knhv.Nested.Vcpu.{NestedVcpu, blank_vmcs, make_success, slot, set_slot, current_vmcs}
use knhv.Nested.Region.{empty_slot, initialize_nested_vcpu}
use knhv.Nested.Instructions.{instruction_length_of, instruction_is_valid}
use knhv.Nested.Dispatch.{
  is_invept_valid, is_invvpid_valid, is_exit_record_valid, show_exit, emulate_invept,
  emulate_invvpid, dispatch_in_vmx, dispatch_nested_instruction, reflect_nested_exit,
}
use knhv.Nested.Slots.{at}
use knhv.Nested.Sound.{IsSound, found_region, set-IsStore, stop-IsStore}
use knhv.Nested.Keeps.{
  Leaves, leaves, current-found, succeed-Leaves, vmxon-Leaves, vmxoff-Leaves, vmclear-Leaves,
  vmptrld-Leaves,
}
use knhv.Nested.Leaves.{
  show_exit-KeepsSlot, vmptrst-Leaves, vmread-Leaves, vmwrite-Leaves, entry-Leaves,
  invalidation-Leaves, vmfunc-Leaves,
}

-- What reaches a nested processor: an instruction of its guest, an exit of the guest's guest, or the
-- setting of `vmxe_enabled`, as src/control/control_device.cpp does it.
pub data Event : Type 0 where
  instruct : Option VmxInstruction → Event
  exits : Option NestedExitRecord → Event
  enables : ℕ → Event

at-replicate :
    (n j : ℕ) (m : NestedVmcs12) → (at (replicate n m) j ≡ m) ⊎ (at (replicate n m) j ≡ blank_vmcs)
at-replicate zero j m = inr refl
at-replicate (suc n) zero m = inl refl
at-replicate (suc n) (suc j) m = at-replicate n j m

not_zero : (n : ℕ) → (n == 0) ≡ false → n ≢ 0
not_zero n h = ground arith

module _ {S : Type 0} where
  switch :
      (b : Bool) (x y : NestedResult × NestedVcpu S)
      → Leaves x
      → (b ≡ false → Leaves y)
      → Leaves (if b then x else y)
  switch true x y p q = p
  switch false x y p q = q refl

  invept-Leaves : (v : NestedVcpu S) (x : VmxInstruction) → IsSound v → Leaves (emulate_invept v x)
  unfolding emulate_invept
  invept-Leaves v x s =
      invalidation-Leaves v x cap_ept (is_invept_valid v.capabilities x.descriptor_type) s

  invvpid-Leaves :
      (v : NestedVcpu S) (x : VmxInstruction) → IsSound v → Leaves (emulate_invvpid v x)
  unfolding emulate_invvpid
  invvpid-Leaves v x s =
      invalidation-Leaves v x cap_vpid (is_invvpid_valid v.capabilities x.descriptor_type) s

  in_vmx-Leaves :
      (v : NestedVcpu S) (x : VmxInstruction)
      → v.vmxon_active ≢ 0
      → IsSound v
      → Leaves (dispatch_in_vmx v x)
  unfolding dispatch_in_vmx
  in_vmx-Leaves v x on s = switch (x.opcode == opcode_vmclear) _ _ (vmclear-Leaves v x s) (λ _.
      switch (x.opcode == opcode_vmptrld) _ _ (vmptrld-Leaves v x on s) (λ _.
        switch (x.opcode == opcode_vmptrst) _ _ (vmptrst-Leaves v x s) (λ _.
          switch (x.opcode == opcode_vmread) _ _ (vmread-Leaves v x s) (λ _.
            switch (x.opcode == opcode_vmwrite) _ _ (vmwrite-Leaves v x s) (λ _.
              switch (x.opcode == opcode_vmlaunch) _ _ (entry-Leaves v x true on s) (λ _.
                switch (x.opcode == opcode_vmresume) _ _ (entry-Leaves v x false on s) (λ _.
                  switch (x.opcode == opcode_invept) _ _ (invept-Leaves v x s) (λ _.
                    switch (x.opcode == opcode_invvpid) _ _ (invvpid-Leaves v x s) (λ _.
                      switch (x.opcode == opcode_vmfunc) _ _ (vmfunc-Leaves v x s) (λ _.
                        switch (x.opcode == opcode_vmcall) _ _
                          (succeed-Leaves v reflect_vmexit (instruction_length_of x) x.source s)
                          (λ _. leaves _ s)))))))))))

  dispatch-Leaves :
      (v : NestedVcpu S) (x : Option VmxInstruction)
      → IsSound v
      → Leaves (dispatch_nested_instruction v x)
  unfolding dispatch_nested_instruction
  dispatch-Leaves v none s = leaves _ s
  dispatch-Leaves v (some x) s = switch (not (instruction_is_valid x)) _ _ (leaves _ s) (λ _.
      switch (x.opcode == opcode_vmxon) _ _ (vmxon-Leaves v x s) (λ _.
        switch (v.vmxon_active == 0) _ _ (leaves _ s) (λ c.
          switch (x.opcode == opcode_vmxoff) _ _ (vmxoff-Leaves v x s)
            (λ _. in_vmx-Leaves v x (not_zero v.vmxon_active c) s))))

  -- The processor as an exit of its nested guest leaves it.
  abbrev pub exited : NestedVcpu S → ℕ → NestedExitRecord → NestedVcpu S
  exited v i e = record (set_slot v i (show_exit (slot v i) e)) {
    l2_running = 0;
    generation = u32 (v.generation + 1);
  }

  pub exited-IsSound :
      (v : NestedVcpu S) (i : ℕ) (e : NestedExitRecord)
      → current_vmcs v ≡ some i
      → IsSound v
      → IsSound (exited v i e)
  exited-IsSound v i e h s =
      let (_, found) = current-found v i h in
      let (low, _) = found_region v.vmcs v.current_vmcs_gpa i found in
      stop-IsStore (set-IsStore i _ low (show_exit-KeepsSlot (at v.vmcs i) e) s)

  reflect-Leaves :
      (v : NestedVcpu S) (e : Option NestedExitRecord)
      → IsSound v
      → Leaves (reflect_nested_exit v e)
  unfolding reflect_nested_exit
  reflect-Leaves v none s = leaves _ s
  reflect-Leaves v (some e) s =
      elim (Bool-cases (not (is_exit_record_valid e) || v.l2_running == 0)) [
        | inl a ↦ rw (reflect_nested_exit, a) (leaves _ s)
        | inr a ↦ elim (Option-cases (current_vmcs v)) [
          | inl f ↦ rw (reflect_nested_exit, a, f) (leaves _ s)
          | inr (i, f) ↦
              rw (reflect_nested_exit, a, f) (leaves (_, exited v i e) (exited-IsSound v i e f s))
        ]
      ]

  unfoldable pub step : NestedVcpu S → Event → NestedResult × NestedVcpu S
  step v (instruct x) = dispatch_nested_instruction v x
  step v (exits e) = reflect_nested_exit v e
  step v (enables n) = (make_success resume_l1 0 0, record v { vmxe_enabled = n })

  -- The processor after a row of events.
  unfoldable pub run : NestedVcpu S → List Event → NestedVcpu S
  unfolding step
  run v [] = v
  run v (e ∷ es) = run (step v e).1 es

  step-IsSound : (v : NestedVcpu S) (e : Event) → IsSound v → IsSound (step v e).1
  unfolding step Leaves
  step-IsSound v (instruct x) s = dispatch-Leaves v x s
  step-IsSound v (exits e) s = reflect-Leaves v e s
  step-IsSound v (enables n) s = s

  run-IsSound : (v : NestedVcpu S) (es : List Event) → IsSound v → IsSound (run v es)
  unfolding run
  run-IsSound v [] s = s
  run-IsSound v (e ∷ es) s = run-IsSound (step v e).1 es (step-IsSound v e s)

  initial-IsSound :
      (c : Option NestedCapabilities) (m : NestedMemory S) → IsSound (initialize_nested_vcpu c m)
  unfolding initialize_nested_vcpu
  initial-IsSound c m = record {
    count = refl;
    fields = λ j. elim (at-replicate 16 j (empty_slot c)) [ inl e ↦ rw e refl | inr e ↦ rw e refl ];
    unique = λ g j h. elim (at-replicate 16 j (empty_slot c)) [
      | inl e ↦ absurd (ground (arith, rw e at h))
      | inr e ↦ absurd (ground (arith, rw e at h))
    ];
    current_slot = λ here. absurd (here refl);
    running = λ h. absurd (h refl);
  }

  -- After any row of events on a processor that has been initialised, whatever its callbacks and
  -- memory answer: no two of the 16 slots hold one region, each has its 96 fields, the current VMCS12
  -- is in a slot and not clear, and a nested guest runs only in VMX operation on a current VMCS12.
  pub run_keeps_store :
      (c : Option NestedCapabilities) (m : NestedMemory S) (es : List Event)
      → IsSound (run (initialize_nested_vcpu c m) es)
  run_keeps_store c m es = run-IsSound (initialize_nested_vcpu c m) es (initial-IsSound c m)
