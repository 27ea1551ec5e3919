-- ===== src/Nested/Dispatch.antt =====
-- src/nested/nested_instructions.cpp: the invalidations, VMFUNC, the dispatch and the reflection of exits.
use knhv.Prelude.{ℕ, ◌+◌, Bool, true, false, not, ◌&&◌, ◌||◌, Option, none, some}
use knhv.Prelude.Tests.{leb, ◌==◌, ◌!=◌, if◌then◌else◌}
use knhv.Prelude.Bits.{u32, any_bits}
use knhv.Prelude.Lists.{take}
use knhv.Abi.{
  cap_ept, cap_vpid, invalid_parameter, vmfail_invalid, vmfail_valid, virtual_unsupported,
  recovery_required,
}
use knhv.Nested.Defs.{
  nested_model_version, descriptor_is_inline, nested_secondary_enable_vmfunc,
  vmcs_field_secondary_controls, vmcs_field_exit_reason, vmcs_field_exit_qualification,
  opcode_vmxon, opcode_vmxoff, opcode_vmclear, opcode_vmptrld, opcode_vmptrst, opcode_vmread,
  opcode_vmwrite, opcode_vmlaunch, opcode_vmresume, opcode_invept, opcode_invvpid, opcode_vmfunc,
  opcode_vmcall, memory_read, NestedCapabilities, VmxInstruction, NestedResult, NestedVmcs12,
  NestedExitRecord, resume_l1, reflect_vmexit, inject_undefined_instruction,
  action_virtual_unsupported, quarantine_session,
}
use knhv.Nested.Errors.{error_invalid_operand}
use knhv.Nested.Store.{
  is_canonical_address, is_linear_range_canonical, is_physical_address, is_aligned_page,
  set_vmcs_read_only,
}
use knhv.Nested.Memory.{drop, read_linear}
use knhv.Nested.Vcpu.{
  NestedVcpu, make_result, make_success, slot, set_slot, current_vmcs, clear_vm_instruction_error,
  make_vmfail, read_nested_vmcs_field,
}
use knhv.Nested.Region.{from_bytes}
use knhv.Nested.Instructions.{
  instruction_length_of, instruction_is_valid, succeed, emulate_vmxon, emulate_vmxoff,
  emulate_vmclear, emulate_vmptrld, emulate_vmptrst, emulate_vmread, emulate_vmwrite,
  emulate_vm_entry,
}

unfoldable pub is_invept_valid : NestedCapabilities → ℕ → ℕ × ℕ → Bool
unfolding is_aligned_page is_physical_address
is_invept_valid c kind d =
    d.1 == 0
    && (kind == 1 || kind == 2)
    && not (
        kind == 1
        && not (is_aligned_page d.0 && is_physical_address d.0 c.max_physical_address_bits))

unfoldable pub is_invvpid_valid : NestedCapabilities → ℕ → ℕ × ℕ → Bool
unfolding is_canonical_address
is_invvpid_valid c kind d =
    d.0 != 0
    && leb d.0 c.vpid_count
    && leb kind 3
    && not ((kind == 0 || kind == 2) && not (is_canonical_address d.1 c.linear_address_bits))

unfoldable pub is_exit_record_valid : NestedExitRecord → Bool
is_exit_record_valid e =
    e.version == nested_model_version
    && leb 40 e.size
    && leb e.size (40 + 64)
    && leb e.instruction_length 15

-- A VMCS12 with an exit in its read-only fields.
unfoldable pub show_exit : NestedVmcs12 → NestedExitRecord → NestedVmcs12
unfolding set_vmcs_read_only
show_exit m e =
    set_vmcs_read_only
      (set_vmcs_read_only (set_vmcs_read_only m vmcs_field_exit_reason e.reason)
        vmcs_field_exit_qualification e.qualification)
      0x440C e.instruction_length

module _ {S : Type 0} where
  -- `ReadDescriptor`: the two words of a descriptor, or `none` where it returns false.
  unfoldable pub read_descriptor : NestedVcpu S → VmxInstruction → Option (ℕ × ℕ)
  unfolding is_linear_range_canonical read_linear
  read_descriptor v x =
      if any_bits x.flags descriptor_is_inline
      then some (x.descriptor, x.destination)
      else if not (is_linear_range_canonical v.capabilities x.linear_operand 16)
      then none
      else elim (read_linear v.memory x.linear_operand 16 memory_read) [
        | none ↦ none
        | some bytes ↦ some (from_bytes (take 8 bytes), from_bytes (drop 8 bytes))
      ]

  -- `EmulateInvept` and `EmulateInvvpid`, by the capability that each wants and the test of each.
  unfoldable pub emulate_invalidation :
      NestedVcpu S → VmxInstruction → ℕ → (ℕ × ℕ → Bool) → NestedResult × NestedVcpu S
  unfolding make_result read_descriptor make_vmfail make_success clear_vm_instruction_error
  emulate_invalidation v x capability is_valid =
      let length = instruction_length_of x in
      if not (any_bits v.capabilities.feature_bits capability)
      then (make_result virtual_unsupported action_virtual_unsupported 0 length 0 0, v)
      else elim (read_descriptor v x) [
        | none ↦ make_vmfail v vmfail_invalid error_invalid_operand length
        | some d ↦
            if is_valid d
            then succeed v resume_l1 length 0
            else make_vmfail v vmfail_invalid error_invalid_operand length
      ]

  unfoldable pub emulate_invept : NestedVcpu S → VmxInstruction → NestedResult × NestedVcpu S
  unfolding emulate_invalidation is_invept_valid
  emulate_invept v x =
      emulate_invalidation v x cap_ept (is_invept_valid v.capabilities x.descriptor_type)

  unfoldable pub emulate_invvpid : NestedVcpu S → VmxInstruction → NestedResult × NestedVcpu S
  unfolding emulate_invalidation is_invvpid_valid
  emulate_invvpid v x =
      emulate_invalidation v x cap_vpid (is_invvpid_valid v.capabilities x.descriptor_type)

  unfoldable pub emulate_vmfunc : NestedVcpu S → VmxInstruction → NestedResult × NestedVcpu S
  unfolding read_nested_vmcs_field make_result make_vmfail make_success clear_vm_instruction_error
  emulate_vmfunc v x =
      let length = instruction_length_of x in
      let unsupported = make_result virtual_unsupported action_virtual_unsupported 0 length 0 0 in
      elim (read_nested_vmcs_field v vmcs_field_secondary_controls) [
        | none ↦ (unsupported, v)
        | some secondary ↦
            if not (any_bits secondary nested_secondary_enable_vmfunc)
            then (unsupported, v)
            else if x.source != 0 || leb v.capabilities.eptp_list_entries x.descriptor_type
            then make_vmfail v vmfail_valid error_invalid_operand length
            else succeed (record v { eptp_index = x.descriptor_type }) resume_l1 length 0
      ]

  -- The switch of `DispatchNestedInstruction`, in VMX operation.
  unfoldable pub dispatch_in_vmx : NestedVcpu S → VmxInstruction → NestedResult × NestedVcpu S
  unfolding emulate_vmclear emulate_vmptrld emulate_vmptrst emulate_vmread emulate_vmwrite
      emulate_vm_entry emulate_invept emulate_invvpid emulate_vmfunc make_success
      clear_vm_instruction_error make_result
  dispatch_in_vmx v x =
      let length = instruction_length_of x in
      if x.opcode == opcode_vmclear
      then emulate_vmclear v x
      else if x.opcode == opcode_vmptrld
      then emulate_vmptrld v x
      else if x.opcode == opcode_vmptrst
      then emulate_vmptrst v x
      else if x.opcode == opcode_vmread
      then emulate_vmread v x
      else if x.opcode == opcode_vmwrite
      then emulate_vmwrite v x
      else if x.opcode == opcode_vmlaunch
      then emulate_vm_entry v x true
      else if x.opcode == opcode_vmresume
      then emulate_vm_entry v x false
      else if x.opcode == opcode_invept
      then emulate_invept v x
      else if x.opcode == opcode_invvpid
      then emulate_invvpid v x
      else if x.opcode == opcode_vmfunc
      then emulate_vmfunc v x
      else if x.opcode == opcode_vmcall
      then succeed v reflect_vmexit length x.source
      else (make_result virtual_unsupported inject_undefined_instruction 0 length 0 0, v)

  unfoldable pub dispatch_nested_instruction :
      NestedVcpu S → Option VmxInstruction → NestedResult × NestedVcpu S
  unfolding instruction_is_valid make_result emulate_vmxon make_vmfail emulate_vmxoff
      dispatch_in_vmx
  dispatch_nested_instruction v none = (make_result invalid_parameter resume_l1 0 0 0 0, v)
  dispatch_nested_instruction v (some x) =
      let length = instruction_length_of x in
      if not (instruction_is_valid x)
      then (make_result invalid_parameter resume_l1 0 length 0 0, v)
      else if x.opcode == opcode_vmxon
      then emulate_vmxon v x
      else if v.vmxon_active == 0
      then make_vmfail v vmfail_invalid error_invalid_operand length
      else if x.opcode == opcode_vmxoff
      then emulate_vmxoff v x
      else dispatch_in_vmx v x

  unfoldable pub reflect_nested_exit :
      NestedVcpu S → Option NestedExitRecord → NestedResult × NestedVcpu S
  unfolding make_result is_exit_record_valid current_vmcs show_exit make_success
  reflect_nested_exit v none = (make_result invalid_parameter quarantine_session 0 0 0 0, v)
  reflect_nested_exit v (some e) =
      if not (is_exit_record_valid e) || v.l2_running == 0
      then (make_result invalid_parameter quarantine_session 0 0 0 0, v)
      else elim (current_vmcs v) [
        | none ↦ (make_result recovery_required quarantine_session 0 e.instruction_length 0 0, v)
        | some i ↦ (
          make_success reflect_vmexit e.instruction_length 0,
          record (set_slot v i (show_exit (slot v i) e)) {
            l2_running = 0;
            generation = u32 (v.generation + 1);
          },
        )
      ]
