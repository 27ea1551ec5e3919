-- ===== src/Nested/Instructions.antt =====
-- src/nested/nested_instructions.cpp: the VMX instructions that change or read the store.
use knhv.Prelude.{ℕ, ◌+◌, bit_and, bit_or, Bool, false, not, ◌&&◌, ◌||◌, Option, none, some}
use knhv.Prelude.Tests.{leb, ◌==◌, ◌!=◌, if◌then◌else◌}
use knhv.Prelude.Bits.{u64_max, u32, not32, any_bits}
use knhv.Prelude.Lists.{length, set}
use knhv.Abi.{
  cap_nested_vmx, capability_mismatch, nested_unavailable, vmfail_invalid, vmfail_valid, busy,
}
use knhv.Nested.Defs.{
  nested_model_version, nested_vmx_revision_mask, instruction_operand_is_register,
  descriptor_is_inline, vmcs_active, vmcs_launched, NestedAction, VmxInstruction, NestedResult,
  NestedVmcs12, resume_l1, enter_l2,
}
use knhv.Nested.Errors.{
  error_vmxon_in_vmx_operation, error_vmclear_invalid_address, error_vmclear_vmxon_pointer,
  error_vmptrld_invalid_address, error_vmptrld_vmxon_pointer, error_vmread_no_current,
  error_vmwrite_no_current, error_vmlaunch_nonclear, error_vmresume_nonlaunched,
  error_vm_entry_invalid_control, error_invalid_operand,
}
use knhv.Nested.Store.{find_field_rule, is_linear_range_canonical, find_slot, is_free, find_vmcs}
use knhv.Nested.Entry.{validate_entry_state}
use knhv.Nested.Memory.{write_linear}
use knhv.Nested.Vcpu.{
  NestedVcpu, blank_vmcs, make_result, make_success, slot, set_slot, current_vmcs,
  clear_vm_instruction_error, make_vmfail, read_nested_vmcs_field, write_nested_vmcs_field,
}
use knhv.Nested.Region.{to_bytes, validate_vmx_region}

abbrev pub instruction_length_of : VmxInstruction → ℕ
instruction_length_of x = if x.instruction_length == 0 then 3 else x.instruction_length

unfoldable pub instruction_is_valid : VmxInstruction → Bool
instruction_is_valid x =
    x.version == nested_model_version
    && leb 72 x.size
    && leb x.size (72 + 64)
    && x.reserved == 0
    && x.reserved2 == 0
    && not (any_bits x.flags (not32 (bit_or instruction_operand_is_register descriptor_is_inline)))
    && leb (instruction_length_of x) 15

-- A slot that has just been taken for a region.
abbrev pub fresh_vmcs : ℕ → ℕ → NestedVmcs12
fresh_vmcs region_gpa revision = record blank_vmcs {
  allocated = 1;
  region_gpa = region_gpa;
  revision = revision;
}

-- The test of `EmulateVmwrite` for a field that has a rule and is writable.
unfoldable pub is_field_writable : ℕ → Bool
unfolding find_field_rule
is_field_writable encoding = elim (find_field_rule encoding) [
  | none ↦ false
  | some r ↦ r.1.writable != 0
]

module _ {S : Type 0} where
  -- A success that clears the instruction error.
  abbrev pub succeed : NestedVcpu S → NestedAction → ℕ → ℕ → NestedResult × NestedVcpu S
  succeed v action length value = (make_success action length value, clear_vm_instruction_error v)

  unfoldable pub emulate_vmxon : NestedVcpu S → VmxInstruction → NestedResult × NestedVcpu S
  unfolding make_vmfail make_result validate_vmx_region make_success clear_vm_instruction_error
  emulate_vmxon v x =
      let length = instruction_length_of x in
      if v.vmxon_active != 0
      then make_vmfail v vmfail_valid error_vmxon_in_vmx_operation length
      else if not (any_bits v.capabilities.feature_bits cap_nested_vmx) || v.vmxe_enabled == 0
      then (make_result nested_unavailable resume_l1 0 length 0 0, v)
      else elim (validate_vmx_region v x.linear_operand) [
        | none ↦ make_vmfail v vmfail_invalid error_invalid_operand length
        | some region_gpa ↦
            succeed
              (record v {
                vmxon_active = 1;
                vmxon_gpa = region_gpa;
                current_vmcs_gpa = u64_max;
                l2_running = 0;
                generation = u32 (v.generation + 1);
              })
              resume_l1 length 0
      ]

  unfoldable pub emulate_vmxoff : NestedVcpu S → VmxInstruction → NestedResult × NestedVcpu S
  unfolding make_vmfail make_result make_success
  emulate_vmxoff v x =
      let length = instruction_length_of x in
      if v.vmxon_active == 0
      then make_vmfail v vmfail_invalid error_invalid_operand length
      else if v.l2_running != 0
      then (make_result busy resume_l1 0 length 0 0, v)
      else (
        make_success resume_l1 length 0,
        record v {
          vmxon_active = 0;
          l2_running = 0;
          current_vmcs_gpa = u64_max;
          generation = u32 (v.generation + 1);
        },
      )

  -- `AllocateVmcs`: the slot of a region, a free one taken for it, or `none` where all are taken.
  unfoldable pub allocate_vmcs : NestedVcpu S → ℕ → Option (ℕ × NestedVcpu S)
  unfolding find_vmcs find_slot
  allocate_vmcs v region_gpa = elim (find_vmcs v.vmcs region_gpa) [
    | some i ↦ some (i, v)
    | none ↦ elim (find_slot is_free v.vmcs) [
      | none ↦ none
      | some i ↦ some (
        i,
        record v {
          vmcs = set v.vmcs i (
              fresh_vmcs region_gpa (bit_and v.capabilities.vmx_revision nested_vmx_revision_mask));
          vmcs_count = u32 (v.vmcs_count + 1);
        },
      )
    ]
  ]

  -- `EmulateVmclear` on a region, after its tests: the slot is emptied, and no longer current.
  unfoldable pub clear_region : NestedVcpu S → ℕ → ℕ → ℕ → NestedResult × NestedVcpu S
  unfolding make_success clear_vm_instruction_error
  clear_region v i region_gpa length =
      succeed
        (record v {
          vmcs = set v.vmcs i (fresh_vmcs (slot v i).region_gpa (slot v i).revision);
          current_vmcs_gpa =
              if v.current_vmcs_gpa == region_gpa then u64_max else v.current_vmcs_gpa;
        })
        resume_l1 length 0

  unfoldable pub emulate_vmclear : NestedVcpu S → VmxInstruction → NestedResult × NestedVcpu S
  unfolding make_vmfail make_result validate_vmx_region allocate_vmcs clear_region
  emulate_vmclear v x =
      let length = instruction_length_of x in
      if v.l2_running != 0
      then (make_result busy resume_l1 0 length 0 0, v)
      else elim (validate_vmx_region v x.linear_operand) [
        | none ↦ make_vmfail v vmfail_invalid error_vmclear_invalid_address length
        | some region_gpa ↦
            if region_gpa == v.vmxon_gpa
            then make_vmfail v vmfail_valid error_vmclear_vmxon_pointer length
            else elim (allocate_vmcs v region_gpa) [
              | none ↦ make_vmfail v capability_mismatch error_invalid_operand length
              | some (i, w) ↦ clear_region w i region_gpa length
            ]
      ]

  -- `EmulateVmptrld` on a region, after its slot has been found or taken.
  unfoldable pub load_region : NestedVcpu S → ℕ → ℕ → ℕ → NestedResult × NestedVcpu S
  unfolding make_vmfail make_success clear_vm_instruction_error
  load_region v i region_gpa length =
      if (slot v i).state == vmcs_active && v.current_vmcs_gpa != region_gpa
      then make_vmfail v vmfail_valid error_invalid_operand length
      else succeed
          (record v {
            vmcs = set v.vmcs i (record (slot v i) { state = vmcs_active });
            current_vmcs_gpa = region_gpa;
          })
          resume_l1 length 0

  unfoldable pub emulate_vmptrld : NestedVcpu S → VmxInstruction → NestedResult × NestedVcpu S
  unfolding make_vmfail validate_vmx_region allocate_vmcs load_region
  emulate_vmptrld v x =
      let length = instruction_length_of x in
      elim (validate_vmx_region v x.linear_operand) [
        | none ↦ make_vmfail v vmfail_invalid error_vmptrld_invalid_address length
        | some region_gpa ↦
            if region_gpa == v.vmxon_gpa
            then make_vmfail v vmfail_valid error_vmptrld_vmxon_pointer length
            else elim (allocate_vmcs v region_gpa) [
              | none ↦ make_vmfail v capability_mismatch error_invalid_operand length
              | some (i, w) ↦ load_region w i region_gpa length
            ]
      ]

  -- The memory operand of `EmulateVmptrst` and `EmulateVmread`: the word is written, or the
  -- instruction fails, with the memory as the write leaves it.
  unfoldable pub store_word : NestedVcpu S → ℕ → ℕ → ℕ → NestedResult × NestedVcpu S
  unfolding is_linear_range_canonical write_linear make_vmfail make_success
      clear_vm_instruction_error
  store_word v destination value length =
      if not (is_linear_range_canonical v.capabilities destination 8)
      then make_vmfail v vmfail_invalid error_invalid_operand length
      else let (written, memory) = write_linear v.memory destination (to_bytes 8 value) in
        let w = record v { memory = memory } in
        if written
        then succeed w resume_l1 length 0
        else make_vmfail w vmfail_invalid error_invalid_operand length

  unfoldable pub emulate_vmptrst : NestedVcpu S → VmxInstruction → NestedResult × NestedVcpu S
  unfolding make_success store_word
  emulate_vmptrst v x =
      let length = instruction_length_of x in
      if any_bits x.flags instruction_operand_is_register
      then (make_success resume_l1 length v.current_vmcs_gpa, v)
      else store_word v x.destination v.current_vmcs_gpa length

  unfoldable pub emulate_vmread : NestedVcpu S → VmxInstruction → NestedResult × NestedVcpu S
  unfolding make_vmfail read_nested_vmcs_field store_word make_success clear_vm_instruction_error
  emulate_vmread v x =
      let length = instruction_length_of x in
      elim (read_nested_vmcs_field v x.encoding) [
        | none ↦ make_vmfail v vmfail_invalid error_vmread_no_current length
        | some value ↦
            if any_bits x.flags instruction_operand_is_register
            then succeed v resume_l1 length value
            else store_word v x.destination value length
      ]

  unfoldable pub emulate_vmwrite : NestedVcpu S → VmxInstruction → NestedResult × NestedVcpu S
  unfolding make_vmfail current_vmcs is_field_writable write_nested_vmcs_field make_success
      clear_vm_instruction_error
  emulate_vmwrite v x =
      let length = instruction_length_of x in
      elim (current_vmcs v) [
        | none ↦ make_vmfail v vmfail_invalid error_vmwrite_no_current length
        | some i ↦
            if not (is_field_writable x.encoding)
            then make_vmfail v vmfail_invalid error_vmwrite_no_current length
            else let (written, w) = write_nested_vmcs_field v x.encoding x.source in
              if written
              then succeed w resume_l1 length 0
              else make_vmfail v vmfail_valid error_vm_entry_invalid_control length
      ]

  -- `EmulateVmEntry`: a launch wants an active VMCS12, a resumption a launched one.
  unfoldable pub emulate_vm_entry :
      NestedVcpu S → VmxInstruction → Bool → NestedResult × NestedVcpu S
  unfolding make_vmfail current_vmcs validate_entry_state make_success clear_vm_instruction_error
  emulate_vm_entry v x launch =
      let length = instruction_length_of x in
      let wrong = if launch then error_vmlaunch_nonclear else error_vmresume_nonlaunched in
      elim (current_vmcs v) [
        | none ↦ make_vmfail v vmfail_invalid wrong length
        | some i ↦
            if (slot v i).state != (if launch then vmcs_active else vmcs_launched)
            then make_vmfail v vmfail_valid wrong length
            else if v.l2_running != 0 || not (validate_entry_state v.capabilities (slot v i))
            then make_vmfail v vmfail_valid error_vm_entry_invalid_control length
            else succeed
                (record (set_slot v i (record (slot v i) { state = vmcs_launched })) {
                  l2_running = 1;
                })
                enter_l2 length 0
      ]
