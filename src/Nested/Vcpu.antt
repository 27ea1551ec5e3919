-- ===== src/Nested/Vcpu.antt =====
-- src/nested/nested_vmcs.cpp: the state of a nested processor, its current VMCS12 and its results.
use knhv.Prelude.{ℕ, bit_and, Bool, true, false, not, ◌||◌, Option, none, some, List, []}
use knhv.Prelude.Tests.{leb, ◌==◌, if◌then◌else◌}
use knhv.Prelude.Bits.{u64_max}
use knhv.Prelude.Lists.{get_or, set, replicate}
use knhv.Abi.{HvStatus, success, vmfail_valid}
use knhv.Nested.Defs.{
  nested_vmcs_fields, rflags_carry, rflags_zero, vmcs_field_instruction_error, vmcs_clear,
  NestedAction, NestedCapabilities, NestedResult, NestedVmcs12, resume_l1,
}
use knhv.Nested.Store.{
  find_field_rule, field_index, field_mask, write_stored_field, find_vmcs, set_vmcs_read_only,
  is_reserved_valid, validate_control_value,
}
use knhv.Nested.Memory.{NestedMemory}

pub record NestedVcpu (S : Type 0) : Type 0 where
  pub version : ℕ
  pub size : ℕ
  pub capabilities : NestedCapabilities
  pub memory : NestedMemory S
  pub vmxon_active : ℕ
  pub l2_running : ℕ
  pub vmxe_enabled : ℕ
  pub reserved : ℕ
  pub vmxon_gpa : ℕ
  pub current_vmcs_gpa : ℕ
  pub instruction_error : ℕ
  pub generation : ℕ
  pub vmcs_count : ℕ
  pub eptp_index : ℕ
  pub vmcs : List NestedVmcs12

-- A slot of zeros, also read out of the array.
abbrev pub blank_vmcs : NestedVmcs12
blank_vmcs = record {
  region_gpa = 0;
  revision = 0;
  state = vmcs_clear;
  allocated = 0;
  reserved = [];
  fields = replicate nested_vmcs_fields 0;
  dirty_groups = 0;
}

unfoldable pub make_result : HvStatus → NestedAction → ℕ → ℕ → ℕ → ℕ → NestedResult
make_result status action instruction_error instruction_length rflags value = record {
  status = status;
  action = action;
  instruction_error = instruction_error;
  instruction_length = instruction_length;
  reserved = 0;
  rflags = rflags;
  value = value;
}

unfoldable pub make_success : NestedAction → ℕ → ℕ → NestedResult
unfolding make_result
make_success action instruction_length value =
    make_result success action 0 instruction_length 0 value

abbrev pub is_vmfail_valid : HvStatus → Bool
is_vmfail_valid vmfail_valid = true
is_vmfail_valid _ = false

module _ {S : Type 0} where
  abbrev pub slot : NestedVcpu S → ℕ → NestedVmcs12
  slot v i = get_or v.vmcs i blank_vmcs

  abbrev pub set_slot : NestedVcpu S → ℕ → NestedVmcs12 → NestedVcpu S
  set_slot v i m = record v { vmcs = set v.vmcs i m }

  -- The slot of the current VMCS12.
  unfoldable pub current_vmcs : NestedVcpu S → Option ℕ
  unfolding find_vmcs
  current_vmcs v =
      if v.current_vmcs_gpa == u64_max then none else find_vmcs v.vmcs v.current_vmcs_gpa

  -- A processor that shows an instruction error, also in its current VMCS12.
  unfoldable pub show_error : NestedVcpu S → ℕ → NestedVcpu S
  unfolding current_vmcs set_vmcs_read_only
  show_error v error =
      let w = record v { instruction_error = error } in
      elim (current_vmcs v) [
        | none ↦ w
        | some i ↦ set_slot w i (set_vmcs_read_only (slot v i) vmcs_field_instruction_error error)
      ]

  unfoldable pub clear_vm_instruction_error : NestedVcpu S → NestedVcpu S
  unfolding show_error
  clear_vm_instruction_error v = show_error v 0

  unfoldable pub make_vmfail : NestedVcpu S → HvStatus → ℕ → ℕ → NestedResult × NestedVcpu S
  unfolding make_result show_error
  make_vmfail v status instruction_error instruction_length =
      let valid = is_vmfail_valid status in
      (
        make_result status resume_l1 (if valid then instruction_error else 0) instruction_length
            (if valid then rflags_zero else rflags_carry) 0,
        if valid then show_error v instruction_error else v,
      )

  -- The value of `ReadNestedVmcsField`, or `none` where it returns false.
  unfoldable pub read_nested_vmcs_field : NestedVcpu S → ℕ → Option ℕ
  unfolding current_vmcs find_field_rule field_mask
  read_nested_vmcs_field v encoding = elim (current_vmcs v) [
    | none ↦ none
    | some i ↦ elim (find_field_rule encoding) [
      | none ↦ none
      | some r ↦
          if leb nested_vmcs_fields (field_index r)
          then none
          else some (bit_and (get_or (slot v i).fields (field_index r) 0) (field_mask r.1.width))
    ]
  ]

  unfoldable pub write_nested_vmcs_field : NestedVcpu S → ℕ → ℕ → Bool × NestedVcpu S
  unfolding current_vmcs find_field_rule is_reserved_valid validate_control_value write_stored_field
  write_nested_vmcs_field v encoding value = elim (current_vmcs v) [
    | none ↦ (false, v)
    | some i ↦ elim (find_field_rule encoding) [
      | none ↦ (false, v)
      | some r ↦
          if r.1.writable == 0
            || leb nested_vmcs_fields (field_index r)
            || not (is_reserved_valid r.1 value)
            || not (validate_control_value v.capabilities r.1 value)
          then (false, v)
          else (true, set_slot v i (write_stored_field (slot v i) r value))
    ]
  ]
