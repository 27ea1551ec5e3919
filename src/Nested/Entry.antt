-- ===== src/Nested/Entry.antt =====
-- src/nested/nested_vmcs.cpp: the tests on a VMCS12 before its guest is entered.
use knhv.Prelude.{ℕ, Bool, false, not, ◌&&◌, ◌||◌, none, some}
use knhv.Prelude.Tests.{leb, ◌!=◌}
use knhv.Prelude.Bits.{any_bits}
use knhv.Abi.{cap_ept, cap_vpid, cap_virtual_tlb_flush}
use knhv.Nested.Defs.{
  nested_secondary_enable_ept, nested_secondary_enable_vpid, nested_secondary_enable_vmfunc,
  vmcs_field_vpid, vmcs_field_ept_pointer, vmcs_field_pin_controls, vmcs_field_primary_controls,
  vmcs_field_exit_controls, vmcs_field_entry_controls, vmcs_field_secondary_controls,
  vmcs_field_guest_cr0, vmcs_field_guest_cr4, vmcs_field_guest_rsp, vmcs_field_guest_rip,
  vmcs_field_guest_rflags, vmcs_field_host_cr0, vmcs_field_host_cr4, vmcs_field_host_rsp,
  vmcs_field_host_rip, NestedCapabilities, NestedVmcs12,
}
use knhv.Nested.Rules.{primary_activate_secondary}
use knhv.Nested.Store.{
  find_field_rule, read_stored_field, is_fixed_cr_valid, is_canonical_address, is_physical_address,
  is_aligned_page, validate_control_value,
}

-- The value of a field, 0 for an encoding that has no rule.
unfoldable pub stored : NestedVmcs12 → ℕ → ℕ
unfolding find_field_rule read_stored_field
stored m encoding = elim (find_field_rule encoding) [ none ↦ 0 | some r ↦ read_stored_field m r ]

unfoldable pub is_control_valid : NestedCapabilities → NestedVmcs12 → ℕ → Bool
unfolding find_field_rule read_stored_field validate_control_value
is_control_valid c m encoding = elim (find_field_rule encoding) [
  | none ↦ false
  | some r ↦ validate_control_value c r.1 (read_stored_field m r)
]

unfoldable pub are_controls_valid : NestedCapabilities → NestedVmcs12 → Bool
unfolding is_control_valid stored
are_controls_valid c m =
    is_control_valid c m vmcs_field_pin_controls
    && is_control_valid c m vmcs_field_primary_controls
    && is_control_valid c m vmcs_field_secondary_controls
    && is_control_valid c m vmcs_field_exit_controls
    && is_control_valid c m vmcs_field_entry_controls
    && not (
        stored m vmcs_field_secondary_controls != 0
        && not (any_bits (stored m vmcs_field_primary_controls) primary_activate_secondary))

unfoldable pub are_registers_valid : NestedCapabilities → NestedVmcs12 → Bool
unfolding stored is_fixed_cr_valid is_canonical_address
are_registers_valid c m =
    is_fixed_cr_valid (stored m vmcs_field_guest_cr0) c.cr0_fixed0 c.cr0_fixed1
    && is_fixed_cr_valid (stored m vmcs_field_host_cr0) c.cr0_fixed0 c.cr0_fixed1
    && is_fixed_cr_valid (stored m vmcs_field_guest_cr4) c.cr4_fixed0 c.cr4_fixed1
    && is_fixed_cr_valid (stored m vmcs_field_host_cr4) c.cr4_fixed0 c.cr4_fixed1
    && is_canonical_address (stored m vmcs_field_guest_rip) c.linear_address_bits
    && is_canonical_address (stored m vmcs_field_guest_rsp) c.linear_address_bits
    && is_canonical_address (stored m vmcs_field_host_rip) c.linear_address_bits
    && is_canonical_address (stored m vmcs_field_host_rsp) c.linear_address_bits
    && any_bits (stored m vmcs_field_guest_rflags) 2

unfoldable pub are_features_valid : NestedCapabilities → NestedVmcs12 → Bool
unfolding stored is_aligned_page is_physical_address
are_features_valid c m =
    let secondary = stored m vmcs_field_secondary_controls in
    let eptp = stored m vmcs_field_ept_pointer in
    let vpid = stored m vmcs_field_vpid in
    (not (any_bits secondary nested_secondary_enable_ept)
      || (any_bits c.feature_bits cap_ept
          && is_aligned_page eptp
          && is_physical_address eptp c.max_physical_address_bits))
    && (not (any_bits secondary nested_secondary_enable_vpid)
        || (any_bits c.feature_bits cap_vpid && vpid != 0 && leb vpid c.vpid_count))
    && not (
        any_bits secondary nested_secondary_enable_vmfunc
        && not (any_bits c.feature_bits cap_virtual_tlb_flush))

unfoldable pub validate_entry_state : NestedCapabilities → NestedVmcs12 → Bool
unfolding are_controls_valid are_registers_valid are_features_valid
validate_entry_state c m =
    are_controls_valid c m && are_registers_valid c m && are_features_valid c m
