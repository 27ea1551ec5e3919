-- ===== src/Nested/Store.antt =====
-- src/nested/nested_vmcs.cpp: the rules of the fields, the VMCS12 slots and the tests on values.
use knhv.Prelude.{
  ℕ, suc, ◌+◌, ◌-◌, ◌/◌, ◌^◌, bit_and, bit_or, Bool, true, not, ◌&&◌, Option, none, some, List, [],
  ◌∷◌,
}
use knhv.Prelude.Tests.{ltb, leb, ◌==◌, ◌!=◌, if◌then◌else◌}
use knhv.Prelude.Bits.{u64_max, u32, not64, any_bits}
use knhv.Prelude.Lists.{length, get_or, set}
use knhv.Nested.Defs.{
  nested_vmcs_fields, nested_page_size, NestedCapabilities, NestedVmcs12, FieldRule,
  field_control_pin, field_control_primary, field_control_secondary, field_control_exit,
  field_control_entry,
}
use knhv.Nested.Rules.{field_rules}

-- `FindFieldRule`: the rule of an encoding, with its index in the table.
unfoldable pub find_rule_from : List FieldRule → ℕ → ℕ → Option (ℕ × FieldRule)
find_rule_from [] index encoding = none
find_rule_from (r ∷ rs) index encoding =
    let rest = find_rule_from rs (suc index) encoding in
    if r.encoding == encoding then some (index, r) else rest

unfoldable pub find_field_rule : ℕ → Option (ℕ × FieldRule)
unfolding find_rule_from
find_field_rule encoding = find_rule_from field_rules 0 encoding

-- `FieldIndex`, capped at the number of fields.
abbrev pub field_index : ℕ × FieldRule → ℕ
field_index r = if ltb r.0 nested_vmcs_fields then r.0 else nested_vmcs_fields

unfoldable pub field_mask : ℕ → ℕ
field_mask width = if width == 2 then 0xFFFF else if width == 4 then 0xFFFFFFFF else u64_max

unfoldable pub read_stored_field : NestedVmcs12 → ℕ × FieldRule → ℕ
read_stored_field m r = get_or m.fields (field_index r) 0

unfoldable pub write_stored_field : NestedVmcs12 → ℕ × FieldRule → ℕ → NestedVmcs12
unfolding field_mask
write_stored_field m r value = record m {
  fields = set m.fields (field_index r) (bit_and value (field_mask r.1.width));
  dirty_groups = bit_or m.dirty_groups (2 ^ bit_and r.1.clean_group 63);
}

unfoldable pub is_fixed_cr_valid : ℕ → ℕ → ℕ → Bool
is_fixed_cr_valid value fixed0 fixed1 =
    bit_and value fixed0 == fixed0 && not (fixed1 != 0 && any_bits value (not64 fixed1))

unfoldable pub is_canonical_address : ℕ → ℕ → Bool
is_canonical_address value address_bits =
    let bits = if leb 48 address_bits && leb address_bits 63 then address_bits else 48 in
    let low_mask = 2 ^ bits - 1 in
    let upper = bit_and value (not64 low_mask) in
    if bit_and value (2 ^ (bits - 1)) == 0 then upper == 0 else upper == not64 low_mask

-- `IsLinearRangeCanonical`, with the width that the capabilities give.
unfoldable pub is_linear_range_canonical : NestedCapabilities → ℕ → ℕ → Bool
unfolding is_canonical_address
is_linear_range_canonical c linear length =
    length != 0
    && leb linear (u64_max - (length - 1))
    && is_canonical_address linear c.linear_address_bits
    && is_canonical_address (linear + (length - 1)) c.linear_address_bits

unfoldable pub is_physical_address : ℕ → ℕ → Bool
is_physical_address value address_bits =
    value / 2 ^ (if leb 1 address_bits && leb address_bits 52 then address_bits else 48) == 0

unfoldable pub is_aligned_page : ℕ → Bool
is_aligned_page value = not (any_bits value (nested_page_size - 1))

-- The slots, searched in order.
unfoldable pub find_slot : (NestedVmcs12 → Bool) → List NestedVmcs12 → Option ℕ
find_slot test [] = none
find_slot test (m ∷ ms) =
    let rest = find_slot test ms in
    if test m then some 0 else elim rest [ none ↦ none | some i ↦ some (suc i) ]

abbrev pub is_region : ℕ → NestedVmcs12 → Bool
is_region region_gpa m = m.allocated != 0 && m.region_gpa == region_gpa

abbrev pub is_free : NestedVmcs12 → Bool
is_free m = m.allocated == 0

unfoldable pub find_vmcs : List NestedVmcs12 → ℕ → Option ℕ
unfolding find_slot
find_vmcs vmcs region_gpa = find_slot (is_region region_gpa) vmcs

unfoldable pub set_vmcs_read_only : NestedVmcs12 → ℕ → ℕ → NestedVmcs12
unfolding find_field_rule field_mask
set_vmcs_read_only m encoding value = elim (find_field_rule encoding) [
  | none ↦ m
  | some r ↦
      if leb nested_vmcs_fields (field_index r)
      then m
      else record m { fields = set m.fields (field_index r) (bit_and value (field_mask r.1.width)) }
]

-- The bounds of `ValidateControlValue` for a kind of control, or `none` for no control.
unfoldable pub allowed_controls : NestedCapabilities → ℕ → Option (ℕ × ℕ)
allowed_controls c kind =
    if kind == field_control_pin
    then some (c.pin_allowed0, c.pin_allowed1)
    else if kind == field_control_primary
    then some (c.primary_allowed0, c.primary_allowed1)
    else if kind == field_control_secondary
    then some (c.secondary_allowed0, c.secondary_allowed1)
    else if kind == field_control_exit
    then some (c.exit_allowed0, c.exit_allowed1)
    else if kind == field_control_entry
    then some (c.entry_allowed0, c.entry_allowed1)
    else none

unfoldable pub is_reserved_valid : FieldRule → ℕ → Bool
is_reserved_valid r value =
    not (any_bits value r.reserved_zero_mask)
    && bit_and value r.reserved_one_mask == r.reserved_one_mask

unfoldable pub validate_control_value : NestedCapabilities → FieldRule → ℕ → Bool
unfolding is_reserved_valid allowed_controls
validate_control_value c r value =
    is_reserved_valid r value && elim (allowed_controls c r.control_kind) [
      | none ↦ true
      | some (allowed0, allowed1) ↦ bit_and (bit_or (u32 value) allowed0) allowed1 == u32 value
    ]
