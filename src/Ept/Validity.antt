-- ===== src/Ept/Validity.antt =====
-- src/ept/ept_model.cpp: the tests on mappings, pointers and lookups.
use knhv.Prelude.{ℕ, ◌+◌, ◌-◌, ◌*◌, ◌/◌, ◌^◌, Bool, false, not, ◌&&◌, ◌||◌, Option, none, some}
use knhv.Prelude.Tests.{ltb, leb, ◌==◌, ◌!=◌, if◌then◌else◌}
use knhv.Prelude.Bits.{u64_max, not32, any_bits}
use knhv.Ept.Defs.{
  ept_contract_version, ept_max_struct_size, ept_page_shift, ept_page_size,
  ept_max_physical_address_bits, ept_min_walk_length, ept_max_walk_length, ept_memory_type_uc,
  ept_memory_type_wb, eptp_known_flag_mask, ept_mapping_flag_present, ept_mapping_flag_large_page,
  ept_mapping_known_flag_mask, ept_permission_read, ept_permission_write, ept_permission_execute,
  ept_permission_known_mask, ept_max_mapping_pages, access_read, access_write, access_execute,
  EptpConfig, EptMapping,
}

unfoldable pub is_versioned_size_valid : ℕ → ℕ → ℕ → Bool
is_versioned_size_valid version size required =
    version == ept_contract_version && leb required size && leb size ept_max_struct_size

unfoldable pub is_physical_address : ℕ → ℕ → Bool
is_physical_address address bits =
    leb ept_page_shift bits && leb bits ept_max_physical_address_bits && address / 2 ^ bits == 0

-- `AddOverflow`: the sum, or `none` where it does not fit 64 bits.
unfoldable pub checked_add : ℕ → ℕ → Option ℕ
checked_add left right = if ltb (u64_max - right) left then none else some (left + right)

-- Tests of the form `!AddOverflow(left, right, &last) && IsPhysicalAddress(last, bits)`.
unfoldable pub is_last_address : ℕ → ℕ → ℕ → Bool
unfolding checked_add is_physical_address
is_last_address left right bits = elim (checked_add left right) [
  | none ↦ false
  | some last ↦ is_physical_address last bits
]

-- `MappingSpan`: the page size and the bytes of a mapping, or `none` where it returns false.
unfoldable pub mapping_span : EptMapping → Option (ℕ × ℕ)
mapping_span m =
    let page_size = 2 ^ (ept_page_shift + m.page_order * 9) in
    if m.page_count == 0 || ltb ept_max_mapping_pages m.page_count || ltb 2 m.page_order
    then none
    else if ltb (u64_max / page_size) m.page_count
    then none
    else if m.page_count * page_size == 0
    then none
    else some (page_size, m.page_count * page_size)

unfoldable pub is_eptp_config_valid : Option EptpConfig → ℕ → Bool
unfolding is_versioned_size_valid is_physical_address
is_eptp_config_valid none max_physical_bits = false
is_eptp_config_valid (some c) max_physical_bits =
    is_versioned_size_valid c.version c.size 40
    && c.reserved == 0
    && not (any_bits c.flags (not32 eptp_known_flag_mask))
    && (c.memory_type == ept_memory_type_uc || c.memory_type == ept_memory_type_wb)
    && leb ept_min_walk_length c.walk_length
    && leb c.walk_length ept_max_walk_length
    && c.generation != 0
    && is_physical_address c.root_physical max_physical_bits
    && not (any_bits c.root_physical (ept_page_size - 1))

-- The tests of `IsEptMappingValid` on the page size and the bytes.
unfoldable pub is_span_valid : EptMapping → ℕ → ℕ → ℕ → Bool
unfolding is_physical_address is_last_address
is_span_valid m page_size span_bytes max_physical_bits =
    not (any_bits m.guest_physical (page_size - 1))
    && not (any_bits m.host_physical (page_size - 1))
    && not (m.page_order == 0 && any_bits m.flags ept_mapping_flag_large_page)
    && not (m.page_order != 0 && not (any_bits m.flags ept_mapping_flag_large_page))
    && is_physical_address m.guest_physical max_physical_bits
    && is_physical_address m.host_physical max_physical_bits
    && is_last_address m.guest_physical (span_bytes - 1) max_physical_bits
    && is_last_address m.host_physical (span_bytes - 1) max_physical_bits

unfoldable pub is_ept_mapping_valid : Option EptMapping → ℕ → Bool
unfolding is_versioned_size_valid mapping_span is_span_valid
is_ept_mapping_valid none max_physical_bits = false
is_ept_mapping_valid (some m) max_physical_bits =
    is_versioned_size_valid m.version m.size 56
    && not (any_bits m.flags (not32 ept_mapping_known_flag_mask))
    && any_bits m.flags ept_mapping_flag_present
    && not (any_bits m.permissions (not32 ept_permission_known_mask))
    && m.permissions != 0
    && (m.memory_type == ept_memory_type_uc || m.memory_type == ept_memory_type_wb)
    && m.generation != 0
    && elim (mapping_span m) [
      | none ↦ false
      | some (page_size, span_bytes) ↦ is_span_valid m page_size span_bytes max_physical_bits
    ]

unfoldable pub ept_mapping_contains : Option EptMapping → ℕ → Bool
unfolding is_ept_mapping_valid mapping_span
ept_mapping_contains none guest_physical = false
ept_mapping_contains (some m) guest_physical =
    is_ept_mapping_valid (some m) ept_max_physical_address_bits && elim (mapping_span m) [
      | none ↦ false
      | some (page_size, span_bytes) ↦
          leb m.guest_physical guest_physical && ltb (guest_physical - m.guest_physical) span_bytes
    ]

unfoldable pub is_ept_access_allowed : ℕ → ℕ → Bool
is_ept_access_allowed permissions access =
    if access == access_read
    then any_bits permissions ept_permission_read
    else if access == access_write
    then any_bits permissions ept_permission_write
    else if access == access_execute
    then any_bits permissions ept_permission_execute
    else false
