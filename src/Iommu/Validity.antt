-- ===== src/Iommu/Validity.antt =====
-- src/iommu/iommu_model.cpp: the tests on the structures.
use knhv.Prelude.{
  ℕ, zero, suc, ◌+◌, ◌-◌, ◌*◌, ◌/◌, ◌^◌, Bool, true, false, not, ◌&&◌, ◌||◌, Option, none, some,
  List, [], ◌∷◌, bit_and,
}
use knhv.Prelude.Tests.{ltb, leb, ◌==◌, ◌!=◌, if◌then◌else◌}
use knhv.Prelude.Bits.{any_bits, not32, not64, u64_max}
use knhv.Iommu.Defs.{
  iommu_contract_version, iommu_max_struct_size, iommu_page_shift, iommu_max_physical_address_bits,
  iommu_max_reserved_ranges, iommu_max_mapping_pages, iommu_max_msix_vectors, iommu_page_size,
  known_capability_mask, device_isolation_complete, device_reset_reliable, device_has_rmrr,
  device_msix, known_device_mask, domain_nested, domain_interrupt_remap, domain_identity,
  known_domain_mask, known_ready_mask, known_assignment_mask, kind_host, kind_l1, kind_l2,
  kind_quarantine, state_empty, state_active, state_quarantined, state_retired, access_read,
  access_write, IommuBdf, IommuRange, IommuCapabilities, IommuDeviceProfile, IommuDomain,
  IommuDmaMapping, IommuAssignment, IommuFaultRecord,
}

unfoldable pub is_versioned_size_valid : ℕ → ℕ → ℕ → Bool
is_versioned_size_valid version size required =
    version == iommu_contract_version && leb required size && leb size iommu_max_struct_size

unfoldable pub is_address_bits_valid : ℕ → Bool
is_address_bits_valid bits = leb iommu_page_shift bits && leb bits iommu_max_physical_address_bits

unfoldable pub is_physical_address : ℕ → ℕ → Bool
unfolding is_address_bits_valid
is_physical_address value bits = is_address_bits_valid bits && value / 2 ^ bits == 0

-- `AddOverflow`: the sum, or `none` where it does not fit 64 bits.
unfoldable pub checked_add : ℕ → ℕ → Option ℕ
checked_add left right = if ltb (u64_max - right) left then none else some (left + right)

-- Tests of the form `!AddOverflow(left, right, &last) && IsPhysicalAddress(last, bits)`.
unfoldable pub is_last_address : ℕ → ℕ → ℕ → Bool
unfolding checked_add is_physical_address
is_last_address left right bits = elim (checked_add left right) [
  | none ↦ false
  | some last ↦ is_physical_address last bits
]

unfoldable pub is_enum_value_valid : ℕ → ℕ → ℕ → Bool
is_enum_value_valid value first last = leb first value && leb value last

unfoldable pub is_domain_kind_valid : ℕ → Bool
unfolding is_enum_value_valid
is_domain_kind_valid value = is_enum_value_valid value kind_host kind_quarantine

unfoldable pub is_domain_state_valid : ℕ → Bool
is_domain_state_valid value = leb value state_retired

unfoldable pub is_reset_method_valid : ℕ → Bool
is_reset_method_valid value = leb value 2

unfoldable pub is_dma_access_valid : ℕ → Bool
is_dma_access_valid value = value == access_read || value == access_write

unfoldable pub is_fault_reason_valid : ℕ → Bool
unfolding is_enum_value_valid
is_fault_reason_valid value = is_enum_value_valid value 1 6

unfoldable pub is_readiness_valid : ℕ → ℕ → Bool
is_readiness_valid readiness required =
    not (any_bits readiness (not32 known_ready_mask)) && bit_and readiness required == required

unfoldable pub is_same_bdf : IommuBdf → IommuBdf → Bool
is_same_bdf l r =
    l.segment == r.segment && l.bus == r.bus && l.device == r.device && l.function == r.function

unfoldable pub is_range_end_valid : ℕ → ℕ → ℕ → Bool
unfolding is_physical_address is_last_address
is_range_end_valid base length address_bits =
    length != 0
    && not (any_bits base (iommu_page_size - 1))
    && not (any_bits length (iommu_page_size - 1))
    && is_physical_address base address_bits
    && is_last_address base (length - 1) address_bits

-- `MappingSpan`: the page size and the bytes of a mapping, or `none` where it returns false.
unfoldable pub mapping_span : IommuDmaMapping → Option (ℕ × ℕ)
mapping_span m =
    let page_size = 2 ^ (iommu_page_shift + m.page_order * 9) in
    if m.page_count == 0 || ltb iommu_max_mapping_pages m.page_count || ltb 2 m.page_order
    then none
    else if ltb (u64_max / page_size) m.page_count
    then none
    else if m.page_count * page_size == 0
    then none
    else some (page_size, m.page_count * page_size)

unfoldable pub is_iommu_bdf_valid : IommuBdf → Bool
is_iommu_bdf_valid b =
    ltb b.device 32 && ltb b.function 8 && b.reserved0 == 0 && b.reserved1 == 0 && b.reserved2 == 0

unfoldable pub is_iommu_range_valid : IommuRange → ℕ → Bool
unfolding is_range_end_valid
is_iommu_range_valid r address_bits =
    r.flags == 0 && r.reserved == 0 && is_range_end_valid r.base r.length address_bits

unfoldable pub is_assignment_valid : IommuAssignment → Bool
unfolding is_versioned_size_valid is_iommu_bdf_valid is_reset_method_valid is_domain_state_valid
is_assignment_valid a =
    is_versioned_size_valid a.version a.size 64
    && is_iommu_bdf_valid a.bdf
    && is_reset_method_valid a.reset_method
    && not (any_bits a.flags (not32 known_assignment_mask))
    && is_domain_state_valid a.state
    && a.state != state_empty
    && a.owner_id != 0
    && a.domain_id != 0
    && a.generation != 0

unfoldable pub is_iommu_capabilities_valid : IommuCapabilities → Bool
unfolding is_versioned_size_valid is_address_bits_valid
is_iommu_capabilities_valid c =
    is_versioned_size_valid c.version c.size 48
    && not (any_bits c.feature_flags (not64 known_capability_mask))
    && is_address_bits_valid c.max_physical_address_bits
    && is_address_bits_valid c.max_domain_address_bits
    && leb c.max_domain_address_bits c.max_physical_address_bits
    && c.max_domains != 0
    && c.max_msix_vectors != 0
    && leb c.max_msix_vectors iommu_max_msix_vectors
    && leb c.max_reserved_ranges iommu_max_reserved_ranges
    && c.reserved == 0
    && c.generation != 0

-- The loop over the reserved ranges: so many are valid, the others zero.
unfoldable pub are_ranges_valid : ℕ → List IommuRange → ℕ → Bool
unfolding is_iommu_range_valid
are_ranges_valid count [] address_bits = true
are_ranges_valid zero (r ∷ rs) address_bits =
    r.base == 0
    && r.length == 0
    && r.flags == 0
    && r.reserved == 0
    && are_ranges_valid zero rs address_bits
are_ranges_valid (suc count) (r ∷ rs) address_bits =
    is_iommu_range_valid r address_bits && are_ranges_valid count rs address_bits

abbrev same_test : Bool → Bool → Bool
same_test true b = b
same_test false b = not b

unfoldable pub is_iommu_device_profile_valid : IommuDeviceProfile → ℕ → Bool
unfolding is_versioned_size_valid is_iommu_bdf_valid is_reset_method_valid is_address_bits_valid
    are_ranges_valid
is_iommu_device_profile_valid p address_bits =
    is_versioned_size_valid p.version p.size 160
    && is_iommu_bdf_valid p.bdf
    && not (any_bits p.flags (not32 known_device_mask))
    && is_reset_method_valid p.reset_method
    && is_address_bits_valid address_bits
    && leb iommu_page_shift p.dma_address_bits
    && leb p.dma_address_bits address_bits
    && leb p.dma_address_bits iommu_max_physical_address_bits
    && leb p.rmrr_count iommu_max_reserved_ranges
    && p.profile_generation != 0
    && p.reserved == 0
    && p.reserved2 == 0
    && p.dma_mask == 2 ^ p.dma_address_bits - 1
    && same_test (any_bits p.flags device_reset_reliable) (p.reset_method != 0)
    && same_test (any_bits p.flags device_has_rmrr) (p.rmrr_count != 0)
    && (if any_bits p.flags device_msix
        then p.max_msix_vectors != 0 && leb p.max_msix_vectors iommu_max_msix_vectors
        else p.max_msix_vectors == 0)
    && not (any_bits p.flags device_isolation_complete && p.isolation_group == 0)
    && not (not (any_bits p.flags device_has_rmrr) && p.rmrr_count != 0)
    && are_ranges_valid p.rmrr_count p.rmrr address_bits

-- What each kind of domain needs.
unfoldable pub is_kind_consistent : IommuDomain → Bool
is_kind_consistent d =
    if d.kind == kind_host
    then d.owner_id == 0
      && d.parent_domain_id == 0
      && any_bits d.flags domain_identity
      && d.state == state_active
    else if d.kind == kind_l1
    then d.owner_id != 0
      && any_bits d.flags domain_interrupt_remap
      && not (any_bits d.flags domain_nested)
      && d.state != state_empty
    else if d.kind == kind_l2
    then d.owner_id != 0
      && d.parent_domain_id != 0
      && any_bits d.flags domain_nested
      && any_bits d.flags domain_interrupt_remap
      && d.state != state_empty
    else if d.kind == kind_quarantine
    then d.state == state_quarantined
    else true

unfoldable pub is_iommu_domain_valid : IommuDomain → ℕ → Bool
unfolding is_versioned_size_valid is_domain_kind_valid is_domain_state_valid is_address_bits_valid
    is_physical_address is_kind_consistent
is_iommu_domain_valid d address_bits =
    is_versioned_size_valid d.version d.size 88
    && d.domain_id != 0
    && is_domain_kind_valid d.kind
    && is_domain_state_valid d.state
    && not (any_bits d.flags (not32 known_domain_mask))
    && is_address_bits_valid address_bits
    && leb iommu_page_shift d.address_bits
    && leb d.address_bits address_bits
    && d.generation != 0
    && leb d.guest_base d.guest_limit
    && is_physical_address d.guest_base d.address_bits
    && is_physical_address d.guest_limit d.address_bits
    && not (any_bits d.guest_base (iommu_page_size - 1))
    && leb d.mapped_pages iommu_max_mapping_pages
    && d.reserved == 0
    && d.reserved2 == 0
    && is_kind_consistent d

unfoldable pub is_iommu_fault_record_valid : IommuFaultRecord → ℕ → Bool
unfolding is_versioned_size_valid is_iommu_bdf_valid is_fault_reason_valid is_dma_access_valid
    is_physical_address
is_iommu_fault_record_valid f address_bits =
    is_versioned_size_valid f.version f.size 56
    && is_iommu_bdf_valid f.bdf
    && is_fault_reason_valid f.reason
    && is_dma_access_valid f.access
    && f.reserved == 0
    && f.generation != 0
    && f.sequence != 0
    && is_physical_address f.address address_bits
