-- ===== src/Iommu/Dma.antt =====
-- src/iommu/iommu_model.cpp: mappings and `ResolveNestedDma`.
use knhv.Prelude.{ℕ, ◌-◌, Bool, false, not, ◌&&◌, ◌||◌, Option, none, some, bit_and}
use knhv.Prelude.Tests.{ltb, leb, ◌==◌, ◌!=◌, if◌then◌else◌}
use knhv.Prelude.Bits.{any_bits, not32}
use knhv.Iommu.Defs.{
  iommu_contract_version, mapping_present, mapping_host_owned, mapping_pinned, mapping_large_page,
  known_mapping_mask, permission_read, permission_write, known_permission_mask, access_read,
  access_write, IommuDmaMapping, IommuDmaResult, IommuLookupStatus, hit, not_present,
  permission_denied, stale, invalid, host_owned,
}
use knhv.Iommu.Validity.{
  is_versioned_size_valid, is_address_bits_valid, is_physical_address, checked_add, is_last_address,
  mapping_span,
}

-- The second half of `IsIommuDmaMappingValid`, for a page size and a span.
unfoldable pub is_span_valid : IommuDmaMapping → ℕ → ℕ → ℕ → Bool
is_span_valid m page_size span address_bits =
    not (any_bits m.iova (page_size - 1))
    && not (any_bits m.guest_physical (page_size - 1))
    && not (any_bits m.host_physical (page_size - 1))
    && not (m.page_order == 0 && any_bits m.flags mapping_large_page)
    && not (m.page_order != 0 && not (any_bits m.flags mapping_large_page))
    && is_physical_address m.iova address_bits
    && is_physical_address m.guest_physical address_bits
    && is_physical_address m.host_physical address_bits
    && is_last_address m.iova (span - 1) address_bits
    && is_last_address m.guest_physical (span - 1) address_bits
    && is_last_address m.host_physical (span - 1) address_bits

unfoldable pub is_iommu_dma_mapping_valid : Option IommuDmaMapping → ℕ → Bool
is_iommu_dma_mapping_valid none address_bits = false
is_iommu_dma_mapping_valid (some m) address_bits =
    is_versioned_size_valid m.version m.size 64
    && not (any_bits m.flags (not32 known_mapping_mask))
    && any_bits m.flags mapping_present
    && any_bits m.flags mapping_pinned
    && not (any_bits m.permissions (not32 known_permission_mask))
    && m.permissions != 0
    && m.reserved == 0
    && m.generation != 0
    && is_address_bits_valid address_bits
    && (elim (mapping_span m) [
      | none ↦ false
      | some (page_size, span) ↦ is_span_valid m page_size span address_bits
    ])

unfoldable pub iommu_dma_mapping_contains : Option IommuDmaMapping → ℕ → ℕ → Bool
iommu_dma_mapping_contains none iova address_bits = false
iommu_dma_mapping_contains (some m) iova address_bits =
    is_iommu_dma_mapping_valid (some m) address_bits && (elim (mapping_span m) [
      | none ↦ false
      | some (page_size, span) ↦ leb m.iova iova && ltb (iova - m.iova) span
    ])

unfoldable pub is_iommu_dma_access_allowed : ℕ → ℕ → Bool
is_iommu_dma_access_allowed permissions access =
    if access == access_read
    then any_bits permissions permission_read
    else if access == access_write
    then any_bits permissions permission_write
    else false

abbrev pub make_dma_result : IommuLookupStatus → ℕ → ℕ → ℕ → IommuDmaResult
make_dma_result status permissions host_physical generation = record {
  size = 32;
  version = iommu_contract_version;
  status = status;
  permissions = permissions;
  host_physical = host_physical;
  generation = generation;
}

-- The second translation, of an address that the first one gave.
unfoldable pub resolve_root : IommuDmaMapping → IommuDmaMapping → ℕ → ℕ → ℕ → IommuDmaResult
resolve_root l1 root guest_physical access address_bits =
    if not (iommu_dma_mapping_contains (some root) guest_physical address_bits)
    then make_dma_result not_present 0 0 root.generation
    else if any_bits root.flags mapping_host_owned
    then make_dma_result host_owned 0 0 root.generation
    else if not (is_iommu_dma_access_allowed root.permissions access)
    then make_dma_result permission_denied 0 0 root.generation
    else (elim (checked_add root.host_physical (guest_physical - root.iova)) [
      | none ↦ make_dma_result invalid 0 0 root.generation
      | some host_physical ↦
          if is_physical_address host_physical address_bits
          then make_dma_result hit (bit_and l1.permissions root.permissions) host_physical
              root.generation
          else make_dma_result invalid 0 0 root.generation
    ])

unfoldable pub resolve_nested_dma :
    Option IommuDmaMapping → Option IommuDmaMapping → ℕ → ℕ → ℕ → IommuDmaResult
resolve_nested_dma none root_ptr iova access address_bits = make_dma_result invalid 0 0 0
resolve_nested_dma (some l1) none iova access address_bits = make_dma_result invalid 0 0 0
resolve_nested_dma (some l1) (some root) iova access address_bits =
    if not (is_iommu_dma_mapping_valid (some l1) address_bits)
      || not (is_iommu_dma_mapping_valid (some root) address_bits)
    then make_dma_result invalid 0 0 0
    else if l1.generation != root.generation
    then make_dma_result stale 0 0 root.generation
    else if any_bits l1.flags mapping_host_owned
    then make_dma_result host_owned 0 0 root.generation
    else if not (iommu_dma_mapping_contains (some l1) iova address_bits)
    then make_dma_result not_present 0 0 root.generation
    else if not (is_iommu_dma_access_allowed l1.permissions access)
    then make_dma_result permission_denied 0 0 root.generation
    else (elim (checked_add l1.guest_physical (iova - l1.iova)) [
      | none ↦ make_dma_result invalid 0 0 root.generation
      | some guest_physical ↦ resolve_root l1 root guest_physical access address_bits
    ])
