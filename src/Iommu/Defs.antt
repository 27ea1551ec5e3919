-- ===== src/Iommu/Defs.antt =====
-- The constants and structures of src/include/knhv_iommu.h.
use knhv.Prelude.{ℕ, List}

abbrev pub iommu_contract_version : ℕ
iommu_contract_version = 1

abbrev pub iommu_max_struct_size : ℕ
iommu_max_struct_size = 4096

abbrev pub iommu_page_size : ℕ
iommu_page_size = 4096

abbrev pub iommu_page_shift : ℕ
iommu_page_shift = 12

abbrev pub iommu_max_physical_address_bits : ℕ
iommu_max_physical_address_bits = 52

abbrev pub iommu_max_reserved_ranges : ℕ
iommu_max_reserved_ranges = 4

abbrev pub iommu_max_mapping_pages : ℕ
iommu_max_mapping_pages = 0x100000

abbrev pub iommu_max_msix_vectors : ℕ
iommu_max_msix_vectors = 2048

abbrev pub cap_queued_invalidation : ℕ
cap_queued_invalidation = 0x1

abbrev pub cap_interrupt_remapping : ℕ
cap_interrupt_remapping = 0x2

abbrev pub cap_nested_translation : ℕ
cap_nested_translation = 0x4

abbrev pub cap_ats : ℕ
cap_ats = 0x8

abbrev pub cap_pri : ℕ
cap_pri = 0x10

abbrev pub cap_pasid : ℕ
cap_pasid = 0x20

abbrev pub known_capability_mask : ℕ
known_capability_mask = 0x7f

abbrev pub device_host_owned : ℕ
device_host_owned = 0x1

abbrev pub device_system_critical : ℕ
device_system_critical = 0x2

abbrev pub device_display : ℕ
device_display = 0x4

abbrev pub device_isolation_complete : ℕ
device_isolation_complete = 0x8

abbrev pub device_reset_reliable : ℕ
device_reset_reliable = 0x10

abbrev pub device_allow_l1 : ℕ
device_allow_l1 = 0x20

abbrev pub device_allow_l2 : ℕ
device_allow_l2 = 0x40

abbrev pub device_ats : ℕ
device_ats = 0x100

abbrev pub device_pri : ℕ
device_pri = 0x200

abbrev pub device_pasid : ℕ
device_pasid = 0x400

abbrev pub device_has_rmrr : ℕ
device_has_rmrr = 0x800

abbrev pub device_msix : ℕ
device_msix = 0x1000

abbrev pub known_device_mask : ℕ
known_device_mask = 0x1fff

abbrev pub domain_nested : ℕ
domain_nested = 0x1

abbrev pub domain_interrupt_remap : ℕ
domain_interrupt_remap = 0x2

abbrev pub domain_identity : ℕ
domain_identity = 0x8

abbrev pub known_domain_mask : ℕ
known_domain_mask = 0xf

abbrev pub mapping_present : ℕ
mapping_present = 0x1

abbrev pub mapping_host_owned : ℕ
mapping_host_owned = 0x2

abbrev pub mapping_pinned : ℕ
mapping_pinned = 0x4

abbrev pub mapping_large_page : ℕ
mapping_large_page = 0x8

abbrev pub known_mapping_mask : ℕ
known_mapping_mask = 0xf

abbrev pub permission_read : ℕ
permission_read = 0x1

abbrev pub permission_write : ℕ
permission_write = 0x2

abbrev pub known_permission_mask : ℕ
known_permission_mask = 0x3

abbrev pub known_ready_mask : ℕ
known_ready_mask = 0xf

abbrev pub activate_ready_mask : ℕ
activate_ready_mask = 0xf

abbrev pub detach_ready_mask : ℕ
detach_ready_mask = 0x7

abbrev pub complete_detach_ready_mask : ℕ
complete_detach_ready_mask = 0xf

abbrev pub assignment_nested : ℕ
assignment_nested = 0x1

abbrev pub assignment_interrupt_remap : ℕ
assignment_interrupt_remap = 0x2

abbrev pub assignment_quarantined : ℕ
assignment_quarantined = 0x4

abbrev pub known_assignment_mask : ℕ
known_assignment_mask = 0x7

-- The codes of `IommuDomainKind`, `IommuDomainState` and `IommuDmaAccess`; the fields are raw numbers.
abbrev pub kind_host : ℕ
kind_host = 1

abbrev pub kind_l1 : ℕ
kind_l1 = 2

abbrev pub kind_l2 : ℕ
kind_l2 = 3

abbrev pub kind_quarantine : ℕ
kind_quarantine = 4

abbrev pub state_empty : ℕ
state_empty = 0

abbrev pub state_prepared : ℕ
state_prepared = 1

abbrev pub state_active : ℕ
state_active = 2

abbrev pub state_draining : ℕ
state_draining = 3

abbrev pub state_quarantined : ℕ
state_quarantined = 4

abbrev pub state_retired : ℕ
state_retired = 5

abbrev pub access_read : ℕ
access_read = 1

abbrev pub access_write : ℕ
access_write = 2

pub data IommuLookupStatus : Type 0 where
  hit not_present permission_denied stale invalid host_owned quarantined : IommuLookupStatus

pub data IommuAssignmentStatus : Type 0 where
  success invalid_parameter capability_mismatch isolation_incomplete : IommuAssignmentStatus
  host_owned_device critical_device reset_unsupported generation_mismatch : IommuAssignmentStatus
  domain_invalid address_invalid quiesce_required state_conflict : IommuAssignmentStatus
  fault_quarantined : IommuAssignmentStatus

abbrev pub status_code : IommuAssignmentStatus → ℕ
status_code success = 0
status_code invalid_parameter = 1
status_code capability_mismatch = 2
status_code isolation_incomplete = 3
status_code host_owned_device = 4
status_code critical_device = 5
status_code reset_unsupported = 6
status_code generation_mismatch = 7
status_code domain_invalid = 8
status_code address_invalid = 9
status_code quiesce_required = 10
status_code state_conflict = 11
status_code fault_quarantined = 12

-- The array `reserved[3]` is three fields.
pub record IommuBdf : Type 0 where
  pub segment : ℕ
  pub bus : ℕ
  pub device : ℕ
  pub function : ℕ
  pub reserved0 : ℕ
  pub reserved1 : ℕ
  pub reserved2 : ℕ

pub record IommuRange : Type 0 where
  pub base : ℕ
  pub length : ℕ
  pub flags : ℕ
  pub reserved : ℕ

pub record IommuCapabilities : Type 0 where
  pub size : ℕ
  pub version : ℕ
  pub feature_flags : ℕ
  pub max_physical_address_bits : ℕ
  pub max_domain_address_bits : ℕ
  pub max_domains : ℕ
  pub max_msix_vectors : ℕ
  pub max_reserved_ranges : ℕ
  pub reserved : ℕ
  pub generation : ℕ

pub record IommuDeviceProfile : Type 0 where
  pub size : ℕ
  pub version : ℕ
  pub bdf : IommuBdf
  pub isolation_group : ℕ
  pub flags : ℕ
  pub reset_method : ℕ
  pub dma_address_bits : ℕ
  pub max_msix_vectors : ℕ
  pub rmrr_count : ℕ
  pub profile_generation : ℕ
  pub rmrr : List IommuRange
  pub dma_mask : ℕ
  pub reserved : ℕ
  pub reserved2 : ℕ

pub record IommuDomain : Type 0 where
  pub size : ℕ
  pub version : ℕ
  pub domain_id : ℕ
  pub owner_id : ℕ
  pub parent_domain_id : ℕ
  pub generation : ℕ
  pub kind : ℕ
  pub state : ℕ
  pub flags : ℕ
  pub address_bits : ℕ
  pub guest_base : ℕ
  pub guest_limit : ℕ
  pub mapped_pages : ℕ
  pub reserved : ℕ
  pub reserved2 : ℕ

-- `iova` is the address that the device presents, `guest_physical` what it stands for, and
-- `host_physical` the final target.
pub record IommuDmaMapping : Type 0 where
  pub size : ℕ
  pub version : ℕ
  pub iova : ℕ
  pub guest_physical : ℕ
  pub host_physical : ℕ
  pub page_count : ℕ
  pub page_order : ℕ
  pub permissions : ℕ
  pub flags : ℕ
  pub reserved : ℕ
  pub generation : ℕ

-- `status` is stored as the code of its enumeration.
pub record IommuDmaResult : Type 0 where
  pub size : ℕ
  pub version : ℕ
  pub status : IommuLookupStatus
  pub permissions : ℕ
  pub host_physical : ℕ
  pub generation : ℕ

pub record IommuAssignment : Type 0 where
  pub size : ℕ
  pub version : ℕ
  pub status : ℕ
  pub state : ℕ
  pub bdf : IommuBdf
  pub reset_method : ℕ
  pub flags : ℕ
  pub owner_id : ℕ
  pub domain_id : ℕ
  pub generation : ℕ
  pub fault_count : ℕ

pub record IommuFaultRecord : Type 0 where
  pub size : ℕ
  pub version : ℕ
  pub reason : ℕ
  pub access : ℕ
  pub bdf : IommuBdf
  pub reserved : ℕ
  pub address : ℕ
  pub generation : ℕ
  pub sequence : ℕ
