-- ===== src/Ept/Defs.antt =====
-- The constants and structures of src/include/knhv_ept.h.
use knhv.Prelude.{ℕ}

abbrev pub ept_contract_version : ℕ
ept_contract_version = 1

abbrev pub ept_max_struct_size : ℕ
ept_max_struct_size = 4096

abbrev pub ept_page_shift : ℕ
ept_page_shift = 12

abbrev pub ept_page_size : ℕ
ept_page_size = 0x1000

abbrev pub ept_max_physical_address_bits : ℕ
ept_max_physical_address_bits = 52

abbrev pub ept_min_walk_length : ℕ
ept_min_walk_length = 4

abbrev pub ept_max_walk_length : ℕ
ept_max_walk_length = 5

abbrev pub ept_memory_type_uc : ℕ
ept_memory_type_uc = 0

abbrev pub ept_memory_type_wb : ℕ
ept_memory_type_wb = 6

abbrev pub eptp_flag_access_dirty : ℕ
eptp_flag_access_dirty = 1

abbrev pub eptp_known_flag_mask : ℕ
eptp_known_flag_mask = 1

abbrev pub ept_mapping_flag_present : ℕ
ept_mapping_flag_present = 1

abbrev pub ept_mapping_flag_large_page : ℕ
ept_mapping_flag_large_page = 0x2

abbrev pub ept_mapping_flag_host_owned : ℕ
ept_mapping_flag_host_owned = 0x8

abbrev pub ept_mapping_known_flag_mask : ℕ
ept_mapping_known_flag_mask = 0xf

abbrev pub ept_permission_read : ℕ
ept_permission_read = 1

abbrev pub ept_permission_write : ℕ
ept_permission_write = 0x2

abbrev pub ept_permission_execute : ℕ
ept_permission_execute = 0x4

abbrev pub ept_permission_known_mask : ℕ
ept_permission_known_mask = 0x7

abbrev pub ept_max_mapping_pages : ℕ
ept_max_mapping_pages = 0x100000

abbrev pub ept_hook_max_cpu_acks : ℕ
ept_hook_max_cpu_acks = 4096

abbrev pub ept_hook_known_cet_policy_mask : ℕ
ept_hook_known_cet_policy_mask = 0x3

abbrev pub ept_hook_known_cfg_policy_mask : ℕ
ept_hook_known_cfg_policy_mask = 4

abbrev pub access_read : ℕ
access_read = 1

abbrev pub access_write : ℕ
access_write = 2

abbrev pub access_execute : ℕ
access_execute = 3

abbrev pub view_guest_debug : ℕ
view_guest_debug = 3

abbrev pub hook_execute : ℕ
hook_execute = 1

abbrev pub hook_monitor : ℕ
hook_monitor = 5

abbrev pub hit : ℕ
hit = 0

abbrev pub not_present : ℕ
not_present = 1

abbrev pub permission_denied : ℕ
permission_denied = 2

abbrev pub stale : ℕ
stale = 3

abbrev pub lookup_invalid : ℕ
lookup_invalid = 4

abbrev pub host_owned : ℕ
host_owned = 5

abbrev pub hook_active : ℕ
hook_active = 1

abbrev pub generation_active : ℕ
generation_active = 1

abbrev pub generation_pending : ℕ
generation_pending = 2

abbrev pub transaction_prepared : ℕ
transaction_prepared = 1

abbrev pub transaction_published : ℕ
transaction_published = 2

abbrev pub transaction_retired : ℕ
transaction_retired = 3

abbrev pub transaction_rolled_back : ℕ
transaction_rolled_back = 4

abbrev pub transaction_quarantined : ℕ
transaction_quarantined = 5

pub record EptpConfig : Type 0 where
  pub size : ℕ
  pub version : ℕ
  pub root_physical : ℕ
  pub memory_type : ℕ
  pub walk_length : ℕ
  pub flags : ℕ
  pub reserved : ℕ
  pub generation : ℕ

pub record EptMapping : Type 0 where
  pub size : ℕ
  pub version : ℕ
  pub guest_physical : ℕ
  pub host_physical : ℕ
  pub page_count : ℕ
  pub page_order : ℕ
  pub permissions : ℕ
  pub memory_type : ℕ
  pub flags : ℕ
  pub generation : ℕ

pub record EptLookupResult : Type 0 where
  pub size : ℕ
  pub version : ℕ
  pub status : ℕ
  pub permissions : ℕ
  pub host_physical : ℕ
  pub generation : ℕ

pub record EptHookLease : Type 0 where
  pub size : ℕ
  pub version : ℕ
  pub owner_id : ℕ
  pub generation : ℕ
  pub expires_tsc : ℕ
  pub view : ℕ
  pub hook_kind : ℕ
  pub state : ℕ
  pub max_pages : ℕ
  pub max_exits_per_second : ℕ
  pub reserved : ℕ

pub record EptHookRequest : Type 0 where
  pub size : ℕ
  pub version : ℕ
  pub owner_id : ℕ
  pub expected_generation : ℕ
  pub guest_physical : ℕ
  pub page_count : ℕ
  pub view : ℕ
  pub hook_kind : ℕ
  pub permissions : ℕ
  pub reserved : ℕ
  pub module_hash : ℕ × ℕ

pub record EptGeneration : Type 0 where
  pub size : ℕ
  pub version : ℕ
  pub generation : ℕ
  pub parent_generation : ℕ
  pub state : ℕ
  pub required_cpu_acks : ℕ
  pub observed_cpu_acks : ℕ
  pub reserved : ℕ

pub record EptHookMetadata : Type 0 where
  pub size : ℕ
  pub version : ℕ
  pub original_page_physical : ℕ
  pub shadow_page_physical : ℕ
  pub module_hash : ℕ × ℕ
  pub target_rip : ℕ
  pub instruction_length : ℕ
  pub cet_policy : ℕ
  pub cfg_policy : ℕ
  pub reserved : ℕ
  pub rollback_generation : ℕ

pub record EptHookTransaction : Type 0 where
  pub size : ℕ
  pub version : ℕ
  pub transaction_id : ℕ
  pub owner_id : ℕ
  pub parent_generation : ℕ
  pub pending_generation : ℕ
  pub guest_physical : ℕ
  pub page_count : ℕ
  pub deadline_tsc : ℕ
  pub rollback_generation : ℕ
  pub view : ℕ
  pub hook_kind : ℕ
  pub state : ℕ
  pub required_cpu_acks : ℕ
  pub observed_cpu_acks : ℕ
  pub max_exits_per_second : ℕ
  pub reserved : ℕ
