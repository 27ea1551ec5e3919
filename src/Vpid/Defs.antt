-- ===== src/Vpid/Defs.antt =====
-- The constants and structures of src/include/knhv_vpid.h.
use knhv.Prelude.{ℕ}

abbrev pub vpid_contract_version : ℕ
vpid_contract_version = 1

abbrev pub vpid_max_struct_size : ℕ
vpid_max_struct_size = 4096

abbrev pub vpid_minimum : ℕ
vpid_minimum = 1

abbrev pub vpid_maximum : ℕ
vpid_maximum = 0xffff

abbrev pub vpid_max_leases : ℕ
vpid_max_leases = 128

abbrev pub vpid_max_cpus : ℕ
vpid_max_cpus = 64

abbrev pub vpid_known_lease_flag_mask : ℕ
vpid_known_lease_flag_mask = 0

abbrev pub shootdown_allow_all_context : ℕ
shootdown_allow_all_context = 0x1

abbrev pub shootdown_retain_globals : ℕ
shootdown_retain_globals = 0x2

abbrev pub shootdown_known_flag_mask : ℕ
shootdown_known_flag_mask = 0x3

-- The codes of `VpidKind`, `VpidLeaseState`, `ShootdownType` and `ShootdownStateKind`; the fields are raw
-- numbers.
abbrev pub kind_root : ℕ
kind_root = 1

abbrev pub vpid_kind_l2 : ℕ
vpid_kind_l2 = 3

abbrev pub lease_free : ℕ
lease_free = 0

abbrev pub lease_active : ℕ
lease_active = 1

abbrev pub lease_retiring : ℕ
lease_retiring = 2

abbrev pub lease_quarantined : ℕ
lease_quarantined = 3

abbrev pub single_address : ℕ
single_address = 0

abbrev pub single_context : ℕ
single_context = 1

abbrev pub all_context : ℕ
all_context = 2

abbrev pub single_context_retain_globals : ℕ
single_context_retain_globals = 3

abbrev pub shootdown_idle : ℕ
shootdown_idle = 0

abbrev pub shootdown_pending : ℕ
shootdown_pending = 1

abbrev pub shootdown_completed : ℕ
shootdown_completed = 2

abbrev pub shootdown_timed_out : ℕ
shootdown_timed_out = 3

abbrev pub shootdown_quarantined : ℕ
shootdown_quarantined = 4

pub data VpidStatus : Type 0 where
  success invalid_parameter exhausted generation_mismatch conflict : VpidStatus
  state_conflict shootdown_incomplete timeout quarantined : VpidStatus

pub record VpidRequest : Type 0 where
  pub size : ℕ
  pub version : ℕ
  pub owner_id : ℕ
  pub generation : ℕ
  pub kind : ℕ
  pub max_vpid : ℕ
  pub reserved : ℕ
  pub reserved2 : ℕ

pub record VpidLease : Type 0 where
  pub size : ℕ
  pub version : ℕ
  pub vpid : ℕ
  pub kind : ℕ
  pub state : ℕ
  pub flags : ℕ
  pub owner_id : ℕ
  pub generation : ℕ
  pub allocation_sequence : ℕ

pub record ShootdownRequest : Type 0 where
  pub size : ℕ
  pub version : ℕ
  pub type : ℕ
  pub flags : ℕ
  pub request_id : ℕ
  pub generation : ℕ
  pub source_cpu : ℕ
  pub vpid : ℕ
  pub target_cpu_mask : ℕ
  pub address : ℕ
  pub deadline_tsc : ℕ

pub record ShootdownState : Type 0 where
  pub size : ℕ
  pub version : ℕ
  pub type : ℕ
  pub state : ℕ
  pub request_id : ℕ
  pub generation : ℕ
  pub target_cpu_mask : ℕ
  pub acknowledged_cpu_mask : ℕ
  pub deadline_tsc : ℕ
  pub vpid : ℕ
  pub reserved : ℕ
