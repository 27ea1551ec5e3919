-- ===== src/Provider/Observation.antt =====
-- The numbers and the structures of src/include/knhv_owner_observation.h.
use knhv.Prelude.{ℕ}
use knhv.Abi.{HvStatus}

abbrev pub evidence_clear : ℕ
evidence_clear = 1

abbrev pub evidence_present : ℕ
evidence_present = 2

abbrev pub action_block : ℕ
action_block = 0

abbrev pub action_acquire_native : ℕ
action_acquire_native = 1

abbrev pub action_use_external_provider : ℕ
action_use_external_provider = 2

abbrev pub action_use_whp : ℕ
action_use_whp = 3

abbrev pub action_use_synthetic : ℕ
action_use_synthetic = 4

abbrev pub reason_none : ℕ
reason_none = 0

abbrev pub reason_invalid_observation : ℕ
reason_invalid_observation = 1

abbrev pub reason_unknown_owner : ℕ
reason_unknown_owner = 2

abbrev pub reason_contradictory_evidence : ℕ
reason_contradictory_evidence = 3

abbrev pub reason_windows_hypervisor_active : ℕ
reason_windows_hypervisor_active = 4

abbrev pub reason_vbs_active : ℕ
reason_vbs_active = 5

abbrev pub reason_hvci_active : ℕ
reason_hvci_active = 6

abbrev pub reason_external_owner_active : ℕ
reason_external_owner_active = 7

abbrev pub reason_knhv_handoff_missing : ℕ
reason_knhv_handoff_missing = 8

abbrev pub reason_knhv_owner_ready : ℕ
reason_knhv_owner_ready = 9

abbrev pub reason_whp_fallback : ℕ
reason_whp_fallback = 10

abbrev pub reason_synthetic_fallback : ℕ
reason_synthetic_fallback = 11

abbrev pub reason_provider_unavailable : ℕ
reason_provider_unavailable = 12

abbrev pub reason_generation_missing : ℕ
reason_generation_missing = 13

abbrev pub reason_provider_state_invalid : ℕ
reason_provider_state_invalid = 14

abbrev pub owner_unknown : ℕ
owner_unknown = 0

abbrev pub owner_external_l0 : ℕ
owner_external_l0 = 1

abbrev pub owner_knhv_boot_l0 : ℕ
owner_knhv_boot_l0 = 2

abbrev pub owner_whp_managed : ℕ
owner_whp_managed = 3

abbrev pub owner_synthetic_lab : ℕ
owner_synthetic_lab = 4

abbrev pub state_unknown : ℕ
state_unknown = 0

abbrev pub state_available : ℕ
state_available = 1

abbrev pub state_active : ℕ
state_active = 2

abbrev pub state_conflict : ℕ
state_conflict = 3

abbrev pub state_quarantined : ℕ
state_quarantined = 5

abbrev pub owner_observation_contract_version : ℕ
owner_observation_contract_version = 1

abbrev pub owner_observation_max_struct_size : ℕ
owner_observation_max_struct_size = 4096

abbrev pub gate_flag_evidence_complete : ℕ
gate_flag_evidence_complete = 1

abbrev pub gate_flag_exclusive : ℕ
gate_flag_exclusive = 2

abbrev pub gate_flag_fallback : ℕ
gate_flag_fallback = 4

abbrev pub gate_flag_conflict : ℕ
gate_flag_conflict = 8

abbrev pub gate_known_flag_mask : ℕ
gate_known_flag_mask = 15

pub record OwnerObservation : Type 0 where
  pub size : ℕ
  pub version : ℕ
  pub cpuid_hypervisor : ℕ
  pub windows_hypervisor : ℕ
  pub vbs : ℕ
  pub hvci : ℕ
  pub whp_available : ℕ
  pub provider_device : ℕ
  pub boot_handoff : ℕ
  pub provider_owner : ℕ
  pub provider_state : ℕ
  pub reserved : ℕ
  pub generation : ℕ

pub record OwnerGateResult : Type 0 where
  pub size : ℕ
  pub version : ℕ
  pub action : ℕ
  pub reason : ℕ
  pub status : HvStatus
  pub owner : ℕ
  pub flags : ℕ
  pub reserved : ℕ
  pub generation : ℕ
