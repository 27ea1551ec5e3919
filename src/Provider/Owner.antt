-- ===== src/Provider/Owner.antt =====
-- src/provider/owner_observation.cpp: the gate from an observation of the machine to what may own it.
use knhv.Prelude.{ℕ, bit_or, Bool, true, false, not, ◌&&◌, ◌||◌, Option, none, some}
use knhv.Prelude.Tests.{leb, ◌==◌, ◌!=◌, if◌then◌else◌}
use knhv.Prelude.Bits.{not32, any_bits}
use knhv.Abi.{
  HvStatus, success, invalid_parameter, hardware_owner_conflict, nested_unavailable,
  incompatible_provider, boot_handoff_failed,
}
use knhv.Provider.Observation.{
  evidence_clear, evidence_present, action_block, action_acquire_native,
  action_use_external_provider, action_use_whp, action_use_synthetic, reason_none,
  reason_invalid_observation, reason_unknown_owner, reason_contradictory_evidence,
  reason_windows_hypervisor_active, reason_vbs_active, reason_hvci_active,
  reason_external_owner_active, reason_knhv_handoff_missing, reason_knhv_owner_ready,
  reason_whp_fallback, reason_synthetic_fallback, reason_provider_unavailable,
  reason_generation_missing, reason_provider_state_invalid, owner_unknown, owner_external_l0,
  owner_knhv_boot_l0, owner_whp_managed, owner_synthetic_lab, state_unknown, state_available,
  state_active, state_conflict, state_quarantined, owner_observation_contract_version,
  owner_observation_max_struct_size, gate_flag_evidence_complete, gate_flag_exclusive,
  gate_flag_fallback, gate_flag_conflict, gate_known_flag_mask, OwnerObservation, OwnerGateResult,
}

abbrev is_versioned_size_valid : ℕ → ℕ → ℕ → Bool
is_versioned_size_valid version size required =
    version == owner_observation_contract_version
    && leb required size
    && leb size owner_observation_max_struct_size

abbrev is_evidence_state_valid : ℕ → Bool
is_evidence_state_valid value = leb value evidence_present

abbrev pub is_owner_kind_valid : ℕ → Bool
is_owner_kind_valid value = leb value owner_synthetic_lab

abbrev is_provider_state_valid : ℕ → Bool
is_provider_state_valid value = leb value state_quarantined

abbrev is_action_valid : ℕ → Bool
is_action_valid value = leb value action_use_synthetic

abbrev pub is_reason_valid : ℕ → Bool
is_reason_valid value = leb value reason_provider_state_invalid

-- `IsPresent` and `IsClear`, on the field itself.
abbrev pub is_present : ℕ → Bool
is_present evidence = evidence == evidence_present

abbrev is_clear : ℕ → Bool
is_clear evidence = evidence == evidence_clear

abbrev pub has_native_evidence : OwnerObservation → Bool
has_native_evidence o =
    is_clear o.cpuid_hypervisor
    && is_clear o.windows_hypervisor
    && is_clear o.vbs
    && is_clear o.hvci
    && is_present o.provider_device
    && is_present o.boot_handoff

abbrev pub is_native_owner : OwnerObservation → Bool
is_native_owner o = o.provider_owner == owner_knhv_boot_l0

abbrev pub is_external_owner : OwnerObservation → Bool
is_external_owner o = o.provider_owner == owner_external_l0

abbrev pub is_whp_owner : OwnerObservation → Bool
is_whp_owner o = o.provider_owner == owner_whp_managed

abbrev pub is_synthetic_owner : OwnerObservation → Bool
is_synthetic_owner o = o.provider_owner == owner_synthetic_lab

abbrev pub is_available_or_active : OwnerObservation → Bool
is_available_or_active o = o.provider_state == state_available || o.provider_state == state_active

unfoldable pub has_contradictory_evidence : OwnerObservation → Bool
has_contradictory_evidence o =
    (is_present o.boot_handoff && not (is_native_owner o))
    || (is_native_owner o
        && (is_present o.cpuid_hypervisor
            || is_present o.windows_hypervisor
            || o.provider_state == state_conflict
            || o.provider_state == state_quarantined))
    || (is_external_owner o
        && o.provider_state != state_conflict
        && o.provider_state != state_active)

abbrev pub initialize_result : OwnerGateResult
initialize_result = record {
  size = 40;
  version = owner_observation_contract_version;
  action = action_block;
  reason = reason_invalid_observation;
  status = invalid_parameter;
  owner = 0;
  flags = 0;
  reserved = 0;
  generation = 0;
}

abbrev pub set_result : OwnerGateResult → ℕ → ℕ → HvStatus → ℕ → ℕ → ℕ → OwnerGateResult
set_result r action reason status owner flags generation = record r {
  action = action;
  reason = reason;
  status = status;
  owner = owner;
  flags = flags;
  generation = generation;
}

abbrev pub succeeds : HvStatus → Bool
succeeds success = true
succeeds _ = false

abbrev is_incompatible : HvStatus → Bool
is_incompatible incompatible_provider = true
is_incompatible _ = false

abbrev is_blocked_result_consistent : OwnerGateResult → Bool
is_blocked_result_consistent r =
    r.action == action_block
    && not (succeeds r.status)
    && r.reason != reason_none
    && not (any_bits r.flags (bit_or gate_flag_exclusive gate_flag_fallback))

-- The last tests of `IsOwnerObservationValid`: what is known of a provider needs its device, and an
-- active one needs an owner and a generation.
abbrev is_provider_valid : OwnerObservation → Bool
is_provider_valid o =
    ((o.provider_owner == owner_unknown && o.provider_state == state_unknown)
      || o.provider_device == evidence_present)
    && (o.provider_state != state_active
        || (o.provider_owner != owner_unknown && o.generation != 0))

unfoldable pub is_owner_observation_valid : Option OwnerObservation → Bool
is_owner_observation_valid none = false
is_owner_observation_valid (some o) =
    is_versioned_size_valid o.version o.size 56
    && is_evidence_state_valid o.cpuid_hypervisor
    && is_evidence_state_valid o.windows_hypervisor
    && is_evidence_state_valid o.vbs
    && is_evidence_state_valid o.hvci
    && is_evidence_state_valid o.whp_available
    && is_evidence_state_valid o.provider_device
    && is_evidence_state_valid o.boot_handoff
    && is_owner_kind_valid o.provider_owner
    && is_provider_state_valid o.provider_state
    && o.reserved == 0
    && is_provider_valid o

-- The branches of `EvaluateOwnerGate` for each owner, from the result so far.
unfoldable pub gate_native : OwnerObservation → OwnerGateResult → OwnerGateResult
gate_native o r =
    if not (is_present o.provider_device)
    then set_result r action_block reason_provider_unavailable nested_unavailable o.provider_owner 0
        o.generation
    else if o.generation == 0
    then set_result r action_block reason_generation_missing boot_handoff_failed o.provider_owner 0
        o.generation
    else if not (is_present o.boot_handoff)
    then set_result r action_block reason_knhv_handoff_missing boot_handoff_failed o.provider_owner
        0 o.generation
    else if o.provider_state != state_active
    then set_result r action_block reason_provider_state_invalid boot_handoff_failed
        o.provider_owner 0 o.generation
    else if is_present o.vbs
    then set_result r action_block reason_vbs_active hardware_owner_conflict o.provider_owner
        gate_flag_conflict o.generation
    else if is_present o.hvci
    then set_result r action_block reason_hvci_active hardware_owner_conflict o.provider_owner
        gate_flag_conflict o.generation
    else if not (has_native_evidence o)
    then set_result r action_block reason_unknown_owner nested_unavailable o.provider_owner 0
        o.generation
    else set_result r action_acquire_native reason_knhv_owner_ready success o.provider_owner
        (bit_or gate_flag_evidence_complete gate_flag_exclusive) o.generation

unfoldable pub gate_external : OwnerObservation → OwnerGateResult → OwnerGateResult
gate_external o r =
    if o.generation == 0
    then set_result r action_block reason_generation_missing incompatible_provider o.provider_owner
        0 o.generation
    else set_result r action_use_external_provider reason_external_owner_active
        incompatible_provider o.provider_owner (bit_or gate_flag_fallback gate_flag_conflict)
        o.generation

unfoldable pub gate_whp : OwnerObservation → OwnerGateResult → OwnerGateResult
gate_whp o r =
    if o.generation == 0
    then set_result r action_block reason_generation_missing nested_unavailable o.provider_owner 0
        o.generation
    else if not (is_available_or_active o) || not (is_present o.whp_available)
    then set_result r action_block reason_provider_unavailable nested_unavailable o.provider_owner 0
        o.generation
    else set_result r action_use_whp reason_whp_fallback success o.provider_owner gate_flag_fallback
        o.generation

unfoldable pub gate_synthetic : OwnerObservation → OwnerGateResult → OwnerGateResult
gate_synthetic o r =
    if o.generation == 0 || not (is_available_or_active o)
    then set_result r action_block reason_provider_state_invalid nested_unavailable o.provider_owner
        0 o.generation
    else set_result r action_use_synthetic reason_synthetic_fallback success o.provider_owner
        gate_flag_fallback o.generation

unfoldable pub gate_unknown : OwnerObservation → OwnerGateResult → OwnerGateResult
gate_unknown o r =
    if is_present o.vbs
    then set_result r action_block reason_vbs_active hardware_owner_conflict o.provider_owner
        gate_flag_conflict o.generation
    else if is_present o.hvci
    then set_result r action_block reason_hvci_active hardware_owner_conflict o.provider_owner
        gate_flag_conflict o.generation
    else if is_present o.windows_hypervisor
    then set_result r action_block reason_windows_hypervisor_active hardware_owner_conflict
        o.provider_owner gate_flag_conflict o.generation
    else if is_present o.cpuid_hypervisor
    then set_result r action_block reason_external_owner_active hardware_owner_conflict
        o.provider_owner gate_flag_conflict o.generation
    else if not (is_present o.provider_device)
    then set_result r action_block reason_provider_unavailable nested_unavailable o.provider_owner 0
        o.generation
    else set_result r action_block reason_unknown_owner nested_unavailable o.provider_owner 0
        o.generation

unfoldable pub gate : OwnerObservation → OwnerGateResult → OwnerGateResult
unfolding has_contradictory_evidence gate_native gate_external gate_whp gate_synthetic gate_unknown
gate o r =
    if has_contradictory_evidence o
    then set_result r action_block reason_contradictory_evidence hardware_owner_conflict
        o.provider_owner gate_flag_conflict o.generation
    else if is_native_owner o
    then gate_native o r
    else if is_external_owner o
    then gate_external o r
    else if is_whp_owner o
    then gate_whp o r
    else if is_synthetic_owner o
    then gate_synthetic o r
    else gate_unknown o r

unfoldable pub evaluate_owner_gate :
    Option OwnerObservation → Option OwnerGateResult → Bool × Option OwnerGateResult
unfolding is_owner_observation_valid gate
evaluate_owner_gate observation none = (false, none)
evaluate_owner_gate none (some result) = (false, some initialize_result)
evaluate_owner_gate (some o) (some result) =
    if not (is_owner_observation_valid (some o)) then (false, some initialize_result) else (
      true,
      some (
          gate o
            (record initialize_result { owner = o.provider_owner; generation = o.generation })),
    )

-- What `IsOwnerGateResultValid` asks of each action.
unfoldable pub is_action_consistent : OwnerGateResult → Bool
is_action_consistent r =
    if r.action == action_acquire_native
    then succeeds r.status
      && r.reason == reason_knhv_owner_ready
      && r.owner == owner_knhv_boot_l0
      && r.generation != 0
      && r.flags == bit_or gate_flag_evidence_complete gate_flag_exclusive
    else if r.action == action_use_external_provider
    then is_incompatible r.status
      && r.reason == reason_external_owner_active
      && r.owner == owner_external_l0
      && r.generation != 0
      && r.flags == bit_or gate_flag_fallback gate_flag_conflict
    else if r.action == action_use_whp
    then succeeds r.status
      && r.reason == reason_whp_fallback
      && r.owner == owner_whp_managed
      && r.generation != 0
      && r.flags == gate_flag_fallback
    else if r.action == action_use_synthetic
    then succeeds r.status
      && r.reason == reason_synthetic_fallback
      && r.owner == owner_synthetic_lab
      && r.generation != 0
      && r.flags == gate_flag_fallback
    else is_blocked_result_consistent r

-- `IsStatusValid` holds of every `HvStatus`.
unfoldable pub is_owner_gate_result_valid : Option OwnerGateResult → Bool
unfolding is_action_consistent
is_owner_gate_result_valid none = false
is_owner_gate_result_valid (some r) =
    is_versioned_size_valid r.version r.size 40
    && is_action_valid r.action
    && is_reason_valid r.reason
    && is_owner_kind_valid r.owner
    && not (any_bits r.flags (not32 gate_known_flag_mask))
    && r.reserved == 0
    && is_action_consistent r
