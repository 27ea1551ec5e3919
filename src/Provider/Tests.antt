-- ===== src/Provider/Tests.antt =====
-- A selection for a client of the Windows hypervisor platform, and the gate of a boot root that owns it.
use knhv.Prelude.{◌≡◌, refl, ◌⊎◌, true, false, some}
use knhv.Abi.{
  flag_outer_l0_active, flag_native_vmx_ready, mode_whp_client, HvCapabilitySnapshot,
  HvProviderRequest, success, provider_none, provider_load_only,
}
use knhv.Prelude.Bits.{any_bits}
use knhv.Provider.Selection.{
  request_is_valid, snapshot_is_valid, has_flag, select_provider, make_fallback_capability_snapshot,
}
use knhv.Provider.Safety.{Allows, owns_hardware, select_allowed}
use knhv.Provider.Observation.{
  evidence_clear, evidence_present, owner_knhv_boot_l0, state_active, OwnerObservation,
  OwnerGateResult,
}
use knhv.Provider.Owner.{initialize_result, is_owner_observation_valid, evaluate_owner_gate}
use knhv.Provider.Gate.{IsJust, evaluate_owner_gate-IsJust}

abbrev request : HvProviderRequest
request = record {
  version = 1;
  size = 32;
  mode = mode_whp_client;
  identity_verified = 0;
  legacy_manifest_match = 0;
  reserved = 0;
  requested_features = 0;
}

abbrev machine : HvCapabilitySnapshot
unfolding make_fallback_capability_snapshot
machine = make_fallback_capability_snapshot false true

request_valid : request_is_valid request ≡ true
unfolding request_is_valid
request_valid = refl

machine_valid : snapshot_is_valid machine ≡ true
unfolding snapshot_is_valid make_fallback_capability_snapshot any_bits
machine_valid = refl

select_allowed_example :
    let s = select_provider (some request) (some machine) provider_none in
    Allows request machine s.1
    × ((s.0 ≡ success) ⊎ ((s.1 ≡ provider_none) ⊎ (s.1 ≡ provider_load_only)))
    × ((owns_hardware s.1 ≡ false)
        ⊎ ((has_flag machine flag_outer_l0_active ≡ false)
            × (has_flag machine flag_native_vmx_ready ≡ true)))
select_allowed_example = select_allowed request machine provider_none request_valid machine_valid

-- KNHV's root is active, and everything else is clear.
abbrev observation : OwnerObservation
observation = record {
  size = 56;
  version = 1;
  cpuid_hypervisor = evidence_clear;
  windows_hypervisor = evidence_clear;
  vbs = evidence_clear;
  hvci = evidence_clear;
  whp_available = evidence_clear;
  provider_device = evidence_present;
  boot_handoff = evidence_present;
  provider_owner = owner_knhv_boot_l0;
  provider_state = state_active;
  reserved = 0;
  generation = 9;
}

observation_valid : is_owner_observation_valid (some observation) ≡ true
unfolding is_owner_observation_valid
observation_valid = refl

evaluate_owner_gate-IsJust_example :
    (r : OwnerGateResult) × (evaluate_owner_gate (some observation) (some initialize_result)
      ≡ (true, some r))
    × IsJust observation r
evaluate_owner_gate-IsJust_example =
    evaluate_owner_gate-IsJust observation initialize_result observation_valid
