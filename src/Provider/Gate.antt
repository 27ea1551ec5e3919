-- ===== src/Provider/Gate.antt =====
-- Every result of the gate of src/provider/owner_observation.cpp is one that its own check accepts.
use knhv.Prelude.{
  ℕ, bit_or, ◌≡◌, refl, ◌≢◌, ◌⊎◌, inl, inr, Bool, true, false, not, ◌||◌, some, arith,
}
use knhv.Prelude.Tests.{◌==◌, ◌!=◌, if◌then◌else◌}
use knhv.Prelude.Bits.{not32, any_bits}
use knhv.Abi.{
  HvStatus, success, hardware_owner_conflict, nested_unavailable, incompatible_provider,
  boot_handoff_failed,
}
use knhv.Provider.Observation.{
  action_block, action_acquire_native, action_use_external_provider, action_use_whp,
  action_use_synthetic, reason_none, reason_unknown_owner, reason_contradictory_evidence,
  reason_windows_hypervisor_active, reason_vbs_active, reason_hvci_active,
  reason_external_owner_active, reason_knhv_handoff_missing, reason_knhv_owner_ready,
  reason_whp_fallback, reason_synthetic_fallback, reason_provider_unavailable,
  reason_generation_missing, reason_provider_state_invalid, owner_knhv_boot_l0, state_active,
  gate_flag_evidence_complete, gate_flag_exclusive, gate_flag_fallback, gate_flag_conflict,
  gate_known_flag_mask, OwnerObservation, OwnerGateResult,
}
use knhv.Provider.Owner.{
  is_owner_kind_valid, is_reason_valid, is_present, has_native_evidence, is_native_owner,
  is_external_owner, is_whp_owner, is_synthetic_owner, is_available_or_active,
  has_contradictory_evidence, initialize_result, set_result, succeeds, is_owner_observation_valid,
  gate_native, gate_external, gate_whp, gate_synthetic, gate_unknown, gate, evaluate_owner_gate,
  is_action_consistent, is_owner_gate_result_valid,
}

-- A result that the check accepts, which takes the hardware only on full evidence for this owner.
abbrev pub IsJust : OwnerObservation → OwnerGateResult → Type 0
IsJust o r =
    (is_owner_gate_result_valid (some r) ≡ true)
    × ((r.action ≢ action_acquire_native)
        ⊎ ((o.provider_owner ≡ owner_knhv_boot_l0)
            × (o.provider_state ≡ state_active)
            × (has_native_evidence o ≡ true)))

blank_result : OwnerObservation → OwnerGateResult
blank_result o = record initialize_result { owner = o.provider_owner; generation = o.generation }

guarded :
    (o : OwnerObservation) (b : Bool) (x y : OwnerGateResult)
    → (b ≡ true → IsJust o x)
    → (b ≡ false → IsJust o y)
    → IsJust o (if b then x else y)
guarded o true x y p q = p refl
guarded o false x y p q = q refl

module _ (o : OwnerObservation) (known : is_owner_kind_valid o.provider_owner ≡ true) where
  blocked :
      (reason : ℕ) (status : HvStatus) (flags : ℕ)
      → is_reason_valid reason ≡ true
      → (reason == reason_none) ≡ false
      → succeeds status ≡ false
      → any_bits flags (not32 gate_known_flag_mask) ≡ false
      → any_bits flags (bit_or gate_flag_exclusive gate_flag_fallback) ≡ false
      → IsJust o (
          set_result
            (blank_result o)
            action_block
            reason
            status
            o.provider_owner
            flags
            o.generation)
  unfolding is_owner_gate_result_valid is_action_consistent blank_result
  blocked reason status flags a b s f g = (ground arith, inl (λ e. omega (arith, e)))

  plain :
      (reason : ℕ) (status : HvStatus)
      → is_reason_valid reason ≡ true
      → (reason == reason_none) ≡ false
      → succeeds status ≡ false
      → IsJust o
          (set_result (blank_result o) action_block reason status o.provider_owner 0 o.generation)
  unfolding any_bits
  plain reason status a b s = blocked reason status 0 a b s refl refl

  conflict :
      (reason : ℕ) (status : HvStatus)
      → is_reason_valid reason ≡ true
      → (reason == reason_none) ≡ false
      → succeeds status ≡ false
      → IsJust o (
          set_result
            (blank_result o)
            action_block
            reason
            status
            o.provider_owner
            gate_flag_conflict
            o.generation)
  unfolding any_bits
  conflict reason status a b s = blocked reason status gate_flag_conflict a b s refl refl

  acquires :
      (is_native_owner o ≡ true)
      → (o.generation == 0) ≡ false
      → (o.provider_state != state_active) ≡ false
      → not (has_native_evidence o) ≡ false
      → IsJust o (
          set_result
            (blank_result o)
            action_acquire_native
            reason_knhv_owner_ready
            success
            o.provider_owner
            (bit_or gate_flag_evidence_complete gate_flag_exclusive)
            o.generation)
  unfolding is_owner_gate_result_valid is_action_consistent blank_result any_bits
  acquires own h k m = (ground arith, inr (ground arith, ground arith, ground arith))

  gate_native-IsJust : (is_native_owner o ≡ true) → IsJust o (gate_native o (blank_result o))
  unfolding gate_native
  gate_native-IsJust own =
      guarded o (not (is_present o.provider_device)) _ _
        (λ _. plain reason_provider_unavailable nested_unavailable refl refl refl)
        (λ h0.
          guarded o (o.generation == 0) _ _
            (λ _. plain reason_generation_missing boot_handoff_failed refl refl refl)
            (λ h1.
              guarded o (not (is_present o.boot_handoff)) _ _
                (λ _. plain reason_knhv_handoff_missing boot_handoff_failed refl refl refl)
                (λ h2.
                  guarded o (o.provider_state != state_active) _ _
                    (λ _. plain reason_provider_state_invalid boot_handoff_failed refl refl refl)
                    (λ h3.
                      guarded o (is_present o.vbs) _ _
                        (λ _. conflict reason_vbs_active hardware_owner_conflict refl refl refl)
                        (λ h4.
                          guarded o (is_present o.hvci) _ _
                            (λ _.
                              conflict reason_hvci_active hardware_owner_conflict refl refl refl)
                            (λ h5.
                              guarded o (not (has_native_evidence o)) _ _
                                (λ _. plain reason_unknown_owner nested_unavailable refl refl refl)
                                (λ h6. acquires own h1 h3 h6)))))))

  external :
      (is_external_owner o ≡ true)
      → (o.generation == 0) ≡ false
      → IsJust o (
          set_result
            (blank_result o)
            action_use_external_provider
            reason_external_owner_active
            incompatible_provider
            o.provider_owner
            (bit_or gate_flag_fallback gate_flag_conflict)
            o.generation)
  unfolding is_owner_gate_result_valid is_action_consistent blank_result any_bits
  external own h = (ground arith, inl (λ e. omega (arith, e)))

  gate_external-IsJust : (is_external_owner o ≡ true) → IsJust o (gate_external o (blank_result o))
  unfolding gate_external
  gate_external-IsJust own =
      guarded o (o.generation == 0) _ _
        (λ _. plain reason_generation_missing incompatible_provider refl refl refl)
        (λ h0. external own h0)

  whp :
      (is_whp_owner o ≡ true)
      → (o.generation == 0) ≡ false
      → IsJust o (
          set_result
            (blank_result o)
            action_use_whp
            reason_whp_fallback
            success
            o.provider_owner
            gate_flag_fallback
            o.generation)
  unfolding is_owner_gate_result_valid is_action_consistent blank_result any_bits
  whp own h = (ground arith, inl (λ e. omega (arith, e)))

  gate_whp-IsJust : (is_whp_owner o ≡ true) → IsJust o (gate_whp o (blank_result o))
  unfolding gate_whp
  gate_whp-IsJust own =
      guarded o (o.generation == 0) _ _
        (λ _. plain reason_generation_missing nested_unavailable refl refl refl)
        (λ h0.
          guarded o (not (is_available_or_active o) || not (is_present o.whp_available)) _ _
            (λ _. plain reason_provider_unavailable nested_unavailable refl refl refl)
            (λ h1. whp own h0))

  synthetic :
      (is_synthetic_owner o ≡ true)
      → (o.generation == 0 || not (is_available_or_active o)) ≡ false
      → IsJust o (
          set_result
            (blank_result o)
            action_use_synthetic
            reason_synthetic_fallback
            success
            o.provider_owner
            gate_flag_fallback
            o.generation)
  unfolding is_owner_gate_result_valid is_action_consistent blank_result any_bits
  synthetic own h = (ground arith, inl (λ e. omega (arith, e)))

  gate_synthetic-IsJust :
      (is_synthetic_owner o ≡ true) → IsJust o (gate_synthetic o (blank_result o))
  unfolding gate_synthetic
  gate_synthetic-IsJust own =
      guarded o (o.generation == 0 || not (is_available_or_active o)) _ _
        (λ _. plain reason_provider_state_invalid nested_unavailable refl refl refl)
        (λ h0. synthetic own h0)

  gate_unknown-IsJust : IsJust o (gate_unknown o (blank_result o))
  unfolding gate_unknown
  gate_unknown-IsJust =
      guarded o (is_present o.vbs) _ _
        (λ _. conflict reason_vbs_active hardware_owner_conflict refl refl refl)
        (λ h0.
          guarded o (is_present o.hvci) _ _
            (λ _. conflict reason_hvci_active hardware_owner_conflict refl refl refl)
            (λ h1.
              guarded o (is_present o.windows_hypervisor) _ _
                (λ _.
                  conflict reason_windows_hypervisor_active hardware_owner_conflict refl refl refl)
                (λ h2.
                  guarded o (is_present o.cpuid_hypervisor) _ _
                    (λ _.
                      conflict reason_external_owner_active hardware_owner_conflict refl refl refl)
                    (λ h3.
                      guarded o (not (is_present o.provider_device)) _ _
                        (λ _. plain reason_provider_unavailable nested_unavailable refl refl refl)
                        (λ h4. plain reason_unknown_owner nested_unavailable refl refl refl)))))

  gate-IsJust : IsJust o (gate o (blank_result o))
  unfolding gate
  gate-IsJust =
      guarded o (has_contradictory_evidence o) _ _
        (λ _. conflict reason_contradictory_evidence hardware_owner_conflict refl refl refl)
        (λ _. guarded o (is_native_owner o) _ _ gate_native-IsJust (λ _.
          guarded o (is_external_owner o) _ _ gate_external-IsJust (λ _.
            guarded o (is_whp_owner o) _ _ gate_whp-IsJust (λ _.
              guarded o (is_synthetic_owner o) _ _ gate_synthetic-IsJust
                (λ _. gate_unknown-IsJust)))))

valid_owner :
    (o : OwnerObservation)
    → is_owner_observation_valid (some o) ≡ true
    → is_owner_kind_valid o.provider_owner ≡ true
unfolding is_owner_observation_valid
valid_owner o h = ground arith

-- A call on a valid observation with a place for the result returns `true` and leaves a result that
-- `IsOwnerGateResultValid` accepts, and which takes the hardware only where KNHV's boot root is the
-- active owner and all the native evidence is there.
pub evaluate_owner_gate-IsJust :
    (o : OwnerObservation) (result : OwnerGateResult)
    → is_owner_observation_valid (some o) ≡ true
    → (r : OwnerGateResult) × (evaluate_owner_gate (some o) (some result) ≡ (true, some r))
      × IsJust o r
unfolding evaluate_owner_gate blank_result
evaluate_owner_gate-IsJust o result v =
    (gate o (blank_result o), rw (evaluate_owner_gate, v) refl, gate-IsJust o (valid_owner o v))
