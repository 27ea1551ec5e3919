-- ===== src/Time/Observe.antt =====
-- src/time/time_contract.cpp: the calibration of a transform, and the observation of its drift.
use knhv.Prelude.{ℕ, suc, ◌+◌, ◌-◌, ◌*◌, ◌/◌, ◌^◌, Bool, true, false, ◌||◌, Option, none, some}
use knhv.Prelude.Tests.{ltb, leb, ◌==◌, if◌then◌else◌}
use knhv.Prelude.Bits.{u64}
use knhv.Time.Defs.{
  time_contract_version, time_flag_monotonic_clamp, i64_maximum, ℤ, pos, negsuc, TimeResultCode,
  success, invalid, overflow, drift_exceeded, TscTransform, TscQpcSample, TimeObservation,
}
use knhv.Time.Transform.{is_tsc_transform_valid, apply_tsc_transform}

unfoldable pub difference_to_signed : ℕ → ℕ → Option ℤ
difference_to_signed value reference =
    if leb reference value
    then (if ltb i64_maximum (value - reference) then none else some (pos (value - reference)))
    else if ltb (i64_maximum + 1) (reference - value)
    then none
    else some (negsuc (reference - value - 1))

abbrev pub magnitude : ℤ → ℕ
magnitude (pos n) = n
magnitude (negsuc n) = suc n

-- The observation as it is set up.
abbrev pub empty_observation : TimeObservation
empty_observation = record {
  size = 48;
  version = time_contract_version;
  virtual_tsc = 0;
  reference_ticks = 0;
  drift_ticks = pos 0;
  generation = 0;
  status = success;
  reserved = 0;
}

-- The judgement of a drift that was written.
abbrev pub judge : TscTransform → TimeObservation → Option ℤ → TimeResultCode × TimeObservation
judge t o none = (overflow, record o { status = overflow })
judge t o (some drift) =
    if ltb t.max_drift_ticks (magnitude drift)
    then (drift_exceeded, record o { drift_ticks = drift; status = drift_exceeded })
    else (success, record o { drift_ticks = drift })

-- What follows the application of the transform.
abbrev pub observed :
    TscTransform → ℕ → TimeResultCode × Option ℕ → TimeResultCode × TimeObservation
observed t reference (success, some time) =
    judge t
      (record empty_observation {
        generation = t.generation;
        virtual_tsc = time;
        reference_ticks = reference;
        status = success;
      })
      (difference_to_signed time reference)
observed t reference (code, _) = (
  code,
  record empty_observation {
    generation = t.generation;
    reference_ticks = reference;
    status = code;
  },
)

unfoldable pub observe_time_sample :
    Option TscTransform → ℕ → ℕ → Option TimeObservation → TimeResultCode × Option TimeObservation
observe_time_sample t source_tsc reference_ticks none = (invalid, none)
observe_time_sample none source_tsc reference_ticks (some _) =
    (invalid, some (record empty_observation { status = invalid }))
observe_time_sample (some t) source_tsc reference_ticks (some _) =
    if is_tsc_transform_valid (some t)
    then (let answer =
          observed t reference_ticks (apply_tsc_transform (some t) source_tsc (some 0)) in
        (answer.0, some answer.1))
    else (invalid, some (record empty_observation { status = invalid }))

-- The quotient of the two words that `_udiv128` is given, high and low.
abbrev pub scale_of : ℕ → ℕ → ℕ
scale_of source_delta reference_delta =
    let high = reference_delta / 2 ^ 32 in
    let low = u64 (reference_delta * 2 ^ 32) in (high * 2 ^ 64 + low) / source_delta

abbrev pub calibrated : TscQpcSample → ℕ → ℕ → ℕ → TscTransform
calibrated first scale generation max_drift_ticks = record {
  size = 72;
  version = time_contract_version;
  base_tsc = first.source_tsc;
  base_virtual_tsc = first.reference_ticks;
  scale_q32_32 = scale;
  offset_ticks = pos 0;
  generation = generation;
  last_virtual_tsc = first.reference_ticks;
  max_drift_ticks = max_drift_ticks;
  flags = time_flag_monotonic_clamp;
  reserved = 0;
}

unfoldable pub calibrate_tsc_transform :
    Option TscQpcSample
    → Option TscQpcSample
    → ℕ
    → ℕ
    → Option TscTransform
    → Bool × Option TscTransform
calibrate_tsc_transform (some first) (some second) generation max_drift_ticks (some t) =
    let source_delta = second.source_tsc - first.source_tsc in
    let reference_delta = second.reference_ticks - first.reference_ticks in
    if generation == 0
      || leb second.source_tsc first.source_tsc
      || leb second.reference_ticks first.reference_ticks
    then (false, some t)
    else if leb source_delta (reference_delta / 2 ^ 32)
    then (false, some t)
    else if scale_of source_delta reference_delta == 0
    then (false, some t)
    else (
      true,
      some (calibrated first (scale_of source_delta reference_delta) generation max_drift_ticks),
    )
calibrate_tsc_transform _ _ generation max_drift_ticks t = (false, t)
