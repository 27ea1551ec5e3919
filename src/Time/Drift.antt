-- ===== src/Time/Drift.antt =====
-- What an observation of src/time/time_contract.cpp accepts.
use knhv.Prelude.{
  ℕ, suc, ◌+◌, ◌-◌, ◌≤◌, ◌<◌, ◌≡◌, ◌≢◌, inl, inr, refl, true, Option, none, some, arith,
}
use knhv.Prelude.Tests.{Option-cases}
use knhv.Time.Defs.{
  i64_maximum, ℤ, pos, negsuc, TimeResultCode, success, invalid, overflow, non_monotonic,
  drift_exceeded, generation_mismatch, paused, TscTransform, TimeObservation,
}
use knhv.Time.Transform.{is_tsc_transform_valid, apply_tsc_transform}
use knhv.Time.Monotone.{apply_there}
use knhv.Time.Observe.{difference_to_signed, magnitude, observed, observe_time_sample}

abbrev pub distance : ℕ → ℕ → ℕ
distance a b = a - b + (b - a)

-- The drift of a time from a reference, with its sign.
abbrev pub IsDrift : ℤ → ℕ → ℕ → Type 0
IsDrift (pos n) time reference = time ≡ reference + n
IsDrift (negsuc n) time reference = reference ≡ time + suc n

difference-IsDrift :
    (time reference : ℕ) (drift : ℤ)
    → difference_to_signed time reference ≡ some drift
    → IsDrift drift time reference × (magnitude drift ≡ distance time reference)
unfolding difference_to_signed
difference-IsDrift time reference (pos n) h = ground arith
difference-IsDrift time reference (negsuc n) h = ground arith

difference_none :
    (time reference : ℕ)
    → difference_to_signed time reference ≡ none
    → i64_maximum < distance time reference
unfolding difference_to_signed
difference_none time reference h = ground arith

observed_parts :
    (t : TscTransform) (reference : ℕ) (answer : TimeResultCode × Option ℕ)
    → answer.1 ≢ none
    → (observed t reference answer).0 ≡ success
    → (time : ℕ) × (drift : ℤ) × (answer ≡ (success, some time))
      × (difference_to_signed time reference ≡ some drift)
      × (magnitude drift ≤ t.max_drift_ticks)
      × ((observed t reference answer).1.virtual_tsc ≡ time)
      × ((observed t reference answer).1.drift_ticks ≡ drift)
observed_parts t reference (success, none) there h = absurd (there refl)
observed_parts t reference (success, some time) there h =
    elim (Option-cases (difference_to_signed time reference)) [
      | inl e ↦ absurd (ground (arith, e))
      | inr (drift, e) ↦
          (time, drift, refl, e, ground (arith, e), ground (arith, e), ground (arith, e))
    ]
observed_parts t reference (invalid, a) there h = absurd (ground arith)
observed_parts t reference (overflow, a) there h = absurd (ground arith)
observed_parts t reference (non_monotonic, a) there h = absurd (ground arith)
observed_parts t reference (drift_exceeded, a) there h = absurd (ground arith)
observed_parts t reference (generation_mismatch, a) there h = absurd (ground arith)
observed_parts t reference (paused, a) there h = absurd (ground arith)

observed_near :
    (t : TscTransform) (reference time : ℕ)
    → distance time reference ≤ t.max_drift_ticks
    → distance time reference ≤ i64_maximum
    → (observed t reference (success, some time)).0 ≡ success
observed_near t reference time near small =
    elim (Option-cases (difference_to_signed time reference)) [
      | inl e ↦ absurd (omega (arith, difference_none time reference e))
      | inr (drift, e) ↦ ground (arith, e, difference-IsDrift time reference drift e)
    ]

observe_value :
    (t : TscTransform) (source reference : ℕ) (out : TimeObservation)
    → is_tsc_transform_valid (some t) ≡ true
    → observe_time_sample (some t) source reference (some out) ≡ (
      (observed t reference (apply_tsc_transform (some t) source (some 0))).0,
      some (observed t reference (apply_tsc_transform (some t) source (some 0))).1,
    )
unfolding observe_time_sample
observe_value t source reference out v = rw v refl

pair_parts :
    {code code' : TimeResultCode} {o o' : TimeObservation}
    → ◌≡◌ {A = TimeResultCode × Option TimeObservation} (code, some o) (code', some o')
    → (code ≡ code') × (o ≡ o')
pair_parts h = ground arith

-- An observation with a valid transform that succeeds holds the time that the transform answers and
-- its drift from the reference, with its sign and within the transform's bound; and it succeeds
-- wherever the transform answers with a time within that bound, if the distance fits 63 bits.
pub observe_within :
    (t : TscTransform) (source reference : ℕ) (out : TimeObservation)
    → is_tsc_transform_valid (some t) ≡ true
    → ((o : TimeObservation)
        → observe_time_sample (some t) source reference (some out) ≡ (success, some o)
        → (apply_tsc_transform (some t) source (some 0) ≡ (success, some o.virtual_tsc))
          × IsDrift o.drift_ticks o.virtual_tsc reference
          × (distance o.virtual_tsc reference ≤ t.max_drift_ticks))
      × ((time : ℕ)
          → apply_tsc_transform (some t) source (some 0) ≡ (success, some time)
          → distance time reference ≤ t.max_drift_ticks
          → distance time reference ≤ i64_maximum
          → (observe_time_sample (some t) source reference (some out)).0 ≡ success)
observe_within t source reference out v = (
  λ o. λ h.
      let k = rw (observe_value t source reference out v) at h in
      let (good, same) = pair_parts k in
      let (time, drift, e, f, near, at_time, at_drift) =
        observed_parts t reference (apply_tsc_transform (some t) source (some 0))
          (apply_there t source 0) good in
      let (is_drift, size) = difference-IsDrift time reference drift f in
      let eq_time : o.virtual_tsc ≡ time = ground (arith, same, at_time) in
      let eq_drift : o.drift_ticks ≡ drift = ground (arith, same, at_drift) in
      rw (eq_time, eq_drift) (e, is_drift, omega (arith, size, near)),
  λ time. λ h. λ near. λ small.
      rw (observe_value t source reference out v, h) (observed_near t reference time near small),
)
