-- ===== src/Time/Calibrate.antt =====
-- What a calibration of src/time/time_contract.cpp answers at its two samples.
use knhv.Prelude.{
  ℕ, ◌+◌, ◌-◌, ◌*◌, ◌/◌, ◌^◌, ◌≤◌, ◌<◌, ◌≡◌, ◌≢◌, refl, ap, ◌∙◌, true, false, some, arith,
}
use native.Mathlib.Nat.{mul-div-le}
use knhv.Prelude.Bits.{any_bits, u64, u64_max}
use knhv.Time.Defs.{
  time_flag_monotonic_clamp, time_flag_paused, success, TscTransform, TscQpcSample,
}
use knhv.Time.Transform.{
  is_versioned_size_valid, add_unsigned, add_signed, multiply_shift32, scaled_time,
  is_tsc_transform_valid, apply_tsc_transform,
}
use knhv.Time.Rebase.{projection_value, apply_value}
use knhv.Time.Monotone.{words}
use knhv.Time.Observe.{scale_of, calibrated, calibrate_tsc_transform}

scale_value : (s r : ℕ) → r ≤ u64_max → scale_of s r ≡ r * 2 ^ 32 / s
scale_value s r wide =
    let whole : r / 2 ^ 32 * 2 ^ 64 + u64 (r * 2 ^ 32) ≡ r * 2 ^ 32 = omega arith in rw whole refl

multiply_some :
    (left right bound : ℕ)
    → left * right ≤ bound * 2 ^ 32
    → bound ≤ u64_max
    → multiply_shift32 left right ≡ some (left * right / 2 ^ 32)
unfolding multiply_shift32
multiply_some left right bound below wide =
    let low : left * right / 2 ^ 64 ≤ 0xffffffff = omega arith in
    ground (arith, low, words (left * right) low)

calibrate_parts :
    (first second : TscQpcSample) (g d : ℕ) (out u : TscTransform)
    → calibrate_tsc_transform (some first) (some second) g d (some out) ≡ (true, some u)
    → (u
        ≡ calibrated first
            (scale_of
              (second.source_tsc - first.source_tsc)
              (second.reference_ticks - first.reference_ticks))
            g
            d)
      × (g ≢ 0)
      × (first.source_tsc < second.source_tsc)
      × (first.reference_ticks < second.reference_ticks)
      × (scale_of
            (second.source_tsc - first.source_tsc)
            (second.reference_ticks - first.reference_ticks)
          ≢ 0)
unfolding calibrate_tsc_transform
calibrate_parts first second g d out u h = ground arith

module _ (first : TscQpcSample) (scale g d : ℕ) where
  calibrated_valid :
      scale ≢ 0
      → g ≢ 0
      → (is_tsc_transform_valid (some (calibrated first scale g d)) ≡ true)
        × (any_bits time_flag_monotonic_clamp time_flag_paused ≡ false)
  unfolding is_tsc_transform_valid is_versioned_size_valid any_bits
  calibrated_valid some_scale some_generation = (ground arith, refl)

  -- The answer at a source time whose scaled distance stays below a reference.
  calibrated_answer :
      (source bound out : ℕ)
      → scale ≢ 0
      → g ≢ 0
      → first.source_tsc ≤ source
      → (source - first.source_tsc) * scale ≤ bound * 2 ^ 32
      → first.reference_ticks + bound ≤ u64_max
      → apply_tsc_transform (some (calibrated first scale g d)) source (some out)
        ≡ (success, some (first.reference_ticks + (source - first.source_tsc) * scale / 2 ^ 32))
  calibrated_answer source bound out some_scale some_generation low below wide =
      let (valid, running) = calibrated_valid some_scale some_generation in
      let scaled = multiply_some (source - first.source_tsc) scale bound below (omega arith) in
      let time = first.reference_ticks + (source - first.source_tsc) * scale / 2 ^ 32 in
      let fits : time ≤ u64_max = omega arith in
      apply_value (calibrated first scale g d) source time out valid running
        (projection_value (calibrated first scale g d) source time time low
          (unfold scaled_time add_unsigned in rw scaled (ground (arith, fits)))
          (unfold add_signed add_unsigned in ground (arith, fits)))
        (omega arith)

no_distance : (a k : ℕ) → (a - a) * k ≡ 0
no_distance a k = let e : a - a ≡ 0 = omega arith in rw e (omega arith)

-- A calibration of two samples with 64-bit references that succeeds is a valid transform: it answers
-- the first sample with exactly its reference, and the second with a time from the first reference to
-- its own.
pub calibrate_hits :
    (first second : TscQpcSample) (g d : ℕ) (out u : TscTransform) (o : ℕ)
    → second.reference_ticks ≤ u64_max
    → calibrate_tsc_transform (some first) (some second) g d (some out) ≡ (true, some u)
    → (is_tsc_transform_valid (some u) ≡ true)
      × (apply_tsc_transform (some u) first.source_tsc (some o)
          ≡ (success, some first.reference_ticks))
      × (time : ℕ) × (apply_tsc_transform (some u) second.source_tsc (some o)
          ≡ (success, some time))
      × (first.reference_ticks ≤ time)
      × (time ≤ second.reference_ticks)
calibrate_hits first second g d out u o wide h =
    let s = second.source_tsc - first.source_tsc in
    let r = second.reference_ticks - first.reference_ticks in
    let (e, generation, later, further, some_scale) = calibrate_parts first second g d out u h in
    let value = scale_value s r (omega arith) in
    let below : s * scale_of s r ≤ r * 2 ^ 32 = rw value (mul-div-le (r * 2 ^ 32) s) in
    let none_yet = no_distance first.source_tsc (scale_of s r) in
    let at_first =
      calibrated_answer first (scale_of s r) g d first.source_tsc 0 o some_scale generation
        (omega arith) (omega arith) (omega arith) in
    let at_second =
      calibrated_answer first (scale_of s r) g d second.source_tsc r o some_scale generation
        (omega arith) below (omega arith) in
    rw e (
      (calibrated_valid first (scale_of s r) g d some_scale generation).0,
      at_first ∙ ap (λ (t : ℕ). (success, some t)) (omega arith),
      first.reference_ticks + s * scale_of s r / 2 ^ 32,
      at_second,
      omega arith,
      omega arith,
    )
