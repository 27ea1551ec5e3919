-- ===== src/Time/Tests.antt =====
-- Runs of the definitions under Time, and the theorems at them.
use knhv.Prelude.{ℕ, ◌≤◌, ◌≡◌, refl, true, some, arith}
use knhv.Prelude.Bits.{any_bits}
use knhv.Time.Defs.{i64_maximum, pos, negsuc, success, TscTransform, TscQpcSample, TimeObservation}
use knhv.Time.Transform.{
  is_versioned_size_valid, add_unsigned, add_signed, multiply_shift32, scaled_time,
  project_tsc_transform, is_tsc_transform_valid, clamp, apply_tsc_transform, compose_tsc_transforms,
  rebase_to, rebase_tsc_transform,
}
use knhv.Time.Rebase.{rebase_reaches}
use knhv.Time.Monotone.{apply_mono, compose_mono}
use knhv.Time.Observe.{
  difference_to_signed, empty_observation, observe_time_sample, calibrated, calibrate_tsc_transform,
}
use knhv.Time.Calibrate.{calibrate_hits}
use knhv.Time.Drift.{distance, IsDrift, observe_within}

-- Three halves of the counter, ten ticks back, and never before 1000.
abbrev transform : TscTransform
transform = record {
  size = 72;
  version = 1;
  base_tsc = 500;
  base_virtual_tsc = 900;
  scale_q32_32 = 6442450944;
  offset_ticks = negsuc 9;
  generation = 2;
  last_virtual_tsc = 1000;
  max_drift_ticks = 5;
  flags = 2;
  reserved = 0;
}

clamps : apply_tsc_transform (some transform) 520 (some 0) ≡ (success, some 1000)
unfolding apply_tsc_transform is_tsc_transform_valid is_versioned_size_valid any_bits
    project_tsc_transform scaled_time multiply_shift32 add_unsigned add_signed clamp
clamps = refl

applies : apply_tsc_transform (some transform) 700 (some 0) ≡ (success, some 1190)
unfolding apply_tsc_transform is_tsc_transform_valid is_versioned_size_valid any_bits
    project_tsc_transform scaled_time multiply_shift32 add_unsigned add_signed clamp
applies = refl

apply_mono_example : (1000 ≤ 1000) × (1000 ≤ 1190)
apply_mono_example = apply_mono transform 520 700 0 0 1000 1190 (omega arith) clamps applies

composes :
    compose_tsc_transforms (some transform) (some transform) 520 (some 0) ≡ (success, some 1640)
unfolding compose_tsc_transforms apply_tsc_transform is_tsc_transform_valid is_versioned_size_valid
    any_bits project_tsc_transform scaled_time multiply_shift32 add_unsigned add_signed clamp
composes = refl

composes_later :
    compose_tsc_transforms (some transform) (some transform) 700 (some 0) ≡ (success, some 1925)
unfolding compose_tsc_transforms apply_tsc_transform is_tsc_transform_valid is_versioned_size_valid
    any_bits project_tsc_transform scaled_time multiply_shift32 add_unsigned add_signed clamp
composes_later = refl

compose_mono_example : (transform.generation ≡ transform.generation) × (1000 ≤ 1640) × (1640 ≤ 1925)
compose_mono_example =
    compose_mono transform transform 520 700 0 0 1640 1925 (omega arith) composes composes_later

abbrev rebased : TscTransform
rebased = record transform { offset_ticks = pos 1800; last_virtual_tsc = 3000 }

rebases : rebase_tsc_transform (some transform) 700 3000 ≡ (true, some rebased)
unfolding rebase_tsc_transform rebase_to is_tsc_transform_valid is_versioned_size_valid any_bits
    project_tsc_transform scaled_time multiply_shift32 add_unsigned add_signed
rebases = refl

rebase_reaches_example :
    (is_tsc_transform_valid (some rebased) ≡ true)
    × (3000 ≤ rebased.last_virtual_tsc)
    × (transform.last_virtual_tsc ≤ rebased.last_virtual_tsc)
    × (time : ℕ) × (apply_tsc_transform (some rebased) 700 (some 0) ≡ (success, some time))
    × (rebased.last_virtual_tsc ≤ time)
rebase_reaches_example =
    rebase_reaches transform rebased 700 3000 0 (omega arith) (omega arith) rebases

transform-valid : is_tsc_transform_valid (some transform) ≡ true
unfolding is_tsc_transform_valid is_versioned_size_valid any_bits
transform-valid = refl

near : (observe_time_sample (some transform) 700 1187 (some empty_observation)).0 ≡ success
unfolding observe_time_sample difference_to_signed apply_tsc_transform is_tsc_transform_valid
    is_versioned_size_valid any_bits project_tsc_transform scaled_time multiply_shift32 add_unsigned
    add_signed clamp
near = refl

observe_within_example :
    ((o : TimeObservation)
      → observe_time_sample (some transform) 700 1187 (some empty_observation) ≡ (success, some o)
      → (apply_tsc_transform (some transform) 700 (some 0) ≡ (success, some o.virtual_tsc))
        × IsDrift o.drift_ticks o.virtual_tsc 1187
        × (distance o.virtual_tsc 1187 ≤ transform.max_drift_ticks))
    × ((time : ℕ)
        → apply_tsc_transform (some transform) 700 (some 0) ≡ (success, some time)
        → distance time 1187 ≤ transform.max_drift_ticks
        → distance time 1187 ≤ i64_maximum
        → (observe_time_sample (some transform) 700 1187 (some empty_observation)).0 ≡ success)
observe_within_example = observe_within transform 700 1187 empty_observation transform-valid

abbrev first_sample : TscQpcSample
first_sample = record { source_tsc = 100; reference_ticks = 1000 }

abbrev second_sample : TscQpcSample
second_sample = record { source_tsc = 400; reference_ticks = 1100 }

-- A third of a tick for each count, rounded down.
abbrev third : TscTransform
third = calibrated first_sample 1431655765 2 5

calibrates :
    calibrate_tsc_transform (some first_sample) (some second_sample) 2 5 (some transform)
    ≡ (true, some third)
unfolding calibrate_tsc_transform
calibrates = refl

calibrate_hits_example :
    (is_tsc_transform_valid (some third) ≡ true)
    × (apply_tsc_transform (some third) 100 (some 0) ≡ (success, some 1000))
    × (time : ℕ) × (apply_tsc_transform (some third) 400 (some 0) ≡ (success, some time))
    × (1000 ≤ time)
    × (time ≤ 1100)
calibrate_hits_example =
    calibrate_hits first_sample second_sample 2 5 transform third 0 (omega arith) calibrates
