-- ===== src/Time/Monotone.antt =====
-- The virtual time of src/time/time_contract.cpp follows the counter: what a transform answers, and
-- that a later counter is never answered with an earlier time.
use knhv.Prelude.{
  ℕ, ◌+◌, ◌-◌, ◌*◌, ◌/◌, ◌^◌, ◌≤◌, ◌<◌, ◌≡◌, ◌≢◌, ◌⊎◌, inl, inr, refl, Option, none, some, arith,
  bit_or,
}
use native.Mathlib.Nat.{mul-le-mul_right}
use knhv.Prelude.Tests.{◌!=◌, Bool-cases, Option-cases}
use knhv.Prelude.Bits.{u64}
use knhv.Prelude.Power.{bit_or_shift}
use knhv.Time.Defs.{
  ℤ, pos, negsuc, TimeResultCode, success, invalid, overflow, non_monotonic, drift_exceeded,
  generation_mismatch, paused, TscTransform,
}
use knhv.Time.Transform.{
  add_unsigned, add_signed, multiply_shift32, failed, projected, scaled_time, project_tsc_transform,
  clamp, apply_tsc_transform, continue_inner, compose_tsc_transforms,
}
use knhv.Time.Rebase.{projection_parts, Projection-cases}

-- The two words of a product, shifted and joined, are the product shifted.
pub words :
    (x : ℕ)
    → x / 2 ^ 64 ≤ 0xffffffff
    → bit_or (u64 (x / 2 ^ 64 * 2 ^ 32)) (u64 x / 2 ^ 32) ≡ x / 2 ^ 32
words x low =
    let whole : u64 (x / 2 ^ 64 * 2 ^ 32) ≡ x / 2 ^ 64 * 2 ^ 32 = omega arith in
    rw whole (omega (arith, bit_or_shift 32 (x / 2 ^ 64) (u64 x / 2 ^ 32) (omega arith)))

multiply_value :
    (left right scaled : ℕ)
    → multiply_shift32 left right ≡ some scaled
    → scaled ≡ left * right / 2 ^ 32
unfolding multiply_shift32
multiply_value left right scaled h = ground (arith, words (left * right))

scaled_parts :
    (t : TscTransform) (source candidate : ℕ)
    → scaled_time t source ≡ some candidate
    → candidate ≡ t.base_virtual_tsc + (source - t.base_tsc) * t.scale_q32_32 / 2 ^ 32
unfolding scaled_time add_unsigned
scaled_parts t source candidate h =
    elim (Option-cases (multiply_shift32 (source - t.base_tsc) t.scale_q32_32)) [
      | inl e ↦ absurd (ground (arith, e))
      | inr (c, e) ↦ ground (arith, e, multiply_value (source - t.base_tsc) t.scale_q32_32 c e)
    ]

add_signed_mono :
    (a b x y : ℕ) (offset : ℤ)
    → a ≤ b
    → add_signed a offset ≡ some x
    → add_signed b offset ≡ some y
    → x ≤ y
unfolding add_signed add_unsigned
add_signed_mono a b x y (pos n) le h k = ground arith
add_signed_mono a b x y (negsuc n) le h k = ground arith

scaled_mono :
    (t : TscTransform) (source later : ℕ)
    → source ≤ later
    → (source - t.base_tsc) * t.scale_q32_32 / 2 ^ 32
      ≤ (later - t.base_tsc) * t.scale_q32_32 / 2 ^ 32
scaled_mono t source later le =
    let wider : source - t.base_tsc ≤ later - t.base_tsc = omega arith in
    omega (arith, mul-le-mul_right t.scale_q32_32 wider)

projection_mono :
    (t : TscTransform) (source later x y : ℕ)
    → source ≤ later
    → project_tsc_transform t source ≡ projected x
    → project_tsc_transform t later ≡ projected y
    → x ≤ y
projection_mono t source later x y le h k =
    let (_, a, e, f) = projection_parts t source x h in
    let (_, b, e', f') = projection_parts t later y k in
    let below : a ≤ b = omega (
      arith,
      scaled_parts t source a e,
      scaled_parts t later b e',
      scaled_mono t source later le,
    ) in
    add_signed_mono a b x y t.offset_ticks below f f'

project_honest :
    (t : TscTransform) (source : ℕ) (code : TimeResultCode)
    → project_tsc_transform t source ≡ failed code
    → code ≢ success
unfolding project_tsc_transform
project_honest t source code h = ground arith

apply_parts :
    (t : TscTransform) (source out time : ℕ)
    → apply_tsc_transform (some t) source (some out) ≡ (success, some time)
    → (x : ℕ) × (project_tsc_transform t source ≡ projected x)
      × (((x < t.last_virtual_tsc) × (time ≡ t.last_virtual_tsc))
          ⊎ ((t.last_virtual_tsc ≤ x) × (time ≡ x)))
unfolding apply_tsc_transform clamp
apply_parts t source out time h = elim (Projection-cases (project_tsc_transform t source)) [
  | inl (code, e) ↦ absurd (ground (arith, e, project_honest t source code e))
  | inr (x, e) ↦ (x, e, ground (arith, e))
]

-- Of two counters that a transform answers, the later has no earlier time; both times are at least
-- the transform's last one.
pub apply_mono :
    (t : TscTransform) (source later out out' time time' : ℕ)
    → source ≤ later
    → apply_tsc_transform (some t) source (some out) ≡ (success, some time)
    → apply_tsc_transform (some t) later (some out') ≡ (success, some time')
    → (t.last_virtual_tsc ≤ time) × (time ≤ time')
apply_mono t source later out out' time time' le h k =
    let (x, e, c) = apply_parts t source out time h in
    let (y, e', c') = apply_parts t later out' time' k in
    let mono = projection_mono t source later x y le e e' in (omega arith, omega arith)

answer_parts :
    (inner : TscTransform) (out time : ℕ) (answer : TimeResultCode × Option ℕ)
    → continue_inner (some inner) (some out) answer ≡ (success, some time)
    → answer.1 ≢ none
    → (middle : ℕ) × (answer ≡ (success, some middle))
      × (apply_tsc_transform (some inner) middle (some out) ≡ (success, some time))
answer_parts inner out time (success, some middle) h there = (middle, refl, h)
answer_parts inner out time (success, none) h there = absurd (there refl)
answer_parts inner out time (invalid, a) h there = absurd (ground arith)
answer_parts inner out time (overflow, a) h there = absurd (ground arith)
answer_parts inner out time (non_monotonic, a) h there = absurd (ground arith)
answer_parts inner out time (drift_exceeded, a) h there = absurd (ground arith)
answer_parts inner out time (generation_mismatch, a) h there = absurd (ground arith)
answer_parts inner out time (paused, a) h there = absurd (ground arith)

pub apply_there :
    (t : TscTransform) (source out : ℕ) → (apply_tsc_transform (some t) source (some out)).1 ≢ none
unfolding apply_tsc_transform clamp
apply_there t source out h = elim (Projection-cases (project_tsc_transform t source)) [
  | inl (code, e) ↦ ground (arith, e)
  | inr (x, e) ↦ ground (arith, e)
]

compose_parts :
    (outer inner : TscTransform) (source out time : ℕ)
    → compose_tsc_transforms (some outer) (some inner) source (some out) ≡ (success, some time)
    → (outer.generation ≡ inner.generation)
      × (middle : ℕ) × (apply_tsc_transform (some outer) source (some 0) ≡ (success, some middle))
      × (apply_tsc_transform (some inner) middle (some out) ≡ (success, some time))
unfolding compose_tsc_transforms
compose_parts outer inner source out time h =
    elim (Bool-cases (outer.generation != inner.generation)) [
      | inl e ↦ absurd (ground (arith, e))
      | inr e ↦
          let (middle, f, g) =
            answer_parts inner out time (apply_tsc_transform (some outer) source (some 0))
              (rw e at h) (apply_there outer source 0) in
          (ground (arith, e), middle, f, g)
    ]

-- A composition that answers two counters is of one generation, answers the later with no earlier
-- time, and both with times that are at least the inner transform's last one.
pub compose_mono :
    (outer inner : TscTransform) (source later out out' time time' : ℕ)
    → source ≤ later
    → compose_tsc_transforms (some outer) (some inner) source (some out) ≡ (success, some time)
    → compose_tsc_transforms (some outer) (some inner) later (some out') ≡ (success, some time')
    → (outer.generation ≡ inner.generation) × (inner.last_virtual_tsc ≤ time) × (time ≤ time')
compose_mono outer inner source later out out' time time' le h k =
    let (same, m, e, f) = compose_parts outer inner source out time h in
    let (_, n, e', f') = compose_parts outer inner later out' time' k in
    let (_, middle) = apply_mono outer source later 0 0 m n le e e' in
    let (low, on) = apply_mono inner m n out out' time time' middle f f' in (same, low, on)
