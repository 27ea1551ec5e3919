-- ===== src/Time/Rebase.antt =====
-- The virtual time of src/time/time_contract.cpp never runs backwards: within a transform, and over a
-- rebase.
use knhv.Prelude.{ℕ, ◌+◌, ◌-◌, ◌≤◌, ◌<◌, ◌≡◌, ◌⊎◌, inl, inr, refl, ◌∙◌, true, false, some, arith}
use knhv.Prelude.Tests.{ltb, if◌then◌else◌, Option-cases}
use knhv.Prelude.Bits.{any_bits, u64_max}
use knhv.Time.Defs.{time_flag_paused, ℤ, pos, negsuc, TimeResultCode, success, TscTransform}
use knhv.Time.Transform.{
  add_unsigned, add_signed, Projection, failed, projected, scaled_time, project_tsc_transform,
  is_tsc_transform_valid, clamp, apply_tsc_transform, add_ticks, rebase_to, rebase_tsc_transform,
}

add_signed-add_ticks :
    (value : ℕ) (offset : ℤ) (adjustment time : ℕ)
    → add_signed value offset ≡ some time
    → time + adjustment ≤ u64_max
    → add_signed value (add_ticks offset adjustment) ≡ some (time + adjustment)
unfolding add_signed add_unsigned
add_signed-add_ticks value (pos n) adjustment time h fits = ground arith
add_signed-add_ticks value (negsuc n) adjustment time h fits = ground arith

scaled_offset :
    (t : TscTransform) (source adjustment last : ℕ)
    → scaled_time
        (record t { offset_ticks = add_ticks t.offset_ticks adjustment; last_virtual_tsc = last })
        source
      ≡ scaled_time t source
unfolding scaled_time
scaled_offset t source adjustment last = refl

pub projection_parts :
    (t : TscTransform) (source time : ℕ)
    → project_tsc_transform t source ≡ projected time
    → (t.base_tsc ≤ source)
      × (candidate : ℕ) × (scaled_time t source ≡ some candidate)
      × (add_signed candidate t.offset_ticks ≡ some time)
unfolding project_tsc_transform
projection_parts t source time h = elim (Option-cases (scaled_time t source)) [
  | inl e ↦ absurd (ground (arith, e))
  | inr (c, e) ↦ elim (Option-cases (add_signed c t.offset_ticks)) [
    | inl f ↦ absurd (ground (arith, e, f))
    | inr (d, f) ↦ (ground (arith, e, f), c, e, ground (arith, e, f))
  ]
]

pub projection_value :
    (t : TscTransform) (source candidate time : ℕ)
    → t.base_tsc ≤ source
    → scaled_time t source ≡ some candidate
    → add_signed candidate t.offset_ticks ≡ some time
    → project_tsc_transform t source ≡ projected time
unfolding project_tsc_transform
projection_value t source candidate time low e f = ground (arith, e, f)

-- An adjustment of the offset moves the projection by as much.
projection_shift :
    (t : TscTransform) (source time adjustment last : ℕ)
    → project_tsc_transform t source ≡ projected time
    → time + adjustment ≤ u64_max
    → project_tsc_transform
        (record t { offset_ticks = add_ticks t.offset_ticks adjustment; last_virtual_tsc = last })
        source
      ≡ projected (time + adjustment)
projection_shift t source time adjustment last h fits =
    let (low, c, e, f) = projection_parts t source time h in
    projection_value _ source c (time + adjustment) low (scaled_offset t source adjustment last ∙ e)
      (add_signed-add_ticks c t.offset_ticks adjustment time f fits)

pub Projection-cases :
    (p : Projection)
    → ((code : TimeResultCode) × (p ≡ failed code)) ⊎ ((time : ℕ) × (p ≡ projected time))
Projection-cases (failed code) = inl (code, refl)
Projection-cases (projected time) = inr (time, refl)

rebase_parts :
    (t u : TscTransform) (source minimum : ℕ)
    → rebase_tsc_transform (some t) source minimum ≡ (true, some u)
    → (is_tsc_transform_valid (some t) ≡ true)
      × (any_bits t.flags time_flag_paused ≡ false)
      × (time : ℕ) × (target : ℕ) × (project_tsc_transform t source ≡ projected time)
      × (minimum ≤ target)
      × (t.last_virtual_tsc ≤ target)
      × ((target ≡ minimum) ⊎ (target ≡ t.last_virtual_tsc))
      × (rebase_to t time target ≡ (true, some u))
unfolding rebase_tsc_transform
rebase_parts t u source minimum h = elim (Projection-cases (project_tsc_transform t source)) [
  | inl (code, e) ↦ absurd (ground (arith, e))
  | inr (time, e) ↦ (
    ground arith,
    ground arith,
    time,
    (if ltb minimum t.last_virtual_tsc then t.last_virtual_tsc else minimum),
    e,
    ground arith,
    ground arith,
    ground arith,
    ground (arith, e),
  )
]

rebase_valid :
    (t : TscTransform) (offset : ℤ) (last : ℕ)
    → is_tsc_transform_valid (some t) ≡ true
    → is_tsc_transform_valid (some (record t { offset_ticks = offset; last_virtual_tsc = last }))
      ≡ true
unfolding is_tsc_transform_valid
rebase_valid t offset last v = v

projection_last :
    (t : TscTransform) (source last : ℕ)
    → project_tsc_transform (record t { last_virtual_tsc = last }) source
      ≡ project_tsc_transform t source
unfolding project_tsc_transform scaled_time
projection_last t source last = refl

rebase_cases :
    (t u : TscTransform) (time target : ℕ)
    → rebase_to t time target ≡ (true, some u)
    → ((u ≡ record t {
      offset_ticks = add_ticks t.offset_ticks (target - time);
      last_virtual_tsc = target;
    })
        × (time < target))
      ⊎ ((u ≡ record t { last_virtual_tsc = target }) × (target ≤ time))
unfolding rebase_to
rebase_cases t u time target h = ground arith

-- A transform whose projection is at least its last time answers with it.
pub apply_value :
    (t : TscTransform) (source time out : ℕ)
    → is_tsc_transform_valid (some t) ≡ true
    → any_bits t.flags time_flag_paused ≡ false
    → project_tsc_transform t source ≡ projected time
    → t.last_virtual_tsc ≤ time
    → apply_tsc_transform (some t) source (some out) ≡ (success, some time)
unfolding apply_tsc_transform clamp
apply_value t source time out v running h low = rw (v, running, h) (ground arith)

-- A rebase of a transform towards a 64-bit time, where its last time is one too, leaves a transform
-- that is valid and, at the source time of the rebase, answers with a time no earlier than the one
-- asked for and than the last one; that is its last time then, or is later.
pub rebase_reaches :
    (t u : TscTransform) (source minimum out : ℕ)
    → minimum ≤ u64_max
    → t.last_virtual_tsc ≤ u64_max
    → rebase_tsc_transform (some t) source minimum ≡ (true, some u)
    → (is_tsc_transform_valid (some u) ≡ true)
      × (minimum ≤ u.last_virtual_tsc)
      × (t.last_virtual_tsc ≤ u.last_virtual_tsc)
      × (time : ℕ) × (apply_tsc_transform (some u) source (some out) ≡ (success, some time))
      × (u.last_virtual_tsc ≤ time)
rebase_reaches t u source minimum out wide wide' h =
    let (v, running, time, target, e, low, low', one, r) = rebase_parts t u source minimum h in
    elim (rebase_cases t u time target r) [
      | inl (f, g) ↦
          let fits : time + (target - time) ≤ u64_max = omega arith in
          rw f (
            rebase_valid t (add_ticks t.offset_ticks (target - time)) target v,
            low,
            low',
            time + (target - time),
            apply_value _ source (time + (target - time)) out
                (rebase_valid t (add_ticks t.offset_ticks (target - time)) target v) running
                (projection_shift t source time (target - time) target e fits) (omega arith),
            omega arith,
          )
      | inr (f, g) ↦ rw f (
        rebase_valid t t.offset_ticks target v,
        low,
        low',
        time,
        apply_value _ source time out (rebase_valid t t.offset_ticks target v) running
            (projection_last t source target ∙ e) g,
        g,
      )
    ]
