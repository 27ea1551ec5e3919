-- ===== src/Time/Transform.antt =====
-- src/time/time_contract.cpp: the arithmetic and the operations on a transform.
use knhv.Prelude.{
  ℕ, suc, ◌+◌, ◌-◌, ◌*◌, ◌/◌, ◌^◌, Bool, true, false, not, ◌&&◌, ◌||◌, Option, none, some, bit_or,
}
use knhv.Prelude.Tests.{ltb, leb, ◌==◌, ◌!=◌, if◌then◌else◌}
use knhv.Prelude.Bits.{any_bits, not32, u64, u64_max}
use knhv.Time.Defs.{
  time_contract_version, time_max_struct_size, time_flag_monotonic_clamp, time_flag_paused,
  time_known_flag_mask, i64_maximum, ℤ, pos, negsuc, TimeResultCode, success, invalid, overflow,
  non_monotonic, generation_mismatch, paused, TscTransform,
}

unfoldable pub is_versioned_size_valid : ℕ → ℕ → ℕ → Bool
is_versioned_size_valid version size required =
    version == time_contract_version && leb required size && leb size time_max_struct_size

unfoldable pub add_unsigned : ℕ → ℕ → Option ℕ
add_unsigned left right = if ltb (u64_max - right) left then none else some (left + right)

unfoldable pub add_signed : ℕ → ℤ → Option ℕ
add_signed value (pos n) = add_unsigned value n
add_signed value (negsuc n) =
    let magnitude = suc n in if ltb value magnitude then none else some (value - magnitude)

-- The two words of a product, as the instruction behind `_umul128` gives them.
unfoldable pub multiply_shift32 : ℕ → ℕ → Option ℕ
multiply_shift32 left right =
    let high = left * right / 2 ^ 64 in
    let low = u64 (left * right) in
    if ltb 0xffffffff high then none else some (bit_or (u64 (high * 2 ^ 32)) (low / 2 ^ 32))

-- The answer of a projection: a code other than success, or the time.
pub data Projection : Type 0 where
  failed : TimeResultCode → Projection
  projected : ℕ → Projection

abbrev pub or_overflow : Option ℕ → Projection
or_overflow none = failed overflow
or_overflow (some n) = projected n

abbrev pub and_then : Option ℕ → (ℕ → Option ℕ) → Option ℕ
and_then none f = none
and_then (some n) f = f n

-- The time before the offset.
unfoldable pub scaled_time : TscTransform → ℕ → Option ℕ
scaled_time t source_tsc =
    and_then (multiply_shift32 (source_tsc - t.base_tsc) t.scale_q32_32)
      (add_unsigned t.base_virtual_tsc)

unfoldable pub project_tsc_transform : TscTransform → ℕ → Projection
project_tsc_transform t source_tsc =
    if ltb source_tsc t.base_tsc
    then failed non_monotonic
    else or_overflow
        (and_then (scaled_time t source_tsc) (λ candidate. add_signed candidate t.offset_ticks))

unfoldable pub is_tsc_transform_valid : Option TscTransform → Bool
is_tsc_transform_valid none = false
is_tsc_transform_valid (some t) =
    is_versioned_size_valid t.version t.size 72
    && t.scale_q32_32 != 0
    && t.generation != 0
    && not (any_bits t.flags (not32 time_known_flag_mask))
    && t.reserved == 0

-- What `ApplyTscTransform` does with a projection and the time that stood in its output.
unfoldable pub clamp : TscTransform → Projection → ℕ → TimeResultCode × Option ℕ
clamp t (failed code) out = (code, some out)
clamp t (projected candidate) out =
    if t.last_virtual_tsc != 0 && ltb candidate t.last_virtual_tsc
    then (if any_bits t.flags time_flag_monotonic_clamp
        then (success, some t.last_virtual_tsc)
        else (non_monotonic, some out))
    else (success, some candidate)

unfoldable pub apply_tsc_transform : Option TscTransform → ℕ → Option ℕ → TimeResultCode × Option ℕ
apply_tsc_transform t source_tsc none = (invalid, none)
apply_tsc_transform none source_tsc (some out) = (invalid, some out)
apply_tsc_transform (some t) source_tsc (some out) =
    if not (is_tsc_transform_valid (some t))
    then (invalid, some out)
    else if any_bits t.flags time_flag_paused
    then (paused, some out)
    else clamp t (project_tsc_transform t source_tsc) out

-- The inner transform of a composition, on what the outer one gave.
abbrev pub continue_inner :
    Option TscTransform → Option ℕ → TimeResultCode × Option ℕ → TimeResultCode × Option ℕ
continue_inner inner out (success, some intermediate) = apply_tsc_transform inner intermediate out
continue_inner inner out (code, _) = (code, out)

unfoldable pub compose_tsc_transforms :
    Option TscTransform → Option TscTransform → ℕ → Option ℕ → TimeResultCode × Option ℕ
compose_tsc_transforms (some outer) (some inner) source_tsc out =
    if outer.generation != inner.generation
    then (generation_mismatch, out)
    else continue_inner (some inner) out (apply_tsc_transform (some outer) source_tsc (some 0))
compose_tsc_transforms _ _ source_tsc out = (generation_mismatch, out)

-- The offset with an adjustment of at least zero added.
abbrev pub add_ticks : ℤ → ℕ → ℤ
add_ticks (pos n) adjustment = pos (n + adjustment)
add_ticks (negsuc n) adjustment =
    if ltb n adjustment then pos (adjustment - suc n) else negsuc (n - adjustment)

-- `offset > kI64Maximum - adjustment`.
abbrev pub exceeds : ℤ → ℕ → Bool
exceeds (pos n) adjustment = ltb (i64_maximum - adjustment) n
exceeds (negsuc n) adjustment = false

unfoldable pub rebase_to : TscTransform → ℕ → ℕ → Bool × Option TscTransform
rebase_to t time target =
    if ltb time target
    then (if ltb i64_maximum (target - time) || exceeds t.offset_ticks (target - time)
        then (false, some t)
        else (
          true,
          some (record t {
            offset_ticks = add_ticks t.offset_ticks (target - time);
            last_virtual_tsc = target;
          }),
        ))
    else (true, some (record t { last_virtual_tsc = target }))

abbrev pub rebase_projection : TscTransform → Projection → ℕ → Bool × Option TscTransform
rebase_projection t (failed code) target = (false, some t)
rebase_projection t (projected time) target = rebase_to t time target

unfoldable pub rebase_tsc_transform : Option TscTransform → ℕ → ℕ → Bool × Option TscTransform
rebase_tsc_transform none source_tsc minimum_virtual_tsc = (false, none)
rebase_tsc_transform (some t) source_tsc minimum_virtual_tsc =
    if not (is_tsc_transform_valid (some t)) || any_bits t.flags time_flag_paused
    then (false, some t)
    else rebase_projection t (project_tsc_transform t source_tsc) (
        if ltb minimum_virtual_tsc t.last_virtual_tsc
        then t.last_virtual_tsc
        else minimum_virtual_tsc)

unfoldable pub next_time_generation : ℕ → Option ℕ → Bool × Option ℕ
next_time_generation current_generation none = (false, none)
next_time_generation current_generation (some out) =
    if current_generation == u64_max
    then (false, some out)
    else (true, some (if current_generation == 0 then 1 else current_generation + 1))
