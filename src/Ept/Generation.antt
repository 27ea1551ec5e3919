-- ===== src/Ept/Generation.antt =====
-- src/ept/ept_model.cpp: the rate limit of a hook lease and the generations of the tables.
use knhv.Prelude.{ℕ, ◌+◌, ◌-◌, ◌*◌, ◌/◌, Bool, true, false, not, ◌&&◌, ◌||◌, Option, none, some}
use knhv.Prelude.Tests.{ltb, leb, ◌==◌, ◌!=◌, if◌then◌else◌}
use knhv.Prelude.Bits.{u64_max}
use knhv.Ept.Defs.{
  ept_contract_version, generation_active, generation_pending, EptHookLease, EptGeneration,
}
use knhv.Ept.Validity.{is_versioned_size_valid}
use knhv.Ept.Hook.{is_ept_hook_lease_valid}

-- `AddMulOverflow`: the product, or `none` where it does not fit 64 bits.
unfoldable pub checked_mul : ℕ → ℕ → Option ℕ
checked_mul left right =
    if right != 0 && ltb (u64_max / right) left then none else some (left * right)

-- The tests of `IsEptHookRateWithin` on a window that is not empty.
unfoldable pub is_count_within : ℕ → ℕ → ℕ → ℕ → Bool
unfolding checked_mul
is_count_within max_exits exit_count window_tsc tsc_hz =
    if leb tsc_hz window_tsc
    then elim (checked_mul max_exits (window_tsc / tsc_hz)) [
      | none ↦ false
      | some allowed ↦ leb exit_count allowed
    ]
    else if ltb (u64_max / tsc_hz) exit_count || ltb (u64_max / window_tsc) max_exits
    then false
    else leb (exit_count * tsc_hz) (max_exits * window_tsc)

unfoldable pub is_ept_hook_rate_within : Option EptHookLease → ℕ → ℕ → ℕ → Bool
unfolding is_ept_hook_lease_valid is_count_within
is_ept_hook_rate_within none exit_count window_tsc tsc_hz = false
is_ept_hook_rate_within (some l) exit_count window_tsc tsc_hz =
    is_ept_hook_lease_valid (some l)
    && tsc_hz != 0
    && window_tsc != 0
    && is_count_within l.max_exits_per_second exit_count window_tsc tsc_hz

-- The value of `NextEptGeneration`, or `none` where it returns false.
unfoldable pub next_ept_generation : ℕ → Option ℕ
next_ept_generation current_generation =
    if current_generation == u64_max
    then none
    else some (if current_generation == 0 then 1 else current_generation + 1)

-- The generation that `BeginEptGeneration` fills in, or `none` where it returns false.
unfoldable pub begin_ept_generation : EptGeneration → Option EptGeneration
unfolding is_versioned_size_valid next_ept_generation
begin_ept_generation g =
    if not (is_versioned_size_valid g.version g.size 40)
      || g.state != generation_active
      || g.generation == 0
      || g.reserved != 0
    then none
    else elim (next_ept_generation g.generation) [
      | none ↦ none
      | some next ↦ some record {
        size = 40;
        version = ept_contract_version;
        generation = next;
        parent_generation = g.generation;
        state = generation_pending;
        required_cpu_acks = 0;
        observed_cpu_acks = 0;
        reserved = 0;
      }
    ]

unfoldable pub acknowledge_ept_generation : EptGeneration → ℕ → Bool × EptGeneration
unfolding is_versioned_size_valid
acknowledge_ept_generation g cpu_count =
    if not (is_versioned_size_valid g.version g.size 40)
      || g.state != generation_pending
      || cpu_count == 0
      || g.required_cpu_acks == 0
      || ltb g.required_cpu_acks g.observed_cpu_acks
      || ltb (g.required_cpu_acks - g.observed_cpu_acks) cpu_count
    then (false, g)
    else (true, record g { observed_cpu_acks = g.observed_cpu_acks + cpu_count })

unfoldable pub publish_ept_generation : EptGeneration → Bool × EptGeneration
unfolding is_versioned_size_valid
publish_ept_generation g =
    if not (is_versioned_size_valid g.version g.size 40)
      || g.state != generation_pending
      || g.required_cpu_acks == 0
      || g.observed_cpu_acks != g.required_cpu_acks
    then (false, g)
    else (true, record g { state = generation_active })
