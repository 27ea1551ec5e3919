-- ===== src/Vpid/Protocol.antt =====
-- A shootdown in src/vmx/vpid_model.cpp from its request to the identifier that it returns: whatever
-- calls were made in between, the processors that had to answer have answered.
use knhv.Prelude.{
  ℕ, ◌^◌, ◌≤◌, ◌<◌, ◌≡◌, ◌≢◌, ◌↔◌, ◌⊎◌, inl, refl, ◌∙◌, Bool, true, false, ◌||◌, Option, none, some,
  List, [], ◌∷◌, arith,
}
use knhv.Prelude.Tests.{ltb, leb, ◌==◌, ◌!=◌, if◌then◌else◌}
use knhv.Prelude.Bits.{any_bits, any_bits-bit_or}
use knhv.Prelude.Power.{any_bits_power, any_bits_zero}
use knhv.Vpid.Defs.{
  all_context, shootdown_idle, shootdown_pending, shootdown_completed, shootdown_timed_out,
  ShootdownRequest, ShootdownState, VpidLease, lease_retiring,
}
use knhv.Vpid.Lease.{free_lease}
use knhv.Vpid.Shootdown.{
  is_shootdown_state_valid, is_shootdown_state_valid_value, shootdown_covers_vpid,
  is_context_shootdown, pending_shootdown, begin_shootdown, acknowledge_shootdown,
  complete_shootdown, quarantine_shootdown,
}
use knhv.Vpid.Reclaim.{reclaim_vpid}

pub data Call : Type 0 where
  acknowledge complete : ℕ → Call
  quarantine : Call

-- What a call leaves of a shootdown.
abbrev pub left_by : ShootdownState → Bool × Option ShootdownState → ShootdownState
left_by s (ok, some t) = t
left_by s (ok, none) = s

unfoldable pub step : ShootdownState → Call → ShootdownState
step s (acknowledge cpu) = left_by s (acknowledge_shootdown (some s) cpu)
step s (complete now) = left_by s (complete_shootdown (some s) now)
step s quarantine = left_by s (quarantine_shootdown (some s))

unfoldable pub run : ShootdownState → List Call → ShootdownState
run s [] = s
run s (c ∷ cs) = run (step s c) cs

-- Whether a call is an answer of the processor, and whether it ends the shootdown in time.
abbrev pub answers : ℕ → Call → Bool
answers cpu (acknowledge i) = i == cpu
answers cpu (complete now) = false
answers cpu quarantine = false

abbrev pub ends_in_time : ℕ → Call → Bool
ends_in_time deadline (acknowledge i) = false
ends_in_time deadline (complete now) = leb now deadline
ends_in_time deadline quarantine = false

abbrev pub any_call : (Call → Bool) → List Call → Bool
any_call test [] = false
any_call test (c ∷ cs) = test c || any_call test cs

-- What no call changes.
pub record SameShootdown (s t : ShootdownState) : Type 0 where
  pub same_type : t.type ≡ s.type
  pub same_vpid : t.vpid ≡ s.vpid
  pub same_generation : t.generation ≡ s.generation
  pub same_targets : t.target_cpu_mask ≡ s.target_cpu_mask
  pub same_deadline : t.deadline_tsc ≡ s.deadline_tsc

step_same : (s : ShootdownState) (c : Call) → SameShootdown s (step s c)
unfolding step acknowledge_shootdown complete_shootdown quarantine_shootdown
step_same s (acknowledge cpu) = ground arith
step_same s (complete now) = ground arith
step_same s quarantine = ground arith

acknowledge_bits :
    (s : ShootdownState) (i cpu : ℕ)
    → any_bits (step s (acknowledge i)).acknowledged_cpu_mask (2 ^ cpu) ≡ true
    → (any_bits s.acknowledged_cpu_mask (2 ^ cpu) || (i == cpu)) ≡ true
unfolding step acknowledge_shootdown
acknowledge_bits s i cpu h =
    ground (arith, any_bits-bit_or s.acknowledged_cpu_mask (2 ^ i) (2 ^ cpu), any_bits_power i cpu)

step_bits :
    (s : ShootdownState) (c : Call) (cpu : ℕ)
    → any_bits (step s c).acknowledged_cpu_mask (2 ^ cpu) ≡ true
    → (any_bits s.acknowledged_cpu_mask (2 ^ cpu) || answers cpu c) ≡ true
step_bits s (acknowledge i) cpu h = acknowledge_bits s i cpu h
step_bits s (complete now) cpu h = unfold step complete_shootdown in ground arith
step_bits s quarantine cpu h = unfold step quarantine_shootdown in ground arith

step_completed :
    (s : ShootdownState) (c : Call)
    → (step s c).state ≡ shootdown_completed
    → (s.state ≡ shootdown_completed) ⊎ (ends_in_time s.deadline_tsc c ≡ true)
unfolding step acknowledge_shootdown complete_shootdown quarantine_shootdown
step_completed s (acknowledge i) h = ground arith
step_completed s (complete now) h = ground arith
step_completed s quarantine h = ground arith

run_same : (s : ShootdownState) (cs : List Call) → SameShootdown s (run s cs)
unfolding run
run_same s [] = record {
  same_type = refl;
  same_vpid = refl;
  same_generation = refl;
  same_targets = refl;
  same_deadline = refl;
}
run_same s (c ∷ cs) =
    let first = step_same s c in
    let rest = run_same (step s c) cs in
    record {
      same_type = rest.same_type ∙ first.same_type;
      same_vpid = rest.same_vpid ∙ first.same_vpid;
      same_generation = rest.same_generation ∙ first.same_generation;
      same_targets = rest.same_targets ∙ first.same_targets;
      same_deadline = rest.same_deadline ∙ first.same_deadline;
    }

run_bits :
    (s : ShootdownState) (cs : List Call) (cpu : ℕ)
    → any_bits (run s cs).acknowledged_cpu_mask (2 ^ cpu) ≡ true
    → (any_bits s.acknowledged_cpu_mask (2 ^ cpu) || any_call (answers cpu) cs) ≡ true
unfolding run
run_bits s [] cpu h = ground arith
run_bits s (c ∷ cs) cpu h = ground (arith, run_bits (step s c) cs cpu h, step_bits s c cpu)

run_completed :
    (s : ShootdownState) (cs : List Call)
    → (run s cs).state ≡ shootdown_completed
    → (s.state ≡ shootdown_completed) ⊎ (any_call (ends_in_time s.deadline_tsc) cs ≡ true)
unfolding run
run_completed s [] h = inl h
run_completed s (c ∷ cs) h =
    let rest = rw (step_same s c).same_deadline at (run_completed (step s c) cs h) in
    ground (arith, rest, step_completed s c)

begin_parts :
    (r : ShootdownRequest) (out s : ShootdownState)
    → begin_shootdown (some r) (some out) ≡ (true, some s)
    → s ≡ pending_shootdown r
unfolding begin_shootdown
begin_parts r out s h = ground arith

reclaim_parts :
    (l : VpidLease) (generation : ℕ) (s : ShootdownState) (left : VpidLease)
    → reclaim_vpid (some l) generation (some s) ≡ (true, some left)
    → (s.state ≡ shootdown_completed)
      × (s.acknowledged_cpu_mask ≡ s.target_cpu_mask)
      × (s.generation ≡ l.generation)
      × ((s.type ≡ all_context) ⊎ ((is_context_shootdown s.type ≡ true) × (s.vpid ≡ l.vpid)))
      × (l.state ≡ lease_retiring)
      × (left ≡ free_lease)
unfolding reclaim_vpid shootdown_covers_vpid
reclaim_parts l generation s left h = ground arith

-- A lease that is reclaimed by a shootdown, begun by a request and put through any calls, was retiring;
-- the request was for its generation and flushes all identifiers or the context of its own; every
-- processor that the request targets answered with an acknowledgement, and a completion was called by
-- the deadline. The lease is free afterwards.
pub reclaim_flushed :
    (r : ShootdownRequest) (out s : ShootdownState) (cs : List Call) (l left : VpidLease)
    (generation : ℕ)
    → begin_shootdown (some r) (some out) ≡ (true, some s)
    → reclaim_vpid (some l) generation (some (run s cs)) ≡ (true, some left)
    → (l.state ≡ lease_retiring)
      × (left ≡ free_lease)
      × (r.generation ≡ l.generation)
      × ((r.type ≡ all_context) ⊎ ((is_context_shootdown r.type ≡ true) × (r.vpid ≡ l.vpid)))
      × ((cpu : ℕ) → any_bits r.target_cpu_mask (2 ^ cpu) ≡ true → any_call (answers cpu) cs ≡ true)
      × (any_call (ends_in_time r.deadline_tsc) cs ≡ true)
reclaim_flushed r out s cs l left generation h k =
    let begun = begin_parts r out s h in
    let same = run_same (pending_shootdown r) cs in
    let (completed, full, gen, covers, retiring, freed) =
      reclaim_parts l generation (run (pending_shootdown r) cs) left (rw begun at k) in
    (
      retiring,
      freed,
      ground (arith, same.same_generation, gen),
      rw (same.same_type, same.same_vpid) at covers,
      λ cpu. λ target. ground (
        arith,
        run_bits (pending_shootdown r) cs cpu (rw (full, same.same_targets) target),
        any_bits_zero (2 ^ cpu),
      ),
      ground (arith, run_completed (pending_shootdown r) cs completed),
    )

-- Another state of a valid pending shootdown is valid up to what that state asks of the answers.
restated :
    (s : ShootdownState) (state : ℕ)
    → is_shootdown_state_valid (some s) ≡ true
    → s.state ≡ shootdown_pending
    → state ≢ shootdown_idle
    → state ≤ 4
    → is_shootdown_state_valid (some (record s { state = state })) ≡ (
        if state == shootdown_completed
        then s.acknowledged_cpu_mask == s.target_cpu_mask
        else if state == shootdown_timed_out
        then s.acknowledged_cpu_mask != s.target_cpu_mask
        else true)
unfolding is_shootdown_state_valid is_shootdown_state_valid_value
restated s state v p pos low = ground arith

complete_value :
    (s : ShootdownState) (now : ℕ)
    → is_shootdown_state_valid (some s) ≡ true
    → s.state ≡ shootdown_pending
    → complete_shootdown (some s) now ≡ (
        if ltb s.deadline_tsc now
        then (false, some (record s { state = shootdown_timed_out }))
        else if s.acknowledged_cpu_mask != s.target_cpu_mask
        then (false, some s)
        else (true, some (record s { state = shootdown_completed })))
unfolding complete_shootdown
complete_value s now v p = ground arith

-- A completion of a valid pending shootdown answers true exactly by the deadline and with every answer
-- in. After the deadline it times out; a state that timed out so is invalid, and is never quarantined,
-- exactly where every answer was in.
pub complete_cases :
    (s : ShootdownState) (now : ℕ)
    → is_shootdown_state_valid (some s) ≡ true
    → s.state ≡ shootdown_pending
    → let t = left_by s (complete_shootdown (some s) now) in
      (((complete_shootdown (some s) now).0 ≡ true)
        ↔ ((now ≤ s.deadline_tsc) × (s.acknowledged_cpu_mask ≡ s.target_cpu_mask)))
      × (now ≤ s.deadline_tsc → is_shootdown_state_valid (some t) ≡ true)
      × (s.deadline_tsc < now
          → (t.state ≡ shootdown_timed_out)
            × (is_shootdown_state_valid (some t) ≡ (s.acknowledged_cpu_mask != s.target_cpu_mask))
            × ((quarantine_shootdown (some t)).0 ≡ (s.acknowledged_cpu_mask != s.target_cpu_mask)))
unfolding quarantine_shootdown
complete_cases s now v p =
    let ended = restated s shootdown_completed v p (omega arith) (omega arith) in
    let late = restated s shootdown_timed_out v p (omega arith) (omega arith) in
    rw (complete_value s now v p)
      (ground (arith, ended), ground (arith, ended), ground (arith, late))
