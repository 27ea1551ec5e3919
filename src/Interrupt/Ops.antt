-- ===== src/Interrupt/Ops.antt =====
-- src/interrupt/interrupt_model.cpp: `EnqueueInterrupt`, `SelectInterrupt`,
-- `CommitInterruptInjection`.
use knhv.Prelude.{
  ℕ, zero, suc, ◌+◌, ◌-◌, Bool, true, false, not, ◌&&◌, ◌||◌, Option, none, some, List, [], ◌∷◌,
  bit_or,
}
use knhv.Prelude.Tests.{ltb, leb, ◌==◌, ◌!=◌, if◌then◌else◌}
use knhv.Prelude.Bits.{any_bits, not32, u32, u64, u64_max}
use knhv.Prelude.Lists.{get_or, set, take}
use knhv.Interrupt.Defs.{
  InterruptEvent, InterruptState, InterruptDecision, InterruptStatus, ready, no_pending, blocked,
  invalid, generation_mismatch, queue_full, conflict, status_code, inject, wait_window, quarantine,
  action_code, interrupt_contract_version, interrupt_queue_depth, zero_event, nmi, block_nmi,
  known_event_mask, is_versioned_size_valid, priority, is_blocked, is_same_event,
  is_interrupt_event_valid, has_sequence, is_interrupt_state_valid,
}

-- The entries in use.
abbrev pub live : InterruptState → List InterruptEvent
live s = take s.pending_count s.pending

-- The writes of a successful `EnqueueInterrupt`.
unfoldable pub append_event : InterruptState → InterruptEvent → InterruptState
append_event s e = record s {
  pending = set s.pending s.pending_count e;
  pending_count = u32 (s.pending_count + 1);
  next_sequence = if leb s.next_sequence e.sequence then u64 (e.sequence + 1) else s.next_sequence;
}

unfoldable pub enqueue_interrupt :
    Option InterruptState → Option InterruptEvent → InterruptStatus × Option InterruptState
enqueue_interrupt (some s) (some e) =
    if not (is_interrupt_state_valid (some s)) || not (is_interrupt_event_valid (some e))
    then (invalid, some s)
    else if e.generation != s.generation
    then (generation_mismatch, some s)
    else if leb interrupt_queue_depth s.pending_count
    then (queue_full, some s)
    else if has_sequence e.sequence (live s)
    then (conflict, some s)
    else if e.sequence == u64_max
    then (conflict, some s)
    else (ready, some (append_event s e))
enqueue_interrupt s _ = (invalid, s)

-- Whether the candidate takes the place of the event selected so far.
unfoldable pub prefer : InterruptEvent → Option InterruptEvent → Option InterruptEvent
prefer c none = some c
prefer c (some x) =
    if ltb (priority x) (priority c) || (priority c == priority x && ltb c.sequence x.sequence)
    then some c
    else some x

-- The loop over the entries in use.
unfoldable pub select_from :
    InterruptState → List InterruptEvent → Option InterruptEvent → Option InterruptEvent
unfolding prefer
select_from s [] selected = selected
select_from s (c ∷ cs) selected =
    select_from s cs (if is_blocked s c then selected else prefer c selected)

-- What `InitializeDecision` writes.
abbrev pub initialize_decision : ℕ → InterruptDecision
initialize_decision generation = record {
  size = 56;
  version = interrupt_contract_version;
  status = 0;
  action = 0;
  kind = 0;
  vector = 0;
  error_code = 0;
  flags = 0;
  reserved = 0;
  reserved2 = 0;
  sequence = 0;
  generation = generation;
}

abbrev pub selection : ℕ → Option InterruptEvent → InterruptStatus × Option InterruptDecision
selection generation none = (
  blocked,
  some (record (initialize_decision generation) {
    status = status_code blocked;
    action = action_code wait_window;
  }),
)
selection generation (some e) = (
  ready,
  some (record (initialize_decision generation) {
    status = status_code ready;
    action = action_code inject;
    kind = e.kind;
    vector = e.vector;
    error_code = e.error_code;
    flags = e.flags;
    sequence = e.sequence;
  }),
)

unfoldable pub select_interrupt :
    Option InterruptState
    → ℕ
    → Option InterruptDecision
    → InterruptStatus × Option InterruptDecision
unfolding select_from
select_interrupt s generation none = (invalid, none)
select_interrupt none generation (some _) =
    (invalid, some (record (initialize_decision generation) { action = action_code quarantine }))
select_interrupt (some s) generation (some _) =
    let d = initialize_decision generation in
    if not (is_interrupt_state_valid (some s))
    then (invalid, some (record d { action = action_code quarantine }))
    else if s.generation != generation
    then (generation_mismatch, some (record d { action = action_code quarantine }))
    else if s.pending_count == 0
    then (
      no_pending,
      some (record d { status = status_code no_pending; action = action_code wait_window }),
    )
    else selection generation (select_from s (live s) none)

-- The outer loop of `CommitInterruptInjection`: where the decision's event stands.
abbrev pub one_further : Option ℕ → Option ℕ
one_further none = none
one_further (some i) = some (suc i)

unfoldable pub find_event : InterruptDecision → List InterruptEvent → Option ℕ
find_event d [] = none
find_event d (e ∷ es) =
    let rest = one_further (find_event d es) in if is_same_event e d then some 0 else rest

-- The inner loop, `pending[move - 1] = pending[move]`, from `move - 1` on for so many rounds.
unfoldable pub shift_down : ℕ → ℕ → List InterruptEvent → List InterruptEvent
shift_down zero to p = p
shift_down (suc rounds) to p = shift_down rounds (suc to) (set p to (get_or p (suc to) zero_event))

-- The writes once the event is found at an index.
unfoldable pub remove_event : InterruptState → ℕ → ℕ → InterruptState
unfolding shift_down
remove_event s kind index =
    let count = s.pending_count - 1 in
    record s {
      pending = set (shift_down (count - index) index s.pending) count zero_event;
      pending_count = count;
      interruptibility =
          if kind == nmi then bit_or s.interruptibility block_nmi else s.interruptibility;
    }

abbrev pub removal : InterruptState → ℕ → Option ℕ → Bool × Option InterruptState
removal s kind none = (false, some s)
removal s kind (some index) = (true, some (remove_event s kind index))

-- The tests on the decision.
unfoldable pub is_decision_valid : InterruptState → InterruptDecision → Bool
unfolding is_versioned_size_valid
is_decision_valid s d =
    is_versioned_size_valid d.version d.size 56
    && d.status == status_code ready
    && d.action == action_code inject
    && d.generation == s.generation
    && d.sequence != 0
    && d.reserved == 0
    && d.reserved2 == 0
    && not (any_bits d.flags (not32 known_event_mask))

unfoldable pub commit_interrupt_injection :
    Option InterruptState → Option InterruptDecision → Bool × Option InterruptState
unfolding is_decision_valid find_event remove_event
commit_interrupt_injection (some s) (some d) =
    if not (is_interrupt_state_valid (some s)) || not (is_decision_valid s d)
    then (false, some s)
    else removal s d.kind (find_event d (live s))
commit_interrupt_injection s _ = (false, s)
