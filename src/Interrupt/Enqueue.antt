-- ===== src/Interrupt/Enqueue.antt =====
-- `EnqueueInterrupt` of src/interrupt/interrupt_model.cpp keeps the queue well formed.
use knhv.Prelude.{
  ℕ, zero, suc, ◌+◌, ◌≤◌, ◌<◌, ◌≡◌, ◌≢◌, ◌⊎◌, inl, inr, ◌↔◌, refl, Bool, true, false, some, List,
  [], ◌∷◌, ◌++◌, arith,
}
use knhv.Prelude.Tests.{if◌then◌else◌}
use knhv.Prelude.Bits.{any_bits, not32, u32, u64_max}
use knhv.Prelude.Lists.{length, set, take, take-set_end, length-set}
use knhv.Interrupt.Defs.{
  InterruptEvent, InterruptState, InterruptStatus, ready, is_interrupt_event_valid, has_sequence,
  all_zero, known_block_mask, are_pending_valid, is_interrupt_state_valid,
}
use knhv.Interrupt.Ops.{live, append_event, enqueue_interrupt}

abbrev pub is_ready : InterruptStatus → Bool
is_ready ready = true
is_ready _ = false

-- The loop accepts one more event in the first free entry.
pub are_pending_valid-set :
    (g : ℕ) (prior : List InterruptEvent) (n : ℕ) (es : List InterruptEvent) (e : InterruptEvent)
    → are_pending_valid g prior n es ≡ true
    → is_interrupt_event_valid (some e) ≡ true
    → e.generation ≡ g
    → has_sequence e.sequence prior ≡ false
    → has_sequence e.sequence (take n es) ≡ false
    → are_pending_valid g prior (suc n) (set es n e) ≡ true
unfolding are_pending_valid has_sequence all_zero
are_pending_valid-set g prior zero [] e ok good same fresh far = refl
are_pending_valid-set g prior zero (x ∷ es) e ok good same fresh far = ground arith
are_pending_valid-set g prior (suc n) [] e ok good same fresh far = refl
are_pending_valid-set g prior (suc n) (x ∷ es) e ok good same fresh far =
    ground (arith, are_pending_valid-set g (x ∷ prior) n es e)

pub count_suc : (n : ℕ) → n < 32 → u32 (n + 1) ≡ suc n
count_suc n h = omega arith

-- What a passed validity test says of the parts that an operation changes.
pub state_parts :
    (s : InterruptState)
    → is_interrupt_state_valid (some s) ≡ true
    → (s.pending_count ≤ 32)
      × (are_pending_valid s.generation [] s.pending_count s.pending ≡ true)
      × (any_bits s.interruptibility (not32 known_block_mask) ≡ false)
      × (s.next_sequence ≢ 0)
unfolding is_interrupt_state_valid
state_parts s v = ground arith

-- The validity test after a change of the queue alone.
pub rebuild_state :
    (s : InterruptState) (count next blocks : ℕ) (es : List InterruptEvent)
    → is_interrupt_state_valid (some s) ≡ true
    → count ≤ 32
    → next ≢ 0
    → any_bits blocks (not32 known_block_mask) ≡ false
    → are_pending_valid s.generation [] count es ≡ true
    → is_interrupt_state_valid (
        some (record s {
          next_sequence = next;
          pending_count = count;
          interruptibility = blocks;
          pending = es;
        }))
      ≡ true
unfolding is_interrupt_state_valid
rebuild_state s count next blocks es v room pos clean good = ground arith

module _ (s : InterruptState) (e : InterruptEvent) where
  -- The writes of a call whose guards pass keep the queue well formed.
  pub append_event-IsValid :
      is_interrupt_state_valid (some s) ≡ true
      → is_interrupt_event_valid (some e) ≡ true
      → e.sequence < u64_max
      → e.generation ≡ s.generation
      → s.pending_count < 32
      → has_sequence e.sequence (live s) ≡ false
      → is_interrupt_state_valid (some (append_event s e)) ≡ true
  unfolding append_event has_sequence
  append_event-IsValid v good word same room fresh = rw (count_suc s.pending_count room) (
      rebuild_state s (suc s.pending_count) _ s.interruptibility (set s.pending s.pending_count e) v
        room (ground (arith, state_parts s v)) (state_parts s v).2
        (ground (
          arith,
          state_parts s,
          are_pending_valid-set s.generation [] s.pending_count s.pending e,
        )))

  -- The guards of a successful call.
  abbrev pub CanEnqueue : Type 0
  CanEnqueue =
      (is_interrupt_state_valid (some s) ≡ true)
      × (is_interrupt_event_valid (some e) ≡ true)
      × (e.generation ≡ s.generation)
      × (s.pending_count < 32)
      × (has_sequence e.sequence (live s) ≡ false)
      × (e.sequence ≢ u64_max)

  -- A call that answers `ready` passed the guards and appended; any other changed nothing.
  pub enqueue_cases :
      let result = enqueue_interrupt (some s) (some e) in
      ((result.0 ≡ ready) × CanEnqueue × (result.1 ≡ some (append_event s e)))
      ⊎ ((result.0 ≢ ready) × (result.1 ≡ some s))
  unfolding enqueue_interrupt
  enqueue_cases = ground arith

  CanEnqueue-ready :
      CanEnqueue → enqueue_interrupt (some s) (some e) ≡ (ready, some (append_event s e))
  unfolding enqueue_interrupt
  CanEnqueue-ready h = ground arith

  live-append_event :
      length s.pending ≡ 32 → s.pending_count < 32 → live (append_event s e) ≡ live s ++ e ∷ []
  unfolding append_event
  live-append_event full room =
      rw (count_suc s.pending_count room) (take-set_end s.pending_count s.pending e (omega arith))

-- What a call leaves: the answer, and the queue after it.
abbrev pub IsEnqueued : InterruptState → InterruptEvent → InterruptStatus → InterruptState → Type 0
IsEnqueued s e status s' =
    (is_interrupt_state_valid (some s') ≡ true)
    × (length s'.pending ≡ 32)
    × ((status ≡ ready) ↔ CanEnqueue s e)
    × (live s' ≡ (if is_ready status then live s ++ e ∷ [] else live s))
    × (status ≢ ready → s' ≡ s)

module _ (s : InterruptState) (e : InterruptEvent) (v : is_interrupt_state_valid (some s) ≡ true)
    (full : length s.pending ≡ 32) (word : e.sequence ≤ u64_max) where
  appended-IsEnqueued : CanEnqueue s e → IsEnqueued s e ready (append_event s e)
  appended-IsEnqueued can = (
    append_event-IsValid s e v can.1 (omega arith) can.2 can.3 can.4,
    unfold append_event in omega (arith, length-set s.pending s.pending_count e),
    ((λ _. can), (λ _. refl)),
    live-append_event s e full can.3,
    λ no. absurd (no refl),
  )

  refused-IsEnqueued :
      (status : InterruptStatus)
      → (status ≡ ready → CanEnqueue s e)
      → (CanEnqueue s e → status ≡ ready)
      → status ≢ ready
      → IsEnqueued s e status s
  refused-IsEnqueued status there back refused = (v, full, (there, back), ground arith, λ _. refl)

-- Over an array of 32 entries and a 64-bit sequence number, a call of a valid queue leaves a valid
-- one, of 32 entries again. It answers `ready` exactly where all guards pass, and then the entries in
-- use are the old ones with the event behind them; otherwise nothing changes.
pub enqueue-refines_append :
    (s s' : InterruptState) (e : InterruptEvent) (status : InterruptStatus)
    → is_interrupt_state_valid (some s) ≡ true
    → length s.pending ≡ 32
    → e.sequence ≤ u64_max
    → enqueue_interrupt (some s) (some e) ≡ (status, some s')
    → IsEnqueued s e status s'
enqueue-refines_append s s' e status v full word h = elim (enqueue_cases s e) [
  | inl (yes_ready, can, at) ↦
      let e₁ : status ≡ ready = ground arith in
      let e₂ : s' ≡ append_event s e = ground arith in
      rw (e₁, e₂) (appended-IsEnqueued s e v full word can)
  | inr (not_ready, at) ↦
      let e₂ : s' ≡ s = ground arith in
      let back : CanEnqueue s e → status ≡ ready = λ can. cc (CanEnqueue-ready s e can) in
      let no : status ≢ ready = λ q. not_ready (ground arith) in
      rw e₂ (refused-IsEnqueued s e v full word status (λ q. absurd (no q)) back no)
]
