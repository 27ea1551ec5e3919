-- ===== src/Interrupt/Posted.antt =====
-- src/interrupt/interrupt_model.cpp: the posted-interrupt descriptor, `PostInterrupt` and
-- `DrainPostedInterrupt`. `pir` is the array of eight words as a list.
use knhv.Prelude.{
  ℕ, zero, suc, ◌+◌, ◌*◌, ◌/◌, ◌^◌, Bool, true, false, not, ◌&&◌, ◌||◌, Option, none, some, List,
  bit_and, bit_or,
}
use knhv.Prelude.Tests.{ltb, leb, ◌==◌, ◌!=◌, if◌then◌else◌}
use knhv.Prelude.Bits.{any_bits, not32, u64_max}
use knhv.Prelude.Lists.{get_or, set}
use knhv.Interrupt.Defs.{
  InterruptEvent, InterruptState, InterruptStatus, ready, no_pending, invalid, generation_mismatch,
  conflict, interrupt_contract_version, interrupt_vector_count, interrupt_vector_first_external,
  event_posted, event_from_device, virtual, zero_event, is_versioned_size_valid,
  is_interrupt_state_valid,
}
use knhv.Interrupt.Ops.{enqueue_interrupt}

pub record PostedInterruptDescriptor : Type 0 where
  pub size : ℕ
  pub version : ℕ
  pub notification_vector : ℕ
  pub suppress_notification : ℕ
  pub reserved : ℕ
  pub reserved2 : ℕ
  pub pir : List ℕ
  pub generation : ℕ

unfoldable pub is_posted_interrupt_valid : Option PostedInterruptDescriptor → Bool
unfolding is_versioned_size_valid
is_posted_interrupt_valid none = false
is_posted_interrupt_valid (some d) =
    is_versioned_size_valid d.version d.size 64
    && leb interrupt_vector_first_external d.notification_vector
    && ltb d.notification_vector interrupt_vector_count
    && leb d.suppress_notification 1
    && d.reserved == 0
    && d.reserved2 == 0
    && d.generation != 0

-- `pir[word] |= 1U << bit`.
abbrev pub set_posted : List ℕ → ℕ → ℕ → List ℕ
set_posted pir word bit = set pir word (bit_or (get_or pir word 0) (2 ^ bit))

unfoldable pub post_interrupt :
    Option PostedInterruptDescriptor → ℕ → ℕ → Bool × Option PostedInterruptDescriptor
post_interrupt none vector generation = (false, none)
post_interrupt (some d) vector generation =
    if not (is_posted_interrupt_valid (some d))
      || ltb vector interrupt_vector_first_external
      || leb interrupt_vector_count vector
      || d.generation != generation
    then (false, some d)
    else (true, some (record d { pir = set_posted d.pir (vector / 2 ^ 5) (bit_and vector 31) }))

-- The event that stands for one posted bit.
abbrev pub posted_event : ℕ → ℕ → ℕ → ℕ → ℕ → InterruptEvent
posted_event word bit source_id generation sequence = record zero_event {
  size = 56;
  version = interrupt_contract_version;
  kind = virtual;
  vector = word * 2 ^ 5 + bit;
  flags = bit_or event_posted event_from_device;
  source_id = source_id;
  generation = generation;
  sequence = sequence;
}

-- The variables of the two loops; a loop that returns from the function gives its status.
pub record Drain : Type 0 where
  pub pir : List ℕ
  pub state : InterruptState
  pub drained : Bool

-- After the call of `EnqueueInterrupt`: return its refusal, or clear the bit.
abbrev pub after_enqueue :
    Drain → ℕ → ℕ → InterruptStatus × Option InterruptState → Option InterruptStatus × Drain
after_enqueue v word bit (ready, some s) = (
  none,
  record {
    pir = set v.pir word (bit_and (get_or v.pir word 0) (not32 (2 ^ bit)));
    state = s;
    drained = true;
  },
)
after_enqueue v word bit (status, some s) = (some status, record v { state = s })
after_enqueue v word bit (status, none) = (some status, v)

-- One round of the inner loop; `bits` is the word as it was before that loop.
unfoldable pub drain_bit : ℕ → ℕ → ℕ → ℕ → ℕ → Drain → Option InterruptStatus × Drain
drain_bit generation source_id word bits bit v =
    if not (any_bits bits (2 ^ bit))
    then (none, v)
    else if v.state.next_sequence == u64_max
    then (some conflict, v)
    else after_enqueue v word bit (
        enqueue_interrupt (some v.state)
          (some (posted_event word bit source_id generation v.state.next_sequence)))

-- The loop goes on unless a round returned.
abbrev pub and_then :
    Option InterruptStatus × Drain
    → (Drain → Option InterruptStatus × Drain)
    → Option InterruptStatus × Drain
and_then (none, v) k = k v
and_then (some status, v) k = (some status, v)

-- The inner loop from a bit on, for so many rounds.
unfoldable pub drain_word : ℕ → ℕ → ℕ → ℕ → ℕ → ℕ → Drain → Option InterruptStatus × Drain
unfolding drain_bit
drain_word generation source_id word bits zero bit v = (none, v)
drain_word generation source_id word bits (suc rounds) bit v =
    and_then (drain_bit generation source_id word bits bit v)
      (drain_word generation source_id word bits rounds (suc bit))

-- The outer loop from a word on, for so many rounds.
unfoldable pub drain_words : ℕ → ℕ → ℕ → ℕ → Drain → Option InterruptStatus × Drain
unfolding drain_word
drain_words generation source_id zero word v = (none, v)
drain_words generation source_id (suc rounds) word v =
    and_then (drain_word generation source_id word (get_or v.pir word 0) 32 0 v)
      (drain_words generation source_id rounds (suc word))

-- The status at the end: that of an early return, or whether anything was drained.
abbrev pub finish : Option InterruptStatus → Bool → InterruptStatus
finish (some status) drained = status
finish none drained = if drained then ready else no_pending

-- The status, the descriptor and the queue behind the two pointers.
unfoldable pub drain_posted_interrupt :
    Option PostedInterruptDescriptor
    → Option InterruptState
    → ℕ
    → ℕ
    → InterruptStatus × Option PostedInterruptDescriptor × Option InterruptState
drain_posted_interrupt (some d) (some s) generation source_id =
    let run =
      drain_words generation source_id 8 0 (record { pir = d.pir; state = s; drained = false }) in
    if not (is_posted_interrupt_valid (some d)) || not (is_interrupt_state_valid (some s))
    then (invalid, some d, some s)
    else if d.generation != generation || s.generation != generation
    then (generation_mismatch, some d, some s)
    else (finish run.0 run.1.drained, some (record d { pir = run.1.pir }), some run.1.state)
drain_posted_interrupt d s generation source_id = (invalid, d, s)
