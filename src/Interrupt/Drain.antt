-- ===== src/Interrupt/Drain.antt =====
-- The posted-interrupt descriptor of src/interrupt/interrupt_model.cpp: posting sets one bit, and a
-- drain only appends to the queue.
use knhv.Prelude.{
  ℕ, zero, suc, ◌/◌, ◌%◌, ◌^◌, ◌≤◌, ◌<◌, ◌≡◌, ◌≢◌, ◌⊎◌, inl, inr, refl, sym, ◌∙◌, Bool, true, false,
  ◌||◌, Option, none, some, List, [], ◌∷◌, ◌++◌, arith, bit_and, bit_or,
}
use mathlib.Core.List.{append-nil, append_assoc}
use knhv.Prelude.Tests.{◌==◌, if◌then◌else◌, Bool-cases}
use knhv.Prelude.Bits.{any_bits, any_bits-bit_or, u64_max}
use knhv.Prelude.Table.{any_bits_single, bit_and_31}
use knhv.Prelude.Lists.{length, get_or, set, All}
use knhv.Interrupt.Defs.{
  InterruptEvent, InterruptState, InterruptStatus, ready, conflict, virtual,
  is_interrupt_state_valid,
}
use knhv.Interrupt.Ops.{live, enqueue_interrupt, append_event}
use knhv.Interrupt.Enqueue.{enqueue_cases, enqueue-refines_append}
use knhv.Interrupt.Posted.{
  PostedInterruptDescriptor, set_posted, post_interrupt, posted_event, Drain, after_enqueue,
  and_then, drain_bit, drain_word, drain_words, drain_posted_interrupt,
}

-- Whether a vector is posted.
unfoldable pub is_posted : List ℕ → ℕ → Bool
is_posted pir vector = any_bits (get_or pir (vector / 32) 0) (2 ^ (vector % 32))

get_or-set :
    (xs : List ℕ) (i j v : ℕ)
    → i < length xs
    → get_or (set xs i v) j 0 ≡ (if i == j then v else get_or xs j 0)
get_or-set [] i j v h = elim h [ ]
get_or-set (x ∷ xs) zero zero v h = refl
get_or-set (x ∷ xs) zero (suc j) v h = ground arith
get_or-set (x ∷ xs) (suc i) zero v h = ground arith
get_or-set (x ∷ xs) (suc i) (suc j) v h = ground (arith, get_or-set xs i j v)

set_posted_marks :
    (pir : List ℕ) (vector other : ℕ)
    → length pir ≡ 8
    → vector < 256
    → is_posted (set_posted pir (vector / 32) (vector % 32)) other
      ≡ (vector == other || is_posted pir other)
unfolding is_posted
set_posted_marks pir vector other full h = ground (
  arith,
  get_or-set pir (vector / 32) (other / 32)
      (bit_or (get_or pir (vector / 32) 0) (2 ^ (vector % 32))) (omega arith),
  any_bits-bit_or (get_or pir (vector / 32) 0) (2 ^ (vector % 32)) (2 ^ (other % 32)),
  any_bits_single (vector % 32) (other % 32) (omega arith) (omega arith),
)

post_needs :
    (d d' : PostedInterruptDescriptor) (vector generation : ℕ)
    → post_interrupt (some d) vector generation ≡ (true, some d')
    → (32 ≤ vector) × (vector < 256) × (d'.pir ≡ set_posted d.pir (vector / 32) (bit_and vector 31))
unfolding post_interrupt
post_needs d d' vector generation h = ground arith

-- A post that succeeds on a descriptor of eight words marks its vector, an external one, and no other.
pub post_marks :
    (d d' : PostedInterruptDescriptor) (vector generation other : ℕ)
    → length d.pir ≡ 8
    → post_interrupt (some d) vector generation ≡ (true, some d')
    → (32 ≤ vector)
      × (vector < 256)
      × (is_posted d'.pir other ≡ (vector == other || is_posted d.pir other))
post_marks d d' vector generation other full h =
    let (low, high, e) = post_needs d d' vector generation h in
    (low, high, rw (e, bit_and_31 vector) (set_posted_marks d.pir vector other full high))

-- Where a drain of a queue can stand: a valid queue of 32 entries whose entries in use are the old
-- ones followed by virtual interrupts of the source.
abbrev pub DrainsFrom : ℕ → InterruptState → Drain → Type 0
DrainsFrom source_id s v =
    (is_interrupt_state_valid (some v.state) ≡ true)
    × (length v.state.pending ≡ 32)
    × (v.state.next_sequence ≤ u64_max)
    × ((es : List InterruptEvent) × (live v.state ≡ live s ++ es)
        × All (λ e. (e.kind ≡ virtual) × (e.source_id ≡ source_id)) es)

All-append :
    {source_id : ℕ} (es : List InterruptEvent) (e : InterruptEvent)
    → All (λ e. (e.kind ≡ virtual) × (e.source_id ≡ source_id)) es
    → (e.kind ≡ virtual) × (e.source_id ≡ source_id)
    → All (λ e. (e.kind ≡ virtual) × (e.source_id ≡ source_id)) (es ++ e ∷ [])
All-append [] e a h = (h, tt)
All-append (x ∷ es) e a h = (a.0, All-append es e a.1 h)

refused_round :
    (v : Drain) (word bit : ℕ) (status : InterruptStatus) (s : InterruptState)
    → status ≢ ready
    → after_enqueue v word bit (status, some s) ≡ (some status, record v { state = s })
refused_round v word bit status s h = ground arith

next_sequence_word :
    (s : InterruptState) (e : InterruptEvent)
    → s.next_sequence ≤ u64_max
    → (append_event s e).next_sequence ≤ u64_max
unfolding append_event
next_sequence_word s e h = ground arith

enqueue_some :
    (s : InterruptState) (e : InterruptEvent)
    → (status : InterruptStatus) × (s' : InterruptState) × (enqueue_interrupt (some s) (some e)
        ≡ (status, some s'))
enqueue_some s e = elim (enqueue_cases s e) [
  | inl (r, can, to) ↦ (ready, append_event s e, ground arith)
  | inr (r, to) ↦ ((enqueue_interrupt (some s) (some e)).0, s, ground arith)
]

drain_bit_cases :
    (generation source_id word bits bit : ℕ) (v : Drain)
    → ((o : Option InterruptStatus) × (drain_bit generation source_id word bits bit v ≡ (o, v)))
      ⊎ (drain_bit generation source_id word bits bit v
          ≡ after_enqueue v word bit (
              enqueue_interrupt
                (some v.state)
                (some (posted_event word bit source_id generation v.state.next_sequence))))
unfolding drain_bit
drain_bit_cases generation source_id word bits bit v = elim (Bool-cases (any_bits bits (2 ^ bit))) [
  | inl set_bit ↦ elim (Bool-cases (v.state.next_sequence == u64_max)) [
    | inl last ↦ inl (some conflict, rw (set_bit, last))
    | inr more ↦ inr (rw (set_bit, more))
  ]
  | inr clear ↦ inl (none, rw clear)
]

module _ (generation source_id : ℕ) (s : InterruptState) where
  after_enqueue-DrainsFrom :
      (v : Drain) (word bit : ℕ) (status : InterruptStatus) (s' : InterruptState)
      → DrainsFrom source_id s v
      → enqueue_interrupt
          (some v.state)
          (some (posted_event word bit source_id generation v.state.next_sequence))
        ≡ (status, some s')
      → DrainsFrom source_id s (after_enqueue v word bit (status, some s')).1
  after_enqueue-DrainsFrom v word bit status s' (ok, full, word_ok, (es, at_es, kinds)) at =
      let e = posted_event word bit source_id generation v.state.next_sequence in
      let (ok', full', _, grown, same) =
        enqueue-refines_append v.state s' e status ok full word_ok at in
      elim (enqueue_cases v.state e) [
        | inl (r, can, to) ↦
            let q : status ≡ ready = ground arith in
            let t : s' ≡ append_event v.state e = ground arith in
            rw q (
              ok',
              full',
              rw t (next_sequence_word v.state e word_ok),
              (
                es ++ e ∷ [],
                (rw q at grown) ∙ rw at_es (append_assoc (live s) es (e ∷ [])),
                All-append es e kinds (refl, refl),
              ),
            )
        | inr (r, to) ↦
            let q : status ≢ ready = λ z. r (ground arith) in
            rw (refused_round v word bit status s' q, same q)
              (ok, full, word_ok, (es, at_es, kinds))
      ]

  drain_bit-DrainsFrom :
      (word bits bit : ℕ) (v : Drain)
      → DrainsFrom source_id s v
      → DrainsFrom source_id s (drain_bit generation source_id word bits bit v).1
  drain_bit-DrainsFrom word bits bit v h =
      let (status, s', at) =
        enqueue_some v.state (posted_event word bit source_id generation v.state.next_sequence) in
      elim (drain_bit_cases generation source_id word bits bit v) [
        | inl (_, e) ↦ rw e h
        | inr e ↦ rw (e, at) (after_enqueue-DrainsFrom v word bit status s' h at)
      ]

  and_then-DrainsFrom :
      (r : Option InterruptStatus × Drain) (k : Drain → Option InterruptStatus × Drain)
      → DrainsFrom source_id s r.1
      → ((v : Drain) → DrainsFrom source_id s v → DrainsFrom source_id s (k v).1)
      → DrainsFrom source_id s (and_then r k).1
  and_then-DrainsFrom (none, v) k h keep = keep v h
  and_then-DrainsFrom (some status, v) k h keep = h

  drain_word-DrainsFrom :
      (word bits rounds bit : ℕ) (v : Drain)
      → DrainsFrom source_id s v
      → DrainsFrom source_id s (drain_word generation source_id word bits rounds bit v).1
  unfolding drain_word
  drain_word-DrainsFrom word bits zero bit v h = h
  drain_word-DrainsFrom word bits (suc rounds) bit v h =
      and_then-DrainsFrom (drain_bit generation source_id word bits bit v) _
        (drain_bit-DrainsFrom word bits bit v h) (drain_word-DrainsFrom word bits rounds (suc bit))

  drain_words-DrainsFrom :
      (rounds word : ℕ) (v : Drain)
      → DrainsFrom source_id s v
      → DrainsFrom source_id s (drain_words generation source_id rounds word v).1
  unfolding drain_words
  drain_words-DrainsFrom zero word v h = h
  drain_words-DrainsFrom (suc rounds) word v h =
      and_then-DrainsFrom (drain_word generation source_id word (get_or v.pir word 0) 32 0 v) _
        (drain_word-DrainsFrom word (get_or v.pir word 0) 32 0 v h)
        (drain_words-DrainsFrom rounds (suc word))

drain_state :
    (d : PostedInterruptDescriptor) (s s' : InterruptState) (generation source_id : ℕ)
    → (drain_posted_interrupt (some d) (some s) generation source_id).2 ≡ some s'
    → (s' ≡ s)
      ⊎ (s'
          ≡ (drain_words generation source_id 8 0
              (record { pir = d.pir; state = s; drained = false })).1.state)
unfolding drain_posted_interrupt
drain_state d s s' generation source_id h = ground arith

-- Whatever it answers, a drain of a valid queue of 32 entries leaves a valid queue of 32 entries, and
-- its entries in use are the old ones, in their order, followed by virtual interrupts of the given
-- source: none is lost, changed or overtaken.
pub drain-appends :
    (d : PostedInterruptDescriptor) (s s' : InterruptState) (generation source_id : ℕ)
    → is_interrupt_state_valid (some s) ≡ true
    → length s.pending ≡ 32
    → s.next_sequence ≤ u64_max
    → (drain_posted_interrupt (some d) (some s) generation source_id).2 ≡ some s'
    → (is_interrupt_state_valid (some s') ≡ true)
      × (length s'.pending ≡ 32)
      × (s'.next_sequence ≤ u64_max)
      × ((es : List InterruptEvent) × (live s' ≡ live s ++ es)
          × All (λ e. (e.kind ≡ virtual) × (e.source_id ≡ source_id)) es)
drain-appends d s s' generation source_id v full word h =
    elim (drain_state d s s' generation source_id h) [
      | inl e ↦ rw e (v, full, word, ([], sym (append-nil (live s)), tt))
      | inr e ↦ rw e (
          drain_words-DrainsFrom generation source_id s 8 0
            (record { pir = d.pir; state = s; drained = false })
            (v, full, word, ([], sym (append-nil (live s)), tt)))
    ]
