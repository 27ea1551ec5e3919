-- ===== src/Interrupt/Commit.antt =====
-- `CommitInterruptInjection` of src/interrupt/interrupt_model.cpp takes the injected event out.
use knhv.Prelude.{
  ℕ, zero, suc, ◌+◌, ◌-◌, ◌≤◌, ◌<◌, ◌≡◌, inl, inr, refl, sym, ap, ◌∙◌, Bool, true, false, Option,
  some, List, [], arith, bit_or,
}
use knhv.Prelude.Tests.{Option-cases}
use knhv.Prelude.Bits.{any_bits, not32, any_bits-bit_or}
use knhv.Prelude.Lists.{length, set, take, get_or, length-set}
use knhv.Interrupt.Defs.{
  InterruptEvent, InterruptState, InterruptDecision, ready, zero_event, nmi, block_nmi,
  known_block_mask, is_interrupt_state_valid,
}
use knhv.Interrupt.Ops.{
  live, find_event, shift_down, remove_event, is_decision_valid, commit_interrupt_injection,
  select_interrupt, removal,
}
use knhv.Interrupt.Removal.{erase_event, closed, closed_valid, closed_live, found_below, found_mem}
use knhv.Interrupt.Enqueue.{state_parts, rebuild_state}
use knhv.Interrupt.Select.{select-IsSelection}

blocking_nmi :
    (blocks : ℕ)
    → any_bits blocks (not32 known_block_mask) ≡ false
    → any_bits (bit_or blocks block_nmi) (not32 known_block_mask) ≡ false
blocking_nmi blocks h =
    rw (any_bits-bit_or blocks block_nmi (not32 known_block_mask), h) (unfold any_bits in refl)

module _ (s : InterruptState) (kind i : ℕ) where
  remove_event-IsValid :
      is_interrupt_state_valid (some s) ≡ true
      → i < s.pending_count
      → s.pending_count ≤ length s.pending
      → is_interrupt_state_valid (some (remove_event s kind i)) ≡ true
  unfolding remove_event closed
  remove_event-IsValid v below room =
      let e : s.pending_count ≡ suc (s.pending_count - 1) = omega arith in
      let parts = state_parts s v in
      rebuild_state s (s.pending_count - 1) s.next_sequence _
        (closed (s.pending_count - 1) i s.pending) v (omega (arith, parts.0)) parts.3
        (ground (arith, parts.2, blocking_nmi s.interruptibility))
        (closed_valid s.generation [] (s.pending_count - 1) i s.pending (omega arith) (omega arith)
          (rw (← e) parts.1))

  remove_event-live :
      (d : InterruptDecision)
      → s.pending_count ≤ length s.pending
      → find_event d (live s) ≡ some i
      → live (remove_event s kind i) ≡ erase_event d (live s)
  unfolding remove_event closed
  remove_event-live d room f =
      let e : s.pending_count ≡ suc (s.pending_count - 1) =
        omega (arith, found_below d s.pending_count i s.pending f) in
      let g : find_event d (take (suc (s.pending_count - 1)) s.pending) ≡ some i = rw (← e) f in
      closed_live d (s.pending_count - 1) i s.pending (omega arith) g
      ∙ ap (λ t. erase_event d (take t s.pending)) (sym e)

length-shift_down : (k to : ℕ) (p : List InterruptEvent) → length (shift_down k to p) ≡ length p
unfolding shift_down
length-shift_down zero to p = refl
length-shift_down (suc k) to p =
    length-shift_down k (suc to) (set p to (get_or p (suc to) zero_event)) ∙ length-set p to _

length-remove_event :
    (s : InterruptState) (kind i : ℕ) → length (remove_event s kind i).pending ≡ length s.pending
unfolding remove_event
length-remove_event s kind i =
    let n = s.pending_count - 1 in
    length-set (shift_down (n - i) i s.pending) n zero_event ∙ length-shift_down (n - i) i s.pending

commit_found :
    (s : InterruptState) (d : InterruptDecision)
    → is_interrupt_state_valid (some s) ≡ true
    → is_decision_valid s d ≡ true
    → commit_interrupt_injection (some s) (some d) ≡ removal s d.kind (find_event d (live s))
unfolding commit_interrupt_injection
commit_found s d v w = ground arith

commit_needs :
    (s : InterruptState) (d : InterruptDecision)
    → (commit_interrupt_injection (some s) (some d)).0 ≡ true
    → (is_interrupt_state_valid (some s) ≡ true)
      × (is_decision_valid s d ≡ true)
      × ((i : ℕ) × (find_event d (live s) ≡ some i))
unfolding commit_interrupt_injection
commit_needs s d h = ground arith

nmi_blocks :
    (s : InterruptState) (i : ℕ) → any_bits (remove_event s nmi i).interruptibility block_nmi ≡ true
unfolding remove_event
nmi_blocks s i =
    let set_bit : any_bits block_nmi block_nmi ≡ true = unfold any_bits in refl in
    rw (any_bits-bit_or s.interruptibility block_nmi block_nmi, set_bit) (ground arith)

removal_some :
    {s t : InterruptState}
    → ◌≡◌ {A = Bool × Option InterruptState} (true, some s) (true, some t)
    → t ≡ s
removal_some h = ground arith

-- A commit that succeeds on an array of 32 entries leaves a valid queue of 32 entries, whose entries in
-- use are the old ones without the first that the decision names; one entry fewer is in use, and
-- after an NMI further NMIs are blocked.
pub commit-refines_erase :
    (s s' : InterruptState) (d : InterruptDecision)
    → length s.pending ≡ 32
    → commit_interrupt_injection (some s) (some d) ≡ (true, some s')
    → (is_interrupt_state_valid (some s') ≡ true)
      × (length s'.pending ≡ 32)
      × (live s' ≡ erase_event d (live s))
      × (s'.pending_count + 1 ≡ s.pending_count)
      × (d.kind ≡ nmi → any_bits s'.interruptibility block_nmi ≡ true)
commit-refines_erase s s' d full h =
    let (v, w, (i, f)) = commit_needs s d (ap (λ t. t.0) h) in
    let below = found_below d s.pending_count i s.pending f in
    let few = (state_parts s v).0 in
    let e : s' ≡ remove_event s d.kind i =
      removal_some (sym (commit_found s d v w ∙ ap (removal s d.kind) f) ∙ h) in
    rw e (
      remove_event-IsValid s d.kind i v below (omega arith),
      length-remove_event s d.kind i ∙ full,
      remove_event-live s d.kind i d (omega arith) f,
      unfold remove_event in omega arith,
      λ q. rw q (nmi_blocks s i),
    )

-- What `SelectInterrupt` answers as ready for the queue's own generation, the commit accepts.
pub select-commit :
    (s : InterruptState) (out d : InterruptDecision)
    → is_interrupt_state_valid (some s) ≡ true
    → select_interrupt (some s) s.generation (some out) ≡ (ready, some d)
    → (commit_interrupt_injection (some s) (some d)).0 ≡ true
select-commit s out d v h =
    let (r, at, best, same, good) = select-IsSelection s out d ready v h in
    elim (Option-cases (find_event d (live s))) [
      | inl missing ↦ absurd (found_mem d (live s) r at.0 same missing)
      | inr (i, e) ↦ rw (commit_found s d v good, e)
    ]
