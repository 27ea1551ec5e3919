-- ===== src/Interrupt/Select.antt =====
-- `SelectInterrupt` of src/interrupt/interrupt_model.cpp picks the most urgent event.
use knhv.Prelude.{
  ℕ, zero, suc, ◌≤◌, ◌<◌, ◌≡◌, ◌≢◌, ◌⊎◌, inl, inr, refl, sym, ap, ◌∙◌, true, false, Option, some,
  none, List, [], ◌∷◌, arith,
}
use mathlib.Core.List.{Memᴰ}
use native.Mathlib.Decide.{ℕ_discrete}
use knhv.Prelude.Tests.{Bool-cases}
use knhv.Prelude.Lists.{All, take}
use knhv.Interrupt.Defs.{
  InterruptEvent, InterruptState, InterruptDecision, InterruptStatus, status_code, action_code,
  inject, wait_window, ready, no_pending, blocked, priority, is_blocked, is_same_event,
  are_pending_valid, is_interrupt_event_valid, is_interrupt_state_valid,
}
use knhv.Interrupt.Enqueue.{state_parts}
use knhv.Interrupt.Ops.{
  is_decision_valid, live, initialize_decision, prefer, select_from, selection, select_interrupt,
}

-- `a` goes before `b`, or is as urgent: a higher priority, or the same and no later sequence number.
abbrev pub IsUrgent : InterruptEvent → InterruptEvent → Type 0
IsUrgent a b = (priority b < priority a) ⊎ ((priority a ≡ priority b) × (a.sequence ≤ b.sequence))

prefer_cases :
    (c x : InterruptEvent)
    → ((prefer c (some x) ≡ some c) × IsUrgent c x) ⊎ ((prefer c (some x) ≡ some x) × IsUrgent x c)
unfolding prefer
prefer_cases c x = ground arith

IsUrgent-trans : (a b c : InterruptEvent) → IsUrgent a b → IsUrgent b c → IsUrgent a c
IsUrgent-trans a b c p q = ground arith

-- What the loop returns from a selection so far: the result comes from there or is an unblocked
-- entry, and is urgent against both.
abbrev IsBest : InterruptState → List InterruptEvent → InterruptEvent → Type 0
IsBest s es r = All (λ x. is_blocked s x ≡ false → IsUrgent r x) es

abbrev IsCandidate : InterruptState → List InterruptEvent → InterruptEvent → Type 0
IsCandidate s es r = Memᴰ r es × (is_blocked s r ≡ false)

module _ (s : InterruptState) where
  later :
      {cs : List InterruptEvent} {c x r : InterruptEvent}
      → IsCandidate s cs r ⊎ (r ≡ x)
      → IsCandidate s (c ∷ cs) r ⊎ (r ≡ x)
  later (inl (m, f)) = inl (Memᴰ.tail m, f)
  later (inr e) = inr e

  first :
      {cs : List InterruptEvent} {c r : InterruptEvent}
      → IsCandidate s cs r ⊎ (r ≡ c)
      → is_blocked s c ≡ false
      → IsCandidate s (c ∷ cs) r
  first (inl (m, f)) _ = (Memᴰ.tail m, f)
  first (inr e) free = (Memᴰ.head e, rw e free)

  select_from-some :
      (cs : List InterruptEvent) (x : InterruptEvent)
      → (r : InterruptEvent) × (select_from s cs (some x) ≡ some r)
        × (IsCandidate s cs r ⊎ (r ≡ x))
        × IsBest s cs r
        × IsUrgent r x
  unfolding select_from
  select_from-some [] x = (x, refl, inr refl, tt, inr (refl, omega arith))
  select_from-some (c ∷ cs) x = elim (Bool-cases (is_blocked s c)) [
    | inl stuck ↦
        let (r, e, at, best, over) = select_from-some cs x in
        (r, rw stuck e, later at, (λ free. cc, best), over)
    | inr free ↦ elim (prefer_cases c x) [
      | inl (e, over) ↦
          let (r, e', at, best, top) = select_from-some cs c in
          (r, rw (free, e) e', inl (first at free), (λ _. top, best), IsUrgent-trans r c x top over)
      | inr (e, over) ↦
          let (r, e', at, best, top) = select_from-some cs x in
          (r, rw (free, e) e', later at, (λ _. IsUrgent-trans r x c top over, best), top)
    ]
  ]

  -- With nothing selected so far, either every entry is blocked or the best unblocked one is returned.
  select_from-none :
      (cs : List InterruptEvent)
      → ((select_from s cs none ≡ none) × All (λ x. is_blocked s x ≡ true) cs)
        ⊎ ((r : InterruptEvent) × (select_from s cs none ≡ some r)
            × IsCandidate s cs r
            × IsBest s cs r)
  unfolding select_from
  select_from-none [] = inl (refl, tt)
  select_from-none (c ∷ cs) = elim (Bool-cases (is_blocked s c)) [
    | inl stuck ↦ elim (select_from-none cs) [
      | inl (e, all) ↦ inl (rw stuck e, (stuck, all))
      | inr (r, e, (m, f), best) ↦ inr (r, rw stuck e, (Memᴰ.tail m, f), (λ free. cc, best))
    ]
    | inr free ↦
        let (r, e, at, best, top) = select_from-some cs c in
        inr (r, rw free e, first at free, (λ _. top, best))
  ]

-- A valid queue holds valid events of its own generation.
pub live_events :
    (g : ℕ) (prior : List InterruptEvent) (n : ℕ) (es : List InterruptEvent) (r : InterruptEvent)
    → are_pending_valid g prior n es ≡ true
    → Memᴰ r (take n es)
    → (r.generation ≡ g) × (is_interrupt_event_valid (some r) ≡ true)
unfolding are_pending_valid
live_events g prior zero es r v m = elim m [ ]
live_events g prior (suc n) [] r v m = elim m [ ]
live_events g prior (suc n) (x ∷ es) r v (Memᴰ.head e) = rw e (ground arith)
live_events g prior (suc n) (x ∷ es) r v (Memᴰ.tail m) =
    live_events g (x ∷ prior) n es r (ground arith) m

same_selected :
    (r : InterruptEvent) (d : InterruptDecision)
    → r.kind ≡ d.kind
    → r.vector ≡ d.vector
    → r.error_code ≡ d.error_code
    → r.flags ≡ d.flags
    → r.sequence ≡ d.sequence
    → r.generation ≡ d.generation
    → is_same_event r d ≡ true
unfolding is_same_event
same_selected r d a b c f g k = ground arith

-- The decision about a valid event of the queue passes the tests of the commit.
selected_valid :
    (s : InterruptState) (r : InterruptEvent)
    → is_interrupt_event_valid (some r) ≡ true
    → is_decision_valid s (record (initialize_decision s.generation) {
      status = status_code ready;
      action = action_code inject;
      kind = r.kind;
      vector = r.vector;
      error_code = r.error_code;
      flags = r.flags;
      sequence = r.sequence;
    })
      ≡ true
unfolding is_decision_valid is_interrupt_event_valid
selected_valid s r v = ground arith

answer_parts :
    {a b : InterruptStatus} {x y : InterruptDecision}
    → ◌≡◌ {A = InterruptStatus × Option InterruptDecision} (a, some x) (b, some y)
    → (a ≡ b) × (x ≡ y)
answer_parts h = ground arith

-- What a decision says of the queue.
abbrev pub IsSelection : InterruptState → InterruptStatus → InterruptDecision → Type 0
IsSelection s ready d =
    (r : InterruptEvent) × IsCandidate s (live s) r
    × IsBest s (live s) r
    × (is_same_event r d ≡ true)
    × (is_decision_valid s d ≡ true)
IsSelection s blocked d = (s.pending_count ≢ 0) × All (λ x. is_blocked s x ≡ true) (live s)
IsSelection s no_pending d = live s ≡ []
IsSelection s _ d = ⊥

module _ (s : InterruptState) (out : InterruptDecision)
    (v : is_interrupt_state_valid (some s) ≡ true) where
  select_empty :
      s.pending_count ≡ 0
      → (d : InterruptDecision) × (select_interrupt (some s) s.generation (some out)
          ≡ (no_pending, some d))
  unfolding select_interrupt
  select_empty e = (
    record (initialize_decision s.generation) {
      status = status_code no_pending;
      action = action_code wait_window;
    },
    ground arith,
  )

  select_busy :
      s.pending_count ≢ 0
      → select_interrupt (some s) s.generation (some out)
        ≡ selection s.generation (select_from s (live s) none)
  unfolding select_interrupt
  select_busy e = ground arith

-- Asked of a valid queue for its own generation, the call answers one of three things. `ready`: the
-- decision is that of an unblocked entry in use, and no unblocked entry has a higher priority, or the
-- same and an earlier sequence number. `blocked`: there are entries, all blocked. `no_pending`: there
-- is none.
pub select-IsSelection :
    (s : InterruptState) (out d : InterruptDecision) (status : InterruptStatus)
    → is_interrupt_state_valid (some s) ≡ true
    → select_interrupt (some s) s.generation (some out) ≡ (status, some d)
    → IsSelection s status d
select-IsSelection s out d status v h = elim (ℕ_discrete s.pending_count 0) [
  | yes e ↦
      let (d', at) = select_empty s out v e in
      let (e₁, e₂) = answer_parts (sym at ∙ h) in rw (← e₁) (rw e)
  | no busy ↦ elim (select_from-none s (live s)) [
    | inl (at, all) ↦
        let (e₁, e₂) =
          answer_parts (sym (select_busy s out v busy ∙ ap (selection s.generation) at) ∙ h) in
        rw (← e₁) (busy, all)
    | inr (r, at, one, best) ↦
        let (e₁, e₂) =
          answer_parts (sym (select_busy s out v busy ∙ ap (selection s.generation) at) ∙ h) in
        let event =
          live_events s.generation [] s.pending_count s.pending r (state_parts s v).1 one.0 in
        rw (← e₁, ← e₂)
          (
            r,
            one,
            best,
            same_selected r _ refl refl refl refl refl event.0,
            selected_valid s r event.1,
          )
  ]
]
