-- ===== src/Ept/Life.antt =====
-- Rows of calls on a hook transaction of src/ept/ept_model.cpp: what they keep, and where they end.
use knhv.Prelude.{
  ℕ, suc, ◌+◌, ◌-◌, ◌≤◌, ◌<◌, ◌≡◌, refl, sym, ap, ◌∙◌, ◌⊎◌, inl, inr, Bool, true, false, Option,
  none, some, List, [], ◌∷◌, ◌++◌, map, arith,
}
use knhv.Prelude.Tests.{◌==◌, if◌then◌else◌}
use knhv.Prelude.Lists.{length, All}
use knhv.Ept.Defs.{
  transaction_prepared, transaction_published, transaction_retired, transaction_rolled_back,
  transaction_quarantined, EptHookLease, EptHookRequest, EptHookTransaction,
}
use knhv.Ept.Hook.{is_transaction_valid}
use knhv.Ept.Transaction.{
  empty_transaction, prepared_transaction, is_begin_refused, begin_ept_hook_update,
  is_ept_hook_transaction_live, acknowledge_ept_hook_cpu, publish_ept_hook_update,
}
use knhv.Ept.Update.{
  Call, step, Edge, known_state, change-valid, step-Edge, acknowledge, publish, acknowledges,
  publishes, retires, rolls_back, quarantines, lapses, overruns,
}

-- What a row of calls leaves.
unfoldable pub run : EptHookTransaction → List Call → EptHookTransaction
run t [] = t
run t (c ∷ cs) = run (step t c).1 cs

-- How many calls of a row succeed.
unfoldable pub successes : EptHookTransaction → List Call → ℕ
unfolding step
successes t [] = 0
successes t (c ∷ cs) =
    let rest = successes (step t c).1 cs in if (step t c).0 then suc rest else rest

-- What does not change over the life of a transaction.
pub record SameUpdate (t u : EptHookTransaction) : Type 0 where
  pub same_id : u.transaction_id ≡ t.transaction_id
  pub same_owner : u.owner_id ≡ t.owner_id
  pub same_generation : u.parent_generation ≡ t.parent_generation
  pub same_base : u.guest_physical ≡ t.guest_physical
  pub same_pages : u.page_count ≡ t.page_count
  pub same_deadline : u.deadline_tsc ≡ t.deadline_tsc
  pub same_acks : u.required_cpu_acks ≡ t.required_cpu_acks

SameUpdate-refl : (t : EptHookTransaction) → SameUpdate t t
SameUpdate-refl t = record {
  same_id = refl;
  same_owner = refl;
  same_generation = refl;
  same_base = refl;
  same_pages = refl;
  same_deadline = refl;
  same_acks = refl;
}

SameUpdate-trans : {t u v : EptHookTransaction} → SameUpdate t u → SameUpdate u v → SameUpdate t v
SameUpdate-trans p q = record {
  same_id = q.same_id ∙ p.same_id;
  same_owner = q.same_owner ∙ p.same_owner;
  same_generation = q.same_generation ∙ p.same_generation;
  same_base = q.same_base ∙ p.same_base;
  same_pages = q.same_pages ∙ p.same_pages;
  same_deadline = q.same_deadline ∙ p.same_deadline;
  same_acks = q.same_acks ∙ p.same_acks;
}

-- A valid transaction that is published or retired has every acknowledgement.
pub record IsSound (t : EptHookTransaction) : Type 0 where
  pub valid : is_transaction_valid t ≡ true
  pub acknowledged :
      (t.state ≡ transaction_published) ⊎ (t.state ≡ transaction_retired)
      → t.observed_cpu_acks ≡ t.required_cpu_acks

abbrev pub IsFinal : EptHookTransaction → Type 0
IsFinal t = transaction_retired ≤ t.state

-- A bound on the calls that can still succeed.
unfoldable pub steps_left : EptHookTransaction → ℕ
steps_left t =
    if t.state == transaction_prepared
    then 2 + (t.required_cpu_acks - t.observed_cpu_acks)
    else if t.state == transaction_published
    then 1
    else 0

changed :
    (t : EptHookTransaction) (state observed : ℕ)
    → SameUpdate t (record t { state = state; observed_cpu_acks = observed })
changed t state observed = record {
  same_id = refl;
  same_owner = refl;
  same_generation = refl;
  same_base = refl;
  same_pages = refl;
  same_deadline = refl;
  same_acks = refl;
}

Edge-SameUpdate : {c : Call} {t u : EptHookTransaction} → Edge c t u → SameUpdate t u
Edge-SameUpdate {t = t} (acknowledges {cpu_count = n} _ _ _ _ _) =
    changed t t.state (t.observed_cpu_acks + n)
Edge-SameUpdate {t = t} (publishes _ _ _ _) = changed t _ _
Edge-SameUpdate {t = t} (retires _ _) = changed t _ _
Edge-SameUpdate {t = t} (rolls_back _) = changed t _ _
Edge-SameUpdate {t = t} (quarantines _) = changed t _ _
Edge-SameUpdate {t = t} (lapses _ _ _) = changed t _ _
Edge-SameUpdate {t = t} (overruns _ _ _) = changed t _ _

Edge-live : {c : Call} {t u : EptHookTransaction} → Edge c t u → t.state ≤ 2
Edge-live (acknowledges a _ _ _ _) = omega arith
Edge-live (publishes a _ _ _) = omega arith
Edge-live (retires a _) = omega arith
Edge-live (rolls_back e) = ground arith
Edge-live (quarantines e) = ground arith
Edge-live (lapses a _ _) = omega arith
Edge-live (overruns a _ _) = omega arith

changed-IsSound :
    (t : EptHookTransaction) (state observed : ℕ)
    → IsSound t
    → 1 ≤ state
    → state ≤ 5
    → observed ≤ t.required_cpu_acks
    → ((state ≡ transaction_published) ⊎ (state ≡ transaction_retired)
        → observed ≡ t.required_cpu_acks)
    → IsSound (record t { state = state; observed_cpu_acks = observed })
changed-IsSound t state observed s low high fit full = record {
  valid = change-valid t state observed s.valid low high fit;
  acknowledged = full;
}

fit : (t : EptHookTransaction) → IsSound t → t.observed_cpu_acks ≤ t.required_cpu_acks
fit t s = let (_, _, le) = known_state t s.valid in le

stopped :
    (t : EptHookTransaction) (state : ℕ)
    → IsSound t
    → (state ≡ transaction_rolled_back) ⊎ (state ≡ transaction_quarantined)
    → IsSound (record t { state = state })
stopped t state s e =
    changed-IsSound t state _ s (ground arith) (ground arith) (fit t s) (λ f. absurd (ground arith))

Edge-IsSound : {c : Call} {t u : EptHookTransaction} → IsSound t → Edge c t u → IsSound u
Edge-IsSound {t = t} s (acknowledges {cpu_count = n} a _ _ _ d) =
    changed-IsSound t t.state (t.observed_cpu_acks + n) s (omega arith) (omega arith) d
      (λ f. absurd (ground arith))
Edge-IsSound {t = t} s (publishes a _ _ d) =
    changed-IsSound t _ _ s (omega arith) (omega arith) (fit t s) (λ f. d)
Edge-IsSound {t = t} s (retires a _) =
    changed-IsSound t _ _ s (omega arith) (omega arith) (fit t s) (λ f. s.acknowledged (inl a))
Edge-IsSound {t = t} s (rolls_back _) = stopped t transaction_rolled_back s (inl refl)
Edge-IsSound {t = t} s (quarantines _) = stopped t transaction_quarantined s (inr refl)
Edge-IsSound {t = t} s (lapses _ _ _) = stopped t transaction_rolled_back s (inl refl)
Edge-IsSound {t = t} s (overruns _ _ _) = stopped t transaction_quarantined s (inr refl)

Edge-steps : {c : Call} {t u : EptHookTransaction} → Edge c t u → suc (steps_left u) ≤ steps_left t
unfolding steps_left
Edge-steps (acknowledges a _ _ d e) = ground arith
Edge-steps (publishes a _ _ _) = ground arith
Edge-steps (retires a _) = ground arith
Edge-steps (rolls_back e) = ground arith
Edge-steps (quarantines e) = ground arith
Edge-steps (lapses a _ _) = ground arith
Edge-steps (overruns a _ _) = ground arith

-- A call keeps a sound transaction sound and of the same update.
left-IsSound :
    (t : EptHookTransaction) (c : Call)
    → IsSound t
    → IsSound (step t c).1 × SameUpdate t (step t c).1
left-IsSound t c s = elim (step-Edge t c) [
  | inl (u, e, _, edge) ↦ rw e (Edge-IsSound s edge, Edge-SameUpdate edge)
  | inr e ↦ rw e (s, SameUpdate-refl t)
]

left_final : (t : EptHookTransaction) (c : Call) → IsFinal t → step t c ≡ (false, t)
left_final t c final = elim (step-Edge t c) [
  | inl (u, e, _, edge) ↦ absurd (omega (arith, Edge-live edge))
  | inr e ↦ e
]

run-IsSound :
    (t : EptHookTransaction) (cs : List Call)
    → IsSound t
    → IsSound (run t cs) × SameUpdate t (run t cs)
unfolding run
run-IsSound t [] s = (s, SameUpdate-refl t)
run-IsSound t (c ∷ cs) s =
    let (next, same) = left-IsSound t c s in
    let (last, same') = run-IsSound (step t c).1 cs next in (last, SameUpdate-trans same same')

run_final : (t : EptHookTransaction) (cs : List Call) → IsFinal t → run t cs ≡ t
unfolding run
run_final t [] final = refl
run_final t (c ∷ cs) final = rw (left_final t c final) (run_final t cs final)

begun :
    (refused valid : Bool) (t : EptHookTransaction)
    → t.state ≡ transaction_prepared
    → (valid ≡ true → is_transaction_valid t ≡ true)
    → (r : Bool × EptHookTransaction)
    → (if refused then (false, empty_transaction) else (valid, t)) ≡ r
    → r.0 ≡ true
    → IsSound r.1
begun true valid t prepared ok r e h = absurd (ground (arith, rw (sym e) at h))
begun false valid t prepared ok r e h =
    rw (sym e) record { valid = ok (rw (sym e) at h); acknowledged = λ f. absurd (ground arith) }

begin-IsSound :
    (l : Option EptHookLease) (r : Option EptHookRequest) (generation now acks id : ℕ)
    → (begin_ept_hook_update l r generation now acks id).0 ≡ true
    → IsSound (begin_ept_hook_update l r generation now acks id).1
unfolding begin_ept_hook_update
begin-IsSound none r generation now acks id h = absurd (ground arith)
begin-IsSound (some l) none generation now acks id h = absurd (ground arith)
begin-IsSound (some l) (some r) generation now acks id h =
    begun (is_begin_refused l r generation now acks id)
      (is_transaction_valid (prepared_transaction l r generation acks id))
      (prepared_transaction l r generation acks id) (unfold prepared_transaction in refl) (λ v. v) _
      refl h

-- From a transaction that has been begun, any row of calls leaves a valid transaction of the same
-- update, published or retired only with every acknowledgement; and where the row has ended it, retired,
-- rolled back or quarantined, no further calls change it.
pub run_from_begin :
    (l : Option EptHookLease) (r : Option EptHookRequest) (generation now acks id : ℕ)
    (before after : List Call)
    → (begin_ept_hook_update l r generation now acks id).0 ≡ true
    → let t = (begin_ept_hook_update l r generation now acks id).1 in
      IsSound (run t before)
      × SameUpdate t (run t before)
      × (IsFinal (run t before) → run (run t before) after ≡ run t before)
run_from_begin l r generation now acks id before after h =
    let t = (begin_ept_hook_update l r generation now acks id).1 in
    let (sound, same) = run-IsSound t before (begin-IsSound l r generation now acks id h) in
    (sound, same, run_final (run t before) after)

-- Of any row of calls on a transaction, no more succeed than the acknowledgements that are missing and
-- two, the publication and the end.
pub successes_bound :
    (t : EptHookTransaction) (cs : List Call)
    → successes t cs + steps_left (run t cs) ≤ steps_left t
unfolding successes run
successes_bound t [] = omega arith
successes_bound t (c ∷ cs) =
    let rest = successes_bound (step t c).1 cs in
    elim (step-Edge t c) [
      | inl (u, e, _, edge) ↦ rw e (omega (arith, rw e at rest, Edge-steps edge))
      | inr e ↦ rw e (rw e at rest)
    ]

-- The acknowledgements of a group of processors after another.
abbrev pub acknowledge_all : ℕ → ℕ → List ℕ → List Call
acknowledge_all generation now counts = map (λ count. acknowledge generation count now) counts

abbrev pub sum : List ℕ → ℕ
sum [] = 0
sum (n ∷ ns) = n + sum ns

acknowledge_lem :
    (t : EptHookTransaction) (count now : ℕ)
    → is_transaction_valid t ≡ true
    → t.state ≡ transaction_prepared
    → now < t.deadline_tsc
    → 0 < count
    → t.observed_cpu_acks + count ≤ t.required_cpu_acks
    → acknowledge_ept_hook_cpu t t.parent_generation count now
      ≡ (true, record t { observed_cpu_acks = t.observed_cpu_acks + count })
unfolding acknowledge_ept_hook_cpu is_ept_hook_transaction_live
acknowledge_lem t count now v prepared early pos fit = rw (v, prepared) (ground arith)

publish_lem :
    (t : EptHookTransaction) (now : ℕ)
    → is_transaction_valid t ≡ true
    → t.state ≡ transaction_prepared
    → now < t.deadline_tsc
    → t.observed_cpu_acks ≡ t.required_cpu_acks
    → publish_ept_hook_update t t.parent_generation now
      ≡ (true, record t { state = transaction_published })
unfolding publish_ept_hook_update is_ept_hook_transaction_live
publish_lem t now v prepared early full = rw (v, prepared) (ground arith)

-- A valid prepared transaction is published, before its deadline, by acknowledgements of groups that
-- have processors and together are the ones that are missing, with the publication after them.
pub acknowledged_publishes :
    (t : EptHookTransaction) (now : ℕ) (counts : List ℕ)
    → is_transaction_valid t ≡ true
    → t.state ≡ transaction_prepared
    → now < t.deadline_tsc
    → All (λ n. 0 < n) counts
    → t.observed_cpu_acks + sum counts ≡ t.required_cpu_acks
    → let calls =
        acknowledge_all t.parent_generation now counts ++ publish t.parent_generation now ∷ [] in
      (run t calls
        ≡ record t { state = transaction_published; observed_cpu_acks = t.required_cpu_acks })
      × (successes t calls ≡ suc (length counts))
unfolding run successes
acknowledged_publishes t now [] v prepared early pos full =
    let done = publish_lem t now v prepared early (omega arith) in
    let total : t.observed_cpu_acks ≡ t.required_cpu_acks = omega arith in
    (
      ap (λ r. r.1) done
          ∙ ap (λ (n : ℕ). record t { state = transaction_published; observed_cpu_acks = n }) total,
      rw done refl,
    )
acknowledged_publishes t now (n ∷ ns) v prepared early (some_cpu, pos) full =
    let fit : t.observed_cpu_acks + n ≤ t.required_cpu_acks = omega arith in
    let (same, all) =
      acknowledged_publishes (record t { observed_cpu_acks = t.observed_cpu_acks + n }) now ns
        (change-valid t t.state (t.observed_cpu_acks + n) v (omega arith) (omega arith) fit)
        prepared early pos (omega arith) in
    let done = acknowledge_lem t n now v prepared early some_cpu fit in
    (rw (done, run) same, rw done (ap suc all))
