-- ===== src/Ept/Update.antt =====
-- The life of a hook transaction of src/ept/ept_model.cpp, from its begin through any calls.
use knhv.Prelude.{
  ℕ, ◌+◌, ◌-◌, ◌≤◌, ◌<◌, ◌≡◌, refl, ◌⊎◌, inl, inr, Bool, true, false, not, ◌&&◌, ◌||◌, arith,
}
use knhv.Prelude.Tests.{ltb, ◌==◌, ◌!=◌, if◌then◌else◌, Bool-cases}
use knhv.Ept.Defs.{
  transaction_prepared, transaction_published, transaction_retired, transaction_rolled_back,
  transaction_quarantined, EptHookTransaction,
}
use knhv.Ept.Hook.{is_hook_transaction_state_valid, is_transaction_valid}
use knhv.Ept.Transaction.{
  is_ept_hook_transaction_live, acknowledge_ept_hook_cpu, publish_ept_hook_update,
  retire_ept_hook_update, is_wrong_generation, rollback_ept_hook_update, quarantine_ept_hook_update,
  expire_ept_hook_update,
}

-- A call on a transaction, with the generation that is current and, where it is read, the time.
pub data Call : Type 0 where
  acknowledge : ℕ → ℕ → ℕ → Call
  publish expire : ℕ → ℕ → Call
  retire rollback quarantine : ℕ → Call

unfoldable pub step : EptHookTransaction → Call → Bool × EptHookTransaction
step t (acknowledge generation cpu_count now) = acknowledge_ept_hook_cpu t generation cpu_count now
step t (publish generation now) = publish_ept_hook_update t generation now
step t (expire generation now) = expire_ept_hook_update t generation now
step t (retire generation) = retire_ept_hook_update t generation
step t (rollback generation) = rollback_ept_hook_update t generation
step t (quarantine generation) = quarantine_ept_hook_update t generation

-- The generation that a call must find current: the old one before the publication, the new one after it.
abbrev pub Expects : EptHookTransaction → ℕ → Type 0
Expects t generation =
    ((t.state ≡ transaction_prepared) × (generation ≡ t.parent_generation))
    ⊎ ((t.state ≡ transaction_published) × (generation ≡ t.pending_generation))

-- The edges of the life cycle: what changes, and when it may.
pub data Edge : Call → EptHookTransaction → EptHookTransaction → Type 0 where
  acknowledges :
      {t : EptHookTransaction} {generation cpu_count now : ℕ}
      → t.state ≡ transaction_prepared
      → generation ≡ t.parent_generation
      → now < t.deadline_tsc
      → 0 < cpu_count
      → t.observed_cpu_acks + cpu_count ≤ t.required_cpu_acks
      → Edge
          (acknowledge generation cpu_count now)
          t
          (record t { observed_cpu_acks = t.observed_cpu_acks + cpu_count })
  publishes :
      {t : EptHookTransaction} {generation now : ℕ}
      → t.state ≡ transaction_prepared
      → generation ≡ t.parent_generation
      → now < t.deadline_tsc
      → t.observed_cpu_acks ≡ t.required_cpu_acks
      → Edge (publish generation now) t (record t { state = transaction_published })
  retires :
      {t : EptHookTransaction} {generation : ℕ}
      → t.state ≡ transaction_published
      → generation ≡ t.pending_generation
      → Edge (retire generation) t (record t { state = transaction_retired })
  rolls_back :
      {t : EptHookTransaction} {generation : ℕ}
      → Expects t generation
      → Edge (rollback generation) t (record t { state = transaction_rolled_back })
  quarantines :
      {t : EptHookTransaction} {generation : ℕ}
      → Expects t generation
      → Edge (quarantine generation) t (record t { state = transaction_quarantined })
  lapses :
      {t : EptHookTransaction} {generation now : ℕ}
      → t.state ≡ transaction_prepared
      → generation ≡ t.parent_generation
      → t.deadline_tsc ≤ now
      → Edge (expire generation now) t (record t { state = transaction_rolled_back })
  overruns :
      {t : EptHookTransaction} {generation now : ℕ}
      → t.state ≡ transaction_published
      → generation ≡ t.pending_generation
      → t.deadline_tsc ≤ now
      → Edge (expire generation now) t (record t { state = transaction_quarantined })

-- What the guard of each call says where it passes.
live_parts :
    (t : EptHookTransaction) (now : ℕ)
    → is_ept_hook_transaction_live t now ≡ true
    → (is_transaction_valid t ≡ true) × (now < t.deadline_tsc)
unfolding is_ept_hook_transaction_live
live_parts t now h = ground arith

pub known_state :
    (t : EptHookTransaction)
    → is_transaction_valid t ≡ true
    → (1 ≤ t.state) × (t.state ≤ 5) × (t.observed_cpu_acks ≤ t.required_cpu_acks)
unfolding is_transaction_valid is_hook_transaction_state_valid
known_state t v = ground arith

-- A change of the state or of the acknowledgements in range keeps a transaction valid.
pub change-valid :
    (t : EptHookTransaction) (state observed : ℕ)
    → is_transaction_valid t ≡ true
    → 1 ≤ state
    → state ≤ 5
    → observed ≤ t.required_cpu_acks
    → is_transaction_valid (record t { state = state; observed_cpu_acks = observed }) ≡ true
unfolding is_transaction_valid is_hook_transaction_state_valid
change-valid t state observed v low high fit = ground arith

-- Every call succeeds on a valid transaction along an edge of the life cycle, or it answers false and
-- leaves the transaction as it was.
abbrev pub Outcome : EptHookTransaction → Call → Bool × EptHookTransaction → Type 0
Outcome t c r =
    ((u : EptHookTransaction) × (r ≡ (true, u)) × (is_transaction_valid t ≡ true) × Edge c t u)
    ⊎ (r ≡ (false, t))

guarded :
    (t u : EptHookTransaction) (c : Call) (refused : Bool)
    → (refused ≡ false → (is_transaction_valid t ≡ true) × Edge c t u)
    → Outcome t c (if refused then (false, t) else (true, u))
guarded t u c true passed = inr refl
guarded t u c false passed = let (v, e) = passed refl in inl (u, refl, v, e)

acknowledge_guard :
    (live : Bool) (state generation parent cpu_count required observed : ℕ)
    → observed ≤ required
    → (not live
        || state != transaction_prepared
        || generation != parent
        || cpu_count == 0
        || ltb (required - observed) cpu_count)
      ≡ false
    → (live ≡ true)
      × (state ≡ transaction_prepared)
      × (generation ≡ parent)
      × (0 < cpu_count)
      × (observed + cpu_count ≤ required)
acknowledge_guard live state generation parent cpu_count required observed le h = ground arith

publish_guard :
    (live : Bool) (state generation parent observed required : ℕ)
    → (not live || state != transaction_prepared || generation != parent || observed != required)
      ≡ false
    → (live ≡ true) × (state ≡ transaction_prepared) × (generation ≡ parent) × (observed ≡ required)
publish_guard live state generation parent observed required h = ground arith

retire_guard :
    (valid : Bool) (state generation pending : ℕ)
    → (not valid || state != transaction_published || generation != pending) ≡ false
    → (valid ≡ true) × (state ≡ transaction_published) × (generation ≡ pending)
retire_guard valid state generation pending h = ground arith

rollback_guard :
    (t : EptHookTransaction) (generation : ℕ) (valid : Bool)
    → (not valid
        || (t.state != transaction_prepared && t.state != transaction_published)
        || is_wrong_generation t generation)
      ≡ false
    → (valid ≡ true) × Expects t generation
unfolding is_wrong_generation
rollback_guard t generation valid h = ground arith

quarantine_guard :
    (t : EptHookTransaction) (generation : ℕ) (valid : Bool)
    → (valid ≡ true → (1 ≤ t.state) × (t.state ≤ 5))
    → (not valid
        || t.state == transaction_retired
        || t.state == transaction_rolled_back
        || t.state == transaction_quarantined
        || is_wrong_generation t generation)
      ≡ false
    → (valid ≡ true) × Expects t generation
unfolding is_wrong_generation
quarantine_guard t generation valid known h = ground arith

acknowledge_cases :
    (t : EptHookTransaction) (generation cpu_count now : ℕ)
    → Outcome t
        (acknowledge generation cpu_count now)
        (acknowledge_ept_hook_cpu t generation cpu_count now)
unfolding acknowledge_ept_hook_cpu
acknowledge_cases t generation cpu_count now =
    elim (Bool-cases (is_ept_hook_transaction_live t now)) [
      | inl live ↦
          let (v, early) = live_parts t now live in
          let (_, _, le) = known_state t v in
          guarded t _ _ _ (λ h.
            let (_, a, b, c, d) =
              acknowledge_guard (is_ept_hook_transaction_live t now) t.state generation
                t.parent_generation cpu_count t.required_cpu_acks t.observed_cpu_acks le h in
            (v, acknowledges a b early c d))
      | inr dead ↦ inr (rw dead refl)
    ]

publish_cases :
    (t : EptHookTransaction) (generation now : ℕ)
    → Outcome t (publish generation now) (publish_ept_hook_update t generation now)
unfolding publish_ept_hook_update
publish_cases t generation now = guarded t _ _ _ (λ h.
    let (live, a, b, c) =
      publish_guard (is_ept_hook_transaction_live t now) t.state generation t.parent_generation
        t.observed_cpu_acks t.required_cpu_acks h in
    let (v, early) = live_parts t now live in (v, publishes a b early c))

retire_cases :
    (t : EptHookTransaction) (generation : ℕ)
    → Outcome t (retire generation) (retire_ept_hook_update t generation)
unfolding retire_ept_hook_update
retire_cases t generation = guarded t _ _ _ (λ h.
    let (v, a, b) =
      retire_guard (is_transaction_valid t) t.state generation t.pending_generation h in
    (v, retires a b))

rollback_cases :
    (t : EptHookTransaction) (generation : ℕ)
    → Outcome t (rollback generation) (rollback_ept_hook_update t generation)
unfolding rollback_ept_hook_update
rollback_cases t generation =
    guarded t _ _ _ (λ h.
      let (v, e) = rollback_guard t generation (is_transaction_valid t) h in (v, rolls_back e))

quarantine_cases :
    (t : EptHookTransaction) (generation : ℕ)
    → Outcome t (quarantine generation) (quarantine_ept_hook_update t generation)
unfolding quarantine_ept_hook_update
quarantine_cases t generation = guarded t _ _ _ (λ h.
    let (v, e) =
      quarantine_guard t generation (is_transaction_valid t)
        (λ v. let (a, b, _) = known_state t v in (a, b)) h in
    (v, quarantines e))

expire_guard :
    (valid : Bool) (now deadline : ℕ)
    → (not valid || ltb now deadline) ≡ false
    → (valid ≡ true) × (deadline ≤ now)
expire_guard valid now deadline h = ground arith

both_equal : (a b c d : ℕ) → (a == b && c == d) ≡ true → (a ≡ b) × (c ≡ d)
both_equal a b c d h = ground arith

expire_cases :
    (t : EptHookTransaction) (generation now : ℕ)
    → Outcome t (expire generation now) (expire_ept_hook_update t generation now)
unfolding expire_ept_hook_update
expire_cases t generation now =
    elim (Bool-cases (not (is_transaction_valid t) || ltb now t.deadline_tsc)) [
      | inl early ↦ inr (rw early refl)
      | inr late ↦
          let (v, due) = expire_guard (is_transaction_valid t) now t.deadline_tsc late in
          let prepared = t.state == transaction_prepared && generation == t.parent_generation in
          let published = t.state == transaction_published && generation == t.pending_generation in
          elim (Bool-cases prepared) [
            | inl p ↦
                let (a, b) = both_equal t.state _ generation _ p in
                inl (_, rw (late, p) refl, v, lapses a b due)
            | inr p ↦ elim (Bool-cases published) [
              | inl q ↦
                  let (a, b) = both_equal t.state _ generation _ q in
                  inl (_, rw (late, p, q) refl, v, overruns a b due)
              | inr q ↦ inr (rw (late, p, q) refl)
            ]
          ]
    ]

-- Every call either succeeds, on a valid transaction and along an edge of the life cycle, or answers
-- false and leaves the transaction as it was.
pub step-Edge : (t : EptHookTransaction) (c : Call) → Outcome t c (step t c)
unfolding step
step-Edge t (acknowledge generation cpu_count now) = acknowledge_cases t generation cpu_count now
step-Edge t (publish generation now) = publish_cases t generation now
step-Edge t (expire generation now) = expire_cases t generation now
step-Edge t (retire generation) = retire_cases t generation
step-Edge t (rollback generation) = rollback_cases t generation
step-Edge t (quarantine generation) = quarantine_cases t generation
