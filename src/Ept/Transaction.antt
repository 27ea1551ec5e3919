-- ===== src/Ept/Transaction.antt =====
-- src/ept/ept_model.cpp: the operations on a hook transaction. Each returns what the source returns, with
-- the transaction as it is afterwards; a null transaction, on which each returns false, is `none`.
use knhv.Prelude.{ℕ, ◌+◌, ◌-◌, Bool, true, false, not, ◌&&◌, ◌||◌, Option, none, some}
use knhv.Prelude.Tests.{ltb, ◌==◌, ◌!=◌, if◌then◌else◌}
use knhv.Prelude.Bits.{u64_max}
use knhv.Ept.Defs.{
  ept_contract_version, ept_hook_max_cpu_acks, transaction_prepared, transaction_published,
  transaction_retired, transaction_rolled_back, transaction_quarantined, EptHookLease,
  EptHookRequest, EptHookTransaction,
}
use knhv.Ept.Hook.{can_publish_ept_hook, is_transaction_valid}

abbrev pub empty_transaction : EptHookTransaction
empty_transaction = record {
  size = 0;
  version = 0;
  transaction_id = 0;
  owner_id = 0;
  parent_generation = 0;
  pending_generation = 0;
  guest_physical = 0;
  page_count = 0;
  deadline_tsc = 0;
  rollback_generation = 0;
  view = 0;
  hook_kind = 0;
  state = 0;
  required_cpu_acks = 0;
  observed_cpu_acks = 0;
  max_exits_per_second = 0;
  reserved = 0;
}

-- The transaction that `BeginEptHookUpdate` fills in.
unfoldable pub prepared_transaction : EptHookLease → EptHookRequest → ℕ → ℕ → ℕ → EptHookTransaction
prepared_transaction l r current_generation required_cpu_acks transaction_id = record {
  size = 104;
  version = ept_contract_version;
  transaction_id = transaction_id;
  owner_id = r.owner_id;
  parent_generation = current_generation;
  pending_generation = current_generation + 1;
  guest_physical = r.guest_physical;
  page_count = r.page_count;
  deadline_tsc = l.expires_tsc;
  rollback_generation = current_generation;
  view = r.view;
  hook_kind = r.hook_kind;
  state = transaction_prepared;
  required_cpu_acks = required_cpu_acks;
  observed_cpu_acks = 0;
  max_exits_per_second = l.max_exits_per_second;
  reserved = 0;
}

-- The guard of `BeginEptHookUpdate`.
unfoldable pub is_begin_refused : EptHookLease → EptHookRequest → ℕ → ℕ → ℕ → ℕ → Bool
unfolding can_publish_ept_hook
is_begin_refused l r current_generation now_tsc required_cpu_acks transaction_id =
    not (can_publish_ept_hook (some l) (some r) current_generation now_tsc)
    || required_cpu_acks == 0
    || ltb ept_hook_max_cpu_acks required_cpu_acks
    || transaction_id == 0
    || current_generation == u64_max

-- `BeginEptHookUpdate` with an output transaction.
unfoldable pub begin_ept_hook_update :
    Option EptHookLease → Option EptHookRequest → ℕ → ℕ → ℕ → ℕ → Bool × EptHookTransaction
unfolding is_begin_refused prepared_transaction is_transaction_valid
begin_ept_hook_update none request current_generation now_tsc required_cpu_acks transaction_id =
    (false, empty_transaction)
begin_ept_hook_update (some l) none current_generation now_tsc required_cpu_acks transaction_id =
    (false, empty_transaction)
begin_ept_hook_update (some l) (some r) current_generation now_tsc required_cpu_acks
      transaction_id =
    let t = prepared_transaction l r current_generation required_cpu_acks transaction_id in
    if is_begin_refused l r current_generation now_tsc required_cpu_acks transaction_id
    then (false, empty_transaction)
    else (is_transaction_valid t, t)

unfoldable pub is_ept_hook_transaction_live : EptHookTransaction → ℕ → Bool
unfolding is_transaction_valid
is_ept_hook_transaction_live t now_tsc =
    is_transaction_valid t
    && (t.state == transaction_prepared || t.state == transaction_published)
    && ltb now_tsc t.deadline_tsc

-- The operations below on a transaction that is not null.
unfoldable pub acknowledge_ept_hook_cpu : EptHookTransaction → ℕ → ℕ → ℕ → Bool × EptHookTransaction
unfolding is_ept_hook_transaction_live
acknowledge_ept_hook_cpu t generation cpu_count now_tsc =
    if not (is_ept_hook_transaction_live t now_tsc)
      || t.state != transaction_prepared
      || generation != t.parent_generation
      || cpu_count == 0
      || ltb (t.required_cpu_acks - t.observed_cpu_acks) cpu_count
    then (false, t)
    else (true, record t { observed_cpu_acks = t.observed_cpu_acks + cpu_count })

unfoldable pub publish_ept_hook_update : EptHookTransaction → ℕ → ℕ → Bool × EptHookTransaction
unfolding is_ept_hook_transaction_live
publish_ept_hook_update t current_generation now_tsc =
    if not (is_ept_hook_transaction_live t now_tsc)
      || t.state != transaction_prepared
      || current_generation != t.parent_generation
      || t.observed_cpu_acks != t.required_cpu_acks
    then (false, t)
    else (true, record t { state = transaction_published })

unfoldable pub retire_ept_hook_update : EptHookTransaction → ℕ → Bool × EptHookTransaction
unfolding is_transaction_valid
retire_ept_hook_update t current_generation =
    if not (is_transaction_valid t)
      || t.state != transaction_published
      || current_generation != t.pending_generation
    then (false, t)
    else (true, record t { state = transaction_retired })

-- The generation that a transaction in a state expects to be current.
unfoldable pub is_wrong_generation : EptHookTransaction → ℕ → Bool
is_wrong_generation t current_generation =
    if t.state == transaction_prepared
    then current_generation != t.parent_generation
    else current_generation != t.pending_generation

unfoldable pub rollback_ept_hook_update : EptHookTransaction → ℕ → Bool × EptHookTransaction
unfolding is_transaction_valid is_wrong_generation
rollback_ept_hook_update t current_generation =
    if not (is_transaction_valid t)
      || (t.state != transaction_prepared && t.state != transaction_published)
      || is_wrong_generation t current_generation
    then (false, t)
    else (true, record t { state = transaction_rolled_back })

unfoldable pub quarantine_ept_hook_update : EptHookTransaction → ℕ → Bool × EptHookTransaction
unfolding is_transaction_valid is_wrong_generation
quarantine_ept_hook_update t current_generation =
    if not (is_transaction_valid t)
      || t.state == transaction_retired
      || t.state == transaction_rolled_back
      || t.state == transaction_quarantined
      || is_wrong_generation t current_generation
    then (false, t)
    else (true, record t { state = transaction_quarantined })

unfoldable pub expire_ept_hook_update : EptHookTransaction → ℕ → ℕ → Bool × EptHookTransaction
unfolding is_transaction_valid
expire_ept_hook_update t current_generation now_tsc =
    if not (is_transaction_valid t) || ltb now_tsc t.deadline_tsc
    then (false, t)
    else if t.state == transaction_prepared && current_generation == t.parent_generation
    then (true, record t { state = transaction_rolled_back })
    else if t.state == transaction_published && current_generation == t.pending_generation
    then (true, record t { state = transaction_quarantined })
    else (false, t)
