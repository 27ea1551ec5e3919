-- ===== src/Ept/Tests.antt =====
-- Runs of the EPT model.
use knhv.Prelude.{ℕ, ◌+◌, ◌-◌, ◌≤◌, bit_and, ◌≡◌, refl, ap, ◌↔◌, true, some, List, [], ◌∷◌, arith}
use knhv.Prelude.Bits.{any_bits}
use knhv.Ept.Defs.{hit, EptpConfig, EptMapping, EptHookLease, EptHookRequest, EptHookTransaction}
use knhv.Ept.Validity.{
  is_versioned_size_valid, is_physical_address, checked_add, is_last_address, mapping_span,
  is_eptp_config_valid, is_span_valid, is_ept_mapping_valid, ept_mapping_contains,
  is_ept_access_allowed,
}
use knhv.Ept.Lookup.{resolve_root, resolve_nested_ept}
use knhv.Ept.Pointer.{build_ept_pointer, decode_ept_pointer}
use knhv.Ept.Hook.{
  is_hook_kind_valid, is_hook_transaction_state_valid, is_hook_range_valid, is_ept_hook_lease_valid,
  is_ept_hook_request_valid, may_publish, can_publish_ept_hook, is_transaction_valid,
}
use knhv.Ept.Transaction.{prepared_transaction, is_begin_refused, begin_ept_hook_update}
use knhv.Ept.Resolve.{Reaches, resolve_nested_ept_lem}
use knhv.Ept.Codec.{decode-build}
use knhv.Ept.Update.{Call, acknowledge, publish, retire, quarantine}
use knhv.Ept.Life.{
  run, successes, SameUpdate, IsSound, IsFinal, steps_left, run_from_begin, successes_bound,
  acknowledged_publishes,
}

abbrev mapping : ℕ → ℕ → EptMapping
mapping guest host = record {
  size = 56;
  version = 1;
  guest_physical = guest;
  host_physical = host;
  page_count = 4;
  page_order = 0;
  permissions = 3;
  memory_type = 6;
  flags = 1;
  generation = 2;
}

-- An access at 0x1010 goes to 0x8010 and on to 0x20010.
resolve_nested_ept_lem_example :
    let r =
      resolve_nested_ept (some (mapping 0x1000 0x8000)) (some (mapping 0x8000 0x20000)) 0x1010 2 in
    ((r.status ≡ hit) ↔ Reaches (mapping 0x1000 0x8000) (mapping 0x8000 0x20000) 0x1010 2)
    × (r.status ≡ hit
        → (r.host_physical ≡ 0x20000 + (0x8000 + (0x1010 - 0x1000) - 0x8000))
          × (is_physical_address r.host_physical 52 ≡ true)
          × (r.permissions ≡ bit_and 3 3))
resolve_nested_ept_lem_example =
    resolve_nested_ept_lem (mapping 0x1000 0x8000) (mapping 0x8000 0x20000) 0x1010 2

resolve_run :
    (resolve_nested_ept
      (some (mapping 0x1000 0x8000))
      (some (mapping 0x8000 0x20000))
      0x1010
      2).host_physical
    ≡ 0x20010
unfolding resolve_nested_ept resolve_root is_ept_mapping_valid is_versioned_size_valid any_bits
    mapping_span is_span_valid is_physical_address is_last_address checked_add ept_mapping_contains
    is_ept_access_allowed
resolve_run = refl

abbrev config : EptpConfig
config = record {
  size = 64;
  version = 1;
  root_physical = 0x123456000;
  memory_type = 6;
  walk_length = 4;
  flags = 1;
  reserved = 0;
  generation = 3;
}

config_valid : is_eptp_config_valid (some config) 52 ≡ true
unfolding is_eptp_config_valid is_versioned_size_valid is_physical_address any_bits
config_valid = refl

decode-build_example :
    (raw : ℕ) × (build_ept_pointer (some config) ≡ some raw)
    × (decode_ept_pointer raw
        ≡ some record {
          size = 40;
          version = 1;
          root_physical = 0x123456000;
          memory_type = 6;
          walk_length = 4;
          flags = 1;
          reserved = 0;
          generation = 0;
        })
decode-build_example = decode-build config config_valid (omega arith)

abbrev lease : EptHookLease
lease = record {
  size = 56;
  version = 1;
  owner_id = 5;
  generation = 7;
  expires_tsc = 1000;
  view = 3;
  hook_kind = 1;
  state = 1;
  max_pages = 4;
  max_exits_per_second = 100;
  reserved = 0;
}

abbrev request : EptHookRequest
request = record {
  size = 72;
  version = 1;
  owner_id = 5;
  expected_generation = 7;
  guest_physical = 0x4000;
  page_count = 2;
  view = 3;
  hook_kind = 1;
  permissions = 4;
  reserved = 0;
  module_hash = (11, 12);
}

abbrev begun_update : EptHookTransaction
begun_update = (begin_ept_hook_update (some lease) (some request) 7 100 3 9).1

-- The transaction that the begin leaves.
abbrev transaction : EptHookTransaction
transaction = record {
  size = 104;
  version = 1;
  transaction_id = 9;
  owner_id = 5;
  parent_generation = 7;
  pending_generation = 8;
  guest_physical = 0x4000;
  page_count = 2;
  deadline_tsc = 1000;
  rollback_generation = 7;
  view = 3;
  hook_kind = 1;
  state = 1;
  required_cpu_acks = 3;
  observed_cpu_acks = 0;
  max_exits_per_second = 100;
  reserved = 0;
}

begin_run : begin_ept_hook_update (some lease) (some request) 7 100 3 9 ≡ (true, transaction)
unfolding begin_ept_hook_update is_begin_refused can_publish_ept_hook may_publish
    is_ept_hook_lease_valid is_ept_hook_request_valid prepared_transaction is_transaction_valid
    is_versioned_size_valid is_hook_kind_valid is_hook_range_valid is_hook_transaction_state_valid
    is_physical_address is_last_address checked_add any_bits
begin_run = refl

transaction_valid : is_transaction_valid transaction ≡ true
unfolding is_transaction_valid is_versioned_size_valid is_hook_kind_valid is_hook_range_valid
    is_hook_transaction_state_valid is_physical_address is_last_address checked_add any_bits
transaction_valid = refl

abbrev calls : List Call
calls = acknowledge 7 2 110 ∷ publish 7 120 ∷ acknowledge 7 1 130 ∷ publish 7 140 ∷ retire 8 ∷ []

run_from_begin_example :
    IsSound (run begun_update calls)
    × SameUpdate begun_update (run begun_update calls)
    × (IsFinal (run begun_update calls)
        → run (run begun_update calls) (quarantine 8 ∷ []) ≡ run begun_update calls)
run_from_begin_example =
    run_from_begin (some lease) (some request) 7 100 3 9 calls (quarantine 8 ∷ [])
      (ap (λ r. r.0) begin_run)

successes_bound_example :
    successes transaction calls + steps_left (run transaction calls) ≤ steps_left transaction
successes_bound_example = successes_bound transaction calls

acknowledged_publishes_example :
    let row = acknowledge 7 2 110 ∷ acknowledge 7 1 110 ∷ publish 7 110 ∷ [] in
    (run transaction row ≡ record transaction { state = 2; observed_cpu_acks = 3 })
    × (successes transaction row ≡ 3)
acknowledged_publishes_example =
    acknowledged_publishes transaction 110 (2 ∷ 1 ∷ []) transaction_valid refl (omega arith)
      (omega arith, (omega arith, tt)) refl
