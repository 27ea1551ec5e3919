-- ===== src/Ept/Hook.antt =====
-- src/ept/ept_model.cpp: the leases, requests and transactions of page hooks.
use knhv.Prelude.{ℕ, ◌+◌, ◌-◌, ◌*◌, ◌/◌, ◌^◌, Bool, false, not, ◌&&◌, ◌||◌, Option, none, some}
use knhv.Prelude.Tests.{ltb, leb, ◌==◌, ◌!=◌}
use knhv.Prelude.Bits.{u64_max, not32, any_bits}
use knhv.Ept.Defs.{
  ept_page_size, ept_max_physical_address_bits, ept_permission_known_mask, ept_max_mapping_pages,
  ept_hook_max_cpu_acks, ept_hook_known_cet_policy_mask, ept_hook_known_cfg_policy_mask,
  view_guest_debug, hook_execute, hook_monitor, hook_active, transaction_prepared,
  transaction_published, transaction_quarantined, EptHookLease, EptHookRequest, EptHookMetadata,
  EptHookTransaction,
}
use knhv.Ept.Validity.{is_versioned_size_valid, is_physical_address, is_last_address}

unfoldable pub is_hook_kind_valid : ℕ → Bool
is_hook_kind_valid value = leb hook_execute value && leb value hook_monitor

unfoldable pub is_hook_transaction_state_valid : ℕ → Bool
is_hook_transaction_state_valid value =
    leb transaction_prepared value && leb value transaction_quarantined

unfoldable pub is_hook_range_valid : ℕ → ℕ → Bool
unfolding is_physical_address is_last_address
is_hook_range_valid guest_physical page_count =
    page_count != 0
    && leb page_count ept_max_mapping_pages
    && not (any_bits guest_physical (ept_page_size - 1))
    && leb page_count (u64_max / ept_page_size)
    && is_physical_address guest_physical ept_max_physical_address_bits
    && is_last_address guest_physical (page_count * ept_page_size - 1) ept_max_physical_address_bits

unfoldable pub is_canonical_instruction_address : ℕ → Bool
is_canonical_instruction_address address =
    let upper = address / 2 ^ 48 in upper == 0 || upper == 0xFFFF

unfoldable pub is_ept_hook_lease_valid : Option EptHookLease → Bool
unfolding is_versioned_size_valid is_hook_kind_valid
is_ept_hook_lease_valid none = false
is_ept_hook_lease_valid (some l) =
    is_versioned_size_valid l.version l.size 56
    && l.owner_id != 0
    && l.generation != 0
    && l.expires_tsc != 0
    && l.view == view_guest_debug
    && is_hook_kind_valid l.hook_kind
    && l.state == hook_active
    && l.max_pages != 0
    && leb l.max_pages ept_max_mapping_pages
    && l.max_exits_per_second != 0
    && l.reserved == 0

unfoldable pub is_ept_hook_request_valid : Option EptHookRequest → Bool
unfolding is_versioned_size_valid is_hook_kind_valid is_hook_range_valid
is_ept_hook_request_valid none = false
is_ept_hook_request_valid (some r) =
    is_versioned_size_valid r.version r.size 72
    && r.owner_id != 0
    && r.expected_generation != 0
    && is_hook_range_valid r.guest_physical r.page_count
    && r.view == view_guest_debug
    && is_hook_kind_valid r.hook_kind
    && not (any_bits r.permissions (not32 ept_permission_known_mask))
    && r.permissions != 0
    && r.reserved == 0
    && not (r.module_hash.0 == 0 && r.module_hash.1 == 0)

-- The tests of `CanPublishEptHook` that relate the lease, the request and the generation.
unfoldable pub may_publish : EptHookLease → EptHookRequest → ℕ → ℕ → Bool
unfolding is_ept_hook_lease_valid is_ept_hook_request_valid
may_publish l r current_generation now_tsc =
    is_ept_hook_lease_valid (some l)
    && is_ept_hook_request_valid (some r)
    && current_generation != 0
    && l.owner_id == r.owner_id
    && l.generation == current_generation
    && r.expected_generation == current_generation
    && l.hook_kind == r.hook_kind
    && ltb now_tsc l.expires_tsc
    && leb r.page_count l.max_pages

unfoldable pub can_publish_ept_hook : Option EptHookLease → Option EptHookRequest → ℕ → ℕ → Bool
unfolding may_publish
can_publish_ept_hook none request current_generation now_tsc = false
can_publish_ept_hook (some l) none current_generation now_tsc = false
can_publish_ept_hook (some l) (some r) current_generation now_tsc =
    may_publish l r current_generation now_tsc

unfoldable pub is_ept_hook_metadata_valid : Option EptHookMetadata → Bool
unfolding is_versioned_size_valid is_physical_address is_canonical_instruction_address
is_ept_hook_metadata_valid none = false
is_ept_hook_metadata_valid (some m) =
    is_versioned_size_valid m.version m.size 72
    && m.original_page_physical != m.shadow_page_physical
    && m.original_page_physical != 0
    && m.shadow_page_physical != 0
    && not (any_bits m.original_page_physical (ept_page_size - 1))
    && not (any_bits m.shadow_page_physical (ept_page_size - 1))
    && is_physical_address m.original_page_physical ept_max_physical_address_bits
    && is_physical_address m.shadow_page_physical ept_max_physical_address_bits
    && not (m.module_hash.0 == 0 && m.module_hash.1 == 0)
    && m.target_rip != 0
    && is_canonical_instruction_address m.target_rip
    && m.instruction_length != 0
    && leb m.instruction_length 15
    && not (any_bits m.cet_policy (not32 ept_hook_known_cet_policy_mask))
    && not (any_bits m.cfg_policy (not32 ept_hook_known_cfg_policy_mask))
    && m.reserved == 0
    && m.rollback_generation != 0

unfoldable pub is_transaction_valid : EptHookTransaction → Bool
unfolding is_versioned_size_valid is_hook_range_valid is_hook_kind_valid
    is_hook_transaction_state_valid
is_transaction_valid t =
    is_versioned_size_valid t.version t.size 104
    && t.transaction_id != 0
    && t.owner_id != 0
    && t.parent_generation != 0
    && t.parent_generation != u64_max
    && t.pending_generation == t.parent_generation + 1
    && t.rollback_generation == t.parent_generation
    && t.deadline_tsc != 0
    && is_hook_range_valid t.guest_physical t.page_count
    && t.view == view_guest_debug
    && is_hook_kind_valid t.hook_kind
    && is_hook_transaction_state_valid t.state
    && t.required_cpu_acks != 0
    && leb t.required_cpu_acks ept_hook_max_cpu_acks
    && leb t.observed_cpu_acks t.required_cpu_acks
    && t.max_exits_per_second != 0
    && t.reserved == 0

unfoldable pub is_ept_hook_transaction_valid : Option EptHookTransaction → Bool
unfolding is_transaction_valid
is_ept_hook_transaction_valid none = false
is_ept_hook_transaction_valid (some t) = is_transaction_valid t

-- The tests of `IsEptHookMetadataCompatible` after the three structures are known to be valid.
unfoldable pub is_same_hook : EptHookRequest → EptHookTransaction → EptHookMetadata → Bool
is_same_hook r t m =
    (t.state == transaction_prepared || t.state == transaction_published)
    && r.owner_id == t.owner_id
    && r.expected_generation == t.parent_generation
    && r.guest_physical == t.guest_physical
    && r.page_count == t.page_count
    && r.view == t.view
    && r.hook_kind == t.hook_kind
    && r.module_hash.0 == m.module_hash.0
    && r.module_hash.1 == m.module_hash.1
    && m.rollback_generation == t.rollback_generation

unfoldable pub is_ept_hook_metadata_compatible :
    Option EptHookRequest → Option EptHookTransaction → Option EptHookMetadata → Bool
unfolding is_ept_hook_request_valid is_ept_hook_transaction_valid is_ept_hook_metadata_valid
    is_same_hook
is_ept_hook_metadata_compatible none transaction metadata = false
is_ept_hook_metadata_compatible (some r) none metadata = false
is_ept_hook_metadata_compatible (some r) (some t) none = false
is_ept_hook_metadata_compatible (some r) (some t) (some m) =
    is_ept_hook_request_valid (some r)
    && is_ept_hook_transaction_valid (some t)
    && is_ept_hook_metadata_valid (some m)
    && is_same_hook r t m
