-- ===== src/Vpid/Tests.antt =====
-- Runs of the definitions under Vpid, and the theorems at them.
use knhv.Prelude.{ℕ, ◌^◌, ◌≤◌, ◌<◌, ◌≡◌, ◌↔◌, ◌⊎◌, refl, true, none, some, List, [], ◌∷◌, arith}
use knhv.Prelude.Tests.{◌!=◌}
use knhv.Prelude.Lists.{take, length}
use knhv.Prelude.Bits.{any_bits}
use knhv.Vpid.Defs.{
  lease_retiring, all_context, shootdown_timed_out, success, exhausted, VpidRequest, VpidLease,
  ShootdownRequest, ShootdownState,
}
use knhv.Vpid.Lease.{
  is_versioned_size_valid, is_vpid_value_valid, is_kind_valid, is_lease_state_valid, free_lease,
  is_vpid_used, is_vpid_request_valid, is_vpid_lease_valid, existing_refusal, first_unused,
  active_lease, allocate_among, allocate_vpid,
}
use knhv.Vpid.Shootdown.{
  is_shootdown_type_valid, is_shootdown_state_valid_value, is_context_shootdown, idle_shootdown,
  is_shootdown_payload_valid, shootdown_covers_vpid, is_shootdown_request_valid,
  is_shootdown_state_valid, pending_shootdown, begin_shootdown, acknowledge_shootdown,
  complete_shootdown, quarantine_shootdown,
}
use knhv.Vpid.Reclaim.{reclaim_vpid}
use knhv.Vpid.Protocol.{
  Call, acknowledge, complete, left_by, step, run, answers, ends_in_time, any_call, reclaim_flushed,
  complete_cases,
}
use knhv.Vpid.Pool.{IsPool, scan_passes}
use knhv.Vpid.Pigeonhole.{IsAllocation, allocate_cases}

abbrev request : VpidRequest
request = record {
  size = 40;
  version = 1;
  owner_id = 9;
  generation = 4;
  kind = 2;
  max_vpid = 3;
  reserved = 0;
  reserved2 = 0;
}

abbrev leases : List VpidLease
leases = active_lease request 2 ∷ free_lease ∷ active_lease request 1 ∷ []

leases-pass : existing_refusal [] leases ≡ none
unfolding existing_refusal is_vpid_lease_valid is_versioned_size_valid is_lease_state_valid
    is_vpid_value_valid is_kind_valid is_vpid_used any_bits
leases-pass = refl

request-valid : is_vpid_request_valid (some request) ≡ true
unfolding is_vpid_request_valid is_versioned_size_valid is_kind_valid
request-valid = refl

allocates :
    allocate_vpid (some request) (some leases) 3 (some free_lease)
    ≡ (success, some (active_lease request 3))
unfolding allocate_vpid allocate_among is_vpid_request_valid existing_refusal first_unused
    is_vpid_lease_valid is_versioned_size_valid is_lease_state_valid is_vpid_value_valid
    is_kind_valid is_vpid_used any_bits
allocates = refl

scan_passes_example : (existing_refusal [] leases ≡ none) ↔ IsPool leases
scan_passes_example = scan_passes leases

allocate_cases_example :
    ((found : ℕ) × (allocate_vpid (some request) (some leases) 3 (some free_lease)
        ≡ (success, some (active_lease request found)))
      × IsAllocation request (take 3 leases) found)
    ⊎ ((allocate_vpid (some request) (some leases) 3 (some free_lease)
          ≡ (exhausted, some free_lease))
        × ((vpid : ℕ) → 1 ≤ vpid → vpid ≤ 3 → is_vpid_used (take 3 leases) vpid ≡ true)
        × (3 ≤ length (take 3 leases)))
allocate_cases_example =
    allocate_cases request leases 3 free_lease request-valid (omega arith)
      ((scan_passes leases).0 leases-pass)

-- A flush of identifier 3 on the processors 0 and 2.
abbrev flush : ShootdownRequest
flush = record {
  size = 64;
  version = 1;
  type = 1;
  flags = 0;
  request_id = 7;
  generation = 4;
  source_cpu = 0;
  vpid = 3;
  target_cpu_mask = 5;
  address = 0;
  deadline_tsc = 100;
}

abbrev calls : List Call
calls = acknowledge 2 ∷ acknowledge 1 ∷ complete 20 ∷ acknowledge 0 ∷ complete 90 ∷ []

abbrev retiring_lease : VpidLease
retiring_lease = record (active_lease request 3) { state = lease_retiring }

begins : begin_shootdown (some flush) (some idle_shootdown) ≡ (true, some (pending_shootdown flush))
unfolding begin_shootdown is_shootdown_request_valid is_versioned_size_valid
    is_shootdown_payload_valid is_shootdown_type_valid is_vpid_value_valid any_bits
begins = refl

reclaims :
    reclaim_vpid (some retiring_lease) 4 (some (run (pending_shootdown flush) calls))
    ≡ (true, some free_lease)
unfolding reclaim_vpid run step acknowledge_shootdown complete_shootdown is_vpid_lease_valid
    is_versioned_size_valid is_lease_state_valid is_vpid_value_valid is_kind_valid
    is_shootdown_state_valid is_shootdown_state_valid_value is_shootdown_payload_valid
    is_shootdown_type_valid shootdown_covers_vpid is_context_shootdown any_bits
reclaims = refl

reclaim_flushed_example :
    (retiring_lease.state ≡ lease_retiring)
    × (free_lease ≡ free_lease)
    × (flush.generation ≡ retiring_lease.generation)
    × ((flush.type ≡ all_context)
        ⊎ ((is_context_shootdown flush.type ≡ true) × (flush.vpid ≡ retiring_lease.vpid)))
    × ((cpu : ℕ)
        → any_bits flush.target_cpu_mask (2 ^ cpu) ≡ true
        → any_call (answers cpu) calls ≡ true)
    × (any_call (ends_in_time flush.deadline_tsc) calls ≡ true)
reclaim_flushed_example =
    reclaim_flushed flush idle_shootdown (pending_shootdown flush) calls retiring_lease free_lease 4
      begins reclaims

-- Every answer is in.
abbrev answered : ShootdownState
answered = record (pending_shootdown flush) { acknowledged_cpu_mask = 5 }

answered-valid : is_shootdown_state_valid (some answered) ≡ true
unfolding is_shootdown_state_valid is_versioned_size_valid is_shootdown_state_valid_value
    is_shootdown_payload_valid is_shootdown_type_valid is_vpid_value_valid any_bits
answered-valid = refl

complete_cases_example :
    let t = left_by answered (complete_shootdown (some answered) 101) in
    (((complete_shootdown (some answered) 101).0 ≡ true) ↔ (
      (101 ≤ answered.deadline_tsc) × (answered.acknowledged_cpu_mask ≡ answered.target_cpu_mask)))
    × (101 ≤ answered.deadline_tsc → is_shootdown_state_valid (some t) ≡ true)
    × (answered.deadline_tsc < 101
        → (t.state ≡ shootdown_timed_out)
          × (is_shootdown_state_valid (some t)
              ≡ (answered.acknowledged_cpu_mask != answered.target_cpu_mask))
          × ((quarantine_shootdown (some t)).0
              ≡ (answered.acknowledged_cpu_mask != answered.target_cpu_mask)))
complete_cases_example = complete_cases answered 101 answered-valid refl
