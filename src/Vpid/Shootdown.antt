-- ===== src/Vpid/Shootdown.antt =====
-- src/vmx/vpid_model.cpp: the shootdown, from its request to its end.
use knhv.Prelude.{ℕ, ◌^◌, Bool, true, false, not, ◌&&◌, ◌||◌, Option, none, some, bit_or}
use knhv.Prelude.Tests.{ltb, leb, ◌==◌, ◌!=◌, if◌then◌else◌}
use knhv.Prelude.Bits.{any_bits, not32, not64}
use knhv.Vpid.Defs.{
  vpid_contract_version, vpid_max_cpus, shootdown_allow_all_context, shootdown_retain_globals,
  shootdown_known_flag_mask, single_address, single_context, all_context,
  single_context_retain_globals, shootdown_idle, shootdown_pending, shootdown_completed,
  shootdown_timed_out, shootdown_quarantined, ShootdownRequest, ShootdownState,
}
use knhv.Vpid.Lease.{is_versioned_size_valid, is_vpid_value_valid}

unfoldable pub is_shootdown_type_valid : ℕ → Bool
is_shootdown_type_valid value = leb value single_context_retain_globals

unfoldable pub is_shootdown_state_valid_value : ℕ → Bool
is_shootdown_state_valid_value value = leb value shootdown_quarantined

unfoldable pub is_context_shootdown : ℕ → Bool
is_context_shootdown kind = kind == single_context || kind == single_context_retain_globals

-- `InitializeShootdownState`.
abbrev pub idle_shootdown : ShootdownState
idle_shootdown = record {
  size = 64;
  version = vpid_contract_version;
  type = 0;
  state = shootdown_idle;
  request_id = 0;
  generation = 0;
  target_cpu_mask = 0;
  acknowledged_cpu_mask = 0;
  deadline_tsc = 0;
  vpid = 0;
  reserved = 0;
}

unfoldable pub is_shootdown_payload_valid : ℕ → ℕ → Bool
is_shootdown_payload_valid kind vpid =
    is_shootdown_type_valid kind
    && (if kind == all_context then vpid == 0 else is_vpid_value_valid vpid)

unfoldable pub shootdown_covers_vpid : ShootdownState → ℕ → Bool
shootdown_covers_vpid s vpid =
    if s.state != shootdown_completed
    then false
    else if s.type == all_context
    then true
    else is_context_shootdown s.type && s.vpid == vpid

unfoldable pub is_shootdown_request_valid : Option ShootdownRequest → Bool
is_shootdown_request_valid none = false
is_shootdown_request_valid (some r) =
    is_versioned_size_valid r.version r.size 64
    && not (any_bits r.flags (not32 shootdown_known_flag_mask))
    && r.request_id != 0
    && r.generation != 0
    && ltb r.source_cpu vpid_max_cpus
    && r.target_cpu_mask != 0
    && r.deadline_tsc != 0
    && is_shootdown_payload_valid r.type r.vpid
    && (if r.type == single_address
        then r.flags == 0
        else if r.type == single_context
        then r.flags == 0 && r.address == 0
        else if r.type == all_context
        then any_bits r.flags shootdown_allow_all_context
          && not (any_bits r.flags shootdown_retain_globals)
          && r.address == 0
        else any_bits r.flags shootdown_retain_globals
          && not (any_bits r.flags shootdown_allow_all_context)
          && r.address == 0)

unfoldable pub is_shootdown_state_valid : Option ShootdownState → Bool
is_shootdown_state_valid none = false
is_shootdown_state_valid (some s) =
    is_versioned_size_valid s.version s.size 64
    && s.reserved == 0
    && is_shootdown_state_valid_value s.state
    && (if s.state == shootdown_idle
        then s.type == 0
          && s.request_id == 0
          && s.generation == 0
          && s.target_cpu_mask == 0
          && s.acknowledged_cpu_mask == 0
          && s.deadline_tsc == 0
          && s.vpid == 0
        else s.request_id != 0
          && s.generation != 0
          && s.target_cpu_mask != 0
          && s.deadline_tsc != 0
          && is_shootdown_payload_valid s.type s.vpid
          && not (any_bits s.acknowledged_cpu_mask (not64 s.target_cpu_mask))
          && (if s.state == shootdown_completed
              then s.acknowledged_cpu_mask == s.target_cpu_mask
              else if s.state == shootdown_timed_out
              then s.acknowledged_cpu_mask != s.target_cpu_mask
              else true))

abbrev pub pending_shootdown : ShootdownRequest → ShootdownState
pending_shootdown r = record idle_shootdown {
  type = r.type;
  request_id = r.request_id;
  generation = r.generation;
  target_cpu_mask = r.target_cpu_mask;
  deadline_tsc = r.deadline_tsc;
  vpid = r.vpid;
  state = shootdown_pending;
}

unfoldable pub begin_shootdown :
    Option ShootdownRequest → Option ShootdownState → Bool × Option ShootdownState
begin_shootdown request none = (false, none)
begin_shootdown none (some _) = (false, some idle_shootdown)
begin_shootdown (some r) (some _) =
    if is_shootdown_request_valid (some r)
    then (true, some (pending_shootdown r))
    else (false, some idle_shootdown)

unfoldable pub acknowledge_shootdown : Option ShootdownState → ℕ → Bool × Option ShootdownState
acknowledge_shootdown none cpu_index = (false, none)
acknowledge_shootdown (some s) cpu_index =
    if is_shootdown_state_valid (some s)
      && s.state == shootdown_pending
      && ltb cpu_index vpid_max_cpus
      && any_bits s.target_cpu_mask (2 ^ cpu_index)
    then (
      true,
      some (record s { acknowledged_cpu_mask = bit_or s.acknowledged_cpu_mask (2 ^ cpu_index) }),
    )
    else (false, some s)

unfoldable pub complete_shootdown : Option ShootdownState → ℕ → Bool × Option ShootdownState
complete_shootdown none now_tsc = (false, none)
complete_shootdown (some s) now_tsc =
    if not (is_shootdown_state_valid (some s)) || s.state != shootdown_pending
    then (false, some s)
    else if ltb s.deadline_tsc now_tsc
    then (false, some (record s { state = shootdown_timed_out }))
    else if s.acknowledged_cpu_mask != s.target_cpu_mask
    then (false, some s)
    else (true, some (record s { state = shootdown_completed }))

unfoldable pub quarantine_shootdown : Option ShootdownState → Bool × Option ShootdownState
quarantine_shootdown none = (false, none)
quarantine_shootdown (some s) =
    if is_shootdown_state_valid (some s)
      && (s.state == shootdown_pending || s.state == shootdown_timed_out)
    then (true, some (record s { state = shootdown_quarantined }))
    else (false, some s)
