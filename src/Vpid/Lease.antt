-- ===== src/Vpid/Lease.antt =====
-- src/vmx/vpid_model.cpp: the tests on requests and leases, and the allocation of an identifier.
use knhv.Prelude.{
  ℕ, zero, suc, Bool, true, false, not, ◌&&◌, ◌||◌, Option, none, some, List, [], ◌∷◌,
}
use knhv.Prelude.Tests.{ltb, leb, ◌==◌, ◌!=◌, if◌then◌else◌}
use knhv.Prelude.Lists.{take}
use knhv.Prelude.Bits.{any_bits, not32}
use knhv.Vpid.Defs.{
  vpid_contract_version, vpid_max_struct_size, vpid_minimum, vpid_maximum, vpid_max_leases,
  vpid_known_lease_flag_mask, kind_root, vpid_kind_l2, lease_free, lease_active, lease_retiring,
  lease_quarantined, VpidStatus, success, invalid_parameter, exhausted, conflict, VpidRequest,
  VpidLease,
}

unfoldable pub is_versioned_size_valid : ℕ → ℕ → ℕ → Bool
is_versioned_size_valid version size required =
    version == vpid_contract_version && leb required size && leb size vpid_max_struct_size

unfoldable pub is_vpid_value_valid : ℕ → Bool
is_vpid_value_valid value = leb vpid_minimum value && leb value vpid_maximum

unfoldable pub is_kind_valid : ℕ → Bool
is_kind_valid value = leb kind_root value && leb value vpid_kind_l2

unfoldable pub is_lease_state_valid : ℕ → Bool
is_lease_state_valid value = leb value lease_quarantined

-- `InitializeFreeLease`.
abbrev pub free_lease : VpidLease
free_lease = record {
  size = 48;
  version = vpid_contract_version;
  vpid = 0;
  kind = 0;
  state = lease_free;
  flags = 0;
  owner_id = 0;
  generation = 0;
  allocation_sequence = 0;
}

-- Whether a lease that is not free holds the identifier.
unfoldable pub is_vpid_used : List VpidLease → ℕ → Bool
is_vpid_used [] vpid = false
is_vpid_used (l ∷ ls) vpid = l.state != lease_free && l.vpid == vpid || is_vpid_used ls vpid

unfoldable pub is_vpid_request_valid : Option VpidRequest → Bool
is_vpid_request_valid none = false
is_vpid_request_valid (some r) =
    is_versioned_size_valid r.version r.size 40
    && r.owner_id != 0
    && r.generation != 0
    && is_kind_valid r.kind
    && leb vpid_minimum r.max_vpid
    && leb r.max_vpid vpid_maximum
    && r.reserved == 0
    && r.reserved2 == 0

unfoldable pub is_vpid_lease_valid : Option VpidLease → Bool
unfolding is_versioned_size_valid is_lease_state_valid is_vpid_value_valid is_kind_valid
is_vpid_lease_valid none = false
is_vpid_lease_valid (some l) =
    is_versioned_size_valid l.version l.size 48
    && not (any_bits l.flags (not32 vpid_known_lease_flag_mask))
    && is_lease_state_valid l.state
    && (if l.state == lease_free
        then l.vpid == 0
          && l.kind == 0
          && l.owner_id == 0
          && l.generation == 0
          && l.allocation_sequence == 0
        else is_vpid_value_valid l.vpid
          && is_kind_valid l.kind
          && l.owner_id != 0
          && l.generation != 0
          && l.allocation_sequence != 0)

-- The scan of the existing leases, with those already passed, the last first: every one is valid, and
-- no two that are in use hold one identifier.
unfoldable pub existing_refusal : List VpidLease → List VpidLease → Option VpidStatus
existing_refusal prior [] = none
existing_refusal prior (l ∷ ls) =
    let rest = existing_refusal (l ∷ prior) ls in
    if not (is_vpid_lease_valid (some l))
    then some invalid_parameter
    else if l.state == lease_free
    then rest
    else if is_vpid_used prior l.vpid
    then some conflict
    else rest

-- The scan of the candidates: so many of them, from the given one up.
unfoldable pub first_unused : List VpidLease → ℕ → ℕ → Option ℕ
first_unused ls zero candidate = none
first_unused ls (suc n) candidate = elim (is_vpid_used ls candidate) [
  | true ↦ first_unused ls n (suc candidate)
  | false ↦ some candidate
]

abbrev pub active_lease : VpidRequest → ℕ → VpidLease
active_lease r candidate = record free_lease {
  vpid = candidate;
  kind = r.kind;
  state = lease_active;
  owner_id = r.owner_id;
  generation = r.generation;
  allocation_sequence = candidate;
}

abbrev pub allocation : VpidRequest → Option ℕ → VpidStatus × Option VpidLease
allocation r (some candidate) = (success, some (active_lease r candidate))
allocation r none = (exhausted, some free_lease)

-- The two loops, over the leases that are there.
unfoldable pub allocate_among : VpidRequest → List VpidLease → VpidStatus × Option VpidLease
allocate_among r existing = elim (existing_refusal [] existing) [
  | some status ↦ (status, some free_lease)
  | none ↦ allocation r (first_unused existing r.max_vpid vpid_minimum)
]

-- The leases are an array of at least the given count; without a count its address may be null.
unfoldable pub allocate_vpid :
    Option VpidRequest
    → Option (List VpidLease)
    → ℕ
    → Option VpidLease
    → VpidStatus × Option VpidLease
allocate_vpid request existing count none = (invalid_parameter, none)
allocate_vpid none existing count (some _) = (invalid_parameter, some free_lease)
allocate_vpid (some r) none count (some _) =
    if not (is_vpid_request_valid (some r)) || ltb vpid_max_leases count || count != 0
    then (invalid_parameter, some free_lease)
    else allocate_among r []
allocate_vpid (some r) (some existing) count (some _) =
    if not (is_vpid_request_valid (some r)) || ltb vpid_max_leases count
    then (invalid_parameter, some free_lease)
    else allocate_among r (take count existing)

unfoldable pub begin_vpid_retire : Option VpidLease → ℕ → Bool × Option VpidLease
begin_vpid_retire none generation = (false, none)
begin_vpid_retire (some l) generation =
    if is_vpid_lease_valid (some l)
      && generation != 0
      && l.generation == generation
      && l.state == lease_active
    then (true, some (record l { state = lease_retiring }))
    else (false, some l)

unfoldable pub quarantine_vpid : Option VpidLease → ℕ → Bool × Option VpidLease
quarantine_vpid none generation = (false, none)
quarantine_vpid (some l) generation =
    if is_vpid_lease_valid (some l)
      && generation != 0
      && l.generation == generation
      && (l.state == lease_active || l.state == lease_retiring)
    then (true, some (record l { state = lease_quarantined }))
    else (false, some l)
