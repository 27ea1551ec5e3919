-- ===== src/Vpid/Pigeonhole.antt =====
-- `AllocateVpid` of src/vmx/vpid_model.cpp: what it answers, and why so many identifiers are enough.
use knhv.Prelude.{
  ℕ, zero, suc, ◌≤◌, ◌<◌, ◌≡◌, ◌≢◌, ◌⊎◌, inl, inr, refl, ◌∙◌, true, false, some, List, [], ◌∷◌,
  arith,
}
use knhv.Prelude.Tests.{◌==◌, Option-cases}
use knhv.Prelude.Lists.{take, length}
use knhv.Prelude.Bits.{any_bits}
use knhv.Vpid.Defs.{vpid_minimum, vpid_max_leases, success, exhausted, VpidRequest, VpidLease}
use knhv.Vpid.Lease.{
  is_versioned_size_valid, is_vpid_value_valid, is_kind_valid, is_lease_state_valid, free_lease,
  is_vpid_used, is_vpid_request_valid, is_vpid_lease_valid, first_unused, active_lease, allocation,
  allocate_among, allocate_vpid,
}
use knhv.Vpid.Pool.{IsPool, scan_passes, unused_none, unused_some}

-- The leases without those of one identifier.
unfoldable without : ℕ → List VpidLease → List VpidLease
without vpid [] = []
without vpid (l ∷ ls) = elim (l.vpid == vpid) [
  | true ↦ without vpid ls
  | false ↦ l ∷ without vpid ls
]

length-without : (vpid : ℕ) (ls : List VpidLease) → length (without vpid ls) ≤ length ls
unfolding without
length-without vpid [] = omega arith
length-without vpid (l ∷ ls) = ground (arith, length-without vpid ls)

without_shorter :
    (vpid : ℕ) (ls : List VpidLease)
    → is_vpid_used ls vpid ≡ true
    → length (without vpid ls) < length ls
unfolding without is_vpid_used
without_shorter vpid [] h = absurd (ground arith)
without_shorter vpid (l ∷ ls) h = ground (arith, length-without vpid ls, without_shorter vpid ls)

without_used :
    (vpid k : ℕ) (ls : List VpidLease)
    → k ≢ vpid
    → is_vpid_used (without vpid ls) k ≡ is_vpid_used ls k
unfolding without is_vpid_used
without_used vpid k [] apart = refl
without_used vpid k (l ∷ ls) apart = ground (arith, without_used vpid k ls apart)

-- So many identifiers in use are in so many leases.
pigeonhole :
    (n : ℕ) (ls : List VpidLease)
    → ((vpid : ℕ) → 1 ≤ vpid → vpid ≤ n → is_vpid_used ls vpid ≡ true)
    → n ≤ length ls
pigeonhole zero ls h = omega arith
pigeonhole (suc n) ls h =
    let fewer = without_shorter (suc n) ls (h (suc n) (omega arith) (omega arith)) in
    let rest = pigeonhole n (without (suc n) ls) (λ vpid.
      λ low. λ high. without_used (suc n) vpid ls (omega arith) ∙ h vpid low (omega arith)) in
    omega arith

request_parts :
    (r : VpidRequest)
    → is_vpid_request_valid (some r) ≡ true
    → (r.owner_id ≢ 0)
      × (r.generation ≢ 0)
      × (is_kind_valid r.kind ≡ true)
      × (1 ≤ r.max_vpid)
      × (r.max_vpid ≤ 0xffff)
unfolding is_vpid_request_valid
request_parts r h = ground arith

active_valid :
    (r : VpidRequest) (found : ℕ)
    → is_vpid_request_valid (some r) ≡ true
    → 1 ≤ found
    → found ≤ r.max_vpid
    → is_vpid_lease_valid (some (active_lease r found)) ≡ true
unfolding is_vpid_lease_valid is_versioned_size_valid is_lease_state_valid is_vpid_value_valid
    any_bits
active_valid r found v low high = ground (arith, request_parts r v)

allocate_value :
    (r : VpidRequest) (existing : List VpidLease) (count : ℕ) (out : VpidLease)
    → is_vpid_request_valid (some r) ≡ true
    → count ≤ vpid_max_leases
    → IsPool (take count existing)
    → allocate_vpid (some r) (some existing) count (some out)
      ≡ allocation r (first_unused (take count existing) r.max_vpid vpid_minimum)
unfolding allocate_vpid allocate_among
allocate_value r existing count out v few pool =
    let passes = (scan_passes (take count existing)).1 pool in ground (arith, passes)

-- What an allocation answers.
pub record IsAllocation (r : VpidRequest) (ls : List VpidLease) (found : ℕ) : Type 0 where
  pub positive : 1 ≤ found
  pub bounded : found ≤ r.max_vpid
  pub unused : is_vpid_used ls found ≡ false
  pub least : (vpid : ℕ) → 1 ≤ vpid → vpid < found → is_vpid_used ls vpid ≡ true
  pub pool : IsPool (active_lease r found ∷ ls)

found-IsAllocation :
    (r : VpidRequest) (ls : List VpidLease) (found : ℕ)
    → is_vpid_request_valid (some r) ≡ true
    → IsPool ls
    → first_unused ls r.max_vpid vpid_minimum ≡ some found
    → IsAllocation r ls found
found-IsAllocation r ls found v (valid, distinct) e =
    let (low, high, free, least) = unused_some ls r.max_vpid vpid_minimum found e in
    record {
      positive = low;
      bounded = omega arith;
      unused = free;
      least = least;
      pool = ((active_valid r found v low (omega arith), valid), (λ _. free, distinct));
    }

-- A valid request over at most 128 leases, valid and in use under different identifiers, is answered
-- with an active lease of the least identifier that is not in use, which joins the others as a further
-- such lease; or as exhausted, with a free lease, where every identifier up to the request's bound is
-- in use, and then the leases are at least that many.
pub allocate_cases :
    (r : VpidRequest) (existing : List VpidLease) (count : ℕ) (out : VpidLease)
    → is_vpid_request_valid (some r) ≡ true
    → count ≤ vpid_max_leases
    → IsPool (take count existing)
    → ((found : ℕ) × (allocate_vpid (some r) (some existing) count (some out)
          ≡ (success, some (active_lease r found)))
        × IsAllocation r (take count existing) found)
      ⊎ ((allocate_vpid (some r) (some existing) count (some out) ≡ (exhausted, some free_lease))
          × ((vpid : ℕ)
              → 1 ≤ vpid
              → vpid ≤ r.max_vpid
              → is_vpid_used (take count existing) vpid ≡ true)
          × (r.max_vpid ≤ length (take count existing)))
allocate_cases r existing count out v few pool =
    let ls = take count existing in
    let value = allocate_value r existing count out v few pool in
    elim (Option-cases (first_unused ls r.max_vpid vpid_minimum)) [
      | inl e ↦
          let all : ((vpid : ℕ) → 1 ≤ vpid → vpid ≤ r.max_vpid → is_vpid_used ls vpid ≡ true) =
            λ vpid.
              λ low. λ high. unused_none ls r.max_vpid vpid_minimum vpid e low (omega arith) in
          inr (rw (e) at value, all, pigeonhole r.max_vpid ls all)
      | inr (found, e) ↦ inl (found, rw e at value, found-IsAllocation r ls found v pool e)
    ]
