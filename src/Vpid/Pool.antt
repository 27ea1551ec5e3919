-- ===== src/Vpid/Pool.antt =====
-- `AllocateVpid` of src/vmx/vpid_model.cpp over the leases that are there.
use knhv.Prelude.{
  ℕ, zero, suc, ◌+◌, ◌≤◌, ◌<◌, ◌≡◌, ◌≢◌, ◌↔◌, inl, inr, refl, sym, ◌∙◌, true, false, none, some,
  List, [], ◌∷◌, arith,
}
use knhv.Prelude.Tests.{Bool-cases}
use knhv.Prelude.Lists.{All}
use knhv.Vpid.Defs.{lease_free, VpidLease}
use knhv.Vpid.Lease.{is_vpid_used, is_vpid_lease_valid, existing_refusal, first_unused}

abbrev IsLease : VpidLease → Type 0
IsLease l = is_vpid_lease_valid (some l) ≡ true

-- The identifiers of the leases in use differ.
abbrev pub Distinct : List VpidLease → Type 0
Distinct [] = Unit
Distinct (l ∷ ls) = (l.state ≢ lease_free → is_vpid_used ls l.vpid ≡ false) × Distinct ls

-- No lease in use holds an identifier of those before.
abbrev Clear : List VpidLease → List VpidLease → Type 0
Clear prior ls = All (λ l. l.state ≢ lease_free → is_vpid_used prior l.vpid ≡ false) ls

-- Leases that are valid and in use under different identifiers.
abbrev pub IsPool : List VpidLease → Type 0
IsPool ls = All IsLease ls × Distinct ls

used_cons :
    (l : VpidLease) (ls : List VpidLease) (vpid : ℕ)
    → is_vpid_used (l ∷ ls) vpid ≡ false
    → (is_vpid_used ls vpid ≡ false) × (l.state ≢ lease_free → l.vpid ≢ vpid)
unfolding is_vpid_used
used_cons l ls vpid h = ground arith

unused_cons :
    (l : VpidLease) (ls : List VpidLease) (vpid : ℕ)
    → is_vpid_used ls vpid ≡ false
    → (l.state ≢ lease_free → l.vpid ≢ vpid)
    → is_vpid_used (l ∷ ls) vpid ≡ false
unfolding is_vpid_used
unused_cons l ls vpid h k = ground (arith, h, k)

Clear-tail : (l : VpidLease) (prior ls : List VpidLease) → Clear (l ∷ prior) ls → Clear prior ls
Clear-tail l prior [] _ = tt
Clear-tail l prior (m ∷ ls) (c, cs) =
    (λ used. (used_cons l prior m.vpid (c used)).0, Clear-tail l prior ls cs)

Clear-head :
    (l : VpidLease) (prior ls : List VpidLease)
    → l.state ≢ lease_free
    → Clear (l ∷ prior) ls
    → is_vpid_used ls l.vpid ≡ false
unfolding is_vpid_used
Clear-head l prior [] used _ = refl
Clear-head l prior (m ∷ ls) used (c, cs) =
    unused_cons m ls l.vpid (Clear-head l prior ls used cs)
      (λ live. λ same. (used_cons l prior m.vpid (c live)).1 used (sym same))

Clear-cons :
    (l : VpidLease) (prior ls : List VpidLease)
    → Clear prior ls
    → (l.state ≢ lease_free → is_vpid_used ls l.vpid ≡ false)
    → Clear (l ∷ prior) ls
Clear-cons l prior [] _ _ = tt
Clear-cons l prior (m ∷ ls) (c, cs) free = (
  λ live.
      unused_cons l prior m.vpid (c live)
        (λ used. λ same. (used_cons m ls l.vpid (free used)).1 live (sym same)),
  Clear-cons l prior ls cs (λ used. (used_cons m ls l.vpid (free used)).0),
)

passed_head :
    (prior : List VpidLease) (l : VpidLease) (ls : List VpidLease)
    → existing_refusal prior (l ∷ ls) ≡ none
    → IsLease l
      × (l.state ≢ lease_free → is_vpid_used prior l.vpid ≡ false)
      × (existing_refusal (l ∷ prior) ls ≡ none)
unfolding existing_refusal
passed_head prior l ls h = ground arith

passes_head :
    (prior : List VpidLease) (l : VpidLease) (ls : List VpidLease)
    → IsLease l
    → (l.state ≢ lease_free → is_vpid_used prior l.vpid ≡ false)
    → existing_refusal prior (l ∷ ls) ≡ existing_refusal (l ∷ prior) ls
unfolding existing_refusal
passes_head prior l ls v c = ground (arith, c)

passed-IsPool :
    (prior ls : List VpidLease) → existing_refusal prior ls ≡ none → IsPool ls × Clear prior ls
passed-IsPool prior [] h = ((tt, tt), tt)
passed-IsPool prior (l ∷ ls) h =
    let (v, c, rest) = passed_head prior l ls h in
    let ((vs, ds), cs) = passed-IsPool (l ∷ prior) ls rest in
    (((v, vs), (λ used. Clear-head l prior ls used cs, ds)), (c, Clear-tail l prior ls cs))

pool_passes :
    (prior ls : List VpidLease) → IsPool ls → Clear prior ls → existing_refusal prior ls ≡ none
pool_passes prior [] _ _ = unfold existing_refusal in refl
pool_passes prior (l ∷ ls) ((v, vs), (d, ds)) (c, cs) =
    passes_head prior l ls v c ∙ pool_passes (l ∷ prior) ls (vs, ds) (Clear-cons l prior ls cs d)

Clear-none : (ls : List VpidLease) → Clear [] ls
Clear-none [] = tt
Clear-none (l ∷ ls) = (λ _. unfold is_vpid_used in refl, Clear-none ls)

-- The scan of the existing leases passes exactly the pools: lists of valid leases whose identifiers in
-- use differ.
pub scan_passes : (ls : List VpidLease) → (existing_refusal [] ls ≡ none) ↔ IsPool ls
scan_passes ls = (λ h. (passed-IsPool [] ls h).0, λ p. pool_passes [] ls p (Clear-none ls))

-- What the scan of the candidates finds.
pub unused_none :
    (ls : List VpidLease) (n candidate vpid : ℕ)
    → first_unused ls n candidate ≡ none
    → candidate ≤ vpid
    → vpid < candidate + n
    → is_vpid_used ls vpid ≡ true
unfolding first_unused
unused_none ls zero candidate vpid h low high = absurd (omega arith)
unused_none ls (suc n) candidate vpid h low high = elim (Bool-cases (is_vpid_used ls candidate)) [
  | inl e ↦ ground (arith, e, unused_none ls n (suc candidate) vpid (rw (e, first_unused) at h))
  | inr e ↦ absurd (ground (arith, e))
]

pub unused_some :
    (ls : List VpidLease) (n candidate found : ℕ)
    → first_unused ls n candidate ≡ some found
    → (candidate ≤ found)
      × (found < candidate + n)
      × (is_vpid_used ls found ≡ false)
      × ((vpid : ℕ) → candidate ≤ vpid → vpid < found → is_vpid_used ls vpid ≡ true)
unfolding first_unused
unused_some ls zero candidate found h = absurd (ground arith)
unused_some ls (suc n) candidate found h = elim (Bool-cases (is_vpid_used ls candidate)) [
  | inl e ↦
      let (low, high, free, least) =
        unused_some ls n (suc candidate) found (rw (e, first_unused) at h) in
      (omega arith, omega arith, free, λ vpid. λ above. λ below. ground (arith, e, least vpid))
  | inr e ↦
      let same : candidate ≡ found = ground (arith, e) in
      (omega arith, omega arith, rw (← same) e, λ vpid. λ above. λ below. absurd (omega arith))
]
