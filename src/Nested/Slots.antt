-- ===== src/Nested/Slots.antt =====
-- The slots of src/nested/nested_vmcs.cpp: what a change of one of them does to the searches.
use knhv.Prelude.{
  ℕ, zero, suc, ◌<◌, ◌≡◌, refl, sym, ◌∙◌, ◌≢◌, inl, inr, Bool, true, none, some, List, [], ◌∷◌,
  arith,
}
use knhv.Prelude.Tests.{◌==◌, Bool-cases, Option-cases}
use knhv.Prelude.Lists.{length, get_or, set, get_or-set, get_or-set_other}
use knhv.Nested.Defs.{NestedVmcs12}
use knhv.Nested.Store.{find_slot, is_region, find_vmcs}
use knhv.Nested.Vcpu.{blank_vmcs}

abbrev pub at : List NestedVmcs12 → ℕ → NestedVmcs12
at ms i = get_or ms i blank_vmcs

pub at-set :
    (ms : List NestedVmcs12) (i : ℕ) (m : NestedVmcs12) → i < length ms → at (set ms i m) i ≡ m
at-set ms i m h = get_or-set ms i m blank_vmcs h

pub at-set_other :
    (ms : List NestedVmcs12) (i j : ℕ) (m : NestedVmcs12) → j ≢ i → at (set ms i m) j ≡ at ms j
at-set_other ms i j m h = get_or-set_other ms i j m blank_vmcs h

-- A found slot is there and passes the test.
pub find_slot-some :
    (test : NestedVmcs12 → Bool) (ms : List NestedVmcs12) (i : ℕ)
    → find_slot test ms ≡ some i
    → (i < length ms) × (test (at ms i) ≡ true)
unfolding find_slot
find_slot-some test [] i h = absurd (ground arith)
find_slot-some test (m ∷ ms) i h = elim (Bool-cases (test m)) [
  | inl e ↦ let first : i ≡ 0 = ground (arith, rw e at h) in rw first (omega arith, e)
  | inr e ↦ elim (Option-cases (find_slot test ms)) [
    | inl f ↦ absurd (ground (arith, rw (e, f) at h))
    | inr (k, f) ↦
        let (low, passed) = find_slot-some test ms k f in
        let next : i ≡ suc k = ground (arith, rw (e, f) at h) in rw next (omega arith, passed)
  ]
]

-- A change that the test does not see does not move what it finds.
pub find_slot-set :
    (test : NestedVmcs12 → Bool) (ms : List NestedVmcs12) (i : ℕ) (m : NestedVmcs12)
    → test m ≡ test (at ms i)
    → find_slot test (set ms i m) ≡ find_slot test ms
unfolding find_slot
find_slot-set test [] i m same = refl
find_slot-set test (x ∷ ms) zero m same = rw same refl
find_slot-set test (x ∷ ms) (suc i) m same = rw (find_slot-set test ms i m same) refl

-- A slot that comes to pass a test that none passed is what the test finds.
pub find_slot-set_new :
    (test : NestedVmcs12 → Bool) (ms : List NestedVmcs12) (i : ℕ) (m : NestedVmcs12)
    → find_slot test ms ≡ none
    → i < length ms
    → test m ≡ true
    → find_slot test (set ms i m) ≡ some i
unfolding find_slot
find_slot-set_new test [] i m h low passed = absurd (omega arith)
find_slot-set_new test (x ∷ ms) zero m h low passed = rw passed refl
find_slot-set_new test (x ∷ ms) (suc i) m h low passed = elim (Bool-cases (test x)) [
  | inl e ↦ absurd (ground (arith, rw e at h))
  | inr e ↦ elim (Option-cases (find_slot test ms)) [
    | inl f ↦ rw (e, find_slot-set_new test ms i m f (omega arith) passed) refl
    | inr (k, f) ↦ absurd (ground (arith, rw (e, f) at h))
  ]
]

-- What is found is found in its own place: no two slots hold one region.
abbrev pub IsUnique : List NestedVmcs12 → Type 0
IsUnique ms = (g j : ℕ) → is_region g (at ms j) ≡ true → find_vmcs ms g ≡ some j

-- A slot that holds the region of another.
abbrev pub SameRegion : NestedVmcs12 → NestedVmcs12 → Type 0
SameRegion m n = (g : ℕ) → is_region g n ≡ is_region g m

pub find_vmcs-set :
    (ms : List NestedVmcs12) (i : ℕ) (m : NestedVmcs12) (g : ℕ)
    → is_region g m ≡ is_region g (at ms i)
    → find_vmcs (set ms i m) g ≡ find_vmcs ms g
unfolding find_vmcs
find_vmcs-set ms i m g same = find_slot-set (is_region g) ms i m same

pub set-IsUnique :
    (ms : List NestedVmcs12) (i : ℕ) (m : NestedVmcs12)
    → i < length ms
    → SameRegion (at ms i) m
    → IsUnique ms
    → IsUnique (set ms i m)
set-IsUnique ms i m low same u g j h =
    find_vmcs-set ms i m g (same g) ∙ elim (Bool-cases (j == i)) [
      | inl e ↦
          let here : j ≡ i = ground arith in
          u g j (rw here (sym (same g) ∙ rw (here, at-set ms i m low) at h))
      | inr e ↦ let there : j ≢ i = ground arith in u g j (rw (at-set_other ms i j m there) at h)
    ]
