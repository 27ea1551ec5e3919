-- ===== src/Ept/Resolve.antt =====
-- What `ResolveNestedEpt` of src/ept/ept_model.cpp lets a nested guest reach.
use knhv.Prelude.{
  ℕ, ◌+◌, ◌-◌, ◌*◌, ◌^◌, ◌≤◌, ◌<◌, bit_and, ◌≡◌, refl, ap, ◌∙◌, ◌≢◌, ◌↔◌, inl, inr, Bool, true,
  false, not, ◌||◌, some, arith,
}
use knhv.Prelude.Tests.{◌!=◌, if◌then◌else◌, Option-cases}
use knhv.Prelude.Bits.{any_bits}
use knhv.Prelude.Power.{quotient_zero}
use knhv.Ept.Defs.{
  ept_max_physical_address_bits, ept_mapping_flag_host_owned, hit, EptMapping, EptLookupResult,
}
use knhv.Ept.Validity.{
  is_physical_address, checked_add, is_last_address, mapping_span, is_span_valid,
  is_ept_mapping_valid, ept_mapping_contains, is_ept_access_allowed,
}
use knhv.Ept.Lookup.{make_lookup, resolve_root, resolve_nested_ept}

-- The bytes of a mapping.
abbrev pub span_bytes : EptMapping → ℕ
span_bytes m = m.page_count * 2 ^ (12 + m.page_order * 9)

-- An address of the guest that a mapping translates.
abbrev pub Covers : EptMapping → ℕ → Type 0
Covers m address = (m.guest_physical ≤ address) × (address < m.guest_physical + span_bytes m)

mapping_span-some :
    (m : EptMapping) {page_size span : ℕ}
    → mapping_span m ≡ some (page_size, span)
    → (span ≡ span_bytes m) × (0 < span)
unfolding mapping_span
mapping_span-some m h = ground arith

valid_span :
    (m : EptMapping) (bits : ℕ)
    → is_ept_mapping_valid (some m) bits ≡ true
    → (p : ℕ × ℕ) × (mapping_span m ≡ some p)
      × (p.1 ≡ span_bytes m)
      × (0 < p.1)
      × (is_span_valid m p.0 p.1 bits ≡ true)
unfolding is_ept_mapping_valid
valid_span m bits v = elim (Option-cases (mapping_span m)) [
  | inl e ↦ absurd (ground (arith, e))
  | inr (p, e) ↦
      let (f, g) = mapping_span-some m {page_size = p.0} {span = p.1} e in
      (p, e, f, g, ground (arith, e))
]

abbrev pub Valid : EptMapping → Type 0
Valid m = is_ept_mapping_valid (some m) ept_max_physical_address_bits ≡ true

contains-Covers :
    (m : EptMapping) (address : ℕ)
    → Valid m
    → (ept_mapping_contains (some m) address ≡ true) ↔ Covers m address
unfolding ept_mapping_contains
contains-Covers m address v =
    let (p, e, f, g, _) = valid_span m ept_max_physical_address_bits v in
    rw (v, e) (λ h. ground arith, λ h. ground arith)

host_last :
    (m : EptMapping) (page_size span bits : ℕ)
    → is_span_valid m page_size span bits ≡ true
    → is_last_address m.host_physical (span - 1) bits ≡ true
unfolding is_span_valid
host_last m page_size span bits v = ground arith

-- The sum for a byte of a range is in 64 bits and an address, since it is for the last byte.
fits :
    (base extent offset bits : ℕ)
    → is_last_address base (extent - 1) bits ≡ true
    → offset < extent
    → (checked_add base offset ≡ some (base + offset))
      × (is_physical_address (base + offset) bits ≡ true)
unfolding is_last_address checked_add is_physical_address
fits base extent offset bits h below =
    ground (arith, quotient_zero (base + offset) (base + (extent - 1)) (2 ^ bits))

host_target :
    (m : EptMapping) (offset : ℕ)
    → Valid m
    → offset < span_bytes m
    → (checked_add m.host_physical offset ≡ some (m.host_physical + offset))
      × (is_physical_address (m.host_physical + offset) ept_max_physical_address_bits ≡ true)
host_target m offset v below =
    let (p, e, f, g, ok) = valid_span m ept_max_physical_address_bits v in
    fits m.host_physical (p.1) offset ept_max_physical_address_bits
      (host_last m p.0 p.1 ept_max_physical_address_bits ok) (omega arith)

-- A lookup that hits has passed a guard whose refusal is no hit.
passed_by :
    (b : Bool) (refused r : EptLookupResult)
    → refused.status ≢ hit
    → (if b then refused else r).status ≡ hit
    → (b ≡ false) × (r.status ≡ hit)
passed_by true refused r miss h = absurd (miss h)
passed_by false refused r miss h = (refl, h)

pass : (a : Bool) → not a ≡ false → a ≡ true
pass a h = ground arith

both_pass : (a b : Bool) → (not a || not b) ≡ false → (a ≡ true) × (b ≡ true)
both_pass a b h = ground arith

equal_pass : (a b : ℕ) → (a != b) ≡ false → a ≡ b
equal_pass a b h = ground arith

-- What the two mappings and the access must satisfy for the access to reach memory.
pub record Reaches (l1 root : EptMapping) (address access : ℕ) : Type 0 where
  pub l1_valid : Valid l1
  pub root_valid : Valid root
  pub same_generation : l1.generation ≡ root.generation
  pub covered : Covers l1 address
  pub allowed : is_ept_access_allowed l1.permissions access ≡ true
  pub root_covered : Covers root (l1.host_physical + (address - l1.guest_physical))
  pub guest_owned : any_bits root.flags ept_mapping_flag_host_owned ≡ false
  pub root_allowed : is_ept_access_allowed root.permissions access ≡ true

module _ (l1 root : EptMapping) (address access : ℕ) where
  abbrev guest : ℕ
  guest = l1.host_physical + (address - l1.guest_physical)

  abbrev host : ℕ
  host = root.host_physical + (guest - root.guest_physical)

  first_needs :
      (resolve_nested_ept (some l1) (some root) address access).status ≡ hit
      → Valid l1
        × Valid root
        × (l1.generation ≡ root.generation)
        × (ept_mapping_contains (some l1) address ≡ true)
        × (is_ept_access_allowed l1.permissions access ≡ true)
  unfolding resolve_nested_ept
  first_needs h =
      let (valid, h1) = passed_by _ _ _ (omega arith) h in
      let (same, h2) = passed_by _ _ _ (omega arith) h1 in
      let (inside, h3) = passed_by _ _ _ (omega arith) h2 in
      let (allowed, _) = passed_by _ _ _ (omega arith) h3 in
      let (v, w) =
        both_pass (is_ept_mapping_valid (some l1) ept_max_physical_address_bits)
          (is_ept_mapping_valid (some root) ept_max_physical_address_bits) valid in
      (
        v,
        w,
        equal_pass l1.generation root.generation same,
        pass (ept_mapping_contains (some l1) address) inside,
        pass (is_ept_access_allowed l1.permissions access) allowed,
      )

  first_stage :
      Valid l1
      → Valid root
      → l1.generation ≡ root.generation
      → Covers l1 address
      → is_ept_access_allowed l1.permissions access ≡ true
      → resolve_nested_ept (some l1) (some root) address access ≡ resolve_root l1 root guest access
  unfolding resolve_nested_ept
  first_stage v w same covered allowed =
      let inside = (contains-Covers l1 address v).1 covered in
      let (sum, _) = host_target l1 (address - l1.guest_physical) v (omega arith) in
      ground (arith, inside, sum)

  root_needs :
      (resolve_root l1 root guest access).status ≡ hit
      → (ept_mapping_contains (some root) guest ≡ true)
        × (any_bits root.flags ept_mapping_flag_host_owned ≡ false)
        × (is_ept_access_allowed root.permissions access ≡ true)
  unfolding resolve_root
  root_needs h = ground arith

  root_stage :
      Valid root
      → any_bits root.flags ept_mapping_flag_host_owned ≡ false
      → Covers root guest
      → is_ept_access_allowed root.permissions access ≡ true
      → (resolve_root l1 root guest access
          ≡ make_lookup hit (bit_and l1.permissions root.permissions) host root.generation)
        × (is_physical_address host ept_max_physical_address_bits ≡ true)
  unfolding resolve_root
  root_stage w owned covered allowed =
      let inside = (contains-Covers root guest w).1 covered in
      let (sum, fit) = host_target root (guest - root.guest_physical) w (omega arith) in
      (rw (inside, owned, allowed, sum) refl, fit)

  hit-Reaches :
      (resolve_nested_ept (some l1) (some root) address access).status ≡ hit
      → Reaches l1 root address access
  hit-Reaches h =
      let (v, w, same, inside, allowed) = first_needs h in
      let covered = (contains-Covers l1 address v).0 inside in
      let (inside', owned, allowed') =
        root_needs (rw (first_stage v w same covered allowed) at h) in
      record {
        l1_valid = v;
        root_valid = w;
        same_generation = same;
        covered = covered;
        allowed = allowed;
        root_covered = (contains-Covers root guest w).0 inside';
        guest_owned = owned;
        root_allowed = allowed';
      }

  Reaches-hit :
      Reaches l1 root address access
      → (resolve_nested_ept (some l1) (some root) address access
          ≡ make_lookup hit (bit_and l1.permissions root.permissions) host root.generation)
        × (is_physical_address host ept_max_physical_address_bits ≡ true)
  Reaches-hit r =
      let (e, f) = root_stage r.root_valid r.guest_owned r.root_covered r.root_allowed in
      (first_stage r.l1_valid r.root_valid r.same_generation r.covered r.allowed ∙ e, f)

  -- A lookup hits exactly where both mappings are valid and of one generation, each covers the address
  -- that it is given and allows the access, and the root's is not the host's; the host address is then
  -- the composition of the two offsets, a physical address, under the permissions of both.
  pub resolve_nested_ept_lem :
      let r = resolve_nested_ept (some l1) (some root) address access in
      ((r.status ≡ hit) ↔ Reaches l1 root address access)
      × (r.status ≡ hit
          → (r.host_physical ≡ host)
            × (is_physical_address r.host_physical ept_max_physical_address_bits ≡ true)
            × (r.permissions ≡ bit_and l1.permissions root.permissions))
  resolve_nested_ept_lem = (
    (hit-Reaches, λ h. ap (λ t. t.status) (Reaches-hit h).0),
    λ h. let (e, f) = Reaches-hit (hit-Reaches h) in rw e (refl, f, refl),
  )
