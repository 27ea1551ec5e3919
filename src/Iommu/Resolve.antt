-- ===== src/Iommu/Resolve.antt =====
-- What `ResolveNestedDma` of src/iommu/iommu_model.cpp lets a device reach.
use knhv.Prelude.{
  ℕ, ◌+◌, ◌-◌, ◌*◌, ◌^◌, ◌≤◌, ◌<◌, ◌≡◌, ◌↔◌, inl, inr, refl, ap, ◌∙◌, true, false, some, arith,
  bit_and,
}
use knhv.Prelude.Tests.{Option-cases}
use knhv.Prelude.Bits.{any_bits}
use knhv.Prelude.Power.{quotient_zero}
use knhv.Iommu.Defs.{IommuDmaMapping, hit, mapping_host_owned}
use knhv.Iommu.Validity.{is_physical_address, checked_add, is_last_address, mapping_span}
use knhv.Iommu.Dma.{
  make_dma_result, is_span_valid, is_iommu_dma_mapping_valid, iommu_dma_mapping_contains,
  is_iommu_dma_access_allowed, resolve_root, resolve_nested_dma,
}

-- The bytes of a mapping.
abbrev pub span_bytes : IommuDmaMapping → ℕ
span_bytes m = m.page_count * 2 ^ (12 + m.page_order * 9)

-- An address that the device may present to a mapping.
abbrev pub Covers : IommuDmaMapping → ℕ → Type 0
Covers m iova = (m.iova ≤ iova) × (iova < m.iova + span_bytes m)

mapping_span-some :
    (m : IommuDmaMapping) {page_size span : ℕ}
    → mapping_span m ≡ some (page_size, span)
    → (span ≡ span_bytes m) × (0 < span)
unfolding mapping_span
mapping_span-some m h = ground arith

valid_span :
    (m : IommuDmaMapping) (bits : ℕ)
    → is_iommu_dma_mapping_valid (some m) bits ≡ true
    → (p : ℕ × ℕ) × (mapping_span m ≡ some p)
      × (p.1 ≡ span_bytes m)
      × (0 < p.1)
      × (is_span_valid m p.0 p.1 bits ≡ true)
unfolding is_iommu_dma_mapping_valid
valid_span m bits v = elim (Option-cases (mapping_span m)) [
  | inl e ↦ absurd (ground (arith, e))
  | inr (p, e) ↦
      let (f, g) = mapping_span-some m {page_size = p.0} {span = p.1} e in
      (p, e, f, g, ground (arith, e))
]

contains-Covers :
    (m : IommuDmaMapping) (iova bits : ℕ)
    → is_iommu_dma_mapping_valid (some m) bits ≡ true
    → (iommu_dma_mapping_contains (some m) iova bits ≡ true) ↔ Covers m iova
unfolding iommu_dma_mapping_contains
contains-Covers m iova bits v =
    let (p, e, f, g, _) = valid_span m bits v in rw (v, e) (λ h. ground arith, λ h. ground arith)

span_last :
    (m : IommuDmaMapping) (page_size span bits : ℕ)
    → is_span_valid m page_size span bits ≡ true
    → (is_last_address m.guest_physical (span - 1) bits ≡ true)
      × (is_last_address m.host_physical (span - 1) bits ≡ true)
unfolding is_span_valid
span_last m page_size span bits v = ground arith

-- The target of the first byte of a mapping and of every further one fits, also as an address.
fits :
    (base extent offset bits : ℕ)
    → is_last_address base (extent - 1) bits ≡ true
    → offset < extent
    → (checked_add base offset ≡ some (base + offset))
      × (is_physical_address (base + offset) bits ≡ true)
unfolding is_last_address checked_add is_physical_address
fits base extent offset bits h below =
    ground (arith, quotient_zero (base + offset) (base + (extent - 1)) (2 ^ bits))

mapping_targets :
    (m : IommuDmaMapping) (bits offset : ℕ)
    → is_iommu_dma_mapping_valid (some m) bits ≡ true
    → offset < span_bytes m
    → (checked_add m.guest_physical offset ≡ some (m.guest_physical + offset))
      × (checked_add m.host_physical offset ≡ some (m.host_physical + offset))
      × (is_physical_address (m.host_physical + offset) bits ≡ true)
mapping_targets m bits offset v below =
    let (p, e, f, g, ok) = valid_span m bits v in
    let (guest, host) = span_last m p.0 p.1 bits ok in
    let (a, _) = fits m.guest_physical (p.1) offset bits guest (omega arith) in
    let (b, c) = fits m.host_physical (p.1) offset bits host (omega arith) in (a, b, c)

-- What the two mappings and the access must satisfy for the access to reach memory, and where it ends.
pub record Reaches (l1 root : IommuDmaMapping) (iova access : ℕ) : Type 0 where
  pub same_generation : l1.generation ≡ root.generation
  pub guest_owned : any_bits l1.flags mapping_host_owned ≡ false
  pub root_guest_owned : any_bits root.flags mapping_host_owned ≡ false
  pub covered : Covers l1 iova
  pub root_covered : Covers root (l1.guest_physical + (iova - l1.iova))
  pub allowed : is_iommu_dma_access_allowed l1.permissions access ≡ true
  pub root_allowed : is_iommu_dma_access_allowed root.permissions access ≡ true

module _ (l1 root : IommuDmaMapping) (iova access bits : ℕ) where
  abbrev pub guest : ℕ
  guest = l1.guest_physical + (iova - l1.iova)

  first_needs :
      (resolve_nested_dma (some l1) (some root) iova access bits).status ≡ hit
      → (is_iommu_dma_mapping_valid (some l1) bits ≡ true)
        × (is_iommu_dma_mapping_valid (some root) bits ≡ true)
        × (l1.generation ≡ root.generation)
        × (any_bits l1.flags mapping_host_owned ≡ false)
        × (iommu_dma_mapping_contains (some l1) iova bits ≡ true)
        × (is_iommu_dma_access_allowed l1.permissions access ≡ true)
  unfolding resolve_nested_dma
  first_needs h = ground arith

  first_stage :
      is_iommu_dma_mapping_valid (some l1) bits ≡ true
      → is_iommu_dma_mapping_valid (some root) bits ≡ true
      → l1.generation ≡ root.generation
      → any_bits l1.flags mapping_host_owned ≡ false
      → Covers l1 iova
      → is_iommu_dma_access_allowed l1.permissions access ≡ true
      → resolve_nested_dma (some l1) (some root) iova access bits
        ≡ resolve_root l1 root guest access bits
  unfolding resolve_nested_dma
  first_stage v w same owned covered allowed =
      let inside = (contains-Covers l1 iova bits v).1 covered in
      let (sum, _, _) = mapping_targets l1 bits (iova - l1.iova) v (omega arith) in
      ground (arith, inside, sum)

  root_needs :
      (resolve_root l1 root guest access bits).status ≡ hit
      → (iommu_dma_mapping_contains (some root) guest bits ≡ true)
        × (any_bits root.flags mapping_host_owned ≡ false)
        × (is_iommu_dma_access_allowed root.permissions access ≡ true)
  unfolding resolve_root
  root_needs h = ground arith

  root_stage :
      is_iommu_dma_mapping_valid (some root) bits ≡ true
      → any_bits root.flags mapping_host_owned ≡ false
      → Covers root guest
      → is_iommu_dma_access_allowed root.permissions access ≡ true
      → (resolve_root l1 root guest access bits
          ≡ make_dma_result hit
              (bit_and l1.permissions root.permissions)
              (root.host_physical + (guest - root.iova))
              root.generation)
        × (is_physical_address (root.host_physical + (guest - root.iova)) bits ≡ true)
  unfolding resolve_root
  root_stage w owned covered allowed =
      let inside = (contains-Covers root guest bits w).1 covered in
      let (_, sum, fit) = mapping_targets root bits (guest - root.iova) w (omega arith) in
      (rw (inside, owned, allowed, sum, fit), fit)

  hit-Reaches :
      (resolve_nested_dma (some l1) (some root) iova access bits).status ≡ hit
      → (is_iommu_dma_mapping_valid (some l1) bits ≡ true)
        × (is_iommu_dma_mapping_valid (some root) bits ≡ true)
        × Reaches l1 root iova access
  hit-Reaches h =
      let (v, w, same, owned, inside, allowed) = first_needs h in
      let covered = (contains-Covers l1 iova bits v).0 inside in
      let (inside', owned', allowed') =
        root_needs (rw (first_stage v w same owned covered allowed) at h) in
      (
        v,
        w,
        record {
          same_generation = same;
          guest_owned = owned;
          root_guest_owned = owned';
          covered = covered;
          root_covered = (contains-Covers root guest bits w).0 inside';
          allowed = allowed;
          root_allowed = allowed';
        },
      )

  Reaches-hit :
      is_iommu_dma_mapping_valid (some l1) bits ≡ true
      → is_iommu_dma_mapping_valid (some root) bits ≡ true
      → Reaches l1 root iova access
      → (resolve_nested_dma (some l1) (some root) iova access bits
          ≡ make_dma_result hit
              (bit_and l1.permissions root.permissions)
              (root.host_physical + (guest - root.iova))
              root.generation)
        × (is_physical_address (root.host_physical + (guest - root.iova)) bits ≡ true)
  Reaches-hit v w r =
      let (e, f) = root_stage w r.root_guest_owned r.root_covered r.root_allowed in
      (first_stage v w r.same_generation r.guest_owned r.covered r.allowed ∙ e, f)

  -- An access reaches memory exactly where both mappings are valid and of one generation, neither is
  -- the host's, each covers the address that it is given, and both allow the access; the host address
  -- is then the composition of the two offsets, a physical address, under the permissions of both.
  pub resolve_hit :
      let r = resolve_nested_dma (some l1) (some root) iova access bits in
      ((r.status ≡ hit) ↔ (
        (is_iommu_dma_mapping_valid (some l1) bits ≡ true)
        × (is_iommu_dma_mapping_valid (some root) bits ≡ true)
        × Reaches l1 root iova access))
      × (r.status ≡ hit
          → (r.host_physical ≡ root.host_physical + (guest - root.iova))
            × (is_physical_address r.host_physical bits ≡ true)
            × (r.permissions ≡ bit_and l1.permissions root.permissions))
  resolve_hit = (
    (hit-Reaches, λ h. ap (λ t. t.status) (Reaches-hit h.0 h.1 h.2).0),
    λ h. let (v, w, r) = hit-Reaches h in let (e, f) = Reaches-hit v w r in rw e (refl, f, refl),
  )
