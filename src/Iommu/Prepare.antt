-- ===== src/Iommu/Prepare.antt =====
-- `PrepareIommuAssignment` of src/iommu/iommu_model.cpp: which devices may be handed to a guest.
use knhv.Prelude.{
  ℕ, ◌≡◌, ◌≢◌, ◌⊎◌, inl, inr, refl, ap, ◌∙◌, Bool, true, false, Option, none, some, arith, bit_or,
}
use knhv.Prelude.Tests.{◌==◌, if◌then◌else◌, Option-cases}
use knhv.Prelude.Bits.{any_bits, not32}
use knhv.Iommu.Defs.{
  device_host_owned, device_system_critical, device_display, device_isolation_complete,
  device_reset_reliable, device_has_rmrr, device_allow_l1, device_allow_l2, domain_interrupt_remap,
  domain_nested, kind_l1, kind_l2, state_empty, state_prepared, assignment_nested,
  assignment_interrupt_remap, known_assignment_mask, IommuAssignmentStatus, success, status_code,
  IommuCapabilities, IommuDeviceProfile, IommuDomain, IommuAssignment,
}
use knhv.Iommu.Validity.{
  is_assignment_valid, is_iommu_bdf_valid, is_reset_method_valid, is_iommu_device_profile_valid,
  is_iommu_domain_valid,
}
use knhv.Iommu.Assignment.{
  contract_refusal, device_refusal, kind_refusal, refusal, prepared, prepare_iommu_assignment,
}

profile_parts :
    (p : IommuDeviceProfile) (bits : ℕ)
    → is_iommu_device_profile_valid p bits ≡ true
    → (is_iommu_bdf_valid p.bdf ≡ true) × (is_reset_method_valid p.reset_method ≡ true)
unfolding is_iommu_device_profile_valid
profile_parts p bits h = ground arith

domain_parts : (d : IommuDomain) (bits : ℕ) → is_iommu_domain_valid d bits ≡ true → d.domain_id ≢ 0
unfolding is_iommu_domain_valid
domain_parts d bits h = ground arith

-- What a device must be to be handed out.
pub record IsAssignable (p : IommuDeviceProfile) : Type 0 where
  pub not_host_owned : any_bits p.flags device_host_owned ≡ false
  pub not_critical : any_bits p.flags device_system_critical ≡ false
  pub not_display : any_bits p.flags device_display ≡ false
  pub isolated : any_bits p.flags device_isolation_complete ≡ true
  pub grouped : p.isolation_group ≢ 0
  pub no_reserved_memory : any_bits p.flags device_has_rmrr ≡ false
  pub resettable : any_bits p.flags device_reset_reliable ≡ true

prepared_flags :
    (remap : Bool) (kind : Bool)
    → any_bits
        (if remap
          then bit_or (if kind then assignment_nested else 0) assignment_interrupt_remap
          else if kind
          then assignment_nested
          else 0)
        (not32 known_assignment_mask)
      ≡ false
unfolding any_bits
prepared_flags true true = refl
prepared_flags true false = refl
prepared_flags false true = refl
prepared_flags false false = refl

rebuild_prepared :
    (p : IommuDeviceProfile) (d : IommuDomain) (o g : ℕ)
    → o ≢ 0
    → g ≢ 0
    → d.domain_id ≢ 0
    → is_iommu_bdf_valid p.bdf ≡ true
    → is_reset_method_valid p.reset_method ≡ true
    → is_assignment_valid (prepared p d o g) ≡ true
unfolding prepared is_assignment_valid
rebuild_prepared p d o g owner generation domain bdf reset =
    ground (arith, prepared_flags (any_bits d.flags domain_interrupt_remap) (d.kind == kind_l2))

answer_parts :
    {s t : IommuAssignmentStatus} {a b : IommuAssignment}
    → ◌≡◌ {A = IommuAssignmentStatus × Option IommuAssignment} (s, some a) (t, some b)
    → (s ≡ t) × (a ≡ b)
answer_parts h = ground arith

module _ (c : IommuCapabilities) (p : IommuDeviceProfile) (d : IommuDomain) (o g : ℕ) where
  contract_parts :
      contract_refusal c p d o g ≡ none
      → (o ≢ 0)
        × (g ≢ 0)
        × (is_iommu_device_profile_valid p c.max_physical_address_bits ≡ true)
        × (is_iommu_domain_valid d c.max_physical_address_bits ≡ true)
        × (g ≡ c.generation)
        × (g ≡ p.profile_generation)
        × (g ≡ d.generation)
        × (d.owner_id ≡ o)
  unfolding contract_refusal
  contract_parts h = ground arith

  device_parts :
      device_refusal c p d ≡ none
      → IsAssignable p × (any_bits d.flags domain_interrupt_remap ≡ true)
  unfolding device_refusal
  device_parts h = ground arith

  kind_parts :
      kind_refusal c p d ≡ none
      → ((d.kind ≡ kind_l1) × (any_bits p.flags device_allow_l1 ≡ true))
        ⊎ ((d.kind ≡ kind_l2)
            × (any_bits p.flags device_allow_l2 ≡ true)
            × (any_bits d.flags domain_nested ≡ true))
  unfolding kind_refusal
  kind_parts h = ground arith

  refusal_parts :
      refusal c p d o g ≡ none
      → (contract_refusal c p d o g ≡ none)
        × (device_refusal c p d ≡ none)
        × (kind_refusal c p d ≡ none)
  unfolding refusal
  refusal_parts h = ground arith

  refusal_honest : refusal c p d o g ≢ some success
  unfolding refusal contract_refusal device_refusal kind_refusal
  refusal_honest h = ground arith

  prepared_valid : refusal c p d o g ≡ none → is_assignment_valid (prepared p d o g) ≡ true
  prepared_valid h =
      let (rc, _, _) = refusal_parts h in
      let (owner, generation, profile, domain, _, _, _, _) = contract_parts rc in
      let (bdf, reset) = profile_parts p c.max_physical_address_bits profile in
      rebuild_prepared p d o g owner generation (domain_parts d c.max_physical_address_bits domain)
        bdf reset

-- What a call of `PrepareIommuAssignment` with three structures says by its answer.
pub record IsPrepared (c : IommuCapabilities) (p : IommuDeviceProfile) (d : IommuDomain) (o g : ℕ)
    (a : IommuAssignment) : Type 0 where
  pub valid : is_assignment_valid a ≡ true
  pub state : a.state ≡ state_prepared
  pub device : IsAssignable p
  pub remapped : any_bits d.flags domain_interrupt_remap ≡ true
  pub kind :
      ((d.kind ≡ kind_l1) × (any_bits p.flags device_allow_l1 ≡ true))
      ⊎ ((d.kind ≡ kind_l2)
          × (any_bits p.flags device_allow_l2 ≡ true)
          × (any_bits d.flags domain_nested ≡ true))
  pub generations : (g ≡ c.generation) × (g ≡ p.profile_generation) × (g ≡ d.generation)
  pub owner : (a.owner_id ≡ o) × (d.owner_id ≡ o)
  pub identity : (a.bdf ≡ p.bdf) × (a.domain_id ≡ d.domain_id) × (a.generation ≡ g)

passed-IsPrepared :
    (c : IommuCapabilities) (p : IommuDeviceProfile) (d : IommuDomain) (o g : ℕ)
    → refusal c p d o g ≡ none
    → IsPrepared c p d o g (prepared p d o g)
passed-IsPrepared c p d o g h =
    let (rc, rd, rk) = refusal_parts c p d o g h in
    let (_, _, _, _, gc, gp, gd, owner) = contract_parts c p d o g rc in
    let (device, remapped) = device_parts c p d o g rd in
    record {
      valid = prepared_valid c p d o g h;
      state = unfold prepared in refl;
      device = device;
      remapped = remapped;
      kind = kind_parts c p d o g rk;
      generations = (gc, gp, gd);
      owner = unfold prepared in (refl, owner);
      identity = unfold prepared in (refl, refl, refl);
    }

-- A preparation that answers success leaves a valid assignment in the prepared state, of the device,
-- domain, owner and generation that were given; the device is not the host's, not critical, no
-- display, isolated in a group, free of reserved memory and resettable, the domain remaps interrupts
-- and the device allows its kind. Any other answer leaves an empty assignment with that status.
pub prepare-IsPrepared :
    (c : IommuCapabilities) (p : IommuDeviceProfile) (d : IommuDomain) (o g : ℕ)
    (out a : IommuAssignment) (status : IommuAssignmentStatus)
    → prepare_iommu_assignment (some c) (some p) (some d) o g (some out) ≡ (status, some a)
    → (status ≡ success → IsPrepared c p d o g a)
      × (status ≢ success → (a.state ≡ state_empty) × (a.status ≡ status_code status))
unfolding prepare_iommu_assignment
prepare-IsPrepared c p d o g out a status h = elim (Option-cases (refusal c p d o g)) [
  | inl none_left ↦
      let (e₁, e₂) = answer_parts (rw none_left at h) in
      rw (← e₁, ← e₂) (λ _. passed-IsPrepared c p d o g none_left, λ q. absurd (q refl))
  | inr (r, e) ↦
      let (e₁, e₂) = answer_parts (rw e at h) in
      rw (← e₁, ← e₂) (λ q. absurd (refusal_honest c p d o g (e ∙ ap some q)), λ _. (refl, refl))
]
