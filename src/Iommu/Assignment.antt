-- ===== src/Iommu/Assignment.antt =====
-- src/iommu/iommu_model.cpp: the life of an assignment, from `PrepareIommuAssignment` to
-- `QuarantineIommuAssignment`.
use knhv.Prelude.{ℕ, ◌+◌, Bool, true, false, not, ◌&&◌, ◌||◌, Option, none, some, bit_and, bit_or}
use knhv.Prelude.Tests.{ltb, ◌==◌, ◌!=◌, if◌then◌else◌}
use knhv.Prelude.Bits.{any_bits, u64, u64_max}
use knhv.Iommu.Defs.{
  iommu_contract_version, iommu_max_physical_address_bits, cap_queued_invalidation,
  cap_interrupt_remapping, cap_nested_translation, cap_ats, cap_pri, cap_pasid, device_host_owned,
  device_system_critical, device_display, device_isolation_complete, device_reset_reliable,
  device_allow_l1, device_allow_l2, device_ats, device_pri, device_pasid, device_has_rmrr,
  device_msix, domain_nested, domain_interrupt_remap, activate_ready_mask, detach_ready_mask,
  complete_detach_ready_mask, assignment_nested, assignment_interrupt_remap, assignment_quarantined,
  kind_host, kind_l1, kind_l2, kind_quarantine, state_empty, state_prepared, state_active,
  state_draining, state_quarantined, state_retired, IommuAssignmentStatus, success,
  invalid_parameter, capability_mismatch, isolation_incomplete, host_owned_device, critical_device,
  reset_unsupported, generation_mismatch, domain_invalid, fault_quarantined, status_code, IommuBdf,
  IommuCapabilities, IommuDeviceProfile, IommuDomain, IommuAssignment, IommuFaultRecord,
}
use knhv.Iommu.Validity.{
  is_assignment_valid, is_iommu_capabilities_valid, is_iommu_device_profile_valid,
  is_iommu_domain_valid, is_iommu_fault_record_valid, is_readiness_valid, is_same_bdf,
}

abbrev pub zero_bdf : IommuBdf
zero_bdf = record {
  segment = 0;
  bus = 0;
  device = 0;
  function = 0;
  reserved0 = 0;
  reserved1 = 0;
  reserved2 = 0;
}

-- The cleared assignment that `PrepareIommuAssignment` starts from.
abbrev pub blank_assignment : IommuAssignment
blank_assignment = record {
  size = 64;
  version = iommu_contract_version;
  status = 0;
  state = state_empty;
  bdf = zero_bdf;
  reset_method = 0;
  flags = 0;
  owner_id = 0;
  domain_id = 0;
  generation = 0;
  fault_count = 0;
}

abbrev pub set_assignment_status : IommuAssignment → IommuAssignmentStatus → IommuAssignment
set_assignment_status a status = record a { status = status_code status; state = state_empty }

-- An early return: the first refusal of a row of tests.
abbrev pub or_else :
    Option IommuAssignmentStatus → Option IommuAssignmentStatus → Option IommuAssignmentStatus
or_else (some status) next = some status
or_else none next = next

-- The tests from the capabilities to the address widths.
unfoldable pub contract_refusal :
    IommuCapabilities → IommuDeviceProfile → IommuDomain → ℕ → ℕ → Option IommuAssignmentStatus
contract_refusal c p d owner_id generation =
    if owner_id == 0 || generation == 0
    then some invalid_parameter
    else if not (is_iommu_capabilities_valid c)
        || not (is_iommu_device_profile_valid p c.max_physical_address_bits)
    then some invalid_parameter
    else if not (is_iommu_domain_valid d c.max_physical_address_bits)
    then some domain_invalid
    else if generation != c.generation
        || generation != p.profile_generation
        || generation != d.generation
    then some generation_mismatch
    else if d.owner_id != owner_id || ltb c.max_domains d.domain_id
    then some domain_invalid
    else if ltb c.max_domain_address_bits p.dma_address_bits
        || any_bits p.flags device_msix && ltb c.max_msix_vectors p.max_msix_vectors
    then some capability_mismatch
    else none

-- The tests on the device, the kind of the domain and the capabilities that every kind needs.
unfoldable pub device_refusal :
    IommuCapabilities → IommuDeviceProfile → IommuDomain → Option IommuAssignmentStatus
device_refusal c p d =
    let required = bit_or cap_queued_invalidation cap_interrupt_remapping in
    if any_bits p.flags device_host_owned
    then some host_owned_device
    else if any_bits p.flags device_system_critical || any_bits p.flags device_display
    then some critical_device
    else if not (any_bits p.flags device_isolation_complete) || p.isolation_group == 0
    then some isolation_incomplete
    else if any_bits p.flags device_has_rmrr
    then some isolation_incomplete
    else if d.kind == kind_host || d.kind == kind_quarantine
    then some domain_invalid
    else if not (any_bits p.flags device_reset_reliable)
    then some reset_unsupported
    else if bit_and c.feature_flags required != required
        || not (any_bits d.flags domain_interrupt_remap)
    then some capability_mismatch
    else none

-- The tests of each kind of domain.
unfoldable pub kind_refusal :
    IommuCapabilities → IommuDeviceProfile → IommuDomain → Option IommuAssignmentStatus
kind_refusal c p d =
    let nested_caps =
      bit_or (bit_or cap_queued_invalidation cap_interrupt_remapping) cap_nested_translation in
    if d.kind == kind_l1
    then (if not (any_bits p.flags device_allow_l1) then some capability_mismatch else none)
    else if d.kind == kind_l2
    then (if bit_and c.feature_flags nested_caps != nested_caps
          || not (any_bits p.flags device_allow_l2)
          || not (any_bits d.flags domain_nested)
        then some capability_mismatch
        else if any_bits p.flags device_ats && not (any_bits c.feature_flags cap_ats)
        then some capability_mismatch
        else if any_bits p.flags device_pri && not (any_bits c.feature_flags cap_pri)
        then some capability_mismatch
        else if any_bits p.flags device_pasid && not (any_bits c.feature_flags cap_pasid)
        then some capability_mismatch
        else none)
    else some domain_invalid

unfoldable pub refusal :
    IommuCapabilities → IommuDeviceProfile → IommuDomain → ℕ → ℕ → Option IommuAssignmentStatus
refusal c p d owner_id generation =
    or_else (contract_refusal c p d owner_id generation)
      (or_else (device_refusal c p d) (kind_refusal c p d))

-- The writes of a successful preparation.
unfoldable pub prepared : IommuDeviceProfile → IommuDomain → ℕ → ℕ → IommuAssignment
prepared p d owner_id generation =
    let nested = if d.kind == kind_l2 then assignment_nested else 0 in
    record blank_assignment {
      bdf = p.bdf;
      reset_method = p.reset_method;
      owner_id = owner_id;
      domain_id = d.domain_id;
      generation = generation;
      state = state_prepared;
      status = status_code success;
      flags =
          if any_bits d.flags domain_interrupt_remap
          then bit_or nested assignment_interrupt_remap
          else nested;
    }

abbrev pub answer :
    Option IommuAssignmentStatus → IommuAssignment → IommuAssignmentStatus × Option IommuAssignment
answer (some status) a = (status, some (set_assignment_status blank_assignment status))
answer none a = (success, some a)

unfoldable pub prepare_iommu_assignment :
    Option IommuCapabilities
    → Option IommuDeviceProfile
    → Option IommuDomain
    → ℕ
    → ℕ
    → Option IommuAssignment
    → IommuAssignmentStatus × Option IommuAssignment
prepare_iommu_assignment c p d owner_id generation none = (invalid_parameter, none)
prepare_iommu_assignment (some c) (some p) (some d) owner_id generation (some _) =
    answer (refusal c p d owner_id generation) (prepared p d owner_id generation)
prepare_iommu_assignment _ _ _ owner_id generation (some _) =
    (invalid_parameter, some (set_assignment_status blank_assignment invalid_parameter))

-- The tests that the three transitions of a healthy assignment share.
unfoldable pub may_advance : IommuAssignment → ℕ → ℕ → ℕ → ℕ → Bool
may_advance a from generation readiness required =
    is_assignment_valid a
    && a.status == status_code success
    && a.state == from
    && a.generation == generation
    && is_readiness_valid readiness required

unfoldable pub activate_iommu_assignment :
    Option IommuAssignment → ℕ → ℕ → Bool × Option IommuAssignment
activate_iommu_assignment none generation readiness = (false, none)
activate_iommu_assignment (some a) generation readiness =
    if may_advance a state_prepared generation readiness activate_ready_mask
    then (true, some (record a { state = state_active }))
    else (false, some a)

unfoldable pub begin_iommu_detach : Option IommuAssignment → ℕ → ℕ → Bool × Option IommuAssignment
begin_iommu_detach none generation readiness = (false, none)
begin_iommu_detach (some a) generation readiness =
    if may_advance a state_active generation readiness detach_ready_mask
    then (true, some (record a { state = state_draining }))
    else (false, some a)

unfoldable pub complete_iommu_detach :
    Option IommuAssignment → ℕ → ℕ → Bool × Option IommuAssignment
complete_iommu_detach none generation readiness = (false, none)
complete_iommu_detach (some a) generation readiness =
    if may_advance a state_draining generation readiness complete_detach_ready_mask
    then (true, some (record a { state = state_retired }))
    else (false, some a)

-- The tests of `QuarantineIommuAssignment` and its writes.
unfoldable pub may_quarantine : IommuAssignment → IommuFaultRecord → Bool
may_quarantine a f =
    is_assignment_valid a
    && is_iommu_fault_record_valid f iommu_max_physical_address_bits
    && a.state != state_retired
    && a.state != state_quarantined
    && is_same_bdf a.bdf f.bdf
    && a.generation == f.generation
    && a.fault_count != u64_max

abbrev pub quarantined_assignment : IommuAssignment → IommuAssignment
quarantined_assignment a = record a {
  fault_count = u64 (a.fault_count + 1);
  flags = bit_or a.flags assignment_quarantined;
  state = state_quarantined;
  status = status_code fault_quarantined;
}

unfoldable pub quarantine_iommu_assignment :
    Option IommuAssignment → Option IommuFaultRecord → Bool × Option IommuAssignment
quarantine_iommu_assignment (some a) (some f) =
    if may_quarantine a f then (true, some (quarantined_assignment a)) else (false, some a)
quarantine_iommu_assignment a _ = (false, a)
