-- ===== src/Iommu/Tests.antt =====
-- Runs of the IOMMU model.
use knhv.Prelude.{ℕ, ◌+◌, ◌-◌, ◌≡◌, ◌≢◌, ◌↔◌, ◌⊎◌, refl, true, false, some, List, [], ◌∷◌, bit_and}
use knhv.Prelude.Bits.{any_bits}
use knhv.Prelude.Lists.{replicate}
use knhv.Iommu.Defs.{
  IommuBdf, IommuCapabilities, IommuDeviceProfile, IommuDomain, IommuDmaMapping, IommuAssignment,
  IommuFaultRecord, hit, success, access_write, state_retired, state_quarantined, state_empty,
  status_code,
}
use knhv.Iommu.Validity.{
  is_assignment_valid, is_physical_address, is_iommu_capabilities_valid,
  is_iommu_device_profile_valid, is_iommu_domain_valid,
}
use knhv.Iommu.Dma.{is_iommu_dma_mapping_valid, resolve_nested_dma}
use knhv.Iommu.Resolve.{Reaches, resolve_hit}
use knhv.Iommu.Assignment.{
  blank_assignment, prepare_iommu_assignment, prepared, refusal, contract_refusal, device_refusal,
  kind_refusal,
}
use knhv.Iommu.Lifecycle.{
  Call, activate, begin_detach, quarantine, IsStep, SameIdentity, step, step_cases, run, run_keeps,
}
use knhv.Iommu.Prepare.{IsPrepared, prepare-IsPrepared}

abbrev mapping : ℕ → ℕ → IommuDmaMapping
mapping iova host = record {
  size = 64;
  version = 1;
  iova = iova;
  guest_physical = host;
  host_physical = host;
  page_count = 4;
  page_order = 0;
  permissions = 3;
  flags = 5;
  reserved = 0;
  generation = 2;
}

-- An access at 0x1010 goes to 0x8010 and on to 0x20010.
abbrev l1 : IommuDmaMapping
l1 = mapping 0x1000 0x8000

abbrev root : IommuDmaMapping
root = mapping 0x8000 0x20000

resolve_hit_example :
    let r = resolve_nested_dma (some l1) (some root) 0x1010 access_write 39 in
    ((r.status ≡ hit) ↔ (
      (is_iommu_dma_mapping_valid (some l1) 39 ≡ true)
      × (is_iommu_dma_mapping_valid (some root) 39 ≡ true)
      × Reaches l1 root 0x1010 access_write))
    × (r.status ≡ hit
        → (r.host_physical ≡ 0x20000 + (0x8000 + (0x1010 - 0x1000) - 0x8000))
          × (is_physical_address r.host_physical 39 ≡ true)
          × (r.permissions ≡ bit_and 3 3))
resolve_hit_example = resolve_hit l1 root 0x1010 access_write 39

abbrev bdf : IommuBdf
bdf = record {
  segment = 0;
  bus = 3;
  device = 1;
  function = 0;
  reserved0 = 0;
  reserved1 = 0;
  reserved2 = 0;
}

abbrev assignment : IommuAssignment
assignment = record blank_assignment {
  bdf = bdf;
  reset_method = 1;
  owner_id = 7;
  domain_id = 4;
  generation = 2;
  state = 1;
  flags = 2;
}

assignment_valid : is_assignment_valid assignment ≡ true
unfolding is_assignment_valid any_bits
assignment_valid = refl

step_cases_example :
    ((b : IommuAssignment) × (step assignment (activate 2 0xf) ≡ (true, some b))
      × IsStep assignment (activate 2 0xf) b)
    ⊎ (step assignment (activate 2 0xf) ≡ (false, some assignment))
step_cases_example = step_cases assignment (activate 2 0xf)

abbrev fault : IommuFaultRecord
fault = record {
  size = 56;
  version = 1;
  reason = 2;
  access = 2;
  bdf = bdf;
  reserved = 0;
  address = 0x1000;
  generation = 2;
  sequence = 1;
}

abbrev history : List Call
history = activate 2 0xf ∷ quarantine fault ∷ []

run_keeps_example :
    (is_assignment_valid (run assignment history) ≡ true)
    × SameIdentity assignment (run assignment history)
    × ((((run assignment history).state ≡ state_retired)
          ⊎ ((run assignment history).state ≡ state_quarantined))
        → run (run assignment history) (begin_detach 2 7 ∷ []) ≡ run assignment history)
run_keeps_example = run_keeps assignment history (begin_detach 2 7 ∷ []) assignment_valid

abbrev capabilities : IommuCapabilities
capabilities = record {
  size = 48;
  version = 1;
  feature_flags = 3;
  max_physical_address_bits = 46;
  max_domain_address_bits = 39;
  max_domains = 16;
  max_msix_vectors = 32;
  max_reserved_ranges = 4;
  reserved = 0;
  generation = 2;
}

abbrev profile : IommuDeviceProfile
profile = record {
  size = 160;
  version = 1;
  bdf = bdf;
  isolation_group = 9;
  flags = 0x38;
  reset_method = 1;
  dma_address_bits = 39;
  max_msix_vectors = 0;
  rmrr_count = 0;
  profile_generation = 2;
  rmrr = replicate 4 (record { base = 0; length = 0; flags = 0; reserved = 0 });
  dma_mask = 0x7f_ffff_ffff;
  reserved = 0;
  reserved2 = 0;
}

abbrev domain : IommuDomain
domain = record {
  size = 88;
  version = 1;
  domain_id = 4;
  owner_id = 7;
  parent_domain_id = 0;
  generation = 2;
  kind = 2;
  state = 1;
  flags = 2;
  address_bits = 39;
  guest_base = 0;
  guest_limit = 0xffff;
  mapped_pages = 0;
  reserved = 0;
  reserved2 = 0;
}

prepares :
    prepare_iommu_assignment
      (some capabilities)
      (some profile)
      (some domain)
      7
      2
      (some blank_assignment)
    ≡ (success, some (prepared profile domain 7 2))
unfolding prepare_iommu_assignment refusal contract_refusal device_refusal kind_refusal
    is_iommu_capabilities_valid is_iommu_device_profile_valid is_iommu_domain_valid any_bits
prepares = refl

prepare-IsPrepared_example :
    (success ≡ success → IsPrepared capabilities profile domain 7 2 (prepared profile domain 7 2))
    × (success ≢ success
        → ((prepared profile domain 7 2).state ≡ state_empty)
          × ((prepared profile domain 7 2).status ≡ status_code success))
prepare-IsPrepared_example =
    prepare-IsPrepared capabilities profile domain 7 2 blank_assignment
      (prepared profile domain 7 2) success prepares
