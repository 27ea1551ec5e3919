-- ===== src/Nested/Region.antt =====
-- src/nested/nested_vmcs.cpp: the memory operand that names a VMX region, and the initial processor.
use knhv.Prelude.{
  ℕ, zero, suc, ◌+◌, ◌-◌, ◌*◌, ◌/◌, ◌%◌, bit_and, bit_or, Bool, true, false, not, ◌&&◌, Option,
  none, some, List, [], ◌∷◌,
}
use knhv.Prelude.Tests.{ltb, leb, ◌==◌, if◌then◌else◌}
use knhv.Prelude.Bits.{u64_max, not32, any_bits}
use knhv.Prelude.Lists.{replicate}
use knhv.Abi.{is_versioned_buffer_valid}
use knhv.Nested.Defs.{
  nested_model_version, nested_vmcs_slots, nested_page_size, nested_vmx_revision_mask,
  nested_secondary_enable_ept, nested_secondary_enable_vpid, nested_secondary_enable_vmfunc,
  memory_read, NestedCapabilities, NestedVmcs12,
}
use knhv.Nested.Rules.{primary_activate_secondary}
use knhv.Nested.Store.{is_linear_range_canonical, is_physical_address, is_aligned_page}
use knhv.Nested.Memory.{NestedMemory, read_linear}
use knhv.Nested.Vcpu.{NestedVcpu, blank_vmcs}

-- A word from its bytes, the lowest first, and back.
abbrev pub from_bytes : List ℕ → ℕ
from_bytes [] = 0
from_bytes (b ∷ bs) = b + 256 * from_bytes bs

abbrev pub to_bytes : ℕ → ℕ → List ℕ
to_bytes zero value = []
to_bytes (suc n) value = value % 256 ∷ to_bytes n (value / 256)

unfoldable pub is_revision_valid : NestedCapabilities → ℕ → Bool
is_revision_valid c revision =
    not (any_bits revision (not32 nested_vmx_revision_mask))
    && bit_and revision nested_vmx_revision_mask == bit_and c.vmx_revision nested_vmx_revision_mask

unfoldable pub is_region_address : NestedCapabilities → ℕ → Bool
unfolding is_aligned_page is_physical_address
is_region_address c region =
    is_aligned_page region
    && is_physical_address region c.max_physical_address_bits
    && leb region (u64_max - (nested_page_size - 1))
    && is_physical_address (region + (nested_page_size - 1)) c.max_physical_address_bits

unfoldable pub initialize_capabilities_internal : NestedCapabilities
initialize_capabilities_internal = record {
  version = nested_model_version;
  size = 112;
  feature_bits = 0x2F;
  vmx_revision = 1;
  max_physical_address_bits = 48;
  linear_address_bits = 48;
  eptp_list_entries = 4;
  vpid_count = 64;
  pin_allowed0 = 0;
  pin_allowed1 = 0xE9;
  primary_allowed0 = 0;
  primary_allowed1 = bit_or primary_activate_secondary 0x40000000;
  secondary_allowed0 = 0;
  secondary_allowed1 =
      bit_or (bit_or nested_secondary_enable_ept nested_secondary_enable_vpid)
        nested_secondary_enable_vmfunc;
  exit_allowed0 = 0;
  exit_allowed1 = 0x3F6DFF;
  entry_allowed0 = 0;
  entry_allowed1 = 0x1811FF;
  cr0_fixed0 = 0;
  cr0_fixed1 = u64_max;
  cr4_fixed0 = 0;
  cr4_fixed1 = u64_max;
}

-- The capabilities that `InitializeNestedVcpu` takes: the given ones under their version and size, or
-- its own.
unfoldable pub chosen_capabilities : Option NestedCapabilities → NestedCapabilities
unfolding is_versioned_buffer_valid initialize_capabilities_internal
chosen_capabilities none = initialize_capabilities_internal
chosen_capabilities (some c) =
    if is_versioned_buffer_valid c.version c.size 112 then c else initialize_capabilities_internal

-- A slot as the initialisation leaves it.
abbrev pub empty_slot : Option NestedCapabilities → NestedVmcs12
empty_slot c = record blank_vmcs {
  revision = bit_and (chosen_capabilities c).vmx_revision nested_vmx_revision_mask;
}

module _ {S : Type 0} where
  -- The loop of `ValidateVmxRegion` over the page, in chunks of 64 bytes, on fuel.
  unfoldable pub is_region_readable : ℕ → (S → ℕ → ℕ → Option (List ℕ)) → S → ℕ → ℕ → Bool
  is_region_readable zero read s region offset = leb nested_page_size offset
  is_region_readable (suc fuel) read s region offset =
      let remaining = nested_page_size - offset in
      let chunk = if ltb remaining 64 then remaining else 64 in
      let rest = is_region_readable fuel read s region (offset + chunk) in
      if leb nested_page_size offset
      then true
      else elim (read s (region + offset) chunk) [ none ↦ false | some bytes ↦ rest ]

  -- The tests of `ValidateVmxRegion` on the region's bytes: 64 turns cover a page from its 4th byte on.
  unfoldable pub is_region_valid : NestedCapabilities → NestedMemory S → ℕ → Bool
  unfolding is_region_address is_region_readable is_revision_valid
  is_region_valid c m region = is_region_address c region && elim m.read [
    | none ↦ false
    | some read ↦ elim (read m.context region 4) [
      | none ↦ false
      | some bytes ↦
          is_region_readable 64 read m.context region 4 && is_revision_valid c (from_bytes bytes)
    ]
  ]

  -- The region of `ValidateVmxRegion`, or `none` where it returns false.
  unfoldable pub validate_vmx_region : NestedVcpu S → ℕ → Option ℕ
  unfolding is_linear_range_canonical read_linear is_region_valid
  validate_vmx_region v operand_linear =
      if not (is_linear_range_canonical v.capabilities operand_linear 8)
      then none
      else elim (read_linear v.memory operand_linear 8 memory_read) [
        | none ↦ none
        | some bytes ↦
            if is_region_valid v.capabilities v.memory (from_bytes bytes)
            then some (from_bytes bytes)
            else none
      ]

  -- `InitializeNestedVcpu`; a null memory is one without callbacks.
  unfoldable pub initialize_nested_vcpu : Option NestedCapabilities → NestedMemory S → NestedVcpu S
  unfolding chosen_capabilities
  initialize_nested_vcpu c memory = record {
    version = nested_model_version;
    size = 12992;
    capabilities = chosen_capabilities c;
    memory = memory;
    vmxon_active = 0;
    l2_running = 0;
    vmxe_enabled = 0;
    reserved = 0;
    vmxon_gpa = 0;
    current_vmcs_gpa = u64_max;
    instruction_error = 0;
    generation = 1;
    vmcs_count = 0;
    eptp_index = 0;
    vmcs = replicate nested_vmcs_slots (empty_slot c);
  }
