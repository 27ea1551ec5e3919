-- ===== src/Abi.antt =====
-- The status codes, versions, capability bits, flags, modes, requests and snapshots of src/include/knhv_abi.h.
use knhv.Prelude.{ℕ, Bool, ◌&&◌}
use knhv.Prelude.Tests.{leb}

abbrev pub abi_version : ℕ
abi_version = 1

abbrev pub abi_min_version : ℕ
abi_min_version = 1

abbrev pub cap_vmx : ℕ
cap_vmx = 1

abbrev pub cap_ept : ℕ
cap_ept = 0x2

abbrev pub cap_vpid : ℕ
cap_vpid = 0x4

abbrev pub cap_nested_vmx : ℕ
cap_nested_vmx = 0x8

abbrev pub cap_enlightened_vmcs : ℕ
cap_enlightened_vmcs = 0x10

abbrev pub cap_virtual_tlb_flush : ℕ
cap_virtual_tlb_flush = 0x20

abbrev pub cap_whp_partition : ℕ
cap_whp_partition = 0x40

abbrev pub cap_boot_l0 : ℕ
cap_boot_l0 = 0x80

abbrev pub known_capability_mask : ℕ
known_capability_mask = 0x7ff

abbrev pub flag_outer_l0_active : ℕ
flag_outer_l0_active = 1

abbrev pub flag_native_vmx_ready : ℕ
flag_native_vmx_ready = 0x2

abbrev pub flag_boot_handoff_verified : ℕ
flag_boot_handoff_verified = 0x4

abbrev pub flag_knhv_boot_l0_active : ℕ
flag_knhv_boot_l0_active = 0x8

abbrev pub flag_nested_vmx : ℕ
flag_nested_vmx = 0x10

abbrev pub flag_whp_partition : ℕ
flag_whp_partition = 0x20

abbrev pub flag_synthetic_snapshot : ℕ
flag_synthetic_snapshot = 0x40

abbrev pub mode_boot_l0_interposer : ℕ
mode_boot_l0_interposer = 1

abbrev pub mode_cooperative_l1 : ℕ
mode_cooperative_l1 = 2

abbrev pub mode_known_legacy_compat : ℕ
mode_known_legacy_compat = 3

abbrev pub mode_load_only : ℕ
mode_load_only = 4

abbrev pub mode_external_l0_fallback : ℕ
mode_external_l0_fallback = 5

abbrev pub mode_native_exclusive_baseline : ℕ
mode_native_exclusive_baseline = 6

abbrev pub mode_whp_client : ℕ
mode_whp_client = 7

pub data HvStatus : Type 0 where
  success invalid_parameter unsupported_mode capability_mismatch : HvStatus
  hardware_owner_conflict nested_unavailable vmfail_invalid vmfail_valid : HvStatus
  cancelled timeout quarantined load_only : HvStatus
  incompatible_provider virtual_unsupported arch_unsupported boot_handoff_failed : HvStatus
  recovery_required hardware_unsupported buffer_too_small busy : HvStatus

pub data HvProviderKind : Type 0 where
  provider_none provider_boot_l0_interposer provider_cooperative_l1 provider_known_legacy_adapter :
      HvProviderKind
  provider_load_only provider_external_l0_fallback provider_whp_client
        provider_native_exclusive_baseline :
      HvProviderKind

pub record HvCapabilitySnapshot : Type 0 where
  pub version : ℕ
  pub size : ℕ
  pub feature_bits : ℕ
  pub max_physical_address_bits : ℕ
  pub e_vmcs_version : ℕ
  pub whp_api_version : ℕ
  pub hypervisor_vendor_length : ℕ
  pub status_flags : ℕ
  pub boot_generation : ℕ
  pub owner_generation : ℕ
  pub feature_hash : ℕ

pub record HvProviderRequest : Type 0 where
  pub version : ℕ
  pub size : ℕ
  pub mode : ℕ
  pub identity_verified : ℕ
  pub legacy_manifest_match : ℕ
  pub reserved : ℕ
  pub requested_features : ℕ

unfoldable pub is_versioned_buffer_valid : ℕ → ℕ → ℕ → Bool
is_versioned_buffer_valid version size required_size =
    leb abi_min_version version && leb version abi_version && leb required_size size
