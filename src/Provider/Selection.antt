-- ===== src/Provider/Selection.antt =====
-- src/provider/provider_selection.cpp: which provider a request is given on a snapshot of the machine.
use knhv.Prelude.{ℕ, bit_or, Bool, not, ◌&&◌, ◌||◌, Option, none, some}
use knhv.Prelude.Tests.{leb, ◌==◌, ◌!=◌, if◌then◌else◌}
use knhv.Prelude.Bits.{not32, not64, any_bits}
use knhv.Abi.{
  abi_version, cap_vmx, cap_nested_vmx, cap_enlightened_vmcs, cap_whp_partition, cap_boot_l0,
  known_capability_mask, flag_outer_l0_active, flag_native_vmx_ready, flag_boot_handoff_verified,
  flag_knhv_boot_l0_active, flag_nested_vmx, flag_whp_partition, flag_synthetic_snapshot,
  mode_boot_l0_interposer, mode_cooperative_l1, mode_known_legacy_compat, mode_load_only,
  mode_external_l0_fallback, mode_native_exclusive_baseline, mode_whp_client, HvStatus,
  HvProviderKind, HvCapabilitySnapshot, HvProviderRequest, is_versioned_buffer_valid, success,
  invalid_parameter, unsupported_mode, capability_mismatch, hardware_owner_conflict,
  nested_unavailable, load_only, boot_handoff_failed, hardware_unsupported, provider_none,
  provider_boot_l0_interposer, provider_cooperative_l1, provider_known_legacy_adapter,
  provider_load_only, provider_external_l0_fallback, provider_whp_client,
  provider_native_exclusive_baseline,
}

-- `RequestIsValid`.
unfoldable pub request_is_valid : HvProviderRequest → Bool
unfolding is_versioned_buffer_valid
request_is_valid r = is_versioned_buffer_valid r.version r.size 32 && r.reserved == 0

abbrev known_status_flag_mask : ℕ
known_status_flag_mask = 0x7F

-- The tests of `SnapshotIsValid` that tie flags to features.
unfoldable are_flags_supported : HvCapabilitySnapshot → Bool
are_flags_supported c =
    not (
      any_bits c.status_flags flag_outer_l0_active
      && any_bits c.status_flags flag_knhv_boot_l0_active)
    && not (
        any_bits c.status_flags (bit_or flag_boot_handoff_verified flag_knhv_boot_l0_active)
        && not (any_bits c.feature_bits cap_boot_l0))
    && not (
        any_bits c.status_flags (bit_or flag_nested_vmx flag_synthetic_snapshot)
        && not (any_bits c.feature_bits cap_nested_vmx))
    && not (
        any_bits c.status_flags flag_whp_partition
        && not (any_bits c.feature_bits cap_whp_partition))
    && not (any_bits c.status_flags flag_native_vmx_ready && not (any_bits c.feature_bits cap_vmx))

unfoldable pub snapshot_is_valid : HvCapabilitySnapshot → Bool
unfolding is_versioned_buffer_valid are_flags_supported
snapshot_is_valid c =
    is_versioned_buffer_valid c.version c.size 56
    && leb c.hypervisor_vendor_length 12
    && not (any_bits c.feature_bits (not64 known_capability_mask))
    && not (any_bits c.status_flags (not32 known_status_flag_mask))
    && c.max_physical_address_bits != 0
    && leb c.max_physical_address_bits 52
    && are_flags_supported c
    && (c.e_vmcs_version == 0 || any_bits c.feature_bits cap_enlightened_vmcs)

abbrev pub has_flag : HvCapabilitySnapshot → ℕ → Bool
has_flag c flag = any_bits c.status_flags flag

abbrev has_feature : HvCapabilitySnapshot → ℕ → Bool
has_feature c feature = any_bits c.feature_bits feature

abbrev pub has_nested_vmx : HvCapabilitySnapshot → Bool
has_nested_vmx c = has_flag c flag_nested_vmx && has_feature c cap_nested_vmx

abbrev pub has_whp_partition : HvCapabilitySnapshot → Bool
has_whp_partition c = has_flag c flag_whp_partition && has_feature c cap_whp_partition

-- The features that are requested are there.
abbrev pub has_requested : HvProviderRequest → HvCapabilitySnapshot → Bool
has_requested r c = not (any_bits r.requested_features (not64 c.feature_bits))

unfoldable pub select_boot_l0 : HvProviderRequest → HvCapabilitySnapshot → HvStatus × HvProviderKind
select_boot_l0 r c =
    if has_flag c flag_outer_l0_active
    then (hardware_owner_conflict, provider_none)
    else if not (has_flag c flag_native_vmx_ready)
    then (hardware_unsupported, provider_none)
    else if not (has_flag c flag_boot_handoff_verified)
    then (boot_handoff_failed, provider_none)
    else if not (has_requested r c)
    then (capability_mismatch, provider_none)
    else (success, provider_boot_l0_interposer)

unfoldable pub select_cooperative :
    HvProviderRequest → HvCapabilitySnapshot → HvStatus × HvProviderKind
select_cooperative r c =
    if (not (has_flag c flag_knhv_boot_l0_active) && not (has_flag c flag_synthetic_snapshot))
      || not (has_nested_vmx c)
      || r.identity_verified == 0
    then (nested_unavailable, provider_none)
    else if not (has_requested r c)
    then (capability_mismatch, provider_none)
    else (success, provider_cooperative_l1)

-- The switch of `SelectProvider`, on the mode as a number.
unfoldable pub select_mode : HvProviderRequest → HvCapabilitySnapshot → HvStatus × HvProviderKind
unfolding select_boot_l0 select_cooperative
select_mode r c =
    if r.mode == mode_boot_l0_interposer
    then select_boot_l0 r c
    else if r.mode == mode_cooperative_l1
    then select_cooperative r c
    else if r.mode == mode_known_legacy_compat
    then (if not (has_flag c flag_knhv_boot_l0_active)
          || not (has_nested_vmx c)
          || r.legacy_manifest_match == 0
        then (load_only, provider_load_only)
        else (success, provider_known_legacy_adapter))
    else if r.mode == mode_load_only
    then (load_only, provider_load_only)
    else if r.mode == mode_external_l0_fallback
    then (if not (has_flag c flag_outer_l0_active) || not (has_whp_partition c)
        then (unsupported_mode, provider_none)
        else (success, provider_external_l0_fallback))
    else if r.mode == mode_native_exclusive_baseline
    then (if has_flag c flag_outer_l0_active || not (has_flag c flag_native_vmx_ready)
        then (hardware_owner_conflict, provider_none)
        else (success, provider_native_exclusive_baseline))
    else if r.mode == mode_whp_client
    then (if not (has_whp_partition c)
        then (nested_unavailable, provider_none)
        else (success, provider_whp_client))
    else (unsupported_mode, provider_none)

-- `SelectProvider` with an output: on a request or a snapshot that is not valid the output, here the
-- last argument, stays as it is.
unfoldable pub select_provider :
    Option HvProviderRequest
    → Option HvCapabilitySnapshot
    → HvProviderKind
    → HvStatus × HvProviderKind
unfolding request_is_valid snapshot_is_valid select_mode
select_provider none capabilities selected = (invalid_parameter, selected)
select_provider (some r) none selected = (invalid_parameter, selected)
select_provider (some r) (some c) selected =
    if not (request_is_valid r) || not (snapshot_is_valid c)
    then (invalid_parameter, selected)
    else select_mode r c

unfoldable pub make_fallback_capability_snapshot : Bool → Bool → HvCapabilitySnapshot
make_fallback_capability_snapshot outer_l0_active whp_available = record {
  version = abi_version;
  size = 56;
  feature_bits = if whp_available then bit_or cap_vmx cap_whp_partition else cap_vmx;
  max_physical_address_bits = 48;
  e_vmcs_version = 0;
  whp_api_version = if whp_available then 1 else 0;
  hypervisor_vendor_length = 0;
  status_flags =
      bit_or (if outer_l0_active then flag_outer_l0_active else 0)
        (if whp_available then flag_whp_partition else 0);
  boot_generation = 0;
  owner_generation = 0;
  feature_hash = 0;
}
