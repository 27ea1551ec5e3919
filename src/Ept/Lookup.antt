-- ===== src/Ept/Lookup.antt =====
-- src/ept/ept_model.cpp: the two-stage lookup of a nested guest's address.
use knhv.Prelude.{ℕ, ◌-◌, bit_and, not, ◌||◌, Option, none, some}
use knhv.Prelude.Tests.{◌!=◌, if◌then◌else◌}
use knhv.Prelude.Bits.{any_bits}
use knhv.Ept.Defs.{
  ept_contract_version, ept_max_physical_address_bits, ept_mapping_flag_host_owned, hit,
  not_present, permission_denied, stale, lookup_invalid, host_owned, EptMapping, EptLookupResult,
}
use knhv.Ept.Validity.{
  checked_add, is_ept_mapping_valid, ept_mapping_contains, is_ept_access_allowed,
}

abbrev pub make_lookup : ℕ → ℕ → ℕ → ℕ → EptLookupResult
make_lookup status permissions hpa generation = record {
  size = 32;
  version = ept_contract_version;
  status = status;
  permissions = permissions;
  host_physical = hpa;
  generation = generation;
}

-- The second stage of `ResolveNestedEpt`, from the root mapping on.
unfoldable pub resolve_root : EptMapping → EptMapping → ℕ → ℕ → EptLookupResult
unfolding ept_mapping_contains is_ept_access_allowed checked_add
resolve_root l1 root l1_guest_physical access =
    if not (ept_mapping_contains (some root) l1_guest_physical)
    then make_lookup not_present 0 0 root.generation
    else if any_bits root.flags ept_mapping_flag_host_owned
    then make_lookup host_owned 0 0 root.generation
    else if not (is_ept_access_allowed root.permissions access)
    then make_lookup permission_denied 0 0 root.generation
    else elim (checked_add root.host_physical (l1_guest_physical - root.guest_physical)) [
      | none ↦ make_lookup lookup_invalid 0 0 root.generation
      | some host_physical ↦
          make_lookup hit (bit_and l1.permissions root.permissions) host_physical root.generation
    ]

unfoldable pub resolve_nested_ept : Option EptMapping → Option EptMapping → ℕ → ℕ → EptLookupResult
unfolding is_ept_mapping_valid ept_mapping_contains is_ept_access_allowed checked_add resolve_root
resolve_nested_ept none root l2_guest_physical access = make_lookup lookup_invalid 0 0 0
resolve_nested_ept (some l1) none l2_guest_physical access = make_lookup lookup_invalid 0 0 0
resolve_nested_ept (some l1) (some root) l2_guest_physical access =
    if not (is_ept_mapping_valid (some l1) ept_max_physical_address_bits)
      || not (is_ept_mapping_valid (some root) ept_max_physical_address_bits)
    then make_lookup lookup_invalid 0 0 0
    else if l1.generation != root.generation
    then make_lookup stale 0 0 root.generation
    else if not (ept_mapping_contains (some l1) l2_guest_physical)
    then make_lookup not_present 0 0 root.generation
    else if not (is_ept_access_allowed l1.permissions access)
    then make_lookup permission_denied 0 0 root.generation
    else elim (checked_add l1.host_physical (l2_guest_physical - l1.guest_physical)) [
      | none ↦ make_lookup lookup_invalid 0 0 root.generation
      | some l1_guest_physical ↦ resolve_root l1 root l1_guest_physical access
    ]
