-- ===== src/Ept/Pointer.antt =====
-- src/ept/ept_model.cpp: the EPT pointer, built from a configuration and read back.
use knhv.Prelude.{ℕ, ◌+◌, ◌-◌, ◌*◌, ◌/◌, ◌^◌, bit_and, bit_or, not, ◌&&◌, ◌||◌, Option, none, some}
use knhv.Prelude.Tests.{ltb, ◌!=◌, if◌then◌else◌}
use knhv.Prelude.Bits.{not64, any_bits}
use knhv.Ept.Defs.{
  ept_contract_version, ept_max_physical_address_bits, ept_min_walk_length, ept_max_walk_length,
  ept_memory_type_uc, ept_memory_type_wb, eptp_flag_access_dirty, EptpConfig,
}
use knhv.Ept.Validity.{is_eptp_config_valid}

abbrev pub eptp_memory_type_mask : ℕ
eptp_memory_type_mask = 0x7

abbrev pub eptp_walk_length_mask : ℕ
eptp_walk_length_mask = 0x38

abbrev pub eptp_access_dirty_bit : ℕ
eptp_access_dirty_bit = 0x40

abbrev pub ept_physical_address_mask : ℕ
ept_physical_address_mask = 0xFFFFFFFFFF000

abbrev pub eptp_known_mask : ℕ
eptp_known_mask = 0xFFFFFFFFFF07F

-- The value of `BuildEptPointer`, or `none` where it returns false.
unfoldable pub build_ept_pointer : Option EptpConfig → Option ℕ
unfolding is_eptp_config_valid
build_ept_pointer none = none
build_ept_pointer (some c) =
    let fields =
      bit_or
        (bit_or (bit_and c.root_physical ept_physical_address_mask)
          (bit_and c.memory_type eptp_memory_type_mask))
        ((c.walk_length - 1) * 2 ^ 3) in
    if not (is_eptp_config_valid (some c) ept_max_physical_address_bits)
    then none
    else if any_bits c.flags eptp_flag_access_dirty
    then some (bit_or fields eptp_access_dirty_bit)
    else some fields

-- The configuration of `DecodeEptPointer`, or `none` where it returns false.
unfoldable pub decode_ept_pointer : ℕ → Option EptpConfig
decode_ept_pointer raw =
    let memory_type = bit_and raw eptp_memory_type_mask in
    let walk_length = bit_and raw eptp_walk_length_mask / 2 ^ 3 + 1 in
    if any_bits raw (not64 eptp_known_mask)
    then none
    else if memory_type != ept_memory_type_uc && memory_type != ept_memory_type_wb
    then none
    else if ltb walk_length ept_min_walk_length || ltb ept_max_walk_length walk_length
    then none
    else some record {
      size = 40;
      version = ept_contract_version;
      root_physical = bit_and raw ept_physical_address_mask;
      memory_type = memory_type;
      walk_length = walk_length;
      flags = if any_bits raw eptp_access_dirty_bit then eptp_flag_access_dirty else 0;
      reserved = 0;
      generation = 0;
    }
