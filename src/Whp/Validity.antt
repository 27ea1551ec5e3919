-- ===== src/Whp/Validity.antt =====
-- src/whp/whp_model.cpp: the tests on the structures.
use knhv.Prelude.{
  ℕ, ◌+◌, ◌-◌, ◌*◌, ◌/◌, ◌^◌, Bool, true, false, not, ◌&&◌, ◌||◌, Option, none, some,
}
use knhv.Prelude.Tests.{ltb, leb, ◌==◌, ◌!=◌, if◌then◌else◌}
use knhv.Prelude.Bits.{any_bits, not32, not64, u64, u64_max}
use knhv.Whp.Defs.{
  whp_contract_version, whp_max_struct_size, whp_page_size, whp_max_physical_address_bits,
  whp_max_vcpus, whp_max_mappings, whp_known_capability_mask, whp_known_extended_exit_mask,
  whp_known_partition_flag_mask, whp_known_mapping_permission_mask, whp_known_mapping_flag_mask,
  partition_empty, partition_quarantined, vcpu_empty, vcpu_failed, exit_memory_access,
  exit_io_port_access, exit_unrecoverable_exception, exit_invalid_vp_register_value,
  exit_unsupported_feature, exit_interrupt_window, exit_halt, exit_apic_eoi, exit_msr_access,
  exit_cpuid, exit_exception, exit_rdtsc, exit_hypercall, exit_canceled, WhpCapabilities,
  WhpPartitionConfig, WhpPartition, WhpMemoryMapping, WhpVcpu, WhpExitRecord,
}

unfoldable pub is_versioned_size_valid : ℕ → ℕ → ℕ → Bool
is_versioned_size_valid version size required =
    version == whp_contract_version && leb required size && leb size whp_max_struct_size

unfoldable pub is_address_valid : ℕ → ℕ → Bool
is_address_valid address bits =
    leb 12 bits && leb bits whp_max_physical_address_bits && address / 2 ^ bits == 0

-- `AddOverflow`: the sum, or `none` where it does not fit 64 bits.
unfoldable pub checked_add : ℕ → ℕ → Option ℕ
checked_add left right = if ltb (u64_max - right) left then none else some (left + right)

unfoldable pub is_partition_state_valid_value : ℕ → Bool
is_partition_state_valid_value value = leb value partition_quarantined

unfoldable pub is_vcpu_state_valid_value : ℕ → Bool
is_vcpu_state_valid_value value = leb value vcpu_failed

unfoldable pub is_reason_valid : ℕ → Bool
is_reason_valid value =
    value == exit_memory_access
    || value == exit_io_port_access
    || value == exit_unrecoverable_exception
    || value == exit_invalid_vp_register_value
    || value == exit_unsupported_feature
    || value == exit_interrupt_window
    || value == exit_halt
    || value == exit_apic_eoi
    || value == exit_msr_access
    || value == exit_cpuid
    || value == exit_exception
    || value == exit_rdtsc
    || value == exit_hypercall
    || value == exit_canceled

unfoldable pub is_whp_capabilities_valid : Option WhpCapabilities → Bool
is_whp_capabilities_valid none = false
is_whp_capabilities_valid (some c) =
    is_versioned_size_valid c.version c.size 56
    && not (any_bits c.feature_flags (not64 whp_known_capability_mask))
    && not (any_bits c.extended_exit_flags (not64 whp_known_extended_exit_mask))
    && c.api_version != 0
    && leb 12 c.physical_address_bits
    && leb c.physical_address_bits whp_max_physical_address_bits
    && c.max_vcpus != 0
    && leb c.max_vcpus whp_max_vcpus
    && c.reserved == 0
    && c.generation != 0

unfoldable pub is_whp_partition_config_valid : Option WhpPartitionConfig → Bool
is_whp_partition_config_valid none = false
is_whp_partition_config_valid (some c) =
    is_versioned_size_valid c.version c.size 40
    && c.owner_id != 0
    && c.generation != 0
    && c.max_vcpus != 0
    && leb c.max_vcpus whp_max_vcpus
    && leb 12 c.physical_address_bits
    && leb c.physical_address_bits whp_max_physical_address_bits
    && not (any_bits c.flags (not32 whp_known_partition_flag_mask))
    && c.reserved == 0

unfoldable pub is_whp_partition_valid : Option WhpPartition → Bool
is_whp_partition_valid none = false
is_whp_partition_valid (some p) =
    is_versioned_size_valid p.version p.size 64
    && p.partition_id != 0
    && p.owner_id != 0
    && p.generation != 0
    && is_partition_state_valid_value p.state
    && not (any_bits p.flags (not32 whp_known_partition_flag_mask))
    && p.max_vcpus != 0
    && leb p.max_vcpus whp_max_vcpus
    && leb p.configured_vcpus p.max_vcpus
    && leb p.mapping_count whp_max_mappings
    && p.reserved == 0
    && (if p.state == partition_empty
        then p.configured_vcpus == 0 && p.mapping_count == 0 && p.mapped_pages == 0
        else true)

-- The ends of the two ranges of a mapping.
unfoldable pub are_ends_valid : WhpMemoryMapping → ℕ → Bool
are_ends_valid m physical_address_bits =
    let span = u64 (m.page_count * whp_page_size) in
    (elim (checked_add m.guest_physical (span - 1)) [
      | none ↦ false
      | some last ↦ is_address_valid last physical_address_bits
    ])
    && (elim (checked_add m.host_address (span - 1)) [ none ↦ false | some last ↦ true ])

unfoldable pub is_whp_memory_mapping_valid : Option WhpMemoryMapping → ℕ → Bool
is_whp_memory_mapping_valid none physical_address_bits = false
is_whp_memory_mapping_valid (some m) physical_address_bits =
    is_versioned_size_valid m.version m.size 48
    && m.host_address != 0
    && m.page_count != 0
    && leb m.page_count 0x100000
    && not (any_bits m.permissions (not32 whp_known_mapping_permission_mask))
    && m.permissions != 0
    && not (any_bits m.flags (not32 whp_known_mapping_flag_mask))
    && m.generation != 0
    && not (any_bits m.guest_physical (whp_page_size - 1))
    && not (any_bits m.host_address (whp_page_size - 1))
    && is_address_valid m.guest_physical physical_address_bits
    && are_ends_valid m physical_address_bits

unfoldable pub is_whp_vcpu_valid : Option WhpVcpu → Bool
is_whp_vcpu_valid none = false
is_whp_vcpu_valid (some v) =
    is_versioned_size_valid v.version v.size 40
    && is_vcpu_state_valid_value v.state
    && v.generation != 0
    && (if v.state == vcpu_empty
        then v.index == 0 && v.run_count == 0 && v.exit_count == 0
        else ltb v.index whp_max_vcpus)

unfoldable pub is_whp_exit_record_valid : Option WhpExitRecord → Bool
is_whp_exit_record_valid none = false
is_whp_exit_record_valid (some r) =
    is_versioned_size_valid r.version r.size 56
    && is_reason_valid r.reason
    && ltb r.vcpu_index whp_max_vcpus
    && leb r.instruction_length 15
    && r.reserved == 0
    && r.generation != 0
    && is_address_valid r.guest_physical whp_max_physical_address_bits
