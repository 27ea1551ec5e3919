-- ===== src/Whp/Partition.antt =====
-- src/whp/whp_model.cpp: the operations on a partition and on a processor.
use knhv.Prelude.{ℕ, ◌+◌, ◌-◌, Bool, true, false, not, ◌&&◌, ◌||◌, Option, none, some}
use knhv.Prelude.Tests.{ltb, leb, ◌==◌, ◌!=◌, if◌then◌else◌}
use knhv.Prelude.Bits.{any_bits, u32, u64, u64_max}
use knhv.Whp.Defs.{
  whp_contract_version, whp_max_mappings, whp_cap_partition, whp_cap_local_apic, whp_cap_iommu,
  whp_cap_nested_vmx, whp_cap_reference_time, whp_partition_enable_nested_vmx,
  whp_partition_enable_local_apic, whp_partition_enable_reference_time,
  whp_partition_require_isolation, partition_empty, partition_created, partition_configured,
  partition_running, partition_draining, partition_closed, partition_quarantined, vcpu_empty,
  vcpu_created, vcpu_running, vcpu_stopped, WhpStatus, WhpCapabilities, WhpPartitionConfig,
  WhpPartition, WhpMemoryMapping, WhpVcpu, success, invalid_parameter, capability_mismatch,
  state_conflict, generation_mismatch, limit_exceeded,
}
use knhv.Whp.Validity.{
  is_whp_capabilities_valid, is_whp_partition_config_valid, is_whp_partition_valid,
  is_whp_memory_mapping_valid, is_whp_vcpu_valid,
}

-- `InitializePartition`.
abbrev pub empty_partition : WhpPartition
empty_partition = record {
  size = 64;
  version = whp_contract_version;
  partition_id = 0;
  owner_id = 0;
  generation = 0;
  state = partition_empty;
  flags = 0;
  max_vcpus = 0;
  configured_vcpus = 0;
  mapping_count = 0;
  reserved = 0;
  mapped_pages = 0;
}

-- `InitializeVcpu`.
abbrev pub empty_vcpu : WhpVcpu
empty_vcpu = record {
  size = 40;
  version = whp_contract_version;
  index = 0;
  state = vcpu_empty;
  generation = 0;
  run_count = 0;
  exit_count = 0;
}

-- A feature that the partition asks for and the host lacks.
unfoldable pub lacks : WhpCapabilities → WhpPartitionConfig → ℕ → ℕ → Bool
lacks capabilities config flag feature =
    any_bits config.flags flag && not (any_bits capabilities.feature_flags feature)

unfoldable pub may_create : WhpCapabilities → WhpPartitionConfig → ℕ → Bool
may_create capabilities config partition_id =
    is_whp_capabilities_valid (some capabilities)
    && is_whp_partition_config_valid (some config)
    && partition_id != 0
    && capabilities.generation == config.generation
    && any_bits capabilities.feature_flags whp_cap_partition
    && leb config.max_vcpus capabilities.max_vcpus
    && leb config.physical_address_bits capabilities.physical_address_bits
    && not (lacks capabilities config whp_partition_enable_nested_vmx whp_cap_nested_vmx)
    && not (lacks capabilities config whp_partition_enable_local_apic whp_cap_local_apic)
    && not (lacks capabilities config whp_partition_enable_reference_time whp_cap_reference_time)
    && not (lacks capabilities config whp_partition_require_isolation whp_cap_iommu)

abbrev pub created_partition : WhpPartitionConfig → ℕ → WhpPartition
created_partition config partition_id = record empty_partition {
  partition_id = partition_id;
  owner_id = config.owner_id;
  generation = config.generation;
  flags = config.flags;
  max_vcpus = config.max_vcpus;
  state = partition_created;
}

unfoldable pub create_whp_partition :
    Option WhpCapabilities
    → Option WhpPartitionConfig
    → ℕ
    → Option WhpPartition
    → WhpStatus × Option WhpPartition
create_whp_partition capabilities config partition_id none = (invalid_parameter, none)
create_whp_partition (some capabilities) (some config) partition_id (some _) =
    if may_create capabilities config partition_id
    then (success, some (created_partition config partition_id))
    else (capability_mismatch, some empty_partition)
create_whp_partition _ _ partition_id (some _) = (capability_mismatch, some empty_partition)

-- The tests that open most operations.
unfoldable pub is_current : WhpPartition → ℕ → Bool
is_current p generation =
    is_whp_partition_valid (some p) && generation != 0 && p.generation == generation

unfoldable pub configure_whp_partition :
    Option WhpPartition → ℕ → ℕ → WhpStatus × Option WhpPartition
configure_whp_partition none generation vcpu_count = (state_conflict, none)
configure_whp_partition (some p) generation vcpu_count =
    if is_current p generation
      && p.state == partition_created
      && vcpu_count != 0
      && leb vcpu_count p.max_vcpus
    then (success, some (record p { configured_vcpus = vcpu_count; state = partition_configured }))
    else (state_conflict, some p)

unfoldable pub map_whp_gpa :
    Option WhpPartition → Option WhpMemoryMapping → ℕ → ℕ → WhpStatus × Option WhpPartition
map_whp_gpa none mapping generation physical_address_bits = (invalid_parameter, none)
map_whp_gpa (some p) none generation physical_address_bits = (invalid_parameter, some p)
map_whp_gpa (some p) (some m) generation physical_address_bits =
    if not (is_whp_partition_valid (some p))
      || not (is_whp_memory_mapping_valid (some m) physical_address_bits)
    then (invalid_parameter, some p)
    else if p.generation != generation || m.generation != generation
    then (generation_mismatch, some p)
    else if p.state != partition_created && p.state != partition_configured
    then (state_conflict, some p)
    else if leb whp_max_mappings p.mapping_count || ltb (u64_max - m.page_count) p.mapped_pages
    then (limit_exceeded, some p)
    else (
      success,
      some (record p {
        mapping_count = u32 (p.mapping_count + 1);
        mapped_pages = u64 (p.mapped_pages + m.page_count);
      }),
    )

unfoldable pub create_whp_vcpu :
    Option WhpPartition → Option WhpVcpu → ℕ → ℕ → WhpStatus × Option WhpVcpu
create_whp_vcpu partition none index generation = (invalid_parameter, none)
create_whp_vcpu none (some _) index generation = (state_conflict, some empty_vcpu)
create_whp_vcpu (some p) (some _) index generation =
    if is_current p generation && p.state == partition_configured && ltb index p.configured_vcpus
    then (
      success,
      some (record empty_vcpu { index = index; generation = generation; state = vcpu_created }),
    )
    else (state_conflict, some empty_vcpu)

unfoldable pub may_start_vcpu : WhpPartition → WhpVcpu → ℕ → Bool
may_start_vcpu p v generation =
    is_whp_partition_valid (some p)
    && is_whp_vcpu_valid (some v)
    && generation != 0
    && p.generation == generation
    && v.generation == generation
    && p.state == partition_running
    && ltb v.index p.configured_vcpus
    && (v.state == vcpu_created || v.state == vcpu_stopped)
    && v.run_count != u64_max

unfoldable pub start_whp_vcpu :
    Option WhpPartition → Option WhpVcpu → ℕ → WhpStatus × Option WhpVcpu
start_whp_vcpu (some p) (some v) generation =
    if may_start_vcpu p v generation
    then (success, some (record v { state = vcpu_running; run_count = u64 (v.run_count + 1) }))
    else (state_conflict, some v)
start_whp_vcpu _ v generation = (state_conflict, v)

unfoldable pub may_stop_vcpu : WhpPartition → WhpVcpu → ℕ → Bool
may_stop_vcpu p v generation =
    is_whp_partition_valid (some p)
    && is_whp_vcpu_valid (some v)
    && generation != 0
    && p.generation == generation
    && v.generation == generation
    && (p.state == partition_running || p.state == partition_draining)
    && v.state == vcpu_running

unfoldable pub stop_whp_vcpu : Option WhpPartition → Option WhpVcpu → ℕ → WhpStatus × Option WhpVcpu
stop_whp_vcpu (some p) (some v) generation =
    if may_stop_vcpu p v generation
    then (success, some (record v { state = vcpu_stopped }))
    else (state_conflict, some v)
stop_whp_vcpu _ v generation = (state_conflict, v)

unfoldable pub start_whp_partition : Option WhpPartition → ℕ → Bool × Option WhpPartition
start_whp_partition none generation = (false, none)
start_whp_partition (some p) generation =
    if is_current p generation && p.state == partition_configured && p.configured_vcpus != 0
    then (true, some (record p { state = partition_running }))
    else (false, some p)

unfoldable pub begin_whp_drain : Option WhpPartition → ℕ → Bool × Option WhpPartition
begin_whp_drain none generation = (false, none)
begin_whp_drain (some p) generation =
    if is_current p generation && (p.state == partition_running || p.state == partition_configured)
    then (true, some (record p { state = partition_draining }))
    else (false, some p)

unfoldable pub close_whp_partition : Option WhpPartition → ℕ → Bool × Option WhpPartition
close_whp_partition none generation = (false, none)
close_whp_partition (some p) generation =
    if is_current p generation
      && (p.state == partition_created
          || p.state == partition_configured
          || p.state == partition_draining)
    then (true, some (record p { state = partition_closed }))
    else (false, some p)

unfoldable pub quarantine_whp_partition : Option WhpPartition → ℕ → Bool × Option WhpPartition
quarantine_whp_partition none generation = (false, none)
quarantine_whp_partition (some p) generation =
    if is_current p generation && p.state != partition_closed && p.state != partition_quarantined
    then (true, some (record p { state = partition_quarantined }))
    else (false, some p)
