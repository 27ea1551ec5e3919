-- ===== src/Whp/Tests.antt =====
-- Runs of the definitions under Whp, and the theorems at them.
use knhv.Prelude.{ℕ, ◌<◌, ◌≡◌, ◌≢◌, ◌↔◌, ◌⊎◌, refl, true, some, List, [], ◌∷◌, arith}
use knhv.Prelude.Bits.{any_bits}
use knhv.Whp.Defs.{
  partition_configured, partition_running, partition_closed, partition_quarantined, vcpu_created,
  vcpu_running, vcpu_stopped, exit_cpuid, status_code, action_code, WhpCapabilities,
  WhpPartitionConfig, WhpPartition, WhpMemoryMapping, WhpVcpu, WhpExitRecord, WhpExitDecision,
  success, state_conflict, handle_cpu, to_quarantine,
}
use knhv.Whp.Validity.{
  is_versioned_size_valid, is_address_valid, checked_add, is_partition_state_valid_value,
  is_vcpu_state_valid_value, is_reason_valid, is_whp_capabilities_valid,
  is_whp_partition_config_valid, is_whp_partition_valid, are_ends_valid,
  is_whp_memory_mapping_valid, is_whp_vcpu_valid, is_whp_exit_record_valid,
}
use knhv.Whp.Partition.{
  empty_partition, empty_vcpu, lacks, may_create, created_partition, create_whp_partition,
  is_current, configure_whp_partition, map_whp_gpa, create_whp_vcpu, may_start_vcpu, start_whp_vcpu,
  stop_whp_vcpu, start_whp_partition, begin_whp_drain, close_whp_partition,
  quarantine_whp_partition,
}
use knhv.Whp.Lifecycle.{
  Call, configure, map_gpa, start, drain, close, quarantine, step, run, IsSound, Continues,
}
use knhv.Whp.Moves.{run_created}
use knhv.Whp.Exits.{route, evaluate_whp_exit}
use knhv.Whp.Vcpus.{run_vcpu, start-stop, create-start}
use knhv.Whp.Routing.{IsHandled, decision, evaluate_handles}

abbrev capabilities : WhpCapabilities
capabilities = record {
  size = 56;
  version = 1;
  feature_flags = 1;
  extended_exit_flags = 0;
  api_version = 1;
  physical_address_bits = 40;
  max_vcpus = 8;
  reserved = 0;
  processor_clock_hz = 0;
  generation = 3;
}

abbrev config : WhpPartitionConfig
config = record {
  size = 40;
  version = 1;
  owner_id = 6;
  generation = 3;
  max_vcpus = 4;
  physical_address_bits = 40;
  flags = 0;
  reserved = 0;
}

abbrev mapping : WhpMemoryMapping
mapping = record {
  size = 48;
  version = 1;
  guest_physical = 0x1000;
  host_address = 0x20000;
  page_count = 16;
  permissions = 3;
  flags = 0;
  generation = 3;
}

abbrev made : WhpPartition
made = created_partition config 11

creates :
    create_whp_partition (some capabilities) (some config) 11 (some empty_partition)
    ≡ (success, some made)
unfolding create_whp_partition may_create lacks is_whp_capabilities_valid
    is_whp_partition_config_valid is_versioned_size_valid any_bits
creates = refl

abbrev early : List Call
early = configure 3 2 ∷ map_gpa mapping 3 40 ∷ start 3 ∷ map_gpa mapping 3 40 ∷ []

abbrev late : List Call
late = drain 3 ∷ start 3 ∷ close 3 ∷ quarantine 3 ∷ []

abbrev on : WhpPartition
on = record made {
  configured_vcpus = 2;
  mapping_count = 1;
  mapped_pages = 16;
  state = partition_running;
}

runs : run made early ≡ on
unfolding run step configure_whp_partition map_whp_gpa start_whp_partition is_current
    is_whp_partition_valid is_partition_state_valid_value is_versioned_size_valid
    is_whp_memory_mapping_valid are_ends_valid is_address_valid checked_add any_bits
runs = refl

ends : (run on late).state ≡ partition_closed
unfolding run step start_whp_partition begin_whp_drain close_whp_partition quarantine_whp_partition
    is_current is_whp_partition_valid is_partition_state_valid_value is_versioned_size_valid
    any_bits
ends = refl

run_created_example :
    let q = run made early in
    IsSound q
    × Continues made q
    × Continues q (run q late)
    × (((q.state ≡ partition_closed) ⊎ (q.state ≡ partition_quarantined)) → run q late ≡ q)
run_created_example = run_created capabilities config 11 empty_partition made early late creates

abbrev vcpu : WhpVcpu
vcpu = record empty_vcpu { index = 1; generation = 3; state = vcpu_created }

starts : start_whp_vcpu (some on) (some vcpu) 3 ≡ (success, some (run_vcpu vcpu))
unfolding start_whp_vcpu may_start_vcpu is_whp_partition_valid is_partition_state_valid_value
    is_versioned_size_valid is_whp_vcpu_valid is_vcpu_state_valid_value any_bits
starts = refl

start-stop_example :
    let w = run_vcpu vcpu in
    ((vcpu.state ≡ vcpu_created) ⊎ (vcpu.state ≡ vcpu_stopped))
    × (on.state ≡ partition_running)
    × (vcpu.index < on.configured_vcpus)
    × (w ≡ run_vcpu vcpu)
    × (is_whp_vcpu_valid (some w) ≡ true)
    × ((q : WhpPartition) (h : ℕ) → start_whp_vcpu (some q) (some w) h ≡ (state_conflict, some w))
    × (stop_whp_vcpu (some on) (some w) 3 ≡ (success, some (record w { state = vcpu_stopped })))
    × (is_whp_vcpu_valid (some (record w { state = vcpu_stopped })) ≡ true)
start-stop_example = start-stop on vcpu (run_vcpu vcpu) 3 (omega arith) starts

abbrev configured : WhpPartition
configured = record on { state = partition_configured }

vcpu_made : create_whp_vcpu (some configured) (some empty_vcpu) 1 3 ≡ (success, some vcpu)
unfolding create_whp_vcpu is_current is_whp_partition_valid is_partition_state_valid_value
    is_versioned_size_valid any_bits
vcpu_made = refl

partition_starts : start_whp_partition (some configured) 3 ≡ (true, some on)
unfolding start_whp_partition is_current is_whp_partition_valid is_partition_state_valid_value
    is_versioned_size_valid any_bits
partition_starts = refl

create-start_example :
    start_whp_vcpu (some on) (some vcpu) 3
    ≡ (success, some (record vcpu { state = vcpu_running; run_count = 1 }))
create-start_example = create-start configured on empty_vcpu vcpu 1 3 vcpu_made partition_starts

abbrev exit : WhpExitRecord
exit = record {
  size = 56;
  version = 1;
  reason = exit_cpuid;
  vcpu_index = 1;
  instruction_length = 2;
  reserved = 0;
  qualification = 0;
  guest_physical = 0;
  guest_linear = 0;
  generation = 3;
}

abbrev blank : WhpExitDecision
blank = record {
  size = 0;
  version = 0;
  status = 0;
  action = 0;
  reason = 0;
  reserved = 0;
  generation = 0;
}

handles : (decision on exit 3 blank).action ≡ action_code handle_cpu
unfolding evaluate_whp_exit route is_whp_partition_valid is_partition_state_valid_value
    is_versioned_size_valid is_whp_exit_record_valid is_reason_valid is_address_valid any_bits
handles = refl

evaluate_handles_example :
    (((decision on exit 3 blank).status ≡ status_code success) ↔ IsHandled on exit 3)
    × ((decision on exit 3 blank).status ≡ status_code success
        → (decision on exit 3 blank).action ≢ action_code to_quarantine)
    × ((decision on exit 3 blank).status ≢ status_code success
        → (decision on exit 3 blank).action ≡ action_code to_quarantine)
evaluate_handles_example = evaluate_handles on exit 3 blank
