-- ===== src/Whp/Exits.antt =====
-- src/whp/whp_model.cpp: the routing of an exit, `EvaluateWhpExit`.
use knhv.Prelude.{ℕ, Bool, true, false, not, ◌||◌, Option, none, some}
use knhv.Prelude.Tests.{leb, ◌==◌, ◌!=◌, if◌then◌else◌}
use knhv.Whp.Defs.{
  whp_contract_version, partition_running, exit_memory_access, exit_io_port_access,
  exit_interrupt_window, exit_halt, exit_apic_eoi, exit_msr_access, exit_cpuid, exit_exception,
  exit_rdtsc, exit_hypercall, exit_canceled, WhpStatus, status_code, WhpExitAction, action_code,
  WhpPartition, WhpExitRecord, WhpExitDecision, success, invalid_parameter, state_conflict,
  generation_mismatch, exit_unsupported, handle_memory, handle_io, handle_cpu, stop, to_quarantine,
}
use knhv.Whp.Validity.{is_whp_partition_valid, is_whp_exit_record_valid}

-- `InitializeDecision`, after which `SetDecision` writes the status and the action.
abbrev pub initialize_decision : Option WhpExitRecord → WhpExitDecision
initialize_decision none = record {
  size = 32;
  version = whp_contract_version;
  status = 0;
  action = 0;
  reason = 0;
  reserved = 0;
  generation = 0;
}
initialize_decision (some r) = record {
  size = 32;
  version = whp_contract_version;
  status = 0;
  action = 0;
  reason = r.reason;
  reserved = 0;
  generation = r.generation;
}

abbrev pub set_decision : WhpExitDecision → WhpStatus → WhpExitAction → WhpExitDecision
set_decision d status action = record d { status = status_code status; action = action_code action }

-- The switch on the reason.
unfoldable pub route : ℕ → WhpStatus × WhpExitAction
route reason =
    if reason == exit_memory_access
    then (success, handle_memory)
    else if reason == exit_io_port_access
    then (success, handle_io)
    else if reason == exit_msr_access
        || reason == exit_cpuid
        || reason == exit_exception
        || reason == exit_rdtsc
        || reason == exit_hypercall
        || reason == exit_interrupt_window
        || reason == exit_apic_eoi
    then (success, handle_cpu)
    else if reason == exit_halt || reason == exit_canceled
    then (success, stop)
    else (exit_unsupported, to_quarantine)

unfoldable pub evaluate_whp_exit :
    Option WhpPartition
    → Option WhpExitRecord
    → ℕ
    → Option WhpExitDecision
    → Bool × Option WhpExitDecision
evaluate_whp_exit partition exit generation none = (false, none)
evaluate_whp_exit (some p) (some r) generation (some _) =
    let d = initialize_decision (some r) in
    if not (is_whp_partition_valid (some p)) || not (is_whp_exit_record_valid (some r))
    then (false, some (set_decision d invalid_parameter to_quarantine))
    else if generation == 0 || p.generation != generation || r.generation != generation
    then (true, some (set_decision d generation_mismatch to_quarantine))
    else if p.state != partition_running || leb p.configured_vcpus r.vcpu_index
    then (true, some (set_decision d state_conflict to_quarantine))
    else (let routed = route r.reason in (true, some (set_decision d (routed.0) (routed.1))))
evaluate_whp_exit _ exit generation (some _) =
    (false, some (set_decision (initialize_decision exit) invalid_parameter to_quarantine))
