-- ===== src/Exit/Evaluate.antt =====
-- `EvaluateExit` of src/exit/exit_model.cpp.
use knhv.Prelude.{ℕ, Bool, true, false, not, ◌&&◌, ◌||◌, Option, none, some}
use knhv.Prelude.Tests.{ltb, ◌==◌, ◌!=◌, if◌then◌else◌}
use knhv.Prelude.Bits.{any_bits}
use knhv.Exit.{
  ExitRecord, ExitPolicy, ExitDecision, success, invalid_parameter, generation_mismatch,
  unsupported_reason, quarantine_required, resume_guest, reflect_to_l1,
  inject_undefined_instruction, quarantine_vcpu, fatal_host, record_host_owned,
  record_entry_failure, policy_reflect_vmx, initialize_decision, set_decision, is_exit_record_valid,
  is_exit_policy_valid, policy_handles_class, locally_handled, is_vm_instruction_reason,
}
use knhv.Exit.Classes.{
  ExitClass, unknown, interrupt, nested_vmx, memory, guest_state, fatal, is_class, reason_code,
  triple_fault, ept_misconfiguration, machine_check, classify_exit_reason,
}

-- The tests behind the nested, interrupt and fatal classes.
unfoldable pub route_local : ExitRecord → ExitPolicy → ExitClass → ExitDecision → ExitDecision
route_local r p exit_class d =
    if locally_handled r.reason exit_class p && policy_handles_class p exit_class
    then set_decision d success (if is_class exit_class memory then reflect_to_l1 else resume_guest)
        0
    else if policy_handles_class p exit_class
    then set_decision d success reflect_to_l1 0
    else if is_vm_instruction_reason r.reason
    then set_decision d unsupported_reason inject_undefined_instruction 6
    else set_decision d quarantine_required quarantine_vcpu 0

-- The tests on the class of an admissible exit, in the order of the code.
unfoldable pub route_class : ExitRecord → ExitPolicy → ExitClass → ExitDecision → ExitDecision
unfolding route_local
route_class r p exit_class d =
    if is_class exit_class unknown
    then set_decision d quarantine_required quarantine_vcpu 0
    else if any_bits r.flags record_entry_failure && not (is_class exit_class guest_state)
    then set_decision d quarantine_required quarantine_vcpu 0
    else if is_class exit_class memory && any_bits r.flags record_host_owned
    then set_decision d quarantine_required quarantine_vcpu 0
    else if r.reason == reason_code ept_misconfiguration || r.reason == reason_code machine_check
    then set_decision d quarantine_required fatal_host 0
    else if is_class exit_class nested_vmx
    then (if any_bits p.flags policy_reflect_vmx && policy_handles_class p exit_class
        then set_decision d success reflect_to_l1 0
        else set_decision d unsupported_reason inject_undefined_instruction 6)
    else if is_class exit_class interrupt
    then set_decision d success resume_guest 0
    else if is_class exit_class fatal
    then (if r.reason == reason_code triple_fault && policy_handles_class p exit_class
        then set_decision d success reflect_to_l1 0
        else set_decision d quarantine_required quarantine_vcpu 0)
    else route_local r p exit_class d

-- The whole function: its result and what it leaves in `decision`.
unfoldable pub evaluate_exit :
    Option ExitRecord → Option ExitPolicy → ℕ → ℕ → Option ExitDecision → Bool × Option ExitDecision
evaluate_exit record_ptr policy_ptr physical_bits linear_bits none = (false, none)
evaluate_exit none policy_ptr physical_bits linear_bits (some _) =
    (false, some (set_decision (initialize_decision none) invalid_parameter quarantine_vcpu 0))
evaluate_exit (some r) none physical_bits linear_bits (some _) =
    (false, some (set_decision (initialize_decision (some r)) invalid_parameter quarantine_vcpu 0))
evaluate_exit (some r) (some p) physical_bits linear_bits (some _) =
    let d = initialize_decision (some r) in
    if not (is_exit_record_valid (some r) physical_bits linear_bits)
      || not (is_exit_policy_valid (some p) linear_bits)
    then (false, some (set_decision d invalid_parameter quarantine_vcpu 0))
    else if r.generation != p.generation
    then (true, some (set_decision d generation_mismatch quarantine_vcpu 0))
    else if ltb p.max_instruction_length r.instruction_length
    then (true, some (set_decision d quarantine_required quarantine_vcpu 0))
    else (true, some (route_class r p (classify_exit_reason r.reason) d))
