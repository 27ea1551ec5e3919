-- ===== src/Exit/Tests.antt =====
-- Runs of the exit model.
use knhv.Prelude.{ℕ, ◌≡◌, refl, ◌↔◌, inr, true, false, none, some, ◌&&◌}
use knhv.Prelude.Bits.{any_bits}
use knhv.Exit.{
  ExitRecord, ExitPolicy, ExitDecision, invalid_parameter, quarantine_required, quarantine_vcpu,
  record_host_owned, record_entry_failure, resume_guest, initialize_decision, set_decision,
  is_exit_record_valid, is_exit_policy_valid, locally_handled, policy_handles_class,
}
use knhv.Exit.Classes.{ExitReason, cpuid, ept_violation, reason_code, classify_exit_reason}
use knhv.Exit.Evaluate.{route_class, evaluate_exit}
use knhv.Exit.Authority.{MayResume}
use knhv.Exit.Outcome.{IsRouted, resume_exactly, contained_quarantines, evaluate_exit_refuses}

abbrev policy : ExitPolicy
policy = record {
  size = 40;
  version = 1;
  level = 1;
  flags = 0x11;
  allowed_classes = 0x1ff;
  max_instruction_length = 15;
  generation = 7;
  reserved = 0;
}

abbrev exit_of : ExitReason → ℕ → ExitRecord
exit_of reason flags = record {
  size = 64;
  version = 1;
  reason = reason_code reason;
  instruction_length = 2;
  flags = flags;
  reserved = 0;
  qualification = 0;
  guest_linear = 0xffff_8000_0000_0000;
  guest_physical = 0x1000;
  guest_rip = 0x40_0000;
  generation = 7;
}

abbrev blank : ExitDecision
blank = initialize_decision none

cpuid_resumes :
    evaluate_exit (some (exit_of cpuid 0)) (some policy) 39 48 (some blank)
    ≡ (true, some (initialize_decision (some (exit_of cpuid 0))))
unfolding evaluate_exit is_exit_record_valid is_exit_policy_valid classify_exit_reason any_bits
    locally_handled policy_handles_class route_class
cpuid_resumes = refl

host_page :
    evaluate_exit (some (exit_of ept_violation record_host_owned)) (some policy) 39 48 (some blank)
    ≡ (
      true,
      some (
          set_decision
            (initialize_decision (some (exit_of ept_violation record_host_owned)))
            quarantine_required
            quarantine_vcpu
            0),
    )
unfolding evaluate_exit is_exit_record_valid is_exit_policy_valid classify_exit_reason any_bits
    locally_handled policy_handles_class route_class
host_page = refl

resume_exactly_example :
    ((resume_guest ≡ resume_guest) ↔ (
      IsRouted (exit_of cpuid 0) policy 39 48 blank
      × (any_bits (exit_of cpuid 0).flags record_entry_failure ≡ false)
      × MayResume (exit_of cpuid 0) policy))
    × (resume_guest ≡ resume_guest → true ≡ true)
resume_exactly_example = resume_exactly (exit_of cpuid 0) policy 39 48 blank true _ cpuid_resumes

contained_quarantines_example :
    (set_decision
      (initialize_decision (some (exit_of ept_violation record_host_owned)))
      quarantine_required
      quarantine_vcpu
      0).action
    ≡ quarantine_vcpu
unfolding classify_exit_reason any_bits
contained_quarantines_example =
    contained_quarantines (exit_of ept_violation record_host_owned) policy 39 48 blank true _
      host_page (inr (inr (refl, refl)))

evaluate_exit_refuses_example :
    ((evaluate_exit (some (exit_of cpuid 0)) none 39 48 (some blank)).0
      ≡ (is_exit_record_valid (some (exit_of cpuid 0)) 39 48 && is_exit_policy_valid none 48))
    × ((evaluate_exit (some (exit_of cpuid 0)) none 39 48 (some blank)).0 ≡ false
        → (invalid_parameter ≡ invalid_parameter) × (quarantine_vcpu ≡ quarantine_vcpu))
unfolding evaluate_exit
evaluate_exit_refuses_example =
    evaluate_exit_refuses (some (exit_of cpuid 0)) none 39 48 blank
      (set_decision (initialize_decision (some (exit_of cpuid 0))) invalid_parameter quarantine_vcpu
        0)
      refl
