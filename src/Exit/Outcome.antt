-- ===== src/Exit/Outcome.antt =====
-- `EvaluateExit` of src/exit/exit_model.cpp as a whole: refusal, containment, authority.
use knhv.Prelude.{
  ℕ, ◌≤◌, ◌≡◌, refl, ap, ◌∙◌, ◌↔◌, ◌⊎◌, Bool, true, false, ◌&&◌, Option, none, some, arith,
}
use knhv.Exit.{
  ExitRecord, ExitPolicy, ExitDecision, invalid_parameter, generation_mismatch, quarantine_required,
  resume_guest, quarantine_vcpu, is_exit_record_valid, is_exit_policy_valid, initialize_decision,
  record_entry_failure,
}
use knhv.Exit.Classes.{classify_exit_reason}
use knhv.Exit.Evaluate.{route_class, evaluate_exit}
use knhv.Prelude.Bits.{any_bits}
use knhv.Exit.Authority.{MayResume, resumes_for, resumes}
use knhv.Exit.Routing.{IsContained, route_class_contains}

module _ (r : ExitRecord) (p : ExitPolicy) (pb lb : ℕ) (out : ExitDecision) where
  abbrev Evaluates : Bool → ExitDecision → Type 0
  Evaluates ok d = evaluate_exit (some r) (some p) pb lb (some out) ≡ (ok, some d)

  -- A decision that is neither a refusal nor a mismatch comes from the class.
  evaluate_exit_cases :
      (ok : Bool) (d : ExitDecision)
      → Evaluates ok d
      → ((ok ≡ false) × (d.status ≡ invalid_parameter) × (d.action ≡ quarantine_vcpu))
        ⊎ ((ok ≡ true) × (d.status ≡ generation_mismatch) × (d.action ≡ quarantine_vcpu))
        ⊎ ((ok ≡ true) × (d.status ≡ quarantine_required) × (d.action ≡ quarantine_vcpu))
        ⊎ ((ok ≡ true)
            × (r.generation ≡ p.generation)
            × (r.instruction_length ≤ p.max_instruction_length)
            × (is_exit_record_valid (some r) pb lb ≡ true)
            × (is_exit_policy_valid (some p) lb ≡ true)
            × (d ≡ route_class r p (classify_exit_reason r.reason) (initialize_decision (some r))))
  unfolding evaluate_exit
  evaluate_exit_cases ok d h = ground arith

  -- What an exit needs to be routed by its class.
  abbrev pub IsRouted : Type 0
  IsRouted =
      (is_exit_record_valid (some r) pb lb ≡ true)
      × (is_exit_policy_valid (some p) lb ≡ true)
      × (r.generation ≡ p.generation)
      × (r.instruction_length ≤ p.max_instruction_length)

  routed_by_class :
      (ok : Bool) (d : ExitDecision)
      → Evaluates ok d
      → IsRouted
      → d ≡ route_class r p (classify_exit_reason r.reason) (initialize_decision (some r))
  unfolding evaluate_exit
  routed_by_class ok d h routed = ground arith

  resumed_by_class :
      (ok : Bool) (d : ExitDecision)
      → Evaluates ok d
      → d.action ≡ resume_guest
      → (ok ≡ true)
        × IsRouted
        × ((route_class r p (classify_exit_reason r.reason) (initialize_decision (some r))).action
            ≡ resume_guest)
  resumed_by_class ok d h a = ground (arith, evaluate_exit_cases ok d h)

  -- The headline statements are about every decision that the function can leave behind.
  module _ (ok : Bool) (d : ExitDecision) (h : Evaluates ok d) where
    -- The guest is resumed exactly for a valid record and policy of one generation, where the
    -- instruction is no longer than the policy allows, no entry failed, and the reason is an
    -- interrupt's, or one for which the policy allows the class and has the flag that the reason
    -- needs: CPUID, the reads of the time, the accesses to MSRs and to extended state, and I/O need
    -- one, and the other CPU-control instructions none. The result is then `true`.
    pub resume_exactly :
        ((d.action ≡ resume_guest)
          ↔ (IsRouted × (any_bits r.flags record_entry_failure ≡ false) × MayResume r p))
        × (d.action ≡ resume_guest → ok ≡ true)
    resume_exactly =
        let first = initialize_decision (some r) in
        (
          (
            λ a.
                let (_, routed, resumed) = resumed_by_class ok d h a in
                let (entered, may) =
                  resumes_for r p first (classify_exit_reason r.reason) refl resumed in
                (routed, entered, may),
            λ (routed, entered, may).
                ap (λ t. t.action) (routed_by_class ok d h routed) ∙ resumes r p first entered may,
          ),
          λ a. (resumed_by_class ok d h a).0,
        )

    -- An exit of an unknown reason, a failed entry that is no guest-state exit, and a memory exit on
    -- a host-owned page quarantine the virtual processor, whatever the policy says.
    pub contained_quarantines :
        IsContained r (classify_exit_reason r.reason) → d.action ≡ quarantine_vcpu
    contained_quarantines c = ground (
      arith,
      evaluate_exit_cases ok d h,
      route_class_contains r p (classify_exit_reason r.reason) (initialize_decision (some r)) c,
    )

-- The result is `true` exactly when the record and the policy are both valid, null pointers included;
-- every other call leaves an invalid-parameter decision that quarantines.
pub evaluate_exit_refuses :
    (r : Option ExitRecord) (p : Option ExitPolicy) (pb lb : ℕ) (out d : ExitDecision)
    → (evaluate_exit r p pb lb (some out)).1 ≡ some d
    → ((evaluate_exit r p pb lb (some out)).0
        ≡ (is_exit_record_valid r pb lb && is_exit_policy_valid p lb))
      × ((evaluate_exit r p pb lb (some out)).0 ≡ false
          → (d.status ≡ invalid_parameter) × (d.action ≡ quarantine_vcpu))
evaluate_exit_refuses none p pb lb out d =
    unfold evaluate_exit is_exit_record_valid is_exit_policy_valid in ground arith
evaluate_exit_refuses (some r) none pb lb out d =
    unfold evaluate_exit is_exit_policy_valid in ground arith
evaluate_exit_refuses (some r) (some p) pb lb out d = unfold evaluate_exit in ground arith
