-- ===== src/Whp/Routing.antt =====
-- What `EvaluateWhpExit` of src/whp/whp_model.cpp lets through.
use knhv.Prelude.{ℕ, ◌<◌, ◌≡◌, ◌≢◌, ◌↔◌, ◌⊎◌, inl, inr, Bool, true, Option, none, some, arith}
use knhv.Whp.Defs.{
  partition_running, exit_unrecoverable_exception, exit_invalid_vp_register_value,
  exit_unsupported_feature, status_code, action_code, WhpPartition, WhpExitRecord, WhpExitDecision,
  success, exit_unsupported, to_quarantine,
}
use knhv.Whp.Validity.{is_reason_valid, is_whp_partition_valid, is_whp_exit_record_valid}
use knhv.Whp.Exits.{initialize_decision, route, evaluate_whp_exit}

-- What an exit must be for a handler to take it.
pub record IsHandled (p : WhpPartition) (r : WhpExitRecord) (g : ℕ) : Type 0 where
  pub valid : is_whp_partition_valid (some p) ≡ true
  pub exit_valid : is_whp_exit_record_valid (some r) ≡ true
  pub positive : g ≢ 0
  pub current : (p.generation ≡ g) × (r.generation ≡ g)
  pub running : p.state ≡ partition_running
  pub known_vcpu : r.vcpu_index < p.configured_vcpus
  pub handler :
      (r.reason ≢ exit_unrecoverable_exception)
      × (r.reason ≢ exit_invalid_vp_register_value)
      × (r.reason ≢ exit_unsupported_feature)

-- The decision that an evaluation leaves.
abbrev pub decision_of : Bool × Option WhpExitDecision → WhpExitDecision
decision_of (ok, some d) = d
decision_of (ok, none) = initialize_decision none

route_cases :
    (reason : ℕ)
    → ((((route reason).0 ≡ success) × ((route reason).1 ≢ to_quarantine))
        ⊎ (((route reason).0 ≡ exit_unsupported) × ((route reason).1 ≡ to_quarantine)))
unfolding route
route_cases reason = ground arith

route_handled :
    (reason : ℕ)
    → (is_reason_valid reason ≡ true)
    → ((route reason).0 ≡ success) ↔ (
        (reason ≢ exit_unrecoverable_exception)
        × (reason ≢ exit_invalid_vp_register_value)
        × (reason ≢ exit_unsupported_feature))
unfolding route is_reason_valid
route_handled reason v = ground arith

reason_valid :
    (r : WhpExitRecord) → is_whp_exit_record_valid (some r) ≡ true → is_reason_valid r.reason ≡ true
unfolding is_whp_exit_record_valid
reason_valid r v = ground arith

zero_or_not : (n : ℕ) → (n ≡ 0) ⊎ (n ≢ 0)
zero_or_not n = omega arith

module _ (p : WhpPartition) (r : WhpExitRecord) (g : ℕ) (out : WhpExitDecision) where
  abbrev pub decision : WhpExitDecision
  decision = decision_of (evaluate_whp_exit (some p) (some r) g (some out))

  refused : decision.status ≢ 0 → (decision.action ≡ action_code to_quarantine) × ¬ IsHandled p r g
  unfolding evaluate_whp_exit
  refused bad = (
    ground (arith, route_cases r.reason),
    λ (h : IsHandled p r g). ground (
      arith,
      h.valid,
      h.exit_valid,
      h.positive,
      h.current,
      h.running,
      h.known_vcpu,
      h.handler,
      (route_handled r.reason (reason_valid r h.exit_valid)).1,
    ),
  )

  passed :
      decision.status ≡ 0
      → (is_whp_partition_valid (some p) ≡ true)
        × (is_whp_exit_record_valid (some r) ≡ true)
        × (g ≢ 0)
        × (p.generation ≡ g)
        × (r.generation ≡ g)
        × (p.state ≡ partition_running)
        × (r.vcpu_index < p.configured_vcpus)
        × ((route r.reason).0 ≡ success)
        × (decision.action ≢ action_code to_quarantine)
  unfolding evaluate_whp_exit
  passed good = ground (arith, route_cases r.reason)

  handled : decision.status ≡ 0 → IsHandled p r g × (decision.action ≢ action_code to_quarantine)
  handled good =
      let (v, w, positive, same, same', on, few, routed, action) = passed good in
      (
        record {
          valid = v;
          exit_valid = w;
          positive = positive;
          current = (same, same');
          running = on;
          known_vcpu = few;
          handler = (route_handled r.reason (reason_valid r w)).0 routed;
        },
        action,
      )

  -- An evaluated exit succeeds, under an action other than the quarantine, exactly where the partition
  -- is valid, running and of the given generation, and the record is valid, of that generation, from
  -- one of its configured processors and for a reason that a handler takes. Any other is quarantined.
  pub evaluate_handles :
      ((decision.status ≡ status_code success) ↔ IsHandled p r g)
      × (decision.status ≡ status_code success → decision.action ≢ action_code to_quarantine)
      × (decision.status ≢ status_code success → decision.action ≡ action_code to_quarantine)
  evaluate_handles = (
    (
      λ good. (handled good).0,
      λ h. elim (zero_or_not (decision.status)) [
        | inl good ↦ good
        | inr bad ↦ absurd ((refused bad).1 h)
      ],
    ),
    λ good. (handled good).1,
    λ bad. (refused bad).0,
  )
