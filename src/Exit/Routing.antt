-- ===== src/Exit/Routing.antt =====
-- What `EvaluateExit` of src/exit/exit_model.cpp may decide, and when.
use knhv.Prelude.{◌≡◌, ◌⊎◌, true, false, arith}
use knhv.Prelude.Bits.{any_bits}
use knhv.Exit.{
  ExitRecord, ExitPolicy, ExitDecision, quarantine_required, quarantine_vcpu, record_host_owned,
  record_entry_failure,
}
use knhv.Exit.Classes.{ExitClass, unknown, memory, guest_state, is_class}
use knhv.Exit.Evaluate.{route_class}

-- What is never passed on to a guest: an unknown reason, a failed entry that is no guest-state
-- exit, a memory exit on a host-owned page.
abbrev pub IsContained : ExitRecord → ExitClass → Type 0
IsContained r c =
    (c ≡ unknown)
    ⊎ ((any_bits r.flags record_entry_failure ≡ true) × (is_class c guest_state ≡ false))
    ⊎ ((c ≡ memory) × (any_bits r.flags record_host_owned ≡ true))

module _ (r : ExitRecord) (p : ExitPolicy) (c : ExitClass) (d : ExitDecision) where
  -- An exit of that kind quarantines the virtual processor.
  pub route_class_contains :
      IsContained r c
      → ((route_class r p c d).status ≡ quarantine_required)
        × ((route_class r p c d).action ≡ quarantine_vcpu)
  unfolding route_class
  route_class_contains h = ground arith
