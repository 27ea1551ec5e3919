-- ===== src/Iommu/Lifecycle.antt =====
-- The life of an assignment in src/iommu/iommu_model.cpp: what every call keeps, and where it ends.
use knhv.Prelude.{
  ℕ, ◌≤◌, ◌≡◌, ◌≢◌, ◌⊎◌, inl, inr, refl, ◌∙◌, Bool, true, false, Option, none, some, List, [], ◌∷◌,
  arith, bit_or,
}
use knhv.Prelude.Tests.{Bool-cases}
use knhv.Prelude.Bits.{any_bits, any_bits-bit_or, not32}
use knhv.Iommu.Defs.{
  IommuAssignment, IommuFaultRecord, known_assignment_mask, assignment_quarantined, state_prepared,
  state_active, state_draining, state_quarantined, state_retired, status_code, fault_quarantined,
  activate_ready_mask, detach_ready_mask, complete_detach_ready_mask,
}
use knhv.Iommu.Validity.{is_assignment_valid, is_readiness_valid}
use knhv.Iommu.Assignment.{
  may_advance, activate_iommu_assignment, begin_iommu_detach, complete_iommu_detach,
  quarantine_iommu_assignment, may_quarantine, quarantined_assignment,
}

-- A call on an assignment that has been prepared.
pub data Call : Type 0 where
  activate begin_detach complete_detach : ℕ → ℕ → Call
  quarantine : IommuFaultRecord → Call

unfoldable pub step : IommuAssignment → Call → Bool × Option IommuAssignment
step a (activate generation readiness) = activate_iommu_assignment (some a) generation readiness
step a (begin_detach generation readiness) = begin_iommu_detach (some a) generation readiness
step a (complete_detach generation readiness) = complete_iommu_detach (some a) generation readiness
step a (quarantine fault) = quarantine_iommu_assignment (some a) (some fault)

-- The edges of the life cycle, by the codes of the states.
pub data Edge : ℕ → ℕ → Type 0 where
  activates : Edge state_prepared state_active
  drains : Edge state_active state_draining
  retires : Edge state_draining state_retired
  faults : {s : ℕ} → s ≢ state_retired → s ≢ state_quarantined → Edge s state_quarantined

-- Identity and ownership do not change over the life of an assignment.
pub record SameIdentity (a b : IommuAssignment) : Type 0 where
  pub same_bdf : b.bdf ≡ a.bdf
  pub same_owner : b.owner_id ≡ a.owner_id
  pub same_domain : b.domain_id ≡ a.domain_id
  pub same_generation : b.generation ≡ a.generation
  pub same_reset : b.reset_method ≡ a.reset_method

quarantined_flags :
    (flags : ℕ)
    → any_bits flags (not32 known_assignment_mask) ≡ false
    → any_bits (bit_or flags assignment_quarantined) (not32 known_assignment_mask) ≡ false
quarantined_flags flags h =
    rw (any_bits-bit_or flags assignment_quarantined (not32 known_assignment_mask), h)
      (unfold any_bits in refl)

advance_valid :
    (a : IommuAssignment) (from to generation readiness required : ℕ)
    → may_advance a from generation readiness required ≡ true
    → to ≢ 0
    → to ≤ 5
    → is_assignment_valid (record a { state = to }) ≡ true
unfolding may_advance is_assignment_valid
advance_valid a from to generation readiness required h pos le = ground arith

advance_parts :
    (a : IommuAssignment) (from generation readiness required : ℕ)
    → may_advance a from generation readiness required ≡ true
    → (is_assignment_valid a ≡ true)
      × (a.state ≡ from)
      × (is_readiness_valid readiness required ≡ true)
unfolding may_advance
advance_parts a from generation readiness required h = ground arith

quarantine_parts :
    (a : IommuAssignment) (f : IommuFaultRecord)
    → may_quarantine a f ≡ true
    → (is_assignment_valid a ≡ true) × (a.state ≢ state_retired) × (a.state ≢ state_quarantined)
unfolding may_quarantine
quarantine_parts a f h = ground arith

quarantine_valid :
    (a : IommuAssignment) (count : ℕ)
    → is_assignment_valid a ≡ true
    → is_assignment_valid (record a {
      fault_count = count;
      flags = bit_or a.flags assignment_quarantined;
      state = state_quarantined;
      status = status_code fault_quarantined;
    })
      ≡ true
unfolding is_assignment_valid
quarantine_valid a count h = ground (arith, quarantined_flags a.flags)

-- What a call that succeeds does: from a valid assignment to a valid one of the same identity, along
-- an edge of the life cycle, and to the active state only with every readiness bit.
pub record IsStep (a : IommuAssignment) (c : Call) (b : IommuAssignment) : Type 0 where
  pub valid_before : is_assignment_valid a ≡ true
  pub valid_after : is_assignment_valid b ≡ true
  pub edge : Edge a.state b.state
  pub identity : SameIdentity a b
  pub readied :
      b.state ≡ state_active
      → (generation : ℕ) × (readiness : ℕ) × (c ≡ activate generation readiness)
        × (is_readiness_valid readiness activate_ready_mask ≡ true)

advance-IsStep :
    (a : IommuAssignment) (c : Call) (from to generation readiness required : ℕ)
    → may_advance a from generation readiness required ≡ true
    → to ≢ 0
    → to ≤ 5
    → Edge from to
    → (to ≡ state_active
        → (generation : ℕ) × (readiness : ℕ) × (c ≡ activate generation readiness)
          × (is_readiness_valid readiness activate_ready_mask ≡ true))
    → IsStep a c (record a { state = to })
advance-IsStep a c from to generation readiness required h pos le edge ready =
    let (v, e, _) = advance_parts a from generation readiness required h in
    record {
      valid_before = v;
      valid_after = advance_valid a from to generation readiness required h pos le;
      edge = rw e edge;
      identity = record {
        same_bdf = refl;
        same_owner = refl;
        same_domain = refl;
        same_generation = refl;
        same_reset = refl;
      };
      readied = ready;
    }

-- Every call succeeds from a valid assignment to a valid one of the same identity, along an edge of
-- the life cycle, to active only with every readiness bit; or it answers false and leaves the
-- assignment as it was.
pub step_cases :
    (a : IommuAssignment) (c : Call)
    → ((b : IommuAssignment) × (step a c ≡ (true, some b)) × IsStep a c b)
      ⊎ (step a c ≡ (false, some a))
unfolding step activate_iommu_assignment begin_iommu_detach complete_iommu_detach
    quarantine_iommu_assignment
step_cases a (activate g r) =
    elim (Bool-cases (may_advance a state_prepared g r activate_ready_mask)) [
      | inl e ↦
          let ready = (advance_parts a state_prepared g r activate_ready_mask e).2 in
          inl (
            record a { state = state_active },
            rw e,
            advance-IsStep a _ state_prepared state_active g r activate_ready_mask e (omega arith)
                (omega arith) activates (λ _. (g, r, refl, ready)),
          )
      | inr e ↦ inr (rw e)
    ]
step_cases a (begin_detach g r) =
    elim (Bool-cases (may_advance a state_active g r detach_ready_mask)) [
      | inl e ↦ inl (
        record a { state = state_draining },
        rw e,
        advance-IsStep a _ state_active state_draining g r detach_ready_mask e (omega arith)
            (omega arith) drains (λ q. absurd (omega arith)),
      )
      | inr e ↦ inr (rw e)
    ]
step_cases a (complete_detach g r) =
    elim (Bool-cases (may_advance a state_draining g r complete_detach_ready_mask)) [
      | inl e ↦ inl (
        record a { state = state_retired },
        rw e,
        advance-IsStep a _ state_draining state_retired g r complete_detach_ready_mask e
            (omega arith) (omega arith) retires (λ q. absurd (omega arith)),
      )
      | inr e ↦ inr (rw e)
    ]
step_cases a (quarantine f) = elim (Bool-cases (may_quarantine a f)) [
  | inl e ↦
      let (v, p, q) = quarantine_parts a f e in
      inl (
        quarantined_assignment a,
        rw e,
        record {
          valid_before = v;
          valid_after = quarantine_valid a _ v;
          edge = faults p q;
          identity = record {
            same_bdf = refl;
            same_owner = refl;
            same_domain = refl;
            same_generation = refl;
            same_reset = refl;
          };
          readied = λ q. absurd (omega arith);
        },
      )
  | inr e ↦ inr (rw e)
]

Edge-source : {s t : ℕ} → Edge s t → (s ≢ state_retired) × (s ≢ state_quarantined)
Edge-source activates = (omega arith, omega arith)
Edge-source drains = (omega arith, omega arith)
Edge-source retires = (omega arith, omega arith)
Edge-source (faults p q) = (p, q)

-- A retired or quarantined assignment is final: every call answers false and changes nothing.
pub step_final :
    (a : IommuAssignment) (c : Call)
    → (a.state ≡ state_retired) ⊎ (a.state ≡ state_quarantined)
    → step a c ≡ (false, some a)
step_final a c final = elim (step_cases a c) [
  | inl (b, e, s) ↦ absurd (ground (arith, Edge-source s.edge))
  | inr e ↦ e
]

-- What a call leaves, and what a row of calls leaves.
abbrev pub left_by : IommuAssignment → Bool × Option IommuAssignment → IommuAssignment
left_by a (ok, some b) = b
left_by a (ok, none) = a

unfoldable pub run : IommuAssignment → List Call → IommuAssignment
run a [] = a
run a (c ∷ cs) = run (left_by a (step a c)) cs

left_cases :
    (a : IommuAssignment) (c : Call)
    → IsStep a c (left_by a (step a c)) ⊎ (left_by a (step a c) ≡ a)
left_cases a c = elim (step_cases a c) [ inl (b, e, s) ↦ inl (rw e s) | inr e ↦ inr (rw e) ]

SameIdentity-refl : (a : IommuAssignment) → SameIdentity a a
SameIdentity-refl a = record {
  same_bdf = refl;
  same_owner = refl;
  same_domain = refl;
  same_generation = refl;
  same_reset = refl;
}

left-valid :
    (a : IommuAssignment) (c : Call)
    → is_assignment_valid a ≡ true
    → is_assignment_valid (left_by a (step a c)) ≡ true
left-valid a c v = elim (left_cases a c) [ inl s ↦ s.valid_after | inr e ↦ rw e v ]

left_identity : (a : IommuAssignment) (c : Call) → SameIdentity a (left_by a (step a c))
left_identity a c = elim (left_cases a c) [
  | inl s ↦ s.identity
  | inr e ↦ rw e (SameIdentity-refl a)
]

SameIdentity-trans :
    {a b c : IommuAssignment} → SameIdentity a b → SameIdentity b c → SameIdentity a c
SameIdentity-trans p q = record {
  same_bdf = q.same_bdf ∙ p.same_bdf;
  same_owner = q.same_owner ∙ p.same_owner;
  same_domain = q.same_domain ∙ p.same_domain;
  same_generation = q.same_generation ∙ p.same_generation;
  same_reset = q.same_reset ∙ p.same_reset;
}

run-valid :
    (a : IommuAssignment) (cs : List Call)
    → is_assignment_valid a ≡ true
    → (is_assignment_valid (run a cs) ≡ true) × SameIdentity a (run a cs)
unfolding run
run-valid a [] v = (v, SameIdentity-refl a)
run-valid a (c ∷ cs) v =
    let (w, same) = run-valid (left_by a (step a c)) cs (left-valid a c v) in
    (w, SameIdentity-trans (left_identity a c) same)

run_final :
    (a : IommuAssignment) (cs : List Call)
    → (a.state ≡ state_retired) ⊎ (a.state ≡ state_quarantined)
    → run a cs ≡ a
unfolding run
run_final a [] final = refl
run_final a (c ∷ cs) final = rw (step_final a c final) (run_final a cs final)

-- Whatever calls are made, a valid assignment stays valid and keeps its device, owner, domain,
-- generation and reset method; and an assignment that faulted or retired on the way stays so.
pub run_keeps :
    (a : IommuAssignment) (before after : List Call)
    → is_assignment_valid a ≡ true
    → (is_assignment_valid (run a before) ≡ true)
      × SameIdentity a (run a before)
      × ((((run a before).state ≡ state_retired) ⊎ ((run a before).state ≡ state_quarantined))
          → run (run a before) after ≡ run a before)
run_keeps a before after v =
    let (valid, same) = run-valid a before v in (valid, same, run_final (run a before) after)
