-- ===== src/Exit/Authority.antt =====
-- Which exits `EvaluateExit` of src/exit/exit_model.cpp resumes the guest for.
use knhv.Prelude.{
  ℕ, ◌≡◌, refl, sym, ap, ◌∙◌, ◌≢◌, ◌⊎◌, inl, inr, Bool, true, false, ◌||◌, List, [], ◌∷◌, arith,
}
use knhv.Prelude.Tests.{◌==◌, Bool-cases}
use knhv.Prelude.Bits.{any_bits}
use knhv.Exit.{
  ExitRecord, ExitPolicy, ExitDecision, resume_guest, record_entry_failure, policy_handles_class,
  locally_handled,
}
use knhv.Exit.Classes.{
  ExitClass, unknown, nested_vmx, memory, guest_state, fatal, interrupt, cpu_control, time, msr, io,
  classify_exit_reason, is_one_of,
}
use knhv.Exit.Evaluate.{route_local, route_class}

-- A number among those listed.
abbrev pub is_listed : ℕ → List ℕ → Bool
is_listed n [] = false
is_listed n (m ∷ ms) = n == m || is_listed n ms

-- The reasons for which the guest may be resumed, with the bit of the allowed classes and the policy's
-- flag that each group needs: an interrupt needs neither, CPUID (10) needs the classes' bit 2 and the
-- flag 0x1, the other CPU-control instructions only the classes' bit, and RDTSC and RDTSCP, the
-- accesses to MSRs and to extended state, and I/O need a bit and a flag of their own.
abbrev pub MayResume : ExitRecord → ExitPolicy → Type 0
MayResume r p =
    (is_listed r.reason (0 ∷ 1 ∷ 7 ∷ 8 ∷ []) ≡ true)
    ⊎ ((r.reason ≡ 10) × (any_bits p.allowed_classes 0x4 ≡ true) × (any_bits p.flags 0x1 ≡ true))
    ⊎ ((is_listed r.reason (12 ∷ 14 ∷ 15 ∷ 28 ∷ 36 ∷ 37 ∷ 39 ∷ 40 ∷ 55 ∷ 56 ∷ 58 ∷ []) ≡ true)
        × (any_bits p.allowed_classes 0x4 ≡ true))
    ⊎ ((is_listed r.reason (16 ∷ 51 ∷ []) ≡ true)
        × (any_bits p.allowed_classes 0x8 ≡ true)
        × (any_bits p.flags 0x2 ≡ true))
    ⊎ ((is_listed r.reason (31 ∷ 32 ∷ 63 ∷ 64 ∷ []) ≡ true)
        × (any_bits p.allowed_classes 0x10 ≡ true)
        × (any_bits p.flags 0x4 ≡ true))
    ⊎ ((r.reason ≡ 30) × (any_bits p.allowed_classes 0x20 ≡ true) × (any_bits p.flags 0x20 ≡ true))

module _ (n : ℕ) where
  interrupt_reason : classify_exit_reason n ≡ interrupt → is_listed n (0 ∷ 1 ∷ 7 ∷ 8 ∷ []) ≡ true
  unfolding classify_exit_reason is_one_of
  interrupt_reason h = ground arith

  time_reason : classify_exit_reason n ≡ time → is_listed n (16 ∷ 51 ∷ []) ≡ true
  unfolding classify_exit_reason is_one_of
  time_reason h = ground arith

  msr_reason : classify_exit_reason n ≡ msr → is_listed n (31 ∷ 32 ∷ 63 ∷ 64 ∷ []) ≡ true
  unfolding classify_exit_reason is_one_of
  msr_reason h = ground arith

  io_reason : classify_exit_reason n ≡ io → n ≡ 30
  unfolding classify_exit_reason is_one_of
  io_reason h = ground arith

  cpu_reason :
      classify_exit_reason n ≡ cpu_control
      → (n == 10) ≡ false
      → is_listed n (12 ∷ 14 ∷ 15 ∷ 28 ∷ 36 ∷ 37 ∷ 39 ∷ 40 ∷ 55 ∷ 56 ∷ 58 ∷ []) ≡ true
  unfolding classify_exit_reason is_one_of
  cpu_reason h k = ground arith

  reason_interrupt : is_listed n (0 ∷ 1 ∷ 7 ∷ 8 ∷ []) ≡ true → classify_exit_reason n ≡ interrupt
  unfolding classify_exit_reason is_one_of
  reason_interrupt h = ground arith

  reason_cpu :
      is_listed n (12 ∷ 14 ∷ 15 ∷ 28 ∷ 36 ∷ 37 ∷ 39 ∷ 40 ∷ 55 ∷ 56 ∷ 58 ∷ []) ≡ true
      → (classify_exit_reason n ≡ cpu_control) × ((n == 10) ≡ false)
  unfolding classify_exit_reason is_one_of
  reason_cpu h = ground arith

  reason_time : is_listed n (16 ∷ 51 ∷ []) ≡ true → classify_exit_reason n ≡ time
  unfolding classify_exit_reason is_one_of
  reason_time h = ground arith

  reason_msr : is_listed n (31 ∷ 32 ∷ 63 ∷ 64 ∷ []) ≡ true → classify_exit_reason n ≡ msr
  unfolding classify_exit_reason is_one_of
  reason_msr h = ground arith

reason_cpuid : classify_exit_reason 10 ≡ cpu_control
unfolding classify_exit_reason is_one_of
reason_cpuid = refl

reason_io : classify_exit_reason 30 ≡ io
unfolding classify_exit_reason is_one_of
reason_io = refl

not_cpuid : (n : ℕ) → classify_exit_reason n ≢ cpu_control → (n == 10) ≡ false
not_cpuid n apart = elim (Bool-cases (n == 10)) [
  | inl e ↦
      let same : n ≡ 10 = ground arith in
      absurd (apart (ap classify_exit_reason same ∙ reason_cpuid))
  | inr e ↦ e
]

module _ (r : ExitRecord) (p : ExitPolicy) (d : ExitDecision) where
  pub resumes_for :
      (c : ExitClass)
      → classify_exit_reason r.reason ≡ c
      → (route_class r p c d).action ≡ resume_guest
      → (any_bits r.flags record_entry_failure ≡ false) × MayResume r p
  unfolding route_class route_local locally_handled policy_handles_class
  resumes_for interrupt e h = (ground arith, inl (interrupt_reason r.reason e))
  resumes_for cpu_control e h = elim (Bool-cases (r.reason == 10)) [
    | inl f ↦ (ground arith, inr (inl (ground arith, ground arith, ground arith)))
    | inr f ↦ (ground arith, inr (inr (inl (cpu_reason r.reason e f, ground arith))))
  ]
  resumes_for time e h =
      let other = not_cpuid r.reason (λ q. ground (arith, sym e ∙ q)) in
      (ground arith, inr (inr (inr (inl (time_reason r.reason e, ground arith, ground arith)))))
  resumes_for msr e h =
      let other = not_cpuid r.reason (λ q. ground (arith, sym e ∙ q)) in
      (
        ground arith,
        inr (inr (inr (inr (inl (msr_reason r.reason e, ground arith, ground arith))))),
      )
  resumes_for io e h =
      let other = not_cpuid r.reason (λ q. ground (arith, sym e ∙ q)) in
      (ground arith, inr (inr (inr (inr (inr (io_reason r.reason e, ground arith, ground arith))))))
  resumes_for memory e h =
      absurd (ground (arith, not_cpuid r.reason (λ q. ground (arith, sym e ∙ q))))
  resumes_for guest_state e h =
      absurd (ground (arith, not_cpuid r.reason (λ q. ground (arith, sym e ∙ q))))
  resumes_for unknown e h = absurd (ground arith)
  resumes_for nested_vmx e h = absurd (ground arith)
  resumes_for fatal e h = absurd (ground arith)

  pub resumes :
      any_bits r.flags record_entry_failure ≡ false
      → MayResume r p
      → (route_class r p (classify_exit_reason r.reason) d).action ≡ resume_guest
  unfolding route_class route_local locally_handled policy_handles_class
  resumes f (inl a) = rw (reason_interrupt r.reason a) (ground arith)
  resumes f (inr (inl (a, b, c))) = rw (a, reason_cpuid) (ground arith)
  resumes f (inr (inr (inl (a, b)))) =
      let (e, other) = reason_cpu r.reason a in rw (e, other) (ground arith)
  resumes f (inr (inr (inr (inl (a, b, c))))) = rw (reason_time r.reason a) (ground arith)
  resumes f (inr (inr (inr (inr (inl (a, b, c)))))) = rw (reason_msr r.reason a) (ground arith)
  resumes f (inr (inr (inr (inr (inr (a, b, c)))))) = rw (a, reason_io) (ground arith)
