-- ===== src/Boot/Sound.antt =====
-- What the operations of src/boot/boot_contract.cpp keep.
use knhv.Prelude.{
  ℕ, ◌+◌, ◌*◌, ◌^◌, ◌≤◌, ◌<◌, ◌≡◌, refl, sym, ap, ◌≢◌, ◌⊎◌, inl, inr, true, false, some, List, [],
  ◌∷◌, arith,
}
use knhv.Prelude.Tests.{◌==◌, ◌!=◌}
use knhv.Prelude.Power.{bit_or_shift}
use knhv.Abi.{HvStatus, is_versioned_buffer_valid, success}
use knhv.Boot.Defs.{
  BootContext, BootOwnerToken, BootL0Contract, pre_l0, root_active, ready, recovery,
}
use knhv.Boot.Ops.{
  valid_context, valid_contract, publish_evidence, no_owner, invalidate_owner, recovered,
  blank_contract, initialize_boot_l0_contract, has_root, next_generation, with_root, started,
  start_valid, start_boot_l0, handoff_valid, handoff_windows,
}
use knhv.Boot.Moves.{
  Call, start, handoff, step, MayStart, Move, refuses, notes, fails, starts, hands_off, stops,
  step_moves,
}

-- The token of a root that owns the processors under a generation.
abbrev pub OwnsAt : ℕ → BootOwnerToken → Type 0
OwnsAt generation o =
    (o.owner_count ≡ 1)
    × (o.generation ≡ generation)
    × (0 < o.active_processors)
    × (o.active_processors ≤ 4096)
    × (o.nonce ≡ generation * 2 ^ 32 + o.active_processors)

-- A contract that the operations have made: it is valid, there is one owner exactly where there is a
-- root, and the evidence shows the state and the owner.
pub record IsSound (c : BootL0Contract) : Type 0 where
  pub valid : valid_contract c ≡ true
  pub generation_bound : (0 < c.generation) × (c.generation < 2 ^ 32)
  pub owner :
      ((has_root c.state ≡ true) × OwnsAt c.generation c.owner)
      ⊎ ((has_root c.state ≡ false) × (c.owner ≡ no_owner))
  pub shows_state : c.evidence.state ≡ c.state
  pub shows_generation : c.evidence.boot_generation ≡ c.generation
  pub shows_owner :
      (c.evidence.owner_generation ≡ c.owner.generation)
      × (c.evidence.owner_count ≡ c.owner.owner_count)
      × (c.evidence.active_processors ≡ c.owner.active_processors)

-- Publishing the evidence of a valid contract with one owner or none makes it sound.
same_header :
    (c d : BootL0Contract)
    → d.version ≡ c.version
    → d.size ≡ c.size
    → valid_contract c ≡ true
    → valid_contract d ≡ true
unfolding valid_contract
same_header c d e f v = rw (e, f) v

published-IsSound :
    (c : BootL0Contract) (status : HvStatus)
    → valid_contract c ≡ true
    → (0 < c.generation) × (c.generation < 2 ^ 32)
    → ((has_root c.state ≡ true) × OwnsAt c.generation c.owner)
      ⊎ ((has_root c.state ≡ false) × (c.owner ≡ no_owner))
    → IsSound (publish_evidence c status)
unfolding publish_evidence
published-IsSound c status v g o = record {
  valid = same_header c _ refl refl v;
  generation_bound = g;
  owner = o;
  shows_state = refl;
  shows_generation = refl;
  shows_owner = (refl, refl, refl);
}

started_owner :
    (c : BootL0Contract) (n : ℕ)
    → 0 < n
    → n ≤ 4096
    → OwnsAt (next_generation c.generation) (started c n).owner
unfolding started publish_evidence
started_owner c n pos few =
    (refl, refl, pos, few, bit_or_shift 32 (next_generation c.generation) n (omega arith))

next_generation_bound : (g : ℕ) → (0 < next_generation g) × (next_generation g < 2 ^ 32)
unfolding next_generation
next_generation_bound g = ground arith

context_processors :
    (x : BootContext)
    → valid_context x ≡ true
    → (0 < x.logical_processors) × (x.logical_processors ≤ 4096)
unfolding valid_context
context_processors x v = ground arith

root_gone : (c : BootL0Contract) (status : HvStatus) → IsSound c → IsSound (recovered c status)
unfolding recovered invalidate_owner
root_gone c status s =
    published-IsSound (record c { state = recovery; owner = no_owner }) status
      (same_header c _ refl refl s.valid) s.generation_bound (inr (refl, refl))

owner_of : (c : BootL0Contract) → IsSound c → c.state ≡ root_active → OwnsAt c.generation c.owner
owner_of c s e = elim s.owner [
  | inl (_, o) ↦ o
  | inr (none_there, _) ↦ absurd (ground (arith, ap has_root e))
]

started-IsSound :
    (c : BootL0Contract) (x : BootContext)
    → IsSound c
    → MayStart x
    → IsSound (started c x.logical_processors)
unfolding started
started-IsSound c x s may =
    let (pos, few) = context_processors x may.context_valid in
    published-IsSound (with_root c (next_generation c.generation) x.logical_processors) success
      (same_header c _ refl refl s.valid) (next_generation_bound c.generation)
      (inl (refl, started_owner c x.logical_processors pos few))

Move-IsSound :
    {call : Call} {c : BootL0Contract} {r : HvStatus × BootL0Contract}
    → IsSound c
    → Move call c r
    → IsSound r.1
Move-IsSound s (refuses _) = s
Move-IsSound {c = c} s (notes {status = status} _ _) =
    published-IsSound c status s.valid s.generation_bound s.owner
Move-IsSound {c = c} s (fails {status = status} _ _) = root_gone c status s
Move-IsSound {c = c} s (starts {x = x} _ _ may) = started-IsSound c x s may
Move-IsSound {c = c} s (hands_off _ (e, _, _) _) =
    published-IsSound _ success (same_header c _ refl refl s.valid) s.generation_bound
      (inl (refl, owner_of c s e))
Move-IsSound {c = c} s (stops _ _) =
    published-IsSound (record c { state = pre_l0; owner = no_owner }) success
      (same_header c _ refl refl s.valid) s.generation_bound (inr (refl, refl))

-- The contract after a row of calls.
unfoldable pub run : BootL0Contract → List Call → BootL0Contract
unfolding step
run c [] = c
run c (call ∷ calls) = run (step c call).1 calls

run-IsSound : (c : BootL0Contract) (calls : List Call) → IsSound c → IsSound (run c calls)
unfolding run
run-IsSound c [] s = s
run-IsSound c (call ∷ calls) s =
    run-IsSound (step c call).1 calls (Move-IsSound s (step_moves c call))

initial-IsSound : IsSound initialize_boot_l0_contract
unfolding initialize_boot_l0_contract invalidate_owner valid_contract is_versioned_buffer_valid
initial-IsSound =
    published-IsSound (invalidate_owner blank_contract) success refl (omega arith, omega arith)
      (inr (refl, refl))

-- After any row of calls from the initial contract, the contract is valid; there is exactly one owner,
-- of the contract's generation and of up to 4096 processors, while a root is active or ready, and none
-- otherwise; and the evidence shows the state, the generation and the owner.
pub run_keeps_owner : (calls : List Call) → IsSound (run initialize_boot_l0_contract calls)
run_keeps_owner calls = run-IsSound initialize_boot_l0_contract calls initial-IsSound

start_lem :
    (c : BootL0Contract) (x : BootContext)
    → valid_contract c ≡ true
    → has_root c.state ≡ false
    → MayStart x
    → start_boot_l0 c (some x) ≡ (success, started c x.logical_processors)
unfolding start_boot_l0 start_valid
start_lem c x v e may =
    let manifest : (x.manifest_valid == 0) ≡ false = ground (arith, may.manifest_checked) in
    let vmx : (x.physical_vmx_ready == 0) ≡ false = ground (arith, may.vmx_ready) in
    rw (v, may.context_valid, e, may.no_external_owner, manifest, vmx) refl

handoff_lem :
    (c : BootL0Contract) (y : BootContext)
    → valid_contract c ≡ true
    → valid_context y ≡ true
    → c.state ≡ root_active
    → c.owner.owner_count ≡ 1
    → c.owner.active_processors ≡ y.logical_processors
    → y.windows_handoff_ready ≢ 0
    → handoff_windows c (some y) ≡ (success, publish_evidence (record c { state = ready }) success)
unfolding handoff_windows handoff_valid publish_evidence
handoff_lem c y v w e one same go =
    let active : (c.owner.active_processors != y.logical_processors) ≡ false = ground arith in
    let ready_now : (y.windows_handoff_ready == 0) ≡ false = ground (arith, go) in
    rw (v, w, e, one, active, ready_now) refl

-- From a valid contract without a root, a root that starts and is handed to Windows with the same
-- processors is ready, under one owner of those processors.
pub start_handoff :
    (c : BootL0Contract) (x y : BootContext)
    → valid_contract c ≡ true
    → has_root c.state ≡ false
    → MayStart x
    → valid_context y ≡ true
    → y.logical_processors ≡ x.logical_processors
    → y.windows_handoff_ready ≢ 0
    → let d = run c (start (some x) ∷ handoff (some y) ∷ []) in
      (d.state ≡ ready)
      × OwnsAt (next_generation c.generation) d.owner
      × (d.owner.active_processors ≡ y.logical_processors)
unfolding run
start_handoff c x y v e may w same go =
    let (pos, few) = context_processors x may.context_valid in
    let handed =
      handoff_lem (started c x.logical_processors) y
        (unfold started in same_header c (started c x.logical_processors) refl refl v) w
        (unfold started publish_evidence in refl) (unfold started publish_evidence in refl)
        (unfold started publish_evidence in sym same) go in
    rw (run, start_lem c x v e may, handed)
      (
        unfold publish_evidence in refl,
        unfold publish_evidence in started_owner c x.logical_processors pos few,
        unfold started publish_evidence in sym same,
      )
