-- ===== src/Boot/Moves.antt =====
-- What each operation of src/boot/boot_contract.cpp may do to a contract, and with which status.
use knhv.Prelude.{
  ◌≡◌, refl, ap, ◌≢◌, Bool, inl, inr, true, false, not, ◌||◌, Option, none, some, arith,
}
use knhv.Prelude.Tests.{◌==◌, ◌!=◌, if◌then◌else◌, Bool-cases}
use knhv.Abi.{
  HvStatus, success, invalid_parameter, busy, recovery_required, hardware_owner_conflict,
  boot_handoff_failed, hardware_unsupported,
}
use knhv.Boot.Defs.{
  BootL0State, BootContext, BootL0Contract, pre_l0, root_active, windows_handoff, ready, recovery,
}
use knhv.Boot.Ops.{
  valid_context, valid_contract, publish_evidence, no_owner, invalidate_owner, recovered, has_root,
  started, start_valid, is_pre_l0, start_boot_l0, is_root_active, handoff_valid, handoff_windows,
  is_success, recovery_status, recover_boot_l0, stop_boot_l0,
}

pub data Call : Type 0 where
  start handoff : Option BootContext → Call
  recover : HvStatus → Call
  stop : Call

unfoldable pub step : BootL0Contract → Call → HvStatus × BootL0Contract
step c (start x) = start_boot_l0 c x
step c (handoff x) = handoff_windows c x
step c (recover reason) = recover_boot_l0 c reason
step c stop = stop_boot_l0 c

-- What a context must say for a root to start on it.
pub record MayStart (x : BootContext) : Type 0 where
  pub context_valid : valid_context x ≡ true
  pub no_external_owner : x.external_owner ≡ 0
  pub manifest_checked : x.manifest_valid ≢ 0
  pub vmx_ready : x.physical_vmx_ready ≢ 0

-- A start or a handoff without a context, or on one that is not valid.
abbrev lacks_context : Call → Bool
lacks_context (start none) = true
lacks_context (handoff none) = true
lacks_context (start (some x)) = not (valid_context x)
lacks_context (handoff (some x)) = not (valid_context x)
lacks_context (recover reason) = false
lacks_context stop = false

-- What a handoff needs of a contract: a root that is active, the one owner of the context's processors.
abbrev IsTurn : BootL0Contract → BootContext → Type 0
IsTurn c x =
    (c.state ≡ root_active)
    × (c.owner.owner_count ≡ 1)
    × (c.owner.active_processors ≡ x.logical_processors)

abbrev IsAccepted : BootL0Contract → Call → Type 0
IsAccepted c call = (valid_contract c ≡ true) × (lacks_context call ≡ false)

-- The answers that leave a contract as it is.
pub data Refusal (c : BootL0Contract) : Call → HvStatus → Type 0 where
  not_valid : {call : Call} → valid_contract c ≡ false → Refusal c call invalid_parameter
  no_context : {call : Call} → lacks_context call ≡ true → Refusal c call invalid_parameter
  not_started : valid_contract c ≡ true → c.state ≡ pre_l0 → Refusal c stop success
  not_recovered : valid_contract c ≡ true → c.state ≡ recovery → Refusal c stop recovery_required

-- The answers that the evidence notes, and nothing else does: a root is there already, or it is not the
-- handoff's turn.
pub data Note (c : BootL0Contract) : Call → HvStatus → Type 0 where
  has_started : {x : BootContext} → has_root c.state ≡ true → Note c (start (some x)) busy
  no_turn : {x : BootContext} → ¬ (IsTurn c x) → Note c (handoff (some x)) recovery_required

-- The errors that give up every owner and go to recovery.
pub data Failure (c : BootL0Contract) : Call → HvStatus → Type 0 where
  owned_elsewhere :
      {x : BootContext}
      → has_root c.state ≡ false
      → x.external_owner ≢ 0
      → Failure c (start (some x)) hardware_owner_conflict
  not_checked :
      {x : BootContext}
      → has_root c.state ≡ false
      → x.external_owner ≡ 0
      → x.manifest_valid ≡ 0
      → Failure c (start (some x)) boot_handoff_failed
  no_vmx :
      {x : BootContext}
      → has_root c.state ≡ false
      → x.external_owner ≡ 0
      → x.manifest_valid ≢ 0
      → x.physical_vmx_ready ≡ 0
      → Failure c (start (some x)) hardware_unsupported
  windows_not_ready :
      {x : BootContext}
      → IsTurn c x
      → x.windows_handoff_ready ≡ 0
      → Failure c (handoff (some x)) boot_handoff_failed
  given_up : {reason : HvStatus} → reason ≢ success → Failure c (recover reason) reason
  given_up_without : Failure c (recover success) recovery_required

-- What one call may do to a contract: nothing, with a refusal; note an answer in the evidence; fail; start
-- a root; hand a root to Windows; and stop a root. All but the refusals are on a valid contract, and on
-- a valid context where the call has one.
pub data Move : Call → BootL0Contract → HvStatus × BootL0Contract → Type 0 where
  refuses :
      {call : Call} {c : BootL0Contract} {status : HvStatus}
      → Refusal c call status
      → Move call c (status, c)
  notes :
      {call : Call} {c : BootL0Contract} {status : HvStatus}
      → IsAccepted c call
      → Note c call status
      → Move call c (status, publish_evidence c status)
  fails :
      {call : Call} {c : BootL0Contract} {status : HvStatus}
      → IsAccepted c call
      → Failure c call status
      → Move call c (status, recovered c status)
  starts :
      {x : BootContext} {c : BootL0Contract}
      → IsAccepted c (start (some x))
      → has_root c.state ≡ false
      → MayStart x
      → Move (start (some x)) c (success, started c x.logical_processors)
  hands_off :
      {x : BootContext} {c : BootL0Contract}
      → IsAccepted c (handoff (some x))
      → IsTurn c x
      → x.windows_handoff_ready ≢ 0
      → Move (handoff (some x)) c (success, publish_evidence (record c { state = ready }) success)
  stops :
      {c : BootL0Contract}
      → IsAccepted c stop
      → has_root c.state ≡ true
      → Move stop c
          (success, publish_evidence (record c { state = pre_l0; owner = no_owner }) success)

start_moves :
    (c : BootL0Contract) (x : BootContext)
    → valid_contract c ≡ true
    → valid_context x ≡ true
    → Move (start (some x)) c (start_valid c x)
unfolding start_valid
start_moves c x ok v =
    let accepted : IsAccepted c (start (some x)) = (ok, ground arith) in
    elim (Bool-cases (has_root c.state)) [
      | inl e ↦ rw e (notes accepted (has_started e))
      | inr e ↦ elim (Bool-cases (x.external_owner != 0)) [
        | inl f ↦ rw (e, f) (fails accepted (owned_elsewhere e (ground arith)))
        | inr f ↦
            let free : x.external_owner ≡ 0 = ground arith in
            elim (Bool-cases (x.manifest_valid == 0)) [
              | inl g ↦ rw (e, f, g) (fails accepted (not_checked e free (ground arith)))
              | inr g ↦
                  let checked : x.manifest_valid ≢ 0 = ground arith in
                  elim (Bool-cases (x.physical_vmx_ready == 0)) [
                    | inl h ↦
                        rw (e, f, g, h) (fails accepted (no_vmx e free checked (ground arith)))
                    | inr h ↦
                        rw (e, f, g, h)
                          (starts accepted e record {
                            context_valid = v;
                            no_external_owner = free;
                            manifest_checked = checked;
                            vmx_ready = ground arith;
                          })
                  ]
            ]
      ]
    ]

root_active-eq : (s : BootL0State) → is_root_active s ≡ true → s ≡ root_active
root_active-eq root_active h = refl
root_active-eq pre_l0 h = absurd (ground arith)
root_active-eq windows_handoff h = absurd (ground arith)
root_active-eq ready h = absurd (ground arith)
root_active-eq recovery h = absurd (ground arith)

guard_passes :
    (c : BootL0Contract) (x : BootContext)
    → (not (is_root_active c.state)
        || c.owner.owner_count != 1
        || c.owner.active_processors != x.logical_processors)
      ≡ false
    → IsTurn c x
guard_passes c x h =
    let active : is_root_active c.state ≡ true = ground arith in
    (root_active-eq c.state active, ground arith, ground arith)

guard_refuses :
    (c : BootL0Contract) (x : BootContext)
    → (not (is_root_active c.state)
        || c.owner.owner_count != 1
        || c.owner.active_processors != x.logical_processors)
      ≡ true
    → ¬ (IsTurn c x)
guard_refuses c x h (active, one, same) =
    let there : is_root_active c.state ≡ true = ap is_root_active active in ground arith

handoff_moves :
    (c : BootL0Contract) (x : BootContext)
    → valid_contract c ≡ true
    → valid_context x ≡ true
    → Move (handoff (some x)) c (handoff_valid c x)
unfolding handoff_valid publish_evidence
handoff_moves c x ok v =
    let accepted : IsAccepted c (handoff (some x)) = (ok, ground arith) in
    elim (Bool-cases (
      not (is_root_active c.state)
      || c.owner.owner_count != 1
      || c.owner.active_processors != x.logical_processors)) [
        | inl e ↦ rw e (notes accepted (no_turn (guard_refuses c x e)))
        | inr e ↦ elim (Bool-cases (x.windows_handoff_ready == 0)) [
          | inl f ↦
              rw (e, f) (fails accepted (windows_not_ready (guard_passes c x e) (ground arith)))
          | inr f ↦ rw (e, f) (hands_off accepted (guard_passes c x e) (ground arith))
        ]
      ]

is_success-eq : (s : HvStatus) → is_success s ≡ true → s ≡ success
is_success-eq success h = refl
is_success-eq _ h = absurd (ground arith)

recovery_fails :
    (c : BootL0Contract) (reason : HvStatus) → Failure c (recover reason) (recovery_status reason)
recovery_fails c reason = elim (Bool-cases (is_success reason)) [
  | inl e ↦ rw (is_success-eq reason e) given_up_without
  | inr e ↦ rw e (given_up (λ h. ground (arith, ap is_success h)))
]

stop_refuses :
    (c : BootL0Contract)
    → valid_contract c ≡ true
    → has_root c.state ≡ false
    → Refusal c stop (if is_pre_l0 c.state then success else recovery_required)
stop_refuses c v h = by_state c.state refl h
  where
    by_state :
        (s : BootL0State)
        → c.state ≡ s
        → has_root c.state ≡ false
        → Refusal c stop (if is_pre_l0 c.state then success else recovery_required)
    by_state pre_l0 e h =
        let first : is_pre_l0 c.state ≡ true = ap is_pre_l0 e in rw first (not_started v e)
    by_state recovery e h =
        let later : is_pre_l0 c.state ≡ false = ap is_pre_l0 e in rw later (not_recovered v e)
    by_state root_active e h = absurd (ground (arith, ap has_root e))
    by_state windows_handoff e h = absurd (ground (arith, ap has_root e))
    by_state ready e h = absurd (ground (arith, ap has_root e))

pub step_moves : (c : BootL0Contract) (call : Call) → Move call c (step c call)
unfolding step start_boot_l0 handoff_windows recover_boot_l0 stop_boot_l0 invalidate_owner
step_moves c (start none) = refuses (no_context refl)
step_moves c (handoff none) = refuses (no_context refl)
step_moves c (start (some x)) = elim (Bool-cases (valid_contract c)) [
  | inl e ↦ elim (Bool-cases (valid_context x)) [
    | inl f ↦ rw (e, f) (start_moves c x e f)
    | inr f ↦ rw (e, f) (refuses (no_context (ap not f)))
  ]
  | inr e ↦ rw e (refuses (not_valid e))
]
step_moves c (handoff (some x)) = elim (Bool-cases (valid_contract c)) [
  | inl e ↦ elim (Bool-cases (valid_context x)) [
    | inl f ↦ rw (e, f) (handoff_moves c x e f)
    | inr f ↦ rw (e, f) (refuses (no_context (ap not f)))
  ]
  | inr e ↦ rw e (refuses (not_valid e))
]
step_moves c (recover reason) = elim (Bool-cases (valid_contract c)) [
  | inl e ↦ rw e (fails (e, refl) (recovery_fails c reason))
  | inr e ↦ rw e (refuses (not_valid e))
]
step_moves c stop = elim (Bool-cases (valid_contract c)) [
  | inl e ↦ elim (Bool-cases (has_root c.state)) [
    | inl f ↦ rw (e, f) (stops (e, refl) f)
    | inr f ↦ rw (e, f) (refuses (stop_refuses c e f))
  ]
  | inr e ↦ rw e (refuses (not_valid e))
]
