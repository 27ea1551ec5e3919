-- ===== src/Boot/Tests.antt =====
-- Runs of the boot contract.
use knhv.Prelude.{◌+◌, ◌*◌, ◌^◌, ◌≡◌, refl, true, false, some, List, [], ◌∷◌, arith}
use knhv.Abi.{is_versioned_buffer_valid}
use knhv.Boot.Defs.{BootContext, BootL0Contract, ready}
use knhv.Boot.Ops.{
  valid_context, valid_contract, publish_evidence, invalidate_owner, initialize_boot_l0_contract,
  has_root, next_generation, started, start_valid, start_boot_l0, handoff_valid, handoff_windows,
}
use knhv.Boot.Moves.{Call, step, MayStart, start, handoff, stop}
use knhv.Boot.Sound.{OwnsAt, IsSound, run, run_keeps_owner, start_handoff}

abbrev context : BootContext
context = record {
  version = 1;
  size = 32;
  logical_processors = 8;
  manifest_valid = 1;
  physical_vmx_ready = 1;
  external_owner = 0;
  windows_handoff_ready = 1;
  reserved = 0;
}

abbrev row : List Call
row = start (some context) ∷ handoff (some context) ∷ start (some context) ∷ stop ∷ []

run_keeps_owner_example : IsSound (run initialize_boot_l0_contract row)
run_keeps_owner_example = run_keeps_owner row

abbrev begun : BootL0Contract
begun = run initialize_boot_l0_contract (start (some context) ∷ [])

context_valid : valid_context context ≡ true
unfolding valid_context is_versioned_buffer_valid
context_valid = refl

may_start : MayStart context
may_start = record {
  context_valid = context_valid;
  no_external_owner = refl;
  manifest_checked = omega arith;
  vmx_ready = omega arith;
}

initial_valid : valid_contract initialize_boot_l0_contract ≡ true
unfolding initialize_boot_l0_contract publish_evidence invalidate_owner valid_contract
    is_versioned_buffer_valid
initial_valid = refl

initial_rootless : has_root initialize_boot_l0_contract.state ≡ false
unfolding initialize_boot_l0_contract publish_evidence invalidate_owner
initial_rootless = refl

start_handoff_example :
    let d = run initialize_boot_l0_contract (start (some context) ∷ handoff (some context) ∷ []) in
    (d.state ≡ ready)
    × OwnsAt (next_generation initialize_boot_l0_contract.generation) d.owner
    × (d.owner.active_processors ≡ 8)
start_handoff_example =
    start_handoff initialize_boot_l0_contract context context initial_valid initial_rootless
      may_start context_valid refl (omega arith)

-- The evidence of a root that is ready in its second generation.
ready_run :
    (run initialize_boot_l0_contract
      (start (some context) ∷ handoff (some context) ∷ [])).owner.nonce
    ≡ 2 * 2 ^ 32 + 8
unfolding run step start_boot_l0 start_valid started handoff_windows handoff_valid publish_evidence
    invalidate_owner initialize_boot_l0_contract valid_contract valid_context
    is_versioned_buffer_valid next_generation
ready_run = refl
