-- ===== src/Boot/Ops.antt =====
-- src/boot/boot_contract.cpp: the operations on the boot contract. A null pointer is `none`; each operation
-- returns the source's status with the contract as it is afterwards.
use knhv.Prelude.{ℕ, ◌+◌, ◌*◌, ◌^◌, bit_or, Bool, true, false, not, ◌&&◌, ◌||◌, Option, none, some}
use knhv.Prelude.Tests.{leb, ◌==◌, ◌!=◌, if◌then◌else◌}
use knhv.Prelude.Bits.{u32}
use knhv.Abi.{
  abi_version, HvStatus, is_versioned_buffer_valid, success, invalid_parameter,
  hardware_owner_conflict, boot_handoff_failed, recovery_required, hardware_unsupported, busy,
}
use knhv.Boot.Defs.{
  BootL0State, BootContext, BootOwnerToken, BootL0Contract, pre_l0, root_active, windows_handoff,
  ready, recovery,
}

unfoldable pub valid_context : BootContext → Bool
unfolding is_versioned_buffer_valid
valid_context x =
    is_versioned_buffer_valid x.version x.size 32
    && x.reserved == 0
    && x.logical_processors != 0
    && leb x.logical_processors 4096

unfoldable pub valid_contract : BootL0Contract → Bool
unfolding is_versioned_buffer_valid
valid_contract c = is_versioned_buffer_valid c.version c.size 72

unfoldable pub publish_evidence : BootL0Contract → HvStatus → BootL0Contract
publish_evidence c status = record c {
  evidence = record {
    version = abi_version;
    size = 32;
    state = c.state;
    boot_generation = c.generation;
    owner_generation = c.owner.generation;
    owner_count = c.owner.owner_count;
    active_processors = c.owner.active_processors;
    last_status = status;
  };
}

abbrev pub no_owner : BootOwnerToken
no_owner = record {
  nonce = 0;
  generation = 0;
  owner_count = 0;
  active_processors = 0;
  reserved = 0;
}

unfoldable pub invalidate_owner : BootL0Contract → BootL0Contract
invalidate_owner c = record c { owner = no_owner }

-- The state `Recovery` without an owner, under a status.
unfoldable pub recovered : BootL0Contract → HvStatus → BootL0Contract
unfolding publish_evidence invalidate_owner
recovered c status = publish_evidence (invalidate_owner (record c { state = recovery })) status

-- A contract of zeros under its header, in its first generation.
abbrev pub blank_contract : BootL0Contract
blank_contract = record {
  version = abi_version;
  size = 72;
  state = pre_l0;
  generation = 1;
  owner = no_owner;
  evidence = record {
    version = 0;
    size = 0;
    state = pre_l0;
    boot_generation = 0;
    owner_generation = 0;
    owner_count = 0;
    active_processors = 0;
    last_status = success;
  };
}

unfoldable pub initialize_boot_l0_contract : BootL0Contract
unfolding publish_evidence invalidate_owner
initialize_boot_l0_contract = publish_evidence (invalidate_owner blank_contract) success

-- The states in which a root is there.
abbrev pub has_root : BootL0State → Bool
has_root pre_l0 = false
has_root root_active = true
has_root windows_handoff = true
has_root ready = true
has_root recovery = false

-- The generation after, on 32 bits and never 0.
unfoldable pub next_generation : ℕ → ℕ
next_generation generation = if u32 (generation + 1) == 0 then 1 else u32 (generation + 1)

-- The contract of a root that has started, before and with its evidence.
abbrev pub with_root : BootL0Contract → ℕ → ℕ → BootL0Contract
with_root c generation processors = record c {
  generation = generation;
  state = root_active;
  owner = record {
    nonce = bit_or (generation * 2 ^ 32) processors;
    generation = generation;
    owner_count = 1;
    active_processors = processors;
    reserved = 0;
  };
}

unfoldable pub started : BootL0Contract → ℕ → BootL0Contract
unfolding publish_evidence next_generation
started c processors =
    publish_evidence (with_root c (next_generation c.generation) processors) success

-- `StartBootL0` on a contract and a context that are valid.
unfoldable pub start_valid : BootL0Contract → BootContext → HvStatus × BootL0Contract
unfolding publish_evidence recovered started
start_valid c x =
    if has_root c.state
    then (busy, publish_evidence c busy)
    else if x.external_owner != 0
    then (hardware_owner_conflict, recovered c hardware_owner_conflict)
    else if x.manifest_valid == 0
    then (boot_handoff_failed, recovered c boot_handoff_failed)
    else if x.physical_vmx_ready == 0
    then (hardware_unsupported, recovered c hardware_unsupported)
    else (success, started c x.logical_processors)

unfoldable pub start_boot_l0 : BootL0Contract → Option BootContext → HvStatus × BootL0Contract
unfolding valid_contract valid_context start_valid
start_boot_l0 c none = (invalid_parameter, c)
start_boot_l0 c (some x) =
    if not (valid_contract c) || not (valid_context x)
    then (invalid_parameter, c)
    else start_valid c x

abbrev pub is_root_active : BootL0State → Bool
is_root_active root_active = true
is_root_active _ = false

-- `HandoffWindows` on a contract and a context that are valid.
unfoldable pub handoff_valid : BootL0Contract → BootContext → HvStatus × BootL0Contract
unfolding publish_evidence recovered
handoff_valid c x =
    if not (is_root_active c.state)
      || c.owner.owner_count != 1
      || c.owner.active_processors != x.logical_processors
    then (recovery_required, publish_evidence c recovery_required)
    else if x.windows_handoff_ready == 0
    then (boot_handoff_failed, recovered c boot_handoff_failed)
    else (
      success,
      publish_evidence
          (record (publish_evidence (record c { state = windows_handoff }) success) {
            state = ready;
          })
          success,
    )

unfoldable pub handoff_windows : BootL0Contract → Option BootContext → HvStatus × BootL0Contract
unfolding valid_contract valid_context handoff_valid
handoff_windows c none = (invalid_parameter, c)
handoff_windows c (some x) =
    if not (valid_contract c) || not (valid_context x)
    then (invalid_parameter, c)
    else handoff_valid c x

abbrev pub is_success : HvStatus → Bool
is_success success = true
is_success _ = false

-- The status that a recovery publishes.
abbrev pub recovery_status : HvStatus → HvStatus
recovery_status reason = if is_success reason then recovery_required else reason

unfoldable pub recover_boot_l0 : BootL0Contract → HvStatus → HvStatus × BootL0Contract
unfolding valid_contract recovered
recover_boot_l0 c reason =
    if not (valid_contract c)
    then (invalid_parameter, c)
    else (recovery_status reason, recovered c (recovery_status reason))

abbrev pub is_pre_l0 : BootL0State → Bool
is_pre_l0 pre_l0 = true
is_pre_l0 _ = false

unfoldable pub stop_boot_l0 : BootL0Contract → HvStatus × BootL0Contract
unfolding valid_contract publish_evidence invalidate_owner
stop_boot_l0 c =
    if not (valid_contract c)
    then (invalid_parameter, c)
    else if not (has_root c.state)
    then (if is_pre_l0 c.state then success else recovery_required, c)
    else (success, publish_evidence (record (invalidate_owner c) { state = pre_l0 }) success)
