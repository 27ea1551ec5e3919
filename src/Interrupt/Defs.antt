-- ===== src/Interrupt/Defs.antt =====
-- src/interrupt/interrupt_model.cpp: events, the queue, selection and injection.
use knhv.Prelude.{
  ℕ, zero, suc, ◌/◌, ◌^◌, Bool, true, false, not, ◌&&◌, ◌||◌, Option, none, some, List, [], ◌∷◌,
  bit_or,
}
use knhv.Prelude.Tests.{ltb, leb, ◌==◌, ◌!=◌, if◌then◌else◌}
use knhv.Prelude.Bits.{any_bits, not32}

abbrev pub interrupt_contract_version : ℕ
interrupt_contract_version = 1

abbrev pub interrupt_max_struct_size : ℕ
interrupt_max_struct_size = 4096

abbrev pub interrupt_queue_depth : ℕ
interrupt_queue_depth = 32

abbrev pub interrupt_vector_count : ℕ
interrupt_vector_count = 256

abbrev pub interrupt_vector_first_external : ℕ
interrupt_vector_first_external = 32

abbrev pub block_by_sti : ℕ
block_by_sti = 0x1

abbrev pub block_by_mov_ss : ℕ
block_by_mov_ss = 0x2

abbrev pub block_nmi : ℕ
block_nmi = 0x4

abbrev pub known_block_mask : ℕ
known_block_mask = 0x7

abbrev pub event_deliver_error : ℕ
event_deliver_error = 0x1

abbrev pub event_posted : ℕ
event_posted = 0x2

abbrev pub event_from_device : ℕ
event_from_device = 0x4

abbrev pub known_event_mask : ℕ
known_event_mask = 0x7

-- The codes of `InterruptKind`; the field `kind` is a raw `u32`.
abbrev pub hardware_exception : ℕ
hardware_exception = 0

abbrev pub external : ℕ
external = 1

abbrev pub nmi : ℕ
nmi = 2

abbrev pub virtual : ℕ
virtual = 3

abbrev pub init : ℕ
init = 4

abbrev pub sipi : ℕ
sipi = 5

abbrev pub smi : ℕ
smi = 6

pub data InterruptStatus : Type 0 where
  ready no_pending blocked invalid generation_mismatch queue_full conflict : InterruptStatus

abbrev pub status_code : InterruptStatus → ℕ
status_code ready = 0
status_code no_pending = 1
status_code blocked = 2
status_code invalid = 3
status_code generation_mismatch = 4
status_code queue_full = 5
status_code conflict = 6

pub data InterruptAction : Type 0 where
  inject wait_window quarantine : InterruptAction

abbrev pub action_code : InterruptAction → ℕ
action_code inject = 0
action_code wait_window = 1
action_code quarantine = 2

pub record InterruptEvent : Type 0 where
  pub size : ℕ
  pub version : ℕ
  pub kind : ℕ
  pub vector : ℕ
  pub error_code : ℕ
  pub flags : ℕ
  pub reserved : ℕ
  pub reserved2 : ℕ
  pub source_id : ℕ
  pub generation : ℕ
  pub sequence : ℕ

pub record InterruptState : Type 0 where
  pub size : ℕ
  pub version : ℕ
  pub generation : ℕ
  pub next_sequence : ℕ
  pub pending_count : ℕ
  pub interruptibility : ℕ
  pub virtual_apic_tpr : ℕ
  pub reserved : ℕ
  pub pending : List InterruptEvent

pub record InterruptDecision : Type 0 where
  pub size : ℕ
  pub version : ℕ
  pub status : ℕ
  pub action : ℕ
  pub kind : ℕ
  pub vector : ℕ
  pub error_code : ℕ
  pub flags : ℕ
  pub reserved : ℕ
  pub reserved2 : ℕ
  pub sequence : ℕ
  pub generation : ℕ

-- `InterruptEvent event = {}`.
abbrev pub zero_event : InterruptEvent
zero_event = record {
  size = 0;
  version = 0;
  kind = 0;
  vector = 0;
  error_code = 0;
  flags = 0;
  reserved = 0;
  reserved2 = 0;
  source_id = 0;
  generation = 0;
  sequence = 0;
}

unfoldable pub is_versioned_size_valid : ℕ → ℕ → ℕ → Bool
is_versioned_size_valid version size required =
    version == interrupt_contract_version && leb required size && leb size interrupt_max_struct_size

unfoldable pub is_vector_valid : ℕ → ℕ → Bool
is_vector_valid kind vector =
    if kind == hardware_exception
    then ltb vector interrupt_vector_first_external
    else if kind == external || kind == virtual
    then leb interrupt_vector_first_external vector && ltb vector interrupt_vector_count
    else if kind == nmi
    then vector == 2
    else if kind == init || kind == smi
    then vector == 0
    else if kind == sipi
    then ltb vector interrupt_vector_count
    else false

unfoldable pub priority : InterruptEvent → ℕ
priority e =
    if e.kind == nmi
    then 4
    else if e.kind == hardware_exception
    then 3
    else if e.kind == init || e.kind == sipi || e.kind == smi
    then 2
    else if e.kind == external || e.kind == virtual
    then 1
    else 0

unfoldable pub is_blocked : InterruptState → InterruptEvent → Bool
is_blocked s e =
    if e.kind == nmi
    then any_bits s.interruptibility block_nmi
    else if e.kind == external || e.kind == virtual
    then (if any_bits s.interruptibility (bit_or block_by_sti block_by_mov_ss)
        then true
        else leb (e.vector / 2 ^ 4) (s.virtual_apic_tpr / 2 ^ 4))
    else false

unfoldable pub is_same_event : InterruptEvent → InterruptDecision → Bool
is_same_event e d =
    e.kind == d.kind
    && e.vector == d.vector
    && e.error_code == d.error_code
    && e.flags == d.flags
    && e.sequence == d.sequence
    && e.generation == d.generation

unfoldable pub is_interrupt_event_valid : Option InterruptEvent → Bool
unfolding is_versioned_size_valid
is_interrupt_event_valid none = false
is_interrupt_event_valid (some e) =
    is_versioned_size_valid e.version e.size 56
    && leb e.kind smi
    && is_vector_valid e.kind e.vector
    && not (any_bits e.flags (not32 known_event_mask))
    && e.reserved == 0
    && e.reserved2 == 0
    && e.generation != 0
    && e.sequence != 0
    && not (any_bits e.flags event_deliver_error && e.kind != hardware_exception)
    && not (not (any_bits e.flags event_deliver_error) && e.error_code != 0)

-- The inner loop: an earlier entry has this sequence number.
unfoldable pub has_sequence : ℕ → List InterruptEvent → Bool
has_sequence n [] = false
has_sequence n (e ∷ es) = e.sequence == n || has_sequence n es

unfoldable pub is_zero_event : InterruptEvent → Bool
is_zero_event e =
    e.size == 0
    && e.version == 0
    && e.kind == 0
    && e.vector == 0
    && e.error_code == 0
    && e.flags == 0
    && e.reserved == 0
    && e.reserved2 == 0
    && e.source_id == 0
    && e.generation == 0
    && e.sequence == 0

unfoldable pub all_zero : List InterruptEvent → Bool
all_zero [] = true
all_zero (e ∷ es) = is_zero_event e && all_zero es

-- Both loops of `IsInterruptStateValid` over the array: the first `count` entries are events of the
-- generation with distinct sequence numbers (`prior` holds those before), the others are zero.
unfoldable pub are_pending_valid : ℕ → List InterruptEvent → ℕ → List InterruptEvent → Bool
are_pending_valid generation prior zero es = all_zero es
are_pending_valid generation prior (suc count) [] = true
are_pending_valid generation prior (suc count) (e ∷ es) =
    is_interrupt_event_valid (some e)
    && e.generation == generation
    && not (has_sequence e.sequence prior)
    && are_pending_valid generation (e ∷ prior) count es

unfoldable pub is_interrupt_state_valid : Option InterruptState → Bool
unfolding is_versioned_size_valid
is_interrupt_state_valid none = false
is_interrupt_state_valid (some s) =
    is_versioned_size_valid s.version s.size 1832
    && s.generation != 0
    && s.next_sequence != 0
    && leb s.pending_count interrupt_queue_depth
    && not (any_bits s.interruptibility (not32 known_block_mask))
    && leb s.virtual_apic_tpr 0xff
    && s.reserved == 0
    && are_pending_valid s.generation [] s.pending_count s.pending
