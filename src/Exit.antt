-- ===== src/Exit.antt =====
-- src/exit/exit_model.cpp with src/include/knhv_exit.h: how a VM exit is classified and what is
-- done with it. Enumerations that the code keeps in a `u32` field are numbers with a code function;
-- a null pointer is `none`, and an output parameter is passed in and returned.
pub mod Classes
pub mod Evaluate
mod Routing
pub mod Authority
pub mod Outcome
mod Tests
use knhv.Prelude.{ℕ, ◌-◌, ◌/◌, ◌^◌, Bool, true, false, not, ◌&&◌, ◌||◌, Option, none, some, bit_and}
use knhv.Prelude.Tests.{ltb, leb, ◌==◌, ◌!=◌, if◌then◌else◌}
use knhv.Prelude.Bits.{any_bits, not32, not64}
use Classes.{
  ExitClass, interrupt, nested_vmx, cpu_control, time, msr, io, memory, guest_state, fatal,
  is_class, cpuid, vmcall, vmxon, reason_code,
}

abbrev pub exit_contract_version : ℕ
exit_contract_version = 1

abbrev pub exit_max_struct_size : ℕ
exit_max_struct_size = 4096

abbrev pub exit_max_instruction_length : ℕ
exit_max_instruction_length = 15

abbrev pub policy_virtualize_cpuid : ℕ
policy_virtualize_cpuid = 0x1

abbrev pub policy_virtualize_tsc : ℕ
policy_virtualize_tsc = 0x2

abbrev pub policy_virtualize_msr : ℕ
policy_virtualize_msr = 0x4

abbrev pub policy_reflect_vmx : ℕ
policy_reflect_vmx = 0x8

abbrev pub policy_reflect_ept : ℕ
policy_reflect_ept = 0x10

abbrev pub policy_allow_io : ℕ
policy_allow_io = 0x20

abbrev pub known_policy_mask : ℕ
known_policy_mask = 0x3f

abbrev pub record_host_owned : ℕ
record_host_owned = 0x1

abbrev pub record_entry_failure : ℕ
record_entry_failure = 0x2

abbrev pub known_record_mask : ℕ
known_record_mask = 0x3

abbrev pub known_class_mask : ℕ
known_class_mask = 0x1ff

pub data ExitAction : Type 0 where
  resume_guest reflect_to_l1 inject_undefined_instruction inject_general_protection : ExitAction
  quarantine_vcpu fatal_host : ExitAction

pub data ExitDecisionStatus : Type 0 where
  success invalid_parameter generation_mismatch unsupported_reason : ExitDecisionStatus
  quarantine_required : ExitDecisionStatus

pub record ExitPolicy : Type 0 where
  pub size : ℕ
  pub version : ℕ
  pub level : ℕ
  pub flags : ℕ
  pub allowed_classes : ℕ
  pub max_instruction_length : ℕ
  pub generation : ℕ
  pub reserved : ℕ

pub record ExitRecord : Type 0 where
  pub size : ℕ
  pub version : ℕ
  pub reason : ℕ
  pub instruction_length : ℕ
  pub flags : ℕ
  pub reserved : ℕ
  pub qualification : ℕ
  pub guest_linear : ℕ
  pub guest_physical : ℕ
  pub guest_rip : ℕ
  pub generation : ℕ

-- `status` and `action` are stored as the codes of their enumerations.
pub record ExitDecision : Type 0 where
  pub size : ℕ
  pub version : ℕ
  pub status : ExitDecisionStatus
  pub action : ExitAction
  pub reason : ℕ
  pub exception_vector : ℕ
  pub instruction_length : ℕ
  pub reserved : ℕ
  pub generation : ℕ

unfoldable pub is_versioned_size_valid : ℕ → ℕ → ℕ → Bool
is_versioned_size_valid version size required =
    version == exit_contract_version && leb required size && leb size exit_max_struct_size

unfoldable pub is_linear_bits_valid : ℕ → Bool
is_linear_bits_valid bits = leb 48 bits && leb bits 63

unfoldable pub is_physical_bits_valid : ℕ → Bool
is_physical_bits_valid bits = leb 12 bits && leb bits 52

unfoldable pub is_canonical : ℕ → ℕ → Bool
unfolding is_linear_bits_valid any_bits
is_canonical value bits =
    let low_mask = 2 ^ bits - 1 in
    let sign_bit = 2 ^ (bits - 1) in
    let upper = bit_and value (not64 low_mask) in
    if not (is_linear_bits_valid bits)
    then false
    else if not (any_bits value sign_bit)
    then upper == 0
    else upper == not64 low_mask

abbrev pub class_bit : ExitClass → ℕ
class_bit interrupt = 0x1
class_bit nested_vmx = 0x2
class_bit cpu_control = 0x4
class_bit time = 0x8
class_bit msr = 0x10
class_bit io = 0x20
class_bit memory = 0x40
class_bit guest_state = 0x80
class_bit fatal = 0x100
class_bit _ = 0

unfoldable pub is_vm_instruction_reason : ℕ → Bool
is_vm_instruction_reason reason = leb (reason_code vmcall) reason && leb reason (reason_code vmxon)

unfoldable pub policy_handles_class : ExitPolicy → ExitClass → Bool
policy_handles_class policy exit_class = any_bits policy.allowed_classes (class_bit exit_class)

-- What `InitializeDecision` writes; the codes 0 are success and resume.
abbrev pub initialize_decision : Option ExitRecord → ExitDecision
initialize_decision none = record {
  size = 40;
  version = exit_contract_version;
  status = success;
  action = resume_guest;
  reason = 0;
  exception_vector = 0;
  instruction_length = 0;
  reserved = 0;
  generation = 0;
}
initialize_decision (some r) = record {
  size = 40;
  version = exit_contract_version;
  status = success;
  action = resume_guest;
  reason = r.reason;
  exception_vector = 0;
  instruction_length = r.instruction_length;
  reserved = 0;
  generation = r.generation;
}

abbrev pub set_decision : ExitDecision → ExitDecisionStatus → ExitAction → ℕ → ExitDecision
set_decision d s a vector = record d { status = s; action = a; exception_vector = vector }

-- A policy flag needs its exit class among the allowed ones.
unfoldable pub flag_needs_class : ExitPolicy → ℕ → ExitClass → Bool
flag_needs_class policy flag exit_class =
    not (any_bits policy.flags flag) || any_bits policy.allowed_classes (class_bit exit_class)

unfoldable pub is_exit_policy_valid : Option ExitPolicy → ℕ → Bool
unfolding is_versioned_size_valid is_linear_bits_valid flag_needs_class
is_exit_policy_valid none bits = false
is_exit_policy_valid (some p) bits =
    is_versioned_size_valid p.version p.size 40
    && (p.level == 1 || p.level == 2)
    && not (any_bits p.flags (not32 known_policy_mask))
    && not (any_bits p.allowed_classes (not32 known_class_mask))
    && p.max_instruction_length != 0
    && leb p.max_instruction_length exit_max_instruction_length
    && p.generation != 0
    && p.reserved == 0
    && is_linear_bits_valid bits
    && flag_needs_class p policy_virtualize_tsc time
    && flag_needs_class p policy_virtualize_cpuid cpu_control
    && flag_needs_class p policy_virtualize_msr msr
    && flag_needs_class p policy_allow_io io
    && flag_needs_class p policy_reflect_vmx nested_vmx
    && flag_needs_class p policy_reflect_ept memory

unfoldable pub is_exit_record_valid : Option ExitRecord → ℕ → ℕ → Bool
unfolding is_versioned_size_valid is_physical_bits_valid is_linear_bits_valid is_canonical
is_exit_record_valid none physical_bits linear_bits = false
is_exit_record_valid (some r) physical_bits linear_bits =
    is_versioned_size_valid r.version r.size 64
    && leb r.reason 0xffff
    && leb r.instruction_length exit_max_instruction_length
    && not (any_bits r.flags (not32 known_record_mask))
    && r.reserved == 0
    && r.generation != 0
    && is_physical_bits_valid physical_bits
    && is_linear_bits_valid linear_bits
    && r.guest_physical / 2 ^ physical_bits == 0
    && is_canonical r.guest_linear linear_bits
    && is_canonical r.guest_rip linear_bits

-- Whether the policy lets the host handle an exit of these classes itself.
unfoldable pub locally_handled : ℕ → ExitClass → ExitPolicy → Bool
locally_handled reason exit_class policy =
    if reason == reason_code cpuid
    then any_bits policy.flags policy_virtualize_cpuid
    else if is_class exit_class time
    then any_bits policy.flags policy_virtualize_tsc
    else if is_class exit_class msr
    then any_bits policy.flags policy_virtualize_msr
    else if is_class exit_class io
    then any_bits policy.flags policy_allow_io
    else if is_class exit_class memory
    then any_bits policy.flags policy_reflect_ept
    else is_class exit_class cpu_control
