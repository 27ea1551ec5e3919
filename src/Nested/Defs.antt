-- ===== src/Nested/Defs.antt =====
-- The constants and structures of src/include/knhv_nested.h.
use knhv.Prelude.{ℕ, List}
use knhv.Abi.{HvStatus}

abbrev pub nested_model_version : ℕ
nested_model_version = 1

abbrev pub nested_vmcs_slots : ℕ
nested_vmcs_slots = 16

abbrev pub nested_vmcs_fields : ℕ
nested_vmcs_fields = 96

abbrev pub nested_page_size : ℕ
nested_page_size = 4096

abbrev pub nested_vmx_revision_mask : ℕ
nested_vmx_revision_mask = 0x7fffffff

abbrev pub rflags_carry : ℕ
rflags_carry = 1

abbrev pub rflags_zero : ℕ
rflags_zero = 0x40

abbrev pub instruction_operand_is_register : ℕ
instruction_operand_is_register = 1

abbrev pub descriptor_is_inline : ℕ
descriptor_is_inline = 0x2

abbrev pub nested_secondary_enable_ept : ℕ
nested_secondary_enable_ept = 0x2

abbrev pub nested_secondary_enable_vpid : ℕ
nested_secondary_enable_vpid = 0x20

abbrev pub nested_secondary_enable_vmfunc : ℕ
nested_secondary_enable_vmfunc = 0x2000

abbrev pub vmcs_field_vpid : ℕ
vmcs_field_vpid = 0

abbrev pub vmcs_field_eptp_index : ℕ
vmcs_field_eptp_index = 0x4

abbrev pub vmcs_field_io_bitmap_a : ℕ
vmcs_field_io_bitmap_a = 0x2000

abbrev pub vmcs_field_io_bitmap_b : ℕ
vmcs_field_io_bitmap_b = 0x2002

abbrev pub vmcs_field_msr_bitmap : ℕ
vmcs_field_msr_bitmap = 0x2004

abbrev pub vmcs_field_ept_pointer : ℕ
vmcs_field_ept_pointer = 0x201a

abbrev pub vmcs_field_vpid_address : ℕ
vmcs_field_vpid_address = 0x201c

abbrev pub vmcs_field_pin_controls : ℕ
vmcs_field_pin_controls = 0x4000

abbrev pub vmcs_field_primary_controls : ℕ
vmcs_field_primary_controls = 0x4002

abbrev pub vmcs_field_exception_bitmap : ℕ
vmcs_field_exception_bitmap = 0x4004

abbrev pub vmcs_field_exit_controls : ℕ
vmcs_field_exit_controls = 0x400c

abbrev pub vmcs_field_entry_controls : ℕ
vmcs_field_entry_controls = 0x4012

abbrev pub vmcs_field_secondary_controls : ℕ
vmcs_field_secondary_controls = 0x401e

abbrev pub vmcs_field_instruction_error : ℕ
vmcs_field_instruction_error = 0x4400

abbrev pub vmcs_field_exit_reason : ℕ
vmcs_field_exit_reason = 0x4402

abbrev pub vmcs_field_exit_qualification : ℕ
vmcs_field_exit_qualification = 0x6400

abbrev pub vmcs_field_guest_cr0 : ℕ
vmcs_field_guest_cr0 = 0x6800

abbrev pub vmcs_field_guest_cr3 : ℕ
vmcs_field_guest_cr3 = 0x6802

abbrev pub vmcs_field_guest_cr4 : ℕ
vmcs_field_guest_cr4 = 0x6804

abbrev pub vmcs_field_guest_rsp : ℕ
vmcs_field_guest_rsp = 0x681c

abbrev pub vmcs_field_guest_rip : ℕ
vmcs_field_guest_rip = 0x681e

abbrev pub vmcs_field_guest_rflags : ℕ
vmcs_field_guest_rflags = 0x6820

abbrev pub vmcs_field_host_cr0 : ℕ
vmcs_field_host_cr0 = 0x6c00

abbrev pub vmcs_field_host_cr3 : ℕ
vmcs_field_host_cr3 = 0x6c02

abbrev pub vmcs_field_host_cr4 : ℕ
vmcs_field_host_cr4 = 0x6c04

abbrev pub vmcs_field_host_rsp : ℕ
vmcs_field_host_rsp = 0x6c14

abbrev pub vmcs_field_host_rip : ℕ
vmcs_field_host_rip = 0x6c16

abbrev pub opcode_vmxon : ℕ
opcode_vmxon = 1

abbrev pub opcode_vmxoff : ℕ
opcode_vmxoff = 2

abbrev pub opcode_vmclear : ℕ
opcode_vmclear = 3

abbrev pub opcode_vmptrld : ℕ
opcode_vmptrld = 4

abbrev pub opcode_vmptrst : ℕ
opcode_vmptrst = 5

abbrev pub opcode_vmread : ℕ
opcode_vmread = 6

abbrev pub opcode_vmwrite : ℕ
opcode_vmwrite = 7

abbrev pub opcode_vmlaunch : ℕ
opcode_vmlaunch = 8

abbrev pub opcode_vmresume : ℕ
opcode_vmresume = 9

abbrev pub opcode_invept : ℕ
opcode_invept = 10

abbrev pub opcode_invvpid : ℕ
opcode_invvpid = 11

abbrev pub opcode_vmfunc : ℕ
opcode_vmfunc = 12

abbrev pub opcode_vmcall : ℕ
opcode_vmcall = 13

abbrev pub memory_read : ℕ
memory_read = 1

abbrev pub memory_write : ℕ
memory_write = 2

abbrev pub vmcs_clear : ℕ
vmcs_clear = 0

abbrev pub vmcs_active : ℕ
vmcs_active = 1

abbrev pub vmcs_launched : ℕ
vmcs_launched = 2

pub data NestedAction : Type 0 where
  resume_l1 enter_l2 reflect_vmexit inject_undefined_instruction : NestedAction
  action_virtual_unsupported quarantine_session : NestedAction

pub record NestedCapabilities : Type 0 where
  pub version : ℕ
  pub size : ℕ
  pub feature_bits : ℕ
  pub vmx_revision : ℕ
  pub max_physical_address_bits : ℕ
  pub linear_address_bits : ℕ
  pub eptp_list_entries : ℕ
  pub vpid_count : ℕ
  pub pin_allowed0 : ℕ
  pub pin_allowed1 : ℕ
  pub primary_allowed0 : ℕ
  pub primary_allowed1 : ℕ
  pub secondary_allowed0 : ℕ
  pub secondary_allowed1 : ℕ
  pub exit_allowed0 : ℕ
  pub exit_allowed1 : ℕ
  pub entry_allowed0 : ℕ
  pub entry_allowed1 : ℕ
  pub cr0_fixed0 : ℕ
  pub cr0_fixed1 : ℕ
  pub cr4_fixed0 : ℕ
  pub cr4_fixed1 : ℕ

pub record VmxInstruction : Type 0 where
  pub version : ℕ
  pub size : ℕ
  pub opcode : ℕ
  pub instruction_length : ℕ
  pub flags : ℕ
  pub descriptor_type : ℕ
  pub reserved : ℕ
  pub encoding : ℕ
  pub reserved2 : ℕ
  pub linear_operand : ℕ
  pub destination : ℕ
  pub source : ℕ
  pub descriptor : ℕ

pub record NestedResult : Type 0 where
  pub status : HvStatus
  pub action : NestedAction
  pub instruction_error : ℕ
  pub instruction_length : ℕ
  pub reserved : ℕ
  pub rflags : ℕ
  pub value : ℕ

pub record NestedVmcs12 : Type 0 where
  pub region_gpa : ℕ
  pub revision : ℕ
  pub state : ℕ
  pub allocated : ℕ
  pub reserved : List ℕ
  pub fields : List ℕ
  pub dirty_groups : ℕ

pub record NestedExitRecord : Type 0 where
  pub version : ℕ
  pub size : ℕ
  pub reason : ℕ
  pub instruction_length : ℕ
  pub qualification : ℕ
  pub guest_linear : ℕ
  pub guest_physical : ℕ

-- The rules of fields, src/nested/nested_internal.h.
pub record FieldRule : Type 0 where
  pub encoding : ℕ
  pub width : ℕ
  pub writable : ℕ
  pub control_kind : ℕ
  pub clean_group : ℕ
  pub reserved_zero_mask : ℕ
  pub reserved_one_mask : ℕ

abbrev pub field_control_none : ℕ
field_control_none = 0

abbrev pub field_control_pin : ℕ
field_control_pin = 1

abbrev pub field_control_primary : ℕ
field_control_primary = 2

abbrev pub field_control_secondary : ℕ
field_control_secondary = 3

abbrev pub field_control_exit : ℕ
field_control_exit = 4

abbrev pub field_control_entry : ℕ
field_control_entry = 5
