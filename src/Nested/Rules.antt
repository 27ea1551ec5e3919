-- ===== src/Nested/Rules.antt =====
-- src/nested/nested_vmcs.cpp: the table of the fields of a VMCS12.
use knhv.Prelude.{ℕ, List, [], ◌∷◌}
use knhv.Prelude.Bits.{not64}
use knhv.Nested.Defs.{
  vmcs_field_vpid, vmcs_field_eptp_index, vmcs_field_io_bitmap_a, vmcs_field_io_bitmap_b,
  vmcs_field_msr_bitmap, vmcs_field_ept_pointer, vmcs_field_vpid_address, vmcs_field_pin_controls,
  vmcs_field_primary_controls, vmcs_field_exception_bitmap, vmcs_field_exit_controls,
  vmcs_field_entry_controls, vmcs_field_secondary_controls, vmcs_field_instruction_error,
  vmcs_field_exit_reason, vmcs_field_exit_qualification, vmcs_field_guest_cr0, vmcs_field_guest_cr3,
  vmcs_field_guest_cr4, vmcs_field_guest_rsp, vmcs_field_guest_rip, vmcs_field_guest_rflags,
  vmcs_field_host_cr0, vmcs_field_host_cr3, vmcs_field_host_cr4, vmcs_field_host_rsp,
  vmcs_field_host_rip, FieldRule, field_control_none, field_control_pin, field_control_primary,
  field_control_secondary, field_control_exit, field_control_entry,
}

abbrev pub mask16 : ℕ
mask16 = not64 0xFFFF

abbrev pub mask32 : ℕ
mask32 = not64 0xFFFFFFFF

abbrev pub primary_activate_secondary : ℕ
primary_activate_secondary = 0x80000000

-- A rule of the table, none of which asks for bits to be one.
abbrev rule : ℕ → ℕ → ℕ → ℕ → ℕ → ℕ → FieldRule
rule encoding width writable control_kind clean_group reserved_zero_mask = record {
  encoding = encoding;
  width = width;
  writable = writable;
  control_kind = control_kind;
  clean_group = clean_group;
  reserved_zero_mask = reserved_zero_mask;
  reserved_one_mask = 0;
}

unfoldable pub field_rules : List FieldRule
field_rules =
    rule vmcs_field_vpid 2 1 field_control_none 0 mask16
    ∷ rule vmcs_field_eptp_index 2 1 field_control_none 0 mask16
    ∷ rule vmcs_field_io_bitmap_a 8 1 field_control_none 1 0
    ∷ rule vmcs_field_io_bitmap_b 8 1 field_control_none 1 0
    ∷ rule vmcs_field_msr_bitmap 8 1 field_control_none 1 0
    ∷ rule vmcs_field_ept_pointer 8 1 field_control_none 1 0xFFF
    ∷ rule vmcs_field_vpid_address 8 1 field_control_none 1 0xFFF
    ∷ rule vmcs_field_pin_controls 4 1 field_control_pin 0 mask32
    ∷ rule vmcs_field_primary_controls 4 1 field_control_primary 0 mask32
    ∷ rule vmcs_field_exception_bitmap 4 1 field_control_none 0 mask32
    ∷ rule vmcs_field_exit_controls 4 1 field_control_exit 0 mask32
    ∷ rule vmcs_field_entry_controls 4 1 field_control_entry 0 mask32
    ∷ rule vmcs_field_secondary_controls 4 1 field_control_secondary 0 mask32
    ∷ rule vmcs_field_instruction_error 4 0 field_control_none 0 mask32
    ∷ rule vmcs_field_exit_reason 4 0 field_control_none 0 mask32
    ∷ rule vmcs_field_exit_qualification 8 0 field_control_none 0 0
    ∷ rule vmcs_field_guest_cr0 8 1 field_control_none 2 0
    ∷ rule vmcs_field_guest_cr3 8 1 field_control_none 2 0
    ∷ rule vmcs_field_guest_cr4 8 1 field_control_none 2 0
    ∷ rule vmcs_field_guest_rsp 8 1 field_control_none 2 0
    ∷ rule vmcs_field_guest_rip 8 1 field_control_none 2 0
    ∷ rule vmcs_field_guest_rflags 8 1 field_control_none 2 0
    ∷ rule vmcs_field_host_cr0 8 1 field_control_none 3 0
    ∷ rule vmcs_field_host_cr3 8 1 field_control_none 3 0
    ∷ rule vmcs_field_host_cr4 8 1 field_control_none 3 0
    ∷ rule vmcs_field_host_rsp 8 1 field_control_none 3 0
    ∷ rule vmcs_field_host_rip 8 1 field_control_none 3 0
    ∷ rule 0x2800 8 1 field_control_none 1 0
    ∷ rule 0x2802 8 1 field_control_none 1 0
    ∷ rule 0x2804 8 1 field_control_none 1 0
    ∷ rule 0x2806 8 1 field_control_none 1 0
    ∷ rule 0x2808 8 1 field_control_none 1 0
    ∷ rule 0x4006 4 1 field_control_none 0 mask32
    ∷ rule 0x4008 4 1 field_control_none 0 mask32
    ∷ rule 0x400A 4 1 field_control_none 0 mask32
    ∷ rule 0x4014 4 1 field_control_none 0 mask32
    ∷ rule 0x4016 4 1 field_control_none 0 mask32
    ∷ rule 0x4018 4 1 field_control_none 0 mask32
    ∷ rule 0x401A 4 1 field_control_none 0 mask32
    ∷ rule 0x401C 4 1 field_control_none 0 mask32
    ∷ rule 0x4404 4 0 field_control_none 0 mask32
    ∷ rule 0x4406 4 0 field_control_none 0 mask32
    ∷ rule 0x4408 4 0 field_control_none 0 mask32
    ∷ rule 0x440A 4 0 field_control_none 0 mask32
    ∷ rule 0x440C 4 0 field_control_none 0 mask32
    ∷ rule 0x440E 4 0 field_control_none 0 mask32
    ∷ rule 0x4800 4 1 field_control_none 0 mask32
    ∷ rule 0x4802 4 1 field_control_none 0 mask32
    ∷ rule 0x4804 4 1 field_control_none 0 mask32
    ∷ rule 0x4806 4 1 field_control_none 0 mask32
    ∷ rule 0x4808 4 1 field_control_none 0 mask32
    ∷ rule 0x480A 4 1 field_control_none 0 mask32
    ∷ rule 0x4824 4 1 field_control_none 0 mask32
    ∷ rule 0x4826 4 1 field_control_none 0 mask32
    ∷ rule 0x6806 8 1 field_control_none 2 0
    ∷ rule 0x6808 8 1 field_control_none 2 0
    ∷ rule 0x680A 8 1 field_control_none 2 0
    ∷ rule 0x680C 8 1 field_control_none 2 0
    ∷ rule 0x680E 8 1 field_control_none 2 0
    ∷ rule 0x6810 8 1 field_control_none 2 0
    ∷ rule 0x681A 8 1 field_control_none 2 0
    ∷ rule 0x6822 8 1 field_control_none 2 0
    ∷ []
