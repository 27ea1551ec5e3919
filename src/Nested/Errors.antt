-- ===== src/Nested/Errors.antt =====
-- src/nested/nested_instructions.cpp: the instruction errors.
use knhv.Prelude.{ℕ}

abbrev pub error_vmxon_in_vmx_operation : ℕ
error_vmxon_in_vmx_operation = 15

abbrev pub error_vmclear_invalid_address : ℕ
error_vmclear_invalid_address = 2

abbrev pub error_vmclear_vmxon_pointer : ℕ
error_vmclear_vmxon_pointer = 3

abbrev pub error_vmptrld_invalid_address : ℕ
error_vmptrld_invalid_address = 9

abbrev pub error_vmptrld_vmxon_pointer : ℕ
error_vmptrld_vmxon_pointer = 10

abbrev pub error_vmread_no_current : ℕ
error_vmread_no_current = 12

abbrev pub error_vmwrite_no_current : ℕ
error_vmwrite_no_current = 13

abbrev pub error_vmlaunch_nonclear : ℕ
error_vmlaunch_nonclear = 4

abbrev pub error_vmresume_nonlaunched : ℕ
error_vmresume_nonlaunched = 5

abbrev pub error_vm_entry_invalid_control : ℕ
error_vm_entry_invalid_control = 7

abbrev pub error_invalid_operand : ℕ
error_invalid_operand = 1
