-- ===== src/Nested/Tests.antt =====
-- Runs of the nested VMX model.
use knhv.Prelude.{
  ℕ, zero, suc, ◌+◌, ◌%◌, ◌^◌, bit_and, ◌≡◌, refl, ap, ◌≢◌, true, ◌||◌, Option, none, some, List,
  [], ◌∷◌, arith,
}
use knhv.Prelude.Tests.{◌==◌, if◌then◌else◌}
use knhv.Prelude.Bits.{any_bits}
use knhv.Prelude.Lists.{length}
use knhv.Nested.Defs.{
  vmcs_field_guest_rflags, opcode_vmxon, opcode_vmclear, opcode_vmptrld, opcode_vmwrite,
  opcode_vmlaunch, VmxInstruction, NestedExitRecord, FieldRule, reflect_vmexit,
}
use knhv.Nested.Rules.{field_rules}
use knhv.Nested.Store.{
  find_rule_from, find_field_rule, field_mask, read_stored_field, write_stored_field,
  is_fixed_cr_valid, is_canonical_address, is_linear_range_canonical, is_physical_address,
  is_aligned_page, find_slot, find_vmcs, set_vmcs_read_only, allowed_controls, is_reserved_valid,
  validate_control_value,
}
use knhv.Nested.Entry.{
  stored, is_control_valid, are_controls_valid, are_registers_valid, are_features_valid,
  validate_entry_state,
}
use knhv.Nested.Memory.{
  NestedMemory, chunk_size, translate_linear, read_chunk, read_loop, read_linear,
}
use knhv.Nested.Vcpu.{
  NestedVcpu, make_result, make_success, current_vmcs, show_error, clear_vm_instruction_error,
  make_vmfail, read_nested_vmcs_field, write_nested_vmcs_field,
}
use knhv.Nested.Region.{
  is_revision_valid, is_region_address, initialize_capabilities_internal, chosen_capabilities,
  is_region_readable, is_region_valid, validate_vmx_region, initialize_nested_vcpu,
}
use knhv.Nested.Instructions.{
  instruction_is_valid, is_field_writable, emulate_vmxon, allocate_vmcs, clear_region,
  emulate_vmclear, load_region, emulate_vmptrld, emulate_vmwrite, emulate_vm_entry,
}
use knhv.Nested.Dispatch.{
  is_exit_record_valid, dispatch_in_vmx, dispatch_nested_instruction, reflect_nested_exit,
}
use knhv.Nested.Sound.{IsSound}
use knhv.Nested.Run.{Event, step, run, run_keeps_store, instruct, enables}
use knhv.Nested.Fields.{read-write}
use knhv.Nested.Linear.{IsReadable, read_linear-length}
use knhv.Nested.Reflect.{reflect_succeeds}

-- Memory that maps every address to itself: the words at 0x100 and 0x108 name the regions 0x1000 and
-- 0x2000, each of revision 1. Its context counts the writes, which it does not keep.
abbrev byte : ℕ → ℕ
byte g =
    if g == 0x101
    then 0x10
    else if g == 0x109
    then 0x20
    else if g == 0x1000 || g == 0x2000
    then 1
    else 0

abbrev bytes : ℕ → ℕ → List ℕ
bytes g zero = []
bytes g (suc n) = byte g ∷ bytes (g + 1) n

abbrev read_bytes : ℕ → ℕ → ℕ → Option (List ℕ)
read_bytes s g n = some (bytes g n)

abbrev identity : ℕ → ℕ → ℕ → Option ℕ
identity s linear access = some linear

abbrev memory : NestedMemory ℕ
memory = record {
  context = 0;
  translate = some identity;
  read = some read_bytes;
  write = some (λ s g bs. (true, s + 1));
}

abbrev instruction : ℕ → ℕ → ℕ → ℕ → VmxInstruction
instruction opcode operand encoding source = record {
  version = 1;
  size = 72;
  opcode = opcode;
  instruction_length = 3;
  flags = 1;
  descriptor_type = 0;
  reserved = 0;
  encoding = encoding;
  reserved2 = 0;
  linear_operand = operand;
  destination = 0;
  source = source;
  descriptor = 0;
}

-- VMXON, VMCLEAR and VMPTRLD.
abbrev opening : List Event
opening =
    enables 1
    ∷ instruct (some (instruction opcode_vmxon 0x100 0 0))
    ∷ instruct (some (instruction opcode_vmclear 0x108 0 0))
    ∷ instruct (some (instruction opcode_vmptrld 0x108 0 0))
    ∷ []

-- After these, the flags that an entry wants, and a launch.
abbrev launch : List Event
launch =
    enables 1
    ∷ instruct (some (instruction opcode_vmxon 0x100 0 0))
    ∷ instruct (some (instruction opcode_vmclear 0x108 0 0))
    ∷ instruct (some (instruction opcode_vmptrld 0x108 0 0))
    ∷ instruct (some (instruction opcode_vmwrite 0 vmcs_field_guest_rflags 2))
    ∷ instruct (some (instruction opcode_vmlaunch 0 0 0))
    ∷ []

abbrev opened : NestedVcpu ℕ
opened = run (initialize_nested_vcpu none memory) opening

abbrev launched : NestedVcpu ℕ
launched = run (initialize_nested_vcpu none memory) launch

run_keeps_store_example : IsSound launched
run_keeps_store_example = run_keeps_store none memory launch

opened_current : opened.current_vmcs_gpa ≡ 0x2000
unfolding run step dispatch_nested_instruction instruction_is_valid emulate_vmxon dispatch_in_vmx
    emulate_vmclear emulate_vmptrld validate_vmx_region is_linear_range_canonical
    is_canonical_address read_linear read_loop read_chunk chunk_size translate_linear
    is_region_valid is_region_address is_aligned_page is_physical_address is_region_readable
    is_revision_valid allocate_vmcs find_vmcs find_slot clear_region load_region make_success
    make_result clear_vm_instruction_error show_error current_vmcs set_vmcs_read_only
    find_field_rule find_rule_from field_rules field_mask initialize_nested_vcpu chosen_capabilities
    initialize_capabilities_internal any_bits make_vmfail
opened_current = refl

readable : IsReadable memory read_bytes
readable = record {
  translate = identity;
  translates = refl;
  maps = λ linear access. (linear, refl);
  reads = refl;
  answers = λ g n. (bytes g n, refl, length_bytes g n);
}
  where
    length_bytes : (g n : ℕ) → length (bytes g n) ≡ n
    length_bytes g zero = refl
    length_bytes g (suc n) = ap suc (length_bytes (g + 1) n)

-- A read across the end of a page.
read_linear-length_example :
    (bs : List ℕ) × (read_linear memory 0xFFC 8 1 ≡ some bs) × (length bs ≡ 8)
read_linear-length_example =
    read_linear-length memory read_bytes 0xFFC 8 1 readable (omega arith) (omega arith)

launched_runs : launched.l2_running ≡ 1
unfolding run step dispatch_nested_instruction instruction_is_valid emulate_vmxon dispatch_in_vmx
    emulate_vmclear emulate_vmptrld validate_vmx_region is_linear_range_canonical
    is_canonical_address read_linear read_loop read_chunk chunk_size translate_linear
    is_region_valid is_region_address is_aligned_page is_physical_address is_region_readable
    is_revision_valid allocate_vmcs find_vmcs find_slot clear_region load_region make_success
    make_result clear_vm_instruction_error show_error current_vmcs set_vmcs_read_only
    find_field_rule find_rule_from field_rules field_mask initialize_nested_vcpu chosen_capabilities
    initialize_capabilities_internal any_bits make_vmfail emulate_vmwrite is_field_writable
    write_nested_vmcs_field is_reserved_valid validate_control_value allowed_controls
    write_stored_field emulate_vm_entry validate_entry_state are_controls_valid are_registers_valid
    are_features_valid is_control_valid stored read_stored_field is_fixed_cr_valid
launched_runs = refl

opened_write : (write_nested_vmcs_field opened vmcs_field_guest_rflags 2).0 ≡ true
unfolding run step dispatch_nested_instruction instruction_is_valid emulate_vmxon dispatch_in_vmx
    emulate_vmclear emulate_vmptrld validate_vmx_region is_linear_range_canonical
    is_canonical_address read_linear read_loop read_chunk chunk_size translate_linear
    is_region_valid is_region_address is_aligned_page is_physical_address is_region_readable
    is_revision_valid allocate_vmcs find_vmcs find_slot clear_region load_region make_success
    make_result clear_vm_instruction_error show_error current_vmcs set_vmcs_read_only
    find_field_rule find_rule_from field_rules field_mask initialize_nested_vcpu chosen_capabilities
    initialize_capabilities_internal any_bits make_vmfail write_nested_vmcs_field is_reserved_valid
    validate_control_value allowed_controls write_stored_field
opened_write = refl

read-write_example :
    let w = (write_nested_vmcs_field opened vmcs_field_guest_rflags 2).1 in
    ((r : ℕ × FieldRule) × (find_field_rule vmcs_field_guest_rflags ≡ some r)
      × (read_nested_vmcs_field w vmcs_field_guest_rflags
          ≡ some (bit_and 2 (field_mask r.1.width))))
    × ((other : ℕ)
        → other ≢ vmcs_field_guest_rflags
        → read_nested_vmcs_field w other ≡ read_nested_vmcs_field opened other)
read-write_example =
    read-write opened vmcs_field_guest_rflags 2 (run_keeps_store none memory opening) opened_write

abbrev exit_record : NestedExitRecord
exit_record = record {
  version = 1;
  size = 40;
  reason = 18;
  instruction_length = 3;
  qualification = 5;
  guest_linear = 0;
  guest_physical = 0;
}

exit_valid : is_exit_record_valid exit_record ≡ true
unfolding is_exit_record_valid
exit_valid = refl

reflect_succeeds_example :
    let r = reflect_nested_exit launched (some exit_record) in
    (r.0 ≡ make_success reflect_vmexit 3 0)
    × (r.1.l2_running ≡ 0)
    × IsSound r.1
    × (read_nested_vmcs_field r.1 0x4402 ≡ some (18 % 2 ^ 32))
    × (read_nested_vmcs_field r.1 0x6400 ≡ some (5 % 2 ^ 64))
    × (read_nested_vmcs_field r.1 0x440C ≡ some 3)
    × ((other : ℕ)
        → other ≢ 0x4402
        → other ≢ 0x6400
        → other ≢ 0x440C
        → read_nested_vmcs_field r.1 other ≡ read_nested_vmcs_field launched other)
reflect_succeeds_example =
    reflect_succeeds launched exit_record (run_keeps_store none memory launch)
      (λ e. absurd (omega (arith, launched_runs, e))) exit_valid
