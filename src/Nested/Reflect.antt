-- ===== src/Nested/Reflect.antt =====
-- Exits of a nested guest, reflected by src/nested/nested_instructions.cpp.
use knhv.Prelude.{ℕ, ◌%◌, ◌^◌, ◌<◌, ◌≡◌, refl, sym, ap, ◌∙◌, ◌≢◌, true, false, some, arith}
use knhv.Prelude.Tests.{◌==◌}
use knhv.Prelude.Bits.{u64_max}
use knhv.Nested.Defs.{NestedExitRecord, reflect_vmexit}
use knhv.Nested.Vcpu.{NestedVcpu, make_success, slot, current_vmcs, read_nested_vmcs_field}
use knhv.Nested.Dispatch.{is_exit_record_valid, show_exit, reflect_nested_exit}
use knhv.Nested.Slots.{at-set}
use knhv.Nested.Sound.{IsSound, found_region}
use knhv.Nested.Keeps.{current-found}
use knhv.Nested.Leaves.{show_exit-KeepsSlot}
use knhv.Nested.Run.{exited, exited-IsSound}
use knhv.Nested.Fields.{current-set}
use knhv.Nested.ReadOnly.{slot_field, read-slot_field, slot_field-show_exit}

current-there :
    {S : Type 0} (v : NestedVcpu S)
    → IsSound v
    → v.current_vmcs_gpa ≢ u64_max
    → (i : ℕ) × (current_vmcs v ≡ some i)
unfolding current_vmcs
current-there v s here =
    let (i, found, _) = s.current_slot here in
    let other : (v.current_vmcs_gpa == u64_max) ≡ false = ground (arith, here) in
    (i, rw (current_vmcs, other) found)

module _ {S : Type 0} (v : NestedVcpu S) (i : ℕ) (e : NestedExitRecord) where
  -- The slot that an exit is shown in is the current one, before and after.
  current-exited :
      IsSound v
      → current_vmcs v ≡ some i
      → (current_vmcs (exited v i e) ≡ some i) × (slot (exited v i e) i ≡ show_exit (slot v i) e)
  unfolding current_vmcs
  current-exited s current =
      let (_, found) = current-found v i current in
      let (low, _) = found_region v.vmcs v.current_vmcs_gpa i found in
      (
        current-set v i (show_exit (slot v i) e)
              (λ g. (show_exit-KeepsSlot (slot v i) e).same_region g)
            ∙ current,
        at-set v.vmcs i (show_exit (slot v i) e) low,
      )

  read-exited :
      (encoding : ℕ)
      → IsSound v
      → current_vmcs v ≡ some i
      → read_nested_vmcs_field (exited v i e) encoding
        ≡ slot_field (show_exit (slot v i) e) encoding
  read-exited encoding s current =
      let (there, shown) = current-exited s current in
      read-slot_field (exited v i e) i encoding there ∙ ap (λ m. slot_field m encoding) shown

short_length :
    (e : NestedExitRecord)
    → is_exit_record_valid e ≡ true
    → e.instruction_length % 2 ^ 32 ≡ e.instruction_length
unfolding is_exit_record_valid
short_length e h = let low : e.instruction_length < 2 ^ 32 = ground arith in omega arith

-- A sound processor whose nested guest runs reflects every well-formed exit: it succeeds, the guest
-- stops, and the processor stays sound. The exit's reason and qualification, cut to 32 and 64 bits, and
-- its instruction's length are then read from the current VMCS12, and every other field as before.
pub reflect_succeeds :
    {S : Type 0} (v : NestedVcpu S) (e : NestedExitRecord)
    → IsSound v
    → v.l2_running ≢ 0
    → is_exit_record_valid e ≡ true
    → let r = reflect_nested_exit v (some e) in
      (r.0 ≡ make_success reflect_vmexit e.instruction_length 0)
      × (r.1.l2_running ≡ 0)
      × IsSound r.1
      × (read_nested_vmcs_field r.1 0x4402 ≡ some (e.reason % 2 ^ 32))
      × (read_nested_vmcs_field r.1 0x6400 ≡ some (e.qualification % 2 ^ 64))
      × (read_nested_vmcs_field r.1 0x440C ≡ some e.instruction_length)
      × ((other : ℕ)
          → other ≢ 0x4402
          → other ≢ 0x6400
          → other ≢ 0x440C
          → read_nested_vmcs_field r.1 other ≡ read_nested_vmcs_field v other)
unfolding reflect_nested_exit
reflect_succeeds v e s runs valid =
    let (_, here) = s.running runs in
    let (i, current) = current-there v s here in
    let guard : (v.l2_running == 0) ≡ false = ground (arith, runs) in
    let (reason, qualification, size, others) = slot_field-show_exit (slot v i) e (s.fields i) in
    let short : e.instruction_length % 2 ^ 32 ≡ e.instruction_length = short_length e valid in
    let reads = λ (encoding : ℕ). read-exited v i e encoding s current in
    rw (reflect_nested_exit, valid, guard, current)
      (
        refl,
        refl,
        exited-IsSound v i e current s,
        reads 0x4402 ∙ reason,
        reads 0x6400 ∙ qualification,
        reads 0x440C ∙ size ∙ ap some short,
        λ other a b c. reads other ∙ others other a b c ∙ sym (read-slot_field v i other current),
      )
