-- ===== src/Nested/ReadOnly.antt =====
-- The read-only fields of a VMCS12 slot, which src/nested/nested_vmcs.cpp sets for an exit.
use knhv.Prelude.{
  ℕ, ◌-◌, ◌%◌, ◌^◌, ◌<◌, bit_and, ◌≡◌, refl, sym, ◌∙◌, ◌≢◌, inl, inr, false, Option, none, some,
  arith,
}
use knhv.Prelude.Tests.{leb, if◌then◌else◌, Bool-cases, Option-cases}
use knhv.Prelude.Lists.{length, get_or, set, get_or-set, get_or-set_other}
use knhv.Prelude.Power.{bit_and_mod}
use knhv.Nested.Defs.{
  nested_vmcs_fields, NestedVmcs12, NestedExitRecord, FieldRule, vmcs_field_exit_reason,
  vmcs_field_exit_qualification,
}
use knhv.Nested.Rules.{field_rules}
use knhv.Nested.Store.{find_rule_from, find_field_rule, field_index, field_mask, set_vmcs_read_only}
use knhv.Nested.Vcpu.{NestedVcpu, slot, current_vmcs, read_nested_vmcs_field}
use knhv.Nested.Dispatch.{show_exit}
use knhv.Nested.Keeps.{set_read_only-KeepsSlot}
use knhv.Nested.Fields.{different_index, mask_twice, index_bound}

-- What a read of a field finds in a slot.
pub slot_field : NestedVmcs12 → ℕ → Option ℕ
slot_field m encoding = elim (find_field_rule encoding) [
  | none ↦ none
  | some r ↦
      if leb nested_vmcs_fields (field_index r)
      then none
      else some (bit_and (get_or m.fields (field_index r) 0) (field_mask r.1.width))
]

pub read-slot_field :
    {S : Type 0} (v : NestedVcpu S) (i encoding : ℕ)
    → current_vmcs v ≡ some i
    → read_nested_vmcs_field v encoding ≡ slot_field (slot v i) encoding
unfolding read_nested_vmcs_field slot_field
read-slot_field v i encoding e = rw (read_nested_vmcs_field, e) refl

slot_field_lem :
    (m : NestedVmcs12) (encoding : ℕ) (r : ℕ × FieldRule)
    → find_field_rule encoding ≡ some r
    → leb nested_vmcs_fields (field_index r) ≡ false
    → slot_field m encoding
      ≡ some (bit_and (get_or m.fields (field_index r) 0) (field_mask r.1.width))
unfolding slot_field
slot_field_lem m encoding r f k = rw (slot_field, f, k) refl

set_lem :
    (m : NestedVmcs12) (encoding value : ℕ) (r : ℕ × FieldRule)
    → find_field_rule encoding ≡ some r
    → leb nested_vmcs_fields (field_index r) ≡ false
    → (set_vmcs_read_only m encoding value).fields
      ≡ set m.fields (field_index r) (bit_and value (field_mask r.1.width))
unfolding set_vmcs_read_only
set_lem m encoding value r f k = rw (set_vmcs_read_only, f, k) refl

-- A field that is set is read back, cut to its width.
pub slot_field-set :
    (m : NestedVmcs12) (encoding value : ℕ) (r : ℕ × FieldRule)
    → length m.fields ≡ 96
    → find_field_rule encoding ≡ some r
    → leb nested_vmcs_fields (field_index r) ≡ false
    → slot_field (set_vmcs_read_only m encoding value) encoding
      ≡ some (bit_and value (field_mask r.1.width))
slot_field-set m encoding value r len f k =
    let below : field_index r < length m.fields = ground arith in
    slot_field_lem (set_vmcs_read_only m encoding value) encoding r f k
    ∙ rw
        (
          set_lem m encoding value r f k,
          get_or-set m.fields (field_index r) (bit_and value (field_mask r.1.width)) 0 below,
          mask_twice value r.1.width,
        )
        refl

-- Every other field reads as before.
pub slot_field-set_other :
    (m : NestedVmcs12) (encoding value other : ℕ) (r : ℕ × FieldRule)
    → find_field_rule encoding ≡ some r
    → leb nested_vmcs_fields (field_index r) ≡ false
    → other ≢ encoding
    → slot_field (set_vmcs_read_only m encoding value) other ≡ slot_field m other
unfolding slot_field
slot_field-set_other m encoding value other r f k apart =
    elim (Option-cases (find_field_rule other)) [
      | inl g ↦ rw (slot_field, g) refl
      | inr (q, g) ↦ elim (Bool-cases (leb nested_vmcs_fields (field_index q))) [
        | inl n ↦ rw (slot_field, g, n) refl
        | inr n ↦
            let differs : field_index q ≢ field_index r = λ same.
              different_index encoding other r q f g apart
                (sym (index_bound q n) ∙ same ∙ index_bound r k) in
            slot_field_lem (set_vmcs_read_only m encoding value) other q g n
            ∙ rw
                (
                  set_lem m encoding value r f k,
                  get_or-set_other m.fields (field_index r) (field_index q)
                      (bit_and value (field_mask r.1.width)) 0 differs,
                )
                (sym (slot_field_lem m other q g n))
      ]
    ]

-- The read-only fields of an exit have rules: two of 32 bits, and one of 64.
reason_rule :
    (r : ℕ × FieldRule) × (find_field_rule vmcs_field_exit_reason ≡ some r)
    × (leb nested_vmcs_fields (field_index r) ≡ false)
    × (field_mask r.1.width ≡ 2 ^ 32 - 1)
unfolding find_field_rule find_rule_from field_rules field_mask
reason_rule = (_, refl, refl, refl)

qualification_rule :
    (r : ℕ × FieldRule) × (find_field_rule vmcs_field_exit_qualification ≡ some r)
    × (leb nested_vmcs_fields (field_index r) ≡ false)
    × (field_mask r.1.width ≡ 2 ^ 64 - 1)
unfolding find_field_rule find_rule_from field_rules field_mask
qualification_rule = (_, refl, refl, refl)

length_rule :
    (r : ℕ × FieldRule) × (find_field_rule 0x440C ≡ some r)
    × (leb nested_vmcs_fields (field_index r) ≡ false)
    × (field_mask r.1.width ≡ 2 ^ 32 - 1)
unfolding find_field_rule find_rule_from field_rules field_mask
length_rule = (_, refl, refl, refl)

-- A slot with an exit reads its reason, its qualification and its instruction's length, each cut to the
-- width of its field, and every other field as before.
pub slot_field-show_exit :
    (m : NestedVmcs12) (e : NestedExitRecord)
    → length m.fields ≡ 96
    → (slot_field (show_exit m e) vmcs_field_exit_reason ≡ some (e.reason % 2 ^ 32))
      × (slot_field (show_exit m e) vmcs_field_exit_qualification ≡ some (e.qualification % 2 ^ 64))
      × (slot_field (show_exit m e) 0x440C ≡ some (e.instruction_length % 2 ^ 32))
      × ((other : ℕ)
          → other ≢ vmcs_field_exit_reason
          → other ≢ vmcs_field_exit_qualification
          → other ≢ 0x440C
          → slot_field (show_exit m e) other ≡ slot_field m other)
unfolding show_exit
slot_field-show_exit m e len =
    let (r, f, k, w) = reason_rule in
    let (r', f', k', w') = qualification_rule in
    let (r'', f'', k'', w'') = length_rule in
    let m1 = set_vmcs_read_only m vmcs_field_exit_reason e.reason in
    let m2 = set_vmcs_read_only m1 vmcs_field_exit_qualification e.qualification in
    let len1 = (set_read_only-KeepsSlot m vmcs_field_exit_reason e.reason).same_fields ∙ len in
    let len2 =
      (set_read_only-KeepsSlot m1 vmcs_field_exit_qualification e.qualification).same_fields
      ∙ len1 in
    let last = slot_field-set_other m2 0x440C e.instruction_length in
    let middle = slot_field-set_other m1 vmcs_field_exit_qualification e.qualification in
    let first = slot_field-set_other m vmcs_field_exit_reason e.reason in
    (
      last vmcs_field_exit_reason r'' f'' k'' (λ q. omega (arith, q))
          ∙ middle vmcs_field_exit_reason r' f' k' (λ q. omega (arith, q))
          ∙ slot_field-set m vmcs_field_exit_reason e.reason r len f k
          ∙ rw (w, bit_and_mod 32 e.reason) refl,
      last vmcs_field_exit_qualification r'' f'' k'' (λ q. omega (arith, q))
          ∙ slot_field-set m1 vmcs_field_exit_qualification e.qualification r' len1 f' k'
          ∙ rw (w', bit_and_mod 64 e.qualification) refl,
      slot_field-set m2 0x440C e.instruction_length r'' len2 f'' k''
          ∙ rw (w'', bit_and_mod 32 e.instruction_length) refl,
      λ other a b c. last other r'' f'' k'' c ∙ middle other r' f' k' b ∙ first other r f k a,
    )
