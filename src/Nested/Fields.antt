-- ===== src/Nested/Fields.antt =====
-- Fields of src/nested/nested_vmcs.cpp, written and read back.
use knhv.Prelude.{
  ℕ, suc, ◌-◌, ◌≤◌, ◌<◌, bit_and, ◌≡◌, refl, sym, ap, ◌∙◌, ◌≢◌, inl, inr, Bool, true, false, not,
  ◌||◌, none, some, List, [], ◌∷◌, arith,
}
use knhv.Prelude.Tests.{leb, ◌==◌, Bool-cases, Option-cases}
use knhv.Prelude.Bits.{u64_max, bit_and_assoc}
use knhv.Prelude.Lists.{length, get_or, get_or-set, get_or-set_other}
use knhv.Nested.Defs.{nested_vmcs_fields, NestedVmcs12, FieldRule}
use knhv.Nested.Rules.{field_rules}
use knhv.Nested.Store.{
  find_rule_from, find_field_rule, field_index, field_mask, write_stored_field, is_reserved_valid,
  validate_control_value,
}
use knhv.Nested.Vcpu.{
  NestedVcpu, slot, set_slot, current_vmcs, read_nested_vmcs_field, write_nested_vmcs_field,
}
use knhv.Nested.Slots.{at, at-set, SameRegion, find_vmcs-set}
use knhv.Nested.Sound.{IsSound, found_region}
use knhv.Nested.Keeps.{current-found}

some_rule : FieldRule
some_rule = record {
  encoding = 0;
  width = 0;
  writable = 0;
  control_kind = 0;
  clean_group = 0;
  reserved_zero_mask = 0;
  reserved_one_mask = 0;
}

same_pair : {p q : ℕ × FieldRule} → some p ≡ some q → p ≡ q
same_pair {p = p} h = ap (λ o. elim o [ none ↦ p | some x ↦ x ]) h

-- A rule that is found stands at its index, under the encoding.
found_rule :
    (rs : List FieldRule) (k encoding : ℕ) (r : ℕ × FieldRule)
    → find_rule_from rs k encoding ≡ some r
    → (k ≤ r.0) × (get_or rs (r.0 - k) some_rule ≡ r.1) × (r.1.encoding ≡ encoding)
unfolding find_rule_from
found_rule [] k encoding r h = absurd (ground arith)
found_rule (q ∷ rs) k encoding r h = elim (Bool-cases (q.encoding == encoding)) [
  | inl e ↦
      let here = same_pair (rw e at h) in
      let same : q.encoding ≡ encoding = ground (arith, e) in
      rw (sym here) (omega arith, first_rule k, same)
  | inr e ↦
      let (le, there, same) = found_rule rs (suc k) encoding r (rw e at h) in
      let next : r.0 - k ≡ suc (r.0 - suc k) = omega arith in (omega arith, rw next there, same)
]
  where
    first_rule : (k : ℕ) → get_or (q ∷ rs) (k - k) some_rule ≡ q
    first_rule k = let zero_left : k - k ≡ 0 = omega arith in rw zero_left refl

found_field :
    (encoding : ℕ) (r : ℕ × FieldRule)
    → find_field_rule encoding ≡ some r
    → (get_or field_rules r.0 some_rule ≡ r.1) × (r.1.encoding ≡ encoding)
unfolding find_field_rule
found_field encoding r h =
    let (_, there, same) = found_rule field_rules 0 encoding r h in
    let all : r.0 - 0 ≡ r.0 = omega arith in (rw all at there, same)

-- Different encodings have different indices.
pub different_index :
    (encoding other : ℕ) (r q : ℕ × FieldRule)
    → find_field_rule encoding ≡ some r
    → find_field_rule other ≡ some q
    → other ≢ encoding
    → q.0 ≢ r.0
different_index encoding other r q h g apart same =
    let (there, e) = found_field encoding r h in
    let (there', f) = found_field other q g in
    let one : q.1 ≡ r.1 = sym there' ∙ ap (λ n. get_or field_rules n some_rule) same ∙ there in
    apart (sym f ∙ ap (λ t. t.encoding) one ∙ e)

pub mask_twice :
    (value width : ℕ)
    → bit_and (bit_and value (field_mask width)) (field_mask width)
      ≡ bit_and value (field_mask width)
unfolding field_mask
mask_twice value width = elim (Bool-cases (width == 2)) [
  | inl e ↦ rw (field_mask, e) (bit_and_assoc value 0xFFFF 0xFFFF)
  | inr e ↦ elim (Bool-cases (width == 4)) [
    | inl f ↦ rw (field_mask, e, f) (bit_and_assoc value 0xFFFFFFFF 0xFFFFFFFF)
    | inr f ↦ rw (field_mask, e, f) (bit_and_assoc value u64_max u64_max)
  ]
]

module _ {S : Type 0} (v : NestedVcpu S) (encoding value : ℕ) where
  -- What a write that succeeds has done.
  write_parts :
      (write_nested_vmcs_field v encoding value).0 ≡ true
      → (i : ℕ) × (r : ℕ × FieldRule) × (current_vmcs v ≡ some i)
        × (find_field_rule encoding ≡ some r)
        × (leb nested_vmcs_fields (field_index r) ≡ false)
        × ((write_nested_vmcs_field v encoding value).1
            ≡ set_slot v i (write_stored_field (slot v i) r value))
  unfolding write_nested_vmcs_field
  write_parts h = elim (Option-cases (current_vmcs v)) [
    | inl e ↦ absurd (ground (arith, rw (write_nested_vmcs_field, e) at h))
    | inr (i, e) ↦ elim (Option-cases (find_field_rule encoding)) [
      | inl f ↦ absurd (ground (arith, rw (write_nested_vmcs_field, e, f) at h))
      | inr (r, f) ↦
          let refused =
            r.1.writable == 0
            || leb nested_vmcs_fields (field_index r)
            || not (is_reserved_valid r.1 value)
            || not (validate_control_value v.capabilities r.1 value) in
          elim (Bool-cases refused) [
            | inl k ↦ absurd (ground (arith, rw (write_nested_vmcs_field, e, f, k) at h))
            | inr k ↦ (
              i,
              r,
              e,
              f,
              in_range (r.1.writable == 0) (leb nested_vmcs_fields (field_index r)) _ _ k,
              rw (write_nested_vmcs_field, e, f, k) refl,
            )
          ]
    ]
  ]
    where
      in_range : (a b c d : Bool) → (a || b || c || d) ≡ false → b ≡ false
      in_range a b c d k = ground arith

pub index_bound :
    (r : ℕ × FieldRule) → leb nested_vmcs_fields (field_index r) ≡ false → field_index r ≡ r.0
index_bound r k = ground arith

module _ {S : Type 0} where
  -- A read by its slot and its rule.
  read_lem :
      (v : NestedVcpu S) (encoding i : ℕ) (r : ℕ × FieldRule)
      → current_vmcs v ≡ some i
      → find_field_rule encoding ≡ some r
      → leb nested_vmcs_fields (field_index r) ≡ false
      → read_nested_vmcs_field v encoding
        ≡ some (bit_and (get_or (at v.vmcs i).fields (field_index r) 0) (field_mask r.1.width))
  unfolding read_nested_vmcs_field
  read_lem v encoding i r e f k = rw (read_nested_vmcs_field, e, f, k) refl

  pub current-set :
      (v : NestedVcpu S) (i : ℕ) (m : NestedVmcs12)
      → SameRegion (at v.vmcs i) m
      → current_vmcs (set_slot v i m) ≡ current_vmcs v
  unfolding current_vmcs
  current-set v i m same =
      rw (find_vmcs-set v.vmcs i m v.current_vmcs_gpa (same v.current_vmcs_gpa)) refl

  module _ (v : NestedVcpu S) (i value : ℕ) (r : ℕ × FieldRule) where
    abbrev written : NestedVcpu S
    written = set_slot v i (write_stored_field (at v.vmcs i) r value)

    read_written :
        (encoding : ℕ)
        → i < length v.vmcs
        → length (at v.vmcs i).fields ≡ 96
        → current_vmcs v ≡ some i
        → find_field_rule encoding ≡ some r
        → leb nested_vmcs_fields (field_index r) ≡ false
        → read_nested_vmcs_field written encoding ≡ some (bit_and value (field_mask r.1.width))
    unfolding write_stored_field
    read_written encoding low len e f k =
        let there = current-set v i (write_stored_field (at v.vmcs i) r value) (λ g. refl) ∙ e in
        let below : field_index r < length (at v.vmcs i).fields = ground arith in
        read_lem written encoding i r there f k
        ∙ rw
            (
              at-set v.vmcs i (write_stored_field (at v.vmcs i) r value) low,
              get_or-set (at v.vmcs i).fields (field_index r) (bit_and value (field_mask r.1.width))
                  0 below,
              mask_twice value r.1.width,
            )
            refl

    read_other :
        (encoding other : ℕ)
        → i < length v.vmcs
        → current_vmcs v ≡ some i
        → find_field_rule encoding ≡ some r
        → leb nested_vmcs_fields (field_index r) ≡ false
        → other ≢ encoding
        → read_nested_vmcs_field written other ≡ read_nested_vmcs_field v other
    unfolding read_nested_vmcs_field write_stored_field
    read_other encoding other low e f k apart =
        let there = current-set v i (write_stored_field (at v.vmcs i) r value) (λ g. refl) ∙ e in
        elim (Option-cases (find_field_rule other)) [
          | inl g ↦ rw (read_nested_vmcs_field, there, e, g) refl
          | inr (q, g) ↦ elim (Bool-cases (leb nested_vmcs_fields (field_index q))) [
            | inl n ↦ rw (read_nested_vmcs_field, there, e, g, n) refl
            | inr n ↦
                let differs : field_index q ≢ field_index r = λ same.
                  different_index encoding other r q f g apart
                    (sym (index_bound q n) ∙ same ∙ index_bound r k) in
                read_lem written other i q there g n
                ∙ rw
                    (
                      at-set v.vmcs i (write_stored_field (at v.vmcs i) r value) low,
                      get_or-set_other (at v.vmcs i).fields (field_index r) (field_index q)
                          (bit_and value (field_mask r.1.width)) 0 differs,
                    )
                    (sym (read_lem v other i q e g n))
          ]
        ]

  -- On a sound processor a field that has been written is read back, cut to its width, and every other
  -- field reads as before.
  pub read-write :
      (v : NestedVcpu S) (encoding value : ℕ)
      → IsSound v
      → (write_nested_vmcs_field v encoding value).0 ≡ true
      → let w = (write_nested_vmcs_field v encoding value).1 in
        ((r : ℕ × FieldRule) × (find_field_rule encoding ≡ some r)
          × (read_nested_vmcs_field w encoding ≡ some (bit_and value (field_mask r.1.width))))
        × ((other : ℕ)
            → other ≢ encoding
            → read_nested_vmcs_field w other ≡ read_nested_vmcs_field v other)
  read-write v encoding value s h =
      let (i, r, e, f, k, after) = write_parts v encoding value h in
      let (_, found) = current-found v i e in
      let (low, _) = found_region v.vmcs v.current_vmcs_gpa i found in
      rw after (
        (r, f, read_written v i value r encoding low (s.fields i) e f k),
        λ other apart. read_other v i value r encoding other low e f k apart,
      )
