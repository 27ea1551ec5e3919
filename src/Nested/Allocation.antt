-- ===== src/Nested/Allocation.antt =====
-- Slots of src/nested/nested_instructions.cpp that are taken for a region or emptied.
use knhv.Prelude.{ℕ, ◌≡◌, refl, sym, ◌∙◌, ◌≢◌, inl, inr, true, false, none, some, List, arith}
use knhv.Prelude.Tests.{◌==◌, if◌then◌else◌, Bool-cases}
use knhv.Prelude.Bits.{u64_max}
use knhv.Prelude.Lists.{set, length-set}
use knhv.Nested.Defs.{NestedVmcs12}
use knhv.Nested.Store.{find_slot, is_region, is_free, find_vmcs}
use knhv.Nested.Instructions.{fresh_vmcs}
use knhv.Nested.Slots.{
  at, at-set, at-set_other, find_slot-some, find_slot-set_new, SameRegion, find_vmcs-set,
  set-IsUnique,
}
use knhv.Nested.Sound.{IsStore, found_region, fields-set}

region_parts :
    (g : ℕ) (m : NestedVmcs12) → is_region g m ≡ true → (m.allocated ≢ 0) × (m.region_gpa ≡ g)
region_parts g m h = ground arith

free_region : (g : ℕ) (m : NestedVmcs12) → is_free m ≡ true → is_region g m ≡ false
free_region g m h = ground arith

fresh_region : (g h revision : ℕ) → is_region h (fresh_vmcs g revision) ≡ true → h ≡ g
fresh_region g h revision e = ground arith

fresh_other : (g h revision : ℕ) → h ≢ g → is_region h (fresh_vmcs g revision) ≡ false
fresh_other g h revision e = ground arith

same_fresh :
    (g revision : ℕ) (m : NestedVmcs12)
    → is_region g m ≡ true
    → SameRegion m (fresh_vmcs m.region_gpa revision)
same_fresh g revision m e h = ground arith

module _ {ms : List NestedVmcs12} {current l2 vmxon : ℕ} where
  pub fresh-IsStore :
      (i g revision : ℕ)
      → find_vmcs ms g ≡ none
      → find_slot is_free ms ≡ some i
      → IsStore ms current l2 vmxon
      → IsStore (set ms i (fresh_vmcs g revision)) current l2 vmxon
        × (find_vmcs (set ms i (fresh_vmcs g revision)) g ≡ some i)
  unfolding find_vmcs
  fresh-IsStore i g revision missing free s =
      let (low, is_open) = find_slot-some is_free ms i free in
      let m = fresh_vmcs g revision in
      let taken = find_slot-set_new (is_region g) ms i m missing low (ground arith) in
      (
        record {
          count = length-set ms i m ∙ s.count;
          fields = fields-set ms i m low refl s.fields;
          unique = λ h j e. elim (Bool-cases (j == i)) [
            | inl q ↦
                let here : j ≡ i = ground arith in
                let same : h ≡ g = fresh_region g h revision (rw (here, at-set ms i m low) at e) in
                rw (same, here) taken
            | inr q ↦
                let there : j ≢ i = ground arith in
                let found = s.unique h j (rw (at-set_other ms i j m there) at e) in
                unmoved i g revision h j missing is_open found ∙ found
          ];
          current_slot = λ here.
              let (j, found, full) = s.current_slot here in
              let (_, held) = found_region ms current j found in
              (
                j,
                unmoved i g revision current j missing is_open found ∙ found,
                rw (at-set_other ms i j m (apart i current j is_open held)) full,
              );
          running = s.running;
        },
        taken,
      )
    where
      apart : (i h j : ℕ) → is_free (at ms i) ≡ true → is_region h (at ms j) ≡ true → j ≢ i
      apart i h j open_slot held e =
          absurd (ground (arith, free_region h (at ms i) open_slot, rw e at held))

      unmoved :
          (i g revision h j : ℕ)
          → find_vmcs ms g ≡ none
          → is_free (at ms i) ≡ true
          → find_vmcs ms h ≡ some j
          → find_vmcs (set ms i (fresh_vmcs g revision)) h ≡ find_vmcs ms h
      unmoved i g revision h j missing open_slot found =
          let other : h ≢ g = λ e. absurd (ground (arith, rw e at found)) in
          find_vmcs-set ms i (fresh_vmcs g revision) h
            (fresh_other g h revision other ∙ sym (free_region h (at ms i) open_slot))

  pub clear-IsStore :
      (i g revision : ℕ)
      → find_vmcs ms g ≡ some i
      → l2 ≡ 0
      → IsStore ms current l2 vmxon
      → IsStore
          (set ms i (fresh_vmcs (at ms i).region_gpa revision))
          (if current == g then u64_max else current)
          l2
          vmxon
  clear-IsStore i g revision found idle s =
      let (low, held) = found_region ms g i found in
      let m = fresh_vmcs (at ms i).region_gpa revision in
      let same = same_fresh g revision (at ms i) held in
      elim (Bool-cases (current == g)) [
        | inl e ↦ rw e record {
          count = length-set ms i m ∙ s.count;
          fields = fields-set ms i m low refl s.fields;
          unique = set-IsUnique ms i m low same s.unique;
          current_slot = λ here. absurd (here refl);
          running = λ h. absurd (h idle);
        }
        | inr e ↦ rw e record {
          count = length-set ms i m ∙ s.count;
          fields = fields-set ms i m low refl s.fields;
          unique = set-IsUnique ms i m low same s.unique;
          current_slot = λ here.
              let (j, found', full) = s.current_slot here in
              let (_, held') = found_region ms current j found' in
              let there : j ≢ i = λ q. absurd (
                ground (
                  arith,
                  region_parts g (at ms i) held,
                  region_parts current (at ms i) (rw q at held'),
                )) in
              (
                j,
                find_vmcs-set ms i m current (same current) ∙ found',
                rw (at-set_other ms i j m there) full,
              );
          running = s.running;
        }
      ]
