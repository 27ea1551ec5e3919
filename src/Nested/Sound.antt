-- ===== src/Nested/Sound.antt =====
-- The store of src/nested/nested_vmcs.cpp under the changes that the instructions make.
use knhv.Prelude.{ℕ, ◌<◌, ◌≡◌, refl, ◌∙◌, ◌≢◌, ◌⊎◌, inl, inr, true, some, List, arith}
use knhv.Prelude.Tests.{◌==◌, Bool-cases}
use knhv.Prelude.Bits.{u64_max}
use knhv.Prelude.Lists.{length, set, length-set}
use knhv.Nested.Defs.{vmcs_clear, vmcs_active, NestedVmcs12}
use knhv.Nested.Store.{is_region, find_vmcs}
use knhv.Nested.Vcpu.{NestedVcpu}
use knhv.Nested.Slots.{
  at, at-set, at-set_other, find_slot-some, IsUnique, SameRegion, find_vmcs-set, set-IsUnique,
}

-- A store of 16 slots of 96 fields, no two of one region. The current VMCS12, if any, is in a slot and
-- not clear; and a nested guest runs only in VMX operation, on a current VMCS12.
pub record IsStore (ms : List NestedVmcs12) (current l2 vmxon : ℕ) : Type 0 where
  pub count : length ms ≡ 16
  pub fields : (j : ℕ) → length (at ms j).fields ≡ 96
  pub unique : IsUnique ms
  pub current_slot :
      current ≢ u64_max → (i : ℕ) × (find_vmcs ms current ≡ some i) × ((at ms i).state ≢ vmcs_clear)
  pub running : l2 ≢ 0 → (vmxon ≢ 0) × (current ≢ u64_max)

abbrev pub IsSound : {S : Type 0} → NestedVcpu S → Type 0
IsSound v = IsStore v.vmcs v.current_vmcs_gpa v.l2_running v.vmxon_active

-- A slot of the same region and of as many fields, which is not emptied.
pub record KeepsSlot (m n : NestedVmcs12) : Type 0 where
  pub same_region : SameRegion m n
  pub same_fields : length n.fields ≡ length m.fields
  pub same_state : (n.state ≡ m.state) ⊎ (n.state ≢ vmcs_clear)

pub KeepsSlot-trans : {m n o : NestedVmcs12} → KeepsSlot m n → KeepsSlot n o → KeepsSlot m o
KeepsSlot-trans {m = m} {n = n} {o = o} p q = record {
  same_region = λ g. q.same_region g ∙ p.same_region g;
  same_fields = q.same_fields ∙ p.same_fields;
  same_state = after m.state n.state o.state p.same_state q.same_state;
}
  where
    after : (a b c : ℕ) → (b ≡ a) ⊎ (b ≢ 0) → (c ≡ b) ⊎ (c ≢ 0) → (c ≡ a) ⊎ (c ≢ 0)
    after a b c p q = ground arith

pub found_region :
    (ms : List NestedVmcs12) (g i : ℕ)
    → find_vmcs ms g ≡ some i
    → (i < length ms) × (is_region g (at ms i) ≡ true)
unfolding find_vmcs
found_region ms g i h = find_slot-some (is_region g) ms i h

pub fields-set :
    (ms : List NestedVmcs12) (i : ℕ) (m : NestedVmcs12)
    → i < length ms
    → length m.fields ≡ 96
    → ((j : ℕ) → length (at ms j).fields ≡ 96)
    → (j : ℕ) → length (at (set ms i m) j).fields ≡ 96
fields-set ms i m low len h j = elim (Bool-cases (j == i)) [
  | inl e ↦ let here : j ≡ i = ground arith in rw (here, at-set ms i m low) len
  | inr e ↦ let there : j ≢ i = ground arith in rw (at-set_other ms i j m there) (h j)
]

state-set :
    (ms : List NestedVmcs12) (i j : ℕ) (m : NestedVmcs12)
    → i < length ms
    → (m.state ≡ (at ms i).state) ⊎ (m.state ≢ vmcs_clear)
    → (at ms j).state ≢ vmcs_clear
    → (at (set ms i m) j).state ≢ vmcs_clear
state-set ms i j m low same h = elim (Bool-cases (j == i)) [
  | inl e ↦
      let here : j ≡ i = ground arith in
      rw (here, at-set ms i m low) (kept m.state (at ms i).state same (rw here at h))
  | inr e ↦ let there : j ≢ i = ground arith in rw (at-set_other ms i j m there) h
]
  where
    kept : (n o : ℕ) → (n ≡ o) ⊎ (n ≢ 0) → o ≢ 0 → n ≢ 0
    kept n o s p = ground arith

module _ {ms : List NestedVmcs12} {current l2 vmxon : ℕ} where
  pub set-IsStore :
      (i : ℕ) (m : NestedVmcs12)
      → i < length ms
      → KeepsSlot (at ms i) m
      → IsStore ms current l2 vmxon
      → IsStore (set ms i m) current l2 vmxon
  set-IsStore i m low keeps s = record {
    count = length-set ms i m ∙ s.count;
    fields = fields-set ms i m low (keeps.same_fields ∙ s.fields i) s.fields;
    unique = set-IsUnique ms i m low keeps.same_region s.unique;
    current_slot = λ here.
        let (j, found, full) = s.current_slot here in
        (
          j,
          find_vmcs-set ms i m current (keeps.same_region current) ∙ found,
          state-set ms i j m low keeps.same_state full,
        );
    running = s.running;
  }

  -- Leaving VMX operation, or entering it: no VMCS12 is current and no guest runs.
  pub leave-IsStore : (on : ℕ) → IsStore ms current l2 vmxon → IsStore ms u64_max 0 on
  leave-IsStore on s = record {
    count = s.count;
    fields = s.fields;
    unique = s.unique;
    current_slot = λ here. absurd (here refl);
    running = λ h. absurd (h refl);
  }

  -- An exit: the guest no longer runs.
  pub stop-IsStore : IsStore ms current l2 vmxon → IsStore ms current 0 vmxon
  stop-IsStore s = record {
    count = s.count;
    fields = s.fields;
    unique = s.unique;
    current_slot = s.current_slot;
    running = λ h. absurd (h refl);
  }

  -- An entry, in VMX operation on a current VMCS12.
  pub run-IsStore :
      vmxon ≢ 0 → current ≢ u64_max → IsStore ms current l2 vmxon → IsStore ms current 1 vmxon
  run-IsStore on here s = record {
    count = s.count;
    fields = s.fields;
    unique = s.unique;
    current_slot = s.current_slot;
    running = λ h. (on, here);
  }

  -- A slot becomes current.
  pub load-IsStore :
      (i g : ℕ)
      → find_vmcs ms g ≡ some i
      → g ≢ u64_max
      → vmxon ≢ 0
      → IsStore ms current l2 vmxon
      → IsStore (set ms i (record (at ms i) { state = vmcs_active })) g l2 vmxon
  load-IsStore i g found proper on s =
      let (low, is_there) = found_region ms g i found in
      let m = record (at ms i) { state = vmcs_active } in
      record {
        count = length-set ms i m ∙ s.count;
        fields = fields-set ms i m low (s.fields i) s.fields;
        unique = set-IsUnique ms i m low (λ h. refl) s.unique;
        current_slot =
            λ here. (i, find_vmcs-set ms i m g refl ∙ found, rw (at-set ms i m low) (omega arith));
        running = λ h. (on, proper);
      }
