-- ===== src/Provider/Safety.antt =====
-- What a selection of src/provider/provider_selection.cpp rests on.
use knhv.Prelude.{ℕ, ◌≡◌, refl, ◌≢◌, ◌⊎◌, inl, inr, Bool, true, false, not, ◌&&◌, ◌||◌, some, arith}
use knhv.Prelude.Tests.{◌==◌, if◌then◌else◌, Bool-cases}
use knhv.Abi.{
  flag_outer_l0_active, flag_native_vmx_ready, flag_boot_handoff_verified, flag_knhv_boot_l0_active,
  flag_synthetic_snapshot, mode_boot_l0_interposer, mode_cooperative_l1, mode_known_legacy_compat,
  mode_load_only, mode_external_l0_fallback, mode_native_exclusive_baseline, mode_whp_client,
  HvStatus, HvProviderKind, HvCapabilitySnapshot, HvProviderRequest, success, capability_mismatch,
  nested_unavailable, provider_none, provider_boot_l0_interposer, provider_cooperative_l1,
  provider_known_legacy_adapter, provider_load_only, provider_external_l0_fallback,
  provider_whp_client, provider_native_exclusive_baseline,
}
use knhv.Provider.Selection.{
  request_is_valid, snapshot_is_valid, has_flag, has_nested_vmx, has_whp_partition, has_requested,
  select_boot_l0, select_cooperative, select_mode, select_provider,
}

-- The facts about the machine that allow each provider; none and load-only need nothing.
abbrev pub Allows : HvProviderRequest → HvCapabilitySnapshot → HvProviderKind → Type 0
Allows r c provider_none = Unit
Allows r c provider_load_only = Unit
Allows r c provider_boot_l0_interposer =
    (has_flag c flag_outer_l0_active ≡ false)
    × (has_flag c flag_native_vmx_ready ≡ true)
    × (has_flag c flag_boot_handoff_verified ≡ true)
    × (has_requested r c ≡ true)
Allows r c provider_cooperative_l1 =
    ((has_flag c flag_knhv_boot_l0_active ≡ true) ⊎ (has_flag c flag_synthetic_snapshot ≡ true))
    × (has_nested_vmx c ≡ true)
    × (r.identity_verified ≢ 0)
    × (has_requested r c ≡ true)
Allows r c provider_known_legacy_adapter =
    (has_flag c flag_knhv_boot_l0_active ≡ true)
    × (has_nested_vmx c ≡ true)
    × (r.legacy_manifest_match ≢ 0)
Allows r c provider_external_l0_fallback =
    (has_flag c flag_outer_l0_active ≡ true) × (has_whp_partition c ≡ true)
Allows r c provider_whp_client = has_whp_partition c ≡ true
Allows r c provider_native_exclusive_baseline =
    (has_flag c flag_outer_l0_active ≡ false) × (has_flag c flag_native_vmx_ready ≡ true)

-- The providers that take the hardware's virtualisation for themselves.
abbrev pub owns_hardware : HvProviderKind → Bool
owns_hardware provider_boot_l0_interposer = true
owns_hardware provider_native_exclusive_baseline = true
owns_hardware _ = false

abbrev Outcome : HvProviderRequest → HvCapabilitySnapshot → HvStatus × HvProviderKind → Type 0
Outcome r c (status, kind) =
    Allows r c kind × ((status ≡ success) ⊎ ((kind ≡ provider_none) ⊎ (kind ≡ provider_load_only)))

select_boot_l0-Outcome :
    (r : HvProviderRequest) (c : HvCapabilitySnapshot) → Outcome r c (select_boot_l0 r c)
unfolding select_boot_l0
select_boot_l0-Outcome r c = elim (Bool-cases (has_flag c flag_outer_l0_active)) [
  | inl a ↦ rw (select_boot_l0, a) (tt, inr (inl refl))
  | inr a ↦ elim (Bool-cases (has_flag c flag_native_vmx_ready)) [
    | inr b ↦ rw (select_boot_l0, a, b) (tt, inr (inl refl))
    | inl b ↦ elim (Bool-cases (has_flag c flag_boot_handoff_verified)) [
      | inr d ↦ rw (select_boot_l0, a, b, d) (tt, inr (inl refl))
      | inl d ↦ elim (Bool-cases (has_requested r c)) [
        | inr e ↦ rw (select_boot_l0, a, b, d, e) (tt, inr (inl refl))
        | inl e ↦ rw (select_boot_l0, a, b, d, e) ((a, b, d, e), inl refl)
      ]
    ]
  ]
]

-- A guard of which a refusal gives no provider.
guarded :
    (r : HvProviderRequest) (c : HvCapabilitySnapshot) (refused : Bool)
    (x y : HvStatus × HvProviderKind)
    → Outcome r c x
    → (refused ≡ false → Outcome r c y)
    → Outcome r c (if refused then x else y)
guarded r c true x y p q = p
guarded r c false x y p q = q refl

identity_guard :
    (a b : Bool) (n : ℕ) → (a || not b || n == 0) ≡ false → (a ≡ false) × (b ≡ true) × (n ≢ 0)
identity_guard a b n h = ground arith

pair_guard : (a b : Bool) → (not a || not b) ≡ false → (a ≡ true) × (b ≡ true)
pair_guard a b h = ground arith

owner_guard : (a b : Bool) → (a || not b) ≡ false → (a ≡ false) × (b ≡ true)
owner_guard a b h = ground arith

present : (a b : Bool) → (not a && not b) ≡ false → (a ≡ true) ⊎ (b ≡ true)
present a b h = ground arith

passed : (a : Bool) → not a ≡ false → a ≡ true
passed a h = ground arith

select_cooperative-Outcome :
    (r : HvProviderRequest) (c : HvCapabilitySnapshot) → Outcome r c (select_cooperative r c)
unfolding select_cooperative
select_cooperative-Outcome r c =
    guarded r c
      ((not (has_flag c flag_knhv_boot_l0_active) && not (has_flag c flag_synthetic_snapshot))
        || not (has_nested_vmx c)
        || r.identity_verified == 0)
      (nested_unavailable, provider_none)
      (if not (has_requested r c)
        then (capability_mismatch, provider_none)
        else (success, provider_cooperative_l1))
      (tt, inr (inl refl))
      (λ h.
        let (absent, nested, known) =
          identity_guard
            (not (has_flag c flag_knhv_boot_l0_active) && not (has_flag c flag_synthetic_snapshot))
            (has_nested_vmx c) r.identity_verified h in
        guarded r c (not (has_requested r c)) (capability_mismatch, provider_none)
          (success, provider_cooperative_l1) (tt, inr (inl refl))
          (λ k. (
            (
              present (has_flag c flag_knhv_boot_l0_active) (has_flag c flag_synthetic_snapshot)
                  absent,
              nested,
              known,
              passed (has_requested r c) k,
            ),
            inl refl,
          )))

select_mode-Outcome :
    (r : HvProviderRequest) (c : HvCapabilitySnapshot) → Outcome r c (select_mode r c)
unfolding select_mode
select_mode-Outcome r c =
    guarded r c (r.mode == mode_boot_l0_interposer) _ _ (select_boot_l0-Outcome r c) (λ _.
      guarded r c (r.mode == mode_cooperative_l1) _ _ (select_cooperative-Outcome r c) (λ _.
        guarded r c (r.mode == mode_known_legacy_compat) _ _
          (guarded r c _ _ _ (tt, inr (inr refl))
            (λ h.
              let (a, b, d) =
                legacy_guard (has_flag c flag_knhv_boot_l0_active) (has_nested_vmx c)
                  r.legacy_manifest_match h in
              ((a, b, d), inl refl)))
          (λ _.
            guarded r c (r.mode == mode_load_only) _ _ (tt, inr (inr refl))
              (λ _.
                guarded r c (r.mode == mode_external_l0_fallback) _ _
                  (guarded r c _ _ _ (tt, inr (inl refl))
                    (λ h. (
                      pair_guard (has_flag c flag_outer_l0_active) (has_whp_partition c) h,
                      inl refl,
                    )))
                  (λ _.
                    guarded r c (r.mode == mode_native_exclusive_baseline) _ _
                      (guarded r c _ _ _ (tt, inr (inl refl))
                        (λ h. (
                          owner_guard (has_flag c flag_outer_l0_active)
                              (has_flag c flag_native_vmx_ready) h,
                          inl refl,
                        )))
                      (λ _.
                        guarded r c (r.mode == mode_whp_client) _ _
                          (guarded r c _ _ _ (tt, inr (inl refl))
                            (λ h. (passed (has_whp_partition c) h, inl refl)))
                          (λ _. (tt, inr (inl refl)))))))))
  where
    legacy_guard :
        (a b : Bool) (n : ℕ)
        → (not a || not b || n == 0) ≡ false
        → (a ≡ true) × (b ≡ true) × (n ≢ 0)
    legacy_guard a b n h = ground arith

owner_free :
    (r : HvProviderRequest) (c : HvCapabilitySnapshot) (kind : HvProviderKind)
    → Allows r c kind
    → (owns_hardware kind ≡ false)
      ⊎ ((has_flag c flag_outer_l0_active ≡ false) × (has_flag c flag_native_vmx_ready ≡ true))
owner_free r c provider_boot_l0_interposer h = inr (h.0, h.1)
owner_free r c provider_native_exclusive_baseline h = inr h
owner_free r c provider_none h = inl refl
owner_free r c provider_cooperative_l1 h = inl refl
owner_free r c provider_known_legacy_adapter h = inl refl
owner_free r c provider_load_only h = inl refl
owner_free r c provider_external_l0_fallback h = inl refl
owner_free r c provider_whp_client h = inl refl

-- On a request and a snapshot that are valid, the provider that is selected is one that the machine's
-- flags and features allow; without success it is none or load-only; and one that takes the hardware is
-- selected only where no outer hypervisor is active and native VMX is ready.
pub select_allowed :
    (r : HvProviderRequest) (c : HvCapabilitySnapshot) (before : HvProviderKind)
    → request_is_valid r ≡ true
    → snapshot_is_valid c ≡ true
    → let s = select_provider (some r) (some c) before in
      Allows r c s.1
      × ((s.0 ≡ success) ⊎ ((s.1 ≡ provider_none) ⊎ (s.1 ≡ provider_load_only)))
      × ((owns_hardware s.1 ≡ false)
          ⊎ ((has_flag c flag_outer_l0_active ≡ false) × (has_flag c flag_native_vmx_ready ≡ true)))
unfolding select_provider
select_allowed r c before v w =
    let (allowed, otherwise) = select_mode-Outcome r c in
    rw (select_provider, v, w) (allowed, otherwise, owner_free r c (select_mode r c).1 allowed)
