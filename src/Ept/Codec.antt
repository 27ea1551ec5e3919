-- ===== src/Ept/Codec.antt =====
-- The EPT pointer of src/ept/ept_model.cpp holds its configuration.
use knhv.Prelude.{
  ℕ, ◌+◌, ◌-◌, ◌*◌, ◌/◌, ◌%◌, ◌^◌, ◌<◌, bit_and, bit_or, ◌≡◌, refl, sym, ap, ◌∙◌, ◌⊎◌, inl, inr,
  Bool, true, false, ◌&&◌, ◌||◌, some, arith,
}
use knhv.Prelude.Tests.{◌==◌, ◌!=◌, if◌then◌else◌}
use knhv.Prelude.Bits.{
  not32, not64, any_bits, zero-bit_or, bit_and_low, bit_and-bit_or, bit_and_assoc, bit_and-zero,
}
use knhv.Prelude.Power.{bit_or-zero, bit_and_shift, bit_and_mod}
use knhv.Ept.Defs.{
  ept_contract_version, ept_max_physical_address_bits, eptp_flag_access_dirty, eptp_known_flag_mask,
  EptpConfig,
}
use knhv.Ept.Validity.{is_physical_address, is_eptp_config_valid}
use knhv.Ept.Pointer.{
  eptp_memory_type_mask, ept_physical_address_mask, eptp_known_mask, build_ept_pointer,
  decode_ept_pointer,
}

-- A configuration that is valid is one of eight, but for its root and its generation.
config_parts :
    (c : EptpConfig)
    → is_eptp_config_valid (some c) ept_max_physical_address_bits ≡ true
    → ((c.memory_type ≡ 0) ⊎ (c.memory_type ≡ 6))
      × ((c.walk_length ≡ 4) ⊎ (c.walk_length ≡ 5))
      × (any_bits c.flags (not32 eptp_known_flag_mask) ≡ false)
      × (any_bits c.root_physical 0xFFF ≡ false)
      × (is_physical_address c.root_physical ept_max_physical_address_bits ≡ true)
      × (c.reserved ≡ 0)
unfolding is_eptp_config_valid
config_parts c v = ground arith

-- What a mask keeps of a word that is made of four fields.
masked :
    (a b c d m : ℕ)
    → bit_and (bit_or (bit_or (bit_or a b) c) d) m
      ≡ bit_or (bit_or (bit_or (bit_and a m) (bit_and b m)) (bit_and c m)) (bit_and d m)
masked a b c d m =
    rw
      (
        bit_and-bit_or (bit_or (bit_or a b) c) d m,
        bit_and-bit_or (bit_or a b) c m,
        bit_and-bit_or a b m,
      )
      refl

-- The pointer of a configuration, its fields as numbers.
abbrev pointer : ℕ → ℕ → ℕ → ℕ → ℕ
pointer root memory walk dirty =
    bit_or (bit_or (bit_or (bit_and root ept_physical_address_mask) memory) walk) dirty

pointer_mask :
    (root memory walk dirty m : ℕ)
    → bit_and (pointer root memory walk dirty) m
      ≡ bit_or
          (bit_or
            (bit_or (bit_and root (bit_and ept_physical_address_mask m)) (bit_and memory m))
            (bit_and walk m))
          (bit_and dirty m)
pointer_mask root memory walk dirty m =
    rw
      (
        masked (bit_and root ept_physical_address_mask) memory walk dirty m,
        bit_and_assoc root ept_physical_address_mask m,
      )
      refl

-- A mask apart from the root's bits reads the other three fields, and one of the root's bits the root.
module _ (root memory walk dirty m : ℕ) where
  low_field :
      bit_and ept_physical_address_mask m ≡ 0
      → bit_and (pointer root memory walk dirty) m
        ≡ bit_or (bit_or (bit_and memory m) (bit_and walk m)) (bit_and dirty m)
  low_field apart =
      rw
        (
          pointer_mask root memory walk dirty m,
          apart,
          bit_and-zero root,
          zero-bit_or (bit_and memory m),
        )
        refl

  root_field :
      bit_and ept_physical_address_mask m ≡ ept_physical_address_mask
      → bit_and memory m ≡ 0
      → bit_and walk m ≡ 0
      → bit_and dirty m ≡ 0
      → bit_and (pointer root memory walk dirty) m ≡ bit_and root ept_physical_address_mask
  root_field all a b c =
      rw
        (
          pointer_mask root memory walk dirty m,
          all,
          a,
          b,
          c,
          bit_or-zero (bit_and root ept_physical_address_mask),
          bit_or-zero (bit_and root ept_physical_address_mask),
          bit_or-zero (bit_and root ept_physical_address_mask),
        )
        refl

-- A root that is aligned and within 52 bits is what the mask keeps of it.
mask_root :
    (root : ℕ)
    → any_bits root 0xFFF ≡ false
    → is_physical_address root ept_max_physical_address_bits ≡ true
    → bit_and root ept_physical_address_mask ≡ root
unfolding any_bits is_physical_address
mask_root root low high =
    let aligned : root % 2 ^ 12 ≡ 0 = ground (arith, bit_and_mod 12 root) in
    let whole : root ≡ root / 2 ^ 12 * 2 ^ 12 = omega arith in
    let bound : root / 2 ^ 12 < 2 ^ 40 = ground arith in
    let kept = bit_and_mod 40 (root / 2 ^ 12) in
    ap (λ t. bit_and t ept_physical_address_mask) whole
    ∙ bit_and_shift 12 (root / 2 ^ 12) (2 ^ 40 - 1)
    ∙ omega arith

-- The configuration that the pointer stands for: the same one, under the size and the version of this
-- library and with the generation that a pointer does not hold.
abbrev pub without_generation : EptpConfig → EptpConfig
without_generation c = record c { size = 40; version = ept_contract_version; generation = 0 }

module _ (root memory walk dirty : ℕ) where
  -- What each mask of the decoder reads of the three low fields.
  abbrev low : ℕ → ℕ
  low m = bit_or (bit_or (bit_and memory m) (bit_and walk m)) (bit_and dirty m)

  abbrev are_fields : Bool
  are_fields =
      low 0x7 == memory
      && low 0x38 == walk
      && low 0x40 == dirty
      && low (not64 eptp_known_mask) == 0
      && bit_and memory ept_physical_address_mask == 0
      && bit_and walk ept_physical_address_mask == 0
      && bit_and dirty ept_physical_address_mask == 0
      && (memory == 0 || memory == 6)
      && (walk == 24 || walk == 32)

  decode-pointer :
      bit_and root ept_physical_address_mask ≡ root
      → are_fields ≡ true
      → decode_ept_pointer (pointer root memory walk dirty)
        ≡ some record {
          size = 40;
          version = ept_contract_version;
          root_physical = root;
          memory_type = memory;
          walk_length = walk / 2 ^ 3 + 1;
          flags = if dirty != 0 then eptp_flag_access_dirty else 0;
          reserved = 0;
          generation = 0;
        }
  unfolding decode_ept_pointer any_bits
  decode-pointer e ok =
      let (f, g, h, i, a, b, c, p, q) = parts ok in
      rw
        (
          low_field root memory walk dirty 0x7 refl,
          low_field root memory walk dirty 0x38 refl,
          low_field root memory walk dirty 0x40 refl,
          low_field root memory walk dirty (not64 eptp_known_mask) refl,
          root_field root memory walk dirty ept_physical_address_mask refl a b c,
          e,
          f,
          g,
          h,
          i,
        )
        (ground arith)
    where
      parts :
          are_fields ≡ true
          → (low 0x7 ≡ memory)
            × (low 0x38 ≡ walk)
            × (low 0x40 ≡ dirty)
            × (low (not64 eptp_known_mask) ≡ 0)
            × (bit_and memory ept_physical_address_mask ≡ 0)
            × (bit_and walk ept_physical_address_mask ≡ 0)
            × (bit_and dirty ept_physical_address_mask ≡ 0)
            × ((memory ≡ 0) ⊎ (memory ≡ 6))
            × ((walk ≡ 24) ⊎ (walk ≡ 32))
      parts ok = ground arith

-- The fields of a valid configuration.
abbrev memory_field : EptpConfig → ℕ
memory_field c = bit_and c.memory_type eptp_memory_type_mask

abbrev walk_field : EptpConfig → ℕ
walk_field c = (c.walk_length - 1) * 2 ^ 3

abbrev dirty_field : EptpConfig → ℕ
dirty_field c = c.flags * 64

valid_fields :
    (memory walk flags : ℕ)
    → (memory ≡ 0) ⊎ (memory ≡ 6)
    → (walk ≡ 4) ⊎ (walk ≡ 5)
    → (flags ≡ 0) ⊎ (flags ≡ 1)
    → (are_fields 0 (bit_and memory 7) ((walk - 1) * 2 ^ 3) (flags * 64) ≡ true)
      × (bit_and memory 7 ≡ memory)
      × ((walk - 1) * 2 ^ 3 / 2 ^ 3 + 1 ≡ walk)
      × ((if flags * 64 != 0 then 1 else 0) ≡ flags)
valid_fields memory walk flags (inl p) (inl q) (inl r) = rw (p, q, r) (refl, refl, refl, refl)
valid_fields memory walk flags (inl p) (inl q) (inr r) = rw (p, q, r) (refl, refl, refl, refl)
valid_fields memory walk flags (inl p) (inr q) (inl r) = rw (p, q, r) (refl, refl, refl, refl)
valid_fields memory walk flags (inl p) (inr q) (inr r) = rw (p, q, r) (refl, refl, refl, refl)
valid_fields memory walk flags (inr p) (inl q) (inl r) = rw (p, q, r) (refl, refl, refl, refl)
valid_fields memory walk flags (inr p) (inl q) (inr r) = rw (p, q, r) (refl, refl, refl, refl)
valid_fields memory walk flags (inr p) (inr q) (inl r) = rw (p, q, r) (refl, refl, refl, refl)
valid_fields memory walk flags (inr p) (inr q) (inr r) = rw (p, q, r) (refl, refl, refl, refl)

known_flags :
    (flags : ℕ)
    → any_bits flags (not32 eptp_known_flag_mask) ≡ false
    → flags < 2 ^ 32
    → (flags ≡ 0) ⊎ (flags ≡ 1)
unfolding any_bits
known_flags flags h below = ground (arith, bit_and_low flags 4294967294, bit_and_mod 31 (flags / 2))

build-pointer :
    (c : EptpConfig)
    → is_eptp_config_valid (some c) ept_max_physical_address_bits ≡ true
    → (c.flags ≡ 0) ⊎ (c.flags ≡ 1)
    → build_ept_pointer (some c)
      ≡ some (pointer c.root_physical (memory_field c) (walk_field c) (dirty_field c))
unfolding build_ept_pointer any_bits
build-pointer c v (inl e) = rw (v, e) (ap some (sym (bit_or-zero _)))
build-pointer c v (inr e) = rw (v, e) refl

-- The pointer of a valid configuration is read back as that configuration, under the size and the
-- version of this library and with the generation 0, which a pointer does not hold.
pub decode-build :
    (c : EptpConfig)
    → is_eptp_config_valid (some c) ept_max_physical_address_bits ≡ true
    → c.flags < 2 ^ 32
    → (raw : ℕ) × (build_ept_pointer (some c) ≡ some raw)
      × (decode_ept_pointer raw ≡ some (without_generation c))
decode-build c v w =
    let (memory, walk, masked_flags, aligned, bounded, reserved) = config_parts c v in
    let flags = known_flags c.flags masked_flags w in
    let (ok, same, walked, flagged) =
      valid_fields c.memory_type c.walk_length c.flags memory walk flags in
    let e =
      decode-pointer c.root_physical (memory_field c) (walk_field c) (dirty_field c)
        (mask_root c.root_physical aligned bounded) ok in
    (
      pointer c.root_physical (memory_field c) (walk_field c) (dirty_field c),
      build-pointer c v flags,
      e ∙ rw (same, walked, flagged, reserved) refl,
    )
