-- ===== src/Prelude/Bits.antt =====
-- Flag words. A mask test of the source, `(flags & mask) != 0`, is `any_bits flags mask`; `~mask`
-- on 32 and 64 bits is `not32 mask` and `not64 mask`. The laws hold at every width.
use Prim.Native.Nat.{
  ℕ, zero, suc, ◌+◌, ◌-◌, ◌*◌, ◌/◌, ◌%◌, ◌≤◌, min, max, bit_and, bit_or, digits, bitwise,
  bit_and-bitwise, bit_or-bitwise,
}
use mathlib.Core.Path.{◌≡◌, refl, ap}
use mathlib.Core.Bool.{Bool, false, ◌||◌}
use native.Mathlib.Omega.{arith}
use knhv.Prelude.Tests.{◌!=◌}

-- The largest value of each width.
abbrev pub u32_max : ℕ
u32_max = 4294967295

abbrev pub u64_max : ℕ
u64_max = 18446744073709551615

-- The values that a register of each width keeps.
abbrev pub u32 : ℕ → ℕ
u32 n = n % 4294967296

abbrev pub u64 : ℕ → ℕ
u64 n = n % 18446744073709551616

abbrev pub not32 : ℕ → ℕ
not32 mask = u32_max - mask

abbrev pub not64 : ℕ → ℕ
not64 mask = u64_max - mask

unfoldable pub any_bits : ℕ → ℕ → Bool
any_bits flags mask = bit_and flags mask != 0

-- Both operations are one recursion on binary digits, `digits`, whose count of digits to go does not
-- matter once the first number is used up.
module _ (z : ℕ → ℕ) (f : ℕ → ℕ → ℕ) where
  digits_spare :
      (have want x y : ℕ) → x ≤ want → x ≤ have → digits z f have x y ≡ digits z f want x y
  digits_spare zero zero zero y _ _ = refl
  digits_spare zero (suc want) zero y _ _ = refl
  digits_spare (suc have) zero zero y _ _ = refl
  digits_spare (suc have) (suc want) zero y _ _ = refl
  digits_spare zero want (suc x) y _ few = absurd (omega arith)
  digits_spare (suc have) zero (suc x) y few _ = absurd (omega arith)
  digits_spare (suc have) (suc want) (suc x) y few few' =
      ap (λ t. t * 2 + f (suc x % 2) (y % 2))
        (digits_spare have want (suc x / 2) (y / 2) (omega arith) (omega arith))

  -- The lowest digit apart, where the rest of a number that has run out splits in the same way.
  bitwise_split :
      ((y : ℕ) → z y ≡ z (y / 2) * 2 + f 0 (y % 2))
      → (x y : ℕ) → bitwise z f x y ≡ bitwise z f (x / 2) (y / 2) * 2 + f (x % 2) (y % 2)
  bitwise_split rest zero y = rest y
  bitwise_split rest (suc x) y =
      ap (λ t. t * 2 + f (suc x % 2) (y % 2))
        (digits_spare x (suc x / 2) (suc x / 2) (y / 2) (omega arith) (omega arith))

pub zero-bit_and : (b : ℕ) → bit_and 0 b ≡ 0
zero-bit_and = bit_and-bitwise 0

pub zero-bit_or : (b : ℕ) → bit_or 0 b ≡ b
zero-bit_or = bit_or-bitwise 0

pub bit_and_low : (x y : ℕ) → bit_and x y ≡ bit_and (x / 2) (y / 2) * 2 + min (x % 2) (y % 2)
bit_and_low x y = omega (
  arith,
  bit_and-bitwise x y,
  bit_and-bitwise (x / 2) (y / 2),
  bitwise_split (λ _. 0) min (λ y. omega arith) x y,
)

pub bit_or_low : (x y : ℕ) → bit_or x y ≡ bit_or (x / 2) (y / 2) * 2 + max (x % 2) (y % 2)
bit_or_low x y = omega (
  arith,
  bit_or-bitwise x y,
  bit_or-bitwise (x / 2) (y / 2),
  bitwise_split (λ y. y) max (λ y. omega arith) x y,
)

bit_or-half : (a b : ℕ) → bit_or a b / 2 ≡ bit_or (a / 2) (b / 2)
bit_or-half a b = omega (arith, bit_or_low a b)

bit_and-half : (a b : ℕ) → bit_and a b / 2 ≡ bit_and (a / 2) (b / 2)
bit_and-half a b = omega (arith, bit_and_low a b)

-- `&` distributes over `|`, from the lowest digit up.
distrib_fuel :
    (n a b m : ℕ) → a ≤ n → b ≤ n → bit_and (bit_or a b) m ≡ bit_or (bit_and a m) (bit_and b m)
distrib_fuel zero zero zero m p q =
    rw (zero-bit_or 0) (rw (zero-bit_and m) (omega (arith, zero-bit_or 0)))
distrib_fuel zero (suc a) b m p q = absurd (omega arith)
distrib_fuel zero zero (suc b) m p q = absurd (omega arith)
distrib_fuel (suc n) a b m p q = ground (
  arith,
  bit_and_low (bit_or a b) m,
  bit_or_low (bit_and a m) (bit_and b m),
  bit_or_low a b,
  bit_and_low a m,
  bit_and_low b m,
  bit_or-half a b,
  bit_and-half a m,
  bit_and-half b m,
  distrib_fuel n (a / 2) (b / 2) (m / 2) (omega arith) (omega arith),
)

pub bit_and-bit_or : (a b m : ℕ) → bit_and (bit_or a b) m ≡ bit_or (bit_and a m) (bit_and b m)
bit_and-bit_or a b m = distrib_fuel (max a b) a b m (omega arith) (omega arith)

bit_or-eq_zero : (a b : ℕ) → bit_or a b ≡ 0 → (a ≡ 0) × (b ≡ 0)
bit_or-eq_zero zero b h = omega (arith, zero-bit_or b)
bit_or-eq_zero (suc a) b h = bit_or-eq_zero_fuel (suc a) (suc a) b (omega arith) h
  where
    bit_or-eq_zero_fuel : (n a b : ℕ) → a ≤ n → bit_or a b ≡ 0 → (a ≡ 0) × (b ≡ 0)
    bit_or-eq_zero_fuel n zero b p h = omega (arith, zero-bit_or b)
    bit_or-eq_zero_fuel zero (suc a) b p h = absurd (omega arith)
    bit_or-eq_zero_fuel (suc n) (suc a) b p h = omega (
      arith,
      bit_or_low (suc a) b,
      bit_or-eq_zero_fuel n (suc a / 2) (b / 2) (omega arith) (omega (arith, bit_or_low (suc a) b)),
    )

-- Setting bits adds exactly theirs to every later test.
pub any_bits-bit_or : (a b m : ℕ) → any_bits (bit_or a b) m ≡ (any_bits a m || any_bits b m)
unfolding any_bits
any_bits-bit_or a b m =
    ground (arith, bit_and-bit_or a b m, bit_or-eq_zero (bit_and a m) (bit_and b m), zero-bit_or 0)

assoc_fuel : (n a b m : ℕ) → a ≤ n → bit_and (bit_and a b) m ≡ bit_and a (bit_and b m)
assoc_fuel n zero b m p = omega (
  arith,
  zero-bit_and b,
  zero-bit_and (bit_and b m),
  zero-bit_and m,
  ap (λ (t : ℕ). bit_and t m) (zero-bit_and b),
)
assoc_fuel zero (suc a) b m p = absurd (omega arith)
assoc_fuel (suc n) (suc a) b m p = ground (
  arith,
  bit_and_low (bit_and (suc a) b) m,
  bit_and_low (suc a) (bit_and b m),
  bit_and_low (suc a) b,
  bit_and_low b m,
  bit_and-half (suc a) b,
  bit_and-half b m,
  assoc_fuel n (suc a / 2) (b / 2) (m / 2) (omega arith),
)

pub bit_and_assoc : (a b m : ℕ) → bit_and (bit_and a b) m ≡ bit_and a (bit_and b m)
bit_and_assoc a b m = assoc_fuel a a b m (omega arith)

-- Masking before a test is a test of the masked mask.
pub any_bits-bit_and : (a b m : ℕ) → any_bits (bit_and a b) m ≡ any_bits a (bit_and b m)
unfolding any_bits
any_bits-bit_and a b m = ap (λ t. t != 0) (bit_and_assoc a b m)

-- A word without the bits of a mask has none of a part of that mask.
pub any_bits_part : (a m k : ℕ) → bit_and m k ≡ k → any_bits a m ≡ false → any_bits a k ≡ false
unfolding any_bits
any_bits_part a m k e h =
    ground (arith, bit_and_assoc a m k, ap (λ (t : ℕ). bit_and a t) e, zero-bit_and k)

pub bit_and-zero : (a : ℕ) → bit_and a 0 ≡ 0
bit_and-zero a = under a a (omega arith)
  where
    under : (bound x : ℕ) → x ≤ bound → bit_and x 0 ≡ 0
    under bound zero _ = zero-bit_and 0
    under zero (suc x) low = absurd (omega arith)
    under (suc bound) (suc x) low =
        omega (arith, bit_and_low (suc x) 0, under bound (suc x / 2) (omega arith))
