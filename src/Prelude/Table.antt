-- ===== src/Prelude/Table.antt =====
-- Laws over a small range, checked at every value by evaluation.
use Prim.Native.Nat.{ℕ, zero, suc, ◌/◌, ◌%◌, ◌^◌, ◌<◌, bit_and}
use mathlib.Core.Path.{◌≡◌, refl}
use mathlib.Core.Bool.{Bool, true, ◌&&◌, cond}
use native.Mathlib.Omega.{arith}
use knhv.Prelude.Tests.{◌==◌, ==_iff}
use knhv.Prelude.Bits.{any_bits, bit_and_low, bit_and-zero}

-- The test passes at every number under the bound.
passes_under : (ℕ → Bool) → ℕ → Bool
passes_under test zero = true
passes_under test (suc bound) = passes_under test bound && test bound

passed :
    (test : ℕ → Bool) (bound k : ℕ) → k < bound → passes_under test bound ≡ true → test k ≡ true
unfolding passes_under
passed test zero k low all = elim low [ ]
passed test (suc bound) k low all = ground (arith, passed test bound k)

abbrev single_test : ℕ → ℕ → Bool
single_test b c = bit_and (2 ^ b) (2 ^ c) == cond (b == c) (2 ^ c) 0

-- `1 << b` against `1 << c` in a 32-bit word.
single_bits_table : passes_under (λ b. passes_under (single_test b) 32) 32 ≡ true
unfolding passes_under
single_bits_table = refl

pub bit_and_single : (b c : ℕ) → b < 32 → c < 32 → bit_and (2 ^ b) (2 ^ c) ≡ cond (b == c) (2 ^ c) 0
bit_and_single b c h k =
    let row = passed (λ b. passes_under (single_test b) 32) 32 b h single_bits_table in
    (==_iff _ _).0 (passed (single_test b) 32 c k row)

pub any_bits_single : (b c : ℕ) → b < 32 → c < 32 → any_bits (2 ^ b) (2 ^ c) ≡ (b == c)
unfolding any_bits
any_bits_single b c h k = ground (arith, bit_and_single b c h k, pow_pos c)
  where
    pow_pos : (c : ℕ) → 0 < 2 ^ c
    pow_pos zero = omega arith
    pow_pos (suc c) = omega (arith, pow_pos c)

-- The low five bits of a number.
pub bit_and_31 : (a : ℕ) → bit_and a 31 ≡ a % 32
bit_and_31 a = omega (
  arith,
  bit_and_low a 31,
  bit_and_low (a / 2) 15,
  bit_and_low (a / 2 / 2) 7,
  bit_and_low (a / 2 / 2 / 2) 3,
  bit_and_low (a / 2 / 2 / 2 / 2) 1,
  bit_and-zero (a / 2 / 2 / 2 / 2 / 2),
)
