-- ===== src/Prelude/Power.antt =====
-- Single bits of any width, and their complements.
use Prim.Native.Nat.{ℕ, zero, suc, ◌+◌, ◌-◌, ◌*◌, ◌/◌, ◌%◌, ◌^◌, ◌≤◌, ◌<◌, bit_and, bit_or}
use native.Mathlib.Nat.{mod-lt, div-add-mod', add-mul-mod_self_right, mod-eq_of_lt}
use mathlib.Core.Path.{◌≡◌, refl, ap, ◌∙◌}
use mathlib.Core.Bool.{false}
use native.Mathlib.Omega.{arith}
use knhv.Prelude.Tests.{◌==◌, ◌!=◌}
use knhv.Prelude.Bits.{any_bits, bit_and_low, bit_or_low, zero-bit_or, zero-bit_and, bit_and-zero}

pow_half : (c : ℕ) → (2 ^ suc c / 2 ≡ 2 ^ c) × (2 ^ suc c % 2 ≡ 0)
pow_half c = omega arith

bit_and_power : (b c : ℕ) → (bit_and (2 ^ b) (2 ^ c) != 0) ≡ (b == c)
bit_and_power zero zero = refl
bit_and_power zero (suc c) =
    ground (arith, bit_and_low 1 (2 ^ suc c), zero-bit_and (2 ^ suc c / 2), pow_half c)
bit_and_power (suc b) zero =
    ground (arith, bit_and_low (2 ^ suc b) 1, bit_and-zero (2 ^ suc b / 2), pow_half b)
bit_and_power (suc b) (suc c) =
    ground (arith, bit_and_low (2 ^ suc b) (2 ^ suc c), pow_half b, pow_half c, bit_and_power b c)

-- Two single bits meet exactly where they are one bit.
pub any_bits_power : (b c : ℕ) → any_bits (2 ^ b) (2 ^ c) ≡ (b == c)
unfolding any_bits
any_bits_power b c = bit_and_power b c

pub any_bits_zero : (m : ℕ) → any_bits 0 m ≡ false
unfolding any_bits
any_bits_zero m = ground (arith, zero-bit_and m)

pub bit_or-zero : (a : ℕ) → bit_or a 0 ≡ a
bit_or-zero a = under a a (omega arith)
  where
    under : (bound x : ℕ) → x ≤ bound → bit_or x 0 ≡ x
    under bound zero _ = zero-bit_or 0
    under zero (suc x) low = absurd (omega arith)
    under (suc bound) (suc x) low =
        omega (arith, bit_or_low (suc x) 0, under bound (suc x / 2) (omega arith))

-- A word shifted over lower bits is added to them.
pub bit_or_shift : (k h l : ℕ) → l < 2 ^ k → bit_or (h * 2 ^ k) l ≡ h * 2 ^ k + l
bit_or_shift zero h zero low = bit_or-zero (h * 1) ∙ omega arith
bit_or_shift zero h (suc l) low = absurd (omega arith)
bit_or_shift (suc k) h l low =
    let twice : 2 ^ suc k ≡ 2 * 2 ^ k = omega arith in
    let double : h * 2 ^ suc k ≡ h * 2 ^ k * 2 = rw twice (omega arith) in
    let half : h * 2 ^ suc k / 2 ≡ h * 2 ^ k = omega arith in
    omega (
      arith,
      bit_or_low (h * 2 ^ suc k) l,
      half,
      ap (λ t. bit_or t (l / 2)) half,
      bit_or_shift k h (l / 2) (omega arith),
    )

pub quotient_zero : (a b d : ℕ) → a ≤ b → b / d ≡ 0 → a / d ≡ 0
quotient_zero a b d h e = grind arith

pub bit_and_shift : (k q m : ℕ) → bit_and (q * 2 ^ k) (m * 2 ^ k) ≡ bit_and q m * 2 ^ k
bit_and_shift zero q m =
    let one : (n : ℕ) → n * 1 ≡ n = λ n. omega arith in rw (one q, one m) (omega arith)
bit_and_shift (suc k) q m =
    let twice : 2 ^ suc k ≡ 2 * 2 ^ k = omega arith in
    let left : q * 2 ^ suc k ≡ q * 2 ^ k * 2 = rw twice (omega arith) in
    let right : m * 2 ^ suc k ≡ m * 2 ^ k * 2 = rw twice (omega arith) in
    let shifted : bit_and q m * 2 ^ suc k ≡ bit_and q m * 2 ^ k * 2 = rw twice (omega arith) in
    let half : q * 2 ^ suc k / 2 ≡ q * 2 ^ k = omega arith in
    let half' : m * 2 ^ suc k / 2 ≡ m * 2 ^ k = omega arith in
    omega (
      arith,
      bit_and_low (q * 2 ^ suc k) (m * 2 ^ suc k),
      ap (λ t. bit_and t (m * 2 ^ suc k / 2)) half,
      ap (λ t. bit_and (q * 2 ^ k) t) half',
      shifted,
      bit_and_shift k q m,
    )

mod_double : (x d : ℕ) → 0 < d → x % (2 * d) ≡ x / 2 % d * 2 + x % 2
mod_double x d pos =
    let below : x / 2 % d < d = mod-lt (x / 2) pos in
    let split : x / 2 / d * d + x / 2 % d ≡ x / 2 = omega (arith, div-add-mod' (x / 2) d) in
    let whole : x ≡ x / 2 % d * 2 + x % 2 + x / 2 / d * (2 * d) = grind arith in
    ap (λ t. t % (2 * d)) whole
    ∙ add-mul-mod_self_right (x / 2 % d * 2 + x % 2) (x / 2 / d) (2 * d)
    ∙ mod-eq_of_lt (omega arith)

pub power_positive : (k : ℕ) → 0 < 2 ^ k
power_positive zero = omega arith
power_positive (suc k) = omega (arith, power_positive k)

-- The low bits of a word.
pub bit_and_mod : (k x : ℕ) → bit_and x (2 ^ k - 1) ≡ x % 2 ^ k
bit_and_mod zero x = bit_and-zero x ∙ omega arith
bit_and_mod (suc k) x =
    let twice : 2 ^ suc k ≡ 2 * 2 ^ k = omega arith in
    let pos = power_positive k in
    let half : (2 ^ suc k - 1) / 2 ≡ 2 ^ k - 1 = omega arith in
    omega (
      arith,
      bit_and_low x (2 ^ suc k - 1),
      ap (λ t. bit_and (x / 2) t) half,
      bit_and_mod k (x / 2),
      twice,
      mod_double x (2 ^ k) pos,
      ap (λ t. x % t) twice,
    )
