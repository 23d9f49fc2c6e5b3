-- ===== src/Common/Bits.antt =====
-- Facts about the bit operations at variables, from the recursion on digits that they stand for.
use Prim.Native.Nat.{
  ℕ, zero, suc, ◌+◌, ◌*◌, ◌/◌, ◌%◌, ◌^◌, ◌≤◌, ◌<◌, min, max, bit_and, bit_or, bit_xor, digits,
  differ, bit_and-bitwise, bit_or-bitwise, bit_xor-bitwise,
}
use mathlib.Core.Path.{◌≡◌, refl}
use native.Mathlib.Nat.{pow-suc}
use native.Mathlib.Omega.{arith}

-- An operation on digits that treats a number that has run out as one that goes on with zeros
module _ (z : ℕ → ℕ) (f : ℕ → ℕ → ℕ) (runs_on : (b : ℕ) → z b ≡ z (b / 2) * 2 + f 0 (b % 2)) where
  enough_digits : (n m a b : ℕ) → a ≤ n → a ≤ m → digits z f n a b ≡ digits z f m a b
  enough_digits zero zero zero b p q = refl
  enough_digits zero zero (suc a) b p q = refl
  enough_digits zero (suc m) zero b p q = refl
  enough_digits zero (suc m) (suc a) b p q = absurd (omega arith)
  enough_digits (suc n) zero zero b p q = refl
  enough_digits (suc n) zero (suc a) b p q = absurd (omega arith)
  enough_digits (suc n) (suc m) zero b p q = refl
  enough_digits (suc n) (suc m) (suc a) b p q =
      omega (arith, enough_digits n m (suc a / 2) (b / 2) (omega arith) (omega arith))

  lowest_digit :
      (a b : ℕ) → digits z f a a b ≡ digits z f (a / 2) (a / 2) (b / 2) * 2 + f (a % 2) (b % 2)
  lowest_digit zero b = runs_on b
  lowest_digit (suc a) b =
      omega (arith, enough_digits a (suc a / 2) (suc a / 2) (b / 2) (omega arith) (omega arith))

bit_and_step : (a b : ℕ) → bit_and a b ≡ bit_and (a / 2) (b / 2) * 2 + min (a % 2) (b % 2)
bit_and_step a b = omega (
  arith,
  bit_and-bitwise a b,
  bit_and-bitwise (a / 2) (b / 2),
  lowest_digit (λ b. 0) min (λ b. omega arith) a b,
)

bit_or_step : (a b : ℕ) → bit_or a b ≡ bit_or (a / 2) (b / 2) * 2 + max (a % 2) (b % 2)
bit_or_step a b = omega (
  arith,
  bit_or-bitwise a b,
  bit_or-bitwise (a / 2) (b / 2),
  lowest_digit (λ b. b) max (λ b. omega arith) a b,
)

bit_xor_step : (a b : ℕ) → bit_xor a b ≡ bit_xor (a / 2) (b / 2) * 2 + differ (a % 2) (b % 2)
bit_xor_step a b = omega (
  arith,
  bit_xor-bitwise a b,
  bit_xor-bitwise (a / 2) (b / 2),
  lowest_digit (λ b. b) differ (λ b. omega arith) a b,
)

half_pow : (k : ℕ) → (2 ^ suc k / 2 ≡ 2 ^ k) × (2 ^ suc k % 2 ≡ 0)
half_pow k = (omega (arith, pow-suc 2 k), omega (arith, pow-suc 2 k))

-- Setting a bit above all others adds it.
pub bit_or_above : (k s : ℕ) → s < 2 ^ k → bit_or (2 ^ k) s ≡ 2 ^ k + s
bit_or_above zero s h = let e : s ≡ 0 = omega arith in rw e refl
bit_or_above (suc k) s h =
    let step = rw ((half_pow k).0, (half_pow k).1) at (bit_or_step (2 ^ suc k) s) in
    omega (arith, pow-suc 2 k, step, bit_or_above k (s / 2) (omega (arith, pow-suc 2 k)))

-- Clearing a bit above all others takes it away.
pub bit_xor_above : (k s : ℕ) → s < 2 ^ k → bit_xor (2 ^ k) (2 ^ k + s) ≡ s
bit_xor_above zero s h = let e : s ≡ 0 = omega arith in rw e refl
bit_xor_above (suc k) s h =
    let upper : (2 ^ suc k + s) / 2 ≡ 2 ^ k + s / 2 = omega (arith, pow-suc 2 k) in
    let step =
      rw ((half_pow k).0, (half_pow k).1, upper) at (bit_xor_step (2 ^ suc k) (2 ^ suc k + s)) in
    omega (arith, pow-suc 2 k, step, bit_xor_above k (s / 2) (omega (arith, pow-suc 2 k)))

one_bit : (a m : ℕ) → bit_and a (m * 2 + 1) ≡ bit_and (a / 2) m * 2 + a % 2
one_bit a m =
    let upper : (m * 2 + 1) / 2 ≡ m = omega arith in
    let step = rw upper at (bit_and_step a (m * 2 + 1)) in omega (arith, step)

bit_and-zero : (n a : ℕ) → a ≤ n → bit_and a 0 ≡ 0
bit_and-zero n zero h = refl
bit_and-zero zero (suc a) h = absurd (omega arith)
bit_and-zero (suc n) (suc a) h =
    omega (arith, bit_and_step (suc a) 0, bit_and-zero n (suc a / 2) (omega arith))

four_bits : (a m : ℕ) → bit_and a (m * 16 + 15) ≡ bit_and (a / 16) m * 16 + a % 16
four_bits a m =
    let m1 = m * 2 + 1 in
    let m2 = m1 * 2 + 1 in
    let m3 = m2 * 2 + 1 in
    let mask : m * 16 + 15 ≡ m3 * 2 + 1 = omega arith in
    let upper : a / 16 ≡ a / 2 / 2 / 2 / 2 = omega arith in
    rw (mask, upper)
      (omega (
        arith,
        one_bit a m3,
        one_bit (a / 2) m2,
        one_bit (a / 2 / 2) m1,
        one_bit (a / 2 / 2 / 2) m,
      ))

-- A mask of sixteen ones
pub bit_and_lsb16 : (a : ℕ) → bit_and a 0xFFFF ≡ a % 0x10000
bit_and_lsb16 a = omega (
  arith,
  four_bits a 0xFFF,
  four_bits (a / 16) 0xFF,
  four_bits (a / 16 / 16) 0xF,
  four_bits (a / 16 / 16 / 16) 0,
  bit_and-zero (a / 16 / 16 / 16 / 16) (a / 16 / 16 / 16 / 16) (omega arith),
)
