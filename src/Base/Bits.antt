-- ===== src/Base/Bits.antt =====
-- `|` of fields that do not overlap and `&` with a byte mask, as arithmetic.
use Prim.Native.Nat.{
  ℕ, zero, suc, ◌+◌, ◌*◌, ◌/◌, ◌%◌, ◌^◌, ◌≤◌, ◌<◌, min, max, bit_and, bit_or, digits, bitwise,
  bit_and-bitwise, bit_or-bitwise,
}
use mathlib.Core.Path.{◌≡◌, refl, sym, ap}
use native.Mathlib.Nat.{pow-suc, le_refl, mul_comm, div-div-eq-div-mul}
use native.Mathlib.Omega.{arith}

-- The fuel of the digit recursion does not matter once it suffices.
module _ (z : ℕ → ℕ) (f : ℕ → ℕ → ℕ) where
  digits-enough : (n m a b : ℕ) → a ≤ n → a ≤ m → digits z f n a b ≡ digits z f m a b
  digits-enough zero zero a b p q = refl
  digits-enough zero (suc m) zero b p q = refl
  digits-enough zero (suc m) (suc a) b p q = absurd (omega arith)
  digits-enough (suc n) zero zero b p q = refl
  digits-enough (suc n) zero (suc a) b p q = absurd (omega arith)
  digits-enough (suc n) (suc m) zero b p q = refl
  digits-enough (suc n) (suc m) (suc a) b p q =
      rw (digits-enough n m (suc a / 2) (b / 2) (omega arith) (omega arith))

  bitwise-halve :
      (a b : ℕ)
      → bitwise z f (suc a) b ≡ bitwise z f (suc a / 2) (b / 2) * 2 + f (suc a % 2) (b % 2)
  bitwise-halve a b =
      omega (arith, digits-enough a (suc a / 2) (suc a / 2) (b / 2) (omega arith) (le_refl _))

bit_or-halve : (a b : ℕ) → bit_or a b ≡ bit_or (a / 2) (b / 2) * 2 + max (a % 2) (b % 2)
bit_or-halve zero b = simp bit_or-bitwise (omega arith)
bit_or-halve (suc a) b = simp bit_or-bitwise (bitwise-halve (λ y. y) max a b)

bit_and-halve : (a b : ℕ) → bit_and a b ≡ bit_and (a / 2) (b / 2) * 2 + min (a % 2) (b % 2)
bit_and-halve zero b = simp bit_and-bitwise (omega arith)
bit_and-halve (suc a) b = simp bit_and-bitwise (bitwise-halve (λ y. 0) min a b)

bit_or-zero_below : (n a : ℕ) → a ≤ n → bit_or a 0 ≡ a
bit_or-zero_below n zero h = refl
bit_or-zero_below zero (suc a) h = absurd (omega arith)
bit_or-zero_below (suc n) (suc a) h =
    omega (arith, bit_or-halve (suc a) 0, bit_or-zero_below n (suc a / 2) (omega arith))

bit_and-zero_below : (n a : ℕ) → a ≤ n → bit_and a 0 ≡ 0
bit_and-zero_below n zero h = refl
bit_and-zero_below zero (suc a) h = absurd (omega arith)
bit_and-zero_below (suc n) (suc a) h =
    omega (arith, bit_and-halve (suc a) 0, bit_and-zero_below n (suc a / 2) (omega arith))

double_shift : (q k : ℕ) → q * 2 ^ suc k ≡ 2 * (q * 2 ^ k)
double_shift q k = omega (arith, ap (λ (t : ℕ). q * t) (pow-suc 2 k))

half_shift : (a k : ℕ) → a / 2 ^ suc k ≡ a / 2 / 2 ^ k
half_shift a k = rw (pow-suc 2 k, mul_comm (2 ^ k) 2) (sym (div-div-eq-div-mul a 2 (2 ^ k)))

-- A field above `k` bits, and one within them.
pub bit_or-high_low : (k q r : ℕ) → r < 2 ^ k → bit_or (q * 2 ^ k) r ≡ q * 2 ^ k + r
bit_or-high_low zero q r h = ground (arith, bit_or-zero_below q q)
bit_or-high_low (suc k) q r h = ground (
  arith,
  bit_or-halve (q * 2 ^ suc k) r,
  double_shift q k,
  bit_or-high_low k q (r / 2) (omega arith),
)

-- The other way round.
pub bit_or-low_high : (k q r : ℕ) → r < 2 ^ k → bit_or r (q * 2 ^ k) ≡ q * 2 ^ k + r
bit_or-low_high zero q zero h = simp bit_or-bitwise (omega arith)
bit_or-low_high zero q (suc r) h = absurd (omega arith)
bit_or-low_high (suc k) q r h = ground (
  arith,
  bit_or-halve r (q * 2 ^ suc k),
  double_shift q k,
  bit_or-low_high k q (r / 2) (omega arith),
)

-- A mask that leaves out the `k` low bits.
pub bit_and-high : (k a m : ℕ) → bit_and a (m * 2 ^ k) ≡ bit_and (a / 2 ^ k) m * 2 ^ k
bit_and-high zero a m = ground arith
bit_and-high (suc k) a m =
    let low : a / 2 ^ suc k ≡ a / 2 / 2 ^ k = half_shift a k in
    let mask : m * 2 ^ suc k / 2 ≡ m * 2 ^ k = omega (arith, double_shift m k) in
    rw (low, bit_and-halve a (m * 2 ^ suc k), mask, bit_and-high k (a / 2) m)
      (omega (arith, double_shift m k, double_shift (bit_and (a / 2 / 2 ^ k) m) k))

bit_and-one : (a : ℕ) → bit_and a 1 ≡ a % 2
bit_and-one a = omega (arith, bit_and-halve a 1, bit_and-zero_below (a / 2) (a / 2))

bit_and-two_bits : (a : ℕ) → bit_and a 3 ≡ a % 4
bit_and-two_bits a = omega (arith, bit_and-halve a 3, bit_and-one (a / 2))

bit_and-three_bits : (a : ℕ) → bit_and a 7 ≡ a % 8
bit_and-three_bits a = omega (arith, bit_and-halve a 7, bit_and-two_bits (a / 2))

bit_and-four_bits : (a : ℕ) → bit_and a 15 ≡ a % 16
bit_and-four_bits a = omega (arith, bit_and-halve a 15, bit_and-three_bits (a / 2))

bit_and-five_bits : (a : ℕ) → bit_and a 31 ≡ a % 32
bit_and-five_bits a = omega (arith, bit_and-halve a 31, bit_and-four_bits (a / 2))

bit_and-six_bits : (a : ℕ) → bit_and a 63 ≡ a % 64
bit_and-six_bits a = omega (arith, bit_and-halve a 63, bit_and-five_bits (a / 2))

bit_and-seven_bits : (a : ℕ) → bit_and a 127 ≡ a % 128
bit_and-seven_bits a = omega (arith, bit_and-halve a 127, bit_and-six_bits (a / 2))

-- The mask of the low byte.
pub bit_and-byte : (a : ℕ) → bit_and a 0xff ≡ a % 256
bit_and-byte a = omega (arith, bit_and-halve a 255, bit_and-seven_bits (a / 2))
