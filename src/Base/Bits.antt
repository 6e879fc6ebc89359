-- ===== src/Base/Bits.antt =====
-- `hi << k | lo` is a sum when `lo` has no more than `k` digits.
use Prim.Native.Nat.{
  ℕ, zero, suc, ◌+◌, ◌*◌, ◌/◌, ◌%◌, ◌^◌, ◌≤◌, ◌<◌, max, bit_or, digits, bit_or-bitwise,
}
use mathlib.Core.Path.{◌≡◌, refl, ap, ◌∙◌}
use native.Mathlib.Nat.{pow-suc}
use native.Mathlib.Omega.{arith}

abbrev or_digits : ℕ → ℕ → ℕ → ℕ
or_digits n a b = digits (λ b. b) max n a b

or_digits_enough : (n m a b : ℕ) → a ≤ n → a ≤ m → or_digits n a b ≡ or_digits m a b
or_digits_enough zero zero a b p q = refl
or_digits_enough zero (suc m) zero b p q = refl
or_digits_enough zero (suc m) (suc a) b p q = absurd (omega arith)
or_digits_enough (suc n) zero zero b p q = refl
or_digits_enough (suc n) zero (suc a) b p q = absurd (omega arith)
or_digits_enough (suc n) (suc m) zero b p q = refl
or_digits_enough (suc n) (suc m) (suc a) b p q =
    omega (arith, or_digits_enough n m (suc a / 2) (b / 2) (omega arith) (omega arith))

zero-bit_or : (b : ℕ) → bit_or 0 b ≡ b
zero-bit_or b = bit_or-bitwise 0 b

bit_or_step : (a b : ℕ) → bit_or a b ≡ bit_or (a / 2) (b / 2) * 2 + max (a % 2) (b % 2)
bit_or_step zero b = omega (arith, zero-bit_or b, zero-bit_or (b / 2))
bit_or_step (suc a) b = omega (
  arith,
  bit_or-bitwise (suc a) b,
  bit_or-bitwise (suc a / 2) (b / 2),
  or_digits_enough a (suc a / 2) (suc a / 2) (b / 2) (omega arith) (omega arith),
)

bit_or-zero_below : (n a : ℕ) → a ≤ n → bit_or a 0 ≡ a
bit_or-zero_below n zero h = refl
bit_or-zero_below zero (suc a) h = absurd (omega arith)
bit_or-zero_below (suc n) (suc a) h =
    omega (arith, bit_or_step (suc a) 0, bit_or-zero_below n (suc a / 2) (omega arith))

half_shift : (k a : ℕ) → a * 2 ^ suc k ≡ (a * 2 ^ k) * 2
half_shift k a = omega (arith, ap (λ (t : ℕ). a * t) (pow-suc 2 k))

half_double : (n : ℕ) → n * 2 / 2 ≡ n
half_double n = omega arith

pub bit_or-shift : (k a b : ℕ) → b < 2 ^ k → bit_or (a * 2 ^ k) b ≡ a * 2 ^ k + b
bit_or-shift zero a b h =
    let none_left : b ≡ 0 = omega arith in
    rw none_left (bit_or-zero_below (a * 2 ^ 0) (a * 2 ^ 0) (omega arith) ∙ omega arith)
bit_or-shift (suc k) a b h =
    let halved : bit_or ((a * 2 ^ k) * 2) b ≡ bit_or (a * 2 ^ k) (b / 2) * 2 + b % 2 =
      bit_or_step ((a * 2 ^ k) * 2) b ∙ rw (half_double (a * 2 ^ k)) (omega arith) in
    rw (half_shift k a)
      (omega (arith, halved, pow-suc 2 k, bit_or-shift k a (b / 2) (omega (arith, pow-suc 2 k))))
