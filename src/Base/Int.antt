-- ===== src/Base/Int.antt =====
-- Signed integers over the native numbers, and the wrap-around of Go's intN types.
-- The two parts stay shut in proofs: the tactics take them for unknowns and reason linearly.
use Prim.Native.Nat.{ℕ, suc, ◌+◌, ◌-◌, ◌%◌, ◌^◌, ◌≤◌, ◌<◌}
use mathlib.Core.Path.{◌≡◌, refl}
use mathlib.Core.Bool.{Bool}
use native.Mathlib.Omega.{arith}
use priority_service_poc.Base.Tests.{ltb, leb, ◌==◌, if◌then◌else◌}

-- `negsuc n` is -(n + 1).
pub data ℤ : Type 0 where
  pos : ℕ → ℤ
  negsuc : ℕ → ℤ

unfoldable pub pos_part : ℤ → ℕ
pos_part (pos n) = n
pos_part (negsuc n) = 0

unfoldable pub neg_part : ℤ → ℕ
neg_part (pos n) = 0
neg_part (negsuc n) = suc n

-- a - b, as an integer.
unfoldable pub sub_ℕ : ℕ → ℕ → ℤ
sub_ℕ a b = if leb b a then pos (a - b) else negsuc (b - a - 1)

infixl 65 ◌+ℤ◌ ◌-ℤ◌
infix 50 ◌≤ℤ◌ ◌<ℤ◌
unfoldable pub ◌+ℤ◌ : ℤ → ℤ → ℤ
unfolding sub_ℕ pos_part neg_part
a +ℤ b = sub_ℕ (pos_part a + pos_part b) (neg_part a + neg_part b)

unfoldable pub ◌-ℤ◌ : ℤ → ℤ → ℤ
unfolding sub_ℕ pos_part neg_part
a -ℤ b = sub_ℕ (pos_part a + neg_part b) (neg_part a + pos_part b)

abbrev pub ◌≤ℤ◌ : ℤ → ℤ → Type 0
a ≤ℤ b = pos_part a + neg_part b ≤ pos_part b + neg_part a

abbrev pub ◌<ℤ◌ : ℤ → ℤ → Type 0
a <ℤ b = pos_part a + neg_part b < pos_part b + neg_part a

-- a >= b
abbrev pub geb_ℤ : ℤ → ℤ → Bool
geb_ℤ a b = leb (pos_part b + neg_part a) (pos_part a + neg_part b)

-- a > b
abbrev pub gtb_ℤ : ℤ → ℤ → Bool
gtb_ℤ a b = ltb (pos_part b + neg_part a) (pos_part a + neg_part b)

abbrev pub eqb_ℤ : ℤ → ℤ → Bool
eqb_ℤ a b = (pos_part a + neg_part b) == (pos_part b + neg_part a)

-- The residue of `a` modulo `2 ^ w`, for w = 32 and w = 64.
residue : ℕ → ℤ → ℕ
residue m (pos n) = n % m
residue m (negsuc n) = m - 1 - n % m

-- The conversions int32(x) and int64(x): the residue read as a two's complement number.
signed : ℕ → ℕ → ℤ
unfolding sub_ℕ
signed half r = if ltb r half then pos r else sub_ℕ r (half + half)

unfoldable pub wrap32 : ℤ → ℤ
unfolding residue signed
wrap32 a = signed (2 ^ 31) (residue (2 ^ 32) a)

unfoldable pub wrap64 : ℤ → ℤ
unfolding residue signed
wrap64 a = signed (2 ^ 63) (residue (2 ^ 64) a)

pub sub_ℕ_parts : (a b : ℕ) → pos_part (sub_ℕ a b) + b ≡ neg_part (sub_ℕ a b) + a
unfolding sub_ℕ pos_part neg_part
sub_ℕ_parts a b = ground arith

pub +ℤ_parts :
    (a b : ℤ)
    → pos_part (a +ℤ b) + neg_part a + neg_part b ≡ neg_part (a +ℤ b) + pos_part a + pos_part b
unfolding ◌+ℤ◌
+ℤ_parts a b = ground arith

pub -ℤ_parts :
    (a b : ℤ)
    → pos_part (a -ℤ b) + neg_part a + pos_part b ≡ neg_part (a -ℤ b) + pos_part a + neg_part b
unfolding ◌-ℤ◌
-ℤ_parts a b = ground arith

pub eq_of_parts : (a b : ℤ) → pos_part a + neg_part b ≡ pos_part b + neg_part a → a ≡ b
unfolding pos_part neg_part
eq_of_parts a b h = ground arith

pub pos_parts : (n : ℕ) → (pos_part (pos n) ≡ n) × (neg_part (pos n) ≡ 0)
unfolding pos_part neg_part
pos_parts n = (refl, refl)

pub negsuc_parts : (n : ℕ) → (pos_part (negsuc n) ≡ 0) × (neg_part (negsuc n) ≡ suc n)
unfolding pos_part neg_part
negsuc_parts n = (refl, refl)

-- A value of the type's range is kept.
pub wrap32_fits : (a : ℤ) → negsuc (2 ^ 31 - 1) ≤ℤ a → a ≤ℤ pos (2 ^ 31 - 1) → wrap32 a ≡ a
unfolding wrap32 pos_part neg_part
wrap32_fits (pos n) lo hi = ground arith
wrap32_fits (negsuc n) lo hi = ground arith

pub wrap64_fits : (a : ℤ) → negsuc (2 ^ 63 - 1) ≤ℤ a → a ≤ℤ pos (2 ^ 63 - 1) → wrap64 a ≡ a
unfolding wrap64 pos_part neg_part
wrap64_fits (pos n) lo hi = ground arith
wrap64_fits (negsuc n) lo hi = ground arith
