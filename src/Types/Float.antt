-- ===== src/Types/Float.antt =====
-- Go's float32 as IEEE 754 bit patterns, with the operations that the program uses: `a >= b`, `a * b`
-- and `a - b` rounded to nearest even, `a == 0`, and the conversion to int32, which drops the fraction. For a value that
-- does not fit an int32 the language leaves the result of the conversion open: it is an argument.
use priority_service_poc.Base.{
  ℕ, zero, suc, ◌+◌, ◌-◌, ◌*◌, ◌/◌, ◌%◌, ◌^◌, Bool, true, not, ◌&&◌, ◌||◌, ltb, leb, ◌==◌,
  if◌then◌else◌,
}
use priority_service_poc.Base.Int.{ℤ, pos, sub_ℕ, pos_part, neg_part, ◌-ℤ◌}

-- A bit pattern below 2 ^ 32: sign, eight digits of exponent, 23 of fraction.
abbrev pub Float32 : Type 0
Float32 = ℕ

abbrev sign_bit : ℕ
sign_bit = 2 ^ 31

abbrev magnitude : Float32 → ℕ
magnitude x = x % sign_bit

abbrev infinity : ℕ
infinity = 0x7f80_0000

is_nan : Float32 → Bool
is_nan x = ltb infinity (magnitude x)

is_negative : Float32 → Bool
is_negative x = leb sign_bit x

-- The patterns of one sign are ordered as the numbers; -0 and 0 are equal.
unfoldable pub float_ge : Float32 → Float32 → Bool
unfolding is_nan is_negative
float_ge x y =
    not (is_nan x)
    && not (is_nan y)
    && (if is_negative x
        then (if is_negative y
            then leb (magnitude x) (magnitude y)
            else magnitude x + magnitude y == 0)
        else (if is_negative y then true else leb (magnitude y) (magnitude x)))

-- A finite value is `significand x * 2 ^ exponent x / 2 ^ 149`.
exponent : Float32 → ℕ
exponent x = magnitude x / 2 ^ 23 - 1

significand : Float32 → ℕ
significand x =
    if magnitude x / 2 ^ 23 == 0 then magnitude x % 2 ^ 23 else magnitude x % 2 ^ 23 + 2 ^ 23

-- The number of binary digits.
bit_length_below : ℕ → ℕ → ℕ
bit_length_below zero n = 0
bit_length_below (suc fuel) n =
    let rest = bit_length_below fuel (n / 2) in if n == 0 then 0 else suc rest

-- n / 2 ^ k, to the nearest integer, a tie to the even one.
round_shift : ℕ → ℕ → ℕ
round_shift n k =
    let q = n / 2 ^ k in
    let twice_rest = n % 2 ^ k * 2 in
    if ltb (2 ^ k) twice_rest || twice_rest == 2 ^ k && q % 2 == 1 then q + 1 else q

-- The product of two finite magnitudes is `n / 2 ^ 298`, for `n` the product of the significands
-- scaled by the exponents. Its float keeps 24 digits, and none below `2 ^ -149`.
encode_magnitude : ℕ → ℕ
unfolding bit_length_below round_shift
encode_magnitude n =
    let cut =
      if leb (bit_length_below 600 n) (149 + 24) then 149 else bit_length_below 600 n - 24 in
    let bits = (cut - 149) * 2 ^ 23 + round_shift n cut in
    if ltb infinity bits then infinity else bits

quiet_nan : Float32
quiet_nan = 0x7fc0_0000

unfoldable pub float_mul : Float32 → Float32 → Float32
unfolding is_nan is_negative significand exponent encode_magnitude quiet_nan
float_mul x y =
    let sign =
      if is_negative x
      then (if is_negative y then 0 else sign_bit)
      else (if is_negative y then sign_bit else 0) in
    if is_nan x || is_nan y
    then quiet_nan
    else if magnitude x == infinity || magnitude y == infinity
    then (if magnitude x == 0 || magnitude y == 0 then quiet_nan else sign + infinity)
    else sign + encode_magnitude (significand x * significand y * 2 ^ (exponent x + exponent y))

-- `x == 0`, for either sign of zero.
unfoldable pub is_zero : Float32 → Bool
is_zero x = magnitude x == 0

-- A finite value times `2 ^ 149`.
scaled_value : Float32 → ℤ
unfolding is_negative significand exponent sub_ℕ
scaled_value x =
    let n = significand x * 2 ^ exponent x in if is_negative x then sub_ℕ 0 n else pos n

-- The difference of two finite values. That of two equal ones is 0, but for (-0) - 0.
sub_finite : Float32 → Float32 → Float32
unfolding scaled_value encode_magnitude is_negative is_zero pos_part neg_part ◌-ℤ◌
sub_finite x y =
    let d = scaled_value x -ℤ scaled_value y in
    let both_zero = is_zero x && is_zero y in
    let sign = if ltb 0 (neg_part d) then sign_bit else 0 in
    if pos_part d + neg_part d == 0
    then (if both_zero && is_negative x && not (is_negative y) then sign_bit else 0)
    else sign + encode_magnitude ((pos_part d + neg_part d) * 2 ^ 149)

-- `x - y`, rounded to nearest even.
unfoldable pub float_sub : Float32 → Float32 → Float32
unfolding is_nan is_negative sub_finite quiet_nan
float_sub x y =
    let opposite = if is_negative y then y - sign_bit else y + sign_bit in
    let same_infinity = magnitude y == infinity && x == y in
    if is_nan x || is_nan y
    then quiet_nan
    else if magnitude x == infinity
    then (if same_infinity then quiet_nan else x)
    else if magnitude y == infinity
    then opposite
    else sub_finite x y

-- `int32(x)`: truncation towards zero.
unfoldable pub float_to_int32 : (Float32 → ℤ) → Float32 → ℤ
unfolding is_nan is_negative significand exponent sub_ℕ
float_to_int32 overflow x =
    let whole = significand x * 2 ^ exponent x / 2 ^ 149 in
    if leb infinity (magnitude x)
    then overflow x
    else if is_negative x
    then (if leb whole (2 ^ 31) then sub_ℕ 0 whole else overflow x)
    else (if ltb whole (2 ^ 31) then pos whole else overflow x)

-- 10.0 and 100.0
abbrev pub large_qty_threshold : Float32
large_qty_threshold = 0x4120_0000

abbrev pub score_scale : Float32
score_scale = 0x42c8_0000
