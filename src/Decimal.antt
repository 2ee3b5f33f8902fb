-- ===== src/Decimal.antt =====
-- iso8583/decimal.go: exact decimal numbers. An int64 is an integer of which the arithmetic wraps
-- around, written out by the pattern of its 64 bits; a scale is a number below 256.
pub mod Checks
mod Runs
pub mod Text
pub mod Rescale
use isopace.Common.{
  ℕ, zero, suc, ◌+◌, ◌-◌, ◌*◌, ◌/◌, ◌%◌, ◌^◌, Bool, true, false, not, ◌||◌, Option, none, some, [],
  ◌∷◌, ◌++◌,
}
use isopace.Common.{
  ltb, leb, ◌==◌, if◌then◌else◌, Bytes, length, take, drop, replicate, Result, ok, err, ◌>>=◌,
}
use isopace.Common.Int.{ℤ, pos, negsuc}
use isopace.Digits.{itoa}
use isopace.Engine.Types.{Decimal}

pub data DecimalError : Type 0 where
  decimal_overflow decimal_precision scale_too_large : DecimalError

abbrev pub max_scale : ℕ
max_scale = 18

-- An integer by its sign and its magnitude.
abbrev pub is_negative : ℤ → Bool
is_negative (pos n) = false
is_negative (negsuc n) = true

abbrev pub magnitude : ℤ → ℕ
magnitude (pos n) = n
magnitude (negsuc n) = suc n

abbrev pub signed : Bool → ℕ → ℤ
signed false n = pos n
signed true zero = pos 0
signed true (suc n) = negsuc n

abbrev pub eq_int : ℤ → ℤ → Bool
eq_int (pos m) (pos n) = m == n
eq_int (negsuc m) (negsuc n) = m == n
eq_int _ _ = false

-- `a < b`
abbrev pub lt_int : ℤ → ℤ → Bool
lt_int (pos m) (pos n) = ltb m n
lt_int (pos m) (negsuc n) = false
lt_int (negsuc m) (pos n) = true
lt_int (negsuc m) (negsuc n) = ltb n m

abbrev pub differ_bool : Bool → Bool → Bool
differ_bool true b = not b
differ_bool false b = b

-- The pattern of an integer, and the int64 of a pattern.
abbrev pub pattern64 : ℤ → ℕ
pattern64 (pos m) = m % 2 ^ 64
pattern64 (negsuc m) = 2 ^ 64 - 1 - m % 2 ^ 64

abbrev pub int64_of : ℕ → ℤ
int64_of u = if ltb u (2 ^ 63) then pos u else negsuc (2 ^ 64 - 1 - u)

-- `a * b`, `a / b` and `a + b` of int64.
abbrev pub mul64 : ℤ → ℤ → ℤ
mul64 a b =
    int64_of
      (pattern64 (signed (differ_bool (is_negative a) (is_negative b)) (magnitude a * magnitude b)))

abbrev pub quot64 : ℤ → ℤ → ℤ
quot64 a b =
    int64_of
      (pattern64 (signed (differ_bool (is_negative a) (is_negative b)) (magnitude a / magnitude b)))

abbrev pub add64 : ℤ → ℤ → ℤ
add64 a b = int64_of ((pattern64 a + pattern64 b) % 2 ^ 64)

-- The loop of `pow10`; below 10 ^ 18 nothing wraps around.
pub pow10_loop : ℕ → ℕ → ℕ
pow10_loop zero r = r
pow10_loop (suc n) r = pow10_loop n (r * 10)

unfoldable pub pow10 : ℕ → Option ℕ
unfolding pow10_loop
pow10 n = if ltb max_scale n then none else some (pow10_loop n 1)

-- `mulCheck` and `addCheck`
unfoldable pub mul_check : ℤ → ℤ → Option ℤ
mul_check a b =
    let r = mul64 a b in
    if eq_int a (pos 0) || eq_int b (pos 0)
    then some (pos 0)
    else if eq_int (quot64 r b) a
    then some r
    else none

unfoldable pub add_check : ℤ → ℤ → Option ℤ
add_check a b =
    let r = add64 a b in if differ_bool (lt_int a r) (lt_int (pos 0) b) then none else some r

-- `Decimal.Rescale`
unfoldable pub rescale : Decimal → ℕ → Result DecimalError Decimal
unfolding pow10 mul_check
rescale d scale =
    if ltb max_scale scale
    then err scale_too_large
    else if scale == d.scale
    then ok d
    else if ltb d.scale scale
    then elim (pow10 (scale - d.scale)) [
      | none ↦ err decimal_overflow
      | some factor ↦ elim (mul_check d.unscaled (pos factor)) [
        | none ↦ err decimal_overflow
        | some hi ↦ ok (record { unscaled = hi; scale = scale })
      ]
    ]
    else elim (pow10 (d.scale - scale)) [
      | none ↦ err decimal_overflow
      | some factor ↦
          if not (magnitude d.unscaled % factor == 0)
          then err decimal_precision
          else ok (record { unscaled = quot64 d.unscaled (pos factor); scale = scale })
    ]

-- `Decimal.Add`
unfoldable pub add_decimal : Decimal → Decimal → Result DecimalError Decimal
unfolding rescale add_check
add_decimal d o =
    let scale = if ltb d.scale o.scale then o.scale else d.scale in
    rescale d scale >>= λ a. rescale o scale >>= λ b. elim (add_check a.unscaled b.unscaled) [
      | none ↦ err decimal_overflow
      | some sum ↦ ok (record { unscaled = sum; scale = scale })
    ]

-- `Decimal.IsZero`
abbrev pub is_zero : Decimal → Bool
is_zero d = eq_int d.unscaled (pos 0)

-- `strconv.FormatInt` in base 10
abbrev pub format_int : ℤ → Bytes
format_int (pos n) = itoa n
format_int (negsuc n) = b'-' ∷ itoa (suc n)

-- The digits of a magnitude with the point in front of the last `scale` of them.
abbrev pub place_point : ℕ → Bytes → Bytes
place_point scale digits =
    if leb (length digits) scale
    then (b'0' ∷ b'.' ∷ []) ++ (replicate (scale - length digits) b'0' ++ digits)
    else take (length digits - scale) digits ++ (b'.' ∷ drop (length digits - scale) digits)

-- `Decimal.String`
unfoldable pub decimal_text : Decimal → Bytes
decimal_text d =
    if d.scale == 0
    then format_int d.unscaled
    else if is_negative d.unscaled
    then b'-' ∷ place_point d.scale (itoa (magnitude d.unscaled))
    else place_point d.scale (itoa (magnitude d.unscaled))
