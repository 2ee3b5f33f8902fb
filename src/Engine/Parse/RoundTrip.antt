-- ===== src/Engine/Parse/RoundTrip.antt =====
-- An integer that is set is read back.
use isopace.Common.{
  ℕ, suc, ◌+◌, ◌^◌, ◌<◌, ◌≤◌, ◌≡◌, refl, ap, ◌∙◌, arith, Bool, true, false, [], ◌∷◌,
}
use isopace.Common.{ltb, ◌==◌, Bytes, All, length, ok, ◌>>=◌}
use isopace.Common.Int.{ℤ, pos, negsuc}
use isopace.Bcd.{IsDigit}
use isopace.Digits.{itoa, digits_from}
use isopace.Digits.Laws.{itoa-IsDigit, digits_from-itoa, itoa_nonempty}
use isopace.Decimal.{format_int}
use isopace.Decimal.Checks.{fits_int64}
use isopace.Engine.Types.{
  zero_decimal, Kinds, Value, Kind, FieldDef, kind_invalid, kind_string, kind_numeric, kind_bytes,
  kind_amount, kind_composite,
}
use isopace.Engine.Validate.{is_digit, all_digits}
use isopace.Engine.Parse.{
  in_uint, in_bytes, value_decimal, scalar, numeric_kind, octets_kind, parse_below, parse_int64,
  parse_int, value_int, text_kind, scalar_from_int, make_value, in_int,
}

all_digits-IsDigit : (b : Bytes) → All IsDigit b → all_digits b ≡ true
unfolding all_digits
all_digits-IsDigit [] h = refl
all_digits-IsDigit (c ∷ b) (hc, h) =
    let d : is_digit c ≡ true = ground arith in rw (d, all_digits-IsDigit b h) refl

pub parse_below-itoa : (limit n : ℕ) → n < limit → parse_below limit (itoa n) ≡ ok n
unfolding parse_below
parse_below-itoa limit n h =
    let some_text : (length (itoa n) == 0) ≡ false = ground (arith, itoa_nonempty n) in
    let small : ltb n limit ≡ true = ground arith in
    rw (some_text, all_digits-IsDigit (itoa n) (itoa-IsDigit n), digits_from-itoa n, small) refl

-- Text that begins with a digit has no sign.
parse_int64_unsigned :
    (b : Bytes)
    → 1 ≤ length b
    → All IsDigit b
    → parse_int64 b ≡ (parse_below (2 ^ 63) b >>= λ n. ok (pos n))
unfolding parse_int64
parse_int64_unsigned [] h k = absurd (omega arith)
parse_int64_unsigned (c ∷ b) h (hc, k) =
    let no_minus : (c == b'-') ≡ false = ground arith in
    let no_plus : (c == b'+') ≡ false = ground arith in rw (no_minus, no_plus) refl

pub parse_int64-digits :
    (b : Bytes) (n : ℕ)
    → 1 ≤ length b
    → All IsDigit b
    → digits_from 0 b ≡ n
    → n < 2 ^ 63
    → parse_int64 b ≡ ok (pos n)
unfolding parse_below
parse_int64-digits b n some_text h q small =
    let t1 : (length b == 0) ≡ false = ground arith in
    let t2 : ltb n (2 ^ 63) ≡ true = ground arith in
    parse_int64_unsigned b some_text h ∙ rw (t1, all_digits-IsDigit b h, q, t2) refl

parse_int64-format_int : (a : ℤ) → fits_int64 a ≡ true → parse_int64 (format_int a) ≡ ok a
unfolding parse_int64
parse_int64-format_int (pos n) h =
    parse_int64_unsigned (itoa n) (itoa_nonempty n) (itoa-IsDigit n)
    ∙ rw (parse_below-itoa (2 ^ 63) n (ground arith)) refl
parse_int64-format_int (negsuc n) h = rw (parse_below-itoa (2 ^ 63 + 1) (suc n) (ground arith)) refl

format_int_nonempty : (a : ℤ) → (length (format_int a) == 0) ≡ false
format_int_nonempty (pos n) = ground (arith, itoa_nonempty n)
format_int_nonempty (negsuc n) = ground arith

parse_int-format_int : (a : ℤ) → fits_int64 a ≡ true → parse_int (format_int a) ≡ ok a
unfolding parse_int
parse_int-format_int a h = rw (format_int_nonempty a) (parse_int64-format_int a h)

-- The kinds of fields that hold numbers or text.
abbrev pub is_countable : Kind → Bool
is_countable kind_bytes = false
is_countable kind_composite = false
is_countable _ = true

value_int-scalar :
    (K : Kinds) (k : Kind) (a : ℤ)
    → is_countable k ≡ true
    → fits_int64 a ≡ true
    → value_int (scalar_from_int {K = K} (text_kind k) a) ≡ ok a
unfolding value_int scalar_from_int
value_int-scalar K kind_invalid a h f = parse_int-format_int a f
value_int-scalar K kind_string a h f = parse_int-format_int a f
value_int-scalar K kind_numeric a h f = parse_int-format_int a f
value_int-scalar K kind_amount a h f = refl
value_int-scalar K kind_bytes a h f = absurd cc
value_int-scalar K kind_composite a h f = absurd cc

-- An int64 that is set in a field of text, of numbers or of amounts is accepted, and `Int` reads it
-- back from the value.
pub value_int-make_value :
    {K : Kinds} (def : FieldDef K) (a : ℤ)
    → is_countable def.kind ≡ true
    → fits_int64 a ≡ true
    → (v : Value K) × ((make_value (in_int a) def ≡ ok v) × (value_int v ≡ ok a))
unfolding make_value
value_int-make_value {K} def a h f =
    (scalar_from_int (text_kind def.kind) a, (refl, value_int-scalar K def.kind a h f))

-- A uint64, or bytes, that are set in an amount field are accepted, and the amount that is read from the value is
-- zero, whatever they say.
pub make_value_loses :
    {K : Kinds} (def : FieldDef K) (n : ℕ) (b : Bytes)
    → def.kind ≡ kind_amount
    → ((v : Value K) × ((make_value (in_uint n) def ≡ ok v) × (value_decimal v ≡ ok zero_decimal)))
      × ((v : Value K) × ((make_value (in_bytes b) def ≡ ok v)
            × (value_decimal v ≡ ok zero_decimal)))
unfolding make_value value_decimal
make_value_loses {K} def n b e = (
  (
    scalar (numeric_kind (text_kind def.kind)) (itoa n),
    (
      refl,
      amount_is_zero (numeric_kind (text_kind def.kind)) (itoa n)
          (ap (λ k. numeric_kind (text_kind k)) e),
    ),
  ),
  (
    scalar (octets_kind def.kind) b,
    (refl, amount_is_zero (octets_kind def.kind) b (ap octets_kind e)),
  ),
)
  where
    amount_is_zero :
        (k : Kind) (raw : Bytes)
        → k ≡ kind_amount
        → value_decimal (scalar {K = K} k raw) ≡ ok zero_decimal
    amount_is_zero k raw h = rw h refl
