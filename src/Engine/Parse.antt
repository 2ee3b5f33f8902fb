-- ===== src/Engine/Parse.antt =====
-- The typed readers of values in value.go, the value that `Set` stores (`makeValue` of message.go), and
-- the validator `CurrencyAmount`. `strconv.ParseInt` and `ParseUint` are written out for base 10 and 64 bits.
pub mod RoundTrip
use isopace.Common.{ℕ, ◌+◌, ◌^◌, Bool, true, false, ◌||◌, Option, none, some, [], ◌∷◌}
use isopace.Common.{ltb, ◌==◌, if◌then◌else◌, Bytes, length, Result, ok, err, ◌>>=◌}
use isopace.Common.Int.{ℤ, pos, negsuc}
use isopace.Digits.{itoa, digits_from}
use isopace.Decimal.{signed, format_int, decimal_text}
use isopace.Engine.Types.{
  currency_rule, Kinds, Value, Attrs, Kind, Decimal, FieldDef, zero_value, string_value,
  numeric_value, bytes_value, amount_value, kind_invalid, kind_string, kind_numeric, kind_bytes,
  kind_amount, kind_composite,
}
use isopace.Engine.Validate.{all_digits, violate, Validator}

pub data ValueError : Type 0 where
  not_numeric wrong_kind bad_syntax out_of_range unsupported : ValueError

-- `strconv.ParseUint`, below `2 ^ bits`.
unfoldable pub parse_below : ℕ → Bytes → Result ValueError ℕ
unfolding all_digits digits_from
parse_below limit b =
    if length b == 0
    then err bad_syntax
    else if all_digits b
    then (if ltb (digits_from 0 b) limit then ok (digits_from 0 b) else err out_of_range)
    else err bad_syntax

-- `strconv.ParseInt`: a sign may stand in front.
unfoldable pub parse_int64 : Bytes → Result ValueError ℤ
unfolding parse_below
parse_int64 [] = err bad_syntax
parse_int64 (c ∷ cs) =
    if c == b'-'
    then (parse_below (2 ^ 63 + 1) cs >>= λ n. ok (signed true n))
    else if c == b'+'
    then (parse_below (2 ^ 63) cs >>= λ n. ok (pos n))
    else (parse_below (2 ^ 63) (c ∷ cs) >>= λ n. ok (pos n))

-- `parseInt` and `parseUint`
unfoldable pub parse_int : Bytes → Result ValueError ℤ
unfolding parse_int64
parse_int b = if length b == 0 then err not_numeric else parse_int64 b

unfoldable pub parse_uint : Bytes → Result ValueError ℕ
unfolding parse_below
parse_uint b = if length b == 0 then err not_numeric else parse_below (2 ^ 64) b

-- `Value.Int`, `Value.Uint` and `Value.Decimal`
pub value_int : {K : Kinds} → Value K → Result ValueError ℤ
unfolding parse_int
value_int v = elim v.kind [
  | kind_numeric ↦ parse_int v.raw
  | kind_string ↦ parse_int v.raw
  | kind_amount ↦ ok v.dec.unscaled
  | kind_bytes ↦ err not_numeric
  | kind_invalid ↦ err not_numeric
  | kind_composite ↦ err not_numeric
]

unfoldable pub value_uint : {K : Kinds} → Value K → Result ValueError ℕ
unfolding parse_uint
value_uint v = elim v.kind [
  | kind_numeric ↦ parse_uint v.raw
  | kind_string ↦ parse_uint v.raw
  | kind_amount ↦ err not_numeric
  | kind_bytes ↦ err not_numeric
  | kind_invalid ↦ err not_numeric
  | kind_composite ↦ err not_numeric
]

unfoldable pub value_decimal : {K : Kinds} → Value K → Result ValueError Decimal
unfolding parse_int
value_decimal v = elim v.kind [
  | kind_amount ↦ ok v.dec
  | kind_numeric ↦ (parse_int v.raw >>= λ n. ok (record { unscaled = n; scale = 0 }))
  | kind_string ↦ err wrong_kind
  | kind_bytes ↦ err wrong_kind
  | kind_invalid ↦ err wrong_kind
  | kind_composite ↦ err wrong_kind
]

-- `CurrencyAmount`
pub currency_amount : {K : Kinds} → Validator K
unfolding value_decimal
currency_amount v def = elim (value_decimal v) [
  | err e ↦ some (violate currency_rule)
  | ok d ↦ none
]

-- What `Set` may be given; an `Amount` is its decimal.
pub data Input (K : Kinds) : Type 0 where
  in_value : Value K → Input K
  in_string : Bytes → Input K
  in_bytes : Bytes → Input K
  in_int : ℤ → Input K
  in_uint : ℕ → Input K
  in_decimal : Decimal → Input K
  in_other : Input K

abbrev pub scalar : {K : Kinds} → Kind → Bytes → Value K
scalar k raw = record zero_value { raw = raw; kind = k }

-- `scalarFromBytes`
unfoldable pub scalar_from_bytes : {K : Kinds} → Kind → Bytes → Result ValueError (Value K)
unfolding parse_int64
scalar_from_bytes k b = elim k [
  | kind_amount ↦ (parse_int64 b >>= λ n. ok (amount_value (record { unscaled = n; scale = 0 }) b))
  | kind_bytes ↦ ok (bytes_value b)
  | kind_numeric ↦ ok (numeric_value b)
  | kind_string ↦ ok (string_value b)
  | kind_invalid ↦ ok (string_value b)
  | kind_composite ↦ ok (string_value b)
]

-- `numericKind`
abbrev pub numeric_kind : Kind → Kind
numeric_kind kind_string = kind_numeric
numeric_kind kind_invalid = kind_numeric
numeric_kind k = k

-- `scalarFromInt`
unfoldable pub scalar_from_int : {K : Kinds} → Kind → ℤ → Value K
scalar_from_int kind_amount n = amount_value (record { unscaled = n; scale = 0 }) (format_int n)
scalar_from_int k n = scalar (numeric_kind k) (format_int n)

-- The kind that text is taken for.
abbrev pub text_kind : Kind → Kind
text_kind kind_invalid = kind_string
text_kind k = k

abbrev pub octets_kind : Kind → Kind
octets_kind kind_invalid = kind_bytes
octets_kind k = k

-- `makeValue`
unfoldable pub make_value : {K : Kinds} → Input K → FieldDef K → Result ValueError (Value K)
unfolding scalar_from_bytes scalar_from_int
make_value (in_value v) def = ok v
make_value (in_string s) def = scalar_from_bytes (text_kind def.kind) s
make_value (in_bytes b) def = ok (scalar (octets_kind def.kind) b)
make_value (in_int n) def = ok (scalar_from_int (text_kind def.kind) n)
make_value (in_uint n) def = ok (scalar (numeric_kind (text_kind def.kind)) (itoa n))
make_value (in_decimal d) def = ok (amount_value d (decimal_text d))
make_value in_other def = err unsupported
