-- ===== src/Field/Amounts.antt =====
-- fieldcodec/amount.go, and the binary number of numeric.go.
pub mod Truncation
mod Runs
use isopace.Common.{
  ℕ, zero, suc, ◌+◌, ◌*◌, ◌%◌, ◌^◌, Bool, true, false, Option, none, some, [], ◌∷◌,
}
use isopace.Common.{ltb, ◌==◌, if◌then◌else◌, Bytes, Result, ok, err, ◌>>=◌, map_err}
use isopace.Common.Int.{ℤ, pos, negsuc}
use isopace.Common.BigEndian.{be_put}
use isopace.Bcd.{packed_len, pack, unpack}
use isopace.Digits.{itoa}
use isopace.Decimal.{rescale, format_int, is_negative, pattern64, int64_of}
use isopace.Engine.Types.{Value, Attrs, Decimal, FieldCodec, numeric_value, amount_value}
use isopace.Engine.Parse.{parse_int64, value_uint, value_decimal}
use isopace.Field.{
  Wire, WireCause, FieldError, field_cause, non_digit, negative, value_cause, decimal_cause,
  bcd_cause, digit_count, pad_fixed, or_non_digit,
}

-- The loop `n = n<<8 | uint64(c)`, of which the shift leaves eight bits free.
unfoldable pub be_get64 : ℕ → Bytes → ℕ
be_get64 n [] = n
be_get64 n (c ∷ cs) = be_get64 (n * 256 % 2 ^ 64 + c) cs

-- The width of a binary number.
abbrev pub binary_width : Attrs → ℕ
binary_width def = if ltb 0 def.max_len then def.max_len else 8

-- `binNum`
unfoldable pub bin_num : {C : Type 0} → FieldCodec (Wire C)
unfolding be_get64 be_put value_uint
bin_num = record {
  decode_body = λ body units def. ok (numeric_value (itoa (be_get64 0 body)));
  encode_body = λ v def. map_err (λ e. field_cause (value_cause e)) (value_uint v) >>= λ n.
      ok (be_put (binary_width def) n);
  body_bytes = none;
}

-- The number of an amount in minor units, which is not negative.
unfoldable pub minor_units : {C : Type 0} → Value (Wire C) → Attrs → Result FieldError ℤ
unfolding value_decimal rescale
minor_units v def = map_err value_cause (value_decimal v) >>= λ d.
    map_err decimal_cause (rescale d def.scale) >>= λ e.
    if is_negative e.unscaled then err negative else ok e.unscaled

-- `amountDigits`
unfoldable pub amount_digits : {C : Type 0} → Value (Wire C) → Attrs → Result FieldError Bytes
unfolding minor_units
amount_digits v def = minor_units v def >>= λ n. ok (format_int n)

-- The amount that digits stand for.
unfoldable pub amount_of : {C : Type 0} → Bytes → Attrs → Result WireCause (Value (Wire C))
unfolding parse_int64
amount_of digits def = elim (parse_int64 digits) [
  | err e ↦ err (field_cause non_digit)
  | ok n ↦ ok (amount_value (record { unscaled = n; scale = def.scale }) digits)
]

-- `amountASCII`
unfoldable pub amount_ascii : {C : Type 0} → FieldCodec (Wire C)
unfolding amount_of amount_digits pad_fixed
amount_ascii = record {
  decode_body = λ body units def. amount_of body def;
  encode_body = λ v def.
      map_err field_cause (amount_digits v def >>= λ digits. pad_fixed digits def b'0' true);
  body_bytes = none;
}

-- `amountBCD`
unfoldable pub amount_bcd : {C : Type 0} → FieldCodec (Wire C)
unfolding amount_of amount_digits pad_fixed digit_count
amount_bcd = record {
  decode_body = λ body units def.
      map_err (λ e. field_cause (bcd_cause e)) (unpack body (pos (digit_count units def)))
      >>= λ digits. amount_of digits def;
  encode_body = λ v def. map_err field_cause (
      amount_digits v def >>= λ digits.
      pad_fixed digits def b'0' true >>= λ padded. or_non_digit (pack padded));
  body_bytes = some packed_len;
}

-- `amountBinary`
unfoldable pub amount_binary : {C : Type 0} → FieldCodec (Wire C)
unfolding minor_units be_get64 be_put
amount_binary = record {
  decode_body = λ body units def.
      ok (amount_value (record { unscaled = int64_of (be_get64 0 body); scale = def.scale }) body);
  encode_body = λ v def.
      map_err field_cause (minor_units v def >>= λ n. ok (be_put (binary_width def) (pattern64 n)));
  body_bytes = none;
}
