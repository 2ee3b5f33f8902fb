-- ===== src/Field/Catalogue.antt =====
-- fieldcodec/: the `Kind` of each codec of the catalogue, against the values that it decodes.
use isopace.Common.{
  ℕ, ◌≡◌, sym, ap, Option, none, some, Bytes, Result, ok, err, map_err, ok_injective, err_ne_ok,
  bind_ok,
}
use isopace.Common.Int.{ℤ}
use isopace.Bcd.{BcdError, unpack}
use isopace.Engine.Parse.{ValueError, parse_int64}
use isopace.Engine.Types.{
  Attrs, FieldCodec, Value, Kind, kind_string, kind_numeric, kind_bytes, kind_amount, numeric_value,
  bytes_value, amount_value,
}
use isopace.Field.{
  Wire, WireCause, CodecName, lookup, num_ascii, num_ebcdic, bcd_num, rbcd_num, ascii_text,
  ebcdic_text, binary_raw, hex_binary, digits_value, octets_value, num_ascii_name, num_ebcdic_name,
  num_bcd_name, num_rbcd_name, char_ascii_name, char_cp037_name, char_cp1047_name, char_utf8_name,
  b_raw_name, b_hex_name, field_cause, bcd_cause, non_digit,
}
use isopace.Field.Amounts.{bin_num, amount_ascii, amount_bcd, amount_binary, amount_of}

-- Every codec that `DefaultRegistry` registers.
pub data Registered : Type 0 where
  named : CodecName → Registered
  num_bin_name amount_ascii_name amount_bcd_name amount_bin_name : Registered

unfoldable pub codec_of : {C : Type 0} → Registered → FieldCodec (Wire C)
unfolding lookup bin_num amount_ascii amount_bcd amount_binary
codec_of (named n) = lookup n
codec_of num_bin_name = bin_num
codec_of amount_ascii_name = amount_ascii
codec_of amount_bcd_name = amount_bcd
codec_of amount_bin_name = amount_binary

-- The `Kind` methods.
abbrev pub kind_of_name : CodecName → Kind
kind_of_name num_ascii_name = kind_numeric
kind_of_name num_ebcdic_name = kind_numeric
kind_of_name num_bcd_name = kind_numeric
kind_of_name num_rbcd_name = kind_numeric
kind_of_name char_ascii_name = kind_string
kind_of_name char_cp037_name = kind_string
kind_of_name char_cp1047_name = kind_string
kind_of_name char_utf8_name = kind_string
kind_of_name b_raw_name = kind_bytes
kind_of_name b_hex_name = kind_bytes

abbrev pub kind_of : Registered → Kind
kind_of (named n) = kind_of_name n
kind_of num_bin_name = kind_numeric
kind_of amount_ascii_name = kind_amount
kind_of amount_bcd_name = kind_amount
kind_of amount_bin_name = kind_amount

-- A result whose value is of the kind.
abbrev HasKind : {C : Type 0} → Kind → Result WireCause (Value (Wire C)) → Type 0
HasKind {C} k r = (v : Value (Wire C)) → r ≡ ok v → v.kind ≡ k

module _ (C : Type 0) where
  abbrev decoded : Value (Wire C) → Result WireCause (Value (Wire C))
  decoded w = ok w

  ok-HasKind : (w : Value (Wire C)) → HasKind w.kind (decoded w)
  ok-HasKind w v e = ap (λ x. x.kind) (sym (ok_injective e))

  digits_value-HasKind : (r : Result BcdError Bytes) → HasKind {C = C} kind_numeric (digits_value r)
  digits_value-HasKind (ok ds) v e = ok-HasKind (numeric_value ds) v e
  digits_value-HasKind (err x) v e = absurd (err_ne_ok e)

  octets_value-HasKind : (o : Option Bytes) → HasKind {C = C} kind_bytes (octets_value o)
  octets_value-HasKind (some bs) v e = ok-HasKind (bytes_value bs) v e
  octets_value-HasKind none v e = absurd (err_ne_ok e)

  amount_of-HasKind :
      (digits : Bytes) (def : Attrs) → HasKind {C = C} kind_amount (amount_of digits def)
  unfolding amount_of
  amount_of-HasKind digits def = go (parse_int64 digits)
    where
      go :
          (r : Result ValueError ℤ)
          → HasKind {C = C} kind_amount (elim r as (λ _. Result WireCause (Value (Wire C))) [
            | err e ↦ err (field_cause non_digit)
            | ok n ↦ ok (amount_value (record { unscaled = n; scale = def.scale }) digits)
          ])
      go (ok n) v e =
          ok-HasKind (amount_value (record { unscaled = n; scale = def.scale }) digits) v e
      go (err x) v e = absurd (err_ne_ok e)

  lookup-HasKind :
      (n : CodecName) (body : Bytes) (units : ℕ) (def : Attrs)
      → HasKind {C = C} (kind_of_name n) ((lookup n).decode_body body units def)
  unfolding lookup num_ascii num_ebcdic bcd_num rbcd_num ascii_text ebcdic_text binary_raw
      hex_binary
  lookup-HasKind num_ascii_name body units def = ok-HasKind _
  lookup-HasKind num_ebcdic_name body units def = ok-HasKind _
  lookup-HasKind num_bcd_name body units def = digits_value-HasKind _
  lookup-HasKind num_rbcd_name body units def = digits_value-HasKind _
  lookup-HasKind char_ascii_name body units def = ok-HasKind _
  lookup-HasKind char_cp037_name body units def = ok-HasKind _
  lookup-HasKind char_cp1047_name body units def = ok-HasKind _
  lookup-HasKind char_utf8_name body units def = ok-HasKind _
  lookup-HasKind b_raw_name body units def = ok-HasKind _
  lookup-HasKind b_hex_name body units def = octets_value-HasKind _

  -- Every codec of the registry that decodes a body gives a value of the kind that its `Kind` method
  -- says.
  pub decode_body-HasKind :
      (n : Registered) (body : Bytes) (units : ℕ) (def : Attrs) (v : Value (Wire C))
      → (codec_of n).decode_body body units def ≡ ok v
      → v.kind ≡ kind_of n
  unfolding codec_of lookup bin_num amount_ascii amount_bcd amount_binary
  decode_body-HasKind (named n) body units def v e = lookup-HasKind n body units def v e
  decode_body-HasKind num_bin_name body units def v e = ok-HasKind _ v e
  decode_body-HasKind amount_ascii_name body units def v e = amount_of-HasKind body def v e
  decode_body-HasKind amount_bcd_name body units def v e =
      let (digits, _, q) = bind_ok (map_err (λ x. field_cause (bcd_cause x)) (unpack body _)) e in
      amount_of-HasKind digits def v q
  decode_body-HasKind amount_bin_name body units def v e = ok-HasKind _ v e
