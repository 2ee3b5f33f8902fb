-- ===== src/Engine/Types.antt =====
-- iso8583/value.go, schema.go and codec_iface.go. The codecs are interfaces, which are records of functions
-- here. A codec is handed the field definition that it belongs to, of which it reads the
-- attributes; its errors, and the child messages of composites, are types of the codecs' own. A unit count
-- that a length codec reads is not negative, so the engine's guard on it has no counterpart.
use isopace.Common.{ℕ, Option, none, some, List, [], Bool}
use isopace.Common.{Bytes, Result}
use isopace.Common.Int.{ℤ, pos}
use isopace.Bitmap.{Bitmap}

-- The types that the codecs bring.
pub record Kinds : Type 1 where
  pub Child : Type 0
  pub Cause : Type 0

-- `Decimal`
pub record Decimal : Type 0 where
  pub unscaled : ℤ
  pub scale : ℕ

pub data Kind : Type 0 where
  kind_invalid kind_string kind_numeric kind_bytes kind_amount kind_composite : Kind

-- `Value`, without the codec and the offset that only errors report.
pub record Value (K : Kinds) : Type 0 where
  pub raw : Bytes
  pub kind : Kind
  pub sub : Option K.Child
  pub dec : Decimal

abbrev pub zero_decimal : Decimal
zero_decimal = record { unscaled = pos 0; scale = 0 }

abbrev pub zero_value : {K : Kinds} → Value K
zero_value = record { raw = []; kind = kind_invalid; sub = none; dec = zero_decimal }

abbrev pub string_value : {K : Kinds} → Bytes → Value K
string_value raw = record { raw = raw; kind = kind_string; sub = none; dec = zero_decimal }

abbrev pub numeric_value : {K : Kinds} → Bytes → Value K
numeric_value raw = record { raw = raw; kind = kind_numeric; sub = none; dec = zero_decimal }

abbrev pub bytes_value : {K : Kinds} → Bytes → Value K
bytes_value raw = record { raw = raw; kind = kind_bytes; sub = none; dec = zero_decimal }

abbrev pub amount_value : {K : Kinds} → Decimal → Bytes → Value K
amount_value dec raw = record { raw = raw; kind = kind_amount; sub = none; dec = dec }

abbrev pub composite_value : {K : Kinds} → Bytes → K.Child → Value K
composite_value raw sub = record {
  raw = raw;
  kind = kind_composite;
  sub = some sub;
  dec = zero_decimal;
}

-- What a codec reads of the `FieldDef`: `is_prefixed` is `Length != nil`.
pub record Attrs : Type 0 where
  pub max_len : ℕ
  pub scale : ℕ
  pub is_prefixed : Bool

-- `FieldCodec`; `body_bytes` is the method of a `WidthCodec`. `encode_body` gives what is appended.
pub record FieldCodec (K : Kinds) : Type 0 where
  pub decode_body : Bytes → ℕ → Attrs → Result K.Cause (Value K)
  pub encode_body : Value K → Attrs → Result K.Cause Bytes
  pub body_bytes : Option (ℕ → ℕ)

pub record LengthCodec (K : Kinds) : Type 0 where
  pub read_len : Bytes → ℕ → Result K.Cause (ℕ × ℕ)
  pub write_len : Bytes → ℕ → Result K.Cause Bytes

pub record BitmapCodec (K : Kinds) : Type 0 where
  pub read : Bytes → ℕ → ℕ → Result K.Cause (Bitmap × ℕ)
  pub write : Bytes → Bitmap → ℕ → Result K.Cause Bytes

-- `RequiredMode`
pub data RequiredMode : Type 0 where
  required_optional required_always required_on_mti : RequiredMode

pub record RequiredRule : Type 0 where
  pub mode : RequiredMode
  pub mti_classes : List Bytes

-- The rules that violations name; those of other validators have names of their own.
pub data Rule : Type 0 where
  required_rule digits_rule luhn_rule len_rule oneof_rule currency_rule mti_rule decode_rule : Rule
  named_rule : Bytes → Rule

-- `Violation`, by its data element, if it has one yet, and its rule.
pub record Violation : Type 0 where
  pub place : Option ℕ
  pub rule : Rule

-- `FieldDef`
pub record FieldDef (K : Kinds) : Type 0 where
  pub kind : Kind
  pub attrs : Attrs
  pub codec : Option (FieldCodec K)
  pub length_codec : Option (LengthCodec K)
  pub required : RequiredRule
  pub validators : List (Value K → Attrs → Option Violation)

-- `BitmapSpec`
pub record BitmapSpec (K : Kinds) : Type 0 where
  pub codec : Option (BitmapCodec K)
  pub levels : ℕ

-- `Schema`: `defs` is the table without the entry 0, which stands in `mti`, and is `none` beyond `max_de`.
pub record Schema (K : Kinds) : Type 0 where
  pub mti : Option (FieldDef K)
  pub bitmap : BitmapSpec K
  pub defs : ℕ → Option (FieldDef K)
  pub max_de : ℕ
