-- ===== src/Field.antt =====
-- fieldcodec/fieldcodec.go, numeric.go, char.go and hex.go: the codecs of values, as codecs of the engine. Their
-- `EncodeBody` appends to `dst`, and what they append is their result here. The code units of a
-- body are not negative, so that of `digitCount` the test on them is the one for zero.
pub mod Padding
pub mod RoundTrip
pub mod Wire
pub mod Presence
pub mod Built
pub mod Amounts
pub mod Catalogue
pub mod Runs
use isopace.Common.{
  ℕ, zero, suc, ◌+◌, ◌-◌, ◌*◌, Bool, true, false, ◌&&◌, not, Option, none, some, [], ◌++◌, map,
}
use isopace.Common.{
  ltb, ◌==◌, if◌then◌else◌, Bytes, length, replicate, Result, ok, err, ◌>>=◌, map_err,
}
use isopace.Common.Int.{pos}
use isopace.Bcd.{BcdError, packed_len, pack, unpack, pack_right, unpack_right}
use isopace.Ebcdic.{Table, cp037, cp1047, decode, encode}
use isopace.BitmapCodec.{BitmapError, hex_encode, hex_decode, upper_hex}
use isopace.Length.{LengthError}
use isopace.Decimal.{DecimalError}
use isopace.Engine.Parse.{ValueError}
use isopace.Engine.Types.{Kinds, Value, Attrs, FieldCodec, numeric_value, string_value, bytes_value}

pub data FieldError : Type 0 where
  too_long non_digit bad_hex negative : FieldError
  -- an error of a value's typed reader, or of `Rescale`, passed on
  value_cause : ValueError → FieldError
  decimal_cause : DecimalError → FieldError
  -- an error of the BCD primitives, passed on
  bcd_cause : BcdError → FieldError

-- The errors of the codecs on the wire.
pub data WireCause : Type 0 where
  field_cause : FieldError → WireCause
  length_cause : LengthError → WireCause
  bitmap_cause : BitmapError → WireCause

abbrev pub Wire : Type 0 → Kinds
Wire C = record { Child = C; Cause = WireCause }

-- `digitCount`
unfoldable pub digit_count : ℕ → Attrs → ℕ
digit_count units def = if ltb 0 units then units else if ltb 0 def.max_len then def.max_len else 0

-- `isFixed`
unfoldable pub is_fixed : Attrs → Bool
is_fixed def = not def.is_prefixed && ltb 0 def.max_len

-- `padFixed`
unfoldable pub pad_fixed : Bytes → Attrs → ℕ → Bool → Result FieldError Bytes
unfolding is_fixed
pad_fixed b def pad left =
    if not (is_fixed def)
    then ok b
    else if ltb def.max_len (length b)
    then err too_long
    else if length b == def.max_len
    then ok b
    else if left
    then ok (replicate (def.max_len - length b) pad ++ b)
    else ok (b ++ replicate (def.max_len - length b) pad)

-- `bcd.Pack` and `bcd.PackRight`, of which the error is replaced.
abbrev pub or_non_digit : Result BcdError Bytes → Result FieldError Bytes
or_non_digit (ok p) = ok p
or_non_digit (err e) = err non_digit

-- The results of the BCD readers.
abbrev pub digits_value : {C : Type 0} → Result BcdError Bytes → Result WireCause (Value (Wire C))
digits_value (ok ds) = ok (numeric_value ds)
digits_value (err e) = err (field_cause (bcd_cause e))

abbrev pub octets_value : {C : Type 0} → Option Bytes → Result WireCause (Value (Wire C))
octets_value (some bs) = ok (bytes_value bs)
octets_value none = err (field_cause bad_hex)

-- `numASCII`
unfoldable pub num_ascii : {C : Type 0} → FieldCodec (Wire C)
unfolding pad_fixed
num_ascii = record {
  decode_body = λ body units def. ok (numeric_value body);
  encode_body = λ v def. map_err field_cause (pad_fixed v.raw def b'0' true);
  body_bytes = none;
}

-- `numEBCDIC`
unfoldable pub num_ebcdic : {C : Type 0} → FieldCodec (Wire C)
unfolding pad_fixed
num_ebcdic = record {
  decode_body = λ body units def. ok (numeric_value (decode cp037 body));
  encode_body =
      λ v def. map_err field_cause (pad_fixed v.raw def b'0' true >>= λ b. ok (encode cp037 b));
  body_bytes = none;
}

-- `bcdNum`
unfoldable pub bcd_num : {C : Type 0} → FieldCodec (Wire C)
unfolding pad_fixed digit_count
bcd_num = record {
  decode_body = λ body units def. digits_value (unpack body (pos (digit_count units def)));
  encode_body = λ v def.
      map_err field_cause (pad_fixed v.raw def b'0' true >>= λ digits. or_non_digit (pack digits));
  body_bytes = some packed_len;
}

-- `rbcdNum`
unfoldable pub rbcd_num : {C : Type 0} → FieldCodec (Wire C)
unfolding pad_fixed digit_count
rbcd_num = record {
  decode_body = λ body units def. digits_value (unpack_right body (pos (digit_count units def)));
  encode_body = λ v def.
      map_err field_cause
        (pad_fixed v.raw def b'0' true >>= λ digits. or_non_digit (pack_right digits));
  body_bytes = some packed_len;
}

-- `ascii`, and `utf8Char`, which does the same.
unfoldable pub ascii_text : {C : Type 0} → FieldCodec (Wire C)
unfolding pad_fixed
ascii_text = record {
  decode_body = λ body units def. ok (string_value body);
  encode_body = λ v def. map_err field_cause (pad_fixed v.raw def b' ' false);
  body_bytes = none;
}

-- `ebcdicChar`
unfoldable pub ebcdic_text : {C : Type 0} → Table → FieldCodec (Wire C)
unfolding pad_fixed
ebcdic_text tbl = record {
  decode_body = λ body units def. ok (string_value (decode tbl body));
  encode_body =
      λ v def. map_err field_cause (pad_fixed v.raw def b' ' false >>= λ b. ok (encode tbl b));
  body_bytes = none;
}

-- `binaryRaw`
unfoldable pub binary_raw : {C : Type 0} → FieldCodec (Wire C)
unfolding pad_fixed
binary_raw = record {
  decode_body = λ body units def. ok (bytes_value body);
  encode_body = λ v def. map_err field_cause (pad_fixed v.raw def 0 false);
  body_bytes = none;
}

-- `hexBinary`
unfoldable pub hex_binary : {C : Type 0} → FieldCodec (Wire C)
unfolding pad_fixed hex_encode hex_decode upper_hex
hex_binary = record {
  decode_body = λ body units def. octets_value (hex_decode body);
  encode_body = λ v def.
      map_err field_cause (pad_fixed v.raw def 0 false >>= λ b. ok (map upper_hex (hex_encode b)));
  body_bytes = some (λ units. units * 2);
}

-- The ten codecs of digits, text and octets among the fourteen that `DefaultRegistry` registers; the
-- binary number and the three amounts are `Registered` beside them, in Field.Catalogue.
pub data CodecName : Type 0 where
  num_ascii_name num_ebcdic_name num_bcd_name num_rbcd_name : CodecName
  char_ascii_name char_cp037_name char_cp1047_name char_utf8_name : CodecName
  b_raw_name b_hex_name : CodecName

-- The codec that is registered under each of these names.
unfoldable pub lookup : {C : Type 0} → CodecName → FieldCodec (Wire C)
unfolding num_ascii num_ebcdic bcd_num rbcd_num ascii_text ebcdic_text binary_raw hex_binary
lookup num_ascii_name = num_ascii
lookup num_ebcdic_name = num_ebcdic
lookup num_bcd_name = bcd_num
lookup num_rbcd_name = rbcd_num
lookup char_ascii_name = ascii_text
lookup char_cp037_name = ebcdic_text cp037
lookup char_cp1047_name = ebcdic_text cp1047
lookup char_utf8_name = ascii_text
lookup b_raw_name = binary_raw
lookup b_hex_name = hex_binary
