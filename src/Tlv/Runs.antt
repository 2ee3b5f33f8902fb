-- ===== src/Tlv/Runs.antt =====
-- A tag of two bytes without a codec, and one of one byte with the codec of raw octets.
use isopace.Common.{◌≡◌, refl, arith, inl, inr, false, none, some, [], ◌∷◌, Bytes, eq_bytes}
use isopace.Common.{if◌then◌else◌, ok}
use isopace.BitmapCodec.{hex_digit, hex_encode, upper_hex}
use isopace.Engine.Types.{FieldDef, bytes_value, kind_bytes, required_optional}
use isopace.Field.{Wire, lookup, binary_raw, pad_fixed, b_raw_name}
use isopace.Tlv.{read_tlv}
use isopace.Tlv.Body.{
  Children, TagSchema, to_upper, put_key, put_tag, lookup_tag, read_value, write_value, decode_tags,
  decode_ber, encode_ber,
}
use isopace.Tlv.RoundTrip.{IsEntry, decode_ber-encode_ber}

abbrev profile_def : FieldDef (Wire Unit)
profile_def = record {
  kind = kind_bytes;
  attrs = record { max_len = 2; scale = 0; is_prefixed = false };
  codec = some (lookup b_raw_name);
  length_codec = none;
  required = record { mode = required_optional; mti_classes = [] };
  validators = [];
}

-- "9F26" and "82"
abbrev cryptogram_tag : Bytes
cryptogram_tag = b'9' ∷ b'F' ∷ b'2' ∷ b'6' ∷ []

abbrev profile_tag : Bytes
profile_tag = b'8' ∷ b'2' ∷ []

abbrev emv : TagSchema (Wire Unit)
emv = some (λ tag. if eq_bytes tag profile_tag then some profile_def else none)

abbrev child : Children (Wire Unit)
child =
    (cryptogram_tag, bytes_value (1 ∷ 2 ∷ 3 ∷ [])) ∷ (profile_tag, bytes_value (5 ∷ 6 ∷ [])) ∷ []

cryptogram-IsEntry : IsEntry emv cryptogram_tag (bytes_value (1 ∷ 2 ∷ 3 ∷ []))
unfolding lookup_tag to_upper read_value write_value eq_bytes hex_encode hex_digit upper_hex
cryptogram-IsEntry = record {
  tb = 0x9F ∷ 0x26 ∷ [];
  text = refl;
  well_formed = inr (refl, refl);
  bytes = omega arith;
  val = 1 ∷ 2 ∷ 3 ∷ [];
  writes = refl;
  short = omega arith;
  reads = refl;
}

profile-IsEntry : IsEntry emv profile_tag (bytes_value (5 ∷ 6 ∷ []))
unfolding lookup_tag to_upper read_value write_value eq_bytes hex_encode hex_digit upper_hex lookup
    binary_raw pad_fixed
profile-IsEntry = record {
  tb = 0x82 ∷ [];
  text = refl;
  well_formed = inl (refl, refl);
  bytes = omega arith;
  val = 5 ∷ 6 ∷ [];
  writes = refl;
  short = omega arith;
  reads = refl;
}

decode_ber-encode_ber_example :
    (wire : Bytes) × (encode_ber emv (some child) ≡ ok wire) × (decode_ber emv wire ≡ ok child)
unfolding eq_bytes
decode_ber-encode_ber_example =
    decode_ber-encode_ber emv child (cryptogram-IsEntry, (profile-IsEntry, tt))
      (tt, ((refl, tt), tt))

-- A tag that comes twice: the last value, at the place of the first.
merged :
    decode_ber emv (0x9F ∷ 0x26 ∷ 1 ∷ 7 ∷ 0x82 ∷ 2 ∷ 5 ∷ 6 ∷ 0x9F ∷ 0x26 ∷ 3 ∷ 1 ∷ 2 ∷ 3 ∷ [])
    ≡ ok child
unfolding decode_ber decode_tags read_tlv lookup_tag to_upper read_value put_tag put_key hex_encode
    hex_digit upper_hex eq_bytes lookup binary_raw pad_fixed
merged = refl
