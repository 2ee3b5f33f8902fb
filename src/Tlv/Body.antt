-- ===== src/Tlv/Body.antt =====
-- fieldcodec/tlv/bertlv.go: DecodeBody and EncodeBody, with PutTag, TagSeq and LookupTag of
-- iso8583/message.go and schema.go. A child message is its tags in their order with their values,
-- and the composite value is that child. Texts are of ASCII.
use isopace.Common.{
  ℕ, zero, suc, ◌-◌, ◌&&◌, Option, none, some, List, [], ◌∷◌, ◌++◌, map, ltb, leb, if◌then◌else◌,
  Bytes, eq_bytes, length, Result, ok, err, map_err, ◌>>=◌,
}
use isopace.BitmapCodec.{hex_encode, hex_decode, upper_hex}
use isopace.Engine.Types.{Kinds, Value, FieldDef, bytes_value}
use isopace.Tlv.{TlvError, truncated, read_tlv, ber_len}

pub data BodyError (C : Type 0) : Type 0 where
  from_tlv : TlvError → BodyError C
  not_composite bad_tag : BodyError C
  codec_error : C → BodyError C

-- The entries of a child message: `tagOrder` with what `tags` has for each.
abbrev pub Children : Kinds → Type 0
Children K = List (Bytes × Value K)

-- The tags of a sub-schema, if there is one.
abbrev pub TagSchema : Kinds → Type 0
TagSchema K = Option (Bytes → Option (FieldDef K))

-- `strings.ToUpper`
unfoldable pub to_upper : ℕ → ℕ
to_upper c = if leb b'a' c && leb c b'z' then c - 32 else c

-- `strings.ToUpper(hex.EncodeToString(tag))`, of digits.
abbrev pub hex_text : Bytes → Bytes
hex_text tag = map upper_hex (hex_encode tag)

-- The entry under a key in upper case: a new one is the last, an old one keeps its place.
unfoldable pub put_key : {K : Kinds} → Bytes → Value K → Children K → Children K
put_key key v [] = (key, v) ∷ []
put_key key v ((k, w) ∷ items) =
    if eq_bytes k key then (k, v) ∷ items else (k, w) ∷ put_key key v items

-- `PutTag`
unfoldable pub put_tag : {K : Kinds} → Bytes → Value K → Children K → Children K
unfolding put_key to_upper
put_tag tag v items = put_key (map to_upper tag) v items

-- `lookupTag`
unfoldable pub lookup_tag : {K : Kinds} → TagSchema K → Bytes → Option (FieldDef K)
unfolding to_upper
lookup_tag none tag = none
lookup_tag (some tags) tag = tags (map to_upper tag)

-- What the codec of a tag makes of its bytes.
unfoldable pub read_value :
    {K : Kinds} → Option (FieldDef K) → Bytes → Result (BodyError K.Cause) (Value K)
read_value none val = ok (bytes_value val)
read_value (some td) val = elim td.codec [
  | none ↦ ok (bytes_value val)
  | some c ↦
      let units = if ltb 0 td.attrs.max_len then td.attrs.max_len else length val in
      map_err codec_error (c.decode_body val units td.attrs)
]

-- The bytes that the codec of a tag makes of its value.
unfoldable pub write_value :
    {K : Kinds} → Option (FieldDef K) → Value K → Result (BodyError K.Cause) Bytes
write_value none v = ok v.raw
write_value (some td) v = elim td.codec [
  | none ↦ ok v.raw
  | some c ↦ map_err codec_error (c.encode_body v td.attrs)
]

-- The loop of `DecodeBody`, of which each round takes at least two bytes.
unfoldable pub decode_tags :
    {K : Kinds} → TagSchema K → ℕ → Children K → Bytes → Result (BodyError K.Cause) (Children K)
decode_tags sub fuel child [] = ok child
decode_tags sub zero child (b ∷ bs) = err (from_tlv truncated)
decode_tags sub (suc fuel) child (b ∷ bs) = map_err from_tlv (read_tlv (b ∷ bs)) >>= λ t.
    read_value (lookup_tag sub (hex_text t.0)) t.1 >>= λ v.
    decode_tags sub fuel (put_tag (hex_text t.0) v child) t.2

-- `DecodeBody`
unfoldable pub decode_ber :
    {K : Kinds} → TagSchema K → Bytes → Result (BodyError K.Cause) (Children K)
unfolding decode_tags
decode_ber sub body = decode_tags sub (length body) [] body

-- `hex.DecodeString`
unfoldable pub tag_bytes : {C : Type 0} → Bytes → Result (BodyError C) Bytes
tag_bytes tag = elim (hex_decode tag) [ none ↦ err bad_tag | some b ↦ ok b ]

-- The loop of `EncodeBody`: what it appends.
unfoldable pub encode_tags :
    {K : Kinds} → TagSchema K → Children K → Result (BodyError K.Cause) Bytes
unfolding tag_bytes
encode_tags sub [] = ok []
encode_tags sub ((tag, v) ∷ items) = tag_bytes tag >>= λ tb.
    write_value (lookup_tag sub tag) v >>= λ val.
    encode_tags sub items >>= λ more. ok (tb ++ (ber_len (length val) ++ (val ++ more)))

-- `EncodeBody`; `none` is a value that is no composite.
unfoldable pub encode_ber :
    {K : Kinds} → TagSchema K → Option (Children K) → Result (BodyError K.Cause) Bytes
unfolding encode_tags
encode_ber sub none = err not_composite
encode_ber sub (some child) = encode_tags sub child
