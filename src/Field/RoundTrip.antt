-- ===== src/Field/RoundTrip.antt =====
-- What the codecs of values write, they read back, padded to the width of the field.
use isopace.Common.{
  ℕ, ◌+◌, ◌/◌, ◌*◌, ◌≤◌, ◌≡◌, refl, sym, ap, ◌∙◌, arith, Bool, true, false, none, some, map, [],
  ◌∷◌,
}
use isopace.Common.{ltb, Bytes, IsByte, length, All, ok, err}
use isopace.Common.Int.{pos}
use isopace.Bcd.{short, pack, IsDigit, unpack, packed_len, unpack_right}
use isopace.Bcd.RoundTrip.{pack_total}
use isopace.Bcd.Right.{pack_right_total}
use isopace.Ebcdic.{Table, cp037, cp1047, decode, encode}
use isopace.Ebcdic.Laws.{
  IsCp037, IsPrintable, decode-encode-cp037, decode-encode-cp1047, length-encode,
}
use isopace.BitmapCodec.{hex_encode, upper_hex}
use isopace.BitmapCodec.Words.{hex_decode-hex_encode, length-hex}
use isopace.Engine.Types.{Value, Attrs, FieldCodec, numeric_value, string_value, bytes_value}
use isopace.Field.{
  is_fixed, pad_fixed, field_cause, bcd_cause, Wire, CodecName, lookup, digit_count, digits_value,
  octets_value, num_ascii_name, num_ebcdic_name, num_bcd_name, num_rbcd_name, char_ascii_name,
  char_cp037_name, char_cp1047_name, char_utf8_name, b_raw_name, b_hex_name, num_ascii, num_ebcdic,
  bcd_num, rbcd_num, ascii_text, ebcdic_text, binary_raw, hex_binary,
}
use isopace.Field.Padding.{IsFit, padded, pad_fixed-padded, length-padded, padded-All}

-- The bytes that a codec carries.
abbrev pub IsCarried : CodecName → ℕ → Type 0
IsCarried num_ascii_name c = Unit
IsCarried num_ebcdic_name c = IsDigit c
IsCarried num_bcd_name c = IsDigit c
IsCarried num_rbcd_name c = IsDigit c
IsCarried char_ascii_name c = Unit
IsCarried char_cp037_name c = IsCp037 c
IsCarried char_cp1047_name c = IsPrintable c
IsCarried char_utf8_name c = Unit
IsCarried b_raw_name c = Unit
IsCarried b_hex_name c = IsByte c

-- How a codec pads: numbers with zeros on the left, text with blanks and octets with NULs on the
-- right.
abbrev pub pad_of : CodecName → ℕ
pad_of num_ascii_name = b'0'
pad_of num_ebcdic_name = b'0'
pad_of num_bcd_name = b'0'
pad_of num_rbcd_name = b'0'
pad_of b_raw_name = 0
pad_of b_hex_name = 0
pad_of _ = b' '

abbrev pub pads_left : CodecName → Bool
pads_left num_ascii_name = true
pads_left num_ebcdic_name = true
pads_left num_bcd_name = true
pads_left num_rbcd_name = true
pads_left _ = false

abbrev pub value_of : {C : Type 0} → CodecName → Bytes → Value (Wire C)
value_of num_ascii_name b = numeric_value b
value_of num_ebcdic_name b = numeric_value b
value_of num_bcd_name b = numeric_value b
value_of num_rbcd_name b = numeric_value b
value_of b_raw_name b = bytes_value b
value_of b_hex_name b = bytes_value b
value_of _ b = string_value b

-- The packed codecs take a unit count of zero for one that is not there.
abbrev pub Counts : CodecName → ℕ → Type 0
Counts num_bcd_name n = 1 ≤ n
Counts num_rbcd_name n = 1 ≤ n
Counts _ n = Unit

abbrev pub width_of : {C : Type 0} → FieldCodec (Wire C) → ℕ → ℕ
width_of c n = elim c.body_bytes [ none ↦ n | some width ↦ width n ]

-- The bytes that a value is written as, and that they are read as `w`.
pub record ReadsAs {C : Type 0} (c : FieldCodec (Wire C)) (def : Attrs) (n : ℕ)
    (v w : Value (Wire C)) : Type 0 where
  pub body : Bytes
  pub encodes : c.encode_body v def ≡ ok body
  pub width : width_of c n ≡ length body
  pub decodes : c.decode_body body n def ≡ ok w

digits_printable : (s : Bytes) → All IsDigit s → All IsCp037 s
digits_printable [] h = tt
digits_printable (c ∷ s) (hc, h) = (ground arith, digits_printable s h)

module _ (C : Type 0) (def : Attrs) (b : Bytes) (n : ℕ) (fit : IsFit def b n) where
  abbrev Carries : CodecName → Type 0
  Carries k =
      ReadsAs {C = C} (lookup k) def n (value_of k b)
        (value_of k (padded (pad_of k) (pads_left k) b n))

  num_ascii_lem : Carries num_ascii_name
  unfolding lookup num_ascii
  num_ascii_lem = record {
    body = padded b'0' true b n;
    encodes = rw (pad_fixed-padded def b'0' true b n fit) refl;
    width = sym (length-padded def b'0' true b n fit);
    decodes = refl;
  }

  num_ebcdic_lem : All IsDigit b → Carries num_ebcdic_name
  unfolding lookup num_ebcdic
  num_ebcdic_lem h =
      let p = padded b'0' true b n in
      record {
        body = encode cp037 p;
        encodes = rw (pad_fixed-padded def b'0' true b n fit) refl;
        width = sym (length-encode cp037 p ∙ length-padded def b'0' true b n fit);
        decodes =
            ap (λ x. ok (numeric_value x))
              (decode-encode-cp037 p
                (digits_printable p (padded-All IsDigit b'0' true b n (ground arith) h))).0;
      }

  bcd_lem : 1 ≤ n → All IsDigit b → Carries num_bcd_name
  unfolding lookup bcd_num digit_count
  bcd_lem pos_n h =
      let p = padded b'0' true b n in
      let len = length-padded def b'0' true b n fit in
      let (body, (packs, unpacks, wide)) =
        pack_total p (padded-All IsDigit b'0' true b n (ground arith) h) in
      let units : ltb 0 n ≡ true = ground arith in
      record {
        body = body;
        encodes = rw (pad_fixed-padded def b'0' true b n fit, packs) refl;
        width = sym (wide ∙ ap packed_len len);
        decodes =
            rw units
              (ap (λ k. digits_value (unpack body (pos k))) (sym len) ∙ ap digits_value unpacks);
      }

  rbcd_lem : 1 ≤ n → All IsDigit b → Carries num_rbcd_name
  unfolding lookup rbcd_num digit_count
  rbcd_lem pos_n h =
      let p = padded b'0' true b n in
      let len = length-padded def b'0' true b n fit in
      let (body, (packs, unpacks, wide)) =
        pack_right_total p (padded-All IsDigit b'0' true b n (ground arith) h) in
      let units : ltb 0 n ≡ true = ground arith in
      record {
        body = body;
        encodes = rw (pad_fixed-padded def b'0' true b n fit, packs) refl;
        width = sym (wide ∙ ap packed_len len);
        decodes = rw units (
            ap (λ k. digits_value (unpack_right body (pos k))) (sym len) ∙ ap digits_value unpacks);
      }

  ascii_lem : Carries char_ascii_name
  unfolding lookup ascii_text
  ascii_lem = record {
    body = padded b' ' false b n;
    encodes = rw (pad_fixed-padded def b' ' false b n fit) refl;
    width = sym (length-padded def b' ' false b n fit);
    decodes = refl;
  }

  utf8_lem : Carries char_utf8_name
  unfolding lookup ascii_text
  utf8_lem = record {
    body = padded b' ' false b n;
    encodes = rw (pad_fixed-padded def b' ' false b n fit) refl;
    width = sym (length-padded def b' ' false b n fit);
    decodes = refl;
  }

  raw_lem : Carries b_raw_name
  unfolding lookup binary_raw
  raw_lem = record {
    body = padded 0 false b n;
    encodes = rw (pad_fixed-padded def 0 false b n fit) refl;
    width = sym (length-padded def 0 false b n fit);
    decodes = refl;
  }

  ebcdic_lem :
      (t : Table)
      → decode t (encode t (padded b' ' false b n)) ≡ padded b' ' false b n
      → ReadsAs {C = C}
          (ebcdic_text t)
          def
          n
          (string_value b)
          (string_value (padded b' ' false b n))
  unfolding ebcdic_text
  ebcdic_lem t back = record {
    body = encode t (padded b' ' false b n);
    encodes = rw (pad_fixed-padded def b' ' false b n fit) refl;
    width = sym (length-encode t (padded b' ' false b n) ∙ length-padded def b' ' false b n fit);
    decodes = ap (λ x. ok (string_value x)) back;
  }

  hex_lem : All IsByte b → Carries b_hex_name
  unfolding lookup hex_binary
  hex_lem h =
      let p = padded 0 false b n in
      record {
        body = map upper_hex (hex_encode p);
        encodes = rw (pad_fixed-padded def 0 false b n fit) refl;
        width = sym (length-hex p ∙ ap (λ k. k * 2) (length-padded def 0 false b n fit));
        decodes =
            ap octets_value
              (hex_decode-hex_encode p (padded-All IsByte 0 false b n (ground arith) h));
      }

  -- Each of the ten registered codecs of digits, text and octets (the binary number and the amounts
  -- are not among them), of bytes that it carries and that fit the field: it writes as many bytes
  -- as the engine takes the field to have, and reads them back as the value, padded to the width of
  -- the field. The packed decimals need at least one digit.
  pub decode_body-encode_body : (k : CodecName) → All (IsCarried k) b → Counts k n → Carries k
  unfolding lookup
  decode_body-encode_body num_ascii_name h pos_n = num_ascii_lem
  decode_body-encode_body num_ebcdic_name h pos_n = num_ebcdic_lem h
  decode_body-encode_body num_bcd_name h pos_n = bcd_lem pos_n h
  decode_body-encode_body num_rbcd_name h pos_n = rbcd_lem pos_n h
  decode_body-encode_body char_ascii_name h pos_n = ascii_lem
  decode_body-encode_body char_cp037_name h pos_n =
      ebcdic_lem cp037
        (decode-encode-cp037 (padded b' ' false b n)
          (padded-All IsCp037 b' ' false b n (ground arith) h)).0
  decode_body-encode_body char_cp1047_name h pos_n =
      ebcdic_lem cp1047
        (decode-encode-cp1047 (padded b' ' false b n)
          (padded-All IsPrintable b' ' false b n (ground arith) h)).0
  decode_body-encode_body char_utf8_name h pos_n = utf8_lem
  decode_body-encode_body b_raw_name h pos_n = raw_lem
  decode_body-encode_body b_hex_name h pos_n = hex_lem h

-- A packed decimal of no digits in a field that a length prefix counts, and that may be as long as
-- `max_len`: it is written as no bytes, and reading them back fails, as a unit count of zero is
-- taken for one that is not given.
pub decode_body_empty :
    (C : Type 0) (def : Attrs) (v : Value (Wire C))
    → v.raw ≡ []
    → is_fixed def ≡ false
    → 1 ≤ def.max_len
    → (bcd_num.encode_body v def ≡ ok [])
      × ((bcd_num {C = C}).decode_body [] 0 def ≡ err (field_cause (bcd_cause short)))
unfolding bcd_num pad_fixed digit_count unpack pack packed_len
decode_body_empty C def v empty f long =
    let big : ltb 0 def.max_len ≡ true = ground arith in
    let more : ltb 0 ((def.max_len + 1) / 2) ≡ true = ground arith in
    (rw (f, empty) refl, rw (big, more) refl)
