-- ===== src/Engine/Fields.antt =====
-- The fields of a message, written one behind the other and found again.
use isopace.Common.{
  ℕ, ◌+◌, ◌≡◌, refl, sym, ap, ◌∙◌, false, Option, none, some, ◌++◌, arith, append_assoc, inl, inr,
}
use isopace.Common.{ltb, Bytes, length, length-append, slice, slice-append, ok, err, Option-cases}
use isopace.Engine.Types.{Kinds, Value, bytes_value, FieldDef, LengthCodec}
use isopace.Engine.Message.{decode_span}
use isopace.Engine.Codec.{
  Span, wire_bytes, body_span, field_body_span, span_slot, encode_units, encode_value, write_prefix,
  append_value,
}

-- The unit count that the reader of a field is going to use.
abbrev pub units_of : {K : Kinds} → FieldDef K → Value K → Bytes → ℕ
units_of def v body = elim def.length_codec [
  | none ↦ def.attrs.max_len
  | some _ ↦ encode_units def v body
]

abbrev pub decode_value : {K : Kinds} → FieldDef K → Bytes → ℕ → Option (Value K)
decode_value def body units = elim def.codec [
  | none ↦ some (bytes_value body)
  | some c ↦ elim (c.decode_body body units def.attrs) [ err _ ↦ none | ok v ↦ some v ]
]

-- A length codec reads back the count `n` that it wrote, whatever stands around it.
pub record ReadsBack {K : Kinds} (l : LengthCodec K) (n : ℕ) (dst : Bytes) : Type 0 where
  pub prefix : Bytes
  pub writes : l.write_len dst n ≡ ok (dst ++ prefix)
  pub reads :
      (rest : Bytes)
      → l.read_len (dst ++ (prefix ++ rest)) (length dst) ≡ ok (n, length dst + length prefix)

-- What is asked of the codecs of a field at a value: they write it and read it back.
pub record IsWritable {K : Kinds} (def : FieldDef K) (v : Value K) : Type 0 where
  pub body : Bytes
  pub encodes : encode_value def v ≡ ok body
  pub width : wire_bytes def (units_of def v body) ≡ length body
  pub decodes : decode_value def body (units_of def v body) ≡ some v
  pub counts :
      (l : LengthCodec K)
      → def.length_codec ≡ some l
      → (dst : Bytes) → ReadsBack l (encode_units def v body) dst

-- The field stands in `wire` from `off` up to `next`.
pub record Placed {K : Kinds} (def : FieldDef K) (v : Value K) (wire : Bytes) (off next : ℕ)
    : Type 0 where
  pub span : Span
  pub reads : field_body_span def wire off ≡ ok span
  pub ends : span.body_end ≡ next
  pub decodes : decode_span def wire (span_slot off span) ≡ some v

-- The bytes of a field behind `dst`.
pub record Written {K : Kinds} (def : FieldDef K) (v : Value K) (dst : Bytes) : Type 0 where
  pub bytes : Bytes
  pub appends : append_value dst def v ≡ ok (dst ++ bytes)
  pub placed :
      (rest wire : Bytes)
      → wire ≡ dst ++ (bytes ++ rest)
      → Placed def v wire (length dst) (length dst + length bytes)

module _ {K : Kinds} (def : FieldDef K) (v : Value K) (w : IsWritable def v) where
  -- The body of the field between `xs` and `rest`.
  body-Placed :
      (xs rest wire : Bytes) (off units next : ℕ)
      → units ≡ units_of def v w.body
      → next ≡ length xs + length w.body
      → wire ≡ xs ++ (w.body ++ rest)
      → field_body_span def wire off ≡ body_span def wire units (length xs)
      → Placed def v wire off next
  unfolding body_span decode_span
  body-Placed xs rest wire off units next eu en ew reads =
      let total : length wire ≡ length xs + (length w.body + length rest) =
        ap length ew
        ∙ length-append xs (w.body ++ rest)
        ∙ ap (λ n. length xs + n) (length-append w.body rest) in
      let wide : wire_bytes def units ≡ length w.body = ap (wire_bytes def) eu ∙ w.width in
      let room : ltb (length wire) (length xs + wire_bytes def units) ≡ false =
        ground (arith, wide, total) in
      let end : length xs + wire_bytes def units ≡ length xs + length w.body =
        ap (λ n. length xs + n) wide in
      let cut : slice wire (length xs) (length xs + wire_bytes def units) ≡ w.body =
        ap (λ x. slice x (length xs) (length xs + wire_bytes def units)) ew
        ∙ slice-append (length xs) (length xs + wire_bytes def units) xs w.body rest refl end in
      record {
        span = record {
          body_off = length xs;
          body_end = length xs + wire_bytes def units;
          units = units;
        };
        reads = reads ∙ rw room refl;
        ends = end ∙ sym en;
        decodes =
            ap (λ b. decode_value def b units) cut ∙ ap (decode_value def w.body) eu ∙ w.decodes;
      }

  written_fixed : (dst : Bytes) → def.length_codec ≡ none → Written def v dst
  unfolding append_value field_body_span body_span
  written_fixed dst q = record {
    bytes = w.body;
    appends = rw (append_value, w.encodes, write_prefix, q) refl;
    placed = λ rest wire e.
        let room : ltb (length wire) (length dst) ≡ false =
          ground (arith, ap length e, length-append dst (w.body ++ rest)) in
        body-Placed dst rest wire (length dst) def.attrs.max_len (length dst + length w.body)
          (rw q refl) refl e (rw (field_body_span, room, q) refl);
  }

  written_prefixed :
      (dst : Bytes) (l : LengthCodec K) → def.length_codec ≡ some l → Written def v dst
  unfolding append_value field_body_span body_span
  written_prefixed dst l q =
      let rb = w.counts l q dst in
      let n = encode_units def v w.body in
      record {
        bytes = rb.prefix ++ w.body;
        appends =
            rw (append_value, w.encodes, write_prefix, q, rb.writes)
              (ap ok (append_assoc dst rb.prefix w.body));
        placed = λ rest wire e.
            let len = length-append dst rb.prefix in
            let split : wire ≡ dst ++ (rb.prefix ++ (w.body ++ rest)) =
              e ∙ ap (λ x. dst ++ x) (append_assoc rb.prefix w.body rest) in
            let room : ltb (length wire) (length dst) ≡ false =
              ground (arith, ap length split, length-append dst (rb.prefix ++ (w.body ++ rest))) in
            let got : l.read_len wire (length dst) ≡ ok (n, length dst + length rb.prefix) =
              ap (λ x. l.read_len x (length dst)) split ∙ rb.reads (w.body ++ rest) in
            let past : ltb (length dst + length rb.prefix) (length dst) ≡ false = ground arith in
            body-Placed (dst ++ rb.prefix) rest wire (length dst) n
              (length dst + length (rb.prefix ++ w.body)) (rw q refl)
              (omega (arith, len, length-append rb.prefix w.body))
              (split ∙ sym (append_assoc dst rb.prefix (w.body ++ rest)))
              (rw (field_body_span, room, q, got, past) (ap (body_span def wire n) (sym len)));
      }

  pub written : (dst : Bytes) → Written def v dst
  written dst = elim (Option-cases def.length_codec) [
    | inl q ↦ written_fixed dst q
    | inr (l, q) ↦ written_prefixed dst l q
  ]
