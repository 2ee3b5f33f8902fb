-- ===== src/Field/Wire.antt =====
-- The length prefixes, the bitmap forms and the codecs of values, as the engine uses them.
use isopace.Common.{
  ℕ, ◌+◌, ◌<◌, ◌≡◌, refl, sym, ap, ◌∙◌, arith, inl, inr, ◌⊎◌, true, false, none, some, [], ◌++◌,
}
use isopace.Common.{
  ltb, Bool-cases, Bytes, length, drop, drop-append, All, ok, err, map_err, ok_injective,
  none_ne_some, some_injective,
}
use isopace.Common.Int.{pos}
use mathlib.Core.Path.{subst}
use isopace.Length.{VarLen, read_len, write_len}
use isopace.Length.RoundTrip.{Fits, capacity, read_len-write_len}
use isopace.Engine.Types.{bytes_value, Value, FieldDef, LengthCodec}
use isopace.Engine.Message.{cause}
use isopace.Engine.Codec.{encode_value, encode_units, wire_bytes}
use isopace.Engine.Fields.{ReadsBack, IsWritable, units_of, decode_value}
use isopace.Field.{
  Wire, length_cause, CodecName, lookup, is_fixed, num_ascii_name, num_ebcdic_name, num_bcd_name,
  num_rbcd_name, char_ascii_name, char_cp037_name, char_cp1047_name, char_utf8_name, b_raw_name,
  b_hex_name,
}
use isopace.Field.Padding.{IsFit, padded, padded_exact}
use isopace.Field.RoundTrip.{
  IsCarried, pad_of, pads_left, value_of, Counts, width_of, decode_body-encode_body,
}

unfoldable pub var_length : {C : Type 0} → VarLen → LengthCodec (Wire C)
var_length v = record {
  read_len = λ src off. map_err length_cause (read_len v src off);
  write_len = λ dst n. map_err length_cause (write_len v dst (pos n));
}

append_left : (xs : Bytes) {ys zs : Bytes} → xs ++ ys ≡ xs ++ zs → ys ≡ zs
append_left xs {ys} {zs} e = sym (drop-append xs ys) ∙ ap (drop (length xs)) e ∙ drop-append xs zs

-- Below its capacity a length prefix reads back the count that it wrote.
pub var_length-ReadsBack :
    {C : Type 0} (v : VarLen) (n : ℕ) (dst : Bytes)
    → Fits v.repr v
    → n < capacity v.repr v
    → ReadsBack (var_length {C = C} v) n dst
unfolding var_length
var_length-ReadsBack v n dst f h =
    let (p, (writes, _)) = read_len-write_len v n dst [] f h in
    record {
      prefix = p;
      writes = ap (map_err length_cause) writes;
      reads = λ rest.
          let (q, (writes_q, reads_q)) = read_len-write_len v n dst rest f h in
          let same : q ≡ p = append_left dst (ok_injective (sym writes_q ∙ writes)) in
          ap (map_err length_cause) (
            ap (λ x. read_len v (dst ++ (x ++ rest)) (length dst)) (sym same)
            ∙ reads_q
            ∙ ap (λ x. ok (n, length dst + length x)) same);
    }

-- The size of a field: as the field says, or as a length prefix of the library can count.
abbrev pub IsSized : {C : Type 0} → FieldDef (Wire C) → ℕ → Type 0
IsSized {C} def n =
    ((def.length_codec ≡ none) × ((def.attrs.is_prefixed ≡ false) × (n ≡ def.attrs.max_len)))
    ⊎ ((v : VarLen) × ((def.length_codec ≡ some (var_length {C = C} v))
          × ((def.attrs.is_prefixed ≡ true) × (Fits v.repr v × (n < capacity v.repr v)))))

-- A field of the catalogue, and bytes that it carries at their own length.
pub record IsWire {C : Type 0} (def : FieldDef (Wire C)) (k : CodecName) (b : Bytes) : Type 0 where
  pub has_codec : def.codec ≡ some (lookup k)
  pub carried : All (IsCarried k) b
  pub counts : Counts k (length b)
  pub sized : IsSized def (length b)

encode_units_lem :
    {C : Type 0} (def : FieldDef (Wire C)) (k : CodecName) (b body : Bytes)
    → encode_units def (value_of k b) body ≡ length b
unfolding encode_units
encode_units_lem def num_ascii_name b body = refl
encode_units_lem def num_ebcdic_name b body = refl
encode_units_lem def num_bcd_name b body = refl
encode_units_lem def num_rbcd_name b body = refl
encode_units_lem def char_ascii_name b body = refl
encode_units_lem def char_cp037_name b body = refl
encode_units_lem def char_cp1047_name b body = refl
encode_units_lem def char_utf8_name b body = refl
encode_units_lem def b_raw_name b body = refl
encode_units_lem def b_hex_name b body = refl

module _ {C : Type 0} (def : FieldDef (Wire C)) (k : CodecName) (b : Bytes)
    (w : IsWire def k b) where
  sized-IsFit : IsSized def (length b) → IsFit def.attrs b (length b)
  unfolding is_fixed
  sized-IsFit (inl (_, (p, e))) = elim (Bool-cases (ltb 0 def.attrs.max_len)) [
    | inl big ↦ inl (rw (p, big) refl, (omega arith, e))
    | inr small ↦ inr (rw (p, small) refl, refl)
  ]
  sized-IsFit (inr (v, (_, (p, _)))) = inr (rw p refl, refl)

  units_lem : (body : Bytes) → IsSized def (length b) → units_of def (value_of k b) body ≡ length b
  units_lem body (inl (q, (_, e))) = rw q (sym e)
  units_lem body (inr (v, (q, _))) =
      ap (λ o. elim o [ none ↦ def.attrs.max_len | some _ ↦ encode_units def (value_of k b) body ])
        q
      ∙ encode_units_lem def k b body

  prefix_back :
      (body : Bytes)
      → IsSized def (length b)
      → (l : LengthCodec (Wire C)) → def.length_codec ≡ some l
      → (dst : Bytes) → ReadsBack l (encode_units def (value_of k b) body) dst
  prefix_back body (inl (q, _)) l e dst = absurd (none_ne_some (sym q ∙ e))
  prefix_back body (inr (v, (q, (_, (f, h))))) l e dst =
      subst (λ x. ReadsBack x (encode_units def (value_of k b) body) dst)
        (some_injective (sym q ∙ e))
        (subst (λ n. ReadsBack (var_length {C = C} v) n dst) (sym (encode_units_lem def k b body))
          (var_length-ReadsBack v (length b) dst f h))

  wire_bytes_lem : (n : ℕ) → wire_bytes def n ≡ width_of (lookup {C = C} k) n
  unfolding wire_bytes
  wire_bytes_lem n = rw w.has_codec refl

  encode_value_lem :
      encode_value def (value_of k b)
      ≡ map_err cause ((lookup {C = C} k).encode_body (value_of k b) def.attrs)
  unfolding encode_value
  encode_value_lem = rw w.has_codec refl

  decode_value_lem :
      (body : Bytes) (n : ℕ) (v : Value (Wire C))
      → (lookup {C = C} k).decode_body body n def.attrs ≡ ok v
      → decode_value def body n ≡ some v
  decode_value_lem body n v e =
      ap
        (λ o. elim o [
          | none ↦ some (bytes_value body)
          | some c ↦ elim (c.decode_body body n def.attrs) [ err _ ↦ none | ok x ↦ some x ]
        ])
        w.has_codec
      ∙ ap (λ r. elim r [ err _ ↦ none | ok x ↦ some x ]) e

  -- Such a field can carry the value in a message.
  pub wire-IsWritable : IsWritable def (value_of k b)
  wire-IsWritable =
      let r =
        decode_body-encode_body C def.attrs b (length b) (sized-IsFit w.sized) k w.carried
          w.counts in
      let units = units_lem r.body w.sized in
      let exact : padded (pad_of k) (pads_left k) b (length b) ≡ b =
        padded_exact (pad_of k) (pads_left k) b in
      record {
        body = r.body;
        encodes = encode_value_lem ∙ ap (map_err cause) r.encodes;
        width = ap (wire_bytes def) units ∙ wire_bytes_lem (length b) ∙ r.width;
        decodes =
            ap (decode_value def r.body) units
            ∙ decode_value_lem r.body (length b)
                (value_of k (padded (pad_of k) (pads_left k) b (length b))) r.decodes
            ∙ ap (λ x. some (value_of k x)) exact;
        counts = prefix_back r.body w.sized;
      }
