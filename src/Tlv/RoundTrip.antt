-- ===== src/Tlv/RoundTrip.antt =====
-- fieldcodec/tlv/bertlv.go: a child message, written and read.
use isopace.Common.{
  ℕ, zero, suc, ◌<◌, ◌≤◌, ◌^◌, ◌≡◌, ◌∙◌, refl, sym, ap, arith, false, Option, none, some, [], ◌∷◌,
  ◌++◌, map, append_assoc, append-nil, Bytes, eq_bytes, length, length-append, All, IsByte, Result,
  ok, err, map_err, ◌>>=◌,
}
use isopace.BitmapCodec.{hex_decode}
use isopace.BitmapCodec.Words.{hex_decode-hex_encode, UpperDigit, hex_text-UpperDigit}
use isopace.Engine.Types.{Kinds, Value}
use isopace.Tlv.{ber_len, read_tlv}
use isopace.Tlv.Body.{
  Children, TagSchema, BodyError, bad_tag, from_tlv, to_upper, hex_text, put_key, put_tag,
  lookup_tag, read_value, write_value, decode_tags, decode_ber, tag_bytes, encode_tags, encode_ber,
}
use isopace.Tlv.Triplets.{IsTag, read_tlv_front}

to_upper_digits : (s : Bytes) → All UpperDigit s → map to_upper s ≡ s
unfolding to_upper
to_upper_digits [] h = refl
to_upper_digits (c ∷ s) (hc, h) =
    let e : to_upper c ≡ c = ground arith in λ i. e i ∷ to_upper_digits s h i

module _ {K : Kinds} where
  -- None of these has the tag.
  abbrev pub Lacks : Children K → Bytes → Type 0
  Lacks seen tag = All (λ e. eq_bytes e.0 tag ≡ false) seen

  -- Each tag is other than those before it, `seen` first.
  abbrev pub Distinct : Children K → Children K → Type 0
  Distinct seen [] = Unit
  Distinct seen ((tag, v) ∷ items) = Lacks seen tag × Distinct (seen ++ ((tag, v) ∷ [])) items

  put_key_last :
      (key : Bytes) (v : Value K) (seen : Children K)
      → Lacks seen key
      → put_key key v seen ≡ seen ++ ((key, v) ∷ [])
  unfolding put_key
  put_key_last key v [] h = refl
  put_key_last key v ((k, w) ∷ seen) (hk, h) =
      rw hk (ap (λ s. (k, w) ∷ s) (put_key_last key v seen h))

-- An entry that can be written and read: its tag is the text of a well-formed one, and its codec,
-- or none, writes the value as bytes, which four bytes can count, and reads them as the value.
pub record IsEntry {K : Kinds} (sub : TagSchema K) (tag : Bytes) (v : Value K) : Type 0 where
  pub tb : Bytes
  pub text : tag ≡ hex_text tb
  pub well_formed : IsTag tb
  pub bytes : All IsByte tb
  pub val : Bytes
  pub writes : write_value (lookup_tag sub tag) v ≡ ok val
  pub short : length val < 2 ^ 32
  pub reads : read_value (lookup_tag sub tag) val ≡ ok v

module _ {K : Kinds} (sub : TagSchema K) where
  abbrev pub AllEntries : Children K → Type 0
  AllEntries items = All (λ e. IsEntry sub e.0 e.1) items

  entry_tag_bytes :
      {tag : Bytes} {v : Value K} → (e : IsEntry sub tag v) → tag_bytes {C = K.Cause} tag ≡ ok e.tb
  unfolding tag_bytes
  entry_tag_bytes {tag} e =
      let read = λ (o : Option Bytes).
        (let r : Result (BodyError K.Cause) Bytes = elim o [ none ↦ err bad_tag | some b ↦ ok b ] in
          r) in
      ap (λ s. read (hex_decode s)) e.text ∙ ap read (hex_decode-hex_encode e.tb e.bytes)

  entry_put :
      (tag : Bytes) (v : Value K) (seen : Children K)
      → (e : IsEntry sub tag v) → Lacks seen tag
      → put_tag (hex_text e.tb) v seen ≡ seen ++ ((tag, v) ∷ [])
  unfolding put_tag
  entry_put tag v seen e h =
      ap (λ k. put_key k v seen)
        (to_upper_digits (hex_text e.tb) (hex_text-UpperDigit e.tb e.bytes) ∙ sym e.text)
      ∙ put_key_last tag v seen h

  -- What is written of the entries, and how it is read behind those that are `seen`.
  record Written (seen items : Children K) : Type 0 where
    wire : Bytes
    writes : encode_tags sub items ≡ ok wire
    reads : (fuel : ℕ) → length wire ≤ fuel → decode_tags sub fuel seen wire ≡ ok (seen ++ items)

  -- A round of the loop of `DecodeBody`.
  one_entry :
      (tag : Bytes) (v : Value K) (seen : Children K) (e : IsEntry sub tag v) (b : ℕ) (t : Bytes)
      (more : Bytes) (fuel : ℕ)
      → e.tb ≡ b ∷ t
      → Lacks seen tag
      → decode_tags sub (suc fuel) seen (e.tb ++ (ber_len (length e.val) ++ (e.val ++ more)))
        ≡ decode_tags sub fuel (seen ++ ((tag, v) ∷ [])) more
  unfolding decode_tags
  one_entry tag v seen e b t more fuel q h =
      let rest : Bytes = ber_len (length e.val) ++ (e.val ++ more) in
      let w : e.tb ++ rest ≡ b ∷ (t ++ rest) = ap (λ x. x ++ rest) q in
      let r : read_tlv (b ∷ (t ++ rest)) ≡ ok (e.tb, e.val, more) =
        ap read_tlv (sym w) ∙ read_tlv_front e.tb e.val more e.well_formed e.short in
      let found : read_value (lookup_tag sub (hex_text e.tb)) e.val ≡ ok v =
        ap (λ k. read_value (lookup_tag sub k) e.val) (sym e.text) ∙ e.reads in
      ap (decode_tags sub (suc fuel) seen) w
      ∙ ap
          (λ x. map_err from_tlv x >>= λ u. read_value (lookup_tag sub (hex_text u.0)) u.1 >>= λ y.
            decode_tags sub fuel (put_tag (hex_text u.0) y seen) u.2)
          r
      ∙ ap (λ x. x >>= λ y. decode_tags sub fuel (put_tag (hex_text e.tb) y seen) more) found
      ∙ ap (λ s. decode_tags sub fuel s more) (entry_put tag v seen e h)

  starts : (tb : Bytes) → IsTag tb → (b : ℕ) × (t : Bytes) × (tb ≡ b ∷ t)
  starts [] h = absurd h
  starts (b ∷ t) h = (b, t, refl)

  written : (seen items : Children K) → AllEntries items → Distinct seen items → Written seen items
  unfolding encode_tags decode_tags
  written seen [] h d = record {
    wire = [];
    writes = refl;
    reads = λ fuel n. ap (λ s. ok s) (sym (append-nil seen));
  }
  written seen ((tag, v) ∷ items) (e, h) (fresh, d) =
      let rest = written (seen ++ ((tag, v) ∷ [])) items h d in
      let (b, t, q) = starts e.tb e.well_formed in
      let tail : Bytes = ber_len (length e.val) ++ (e.val ++ rest.wire) in
      record {
        wire = e.tb ++ tail;
        writes = rw (entry_tag_bytes e, e.writes, rest.writes) refl;
        reads = λ fuel n.
            let total = length-append e.tb tail in
            let behind = length-append (ber_len (length e.val)) (e.val ++ rest.wire) in
            let last = length-append e.val rest.wire in
            let first : length e.tb ≡ suc (length t) = ap length q in
            elim fuel
                as (λ k.
                  length (e.tb ++ tail) ≤ k
                  → decode_tags sub k seen (e.tb ++ tail) ≡ ok (seen ++ ((tag, v) ∷ items))) [
                    | zero ↦ λ n. absurd (omega arith)
                    | suc k ↦ λ n.
                        one_entry tag v seen e b t rest.wire k q fresh
                        ∙ rest.reads k (omega arith)
                        ∙ ap (λ s. ok s) (append_assoc seen ((tag, v) ∷ []) items)
                  ]
              n;
      }

-- A child message whose tags are all different, each the upper-case hex text of a well-formed one,
-- with values that their codecs, or none, write as fewer than 2 ^ 32 bytes and read back from
-- these: `EncodeBody` writes it without an error, and `DecodeBody` makes the same tags with the
-- same values in the same order of the bytes.
pub decode_ber-encode_ber :
    {K : Kinds} (sub : TagSchema K) (child : Children K)
    → AllEntries sub child
    → Distinct [] child
    → (wire : Bytes) × (encode_ber sub (some child) ≡ ok wire) × (decode_ber sub wire ≡ ok child)
unfolding decode_ber encode_ber
decode_ber-encode_ber sub child h d =
    let w = written sub [] child h d in (w.wire, w.writes, w.reads (length w.wire) (omega arith))
