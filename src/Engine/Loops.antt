-- ===== src/Engine/Loops.antt =====
-- `Marshal`'s loop over the fields against `Unmarshal`'s.
use isopace.Common.{
  ℕ, zero, suc, ◌+◌, ◌<◌, ◌≤◌, ◌≡◌, ◌≢◌, refl, sym, ap, ◌∙◌, true, false, none, some, [], ◌++◌,
  arith, append_assoc, append-nil, inl, inr, ◌⊎◌,
}
use isopace.Common.{◌==◌, leb, Bytes, length, length-append, ok, Bool-cases, some_injective}
use isopace.Bitmap.Order.{ascending}
use mathlib.Core.Path.{subst}
use isopace.Engine.Types.{Kinds, Value, FieldDef, Schema}
use isopace.Engine.Message.{Slot, put_slot, field, decode_span}
use isopace.Engine.Codec.{span_slot, read_fields, append_field, append_fields}
use isopace.Engine.Fields.{IsWritable, Placed, Written, written}

-- A slot that `Unmarshal` has found: not decoded yet, and its span holds the value.
pub record Holds {K : Kinds} (sch : Schema K) (wire : Bytes) (de : ℕ) (v : Value K) (s : Slot K)
    : Type 0 where
  pub is_present : s.present ≡ true
  pub not_decoded : s.decoded ≡ false
  pub is_from_src : s.from_src ≡ true
  pub value : (def : FieldDef K) → field sch de ≡ some def → decode_span def wire s ≡ some v

-- The data element is defined, and its codecs write the value and read it back.
pub record Defined {K : Kinds} (sch : Schema K) (de : ℕ) (v : Value K) : Type 0 where
  pub def : FieldDef K
  pub is_def : field sch de ≡ some def
  pub writable : IsWritable def v

here_or_later : (de i : ℕ) → de ≤ i → (i ≡ de) ⊎ (de + 1 ≤ i)
here_or_later de i h = elim (Bool-cases (i == de)) [
  | inl e ↦ inl (ground arith)
  | inr e ↦ inr (ground arith)
]

pub true_ne_false : true ≢ false
true_ne_false h = cc

pub put_slot-here :
    {K : Kinds} (de i : ℕ) (s : Slot K) (slots : ℕ → Slot K)
    → (i == de) ≡ true
    → put_slot de s slots i ≡ s
put_slot-here de i s slots e = rw e refl

pub put_slot-other :
    {K : Kinds} (de i : ℕ) (s : Slot K) (slots : ℕ → Slot K)
    → (i == de) ≡ false
    → put_slot de s slots i ≡ slots i
put_slot-other de i s slots e = rw e refl

pub put_slot-decoded :
    {K : Kinds} (de i : ℕ) (s : Slot K) (slots : ℕ → Slot K)
    → s.decoded ≡ false
    → (slots i).decoded ≡ false
    → (put_slot de s slots i).decoded ≡ false
put_slot-decoded de i s slots h k = elim (Bool-cases (i == de)) [ inl e ↦ rw e h | inr e ↦ rw e k ]

-- The slot of a field that has been placed.
pub span_slot-Holds :
    {K : Kinds} {sch : Schema K} {wire : Bytes} {de off next : ℕ} {v : Value K} {def : FieldDef K}
    → field sch de ≡ some def
    → (at : Placed def v wire off next) → Holds sch wire de v (span_slot off at.span)
span_slot-Holds {wire = wire} {off = off} {v = v} is_def at = record {
  is_present = refl;
  not_decoded = refl;
  is_from_src = refl;
  value = λ f e.
      subst (λ d. decode_span d wire (span_slot off at.span) ≡ some v)
        (some_injective (sym is_def ∙ e)) at.decodes;
}

module _ {K : Kinds} (sch : Schema K) (slots : ℕ → Slot K) where
  -- The slots after `read_fields`, begun with `acc`.
  pub record Found (wire : Bytes) (left de : ℕ) (acc got : ℕ → Slot K) : Type 0 where
    pub found :
        (i : ℕ)
        → de ≤ i
        → i < de + left
        → (slots i).present ≡ true
        → Holds sch wire i (slots i).v (got i)
    pub absent : (i : ℕ) → de ≤ i → i < de + left → (slots i).present ≡ false → got i ≡ acc i
    pub outside : (i : ℕ) → (i < de) ⊎ (de + left ≤ i) → got i ≡ acc i

  -- The fields from `de` on, written behind `dst` and read again.
  pub record Fields (left de : ℕ) (dst : Bytes) : Type 0 where
    pub bytes : Bytes
    pub appends : append_fields sch slots none left de dst ≡ ok (dst ++ bytes)
    pub reads :
        (rest wire : Bytes) (acc : ℕ → Slot K)
        → wire ≡ dst ++ (bytes ++ rest)
        → ((i : ℕ) → (acc i).decoded ≡ false)
        → (got : ℕ → Slot K) × ((read_fields sch wire
                (ascending (λ i. (slots i).present) left de)
                (length dst)
                acc
              ≡ ok got)
            × Found wire left de acc got)

  abbrev Writable : ℕ → ℕ → Type 0
  Writable left de =
      (i : ℕ) → de ≤ i → i < de + left → (slots i).present ≡ true → Defined sch i (slots i).v

  fields_none : (de : ℕ) (dst : Bytes) → Fields 0 de dst
  unfolding append_fields read_fields ascending
  fields_none de dst = record {
    bytes = [];
    appends = ap ok (sym (append-nil dst));
    reads = λ rest wire acc e h. (
      acc,
      (
        refl,
        record {
          found = λ i lo hi. absurd (omega arith);
          absent = λ i lo hi. absurd (omega arith);
          outside = λ i o. refl;
        },
      ),
    );
  }

  -- A slot that is absent is passed over by both loops.
  fields_skip :
      (left de : ℕ) (dst : Bytes)
      → (slots de).present ≡ false
      → Fields left (de + 1) dst
      → Fields (suc left) de dst
  unfolding append_fields ascending
  fields_skip left de dst p rest_of = record {
    bytes = rest_of.bytes;
    appends = rw (append_fields, p) rest_of.appends;
    reads = λ rest wire acc e h.
        let (got, (r, f)) = rest_of.reads rest wire acc e h in
        (
          got,
          (
            rw p r,
            record {
              found = λ i lo hi pr. elim (here_or_later de i lo) [
                | inl q ↦ absurd (true_ne_false (sym pr ∙ ap (λ j. (slots j).present) q ∙ p))
                | inr later ↦ f.found i later (omega arith) pr
              ];
              absent = λ i lo hi pr. elim (here_or_later de i lo) [
                | inl q ↦ f.outside i (inl (omega arith))
                | inr later ↦ f.absent i later (omega arith) pr
              ];
              outside = λ i o.
                  f.outside i (elim o [ inl h ↦ inl (omega arith) | inr h ↦ inr (omega arith) ]);
            },
          ),
        );
  }

  -- A slot that is present is written, found behind `dst`, and put into the table.
  fields_step :
      (left de : ℕ) (dst : Bytes) (d : Defined sch de (slots de).v)
      → (slots de).present ≡ true
      → de ≤ sch.max_de
      → (w : Written d.def (slots de).v dst) → Fields left (de + 1) (dst ++ w.bytes)
      → Fields (suc left) de dst
  unfolding append_fields append_field read_fields ascending
  fields_step left de dst d p low w rest_of = record {
    bytes = w.bytes ++ rest_of.bytes;
    appends =
        rw (append_fields, p, d.is_def, w.appends)
          (rest_of.appends ∙ ap ok (append_assoc dst w.bytes rest_of.bytes));
    reads = λ rest wire acc e h.
        let split : wire ≡ dst ++ (w.bytes ++ (rest_of.bytes ++ rest)) =
          e ∙ ap (λ x. dst ++ x) (append_assoc w.bytes rest_of.bytes rest) in
        let at = w.placed (rest_of.bytes ++ rest) wire split in
        let slot : Slot K = span_slot (length dst) at.span in
        let acc' = put_slot de slot acc in
        let next : at.span.body_end ≡ length (dst ++ w.bytes) =
          at.ends ∙ sym (length-append dst w.bytes) in
        let small : leb de sch.max_de ≡ true = ground arith in
        let (got, (r, f)) =
          rest_of.reads rest wire acc'
            (split ∙ sym (append_assoc dst w.bytes (rest_of.bytes ++ rest)))
            (λ i. put_slot-decoded de i slot acc refl (h i)) in
        (
          got,
          (
            rw (p, read_fields, d.is_def, at.reads, small)
                (ap
                    (λ n.
                      read_fields sch wire (ascending (λ i. (slots i).present) left (de + 1)) n
                        acc')
                    next
                  ∙ r),
            record {
              found = λ i lo hi pr. elim (here_or_later de i lo) [
                | inl q ↦
                    let got_here =
                      f.outside de (inl (omega arith))
                      ∙ put_slot-here de de slot acc (ground arith) in
                    subst (λ j. Holds sch wire j (slots j).v (got j)) (sym q)
                      (subst (Holds sch wire de (slots de).v) (sym got_here)
                        (span_slot-Holds d.is_def at))
                | inr later ↦ f.found i later (omega arith) pr
              ];
              absent = λ i lo hi pr. elim (here_or_later de i lo) [
                | inl q ↦ absurd (true_ne_false (sym p ∙ sym (ap (λ j. (slots j).present) q) ∙ pr))
                | inr later ↦
                    f.absent i later (omega arith) pr ∙ put_slot-other de i slot acc (ground arith)
              ];
              outside = λ i o.
                  f.outside i (elim o [ inl k ↦ inl (omega arith) | inr k ↦ inr (omega arith) ])
                  ∙ put_slot-other de i slot acc
                      (elim o [ inl k ↦ ground arith | inr k ↦ ground arith ]);
            },
          ),
        );
  }

  -- Every present slot of the range being defined, the fields are written, and found again.
  pub fields :
      (left de : ℕ) (dst : Bytes)
      → de + left ≤ sch.max_de + 1
      → Writable left de
      → Fields left de dst
  fields zero de dst low ok_all = fields_none de dst
  fields (suc left) de dst low ok_all =
      let rest_ok =
        λ (i : ℕ) (lo : de + 1 ≤ i) (hi : i < de + 1 + left) (pr : (slots i).present ≡ true).
          ok_all i (omega arith) (omega arith) pr in
      elim (Bool-cases (slots de).present) [
        | inr p ↦ fields_skip left de dst p (fields left (de + 1) dst (omega arith) rest_ok)
        | inl p ↦
            let d = ok_all de (omega arith) (omega arith) p in
            let w = written d.def (slots de).v d.writable dst in
            fields_step left de dst d p (omega arith) w
              (fields left (de + 1) (dst ++ w.bytes) (omega arith) rest_ok)
      ]
