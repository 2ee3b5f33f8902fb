-- ===== src/Engine/RoundTrip.antt =====
-- A message that was built, marshalled and unmarshalled again.
use isopace.Common.{
  ℕ, ◌+◌, ◌-◌, ◌<◌, ◌≤◌, ◌≡◌, refl, sym, ap, ◌∙◌, Bool, true, false, none, some, [], ◌++◌, arith,
  append_assoc, append-nil, inl, inr,
}
use isopace.Common.{
  leb, if◌then◌else◌, Bytes, length, length-append, ok, map_err, Bool-cases, Option-cases,
  none_ne_some,
}
use isopace.Bitmap.{Bitmap, range, empty}
use isopace.Bitmap.Order.{ascending}
use isopace.Engine.Types.{Kinds, Value, FieldDef, BitmapCodec, Schema}
use isopace.Engine.Message.{
  cause, Slot, Message, empty_slot, new_decoded, put_slot, field, get, decode_slot, value_at,
}
use isopace.Engine.Codec.{
  span_slot, read_fields, read_body, unmarshal, append_field, append_fields, append_head,
  append_bitmap, read_head, present_bits, marshal_slots, marshal, marshal_from, read_bitmap,
}
use isopace.Engine.Fields.{IsWritable, written}
use isopace.Engine.Loops.{
  Holds, Defined, Found, Fields, fields, span_slot-Holds, put_slot-other, put_slot-decoded,
}
use isopace.Engine.Presence.{HasNoMarks, range-present_bits}
use mathlib.Core.Path.{subst}

-- The bitmap codec reads back the data elements of the bitmap, whatever stands around it.
pub record BitmapBack {K : Kinds} (c : BitmapCodec K) (levels : ℕ) (bm : Bitmap) (dst : Bytes)
    : Type 0 where
  pub bytes : Bytes
  pub writes : c.write dst bm levels ≡ ok (dst ++ bytes)
  pub reads :
      (rest : Bytes)
      → (got : Bitmap) × ((c.read (dst ++ (bytes ++ rest)) (length dst) levels
            ≡ ok (got, length dst + length bytes))
          × (range got ≡ range bm))

-- A message that was not decoded, of values that the codecs give back as they are.
pub record IsBuilt {K : Kinds} (sch : Schema K) (m : Message K) : Type 0 where
  pub no_source : m.src ≡ none
  pub counted : m.slot_count ≡ sch.max_de + 1
  pub no_marks : HasNoMarks m.slots sch.max_de
  pub mti_writable : (def : FieldDef K) → sch.mti ≡ some def → IsWritable def (m.slots 0).v
  pub fields_defined :
      (i : ℕ)
      → 1 ≤ i
      → i < 1 + sch.max_de
      → (m.slots i).present ≡ true
      → Defined sch i (m.slots i).v
  pub bitmap : BitmapCodec K
  pub has_bitmap : sch.bitmap.codec ≡ some bitmap
  pub bitmap_back :
      (dst : Bytes)
      → BitmapBack bitmap sch.bitmap.levels (present_bits m.slots sch.max_de 1 empty) dst

value_at-Holds :
    {K : Kinds} (sch : Schema K) (slots : ℕ → Slot K) (wire : Bytes) (de : ℕ) (v : Value K)
    (def : FieldDef K)
    → field sch de ≡ some def
    → Holds sch wire de v (slots de)
    → value_at sch (some wire) de (slots de) ≡ some v
unfolding value_at
value_at-Holds sch slots wire de v def is_def h =
    rw (value_at, h.is_present, h.not_decoded, is_def, h.is_from_src) (h.value def is_def)

-- What `Get` answers at a slot that was found.
get-Holds :
    {K : Kinds} (sch : Schema K) (m : Message K) (wire : Bytes) (de : ℕ) (v : Value K)
    (def : FieldDef K)
    → de < m.slot_count
    → m.src ≡ some wire
    → field sch de ≡ some def
    → Holds sch wire de v (m.slots de)
    → (get sch m de).1 ≡ some v
unfolding get decode_slot
get-Holds sch m wire de v def low src is_def h =
    let small : leb m.slot_count de ≡ false = ground arith in
    rw small (
      ap (λ o. value_at sch o de (m.slots de)) src
      ∙ value_at-Holds sch m.slots wire de v def is_def h)

get_absent :
    {K : Kinds} (sch : Schema K) (m : Message K) (de : ℕ)
    → (m.slots de).present ≡ false
    → (get sch m de).1 ≡ none
unfolding get decode_slot value_at
get_absent sch m de e = elim (Bool-cases (leb m.slot_count de)) [
  | inl h ↦ rw (get, h) refl
  | inr h ↦ rw (get, h, e) refl
]

module _ {K : Kinds} (sch : Schema K) (sealed : Bool) (m : Message K) (b : IsBuilt sch m) where
  -- The MTI, at the front.
  record Head : Type 0 where
    bytes : Bytes
    makes : append_head m [] sch.mti ≡ ok bytes
    starts :
        (rest wire : Bytes)
        → wire ≡ bytes ++ rest
        → (slots : ℕ → Slot K) × ((unmarshal sch sealed wire
              ≡ read_body sch wire
                  (record (new_decoded sch wire sealed) { slots = slots })
                  (length bytes))
            × (((i : ℕ) → (slots i).decoded ≡ false)
                × (((i : ℕ) → 1 ≤ i → slots i ≡ empty_slot)
                    × ((def : FieldDef K)
                        → sch.mti ≡ some def
                        → Holds sch wire 0 (m.slots 0).v (slots 0)))))

  no_head : sch.mti ≡ none → Head
  unfolding unmarshal new_decoded append_head read_head
  no_head q = record {
    bytes = [];
    makes = ap (append_head m []) q;
    starts = λ rest wire e. (
      (λ _. empty_slot),
      (
        ap (read_head sch wire (new_decoded sch wire sealed)) q,
        ((λ i. refl), ((λ i h. refl), λ def d. absurd (none_ne_some (sym q ∙ d)))),
      ),
    );
  }

  mti_head : (def : FieldDef K) → sch.mti ≡ some def → Head
  unfolding unmarshal new_decoded append_field append_head read_head field
  mti_head def q =
      let w = written def (m.slots 0).v (b.mti_writable def q) [] in
      record {
        bytes = w.bytes;
        makes =
            ap (append_head m []) q ∙ ap (append_field [] def (m.slots 0)) b.no_source ∙ w.appends;
        starts = λ rest wire e.
            let at = w.placed rest wire e in
            let slot : Slot K = span_slot 0 at.span in
            let slots : ℕ → Slot K = put_slot 0 slot (λ _. empty_slot) in
            let m0 : Message K = record (new_decoded sch wire sealed) { slots = slots } in
            (
              slots,
              (
                ap (read_head sch wire (new_decoded sch wire sealed)) q
                    ∙ rw (read_head, at.reads) (ap (read_body sch wire m0) (at.ends ∙ omega arith)),
                (
                  (λ i. put_slot-decoded 0 i slot (λ _. empty_slot) refl refl),
                  (
                    (λ i h. put_slot-other 0 i slot (λ _. empty_slot) (ground arith)),
                    λ d r. span_slot-Holds q at,
                  ),
                ),
              ),
            );
      }

  head : Head
  head = elim (Option-cases sch.mti) [ inl q ↦ no_head q | inr (def, q) ↦ mti_head def q ]

  -- What the round trip comes to.
  pub record Back : Type 0 where
    pub wire : Bytes
    pub got : Message K
    pub marshals : marshal sch m [] ≡ ok wire
    pub unmarshals : unmarshal sch sealed wire ≡ ok got
    pub get_mti : (def : FieldDef K) → sch.mti ≡ some def → (get sch got 0).1 ≡ some (m.slots 0).v
    pub get_field :
        (de : ℕ)
        → 1 ≤ de
        → de ≤ sch.max_de
        → (get sch got de).1 ≡ (if (m.slots de).present then some (m.slots de).v else none)

  -- The bitmap and the fields behind it.
  bm : Bitmap
  bm = present_bits m.slots sch.max_de 1 empty

  write_bitmap :
      (dst : Bytes) (w : BitmapBack b.bitmap sch.bitmap.levels bm dst)
      → append_bitmap sch (present_bits m.slots (m.slot_count - 1) 1 empty) dst sch.bitmap.codec
        ≡ ok (dst ++ w.bytes)
  unfolding append_bitmap bm
  write_bitmap dst w =
      let same : m.slot_count - 1 ≡ sch.max_de = omega (arith, b.counted) in
      ap (append_bitmap sch (present_bits m.slots (m.slot_count - 1) 1 empty) dst) b.has_bitmap
      ∙ rw same (ap (map_err cause) w.writes)

  body : (dst : Bytes) → Fields sch m.slots sch.max_de 1 dst
  body dst = fields sch m.slots sch.max_de 1 dst (omega arith) b.fields_defined

  marshal_lem :
      (hd : Head) (w : BitmapBack b.bitmap sch.bitmap.levels bm hd.bytes)
      → marshal sch m [] ≡ ok ((hd.bytes ++ w.bytes) ++ (body (hd.bytes ++ w.bytes)).bytes)
  unfolding marshal marshal_from marshal_slots
  marshal_lem hd w =
      let f = body (hd.bytes ++ w.bytes) in
      let same : m.slot_count - 1 ≡ sch.max_de = omega (arith, b.counted) in
      let last : append_fields sch m.slots m.src (m.slot_count - 1) 1 (hd.bytes ++ w.bytes)
          ≡ ok ((hd.bytes ++ w.bytes) ++ f.bytes) =
        ap (λ o. append_fields sch m.slots o (m.slot_count - 1) 1 (hd.bytes ++ w.bytes)) b.no_source
        ∙ ap (λ n. append_fields sch m.slots none n 1 (hd.bytes ++ w.bytes)) same
        ∙ f.appends in
      ap (marshal_from sch m []) b.no_source ∙ rw (hd.makes, write_bitmap hd.bytes w, last) refl

  -- The body of the message, read from behind the MTI.
  read_body_lem :
      (hd : Head) (w : BitmapBack b.bitmap sch.bitmap.levels bm hd.bytes) (wire : Bytes)
      (m0 : Message K)
      → wire ≡ (hd.bytes ++ w.bytes) ++ (body (hd.bytes ++ w.bytes)).bytes
      → ((i : ℕ) → (m0.slots i).decoded ≡ false)
      → (got : Bitmap) × ((slots : ℕ → Slot K) × ((read_body sch wire m0 (length hd.bytes)
              ≡ ok (record m0 { bm = got; slots = slots }))
            × Found sch m.slots wire sch.max_de 1 m0.slots slots))
  unfolding read_body read_bitmap bm
  read_body_lem hd w wire m0 e dec =
      let f = body (hd.bytes ++ w.bytes) in
      let (got, (r, same)) = w.reads f.bytes in
      let split : wire ≡ hd.bytes ++ (w.bytes ++ f.bytes) =
        e ∙ append_assoc hd.bytes w.bytes f.bytes in
      let r' : b.bitmap.read wire (length hd.bytes) sch.bitmap.levels
          ≡ ok (got, length hd.bytes + length w.bytes) =
        ap (λ x. b.bitmap.read x (length hd.bytes) sch.bitmap.levels) split ∙ r in
      let (slots, (g, found)) =
        f.reads [] wire m0.slots
          (e ∙ ap (λ x. (hd.bytes ++ w.bytes) ++ x) (sym (append-nil f.bytes))) dec in
      let g' : read_fields sch wire (range got) (length hd.bytes + length w.bytes) m0.slots
          ≡ ok slots =
        ap (λ l. read_fields sch wire l (length hd.bytes + length w.bytes) m0.slots)
          (same ∙ range-present_bits m.slots sch.max_de b.no_marks)
        ∙ ap
            (λ n.
              read_fields sch wire (ascending (λ i. (m.slots i).present) sch.max_de 1) n m0.slots)
            (sym (length-append hd.bytes w.bytes))
        ∙ g in
      (
        got,
        (
          slots,
          (ap (read_bitmap sch wire m0 (length hd.bytes)) b.has_bitmap ∙ rw (r', g') refl, found),
        ),
      )

  -- For a message that was not decoded, with a slot for each data element of the schema and none
  -- for a continuation bit, whose MTI and fields have values that their codecs write and read back
  -- just as they are, padding included, and whose data elements the bitmap codec reads back as it
  -- writes them: it is marshalled without an error, and what `Unmarshal` makes of the bytes has the
  -- same MTI and the same fields: `Get` answers the value of the slot where one is present, and
  -- nothing else.
  pub unmarshal-marshal : Back
  unfolding new_decoded bm field
  unmarshal-marshal =
      let hd = head in
      let w = b.bitmap_back hd.bytes in
      let f = body (hd.bytes ++ w.bytes) in
      let wire = (hd.bytes ++ w.bytes) ++ f.bytes in
      let (slots0, (starts, (dec, (others, mti)))) =
        hd.starts (w.bytes ++ f.bytes) wire (append_assoc hd.bytes w.bytes f.bytes) in
      let m0 : Message K = record (new_decoded sch wire sealed) { slots = slots0 } in
      let (got_bm, (slots, (r, found))) = read_body_lem hd w wire m0 refl dec in
      let got : Message K = record m0 { bm = got_bm; slots = slots } in
      record {
        wire = wire;
        got = got;
        marshals = marshal_lem hd w;
        unmarshals = starts ∙ r;
        get_mti = λ def q. get-Holds sch got wire 0 (m.slots 0).v def (omega arith) refl q (
            subst (Holds sch wire 0 (m.slots 0).v) (sym (found.outside 0 (inl (omega arith))))
              (mti def q));
        get_field = λ de lo hi. elim (Bool-cases (m.slots de).present) [
          | inl p ↦
              let d = b.fields_defined de lo (omega arith) p in
              get-Holds sch got wire de (m.slots de).v d.def (omega arith) refl d.is_def
                (found.found de lo (omega arith) p)
              ∙ rw p refl
          | inr p ↦
              get_absent sch got de
                (ap (λ s. s.present) (found.absent de lo (omega arith) p ∙ others de lo))
              ∙ rw p refl
        ];
      }
