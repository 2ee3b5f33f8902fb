-- ===== src/Engine/Codec.antt =====
-- iso8583/codec.go: `Unmarshal` and `Marshal`. Errors carry the data element at which they
-- arose; of `Marshal` that is none, as the buffer is given up.
use isopace.Common.{
  ℕ, zero, suc, ◌+◌, ◌-◌, Bool, true, false, ◌&&◌, not, Option, none, some, List, [], ◌∷◌, ◌++◌,
}
use isopace.Common.{ltb, leb, if◌then◌else◌, Bytes, length, slice, Result, ok, err, ◌>>=◌, map_err}
use isopace.Bitmap.{Bitmap, empty, set, range}
use isopace.Engine.Types.{
  Kinds, Value, kind_invalid, kind_string, kind_numeric, kind_bytes, kind_amount, kind_composite,
  FieldDef, Schema, BitmapCodec,
}
use isopace.Engine.Message.{
  empty_slot, Fault, truncated, bad_length, unknown_de, cause, Slot, Message, put_slot, new_decoded,
  field,
}

-- `wireBytes`
unfoldable pub wire_bytes : {K : Kinds} → FieldDef K → ℕ → ℕ
wire_bytes def units = elim def.codec [
  | none ↦ units
  | some c ↦ elim c.body_bytes [ none ↦ units | some width ↦ width units ]
]

-- The span of a field: `bodyOff`, `bodyEnd`, which is also `next`, and `units`.
pub record Span : Type 0 where
  pub body_off : ℕ
  pub body_end : ℕ
  pub units : ℕ

-- The end of `fieldBodySpan`, from the body on.
unfoldable pub body_span : {K : Kinds} → FieldDef K → Bytes → ℕ → ℕ → Result (Fault K) Span
unfolding wire_bytes
body_span def src units off =
    let end = off + wire_bytes def units in
    if ltb (length src) end
    then err truncated
    else ok (record { body_off = off; body_end = end; units = units })

unfoldable pub field_body_span : {K : Kinds} → FieldDef K → Bytes → ℕ → Result (Fault K) Span
unfolding body_span
field_body_span def src off =
    if ltb (length src) off then err truncated else elim def.length_codec [
      | none ↦ body_span def src def.attrs.max_len off
      | some l ↦ elim (l.read_len src off) [
        | err e ↦ err (cause e)
        | ok p ↦ if ltb p.1 off then err bad_length else body_span def src p.0 p.1
      ]
    ]

-- The slot that `Unmarshal` leaves of a field at `off`.
abbrev pub span_slot : {K : Kinds} → ℕ → Span → Slot K
span_slot off sp = record empty_slot {
  present = true;
  from_src = true;
  wire_off = off;
  body_off = sp.body_off;
  body_end = sp.body_end;
  units = sp.units;
}

-- The fields after the bitmap, in the order of `Range`; an error names its data element.
unfoldable pub read_fields :
    {K : Kinds} → Schema K → Bytes → List ℕ → ℕ → (ℕ → Slot K) → Result (ℕ × Fault K) (ℕ → Slot K)
unfolding field_body_span field
read_fields sch wire [] off slots = ok slots
read_fields sch wire (de ∷ des) off slots = elim (field sch de) [
  | none ↦ err (de, unknown_de)
  | some def ↦ elim (field_body_span def wire off) [
    | err e ↦ err (de, e)
    | ok sp ↦
        read_fields sch wire des sp.body_end
          (if leb de sch.max_de then put_slot de (span_slot off sp) slots else slots)
  ]
]

-- `Unmarshal` from the bitmap on, by the schema's codec for it.
unfoldable pub read_bitmap :
    {K : Kinds}
    → Schema K
    → Bytes
    → Message K
    → ℕ
    → Option (BitmapCodec K)
    → Result (ℕ × Fault K) (Message K)
unfolding read_fields
read_bitmap sch wire m off none = err (1, unknown_de)
read_bitmap sch wire m off (some c) = elim (c.read wire off sch.bitmap.levels) [
  | err e ↦ err (1, cause e)
  | ok p ↦ elim (read_fields sch wire (range p.0) p.1 m.slots) [
    | err e ↦ err e
    | ok slots ↦ ok (record m { bm = p.0; slots = slots })
  ]
]

unfoldable pub read_body :
    {K : Kinds} → Schema K → Bytes → Message K → ℕ → Result (ℕ × Fault K) (Message K)
unfolding read_bitmap
read_body sch wire m off = read_bitmap sch wire m off sch.bitmap.codec

-- `Unmarshal` from the MTI on, by the schema's definition of it.
unfoldable pub read_head :
    {K : Kinds}
    → Schema K
    → Bytes
    → Message K
    → Option (FieldDef K)
    → Result (ℕ × Fault K) (Message K)
unfolding field_body_span read_body
read_head sch wire m none = read_body sch wire m 0
read_head sch wire m (some def) = elim (field_body_span def wire 0) [
  | err e ↦ err (0, e)
  | ok sp ↦
      read_body sch wire (record m { slots = put_slot 0 (span_slot 0 sp) m.slots }) sp.body_end
]

-- `Unmarshal`; `sealed` is the option `Immutable`. The option `Strict` is read nowhere.
unfoldable pub unmarshal : {K : Kinds} → Schema K → Bool → Bytes → Result (ℕ × Fault K) (Message K)
unfolding new_decoded read_head
unmarshal sch sealed wire = read_head sch wire (new_decoded sch wire sealed) sch.mti

-- `encodeUnits`
unfoldable pub encode_units : {K : Kinds} → FieldDef K → Value K → Bytes → ℕ
encode_units def v body = elim v.kind [
  | kind_numeric ↦ length v.raw
  | kind_string ↦ length v.raw
  | kind_bytes ↦ length v.raw
  | kind_composite ↦ length body
  | kind_amount ↦ if ltb 0 (length v.raw) then length v.raw else def.attrs.max_len
  | kind_invalid ↦ length body
]

-- The body of a field that is encoded anew.
unfoldable pub encode_value : {K : Kinds} → FieldDef K → Value K → Result (Fault K) Bytes
encode_value def v = elim def.codec [
  | none ↦ ok v.raw
  | some c ↦ map_err cause (c.encode_body v def.attrs)
]

unfoldable pub write_prefix : {K : Kinds} → FieldDef K → Bytes → ℕ → Result (Fault K) Bytes
write_prefix def dst units = elim def.length_codec [
  | none ↦ ok dst
  | some l ↦ map_err cause (l.write_len dst units)
]

-- `appendField` of a value, not copied from the source.
unfoldable pub append_value : {K : Kinds} → Bytes → FieldDef K → Value K → Result (Fault K) Bytes
unfolding encode_value write_prefix encode_units
append_value dst def v = encode_value def v >>= λ body.
    write_prefix def dst (encode_units def v body) >>= λ out. ok (out ++ body)

unfoldable pub append_field :
    {K : Kinds} → Bytes → FieldDef K → Slot K → Option Bytes → Result (Fault K) Bytes
unfolding append_value
append_field dst def s none = append_value dst def s.v
append_field dst def s (some src) =
    if s.from_src && not s.dirty
    then ok (dst ++ slice src s.wire_off s.body_end)
    else append_value dst def s.v

-- The loop over the slots from `de` on, with `left` of them to go: the bitmap of the present ones.
unfoldable pub present_bits : {K : Kinds} → (ℕ → Slot K) → ℕ → ℕ → Bitmap → Bitmap
present_bits slots zero de bm = bm
present_bits slots (suc left) de bm =
    present_bits slots left (de + 1) (if (slots de).present then set de bm else bm)

-- The fields, in the order of the slots.
unfoldable pub append_fields :
    {K : Kinds} → Schema K → (ℕ → Slot K) → Option Bytes → ℕ → ℕ → Bytes → Result (Fault K) Bytes
unfolding append_field field
append_fields sch slots src zero de dst = ok dst
append_fields sch slots src (suc left) de dst = elim (slots de).present [
  | false ↦ append_fields sch slots src left (de + 1) dst
  | true ↦ elim (field sch de) [
    | none ↦ err unknown_de
    | some def ↦ elim (append_field dst def (slots de) src) [
      | err e ↦ err e
      | ok dst' ↦ append_fields sch slots src left (de + 1) dst'
    ]
  ]
]

-- The MTI, if the schema defines one.
unfoldable pub append_head :
    {K : Kinds} → Message K → Bytes → Option (FieldDef K) → Result (Fault K) Bytes
unfolding append_field
append_head m dst none = ok dst
append_head m dst (some def) = append_field dst def (m.slots 0) m.src

unfoldable pub append_bitmap :
    {K : Kinds} → Schema K → Bitmap → Bytes → Option (BitmapCodec K) → Result (Fault K) Bytes
append_bitmap sch bm dst none = err unknown_de
append_bitmap sch bm dst (some c) = map_err cause (c.write dst bm sch.bitmap.levels)

-- `Marshal` past the fast path.
unfoldable pub marshal_slots : {K : Kinds} → Schema K → Message K → Bytes → Result (Fault K) Bytes
unfolding append_head append_bitmap present_bits append_fields
marshal_slots sch m dst =
    let bm = present_bits m.slots (m.slot_count - 1) 1 empty in
    append_head m dst sch.mti >>= λ head. append_bitmap sch bm head sch.bitmap.codec >>= λ out.
    append_fields sch m.slots m.src (m.slot_count - 1) 1 out

-- `Marshal`, by the source: a decoded message that was not changed is its source, whatever `dst` is.
unfoldable pub marshal_from :
    {K : Kinds} → Schema K → Message K → Bytes → Option Bytes → Result (Fault K) Bytes
unfolding marshal_slots
marshal_from sch m dst none = marshal_slots sch m dst
marshal_from sch m dst (some src) = if not m.owned then ok src else marshal_slots sch m dst

unfoldable pub marshal : {K : Kinds} → Schema K → Message K → Bytes → Result (Fault K) Bytes
unfolding marshal_from
marshal sch m dst = marshal_from sch m dst m.src
