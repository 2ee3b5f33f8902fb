-- ===== src/Engine/Message.antt =====
-- iso8583/message.go: a message as a table of slots over the wire that it was decoded from. The
-- data elements that the methods take are not negative. The bitmap `dirty` of the source is written
-- and never read, and is left out; tags and paths are those of nested messages, which are the codecs'.
use isopace.Common.{ℕ, ◌+◌, Bool, true, false, ◌||◌, not, Option, none, some}
use isopace.Common.{◌==◌, leb, if◌then◌else◌, Bytes, Result, ok, err, slice}
use isopace.Bitmap.{Bitmap, empty, set, clear}
use isopace.Engine.Types.{Kinds, Value, zero_value, bytes_value, FieldDef, Schema}

pub data Fault (K : Kinds) : Type 0 where
  truncated bad_length unknown_de sealed_message : Fault K
  -- an error of a codec, passed on
  cause : K.Cause → Fault K

pub record Slot (K : Kinds) : Type 0 where
  pub v : Value K
  pub present : Bool
  pub decoded : Bool
  pub dirty : Bool
  pub from_src : Bool
  pub units : ℕ
  pub wire_off : ℕ
  pub body_off : ℕ
  pub body_end : ℕ

-- `slot{}`
abbrev pub empty_slot : {K : Kinds} → Slot K
empty_slot = record {
  v = zero_value;
  present = false;
  decoded = false;
  dirty = false;
  from_src = false;
  units = 0;
  wire_off = 0;
  body_off = 0;
  body_end = 0;
}

-- `Message`: `slots` has `slot_count` entries, the first for the MTI.
pub record Message (K : Kinds) : Type 0 where
  pub src : Option Bytes
  pub bm : Bitmap
  pub slots : ℕ → Slot K
  pub slot_count : ℕ
  pub owned : Bool
  pub sealed : Bool

abbrev pub put_slot : {K : Kinds} → ℕ → Slot K → (ℕ → Slot K) → ℕ → Slot K
put_slot de s slots i = if i == de then s else slots i

-- `New`
unfoldable pub new_message : {K : Kinds} → Schema K → Message K
new_message s = record {
  src = none;
  bm = empty;
  slots = λ _. empty_slot;
  slot_count = s.max_de + 1;
  owned = true;
  sealed = false;
}

unfoldable pub new_decoded : {K : Kinds} → Schema K → Bytes → Bool → Message K
new_decoded s src sealed = record {
  src = some src;
  bm = empty;
  slots = λ _. empty_slot;
  slot_count = s.max_de + 1;
  owned = false;
  sealed = sealed;
}

-- `Schema.Field`, and `Message.def`
unfoldable pub field : {K : Kinds} → Schema K → ℕ → Option (FieldDef K)
field s de = if de == 0 then s.mti else s.defs de

unfoldable pub has : {K : Kinds} → Message K → ℕ → Bool
has m de = if leb m.slot_count de then false else (m.slots de).present

-- The value of a present slot that is not decoded yet, from its span.
unfoldable pub decode_span : {K : Kinds} → FieldDef K → Bytes → Slot K → Option (Value K)
decode_span def src s =
    let body = slice src s.body_off s.body_end in
    elim def.codec [
      | none ↦ some (bytes_value body)
      | some c ↦ elim (c.decode_body body s.units def.attrs) [ err _ ↦ none | ok v ↦ some v ]
    ]

-- The slot with its value filled in.
unfoldable pub memoise : {K : Kinds} → ℕ → Value K → Message K → Message K
memoise de v m = record m {
  slots = put_slot de (record (m.slots de) { v = v; decoded = true }) m.slots;
}

-- What `decodeSlot` answers of a slot. Only a decoded message has slots with a span, so that `src`
-- is there when one is read.
unfoldable pub value_at : {K : Kinds} → Schema K → Option Bytes → ℕ → Slot K → Option (Value K)
unfolding decode_span field
value_at sch src de s =
    if not s.present then none else if s.decoded then some s.v else elim (field sch de) [
      | none ↦ none
      | some def ↦
          if not s.from_src
          then some s.v
          else elim src [ none ↦ none | some wire ↦ decode_span def wire s ]
    ]

-- `decodeSlot`: the message with the value memoised, which changes nothing where it was there
-- already, and the value.
unfoldable pub decode_slot : {K : Kinds} → Schema K → Message K → ℕ → Message K × Option (Value K)
unfolding value_at memoise
decode_slot sch m de =
    let v = value_at sch m.src de (m.slots de) in (elim v [ none ↦ m | some x ↦ memoise de x m ], v)

-- `Get`
unfoldable pub get : {K : Kinds} → Schema K → Message K → ℕ → Message K × Option (Value K)
unfolding decode_slot
get sch m de = if leb m.slot_count de then (m, none) else decode_slot sch m de

-- The slot that `Set` leaves: the span of the slot before it stays, and is not used any more.
unfoldable pub set_slot : {K : Kinds} → Value K → Slot K → Slot K
set_slot v s = record s { v = v; present = true; decoded = true; dirty = true; from_src = false }

-- The message after a `Set` that succeeds.
unfoldable pub store_value : {K : Kinds} → ℕ → Value K → Message K → Message K
unfolding set_slot
store_value de v m = record m {
  slots = put_slot de (set_slot v (m.slots de)) m.slots;
  owned = true;
  bm = if leb 1 de then set de m.bm else m.bm;
}

-- `Set`, of what `makeValue` answers for the field.
unfoldable pub set_field :
    {K : Kinds}
    → Schema K
    → (FieldDef K → Result K.Cause (Value K))
    → ℕ
    → Message K
    → Message K × Option (Fault K)
unfolding store_value field
set_field sch make de m = if m.sealed then (m, some sealed_message) else elim (field sch de) [
  | none ↦ (m, some unknown_de)
  | some def ↦ elim (make def) [
    | err e ↦ (m, some (cause e))
    | ok v ↦ if leb m.slot_count de then (m, some unknown_de) else (store_value de v m, none)
  ]
]

-- The message after an `Unset` of a slot that is present.
unfoldable pub drop_slot : {K : Kinds} → ℕ → Message K → Message K
drop_slot de m = record m {
  slots = put_slot de empty_slot m.slots;
  bm = if leb 1 de then clear de m.bm else m.bm;
  owned = true;
}

-- `Unset`
unfoldable pub unset : {K : Kinds} → ℕ → Message K → Message K
unfolding drop_slot
unset de m =
    if m.sealed || leb m.slot_count de
    then m
    else if not (m.slots de).present
    then m
    else drop_slot de m

unfoldable pub seal : {K : Kinds} → Message K → Message K
seal m = record m { sealed = true }

-- `Clone`: a struct literal that names neither `owned` nor `sealed`. Children are values here, so
-- that a copy of one is the child itself.
unfoldable pub clone : {K : Kinds} → Message K → Message K
clone m = record m { owned = false; sealed = false }
