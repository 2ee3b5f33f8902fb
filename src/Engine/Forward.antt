-- ===== src/Engine/Forward.antt =====
-- Messages that are decoded, changed or cloned, and marshalled.
use isopace.Common.{
  ℕ, ◌<◌, ◌≡◌, refl, sym, ap, ◌∙◌, Bool, true, false, not, ◌||◌, ◌&&◌, Option, none, some, arith,
  inl, inr,
}
use isopace.Common.{◌==◌, leb, if◌then◌else◌, Bytes, Result, ok, err, Bool-cases}
use isopace.Bitmap.{Bitmap, range}
use isopace.Engine.Types.{Kinds, Value, FieldDef, BitmapCodec, Schema}
use isopace.Engine.Message.{
  Fault, cause, Slot, Message, empty_slot, new_decoded, put_slot, field, get, decode_slot, value_at,
  set_field, set_slot, store_value, drop_slot, unset, clone,
}
use isopace.Engine.Codec.{
  span_slot, field_body_span, read_fields, read_bitmap, read_body, read_head, unmarshal,
  marshal_from, marshal,
}
use isopace.Engine.Loops.{put_slot-here, put_slot-other}
use mathlib.Core.Path.{subst}

-- What a decoded message keeps: the wire, and that it has not been changed.
pub record IsUntouched {K : Kinds} (wire : Bytes) (m : Message K) : Type 0 where
  pub has_src : m.src ≡ some wire
  pub not_owned : m.owned ≡ false

-- What every result but an error satisfies.
abbrev IfOk : {E A : Type 0} → (A → Type 0) → Result E A → Type 0
IfOk P (ok a) = P a
IfOk P (err e) = Unit

-- The parts of `Set` leave the source alone.
set_field-src :
    {K : Kinds} (sch : Schema K) (make : FieldDef K → Result K.Cause (Value K)) (de : ℕ)
    (m : Message K)
    → (set_field sch make de m).0.src ≡ m.src
unfolding set_field
set_field-src sch make de m = ground arith

module _ {K : Kinds} (sch : Schema K) (wire : Bytes) where
  fields-IsUntouched :
      (m : Message K) (bm : Bitmap) (r : Result (ℕ × Fault K) (ℕ → Slot K))
      → IsUntouched wire m
      → IfOk
          (IsUntouched wire)
          (elim r [ err e ↦ err e | ok slots ↦ ok (record m { bm = bm; slots = slots }) ])
  fields-IsUntouched m bm (err e) h = tt
  fields-IsUntouched m bm (ok slots) h = record { has_src = h.has_src; not_owned = h.not_owned }

  bitmap-IsUntouched :
      (m : Message K) (off : ℕ) (c : Option (BitmapCodec K))
      → IsUntouched wire m
      → IfOk (IsUntouched wire) (read_bitmap sch wire m off c)
  unfolding read_bitmap
  bitmap-IsUntouched m off none h = tt
  bitmap-IsUntouched m off (some c) h =
      elim (c.read wire off sch.bitmap.levels)
        as (λ r. IfOk (IsUntouched wire) (elim r [
          | err e ↦ err (1, cause e)
          | ok p ↦ elim (read_fields sch wire (range p.0) p.1 m.slots) [
            | err e ↦ err e
            | ok slots ↦ ok (record m { bm = p.0; slots = slots })
          ]
        ])) [
          | err e ↦ tt
          | ok p ↦ fields-IsUntouched m p.0 (read_fields sch wire (range p.0) p.1 m.slots) h
        ]

  head-IsUntouched :
      (m : Message K) (mti : Option (FieldDef K))
      → IsUntouched wire m
      → IfOk (IsUntouched wire) (read_head sch wire m mti)
  unfolding read_head read_body
  head-IsUntouched m none h = bitmap-IsUntouched m 0 sch.bitmap.codec h
  head-IsUntouched m (some def) h =
      elim (field_body_span def wire 0)
        as (λ r. IfOk (IsUntouched wire) (elim r [
          | err e ↦ err (0, e)
          | ok sp ↦
              read_body sch wire (record m { slots = put_slot 0 (span_slot 0 sp) m.slots })
                sp.body_end
        ])) [
          | err e ↦ tt
          | ok sp ↦
              bitmap-IsUntouched (record m { slots = put_slot 0 (span_slot 0 sp) m.slots })
                sp.body_end sch.bitmap.codec
                (record { has_src = h.has_src; not_owned = h.not_owned })
        ]

  pub unmarshal-IsUntouched :
      (sealed : Bool) (m : Message K) → unmarshal sch sealed wire ≡ ok m → IsUntouched wire m
  unfolding unmarshal new_decoded
  unmarshal-IsUntouched sealed m e = subst (IfOk (IsUntouched wire)) e (
      head-IsUntouched (new_decoded sch wire sealed) sch.mti
        (record { has_src = refl; not_owned = refl }))

  marshal_untouched :
      (m : Message K) (dst : Bytes) → IsUntouched wire m → marshal sch m dst ≡ ok wire
  unfolding marshal marshal_from
  marshal_untouched m dst h = ap (marshal_from sch m dst) h.has_src ∙ rw (h.not_owned) refl

  -- A message that is decoded and passed on unchanged, sealed or not, is marshalled as the bytes that came in, whatever buffer
  -- is given.
  pub marshal-unmarshal :
      (sealed : Bool) (m : Message K) (dst : Bytes)
      → unmarshal sch sealed wire ≡ ok m
      → marshal sch m dst ≡ ok wire
  marshal-unmarshal sealed m dst e = marshal_untouched m dst (unmarshal-IsUntouched sealed m e)

  -- A clone counts as unchanged, whatever was set before: after a field of a decoded message has
  -- been set, marshalling a clone of it gives the bytes that came in, without the field.
  pub marshal-clone-set_field :
      (m m' : Message K) (make : FieldDef K → Result K.Cause (Value K)) (de : ℕ) (dst : Bytes)
      → unmarshal sch false wire ≡ ok m
      → set_field sch make de m ≡ (m', none)
      → marshal sch (clone m') dst ≡ ok wire
  unfolding clone
  marshal-clone-set_field m m' make de dst e set_ok =
      let src : m'.src ≡ some wire =
        ap (λ r. r.0.src) (sym set_ok)
        ∙ set_field-src sch make de m
        ∙ (unmarshal-IsUntouched false m e).has_src in
      marshal_untouched (clone m') dst (record { has_src = src; not_owned = refl })

-- What `Get` answers depends on the slot alone.
pub get_value :
    {K : Kinds} (sch : Schema K) (m : Message K) (i : ℕ)
    → (get sch m i).1 ≡ (if leb m.slot_count i then none else value_at sch m.src i (m.slots i))
unfolding get decode_slot
get_value sch m i = ground arith

get_elsewhere :
    {K : Kinds} (sch : Schema K) (m : Message K) (slots : ℕ → Slot K) (i : ℕ)
    → slots i ≡ m.slots i
    → (if leb m.slot_count i then none else value_at sch m.src i (slots i)) ≡ (get sch m i).1
get_elsewhere sch m slots i e =
    ap (λ s. if leb m.slot_count i then none else value_at sch m.src i s) e
    ∙ sym (get_value sch m i)

module _ {K : Kinds} (sch : Schema K) (m : Message K) (de : ℕ) (i : ℕ) where
  -- A slot that was replaced.
  get_put :
      (s : Slot K) (found : Option (Value K))
      → ((i == de) ≡ true → (if leb m.slot_count i then none else value_at sch m.src i s) ≡ found)
      → (if leb m.slot_count i then none else value_at sch m.src i (put_slot de s m.slots i))
        ≡ (if i == de then found else (get sch m i).1)
  get_put s found h = elim (Bool-cases (i == de)) [
    | inl e ↦
        ap (λ x. if leb m.slot_count i then none else value_at sch m.src i x)
          (put_slot-here de i s m.slots e)
        ∙ h e
        ∙ rw e refl
    | inr e ↦
        get_elsewhere sch m (put_slot de s m.slots) i (put_slot-other de i s m.slots e) ∙ rw e refl
  ]

  get-store_value :
      (v : Value K)
      → de < m.slot_count
      → (get sch (store_value de v m) i).1 ≡ (if i == de then some v else (get sch m i).1)
  unfolding store_value set_slot value_at
  get-store_value v low =
      get_value sch (store_value de v m) i
      ∙ get_put (set_slot v (m.slots de)) (some v)
          (λ e. let small : leb m.slot_count i ≡ false = ground arith in rw small refl)

  owned-store_value : (v : Value K) → (store_value de v m).owned ≡ true
  unfolding store_value
  owned-store_value v = refl

  get-drop_slot : (get sch (drop_slot de m) i).1 ≡ (if i == de then none else (get sch m i).1)
  unfolding drop_slot value_at
  get-drop_slot = get_value sch (drop_slot de m) i ∙ get_put empty_slot none (λ e. ground arith)

  -- Nothing is there to be removed.
  get_nothing :
      (leb m.slot_count de || not (m.slots de).present) ≡ true
      → (i == de) ≡ true
      → (get sch m i).1 ≡ none
  unfolding value_at
  get_nothing h e =
      let q : i ≡ de = ground arith in
      get_value sch m i
      ∙ rw q (elim (Bool-cases (leb m.slot_count de)) [
        | inl k ↦ rw k refl
        | inr k ↦ let a : (m.slots de).present ≡ false = ground arith in rw (k, a) refl
      ])

  -- Setting a field of a message that is not sealed, for a data element that the schema and the table have, and a value
  -- that the field accepts: it succeeds, `Get` answers the value there and what it answered before
  -- elsewhere, and `Marshal` does not take the fast path any more.
  pub get-set_field :
      (make : FieldDef K → Result K.Cause (Value K)) (def : FieldDef K) (v : Value K)
      → m.sealed ≡ false
      → field sch de ≡ some def
      → make def ≡ ok v
      → de < m.slot_count
      → (m' : Message K) × ((set_field sch make de m ≡ (m', none))
          × (((get sch m' i).1 ≡ (if i == de then some v else (get sch m i).1))
              × (m'.owned ≡ true)))
  unfolding set_field
  get-set_field make def v open_ is_def made low =
      let small : leb m.slot_count de ≡ false = ground arith in
      (
        store_value de v m,
        (simp (open_, is_def, made, small) refl, (get-store_value v low, owned-store_value v)),
      )

  -- Removing a field: `Get` answers nothing there, and elsewhere what it answered before; a sealed
  -- message stays as it is.
  pub get-unset :
      (get sch (unset de m) i).1 ≡ (if (not m.sealed && i == de) then none else (get sch m i).1)
  unfolding unset
  get-unset = elim (Bool-cases m.sealed) [
    | inl s ↦ ground arith
    | inr s ↦ elim (Bool-cases (leb m.slot_count de || not (m.slots de).present)) [
      | inl h ↦ ground (arith, get_nothing h)
      | inr h ↦ ground (arith, get-drop_slot)
    ]
  ]
