-- ===== src/Engine/Built.antt =====
-- Messages that are built from nothing by `Set`, `Unset`, `Seal` and `Clone`.
use isopace.Common.{
  ℕ, ◌+◌, ◌≡◌, refl, sym, ◌∙◌, Bool, true, false, ◌||◌, none, some, arith, inl, inr, ◌⊎◌,
}
use isopace.Common.{◌==◌, leb, Result, ok, Bool-cases, Option-cases, Result-cases}
use isopace.Bitmap.{cont_secondary, cont_tertiary}
use isopace.Engine.Types.{Kinds, Value, FieldDef, Schema}
use isopace.Engine.Message.{
  Slot, Message, empty_slot, new_message, put_slot, field, set_field, set_slot, store_value,
  drop_slot, unset, seal, clone,
}
use isopace.Engine.Fields.{IsWritable}
use isopace.Engine.Loops.{true_ne_false, Defined, put_slot-here, put_slot-other}
use mathlib.Core.Path.{subst}

-- What `Set` is given for a data element: what comes of it, the field can carry.
abbrev pub IsCarriable :
    {K : Kinds} → Schema K → (FieldDef K → Result K.Cause (Value K)) → ℕ → Type 0
IsCarriable {K} sch make de =
    (def : FieldDef K) (v : Value K) → field sch de ≡ some def → make def ≡ ok v → IsWritable def v

abbrev pub is_mark : ℕ → Bool
is_mark de = de == cont_secondary || de == cont_tertiary

-- How messages are built. A `Set` that fails is a step as well.
pub data Built {K : Kinds} (sch : Schema K) : Message K → Type 0 where
  new_step : Built sch (new_message sch)
  set_step :
      {m : Message K} (make : FieldDef K → Result K.Cause (Value K)) (de : ℕ)
      → is_mark de ≡ false
      → IsCarriable sch make de
      → Built sch m
      → Built sch (set_field sch make de m).0
  unset_step : {m : Message K} (de : ℕ) → Built sch m → Built sch (unset de m)
  seal_step : {m : Message K} → Built sch m → Built sch (seal m)
  clone_step : {m : Message K} → Built sch m → Built sch (clone m)

-- The invariant of such messages.
pub record IsSound {K : Kinds} (sch : Schema K) (m : Message K) : Type 0 where
  pub no_source : m.src ≡ none
  pub counted : m.slot_count ≡ sch.max_de + 1
  pub no_marks : (i : ℕ) → is_mark i ≡ true → (m.slots i).present ≡ false
  pub fields_defined : (i : ℕ) → (m.slots i).present ≡ true → Defined sch i (m.slots i).v

-- A slot that satisfies the invariant.
pub record IsSlot {K : Kinds} (sch : Schema K) (i : ℕ) (s : Slot K) : Type 0 where
  pub unmarked : is_mark i ≡ true → s.present ≡ false
  pub defined : s.present ≡ true → Defined sch i s.v

module _ {K : Kinds} (sch : Schema K) where
  slots-IsSlot : (m : Message K) (i : ℕ) → IsSound sch m → IsSlot sch i (m.slots i)
  slots-IsSlot m i h = record { unmarked = h.no_marks i; defined = h.fields_defined i }

  -- A table in which one slot is replaced.
  put_slot-IsSlot :
      (m : Message K) (de : ℕ) (s : Slot K) (i : ℕ)
      → IsSound sch m
      → IsSlot sch de s
      → IsSlot sch i (put_slot de s m.slots i)
  put_slot-IsSlot m de s i h k = elim (Bool-cases (i == de)) [
    | inl e ↦
        subst (IsSlot sch i) (sym (put_slot-here de i s m.slots e))
          (let q : i ≡ de = ground arith in subst (λ j. IsSlot sch j s) (sym q) k)
    | inr e ↦ subst (IsSlot sch i) (sym (put_slot-other de i s m.slots e)) (slots-IsSlot m i h)
  ]

  -- What a `Set` leaves: the message as it was, or with the value.
  set_field-cases :
      (make : FieldDef K → Result K.Cause (Value K)) (de : ℕ) (m : Message K)
      → ((set_field sch make de m).0 ≡ m)
        ⊎ ((def : FieldDef K) × ((v : Value K) × ((field sch de ≡ some def)
                × ((make def ≡ ok v) × ((set_field sch make de m).0 ≡ store_value de v m)))))
  unfolding set_field
  set_field-cases make de m = elim (Bool-cases m.sealed) [
    | inl s ↦ inl (simp s refl)
    | inr s ↦ elim (Option-cases (field sch de)) [
      | inl f ↦ inl (simp (s, f) refl)
      | inr (def, f) ↦ elim (Result-cases (make def)) [
        | inl (v, e) ↦ elim (Bool-cases (leb m.slot_count de)) [
          | inl out ↦ inl (simp (s, f, e, out) refl)
          | inr low ↦ inr (def, (v, (f, (e, simp (s, f, e, low) refl))))
        ]
        | inr (c, e) ↦ inl (simp (s, f, e) refl)
      ]
    ]
  ]

  store_value-IsSound :
      (m : Message K) (de : ℕ) (v : Value K)
      → is_mark de ≡ false
      → Defined sch de v
      → IsSound sch m
      → IsSound sch (store_value de v m)
  unfolding store_value set_slot
  store_value-IsSound m de v mark d h =
      let slot : (i : ℕ) → IsSlot sch i (put_slot de (set_slot v (m.slots de)) m.slots i) = (λ i.
        put_slot-IsSlot m de (set_slot v (m.slots de)) i h
          (record { unmarked = λ e. absurd (true_ne_false (sym e ∙ mark)); defined = λ e. d })) in
      record {
        no_source = h.no_source;
        counted = h.counted;
        no_marks = λ i. (slot i).unmarked;
        fields_defined = λ i. (slot i).defined;
      }

  drop_slot-IsSound : (m : Message K) (de : ℕ) → IsSound sch m → IsSound sch (drop_slot de m)
  unfolding drop_slot
  drop_slot-IsSound m de h =
      let slot : (i : ℕ) → IsSlot sch i (put_slot de empty_slot m.slots i) = (λ i.
        put_slot-IsSlot m de empty_slot i h
          (record { unmarked = λ e. refl; defined = λ e. absurd (true_ne_false (sym e)) })) in
      record {
        no_source = h.no_source;
        counted = h.counted;
        no_marks = λ i. (slot i).unmarked;
        fields_defined = λ i. (slot i).defined;
      }

  unset-IsSound : (m : Message K) (de : ℕ) → IsSound sch m → IsSound sch (unset de m)
  unfolding unset
  unset-IsSound m de h = elim (Bool-cases (m.sealed || leb m.slot_count de)) [
    | inl out ↦ rw out h
    | inr low ↦ elim (Bool-cases (m.slots de).present) [
      | inl p ↦ rw (low, p) (drop_slot-IsSound m de h)
      | inr p ↦ rw (low, p) h
    ]
  ]

  set_field-IsSound :
      (m : Message K) (make : FieldDef K → Result K.Cause (Value K)) (de : ℕ)
      → is_mark de ≡ false
      → IsCarriable sch make de
      → IsSound sch m
      → IsSound sch (set_field sch make de m).0
  set_field-IsSound m make de mark carries h = elim (set_field-cases make de m) [
    | inl e ↦ subst (IsSound sch) (sym e) h
    | inr (def, (v, (f, (made, e)))) ↦ subst (IsSound sch) (sym e) (
        store_value-IsSound m de v mark
          (record { def = def; is_def = f; writable = carries def v f made }) h)
  ]

  -- Every message that is built so has no source, as many slots as the schema asks for, no slot that stands for a
  -- continuation bit, and at every present slot a value that its field can carry.
  pub Built-IsSound : {m : Message K} → Built sch m → IsSound sch m
  unfolding new_message seal clone
  Built-IsSound new_step = record {
    no_source = refl;
    counted = refl;
    no_marks = λ i e. refl;
    fields_defined = λ i e. absurd (true_ne_false (sym e));
  }
  Built-IsSound (set_step {m} make de mark carries b) =
      set_field-IsSound m make de mark carries (Built-IsSound b)
  Built-IsSound (unset_step {m} de b) = unset-IsSound m de (Built-IsSound b)
  Built-IsSound (seal_step b) =
      let h = Built-IsSound b in
      record {
        no_source = h.no_source;
        counted = h.counted;
        no_marks = h.no_marks;
        fields_defined = h.fields_defined;
      }
  Built-IsSound (clone_step b) =
      let h = Built-IsSound b in
      record {
        no_source = h.no_source;
        counted = h.counted;
        no_marks = h.no_marks;
        fields_defined = h.fields_defined;
      }
