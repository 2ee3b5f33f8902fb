-- ===== src/Mux/Keys.antt =====
-- mux.go: `FieldKeyer`, over the codec of the engine.
use isopace.Common.{
  ℕ, ◌≤◌, ◌≡◌, ◌⊎◌, ◌∙◌, refl, sym, ap, inl, inr, Bool, true, false, Option, none, some, List, [],
  ◌∷◌, ◌++◌, Bytes, Result, ok, err, map_err, ◌>>=◌, leb, ◌==◌, if◌then◌else◌, arith, Option-cases,
  Bool-cases, none_ne_some,
}
use isopace.Engine.Types.{Kinds, Value, Schema}
use isopace.Engine.Message.{Message, Slot, Fault, get, decode_slot, memoise, value_at}
use isopace.Engine.Codec.{unmarshal, marshal}
use isopace.Engine.Forward.{get_value}
use isopace.Engine.RoundTrip.{IsBuilt, unmarshal-marshal}
use isopace.Engine.Validate.{value_text}
use mathlib.Core.Path.{subst}

-- The errors of the keyer: of `Unmarshal`, a data element that is absent, and of `String`.
pub data KeyError (K : Kinds) : Type 0 where
  undecodable : ℕ × Fault K → KeyError K
  absent : ℕ → KeyError K
  no_text : KeyError K

-- The text of a data element in front of the rest's.
unfoldable pub add_text :
    {K : Kinds} → Option Bytes → Result (KeyError K) (List Bytes) → Result (KeyError K) (List Bytes)
add_text none rest = err no_text
add_text (some s) rest = rest >>= (λ parts. ok (s ∷ parts))

unfoldable pub add_part :
    {K : Kinds}
    → ℕ
    → Option (Value K)
    → Result (KeyError K) (List Bytes)
    → Result (KeyError K) (List Bytes)
add_part de none rest = err (absent de)
add_part de (some v) rest = add_text (value_text v) rest

-- The loop over the data elements.
unfoldable pub key_parts :
    {K : Kinds} → Schema K → List ℕ → Message K → Result (KeyError K) (List Bytes)
key_parts sch [] m = ok []
key_parts sch (de ∷ des) m = let got = get sch m de in add_part de got.1 (key_parts sch des got.0)

-- `strings.Join(parts, "|")`
unfoldable pub join_bar : List Bytes → Bytes
join_bar [] = []
join_bar (s ∷ []) = s
join_bar (s ∷ t ∷ rest) = s ++ (b'|' ∷ join_bar (t ∷ rest))

-- `FieldKeyer`; `sealed` is the option of the codec.
unfoldable pub field_keyer :
    {K : Kinds} → Schema K → Bool → List ℕ → Bytes → Result (KeyError K) Bytes
field_keyer sch sealed des msg =
    map_err undecodable (unmarshal sch sealed msg)
    >>= (λ m. key_parts sch des m)
    >>= (λ parts. ok (join_bar parts))

-- The texts that a message has at the data elements, each looked up in it as it is.
abbrev pub TextsAt : {K : Kinds} → Message K → ℕ → List ℕ → List Bytes → Type 0
TextsAt m top [] [] = Unit
TextsAt m top (de ∷ des) (s ∷ texts) =
    (1 ≤ de)
    × (de ≤ top)
    × ((m.slots de).present ≡ true)
    × (value_text (m.slots de).v ≡ some s)
    × TextsAt m top des texts
TextsAt m top _ _ = ⊥

module _ {K : Kinds} (sch : Schema K) where
  get_message :
      (m : Message K) (de : ℕ)
      → ((get sch m de).0 ≡ m)
        ⊎ ((x : Value K) × ((get sch m de).0 ≡ memoise de x m)
            × (value_at sch m.src de (m.slots de) ≡ some x))
  unfolding get decode_slot
  get_message m de = elim (Bool-cases (leb m.slot_count de)) [
    | inl h ↦ inl (ap (λ b. (if b then (m, none) else decode_slot sch m de).0) h)
    | inr h ↦ elim (Option-cases (value_at sch m.src de (m.slots de))) [
      | inl q ↦ inl (
          ap (λ b. (if b then (m, none) else decode_slot sch m de).0) h
          ∙ ap (λ o. elim o as (λ _. Message K) [ none ↦ m | some x ↦ memoise de x m ]) q)
      | inr (x, q) ↦ inr (
        x,
        ap (λ b. (if b then (m, none) else decode_slot sch m de).0) h
            ∙ ap (λ o. elim o as (λ _. Message K) [ none ↦ m | some x ↦ memoise de x m ]) q,
        q,
      )
    ]
  ]

  value_present :
      (src : Option Bytes) (de : ℕ) (s : Slot K) (x : Value K)
      → value_at sch src de s ≡ some x
      → value_at sch src de (record s { v = x; decoded = true }) ≡ some x
  unfolding value_at
  value_present src de s x q = elim (Bool-cases s.present) [
    | inl p ↦ simp (value_at, p)
    | inr p ↦
        let n : value_at sch src de s ≡ none = simp (value_at, p) in
        absurd (none_ne_some (sym n ∙ q))
  ]

  get-memoise :
      (m : Message K) (de i : ℕ) (x : Value K)
      → value_at sch m.src de (m.slots de) ≡ some x
      → (get sch (memoise de x m) i).1 ≡ (get sch m i).1
  unfolding memoise
  get-memoise m de i x q =
      get_value sch (memoise de x m) i ∙ go (i == de) refl ∙ sym (get_value sch m i)
    where
      s : Slot K
      s = record (m.slots de) { v = x; decoded = true }

      same : i ≡ de → value_at sch m.src i s ≡ value_at sch m.src i (m.slots i)
      same e =
          subst (λ j. value_at sch m.src j s ≡ value_at sch m.src j (m.slots j)) (sym e)
            (value_present m.src de (m.slots de) x q ∙ sym q)

      go :
          (b : Bool)
          → (i == de) ≡ b
          → (if leb m.slot_count i then none else value_at sch m.src i (if b then s else m.slots i))
            ≡ (if leb m.slot_count i then none else value_at sch m.src i (m.slots i))
      go true e = ap (λ o. if leb m.slot_count i then none else o) (same (ground arith))
      go false e = refl

  -- What `Get` answers is the same after another `Get`.
  get-get : (m : Message K) (de i : ℕ) → (get sch (get sch m de).0 i).1 ≡ (get sch m i).1
  get-get m de i = elim (get_message m de) [
    | inl e ↦ ap (λ n. (get sch n i).1) e
    | inr (x, e, q) ↦ ap (λ n. (get sch n i).1) e ∙ get-memoise m de i x q
  ]

  Answers : Message K → Message K → Type 0
  Answers got m =
      (de : ℕ)
      → 1 ≤ de
      → de ≤ sch.max_de
      → (get sch got de).1 ≡ (if (m.slots de).present then some (m.slots de).v else none)

  key_parts-TextsAt :
      (m : Message K) (des : List ℕ) (texts : List Bytes) (got : Message K)
      → Answers got m
      → TextsAt m sch.max_de des texts
      → key_parts sch des got ≡ ok texts
  unfolding key_parts Answers add_part add_text
  key_parts-TextsAt m [] [] got a t = refl
  key_parts-TextsAt m [] (s ∷ texts) got a t = absurd t
  key_parts-TextsAt m (de ∷ des) [] got a t = absurd t
  key_parts-TextsAt m (de ∷ des) (s ∷ texts) got a (lo, hi, there, text, more) =
      let found : (get sch got de).1 ≡ some (m.slots de).v = a de lo hi ∙ rw there refl in
      let rest =
        key_parts-TextsAt m des texts (get sch got de).0 (λ d l h. get-get got de d ∙ a d l h)
          more in
      ap (λ o. add_part de o (key_parts sch des (get sch got de).0)) found
      ∙ ap (λ o. add_text o (key_parts sch des (get sch got de).0)) text
      ∙ ap (add_text (some s)) rest

  key_of_message :
      (sealed : Bool) (m : Message K) (des : List ℕ) (texts : List Bytes)
      → IsBuilt sch m
      → TextsAt m sch.max_de des texts
      → (wire : Bytes) × (marshal sch m [] ≡ ok wire)
        × (field_keyer sch sealed des wire ≡ ok (join_bar texts))
  unfolding field_keyer Answers
  key_of_message sealed m des texts b t =
      let back = unmarshal-marshal sch sealed m b in
      let parts = key_parts-TextsAt m des texts back.got back.get_field t in
      (back.wire, back.marshals, rw (field_keyer, back.unmarshals, parts) refl)

  -- Two messages, as a request and its response, that are fresh, whose values their codecs write
  -- and read back just as they are, padding included, and whose data elements the bitmap codec
  -- reads back; and that have the same text at each of the data elements that the keyer is made
  -- for: both are marshalled, and the keyer gives both frames the same key, those texts with bars
  -- between them.
  pub field_keyer-marshal :
      (sealed : Bool) (request response : Message K) (des : List ℕ) (texts : List Bytes)
      → IsBuilt sch request
      → IsBuilt sch response
      → TextsAt request sch.max_de des texts
      → TextsAt response sch.max_de des texts
      → (sent got : Bytes) × (marshal sch request [] ≡ ok sent)
        × (marshal sch response [] ≡ ok got)
        × (field_keyer sch sealed des sent ≡ ok (join_bar texts))
        × (field_keyer sch sealed des got ≡ ok (join_bar texts))
  field_keyer-marshal sealed q r des texts bq br tq tr =
      let (sent, ms, ks) = key_of_message sealed q des texts bq tq in
      let (got, mg, kg) = key_of_message sealed r des texts br tr in (sent, got, ms, mg, ks, kg)
