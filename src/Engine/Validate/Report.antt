-- ===== src/Engine/Validate/Report.antt =====
-- The report of `Validate` against the violations of each field by itself.
use isopace.Common.{
  ℕ, zero, suc, ◌+◌, ◌≤◌, ◌≡◌, refl, sym, ap, ◌∙◌, arith, inl, inr, Bool, true, false, Option, none,
  some, List, [], ◌++◌,
}
use isopace.Common.{leb, if◌then◌else◌, Bytes, Bool-cases, Option-cases}
use isopace.Engine.Types.{Kinds, Value, Violation, Schema}
use isopace.Engine.Message.{Message, field, has, get, decode_slot, memoise, value_at}
use isopace.Engine.Loops.{put_slot-other}
use isopace.Engine.Forward.{get_value}
use isopace.Engine.Validate.{mti_text, field_violations, validate_loop, validate}
use mathlib.Core.Path.{subst}

-- Messages that answer the same from data element `k` on.
record SameFrom {K : Kinds} (k : ℕ) (m m' : Message K) : Type 0 where
  same_src : m'.src ≡ m.src
  same_count : m'.slot_count ≡ m.slot_count
  same_slots : (i : ℕ) → k ≤ i → m'.slots i ≡ m.slots i

same_self : {K : Kinds} (k : ℕ) (m : Message K) → SameFrom k m m
same_self k m = record { same_src = refl; same_count = refl; same_slots = λ i h. refl }

module _ {K : Kinds} (sch : Schema K) where
  memoise-SameFrom : (m : Message K) (de : ℕ) (v : Value K) → SameFrom (de + 1) m (memoise de v m)
  unfolding memoise
  memoise-SameFrom m de v = record {
    same_src = refl;
    same_count = refl;
    same_slots = λ i h. put_slot-other de i _ m.slots (ground arith);
  }

  -- `Get` leaves the other fields as they were.
  get-SameFrom : (m : Message K) (de : ℕ) → SameFrom (de + 1) m (get sch m de).0
  unfolding get decode_slot
  get-SameFrom m de = elim (Bool-cases (leb m.slot_count de)) [
    | inl out ↦
        subst (SameFrom (de + 1) m) (ap (λ r. r.0) (sym (answer_out out))) (same_self (de + 1) m)
    | inr low ↦
        subst (SameFrom (de + 1) m) (ap (λ r. r.0) (sym (answer_low low)))
          (filled (value_at sch m.src de (m.slots de)))
  ]
    where
      answer_out : leb m.slot_count de ≡ true → get sch m de ≡ (m, none)
      answer_out out = simp out refl

      answer_low : leb m.slot_count de ≡ false → get sch m de ≡ decode_slot sch m de
      answer_low low = simp low refl

      filled :
          (o : Option (Value K))
          → SameFrom (de + 1) m (elim o [ none ↦ m | some x ↦ memoise de x m ])
      filled none = same_self (de + 1) m
      filled (some x) = memoise-SameFrom m de x

  has_same : (k : ℕ) (m m' : Message K) (i : ℕ) → SameFrom k m m' → k ≤ i → has m' i ≡ has m i
  unfolding has
  has_same k m m' i s h =
      ap (λ n. if leb n i then false else (m'.slots i).present) s.same_count
      ∙ ap (λ x. if leb m.slot_count i then false else x.present) (s.same_slots i h)

  get_same :
      (k : ℕ) (m m' : Message K) (i : ℕ)
      → SameFrom k m m'
      → k ≤ i
      → (get sch m' i).1 ≡ (get sch m i).1
  get_same k m m' i s h =
      get_value sch m' i
      ∙ ap (λ n. if leb n i then none else value_at sch m'.src i (m'.slots i)) s.same_count
      ∙ ap (λ o. if leb m.slot_count i then none else value_at sch o i (m'.slots i)) s.same_src
      ∙ ap (λ x. if leb m.slot_count i then none else value_at sch m.src i x) (s.same_slots i h)
      ∙ sym (get_value sch m i)

  -- The violations of the fields, each told from the message as it is.
  abbrev pub violations_at : Bytes → Message K → ℕ → List Violation
  violations_at mti m de = elim (field sch de) [
    | none ↦ []
    | some def ↦ field_violations mti def de (has m de) (get sch m de).1
  ]

  abbrev pub all_violations : Bytes → Message K → ℕ → ℕ → List Violation
  all_violations mti m zero de = []
  all_violations mti m (suc left) de = violations_at mti m de ++ all_violations mti m left (de + 1)

  violations_same :
      (mti : Bytes) (k : ℕ) (m m' : Message K) (i : ℕ)
      → SameFrom k m m'
      → k ≤ i
      → violations_at mti m' i ≡ violations_at mti m i
  violations_same mti k m m' i s h =
      ap
        (λ b. elim (field sch i) [
          | none ↦ []
          | some def ↦ field_violations mti def i b (get sch m' i).1
        ])
        (has_same k m m' i s h)
      ∙ ap
          (λ o. elim (field sch i) [
            | none ↦ []
            | some def ↦ field_violations mti def i (has m i) o
          ])
          (get_same k m m' i s h)

  all_same :
      (mti : Bytes) (k : ℕ) (m m' : Message K) (left de : ℕ)
      → SameFrom k m m'
      → k ≤ de
      → all_violations mti m' left de ≡ all_violations mti m left de
  all_same mti k m m' zero de s h = refl
  all_same mti k m m' (suc left) de s h =
      ap (λ x. x ++ all_violations mti m' left (de + 1)) (violations_same mti k m m' de s h)
      ∙ ap (λ x. violations_at mti m de ++ x) (all_same mti k m m' left (de + 1) s (omega arith))

  validate_loop_lem :
      (mti : Bytes) (left de : ℕ) (m : Message K)
      → (validate_loop sch mti left de m).1 ≡ all_violations mti m left de
  unfolding validate_loop
  validate_loop_lem mti zero de m = refl
  validate_loop_lem mti (suc left) de m = elim (Option-cases (field sch de)) [
    | inl q ↦ rw (validate_loop, violations_at, q) (validate_loop_lem mti left (de + 1) m)
    | inr (def, q) ↦
        let m' = if has m de then (get sch m de).0 else m in
        rw (validate_loop, violations_at, q)
          (ap (λ x. field_violations mti def de (has m de) (get sch m de).1 ++ x)
            (validate_loop_lem mti left (de + 1) m'
              ∙ all_same mti (de + 1) m m' left (de + 1) (next (has m de)) (omega arith)))
  ]
    where
      next : (b : Bool) → SameFrom (de + 1) m (if b then (get sch m de).0 else m)
      next true = get-SameFrom m de
      next false = same_self (de + 1) m

  -- `Validate` reports, in the order of the data elements, the violations of every field of the
  -- schema, each as it is by itself: filling in values along the way changes nothing in the report, and no
  -- violation ends the loop.
  pub validate-violations :
      (m : Message K)
      → (validate sch m).1 ≡ all_violations (mti_text (get sch m 0).1) m sch.max_de 1
  unfolding validate
  validate-violations m =
      let mti = mti_text (get sch m 0).1 in
      validate_loop_lem mti sch.max_de 1 (get sch m 0).0
      ∙ all_same mti 1 m (get sch m 0).0 sch.max_de 1 (get-SameFrom m 0) (omega arith)
