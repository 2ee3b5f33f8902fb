-- ===== src/Engine/Validate/Luhn.antt =====
-- The check digit catches every mistyped digit.
use isopace.Common.{
  ℕ, ◌+◌, ◌%◌, ◌≡◌, ◌≢◌, refl, sym, ap, ◌∙◌, arith, inl, inr, Bool, true, false, not, Option, none,
  some, [], ◌∷◌, ◌++◌,
}
use isopace.Common.{◌==◌, Bytes, length, length-append, Bool-cases}
use isopace.Bcd.{IsDigit}
use isopace.Engine.Types.{Kinds, Value, Attrs, luhn_rule}
use isopace.Engine.Validate.{is_digit, luhn_digit, luhn_step, luhn_loop, luhn_end, luhn, violate}

-- Two states of the loop at the same place, of which the sums differ in their last digit.
abbrev Apart : Option (Bool × ℕ) → Option (Bool × ℕ) → Type 0
Apart none none = Unit
Apart (some (p, s)) (some (q, t)) = (p ≡ q) × ((s % 10 == t % 10) ≡ false)
Apart _ _ = ⊥

luhn_step-Apart :
    (c : ℕ) (x y : Option (Bool × ℕ)) → Apart x y → Apart (luhn_step c x) (luhn_step c y)
luhn_step-Apart c none none h = tt
luhn_step-Apart c none (some y) h = absurd h
luhn_step-Apart c (some x) none h = absurd h
luhn_step-Apart c (some (p, s)) (some (q, t)) (e, h) = elim (Bool-cases (is_digit c)) [
  | inl d ↦ rw d (ap not e, rw e (ground arith))
  | inr d ↦ rw d tt
]

luhn_changed :
    (c d : ℕ) (x : Option (Bool × ℕ))
    → IsDigit c
    → IsDigit d
    → (c == d) ≡ false
    → Apart (luhn_step c x) (luhn_step d x)
luhn_changed c d none hc hd h = tt
luhn_changed c d (some (p, s)) hc hd h =
    let ec : is_digit c ≡ true = ground arith in
    let ed : is_digit d ≡ true = ground arith in rw (ec, ed) (refl, differ p)
  where
    differ : (p : Bool) → ((s + luhn_digit p c) % 10 == (s + luhn_digit p d) % 10) ≡ false
    differ true = ground arith
    differ false = ground arith

luhn_loop-Apart :
    (xs ys : Bytes) (c d : ℕ)
    → IsDigit c
    → IsDigit d
    → (c == d) ≡ false
    → Apart (luhn_loop (xs ++ (c ∷ ys))) (luhn_loop (xs ++ (d ∷ ys)))
unfolding luhn_loop
luhn_loop-Apart [] ys c d hc hd h = luhn_changed c d (luhn_loop ys) hc hd h
luhn_loop-Apart (x ∷ xs) ys c d hc hd h =
    luhn_step-Apart x (luhn_loop (xs ++ (c ∷ ys))) (luhn_loop (xs ++ (d ∷ ys)))
      (luhn_loop-Apart xs ys c d hc hd h)

luhn_end-Apart :
    (x y : Option (Bool × ℕ))
    → Apart x y
    → luhn_end x ≡ none
    → luhn_end y ≡ some (violate luhn_rule)
luhn_end-Apart none y h e = cc
luhn_end-Apart (some x) none h e = refl
luhn_end-Apart (some (p, s)) (some (q, t)) (_, h) e = ground arith

-- When one digit of a value that `Luhn` accepts is replaced by another digit, `Luhn` rejects it.
pub luhn_changed_digit :
    {K : Kinds} (v w : Value K) (def : Attrs) (xs ys : Bytes) (c d : ℕ)
    → v.raw ≡ xs ++ (c ∷ ys)
    → w.raw ≡ xs ++ (d ∷ ys)
    → IsDigit c
    → IsDigit d
    → c ≢ d
    → luhn v def ≡ none
    → luhn w def ≡ some (violate luhn_rule)
unfolding luhn
luhn_changed_digit v w def xs ys c d ev ew hc hd ne accepts =
    let other : (c == d) ≡ false = ground arith in
    let some_v : (length v.raw == 0) ≡ false =
      ground (arith, ap length ev, length-append xs (c ∷ ys)) in
    let some_w : (length w.raw == 0) ≡ false =
      ground (arith, ap length ew, length-append xs (d ∷ ys)) in
    let passes : luhn_end (luhn_loop (xs ++ (c ∷ ys))) ≡ none =
      ap (λ x. luhn_end (luhn_loop x)) (sym ev) ∙ (rw some_v at accepts) in
    rw some_w (
      ap (λ x. luhn_end (luhn_loop x)) ew
      ∙ luhn_end-Apart (luhn_loop (xs ++ (c ∷ ys))) (luhn_loop (xs ++ (d ∷ ys)))
          (luhn_loop-Apart xs ys c d hc hd other) passes)
