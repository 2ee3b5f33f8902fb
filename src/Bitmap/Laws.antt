-- ===== src/Bitmap/Laws.antt =====
-- `IsSet` after `Set` and `Clear`.
use isopace.Common.{
  ℕ, zero, suc, ◌^◌, ◌<◌, ◌≤◌, ◌≡◌, refl, ap, ◌∙◌, arith, true, false, not, inl, inr, bit_or,
}
use isopace.Common.{◌==◌, if◌then◌else◌, Bool-cases}
use isopace.Common.Bits.Masks.{digit, and_not, test-mask, digit-or, digit-and_not}
use isopace.Bitmap.{Bitmap, word, set_word, word_of, bit_of, is_set, set, clear, max_de}

-- A data element that the bitmap has room for.
abbrev pub InRange : ℕ → Type 0
InRange de = (1 ≤ de) × (de ≤ max_de)

pub is_set-eq :
    (b : Bitmap) (de : ℕ)
    → InRange de
    → is_set b de ≡ not (digit (word b (word_of de)) (bit_of de) == 0)
unfolding is_set
is_set-eq b de h = ground (arith, test-mask (word b (word_of de)) (bit_of de))

-- The word and the bit tell the data element.
same_place : (d e : ℕ) → InRange d → InRange e → word_of d ≡ word_of e → bit_of d ≡ bit_of e → d ≡ e
same_place d e hd he w b = omega arith

by_place :
    (d e hit other : ℕ)
    → InRange d
    → InRange e
    → word_of d ≡ word_of e
    → (if bit_of e == bit_of d then hit else other) ≡ (if d == e then hit else other)
by_place d e hit other hd he w = ground (arith, same_place d e hd he w)

-- A word that was written, and another.
word-set_word :
    (i j v : ℕ) (b : Bitmap)
    → i < 3
    → j < 3
    → word (set_word i v b) j ≡ (if i == j then v else word b j)
word-set_word zero zero v b h k = refl
word-set_word zero (suc zero) v b h k = refl
word-set_word zero (suc (suc j)) v b h k = ground arith
word-set_word (suc zero) zero v b h k = refl
word-set_word (suc zero) (suc zero) v b h k = refl
word-set_word (suc zero) (suc (suc j)) v b h k = ground arith
word-set_word (suc (suc i)) zero v b h k = ground arith
word-set_word (suc (suc i)) (suc zero) v b h k = ground arith
word-set_word (suc (suc i)) (suc (suc j)) v b h k = ground arith

module _ (b : Bitmap) (d e : ℕ) (hd : InRange d) (he : InRange e) where
  word-set : word (set d b) (word_of e) ≡ (
      if word_of d == word_of e
      then bit_or (word b (word_of d)) (2 ^ bit_of d)
      else word b (word_of e))
  unfolding set
  word-set = ground (
    arith,
    word-set_word (word_of d) (word_of e) (bit_or (word b (word_of d)) (2 ^ bit_of d)) b
        (omega arith) (omega arith),
  )

  word-clear : word (clear d b) (word_of e) ≡ (
      if word_of d == word_of e
      then and_not (word b (word_of d)) (2 ^ bit_of d)
      else word b (word_of e))
  unfolding clear
  word-clear = ground (
    arith,
    word-set_word (word_of d) (word_of e) (and_not (word b (word_of d)) (2 ^ bit_of d)) b
        (omega arith) (omega arith),
  )

  -- The digit that `IsSet(e)` reads after `Set(d)` and after `Clear(d)`.
  digit-set :
      digit (word (set d b) (word_of e)) (bit_of e)
      ≡ (if d == e then 1 else digit (word b (word_of e)) (bit_of e))
  digit-set = elim (Bool-cases (word_of d == word_of e)) [
    | inl same ↦
        let w : word_of d ≡ word_of e = ground arith in
        ap (λ x. digit x (bit_of e)) (word-set ∙ rw same (rw w))
        ∙ digit-or (word b (word_of e)) (bit_of d) (bit_of e)
        ∙ by_place d e 1 (digit (word b (word_of e)) (bit_of e)) hd he w
    | inr other ↦
        let x : word (set d b) (word_of e) ≡ word b (word_of e) = word-set ∙ rw other in
        ap (λ x. digit x (bit_of e)) x ∙ ground arith
  ]

  digit-clear :
      digit (word (clear d b) (word_of e)) (bit_of e)
      ≡ (if d == e then 0 else digit (word b (word_of e)) (bit_of e))
  digit-clear = elim (Bool-cases (word_of d == word_of e)) [
    | inl same ↦
        let w : word_of d ≡ word_of e = ground arith in
        ap (λ x. digit x (bit_of e)) (word-clear ∙ rw same (rw w))
        ∙ digit-and_not (word b (word_of e)) (bit_of d) (bit_of e)
        ∙ by_place d e 0 (digit (word b (word_of e)) (bit_of e)) hd he w
    | inr other ↦
        let x : word (clear d b) (word_of e) ≡ word b (word_of e) = word-clear ∙ rw other in
        ap (λ x. digit x (bit_of e)) x ∙ ground arith
  ]

  -- After `Set(d)` the data element `d` is present, and every other is as it was.
  pub is_set-set : is_set (set d b) e ≡ (if d == e then true else is_set b e)
  is_set-set = ground (arith, is_set-eq (set d b) e he, is_set-eq b e he, digit-set)

  -- After `Clear(d)` the data element `d` is absent, and every other is as it was.
  pub is_set-clear : is_set (clear d b) e ≡ (if d == e then false else is_set b e)
  is_set-clear = ground (arith, is_set-eq (clear d b) e he, is_set-eq b e he, digit-clear)
