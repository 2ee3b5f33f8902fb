-- ===== src/Engine/Presence.antt =====
-- The bitmap that `Marshal` derives from the slots.
use isopace.Common.{
  ℕ, zero, suc, ◌+◌, ◌-◌, ◌^◌, ◌<◌, ◌≤◌, ◌≡◌, refl, sym, ap, ◌∙◌, Bool, true, false, ◌&&◌, ◌||◌, [],
  ◌++◌, arith, append-nil, inl, inr,
}
use isopace.Common.{◌==◌, ltb, leb, Bool-cases}
use isopace.Common.Bits.Masks.{zero_and}
use isopace.Bitmap.{
  Bitmap, word, word_of, bit_of, empty, set, is_set, range, cont_secondary, cont_tertiary,
}
use isopace.Bitmap.Laws.{InRange, is_set-set}
use isopace.Bitmap.Order.{IsBitmap, is_data, ascending, ascending-append, range-ascending}
use isopace.Bitmap.Fits.{set-IsBitmap, empty-IsBitmap, ascending-congr}
use isopace.Engine.Types.{Kinds}
use isopace.Engine.Message.{Slot}
use isopace.Engine.Codec.{present_bits}

word-empty : (i : ℕ) → word empty i ≡ 0
word-empty zero = refl
word-empty (suc zero) = refl
word-empty (suc (suc i)) = refl

pub empty-is_set : (i : ℕ) → is_set empty i ≡ false
unfolding is_set
empty-is_set i = rw (word-empty (word_of i), zero_and (2 ^ bit_of i)) (ground arith)

ascending-none :
    (p : ℕ → Bool) (n d : ℕ) → ((i : ℕ) → d ≤ i → i < d + n → p i ≡ false) → ascending p n d ≡ []
unfolding ascending
ascending-none p zero d h = refl
ascending-none p (suc n) d h =
    rw (h d (omega arith) (omega arith))
      (ascending-none p n (d + 1) (λ i lo hi. h i (omega arith) (omega arith)))

module _ {K : Kinds} (slots : ℕ → Slot K) where
  pub present_bits-IsBitmap :
      (left de : ℕ) (bm : Bitmap) → IsBitmap bm → IsBitmap (present_bits slots left de bm)
  unfolding present_bits
  present_bits-IsBitmap zero de bm h = h
  present_bits-IsBitmap (suc left) de bm h = elim (Bool-cases (slots de).present) [
    | inl p ↦ rw p (present_bits-IsBitmap left (de + 1) (set de bm) (set-IsBitmap bm de h))
    | inr p ↦ rw p (present_bits-IsBitmap left (de + 1) bm h)
  ]

  pub is_set-present_bits :
      (left de : ℕ) (bm : Bitmap) (i : ℕ)
      → 1 ≤ de
      → de + left ≤ 193
      → InRange i
      → is_set (present_bits slots left de bm) i
        ≡ (is_set bm i || (leb de i && (ltb i (de + left) && (slots i).present)))
  unfolding present_bits
  is_set-present_bits zero de bm i h k r = ground arith
  is_set-present_bits (suc left) de bm i h k r =
      let same : (de == i) ≡ true → (slots de).present ≡ (slots i).present =
        λ e. ap (λ j. (slots j).present) (ground arith) in
      elim (Bool-cases (slots de).present) [
        | inl p ↦ rw p (
            ground (
              arith,
              is_set-present_bits left (de + 1) (set de bm) i (omega arith) (omega arith) r,
              is_set-set bm de i (omega arith) r,
              same,
            ))
        | inr p ↦ rw p (
            ground
              (arith, is_set-present_bits left (de + 1) bm i (omega arith) (omega arith) r, same))
      ]

  -- The bitmap has room for the slots, and none of them stands for a continuation bit.
  pub record HasNoMarks (count : ℕ) : Type 0 where
    pub fits : count ≤ 192
    pub no_secondary : (slots cont_secondary).present ≡ false
    pub no_tertiary : (slots cont_tertiary).present ≡ false

  is_data-present_bits :
      (count : ℕ)
      → HasNoMarks count
      → (i : ℕ) → 1 ≤ i
      → i ≤ 192
      → is_data (present_bits slots count 1 empty) i ≡ (leb i count && (slots i).present)
  unfolding is_data
  is_data-present_bits count h i lo hi =
      let one : (i == cont_secondary) ≡ true → (slots i).present ≡ false = (λ e.
        let q : i ≡ cont_secondary = ground arith in
        ap (λ j. (slots j).present) q ∙ h.no_secondary) in
      let three : (i == cont_tertiary) ≡ true → (slots i).present ≡ false = (λ e.
        let q : i ≡ cont_tertiary = ground arith in
        ap (λ j. (slots j).present) q ∙ h.no_tertiary) in
      ground (
        arith,
        is_set-present_bits count 1 empty i (omega arith) (omega (arith, h.fits)) (lo, hi),
        empty-is_set i,
        one,
        three,
      )

  -- The derived bitmap yields the present slots.
  pub range-present_bits :
      (count : ℕ)
      → HasNoMarks count
      → range (present_bits slots count 1 empty) ≡ ascending (λ i. (slots i).present) count 1
  range-present_bits count h =
      let bm = present_bits slots count 1 empty in
      let all : count + (192 - count) ≡ 192 = omega (arith, h.fits) in
      range-ascending bm (present_bits-IsBitmap count 1 empty empty-IsBitmap)
      ∙ ap (λ n. ascending (is_data bm) n 1) (sym all)
      ∙ sym (ascending-append (is_data bm) count (192 - count) 1 (1 + count) refl)
      ∙ ap (λ l. ascending (is_data bm) count 1 ++ l)
          (ascending-none (is_data bm) (192 - count) (1 + count) (λ i lo hi.
            is_data-present_bits count h i (omega arith) (omega (arith, h.fits)) ∙ ground arith))
      ∙ append-nil (ascending (is_data bm) count 1)
      ∙ ascending-congr (is_data bm) (λ i. (slots i).present) count 1
          (λ i lo hi. is_data-present_bits count h i lo (omega (arith, h.fits)) ∙ ground arith)
