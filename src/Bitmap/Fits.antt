-- ===== src/Bitmap/Fits.antt =====
-- Bitmaps of three 64-bit words stay so.
use isopace.Common.{
  ℕ, zero, suc, ◌+◌, ◌/◌, ◌^◌, ◌<◌, ◌≤◌, ◌≡◌, refl, Bool, ◌||◌, arith, inl, inr, bit_or,
}
use isopace.Common.{◌==◌, ltb, Bool-cases}
use isopace.Common.Bits.Digits.{bit_or_low}
use isopace.Bitmap.{Bitmap, word, set_word, word_of, bit_of, empty, set, max_de}
use isopace.Bitmap.Order.{IsBitmap, ascending}
use native.Mathlib.Nat.{pow-suc, one-le-pow}

bit_or-lt : (n x y : ℕ) → x < 2 ^ n → y < 2 ^ n → bit_or x y < 2 ^ n
bit_or-lt zero x y h k =
    let ex : x ≡ 0 = omega arith in let ey : y ≡ 0 = omega arith in rw (ex, ey) (omega arith)
bit_or-lt (suc n) x y h k = omega (
  arith,
  bit_or_low x y,
  bit_or-lt n (x / 2) (y / 2) (omega (arith, pow-suc 2 n)) (omega (arith, pow-suc 2 n)),
  pow-suc 2 n,
)

pow_lt : (n k : ℕ) → k < n → 2 ^ k < 2 ^ n
pow_lt zero k h = absurd (omega arith)
pow_lt (suc n) k h = elim (Bool-cases (k == n)) [
  | inl e ↦ let q : k ≡ n = ground arith in rw q (omega (arith, pow-suc 2 n, one-le-pow n 2))
  | inr e ↦ omega (arith, pow-suc 2 n, pow_lt n k (ground arith))
]

word-fits : (b : Bitmap) (i : ℕ) → IsBitmap b → word b i < 2 ^ 64
word-fits b zero h = h.primary_fits
word-fits b (suc zero) h = h.secondary_fits
word-fits b (suc (suc i)) h = h.tertiary_fits

set_word-IsBitmap : (b : Bitmap) (i v : ℕ) → v < 2 ^ 64 → IsBitmap b → IsBitmap (set_word i v b)
set_word-IsBitmap b zero v k h = record {
  primary_fits = k;
  secondary_fits = h.secondary_fits;
  tertiary_fits = h.tertiary_fits;
}
set_word-IsBitmap b (suc zero) v k h = record {
  primary_fits = h.primary_fits;
  secondary_fits = k;
  tertiary_fits = h.tertiary_fits;
}
set_word-IsBitmap b (suc (suc i)) v k h = record {
  primary_fits = h.primary_fits;
  secondary_fits = h.secondary_fits;
  tertiary_fits = k;
}

pub set-IsBitmap : (b : Bitmap) (de : ℕ) → IsBitmap b → IsBitmap (set de b)
unfolding set
set-IsBitmap b de h = elim (Bool-cases (ltb de 1 || ltb max_de de)) [
  | inl out ↦ rw out h
  | inr inside ↦ rw inside (
      set_word-IsBitmap b (word_of de) _
        (bit_or-lt 64 (word b (word_of de)) (2 ^ bit_of de) (word-fits b (word_of de) h)
          (pow_lt 64 (bit_of de) (omega arith)))
        h)
]

pub empty-IsBitmap : IsBitmap empty
empty-IsBitmap = record {
  primary_fits = omega arith;
  secondary_fits = omega arith;
  tertiary_fits = omega arith;
}

pub ascending-congr :
    (p q : ℕ → Bool) (n d : ℕ)
    → ((i : ℕ) → d ≤ i → i < d + n → p i ≡ q i)
    → ascending p n d ≡ ascending q n d
unfolding ascending
ascending-congr p q zero d h = refl
ascending-congr p q (suc n) d h =
    rw
      (
        h d (omega arith) (omega arith),
        ascending-congr p q n (d + 1) (λ i lo hi. h i (omega arith) (omega arith)),
      )
      refl

pub set-secondary : (b : Bitmap) (de : ℕ) → de ≤ 64 → (set de b).secondary ≡ b.secondary
unfolding set
set-secondary b de h = elim (Bool-cases (ltb de 1 || ltb max_de de)) [
  | inl out ↦ rw out refl
  | inr inside ↦ let w : word_of de ≡ 0 = omega arith in rw (inside, w) refl
]

pub set-tertiary : (b : Bitmap) (de : ℕ) → de ≤ 128 → (set de b).tertiary ≡ b.tertiary
unfolding set
set-tertiary b de h = elim (Bool-cases (ltb de 1 || ltb max_de de)) [
  | inl out ↦ rw out refl
  | inr inside ↦ elim (Bool-cases (ltb de 65)) [
    | inl low ↦ let w : word_of de ≡ 0 = ground arith in rw (inside, w) refl
    | inr high ↦ let w : word_of de ≡ 1 = ground arith in rw (inside, w) refl
  ]
]
