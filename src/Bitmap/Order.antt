-- ===== src/Bitmap/Order.antt =====
-- `Range` yields the present data elements, each once, in ascending order.
use isopace.Common.{
  ℕ, zero, suc, ◌+◌, ◌-◌, ◌*◌, ◌/◌, ◌%◌, ◌^◌, ◌<◌, ◌≤◌, ◌≡◌, refl, ap, ◌∙◌, arith, Bool, false,
  ◌||◌, ◌&&◌, not, inl, inr, List, [], ◌∷◌, ◌++◌, min,
}
use isopace.Common.{◌==◌, if◌then◌else◌, Bool-cases}
use isopace.Common.Bits.Masks.{digit, digit-le, and_not, digit-and_not, and_not_low, digit-zero}
use isopace.Bitmap.{
  Bitmap, word, word_of, bit_of, is_set, leading_zeros, range_word, range, cont_secondary,
  cont_tertiary,
}
use isopace.Bitmap.Laws.{is_set-eq}
use native.Mathlib.Nat.{pow-suc}

lt-digit_zero : (k w : ℕ) → w < 2 ^ suc k → digit w k ≡ 0 → w < 2 ^ k
unfolding digit
lt-digit_zero zero w h e = omega arith
lt-digit_zero (suc k) w h e = omega (
  arith,
  pow-suc 2 k,
  pow-suc 2 (suc k),
  lt-digit_zero k (w / 2) (omega (arith, pow-suc 2 (suc k))) e,
)

digit-high : (k w : ℕ) → w < 2 ^ k → digit w k ≡ 0
unfolding digit
digit-high zero w h = omega arith
digit-high (suc k) w h = digit-high k (w / 2) (omega (arith, pow-suc 2 k))

pow_half : (k : ℕ) → 2 ^ suc k / 2 ≡ 2 ^ k
pow_half k = omega (arith, pow-suc 2 k)

and_not-le : (w n : ℕ) → and_not w n ≤ w
unfolding and_not
and_not-le w n = omega arith

and_not-lt : (k w : ℕ) → w < 2 ^ suc k → and_not w (2 ^ k) < 2 ^ k
and_not-lt zero w h = omega (arith, and_not_low w 1, and_not-le (w / 2) (1 / 2))
and_not-lt (suc k) w h =
    let ih = and_not-lt k (w / 2) (omega (arith, pow-suc 2 (suc k))) in
    let low : and_not w (2 ^ suc k)
        ≡ and_not (w / 2) (2 ^ k) * 2 + (w % 2 - min (w % 2) (2 ^ suc k % 2)) =
      and_not_low w (2 ^ suc k) ∙ rw (pow_half k) in
    omega (arith, low, ih, pow-suc 2 k)

pow_mono : (a b : ℕ) → a ≤ b → 2 ^ a ≤ 2 ^ b
pow_mono a zero h = let e : a ≡ 0 = omega arith in rw e (omega arith)
pow_mono a (suc b) h = elim (Bool-cases (a == suc b)) [
  | inl t ↦ let e : a ≡ suc b = ground arith in rw e (omega arith)
  | inr f ↦ omega (arith, pow-suc 2 b, pow_mono a b (ground arith))
]

-- The first set position from the left.
leading_zeros_lem :
    (left k w : ℕ)
    → k < left
    → left ≤ 64
    → w < 2 ^ suc k
    → digit w k ≡ 1
    → leading_zeros left w ≡ 63 - k
unfolding leading_zeros
leading_zeros_lem zero k w h c b e = absurd (omega arith)
leading_zeros_lem (suc left) k w h c b e = elim (Bool-cases (left == k)) [
  | inl t ↦ let q : left ≡ k = ground arith in rw (q, e) refl
  | inr f ↦
      let lt : k < left = ground arith in
      let z = digit-high left w (omega (arith, pow_mono (suc k) left lt)) in
      rw z (leading_zeros_lem left k w lt (omega arith) b e)
]

-- The data elements of one word by their digits, from the position `left - 1` down.
scan : ℕ → ℕ → ℕ → List ℕ
scan base zero w = []
scan base (suc left) w =
    let de = base + (63 - left) + 1 in
    let rest = scan base left w in
    if digit w left == 1 && not (de == cont_secondary || de == cont_tertiary)
    then de ∷ rest
    else rest

scan-and_not :
    (base left k w : ℕ) → left ≤ k → scan base left (and_not w (2 ^ k)) ≡ scan base left w
unfolding scan
scan-and_not base zero k w h = refl
scan-and_not base (suc left) k w h =
    ground (arith, scan-and_not base left k w, digit-and_not w k left)

word_ne_zero : (w k : ℕ) → digit w k ≡ 1 → (w == 0) ≡ false
word_ne_zero w k e = elim (Bool-cases (w == 0)) [
  | inl t ↦
      let z : w ≡ 0 = ground arith in absurd (omega (arith, digit-zero k, ap (λ x. digit x k) z))
  | inr f ↦ f
]

range_word-zero : (fuel base : ℕ) → range_word fuel base 0 ≡ []
unfolding range_word
range_word-zero zero base = refl
range_word-zero (suc fuel) base = refl

-- One round of the loop at a word whose top digit is at `left`.
range_word_step :
    (fuel base left w : ℕ)
    → left < 64
    → w < 2 ^ suc left
    → digit w left ≡ 1
    → range_word fuel base (and_not w (2 ^ left)) ≡ scan base left w
    → range_word (suc fuel) base w ≡ scan base (suc left) w
unfolding range_word scan
range_word_step fuel base left w c b e ih =
    let lz = leading_zeros_lem 64 left w c (omega arith) b e in
    let back : 63 - (63 - left) ≡ left = omega arith in
    let nz : (w == 0) ≡ false = word_ne_zero w left e in rw (nz, lz, back, e, ih) (ground arith)

zero_digit : (w k : ℕ) → (digit w k == 1) ≡ false → digit w k ≡ 0
zero_digit w k f = ground (arith, digit-le w k)

scan_skip :
    (base left w : ℕ) → (digit w left == 1) ≡ false → scan base left w ≡ scan base (suc left) w
unfolding scan
scan_skip base left w f = rw f

-- The loop of `Range` on one word yields the positions of its digits from the left.
range_word-scan :
    (left fuel base w : ℕ)
    → left ≤ 64
    → left ≤ fuel
    → w < 2 ^ left
    → range_word fuel base w ≡ scan base left w
range_word-scan zero fuel base w h k b =
    let e : w ≡ 0 = omega arith in rw e (range_word-zero fuel base ∙ unfold scan in refl)
range_word-scan (suc left) zero base w h k b = absurd (omega arith)
range_word-scan (suc left) (suc fuel) base w h k b = elim (Bool-cases (digit w left == 1)) [
  | inl t ↦ range_word_step fuel base left w h b (ground arith) (
      range_word-scan left fuel base (and_not w (2 ^ left)) (omega arith) (omega arith)
        (and_not-lt left w b)
      ∙ scan-and_not base left left w (omega arith))
  | inr f ↦
      range_word-scan left (suc fuel) base w (omega arith) (omega arith)
        (lt-digit_zero left w b (zero_digit w left f))
      ∙ scan_skip base left w f
]

-- The numbers of `n` places from `d` on that pass the test, in ascending order.
unfoldable pub ascending : (ℕ → Bool) → ℕ → ℕ → List ℕ
ascending p zero d = []
ascending p (suc n) d = let rest = ascending p n (d + 1) in if p d then d ∷ rest else rest

pub ascending-append :
    (p : ℕ → Bool) (m n d k : ℕ)
    → k ≡ d + m
    → ascending p m d ++ ascending p n k ≡ ascending p (m + n) d
unfolding ascending
ascending-append p zero n d k e =
    let e1 : k ≡ d = omega arith in let e2 : 0 + n ≡ n = omega arith in rw (e1, e2) refl
ascending-append p (suc m) n d k e =
    let e2 : suc m + n ≡ suc (m + n) = omega arith in
    rw e2 (ground (arith, ascending-append p m n (d + 1) k (omega arith)))

-- A present data element that is no continuation bit.
unfoldable pub is_data : Bitmap → ℕ → Bool
is_data b de = is_set b de && not (de == cont_secondary || de == cont_tertiary)

-- The data element of the digit at `left` of word `i`.
is_set-digit :
    (b : Bitmap) (i left de : ℕ)
    → i < 3
    → left < 64
    → de ≡ 64 * i + (63 - left) + 1
    → is_set b de ≡ (digit (word b i) left == 1)
is_set-digit b i left de h k e =
    let w : word_of de ≡ i = omega arith in
    let p : bit_of de ≡ left = omega arith in
    is_set-eq b de (omega arith) ∙ rw (w, p) (ground (arith, digit-le (word b i) left))

scan-ascending :
    (b : Bitmap) (i left : ℕ)
    → i < 3
    → left ≤ 64
    → scan (64 * i) left (word b i) ≡ ascending (is_data b) left (64 * i + (64 - left) + 1)
unfolding scan ascending is_data
scan-ascending b i zero h k = refl
scan-ascending b i (suc left) h k =
    let de : ℕ = 64 * i + (63 - left) + 1 in
    let here : 64 * i + (64 - suc left) + 1 ≡ de = omega arith in
    let after : de + 1 ≡ 64 * i + (64 - left) + 1 = omega arith in
    rw (here, after, is_set-digit b i left de h k refl, scan-ascending b i left h (omega arith))
      refl

-- The words hold 64 bits each.
pub record IsBitmap (b : Bitmap) : Type 0 where
  pub primary_fits : b.primary < 2 ^ 64
  pub secondary_fits : b.secondary < 2 ^ 64
  pub tertiary_fits : b.tertiary < 2 ^ 64

-- One word of `Range`, from the data element `d` on.
word_range :
    (b : Bitmap) (n i base d : ℕ)
    → n ≡ 64
    → i < 3
    → base ≡ 64 * i
    → d ≡ base + 1
    → word b i < 2 ^ n
    → range_word n base (word b i) ≡ ascending (is_data b) n d
word_range b n i base d e h eb ed k =
    let e1 : d ≡ 64 * i + (64 - n) + 1 = omega arith in
    range_word-scan n n base (word b i) (omega arith) (omega arith) k
    ∙ rw (eb, e1) (scan-ascending b i n h (omega arith))

join_words :
    (p : ℕ → Bool) (n : ℕ) (x y z : List ℕ)
    → x ≡ ascending p n 1
    → y ≡ ascending p n (n + 1)
    → z ≡ ascending p n (n + n + 1)
    → x ++ (y ++ z) ≡ ascending p (n + (n + n)) 1
join_words p n x y z ex ey ez =
    rw (ex, ey, ez, ascending-append p n n (n + 1) (n + n + 1) (omega arith))
      (ascending-append p n (n + n) 1 (n + 1) (omega arith))

-- `Range` yields the present data elements 1 to 192, each once and in ascending order, and neither
-- of the continuation bits 1 and 65.
pub range-ascending : (b : Bitmap) → IsBitmap b → range b ≡ ascending (is_data b) 192 1
unfolding range
range-ascending b v =
    join_words (is_data b) 64 _ _ _
      (word_range b 64 0 0 1 refl (omega arith) refl refl v.primary_fits)
      (word_range b 64 1 64 65 refl (omega arith) refl refl v.secondary_fits)
      (word_range b 64 2 128 129 refl (omega arith) refl refl v.tertiary_fits)
