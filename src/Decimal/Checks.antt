-- ===== src/Decimal/Checks.antt =====
-- `mulCheck` and `addCheck`: the product and the sum, or nothing where they are no int64.
use isopace.Common.{
  ℕ, zero, suc, ◌+◌, ◌-◌, ◌*◌, ◌/◌, ◌%◌, ◌^◌, ◌<◌, ◌≤◌, ◌≡◌, refl, sym, ap, ◌∙◌, arith, inl, inr,
  ◌⊎◌, Bool, true, false, none, some,
}
use isopace.Common.{ltb, ◌==◌, if◌then◌else◌, Bool-cases}
use isopace.Common.Int.{ℤ, pos, negsuc, pos_part, neg_part}
use isopace.Decimal.{
  magnitude, is_negative, signed, eq_int, pattern64, int64_of, mul_check, add_check,
}
use native.Mathlib.Nat.{mul-div_cancel, div-lt_iff_lt-mul, div-le_self, suc-mul, zero-mul}

-- The integers from -2^63 to 2^63 - 1.
abbrev pub fits_int64 : ℤ → Bool
fits_int64 (pos n) = ltb n (2 ^ 63)
fits_int64 (negsuc n) = ltb n (2 ^ 63)

mul_check_pos :
    (n c : ℕ)
    → 1 ≤ n
    → n < 2 ^ 63
    → 1 ≤ c
    → mul_check (pos n) (pos c) ≡ (if ltb (n * c) (2 ^ 63) then some (pos (n * c)) else none)
unfolding mul_check
mul_check_pos n c h k l = elim (Bool-cases (ltb (n * c) (2 ^ 63))) [
  | inl small ↦
      let whole : n * c % 2 ^ 64 ≡ n * c = ground arith in
      let back : n * c % 2 ^ 64 / c ≡ n = ap (λ x. x / c) whole ∙ mul-div_cancel n l in
      ground (arith, whole, back)
  | inr big ↦
      let less = div-lt_iff_lt-mul {x = n * c % 2 ^ 64} {y = n} l in
      let low = div-le_self (n * c % 2 ^ 64) c in ground (arith, less, low)
]

-- A quotient that is too short in magnitude.
quot_short :
    (x n : ℕ)
    → x < suc n
    → n < 2 ^ 63
    → eq_int (int64_of (pattern64 (signed true x))) (negsuc n) ≡ false
quot_short zero n h k = refl
quot_short (suc x) n h k = ground arith

-- The negative number -(n + 1).
mul_check_neg :
    (n c : ℕ)
    → n < 2 ^ 63
    → 1 ≤ c
    → mul_check (negsuc n) (pos c)
      ≡ (if ltb (suc n * c - 1) (2 ^ 63) then some (negsuc (suc n * c - 1)) else none)
unfolding mul_check
mul_check_neg n c k l =
    let m : ℕ = suc n * c - 1 in
    let some_c : 1 ≤ suc n * c = omega (arith, suc-mul n c) in
    let split : suc n * c ≡ suc m = omega arith in
    elim (Bool-cases (ltb m (2 ^ 63))) [
      | inl small ↦
          let whole : m % 2 ^ 64 ≡ m = ground arith in
          let back : suc m / c ≡ suc n = ap (λ x. x / c) (sym split) ∙ mul-div_cancel (suc n) l in
          rw split (ground (arith, whole, back))
      | inr big ↦
          let less = div-lt_iff_lt-mul {x = suc (m % 2 ^ 64)} {y = suc n} l in
          let low = div-le_self (suc (m % 2 ^ 64)) c in
          elim (Bool-cases (ltb (m % 2 ^ 64) (2 ^ 63))) [
            | inl e ↦
                let under : suc (m % 2 ^ 64) / c < suc n = grind (arith, less, split) in
                rw split (ground (arith, quot_short (suc (m % 2 ^ 64) / c) n under k))
            | inr e ↦ rw split (ground arith)
          ]
    ]

-- `addCheck` answers the sum of two int64, which is told by their positive and negative parts, when
-- it is an int64, and refuses it when it is not.
pub add_check_lem :
    (a b : ℤ)
    → fits_int64 a ≡ true
    → fits_int64 b ≡ true
    → ((r : ℤ) × ((add_check a b ≡ some r)
          × ((fits_int64 r ≡ true)
              × (pos_part r + (neg_part a + neg_part b) ≡ neg_part r + (pos_part a + pos_part b)))))
      ⊎ ((add_check a b ≡ none)
          × ((2 ^ 63 ≤ pos_part a + pos_part b) ⊎ (2 ^ 63 < neg_part a + neg_part b)))
unfolding add_check
add_check_lem (pos m) (pos n) h k = elim (Bool-cases (ltb (m + n) (2 ^ 63))) [
  | inl small ↦ inl (pos (m + n), (ground arith, (ground arith, ground arith)))
  | inr big ↦ inr (ground arith, inl (ground arith))
]
add_check_lem (negsuc m) (negsuc n) h k = elim (Bool-cases (ltb (m + n + 1) (2 ^ 63))) [
  | inl small ↦ inl (negsuc (m + n + 1), (ground arith, (ground arith, ground arith)))
  | inr big ↦ inr (ground arith, inr (ground arith))
]
add_check_lem (pos m) (negsuc n) h k = elim (Bool-cases (ltb n m)) [
  | inl more ↦ inl (pos (m - suc n), (ground arith, (ground arith, ground arith)))
  | inr less ↦ inl (negsuc (n - m), (ground arith, (ground arith, ground arith)))
]
add_check_lem (negsuc m) (pos n) h k = elim (Bool-cases (ltb m n)) [
  | inl more ↦ inl (pos (n - suc m), (ground arith, (ground arith, ground arith)))
  | inr less ↦ inl (negsuc (m - n), (ground arith, (ground arith, ground arith)))
]

-- A number times a positive factor.
abbrev pub scaled : ℤ → ℕ → ℤ
scaled a f = signed (is_negative a) (magnitude a * f)

-- `mulCheck` by a positive factor answers the product when it is an int64, and refuses it when it is not.
pub mul_check-scaled :
    (a : ℤ) (c : ℕ)
    → fits_int64 a ≡ true
    → 1 ≤ c
    → mul_check a (pos c) ≡ (if fits_int64 (scaled a c) then some (scaled a c) else none)
unfolding mul_check
mul_check-scaled (pos n) c h l = elim (Bool-cases (n == 0)) [
  | inl z ↦ let q : n ≡ 0 = ground arith in rw (q, zero-mul c) refl
  | inr nz ↦ mul_check_pos n c (ground arith) (ground arith) l
]
mul_check-scaled (negsuc n) c h l =
    let some_c : 1 ≤ suc n * c = omega (arith, suc-mul n c) in
    let split : suc n * c ≡ suc (suc n * c - 1) = omega arith in
    mul_check_neg n c (ground arith) l
    ∙ ap (λ p. if fits_int64 (signed true p) then some (signed true p) else none) (sym split)
