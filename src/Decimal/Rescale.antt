-- ===== src/Decimal/Rescale.antt =====
-- `Rescale`: the same number at another scale.
use isopace.Common.{
  ℕ, zero, suc, ◌-◌, ◌*◌, ◌/◌, ◌%◌, ◌^◌, ◌<◌, ◌≤◌, ◌≡◌, refl, sym, ap, ◌∙◌, arith, inl, inr, Bool,
  true, false, some,
}
use isopace.Common.{ltb, ◌==◌, if◌then◌else◌, Bool-cases, ok, err, ok_injective, err_ne_ok}
use isopace.Common.Int.{ℤ, pos, negsuc}
use isopace.Engine.Types.{Decimal}
use isopace.Decimal.{
  decimal_overflow, scale_too_large, magnitude, is_negative, signed, pattern64, int64_of, quot64,
  pow10_loop, pow10, rescale, max_scale,
}
use isopace.Decimal.Checks.{fits_int64, scaled, mul_check-scaled}
use native.Mathlib.Nat.{
  mul-div_cancel, suc-mul, pow-suc, one-le-pow, mul_assoc, one-mul, mul-mod_left,
}

pow10_loop_lem : (n r : ℕ) → pow10_loop n r ≡ r * 10 ^ n
unfolding pow10_loop
pow10_loop_lem zero r = omega arith
pow10_loop_lem (suc n) r =
    pow10_loop_lem n (r * 10)
    ∙ mul_assoc r 10 (10 ^ n)
    ∙ ap (λ x. r * x) (omega (arith, pow-suc 10 n))

pow10_lem : (n : ℕ) → n ≤ 18 → pow10 n ≡ some (10 ^ n)
unfolding pow10
pow10_lem n h =
    let small : ltb max_scale n ≡ false = ground arith in
    rw (small, pow10_loop_lem n 1, one-mul (10 ^ n)) refl

int64_of-pattern64 : (a : ℤ) → fits_int64 a ≡ true → int64_of (pattern64 a) ≡ a
int64_of-pattern64 (pos n) h = ground arith
int64_of-pattern64 (negsuc n) h = ground arith

quot64-scaled : (a : ℤ) (f : ℕ) → 1 ≤ f → fits_int64 a ≡ true → quot64 (scaled a f) (pos f) ≡ a
quot64-scaled (pos n) f l h = rw (mul-div_cancel n l) (int64_of-pattern64 (pos n) h)
quot64-scaled (negsuc n) f l h =
    let some_f : 1 ≤ suc n * f = omega (arith, suc-mul n f) in
    let split : suc n * f ≡ suc (suc n * f - 1) = omega arith in
    ap (λ p. quot64 (signed true p) (pos f)) split
    ∙ ap (λ x. int64_of (pattern64 (signed true x)))
        (ap (λ x. x / f) (sym split) ∙ mul-div_cancel (suc n) l)
    ∙ int64_of-pattern64 (negsuc n) h

magnitude-signed : (b : Bool) (n : ℕ) → magnitude (signed b n) ≡ n
magnitude-signed false n = refl
magnitude-signed true zero = refl
magnitude-signed true (suc n) = refl

factor_pos : (n : ℕ) → 1 ≤ 10 ^ n
factor_pos n = omega (arith, one-le-pow n 10)

scaled_one : (a : ℤ) → scaled a 1 ≡ a
scaled_one (pos n) = ap pos (omega arith)
scaled_one (negsuc n) = let e : suc n * 1 ≡ suc n = omega arith in ap (signed true) e

module _ (d : Decimal) (fits : fits_int64 d.unscaled ≡ true) (s : ℕ) where
  abbrev factor : ℕ
  factor = 10 ^ (s - d.scale)

  abbrev raised : Decimal
  raised = record { unscaled = scaled d.unscaled factor; scale = s }

  rescale_strict :
      d.scale < s
      → s ≤ 18
      → rescale d s
        ≡ (if fits_int64 (scaled d.unscaled factor) then ok raised else err decimal_overflow)
  unfolding rescale
  rescale_strict more low =
      let small : ltb max_scale s ≡ false = ground arith in
      let other : (s == d.scale) ≡ false = ground arith in
      let up : ltb d.scale s ≡ true = ground arith in
      let p = pow10_lem (s - d.scale) (omega arith) in
      let m = mul_check-scaled d.unscaled factor fits (factor_pos (s - d.scale)) in
      elim (Bool-cases (fits_int64 (scaled d.unscaled factor))) [
        | inl e ↦ simp (small, other, up, p, m, e) refl
        | inr e ↦ simp (small, other, up, p, m, e) refl
      ]

  rescale_same : s ≡ d.scale → s ≤ 18 → rescale d s ≡ ok d
  unfolding rescale
  rescale_same e low =
      let small : ltb max_scale s ≡ false = ground arith in
      let same : (s == d.scale) ≡ true = ground arith in simp (small, same) refl

  -- An int64 at a larger scale, of at most 18, is multiplied by the power of ten, and refused where
  -- the product is no int64.
  pub rescale_up :
      d.scale ≤ s
      → s ≤ 18
      → rescale d s ≡ (
          if fits_int64 (scaled d.unscaled (10 ^ (s - d.scale)))
          then ok (record { unscaled = scaled d.unscaled (10 ^ (s - d.scale)); scale = s })
          else err decimal_overflow)
  rescale_up le low = elim (Bool-cases (ltb d.scale s)) [
    | inl more ↦ rescale_strict (ground arith) low
    | inr not_more ↦
        let e : s ≡ d.scale = ground arith in
        let none_more : s - d.scale ≡ 0 = omega arith in
        let one : 10 ^ (s - d.scale) ≡ 1 = ap (λ k. 10 ^ k) none_more in
        let same : scaled d.unscaled (10 ^ (s - d.scale)) ≡ d.unscaled =
          ap (scaled d.unscaled) one ∙ scaled_one d.unscaled in
        rescale_same e low
        ∙ ap (λ k. ok (record { unscaled = d.unscaled; scale = k })) (sym e)
        ∙ sym (
            ap
              (λ u.
                if fits_int64 u
                then ok (record { unscaled = u; scale = s })
                else err decimal_overflow)
              same
            ∙ rw fits refl)
  ]

  rescale_down : d.scale < s → s ≤ 18 → rescale raised d.scale ≡ ok d
  unfolding rescale
  rescale_down more low =
      let small : ltb max_scale d.scale ≡ false = ground arith in
      let other : (d.scale == s) ≡ false = ground arith in
      let down : ltb s d.scale ≡ false = ground arith in
      let p = pow10_lem (s - d.scale) (omega arith) in
      let no_rest : (magnitude (scaled d.unscaled factor) % factor == 0) ≡ true =
        ap (λ x. x % factor == 0)
          (magnitude-signed (is_negative d.unscaled) (magnitude d.unscaled * factor))
        ∙ ap (λ x. x == 0) (mul-mod_left (magnitude d.unscaled) factor) in
      let q = quot64-scaled d.unscaled factor (factor_pos (s - d.scale)) fits in
      simp (small, other, down, p, no_rest)
        (ap (λ u. ok (record { unscaled = u; scale = d.scale })) q)

  too_large : ltb max_scale s ≡ true → rescale d s ≡ err scale_too_large
  unfolding rescale
  too_large big = simp big refl

  low_scale : (e : Decimal) → rescale d s ≡ ok e → s ≤ 18
  unfolding rescale
  low_scale e h = elim (Bool-cases (ltb max_scale s)) [
    | inl big ↦ absurd (err_ne_ok (sym (too_large big) ∙ h))
    | inr small ↦ ground arith
  ]

  -- An int64 that could be brought to a larger scale is brought back to its own as it was.
  pub rescale-rescale : (e : Decimal) → d.scale ≤ s → rescale d s ≡ ok e → rescale e d.scale ≡ ok d
  rescale-rescale e le h =
      let low = low_scale e h in
      elim (Bool-cases (ltb d.scale s)) [
        | inl more ↦ elim (Bool-cases (fits_int64 (scaled d.unscaled factor))) [
          | inl f ↦
              let is_e : raised ≡ e =
                ok_injective (sym (rescale_strict (ground arith) low ∙ rw f refl) ∙ h) in
              ap (λ x. rescale x d.scale) (sym is_e) ∙ rescale_down (ground arith) low
          | inr f ↦ absurd (
              err_ne_ok {e = decimal_overflow}
                (sym (rescale_strict (ground arith) low ∙ rw f refl) ∙ h))
        ]
        | inr not_more ↦
            let q : s ≡ d.scale = ground arith in
            let is_e : d ≡ e = ok_injective (sym (rescale_same q low) ∙ h) in
            ap (λ x. rescale x d.scale) (sym is_e) ∙ ap (rescale d) (sym q) ∙ rescale_same q low
      ]
