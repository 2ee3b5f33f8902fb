-- ===== src/Decimal/Text.antt =====
-- `Decimal.String`: the digits of the number, with the point in front of as many as the scale says.
use isopace.Common.{ℕ, ◌-◌, ◌≤◌, ◌≡◌, refl, ap, ◌∙◌, arith, inl, inr, true, false, [], ◌∷◌, ◌++◌}
use isopace.Common.{
  leb, ◌==◌, if◌then◌else◌, Bool-cases, Bytes, length, length-append, length-replicate, length-drop,
  length-take, take, drop, replicate, take-drop,
}
use isopace.Engine.Types.{Decimal}
use mathlib.Core.Path.{subst}
use isopace.Digits.{itoa, digits_from}
use isopace.Digits.Laws.{digits_from-append, digits_from-itoa, digits_from-replicate}
use isopace.Decimal.{is_negative, magnitude, place_point, decimal_text}

-- The text is a whole part, a point and `scale` decimals, that together are the digits of `m`.
pub record IsPlain (scale m : ℕ) (text : Bytes) : Type 0 where
  pub whole : Bytes
  pub decimals : Bytes
  pub is_text : text ≡ whole ++ (b'.' ∷ decimals)
  pub some_whole : 1 ≤ length whole
  pub scaled_by : length decimals ≡ scale
  pub value : digits_from 0 (whole ++ decimals) ≡ m

short_text :
    (scale : ℕ) (digits : Bytes)
    → leb (length digits) scale ≡ true
    → IsPlain scale (digits_from 0 digits) (place_point scale digits)
unfolding digits_from
short_text scale digits h =
    let zeros : Bytes = replicate (scale - length digits) b'0' in
    record {
      whole = b'0' ∷ [];
      decimals = zeros ++ digits;
      is_text = rw h refl;
      some_whole = omega arith;
      scaled_by = ground (
        arith,
        length-append zeros digits,
        length-replicate {A = ℕ} (scale - length digits) b'0',
      );
      value =
          digits_from-append 0 zeros digits
          ∙ ap (λ x. digits_from x digits) (digits_from-replicate (scale - length digits));
    }

long_text :
    (scale : ℕ) (digits : Bytes)
    → leb (length digits) scale ≡ false
    → IsPlain scale (digits_from 0 digits) (place_point scale digits)
long_text scale digits h =
    let k = length digits - scale in
    record {
      whole = take k digits;
      decimals = drop k digits;
      is_text = rw h refl;
      some_whole = ground (arith, length-take k digits (omega arith));
      scaled_by = ground (arith, length-drop k digits);
      value = ap (digits_from 0) (take-drop k digits);
    }

place_point-IsPlain : (scale m : ℕ) → IsPlain scale m (place_point scale (itoa m))
place_point-IsPlain scale m =
    subst (λ x. IsPlain scale x (place_point scale (itoa m))) (digits_from-itoa m)
      (elim (Bool-cases (leb (length (itoa m)) scale)) [
        | inl h ↦ short_text scale (itoa m) h
        | inr h ↦ long_text scale (itoa m) h
      ])

-- With a scale above zero the text is the sign, a whole part that is not empty, a point, and as many decimals as the
-- scale says, and the digits without the point are the magnitude of the unscaled number.
pub decimal_text-IsPlain :
    (d : Decimal)
    → 1 ≤ d.scale
    → (t : Bytes) × (IsPlain d.scale (magnitude d.unscaled) t
        × (decimal_text d ≡ (if is_negative d.unscaled then b'-' ∷ t else t)))
unfolding decimal_text
decimal_text-IsPlain d h =
    let some_scale : (d.scale == 0) ≡ false = ground arith in
    (
      place_point d.scale (itoa (magnitude d.unscaled)),
      (place_point-IsPlain d.scale (magnitude d.unscaled), simp some_scale refl),
    )
