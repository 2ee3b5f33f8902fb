-- ===== src/Field/Amounts/Truncation.antt =====
-- Binary amounts and numbers that are wider than their field.
use isopace.Common.{
  ℕ, zero, suc, ◌+◌, ◌*◌, ◌/◌, ◌%◌, ◌^◌, ◌<◌, ◌≤◌, ◌≡◌, refl, sym, ap, ◌∙◌, arith, true, false, [],
  ◌∷◌, ◌++◌,
}
use isopace.Common.{ltb, ◌==◌, Bytes, length, ok}
use isopace.Common.Int.{pos}
use isopace.Common.BigEndian.{be_put, length-be_put}
use isopace.Decimal.{max_scale, rescale, int64_of}
use isopace.Engine.Types.{Value, Attrs, amount_value}
use isopace.Engine.Parse.{value_decimal}
use isopace.Field.{Wire}
use isopace.Field.Amounts.{be_get64, binary_width, minor_units, amount_binary}
use native.Mathlib.Nat.{pow-suc, mul_assoc}

be_get64-append : (n : ℕ) (xs ys : Bytes) → be_get64 n (xs ++ ys) ≡ be_get64 (be_get64 n xs) ys
unfolding be_get64
be_get64-append n [] ys = refl
be_get64-append n (x ∷ xs) ys = be_get64-append (n * 256 % 2 ^ 64 + x) xs ys

-- A number that the bytes have room for is read back.
pub be_get64-be_put : (w n : ℕ) → n < 256 ^ w → n < 2 ^ 64 → be_get64 0 (be_put w n) ≡ n
unfolding be_get64 be_put
be_get64-be_put zero n h k = omega arith
be_get64-be_put (suc w) n h k =
    be_get64-append 0 (be_put w (n / 256)) (n % 256 ∷ [])
    ∙ ap (λ x. x * 256 % 2 ^ 64 + n % 256)
        (be_get64-be_put w (n / 256) (omega (arith, pow-suc 256 w)) (omega arith))
    ∙ omega arith

-- The bytes do not tell a number from one that is larger by a multiple of 256 ^ w.
be_put_wraps : (w n k : ℕ) → be_put w (n + k * 256 ^ w) ≡ be_put w n
unfolding be_put
be_put_wraps zero n k = refl
be_put_wraps (suc w) n k =
    let more : k * 256 ^ suc w ≡ k * 256 ^ w * 256 =
      ap (λ x. k * x) (pow-suc 256 w) ∙ sym (mul_assoc k (256 ^ w) 256) in
    let front : (n + k * 256 ^ suc w) / 256 ≡ n / 256 + k * 256 ^ w = omega (arith, more) in
    let last : (n + k * 256 ^ suc w) % 256 ≡ n % 256 = omega (arith, more) in
    ap (λ x. be_put w x ++ ((n + k * 256 ^ suc w) % 256 ∷ [])) front
    ∙ ap (λ x. be_put w (n / 256 + k * 256 ^ w) ++ (x ∷ [])) last
    ∙ ap (λ x. x ++ (n % 256 ∷ [])) (be_put_wraps w (n / 256) k)

-- The amounts of `n` minor units, at the scale of the field.
abbrev pub amount : {C : Type 0} → Attrs → ℕ → Value (Wire C)
amount def n = amount_value (record { unscaled = pos n; scale = def.scale }) []

module _ (C : Type 0) (def : Attrs) (scale_ok : def.scale ≤ 18) where
  rescale_own :
      (n : ℕ)
      → rescale (record { unscaled = pos n; scale = def.scale }) def.scale
        ≡ ok (record { unscaled = pos n; scale = def.scale })
  unfolding rescale
  rescale_own n =
      let low : ltb max_scale def.scale ≡ false = ground arith in
      let same : (def.scale == def.scale) ≡ true = ground arith in simp (low, same) refl

  encode_lem :
      (n : ℕ)
      → (amount_binary {C = C}).encode_body (amount def n) def
        ≡ ok (be_put (binary_width def) (n % 2 ^ 64))
  unfolding amount_binary minor_units value_decimal
  encode_lem n = rw (rescale_own n) refl

  -- A binary amount of `n` minor units that its field has room for is written in the width of the field and read
  -- back as it was. But no amount is refused for its size: one that is larger by `k` times what the field has room for is
  -- written as the same bytes, and is read back as `n`.
  pub amount_binary_truncates :
      (n k : ℕ)
      → n < 256 ^ binary_width def
      → n + k * 256 ^ binary_width def < 2 ^ 63
      → (body : Bytes) × ((length body ≡ binary_width def)
          × (((amount_binary {C = C}).encode_body (amount def n) def ≡ ok body)
              × (((amount_binary {C = C}).encode_body
                      (amount def (n + k * 256 ^ binary_width def))
                      def
                    ≡ ok body)
                  × ((units : ℕ)
                      → (amount_binary {C = C}).decode_body body units def
                        ≡ ok
                            (amount_value (record { unscaled = pos n; scale = def.scale }) body)))))
  unfolding amount_binary
  amount_binary_truncates n k fits low =
      let w = binary_width def in
      let m : ℕ = n + k * 256 ^ w in
      let n64 : n % 2 ^ 64 ≡ n = omega arith in
      let m64 : m % 2 ^ 64 ≡ m = omega arith in
      let small : ltb n (2 ^ 63) ≡ true = ground arith in
      let signed_n : int64_of n ≡ pos n = rw small refl in
      (
        be_put w n,
        (
          length-be_put w n,
          (
            encode_lem n ∙ ap (λ x. ok (be_put w x)) n64,
            (
              encode_lem m ∙ ap (λ x. ok (be_put w x)) m64 ∙ ap ok (be_put_wraps w n k),
              λ units.
                  ap
                    (λ x.
                      ok (amount_value (record { unscaled = x; scale = def.scale }) (be_put w n)))
                    (ap int64_of (be_get64-be_put w n fits (omega arith)) ∙ signed_n),
            ),
          ),
        ),
      )
