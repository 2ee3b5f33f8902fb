-- ===== src/Vault/Mac/Padding.antt =====
-- vault/mac.go: the padding of ISO 9797-1.
use isopace.Common.{
  ℕ, zero, suc, ◌+◌, ◌-◌, ◌%◌, ◌≤◌, ◌<◌, ◌≡◌, ◌≢◌, ◌∙◌, refl, sym, ap, inl, inr, false, [], ◌∷◌,
  ◌++◌, ◌==◌, if◌then◌else◌, Bytes, length, drop, get_or, replicate, arith, append_assoc,
  append-nil, length-append, length-replicate, Bool-cases,
}
use isopace.Vault.Mac.{PaddingMethod, pad1, pad2, fill_zeros, apply_padding}

-- How many zeros are lacking to whole blocks.
abbrev pub lacking : ℕ → ℕ
lacking n = (8 - n % 8) % 8

pub fill_zeros_lem :
    (fuel : ℕ) (out : Bytes)
    → lacking (length out) ≤ fuel
    → fill_zeros 8 fuel out ≡ out ++ replicate (lacking (length out)) 0
unfolding fill_zeros
fill_zeros_lem zero out h =
    sym (append-nil out)
    ∙ ap (λ k. out ++ replicate k 0) (let z : 0 ≡ lacking (length out) = omega arith in z)
fill_zeros_lem (suc fuel) out h = elim (Bool-cases (length out % 8 == 0)) [
  | inl e ↦
      let z : 0 ≡ lacking (length out) = ground arith in
      ap (λ b. if b then out else fill_zeros 8 fuel (out ++ (0 ∷ []))) e
      ∙ sym (append-nil out)
      ∙ ap (λ k. out ++ replicate k 0) z
  | inr e ↦
      let n = length-append out (0 ∷ []) in
      let less : lacking (length (out ++ (0 ∷ []))) + 1 ≡ lacking (length out) =
        ground (arith, n) in
      ap (λ b. if b then out else fill_zeros 8 fuel (out ++ (0 ∷ []))) e
      ∙ fill_zeros_lem fuel (out ++ (0 ∷ [])) (omega (arith, less))
      ∙ append_assoc out (0 ∷ []) (replicate (lacking (length (out ++ (0 ∷ [])))) 0)
      ∙ ap (λ k. out ++ replicate k 0)
          (let q : suc (lacking (length (out ++ (0 ∷ [])))) ≡ lacking (length out) =
              omega (arith, less) in
            q)
]

-- `applyPadding` in one formula: the marked or unmarked data and the zeros that are lacking.
pub apply_padding_two :
    (src : Bytes)
    → apply_padding pad2 src 8 ≡ (src ++ (0x80 ∷ [])) ++ replicate (lacking (length src + 1)) 0
unfolding apply_padding
apply_padding_two src =
    fill_zeros_lem 8 (src ++ (0x80 ∷ [])) (omega arith)
    ∙ ap (λ n. (src ++ (0x80 ∷ [])) ++ replicate (lacking n) 0) (length-append src (0x80 ∷ []))

-- `out` is `start` with as many zeros behind it as are lacking to whole blocks, and fewer than a
-- block.
abbrev pub Filled : Bytes → Bytes → Type 0
Filled start out = (n : ℕ) × (out ≡ start ++ replicate n 0) × (n < 8) × (length out % 8 ≡ 0)

-- ISO 9797-1: method 1 fills the data, of which empty ones become a block of zeros; method 2 fills
-- the data with the mark behind them.
abbrev pub Padded : PaddingMethod → Bytes → Bytes → Type 0
Padded pad1 [] out = out ≡ replicate 8 0
Padded pad1 (x ∷ src) out = Filled (x ∷ src) out
Padded pad2 src out = Filled (src ++ (0x80 ∷ [])) out

filled :
    (start out : Bytes) → out ≡ start ++ replicate (lacking (length start)) 0 → Filled start out
filled start out e =
    let n = length-append start (replicate (lacking (length start)) 0) in
    let k = length-replicate {A = ℕ} (lacking (length start)) 0 in
    (lacking (length start), e, omega arith, omega (arith, ap length e, n, k))

-- `applyPadding` is the padding of ISO 9797-1: with method 2 the data, the mark 0x80 and zeros to
-- the end of the block, with method 1 the data and such zeros, fewer than a block of them each time
-- and so none where nothing is lacking; empty data become a block of zeros with method 1.
pub apply_padding-Padded :
    (method : PaddingMethod) (src : Bytes) → Padded method src (apply_padding method src 8)
unfolding apply_padding
apply_padding-Padded pad2 src =
    filled (src ++ (0x80 ∷ [])) _ (fill_zeros_lem 8 (src ++ (0x80 ∷ [])) (omega arith))
apply_padding-Padded pad1 [] = refl
apply_padding-Padded pad1 (x ∷ src) =
    let z : (length (x ∷ src) == 0) ≡ false = ground arith in
    elim (Bool-cases (length (x ∷ src) % 8 == 0)) [
      | inl e ↦
          let none_lacking : 0 ≡ lacking (length (x ∷ src)) = ground arith in
          filled (x ∷ src) _ (
            rw (z, e)
              (sym (append-nil (x ∷ src)) ∙ ap (λ k. (x ∷ src) ++ replicate k 0) none_lacking))
      | inr e ↦ filled (x ∷ src) _ (rw (z, e) (fill_zeros_lem 8 (x ∷ src) (omega arith)))
    ]

-- The padded data are whole blocks that start with the data.
pub apply_padding-whole :
    (method : PaddingMethod) (src : Bytes)
    → (tail : Bytes) × (apply_padding method src 8 ≡ src ++ tail) × (length (src ++ tail) % 8 ≡ 0)
apply_padding-whole pad2 src =
    let (n, e, few, whole) = apply_padding-Padded pad2 src in
    let q = e ∙ append_assoc src (0x80 ∷ []) (replicate n 0) in
    (0x80 ∷ replicate n 0, q, omega (arith, whole, ap length q))
apply_padding-whole pad1 [] = (replicate 8 0, apply_padding-Padded pad1 [], omega arith)
apply_padding-whole pad1 (x ∷ src) =
    let (n, e, few, whole) = apply_padding-Padded pad1 (x ∷ src) in
    (replicate n 0, e, omega (arith, whole, ap length e))

no_mark : (n : ℕ) (b xs : Bytes) → replicate n 0 ≢ b ++ (0x80 ∷ xs)
no_mark zero [] xs e = cc
no_mark zero (x ∷ b) xs e = cc
no_mark (suc n) [] xs e = let q : ◌≡◌ {A = ℕ} 0 0x80 = ap (λ s. get_or s 0 0) e in omega arith
no_mark (suc n) (x ∷ b) xs e = no_mark n b xs (ap (drop 1) e)

mark_injective :
    (a b : Bytes) (n m : ℕ) → a ++ (0x80 ∷ replicate n 0) ≡ b ++ (0x80 ∷ replicate m 0) → a ≡ b
mark_injective [] [] n m e = refl
mark_injective [] (x ∷ b) n m e = absurd (no_mark n b (replicate m 0) (ap (drop 1) e))
mark_injective (x ∷ a) [] n m e = absurd (no_mark m a (replicate n 0) (ap (drop 1) (sym e)))
mark_injective (x ∷ a) (y ∷ b) n m e =
    λ i. (ap (λ s. get_or s 0 0) e) i ∷ (mark_injective a b n m (ap (drop 1) e)) i

-- Padding method 2 is one to one: different data stay different when they are padded.
pub padding_two_injective : (a b : Bytes) → apply_padding pad2 a 8 ≡ apply_padding pad2 b 8 → a ≡ b
padding_two_injective a b e = mark_injective a b _ _ (sym (padded a) ∙ e ∙ padded b)
  where
    padded :
        (s : Bytes) → apply_padding pad2 s 8 ≡ s ++ (0x80 ∷ replicate (lacking (length s + 1)) 0)
    padded s =
        apply_padding_two s ∙ append_assoc s (0x80 ∷ []) (replicate (lacking (length s + 1)) 0)
