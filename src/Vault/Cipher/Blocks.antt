-- ===== src/Vault/Cipher/Blocks.antt =====
-- vault/cipher.go and cmac.go: what is made of blocks has the length of a block.
use isopace.Common.{
  ◌⊎◌, ◌++◌, ok, false, ℕ, zero, suc, ◌+◌, ◌-◌, ◌/◌, ◌%◌, ◌≤◌, ◌≡◌, ◌∙◌, refl, ap, inl, inr, true,
  [], ◌∷◌, ltb, ◌==◌, ◌&&◌, Bytes, IsByte, All, length, take, drop, replicate, arith, Bool-cases,
  length-append, length-replicate, length-take, length-drop,
}
use isopace.Vault.Cipher.{
  Des, IsDesLibrary, triple_des_block, des_block, Block, IsDes, chain, shift_left, xor_last, dbl,
  cmac_subkeys, padded_block, cmac_block,
}
use isopace.Vault.PinBlock.{xored}

pub length-xored : (a b : Bytes) → length a ≤ length b → length (xored a b) ≡ length a
unfolding xored
length-xored [] b h = refl
length-xored (x ∷ a) [] h = absurd (omega arith)
length-xored (x ∷ a) (y ∷ b) h = ap suc (length-xored a b (omega arith))

length-shift_left : (a : Bytes) → length (shift_left a) ≡ length a
unfolding shift_left
length-shift_left [] = refl
length-shift_left (x ∷ []) = refl
length-shift_left (x ∷ y ∷ a) = ap suc (length-shift_left (y ∷ a))

length-xor_last : (rb : ℕ) (a : Bytes) → length (xor_last rb a) ≡ length a
unfolding xor_last
length-xor_last rb [] = refl
length-xor_last rb (x ∷ []) = refl
length-xor_last rb (x ∷ y ∷ a) = ap suc (length-xor_last rb (y ∷ a))

length-dbl : (a : Bytes) → length (dbl a) ≡ length a
unfolding dbl
length-dbl [] = refl
length-dbl (x ∷ a) = elim (Bool-cases (x / 128 == 1)) [
  | inl e ↦ rw e (length-xor_last _ (shift_left (x ∷ a)) ∙ length-shift_left (x ∷ a))
  | inr e ↦ rw e (length-shift_left (x ∷ a))
]

-- A block of bytes.
abbrev pub IsTag : Bytes → Type 0
IsTag tag = (length tag ≡ 8) × All IsByte tag

module _ {b : Block} (h : IsDes b) where
  pub length-chain :
      (fuel : ℕ) (x src : Bytes)
      → length x ≡ 8
      → length src % 8 ≡ 0
      → length (chain b fuel x src) ≡ 8
  unfolding chain
  length-chain zero x src e m = e
  length-chain (suc fuel) x [] e m = e
  length-chain (suc fuel) x (c ∷ src) e m =
      let full : 8 ≤ length (c ∷ src) = omega arith in
      rw h.size_eq (
        length-chain fuel _ (drop 8 (c ∷ src))
          (h.length_encrypt _ (
            length-xored x (take 8 (c ∷ src)) (omega (arith, e, length-take 8 (c ∷ src) full)) ∙ e))
          (omega (arith, length-drop 8 (c ∷ src))))

  length-subkeys : (length (cmac_subkeys b).0 ≡ 8) × (length (cmac_subkeys b).1 ≡ 8)
  unfolding cmac_subkeys
  length-subkeys =
      let l : length (b.encrypt (replicate b.size 0)) ≡ 8 =
        h.length_encrypt _ (length-replicate b.size 0 ∙ h.size_eq) in
      (length-dbl _ ∙ l, length-dbl _ ∙ length-dbl _ ∙ l)

  length-zeros : length {A = ℕ} (replicate b.size 0) ≡ 8
  length-zeros = length-replicate b.size 0 ∙ h.size_eq

  filled : (n bs : ℕ) → bs ≡ 8 → (ltb 0 n && n % bs == 0) ≡ true → (8 ≤ n) × (n % 8 ≡ 0)
  filled n bs z e = ground (arith, z)

  length-padded_block :
      (msg : Bytes) → length (padded_block b.size (drop (length msg - length msg % b.size) msg)) ≡ 8
  unfolding padded_block
  length-padded_block msg =
      let z = h.size_eq in
      let rest = drop (length msg - length msg % b.size) msg in
      let n : length rest ≡ length msg % 8 = omega (
        arith,
        z,
        ap (λ k. length msg % k) z,
        length-drop (length msg - length msg % b.size) msg,
      ) in
      omega (
        arith,
        z,
        n,
        length-append rest (0x80 ∷ replicate (b.size - (length rest + 1)) 0),
        length-replicate {A = ℕ} (b.size - (length rest + 1)) 0,
      )

  last_round :
      (fuel : ℕ) (src last : Bytes)
      → length src % 8 ≡ 0
      → length last ≡ 8
      → IsTag (b.encrypt (xored (chain b fuel (replicate b.size 0) src) last))
  last_round fuel src last m e =
      let c = length-chain fuel _ src length-zeros m in
      let l = length-xored _ last (omega (arith, c)) ∙ c in
      (h.length_encrypt _ l, h.encrypt_bytes _ l)

  pub cmac_block-IsTag : (msg : Bytes) → IsTag (cmac_block b msg)
  unfolding cmac_block
  cmac_block-IsTag msg =
      let z = h.size_eq in
      elim (Bool-cases (ltb 0 (length msg) && length msg % b.size == 0)) [
        | inl e ↦
            let (pos, whole) = filled (length msg) b.size z e in
            rw e (
              last_round (length msg) (take (length msg - b.size) msg) _
                (omega (arith, z, length-take (length msg - b.size) msg (omega arith)))
                (length-xored _ (cmac_subkeys b).0
                    (omega (arith, z, length-drop (length msg - b.size) msg, length-subkeys))
                  ∙ omega (arith, z, length-drop (length msg - b.size) msg)))
        | inr e ↦
            let part = length msg - length msg % b.size in
            let r : length (padded_block b.size (drop part msg)) ≡ 8 = length-padded_block msg in
            rw e (
              last_round (length msg) (take part msg) _
                (omega (arith, z, ap (λ k. length msg % k) z, length-take part msg (omega arith)))
                (length-xored _ (cmac_subkeys b).1 (omega (arith, r, length-subkeys)) ∙ r))
      ]

-- The lengths of a key that `tripleDESBlock` takes.
abbrev pub IsKeyLength : ℕ → Type 0
IsKeyLength n = (n ≡ 16) ⊎ (n ≡ 24)

module _ {C : Type 0} (des : Des C) (lib : IsDesLibrary des) where
  pub triple_des_block-IsDes :
      (key : Bytes)
      → IsKeyLength (length key)
      → (b : Block) × (triple_des_block des key ≡ ok b) × IsDes b
  unfolding triple_des_block
  triple_des_block-IsDes key (inr e) =
      let (b, q, h) = lib.triple key e in
      let t : (length key == 24) ≡ true = ground arith in (b, rw (t, q) refl, h)
  triple_des_block-IsDes key (inl e) =
      let (b, q, h) =
        lib.triple (key ++ take 8 key)
          (omega (arith, e, length-append key (take 8 key), length-take 8 key (omega arith))) in
      let t : (length key == 24) ≡ false = ground arith in
      let u : (length key == 16) ≡ true = ground arith in (b, rw (t, u, q) refl, h)

  pub des_block-IsDes :
      (key : Bytes) → length key ≡ 8 → (b : Block) × (des_block des key ≡ ok b) × IsDes b
  unfolding des_block
  des_block-IsDes key e =
      let (b, q, h) = lib.single key e in
      let t : (length key == 8) ≡ true = ground arith in (b, rw (t, q) refl, h)
