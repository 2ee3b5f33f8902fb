-- ===== src/Vault/Mac/Verify.antt =====
-- vault/mac.go and emv.go: a MAC that is generated is verified, whole or truncated.
use isopace.Common.{
  ℕ, ◌+◌, ◌%◌, ◌≤◌, ◌≡◌, ◌↔◌, ◌∙◌, refl, sym, ap, Bool, true, false, ◌||◌, ◌++◌, ltb, ◌==◌,
  if◌then◌else◌, Bytes, eq_bytes, eq_bytes_refl, eq_bytes_iff, length, take, drop, replicate, arith,
  Result, ok, err, length-append, length-take, length-drop, length-replicate, guard_ok,
  ok_injective, take-drop, take-append,
}
use isopace.Vault.Cipher.{Block, Des, IsDes, IsDesLibrary}
use isopace.Vault.Cipher.Blocks.{length-chain, des_block-IsDes}
use isopace.Vault.Mac.{
  MacAlgorithm, mac_alg1, mac_alg3, other_alg, PaddingMethod, MacError, cbc_mac, apply_padding,
  generate_mac, verify_mac, bad_mac_length,
}
use isopace.Vault.Mac.Padding.{apply_padding-whole}

-- The keys that an algorithm takes: 8 bytes, and two DES keys of 8.
abbrev pub KeyFits : MacAlgorithm → ℕ → Type 0
KeyFits mac_alg1 n = n ≡ 8
KeyFits mac_alg3 n = n ≡ 16
KeyFits (other_alg _) n = ⊥

module _ {C : Type 0} (des : Des C) (lib : IsDesLibrary des) where
  length-cbc_mac :
      {b : Block} (h : IsDes b) (method : PaddingMethod) (src : Bytes)
      → length (cbc_mac b (apply_padding method src 8)) ≡ 8
  unfolding cbc_mac
  length-cbc_mac {b} h method src =
      let (tail, e, whole) = apply_padding-whole method src in
      length-chain h _ (replicate b.size 0) (apply_padding method src 8)
        (length-replicate b.size 0 ∙ h.size_eq) (ap (λ s. length s % 8) e ∙ whole)

  pub generate_mac_total :
      (alg : MacAlgorithm) (method : PaddingMethod) (key src : Bytes)
      → KeyFits alg (length key)
      → (mac : Bytes) × (generate_mac des alg method key src ≡ ok mac) × (length mac ≡ 8)
  unfolding generate_mac
  generate_mac_total mac_alg1 method key src k =
      let (b, q, h) = des_block-IsDes des lib key k in
      (
        cbc_mac b (apply_padding method src 8),
        rw (generate_mac, q) refl,
        length-cbc_mac h method src,
      )
  generate_mac_total mac_alg3 method key src k =
      let (b1, q1, h1) = des_block-IsDes des lib (take 8 key) (length-take 8 key (omega arith)) in
      let (b2, q2, h2) = des_block-IsDes des lib (drop 8 key) (omega (arith, length-drop 8 key)) in
      let t : (length key == 16) ≡ true = ground arith in
      let n = length-cbc_mac h1 method src in
      (_, rw (generate_mac, t, q1, q2) refl, h1.length_encrypt _ (h2.length_decrypt _ n))
  generate_mac_total (other_alg _) method key src k = absurd k

  -- What `VerifyMAC` says once the MAC is there.
  abbrev verdict : Bytes → Bytes → Result (MacError C) Bool
  verdict full mac =
      if length mac == 0 || ltb (length full) (length mac)
      then err (bad_mac_length (length mac))
      else ok (eq_bytes (take (length mac) full) mac)

  IsPrefix : Bytes → Bytes → Type 0
  IsPrefix mac full = (rest : Bytes) × (full ≡ mac ++ rest)

  accepts : (full mac : Bytes) → verdict full mac ≡ ok true → (1 ≤ length mac) × IsPrefix mac full
  unfolding IsPrefix
  accepts full mac q =
      let (t, r) = guard_ok (length mac == 0 || ltb (length full) (length mac)) _ q in
      (
        ground arith,
        (
          drop (length mac) full,
          sym (take-drop (length mac) full)
              ∙ ap (λ s. s ++ drop (length mac) full) ((eq_bytes_iff _ mac).0 (ok_injective r)),
        ),
      )

  refuses : (full mac : Bytes) → (1 ≤ length mac) × IsPrefix mac full → verdict full mac ≡ ok true
  unfolding IsPrefix
  refuses full mac (some_mac, (rest, e)) =
      let n : length full ≡ length mac + length rest = ap length e ∙ length-append mac rest in
      let t : (length mac == 0 || ltb (length full) (length mac)) ≡ false = ground (arith, n) in
      let p : take (length mac) full ≡ mac = ap (take (length mac)) e ∙ take-append mac rest in
      rw (t, p, eq_bytes_refl mac) refl

  -- Under a key of the right length `GenerateMAC` gives eight bytes, and `VerifyMAC` accepts
  -- exactly the MACs that are a prefix of these and not empty.
  pub verify_mac-generate_mac :
      (alg : MacAlgorithm) (method : PaddingMethod) (key src : Bytes)
      → KeyFits alg (length key)
      → (full : Bytes) × (generate_mac des alg method key src ≡ ok full)
        × (length full ≡ 8)
        × ((mac : Bytes)
            → (verify_mac des alg method key src mac ≡ ok true)
              ↔ ((1 ≤ length mac) × ((rest : Bytes) × (full ≡ mac ++ rest))))
  unfolding verify_mac IsPrefix
  verify_mac-generate_mac alg method key src k =
      let (full, made, eight) = generate_mac_total alg method key src k in
      (
        full,
        made,
        eight,
        λ mac.
            let v : verify_mac des alg method key src mac ≡ verdict full mac =
              rw (verify_mac, made) refl in
            (λ q. accepts full mac (sym v ∙ q), λ q. v ∙ refuses full mac q),
      )
