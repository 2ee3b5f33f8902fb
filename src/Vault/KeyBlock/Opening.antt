-- ===== src/Vault/KeyBlock/Opening.antt =====
-- vault/keyblock.go: what is sealed under a key block protection key is opened under it.
use isopace.Common.{
  ℕ, zero, suc, ◌+◌, ◌*◌, ◌/◌, ◌%◌, ◌≡◌, ◌∙◌, refl, inl, inr, true, ◌++◌, ◌==◌, if◌then◌else◌,
  Bytes, IsByte, eq_bytes_refl, length, arith, ok, All, length-append,
}
use isopace.Vault.Cipher.{
  Block, Des, IsDes, IsDesLibrary, triple_des_block, cbc_encrypt, cbc_decrypt, cmac_block,
}
use isopace.Vault.Cipher.Blocks.{IsTag, cmac_block-IsTag, IsKeyLength, triple_des_block-IsDes}
use isopace.Vault.KeyBlock.{kdf_from, derive_keys, seal_block, decrypt_block, open_block}

module _ {C : Type 0} (des : Des C) (lib : IsDesLibrary des) where
  length-kdf_from :
      {b : Block}
      → IsDes b
      → (usage algo nbits left ctr : ℕ) → length (kdf_from b usage algo nbits left ctr) ≡ left * 8
  unfolding kdf_from
  length-kdf_from h usage algo nbits zero ctr = refl
  length-kdf_from {b} h usage algo nbits (suc left) ctr =
      length-append _ (kdf_from b usage algo nbits left (ctr + 1))
      ∙ one_more left (cmac_block-IsTag h _).0 (length-kdf_from h usage algo nbits left (ctr + 1))
    where
      one_more : {x y : ℕ} (n : ℕ) → x ≡ 8 → y ≡ n * 8 → x + y ≡ suc n * 8
      one_more n p q = omega (arith, p, q)

  -- The two keys, and the ciphers that they make.
  pub record Ciphers (kbpk : Bytes) : Type 0 where
    pub enc : Bytes
    pub mac : Bytes
    pub derives : derive_keys des kbpk ≡ ok (enc, mac)
    pub benc : Block
    pub makes_enc : triple_des_block des enc ≡ ok benc
    pub enc_IsDes : IsDes benc
    pub bmac : Block
    pub makes_mac : triple_des_block des mac ≡ ok bmac
    pub mac_IsDes : IsDes bmac

  pub ciphers : (kbpk : Bytes) → IsKeyLength (length kbpk) → Ciphers kbpk
  unfolding derive_keys
  ciphers kbpk long =
      let (b, q, h) = triple_des_block-IsDes des lib kbpk long in
      let algo : ℕ = if length kbpk == 24 then 1 else 0 in
      let enc : Bytes = kdf_from b 0 algo (length kbpk * 8) (length kbpk / 8) 1 in
      let mac : Bytes = kdf_from b 1 algo (length kbpk * 8) (length kbpk / 8) 1 in
      let (benc, me, he) =
        triple_des_block-IsDes des lib enc
          (as_long long (length-kdf_from h 0 algo (length kbpk * 8) (length kbpk / 8) 1)) in
      let (bmac, mm, hm) =
        triple_des_block-IsDes des lib mac
          (as_long long (length-kdf_from h 1 algo (length kbpk * 8) (length kbpk / 8) 1)) in
      record {
        enc = enc;
        mac = mac;
        derives = rw (derive_keys, q) refl;
        benc = benc;
        makes_enc = me;
        enc_IsDes = he;
        bmac = bmac;
        makes_mac = mm;
        mac_IsDes = hm;
      }
    where
      as_long : {n x : ℕ} → IsKeyLength n → x ≡ n / 8 * 8 → IsKeyLength x
      as_long (inl e) q = inl (omega (arith, e, q))
      as_long (inr e) q = inr (omega (arith, e, q))

  module _ (kbpk header plain : Bytes) (long : IsKeyLength (length kbpk))
      (whole : length plain % 8 ≡ 0) (bytes : All IsByte plain) where
    pub record Sealed : Type 0 where
      pub ct : Bytes
      pub mac : Bytes
      pub seals : seal_block des kbpk header plain ≡ ok (ct, mac)
      pub length_ct : length ct ≡ length plain
      pub ct_bytes : All IsByte ct
      pub is_tag : IsTag mac
      pub opens : open_block des kbpk header ct mac ≡ ok plain

    pub seal_block-Sealed : Sealed
    unfolding seal_block open_block decrypt_block cbc_encrypt cbc_decrypt
    seal_block-Sealed =
        let c = ciphers kbpk long in
        let mac : Bytes = cmac_block c.bmac (header ++ plain) in
        let tag = cmac_block-IsTag c.mac_IsDes (header ++ plain) in
        let h = c.enc_IsDes in
        let ct : Bytes = c.benc.cbc_crypt mac plain in
        let n : length ct ≡ length plain = h.length_cbc mac plain tag.0 whole in
        let z = h.size_eq in
        let iv : (length mac == c.benc.size) ≡ true = ground (arith, z, tag) in
        let fit : (length plain % c.benc.size == 0) ≡ true = ground (arith, z, whole) in
        let back : (length ct % c.benc.size == 0) ≡ true = ground (arith, z, whole, n) in
        record {
          ct = ct;
          mac = mac;
          seals = rw (seal_block, c.derives, c.makes_mac, c.makes_enc, iv, fit) refl;
          length_ct = n;
          ct_bytes = h.cbc_bytes mac plain tag.0 whole;
          is_tag = tag;
          opens =
              rw
                (
                  open_block,
                  decrypt_block,
                  c.derives,
                  c.makes_enc,
                  iv,
                  back,
                  c.makes_mac,
                  h.uncrypt_crypt mac plain tag.0 whole bytes,
                  eq_bytes_refl mac,
                )
                refl;
        }
