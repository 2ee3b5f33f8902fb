-- ===== src/Vault/KeyBlock/Authentic.antt =====
-- vault/keyblock.go: a block whose MAC is not the one of its contents is not unwrapped.
use isopace.Common.{
  ◌-◌, ◌≡◌, ◌∙◌, refl, sym, ap, Bool, true, false, ◌||◌, ◌==◌, not, ◌++◌, if◌then◌else◌, Bytes,
  eq_bytes, eq_bytes_iff, length, take, drop, Option, none, some, Result, ok, err, map_err, bind_ok,
  guard_ok, map_err_ok, err_ne_ok, result_ok, ok_injective,
}
use isopace.BitmapCodec.{hex_decode}
use isopace.Vault.Cipher.{Block, Des, cmac_block}
use isopace.Vault.KeyBlock.{
  KeyBlockHeader, KeyBlockError, decrypt_block, open_block, key_of_plain, decode_hex, check_block,
  unwrap_key_block, bad_key_data, bad_mac, from_cipher,
}

-- What the code has checked of a block that it unwraps.
pub record IsAuthentic {C : Type 0} (des : Des C) (kbpk block key : Bytes) : Type 0 where
  pub ct : Bytes
  pub mac : Bytes
  pub plain : Bytes
  pub bmac : Block
  pub ct_text : hex_decode (take (length (drop 16 block) - 16) (drop 16 block)) ≡ some ct
  pub mac_text : hex_decode (drop (length (drop 16 block) - 16) (drop 16 block)) ≡ some mac
  pub decrypts : decrypt_block des kbpk ct mac ≡ ok (plain, bmac)
  pub authentic : cmac_block bmac (take 16 block ++ plain) ≡ mac
  pub found : key_of_plain {C = C} plain ≡ ok key

module _ {C : Type 0} (des : Des C) (kbpk : Bytes) where
  accepted :
      {A : Type 0} (b : Bool) (e : KeyBlockError C) {x a : A}
      → (if b then ok x else err e) ≡ ok a
      → (b ≡ true) × (result_ok (KeyBlockError C) x ≡ ok a)
  accepted true e q = (refl, q)
  accepted false e q = absurd (err_ne_ok q)

  decode_hex_ok :
      (e : KeyBlockError C) (s : Bytes) {b : Bytes} → decode_hex e s ≡ ok b → hex_decode s ≡ some b
  unfolding decode_hex
  decode_hex_ok e s q = go (hex_decode s) q
    where
      go :
          {b : Bytes} (o : Option Bytes)
          → (elim o as (λ _. Result (KeyBlockError C) Bytes) [ none ↦ err e | some x ↦ ok x ])
            ≡ ok b
          → o ≡ some b
      go none q = absurd (err_ne_ok q)
      go (some x) q = ap some (ok_injective q)

  open_block_ok :
      (header ct mac : Bytes) {plain : Bytes}
      → open_block des kbpk header ct mac ≡ ok plain
      → (bmac : Block) × (decrypt_block des kbpk ct mac ≡ ok (plain, bmac))
        × (cmac_block bmac (header ++ plain) ≡ mac)
  unfolding open_block
  open_block_ok header ct mac {plain} q =
      let ((p, bmac), d, t) = bind_ok (map_err from_cipher (decrypt_block des kbpk ct mac)) q in
      let (same, e) = accepted (eq_bytes (cmac_block bmac (header ++ p)) mac) _ t in
      let same_plain : p ≡ plain = ok_injective e in
      (
        bmac,
        map_err_ok from_cipher _ d ∙ ap (λ x. ok (x, bmac)) same_plain,
        ap (λ x. cmac_block bmac (header ++ x)) (sym same_plain)
            ∙ (eq_bytes_iff (cmac_block bmac (header ++ p)) mac).0 same,
      )

  -- A block that is unwrapped was authenticated: its last 16 characters are the MAC, under the key
  -- that the protection key gives, of its first 16 and of the plaintext that the key was taken from.
  pub unwrap_key_block-IsAuthentic :
      (block : Bytes) {hdr : KeyBlockHeader} {key : Bytes}
      → unwrap_key_block des kbpk block ≡ ok (hdr, key)
      → IsAuthentic des kbpk block key
  unfolding unwrap_key_block
  unwrap_key_block-IsAuthentic block q =
      let q1 = (guard_ok (not (length kbpk == 16 || length kbpk == 24)) _ q).1 in
      let (_, _, q2) = bind_ok (check_block block) q1 in
      let (ct, hc, q3) = bind_ok (decode_hex bad_key_data _) q2 in
      let (mac, hm, q4) = bind_ok (decode_hex bad_mac _) q3 in
      let (plain, ho, q5) = bind_ok (open_block des kbpk (take 16 block) ct mac) q4 in
      let (key', hk, q6) = bind_ok (key_of_plain plain) q5 in
      let (bmac, d, t) = open_block_ok (take 16 block) ct mac ho in
      record {
        ct = ct;
        mac = mac;
        plain = plain;
        bmac = bmac;
        ct_text = decode_hex_ok bad_key_data _ hc;
        mac_text = decode_hex_ok bad_mac _ hm;
        decrypts = d;
        authentic = t;
        found = hk ∙ ap (λ r. ok r.1) (ok_injective q6);
      }
