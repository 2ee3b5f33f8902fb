-- ===== src/Vault/Dukpt.antt =====
-- vault/dukpt.go: a key for each transaction, from a base key and a key serial number.
pub mod Total
mod Parent
mod Runs
use isopace.Common.{
  ℕ, zero, suc, ◌+◌, ◌-◌, ◌*◌, ◌/◌, ◌%◌, ◌^◌, Bool, true, false, ◌||◌, not, [], ◌∷◌, ◌++◌, ◌==◌,
  if◌then◌else◌, Bytes, length, take, drop, slice, get_or, set, replicate, bit_and, bit_or, Result,
  ok, err, map_err, ◌>>=◌,
}
use isopace.Vault.Cipher.{Block, Des, CipherError, des_block, triple_des_block}
use isopace.Vault.PinBlock.{xored}

-- `keyVariantMask`
abbrev pub key_variant_mask : Bytes
key_variant_mask =
    0xC0 ∷ 0xC0 ∷ 0xC0 ∷ 0xC0 ∷ 0 ∷ 0 ∷ 0 ∷ 0 ∷ 0xC0 ∷ 0xC0 ∷ 0xC0 ∷ 0xC0 ∷ 0 ∷ 0 ∷ 0 ∷ 0 ∷ []

pub data DukptError (C : Type 0) : Type 0 where
  from_cipher : CipherError C → DukptError C
  bad_bdk_length bad_ksn_length bad_ipek_length : ℕ → DukptError C
  bad_variant_length : ℕ → ℕ → DukptError C

-- `DeriveIPEK` with the length of the serial number, and its start without the counter.
unfoldable pub ipek_from : {C : Type 0} → Des C → Bytes → ℕ → Bytes → Result (DukptError C) Bytes
ipek_from des bdk ksn_len base =
    if not (length bdk == 16)
    then err (bad_bdk_length (length bdk))
    else if not (ksn_len == 10)
    then err (bad_ksn_length ksn_len)
    else map_err from_cipher (triple_des_block des bdk) >>= (λ b1.
      map_err from_cipher (triple_des_block des (xored bdk key_variant_mask))
      >>= (λ b2. ok (b1.encrypt base ++ b2.encrypt base)))

-- `DeriveIPEK`
unfoldable pub derive_ipek : {C : Type 0} → Des C → Bytes → Bytes → Result (DukptError C) Bytes
unfolding ipek_from
derive_ipek des bdk ksn =
    ipek_from des bdk (length ksn) (set (take 8 ksn) 7 (bit_and (get_or ksn 7 0) 0xE0))

-- `ksnCounter`
unfoldable pub ksn_counter : Bytes → ℕ
ksn_counter ksn =
    bit_or
      (bit_or (bit_and (get_or ksn 7 0) 0x1F * 2 ^ 16 % 2 ^ 32) (get_or ksn 8 0 * 2 ^ 8 % 2 ^ 32))
      (get_or ksn 9 0)

-- `setCounterBit`
unfoldable pub set_counter_bit : Bytes → ℕ → Bytes
set_counter_bit reg shift =
    let r5 = set reg 5 (bit_or (get_or reg 5 0) (bit_and (shift / 2 ^ 16 % 256) 0x1F)) in
    let r6 = set r5 6 (bit_or (get_or reg 6 0) (shift / 2 ^ 8 % 256)) in
    set r6 7 (bit_or (get_or reg 7 0) (shift % 256))

-- `dukptEncRegister`
unfoldable pub enc_register : {C : Type 0} → Des C → Bytes → Bytes → Result (DukptError C) Bytes
enc_register des key reg =
    map_err from_cipher (des_block des (take 8 key))
    >>= (λ b. ok (xored (b.encrypt (xored reg (slice key 8 16))) (slice key 8 16)))

-- `dukptGenerateKey`
unfoldable pub generate_key : {C : Type 0} → Des C → Bytes → Bytes → Result (DukptError C) Bytes
generate_key des key reg = enc_register des key reg >>= (λ right.
    enc_register des (xored key key_variant_mask) reg >>= (λ left. ok (left ++ right)))

-- The loop of `DeriveSessionKey`: `left` shifts are to come.
unfoldable pub walk : {C : Type 0} → Des C → ℕ → ℕ → ℕ → Bytes → Bytes → Result (DukptError C) Bytes
walk des counter zero shift reg key = ok key
walk des counter (suc left) shift reg key =
    let skipped = walk des counter left (shift / 2) reg key in
    let reg' = set_counter_bit reg shift in
    let next = generate_key des key reg' >>= (λ ck. walk des counter left (shift / 2) reg' ck) in
    if bit_and counter shift == 0 then skipped else next

-- The register of a serial number: its last 8 bytes with the counter cleared.
unfoldable pub register_base : Bytes → Bytes
register_base ksn =
    let low = slice ksn 2 10 in
    let r5 = set low 5 (bit_and (get_or low 5 0) 0xE0) in set (set r5 6 0) 7 0

-- `DeriveSessionKey`; the shift takes 21 rounds from 2 ^ 20 to 0.
unfoldable pub derive_session_key :
    {C : Type 0} → Des C → Bytes → Bytes → Result (DukptError C) Bytes
unfolding register_base
derive_session_key des ipek ksn =
    if not (length ipek == 16)
    then err (bad_ipek_length (length ipek))
    else if not (length ksn == 10)
    then err (bad_ksn_length (length ksn))
    else walk des (ksn_counter ksn) 21 0x100000 (register_base ksn) ipek

-- `DeriveVariant`
unfoldable pub derive_variant : {C : Type 0} → Bytes → Bytes → Result (DukptError C) Bytes
derive_variant key mask =
    if not (length key == 16) || not (length mask == 16)
    then err (bad_variant_length (length key) (length mask))
    else ok (xored key mask)
