-- ===== src/Vault/KeyBlock.antt =====
-- vault/keyblock.go: key blocks of TR-31 version B. Header fields, keys and blocks are their bytes; the
-- source of randomness is what `io.ReadFull` fills a buffer of the given length with, if it does.
pub mod Header
pub mod Opening
pub mod RoundTrip
pub mod Authentic
pub mod Runs
use isopace.Common.{
  ℕ, zero, suc, ◌+◌, ◌-◌, ◌*◌, ◌/◌, ◌%◌, Bool, true, false, ◌||◌, not, Option, none, some, [], ◌∷◌,
  ◌++◌, map, ltb, leb, ◌==◌, if◌then◌else◌, Bytes, eq_bytes, length, take, drop, slice, replicate,
  get_or, Result, ok, err, map_err, ◌>>=◌,
}
use isopace.Common.BigEndian.{be_get, be_put}
use isopace.BitmapCodec.{hex_encode, hex_decode, upper_hex}
use isopace.Digits.{itoa}
use isopace.Vault.Cipher.{
  Block, Des, CipherError, triple_des_block, cbc_encrypt, cbc_decrypt, cmac_block,
}
use isopace.Vault.PinBlock.{Reader}

-- `KeyBlockHeader`
pub record KeyBlockHeader : Type 0 where
  pub version : ℕ
  pub key_usage : Bytes
  pub algorithm : ℕ
  pub mode_of_use : ℕ
  pub key_version : Bytes
  pub exportability : ℕ

pub data KeyBlockError (C : Type 0) : Type 0 where
  bad_kbpk empty_key no_randomness bad_usage bad_key_version too_large : KeyBlockError C
  short_block bad_version bad_number wrong_length optional_blocks bad_body : KeyBlockError C
  bad_key_data bad_mac not_authentic short_plain bad_key_length : KeyBlockError C
  from_cipher : CipherError C → KeyBlockError C

-- The loop of `tr31kdf` from `ctr` on, with `left` rounds to go.
unfoldable pub kdf_from : Block → ℕ → ℕ → ℕ → ℕ → ℕ → Bytes
kdf_from b usage algo nbits zero ctr = []
kdf_from b usage algo nbits (suc left) ctr =
    cmac_block b (
      ctr % 256
      ∷ usage / 256 % 256
      ∷ usage % 256
      ∷ 0
      ∷ algo / 256 % 256
      ∷ algo % 256
      ∷ nbits / 256 % 256
      ∷ nbits % 256
      ∷ [])
    ++ kdf_from b usage algo nbits left (ctr + 1)

-- `tr31DeriveKeys`: the key for encryption and the one for the MAC.
unfoldable pub derive_keys : {C : Type 0} → Des C → Bytes → Result (CipherError C) (Bytes × Bytes)
derive_keys des kbpk =
    let nbits = length kbpk * 8 in
    let iters = length kbpk / 8 in
    let algo = if length kbpk == 24 then 1 else 0 in
    triple_des_block des kbpk
    >>= (λ b. ok (kdf_from b 0 algo nbits iters 1, kdf_from b 1 algo nbits iters 1))

-- `%04d`
unfoldable pub four_digits : ℕ → Bytes
four_digits n = replicate (4 - length (itoa n)) b'0' ++ itoa n

-- `marshal`; an empty key version is "00".
unfoldable pub marshal_header : {C : Type 0} → KeyBlockHeader → ℕ → Result (KeyBlockError C) Bytes
marshal_header h block_len =
    let kv = if length h.key_version == 0 then b'0' ∷ b'0' ∷ [] else h.key_version in
    if not (length h.key_usage == 2)
    then err bad_usage
    else if not (length kv == 2)
    then err bad_key_version
    else if ltb 9999 block_len
    then err too_large
    else ok (
        b'B' ∷ four_digits block_len
        ++ h.key_usage
        ++ (h.algorithm ∷ h.mode_of_use ∷ kv ++ (h.exportability ∷ b'0' ∷ b'0' ∷ b'0' ∷ b'0' ∷ [])))

-- `parseHeader`
unfoldable pub parse_header : {C : Type 0} → Bytes → Result (KeyBlockError C) KeyBlockHeader
parse_header b =
    if ltb (length b) 16
    then err short_block
    else ok (record {
      version = get_or b 0 0;
      key_usage = slice b 5 7;
      algorithm = get_or b 7 0;
      mode_of_use = get_or b 8 0;
      key_version = slice b 9 11;
      exportability = get_or b 11 0;
    })

-- The loop of `atoiFixed`.
unfoldable pub atoi_from : {C : Type 0} → ℕ → Bytes → Result (KeyBlockError C) ℕ
atoi_from n [] = ok n
atoi_from n (c ∷ cs) =
    let rest = atoi_from (n * 10 + (c - b'0')) cs in
    if ltb c b'0' || ltb b'9' c then err bad_number else rest

-- `upperHex`
unfoldable pub hex_text : Bytes → Bytes
hex_text b = map upper_hex (hex_encode b)

-- The random bytes that fill the last block, of which none are read when it is full.
unfoldable pub read_pad : Reader → ℕ → Option Bytes
read_pad r zero = some []
read_pad r (suc n) = r (suc n)

-- How many bytes the confidential data of a key lack to whole blocks.
abbrev pub pad_count : Bytes → ℕ
pad_count key = (8 - (2 + length key) % 8) % 8

-- The confidential data: the length of the key in bits, as 16 bits, the key, and the pad.
unfoldable pub confidential : Bytes → Bytes → Bytes
confidential key pad = be_put 2 (length key * 8) ++ (key ++ pad)

-- The encrypted data and the MAC, which is the IV too.
unfoldable pub seal_block :
    {C : Type 0} → Des C → Bytes → Bytes → Bytes → Result (CipherError C) (Bytes × Bytes)
seal_block des kbpk header plain = derive_keys des kbpk >>= (λ keys.
    triple_des_block des keys.1 >>= (λ bmac.
      let mac = cmac_block bmac (header ++ plain) in
      triple_des_block des keys.0
      >>= (λ benc. cbc_encrypt benc mac plain >>= (λ ct. ok (ct, mac)))))

-- `WrapKeyBlockRand`
unfoldable pub wrap_key_block :
    {C : Type 0} → Des C → Bytes → KeyBlockHeader → Bytes → Reader → Result (KeyBlockError C) Bytes
wrap_key_block des kbpk hdr key r =
    if not (length kbpk == 16 || length kbpk == 24)
    then err bad_kbpk
    else if length key == 0
    then err empty_key
    else elim (read_pad r (pad_count key)) [
      | none ↦ err no_randomness
      | some pad ↦
          let plain = confidential key pad in
          marshal_header hdr (16 + 2 * length plain + 16) >>= (λ header.
            map_err from_cipher (seal_block des kbpk header plain)
            >>= (λ sealed. ok (header ++ (hex_text sealed.0 ++ hex_text sealed.1))))
    ]

-- The plaintext behind the encrypted data, and the cipher of the MAC.
unfoldable pub decrypt_block :
    {C : Type 0} → Des C → Bytes → Bytes → Bytes → Result (CipherError C) (Bytes × Block)
decrypt_block des kbpk ct mac = derive_keys des kbpk >>= (λ keys.
    triple_des_block des keys.0 >>= (λ benc. cbc_decrypt benc mac ct >>= (λ plain.
      triple_des_block des keys.1 >>= (λ bmac. let r : Bytes × Block = (plain, bmac) in ok r))))

-- The plaintext, when its MAC is the one in the block.
unfoldable pub open_block :
    {C : Type 0} → Des C → Bytes → Bytes → Bytes → Bytes → Result (KeyBlockError C) Bytes
open_block des kbpk header ct mac =
    map_err from_cipher (decrypt_block des kbpk ct mac)
    >>= (λ r. if eq_bytes (cmac_block r.1 (header ++ r.0)) mac then ok r.0 else err not_authentic)

-- The key in the plaintext.
unfoldable pub key_of_plain : {C : Type 0} → Bytes → Result (KeyBlockError C) Bytes
key_of_plain plain =
    let key_len = be_get (take 2 plain) / 8 in
    if ltb (length plain) 2
    then err short_plain
    else if ltb (length plain) (2 + key_len)
    then err bad_key_length
    else ok (slice plain 2 (2 + key_len))

unfoldable pub decode_hex : {C : Type 0} → KeyBlockError C → Bytes → Result (KeyBlockError C) Bytes
decode_hex e s = elim (hex_decode s) [ none ↦ err e | some b ↦ ok b ]

-- What `UnwrapKeyBlock` checks of the text before it decodes it: the header.
unfoldable pub check_block : {C : Type 0} → Bytes → Result (KeyBlockError C) KeyBlockHeader
check_block block =
    if ltb (length block) 16
    then err short_block
    else parse_header (take 16 block) >>= (λ hdr.
      if not (hdr.version == b'B')
      then err bad_version
      else atoi_from 0 (slice block 1 5) >>= (λ n.
        if not (n == length block)
        then err wrong_length
        else if not (eq_bytes (slice block 12 14) (b'0' ∷ b'0' ∷ []))
        then err optional_blocks
        else if ltb (length block - 16) 16 || not ((length block - 16) % 16 == 0)
        then err bad_body
        else ok hdr))

-- `UnwrapKeyBlock`
unfoldable pub unwrap_key_block :
    {C : Type 0} → Des C → Bytes → Bytes → Result (KeyBlockError C) (KeyBlockHeader × Bytes)
unwrap_key_block des kbpk block =
    if not (length kbpk == 16 || length kbpk == 24)
    then err bad_kbpk
    else check_block block >>= (λ hdr.
      let body = drop 16 block in
      decode_hex bad_key_data (take (length body - 16) body) >>= (λ ct.
        decode_hex bad_mac (drop (length body - 16) body) >>= (λ mac.
          open_block des kbpk (take 16 block) ct mac
          >>= (λ plain. key_of_plain plain >>= (λ key. ok (hdr, key))))))
