-- ===== src/Vault/Cipher.antt =====
-- vault/cipher.go and cmac.go. The block ciphers and the CBC mode are the libraries' crypto/des and
-- crypto/cipher: a parameter, of which `IsDes` says what they document.
pub mod Blocks
pub mod Toy
use isopace.Common.{
  ℕ, zero, suc, ◌+◌, ◌-◌, ◌*◌, ◌/◌, ◌%◌, ◌≡◌, ◌⊎◌, Bool, true, false, [], ◌∷◌, ◌++◌, ltb, ◌==◌,
  if◌then◌else◌, Bytes, IsByte, All, length, take, drop, replicate, Result, ok, err, map_err, ◌>>=◌,
  bit_xor, ◌&&◌, not,
}
use isopace.Vault.PinBlock.{xored}

-- `cipher.Block`, with the `CryptBlocks` of the CBC encrypter and decrypter over it, of an IV and
-- the source.
pub record Block : Type 0 where
  pub size : ℕ
  pub encrypt : Bytes → Bytes
  pub decrypt : Bytes → Bytes
  pub cbc_crypt : Bytes → Bytes → Bytes
  pub cbc_uncrypt : Bytes → Bytes → Bytes

-- `des.NewCipher` and `des.NewTripleDESCipher`
pub record Des (C : Type 0) : Type 0 where
  pub new_cipher : Bytes → Result C Block
  pub new_triple_cipher : Bytes → Result C Block

-- A cipher of 8-byte blocks: a block is encrypted into a block of bytes and
-- decrypted into a block, and CBC keeps the length
-- of whole blocks and is undone by decrypting with the same IV.
pub record IsDes (b : Block) : Type 0 where
  pub size_eq : b.size ≡ 8
  pub length_encrypt : (x : Bytes) → length x ≡ 8 → length (b.encrypt x) ≡ 8
  pub length_decrypt : (x : Bytes) → length x ≡ 8 → length (b.decrypt x) ≡ 8
  pub encrypt_bytes : (x : Bytes) → length x ≡ 8 → All IsByte (b.encrypt x)
  pub length_cbc :
      (iv x : Bytes) → length iv ≡ 8 → length x % 8 ≡ 0 → length (b.cbc_crypt iv x) ≡ length x
  pub cbc_bytes : (iv x : Bytes) → length iv ≡ 8 → length x % 8 ≡ 0 → All IsByte (b.cbc_crypt iv x)
  pub uncrypt_crypt :
      (iv x : Bytes)
      → length iv ≡ 8
      → length x % 8 ≡ 0
      → All IsByte x
      → b.cbc_uncrypt iv (b.cbc_crypt iv x) ≡ x

-- A triple-length key makes a triple DES cipher, and an 8-byte key a DES cipher.
pub record IsDesLibrary {C : Type 0} (des : Des C) : Type 0 where
  pub single : (key : Bytes) → length key ≡ 8 → (b : Block) × (des.new_cipher key ≡ ok b) × IsDes b
  pub triple :
      (key : Bytes) → length key ≡ 24 → (b : Block) × (des.new_triple_cipher key ≡ ok b) × IsDes b

pub data CipherError (C : Type 0) : Type 0 where
  bad_key_length bad_iv_length bad_input_length : ℕ → CipherError C
  from_library : C → CipherError C

unfoldable pub triple_des_block : {C : Type 0} → Des C → Bytes → Result (CipherError C) Block
triple_des_block des key =
    if length key == 24
    then map_err from_library (des.new_triple_cipher key)
    else if length key == 16
    then map_err from_library (des.new_triple_cipher (key ++ take 8 key))
    else err (bad_key_length (length key))

unfoldable pub des_block : {C : Type 0} → Des C → Bytes → Result (CipherError C) Block
des_block des key =
    if length key == 8
    then map_err from_library (des.new_cipher key)
    else err (bad_key_length (length key))

unfoldable pub cbc_encrypt : {C : Type 0} → Block → Bytes → Bytes → Result (CipherError C) Bytes
cbc_encrypt b iv src =
    if not (length iv == b.size)
    then err (bad_iv_length (length iv))
    else if not (length src % b.size == 0)
    then err (bad_input_length (length src))
    else ok (b.cbc_crypt iv src)

unfoldable pub cbc_decrypt : {C : Type 0} → Block → Bytes → Bytes → Result (CipherError C) Bytes
cbc_decrypt b iv src =
    if not (length iv == b.size)
    then err (bad_iv_length (length iv))
    else if not (length src % b.size == 0)
    then err (bad_input_length (length src))
    else ok (b.cbc_uncrypt iv src)

-- The loops of `cbcMAC` and `cmacBlock`: `fuel` rounds at most, of which each takes a block.
unfoldable pub chain : Block → ℕ → Bytes → Bytes → Bytes
chain b zero x src = x
chain b (suc fuel) x [] = x
chain b (suc fuel) x (c ∷ src) =
    chain b fuel (b.encrypt (xored x (take b.size (c ∷ src)))) (drop b.size (c ∷ src))

-- The shift of `dbl` by one bit, the bytes in order.
unfoldable pub shift_left : Bytes → Bytes
shift_left [] = []
shift_left (a ∷ []) = a * 2 % 256 ∷ []
shift_left (a ∷ b ∷ rest) = (a * 2 % 256 + b / 128) ∷ shift_left (b ∷ rest)

-- `out[bs-1] ^= rb`
unfoldable pub xor_last : ℕ → Bytes → Bytes
xor_last rb [] = []
xor_last rb (a ∷ []) = bit_xor a rb ∷ []
xor_last rb (a ∷ b ∷ rest) = a ∷ xor_last rb (b ∷ rest)

unfoldable pub dbl : Bytes → Bytes
dbl [] = []
dbl (a ∷ rest) =
    let out = shift_left (a ∷ rest) in
    if a / 128 == 1 then xor_last (if length (a ∷ rest) == 16 then 0x87 else 0x1B) out else out

-- `cmacSubkeys`
unfoldable pub cmac_subkeys : Block → Bytes × Bytes
cmac_subkeys b = let k1 = dbl (b.encrypt (replicate b.size 0)) in (k1, dbl k1)

-- The last block of `cmacBlock` when the message does not fill it.
unfoldable pub padded_block : ℕ → Bytes → Bytes
padded_block bs rest = rest ++ (0x80 ∷ replicate (bs - (length rest + 1)) 0)

unfoldable pub cmac_block : Block → Bytes → Bytes
cmac_block b msg =
    let keys = cmac_subkeys b in
    let n = length msg in
    let whole = n - b.size in
    let part = n - n % b.size in
    if ltb 0 n && n % b.size == 0
    then b.encrypt
        (xored (chain b n (replicate b.size 0) (take whole msg)) (xored (drop whole msg) keys.0))
    else b.encrypt (
        xored (chain b n (replicate b.size 0) (take part msg))
          (xored (padded_block b.size (drop part msg)) keys.1))
