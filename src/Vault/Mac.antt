-- ===== src/Vault/Mac.antt =====
-- vault/mac.go and emv.go: message authentication codes over DES, and the cryptograms of EMV.
pub mod Padding
pub mod Verify
pub mod Runs
use isopace.Common.{
  ℕ, zero, suc, ◌+◌, ◌-◌, ◌*◌, ◌/◌, ◌%◌, Bool, true, false, ◌||◌, not, [], ◌∷◌, ◌++◌, ltb, leb,
  ◌==◌, if◌then◌else◌, Bytes, eq_bytes, length, take, drop, get_or, replicate, Result, ok, err,
  map_err, ◌>>=◌,
}
use isopace.Vault.Cipher.{Block, Des, CipherError, des_block, triple_des_block, chain}
use isopace.Vault.PinBlock.{xored}

-- `MACAlgorithm` and `Padding`, numbers in the code; whatever is not `Pad2` counts as `Pad1`.
pub data MacAlgorithm : Type 0 where
  mac_alg1 mac_alg3 : MacAlgorithm
  other_alg : ℕ → MacAlgorithm

pub data PaddingMethod : Type 0 where
  pad1 pad2 : PaddingMethod

pub data MacError (C : Type 0) : Type 0 where
  from_cipher : CipherError C → MacError C
  bad_key_length bad_mac_length bad_atc_length bad_arqc_length bad_arc_length : ℕ → MacError C
  unknown_algorithm : ℕ → MacError C

-- `for len(out)%bs != 0 { out = append(out, 0) }`, with `fuel` rounds at most.
unfoldable pub fill_zeros : ℕ → ℕ → Bytes → Bytes
fill_zeros bs zero out = out
fill_zeros bs (suc fuel) out =
    let more = fill_zeros bs fuel (out ++ (0 ∷ [])) in if length out % bs == 0 then out else more

-- `applyPadding`; a block more than is lacking is never appended.
unfoldable pub apply_padding : PaddingMethod → Bytes → ℕ → Bytes
apply_padding pad2 src bs = fill_zeros bs bs (src ++ (0x80 ∷ []))
apply_padding pad1 src bs =
    if length src == 0
    then replicate bs 0
    else if length src % bs == 0
    then src
    else fill_zeros bs bs src

-- `cbcMAC`: each round takes a block, so that there are at most as many as bytes.
unfoldable pub cbc_mac : Block → Bytes → Bytes
cbc_mac b src = chain b (length src) (replicate b.size 0) src

-- `GenerateMAC`
unfoldable pub generate_mac :
    {C : Type 0} → Des C → MacAlgorithm → PaddingMethod → Bytes → Bytes → Result (MacError C) Bytes
generate_mac des mac_alg1 pad key src =
    map_err from_cipher (des_block des key) >>= (λ b. ok (cbc_mac b (apply_padding pad src 8)))
generate_mac des mac_alg3 pad key src =
    if not (length key == 16)
    then err (bad_key_length (length key))
    else map_err from_cipher (des_block des (take 8 key)) >>= (λ b1.
      map_err from_cipher (des_block des (drop 8 key))
      >>= (λ b2. ok (b1.encrypt (b2.decrypt (cbc_mac b1 (apply_padding pad src 8))))))
generate_mac des (other_alg n) pad key src = err (unknown_algorithm n)

-- `VerifyMAC`
unfoldable pub verify_mac :
    {C : Type 0}
    → Des C
    → MacAlgorithm
    → PaddingMethod
    → Bytes
    → Bytes
    → Bytes
    → Result (MacError C) Bool
verify_mac des alg pad key src mac = generate_mac des alg pad key src >>= (λ full.
    if length mac == 0 || ltb (length full) (length mac)
    then err (bad_mac_length (length mac))
    else ok (eq_bytes (take (length mac) full) mac))

-- `DeriveEMVSessionKey`
unfoldable pub derive_emv_session_key :
    {C : Type 0} → Des C → Bytes → Bytes → Result (MacError C) Bytes
derive_emv_session_key des mk atc =
    let a = get_or atc 0 0 in
    let b = get_or atc 1 0 in
    if not (length mk == 16)
    then err (bad_key_length (length mk))
    else if not (length atc == 2)
    then err (bad_atc_length (length atc))
    else map_err from_cipher (triple_des_block des mk) >>= (λ c.
      ok (c.encrypt (a ∷ b ∷ 0xF0 ∷ replicate 5 0) ++ c.encrypt (a ∷ b ∷ 0x0F ∷ replicate 5 0)))

-- `GenerateARQC`
unfoldable pub generate_arqc : {C : Type 0} → Des C → Bytes → Bytes → Result (MacError C) Bytes
generate_arqc des key src = generate_mac des mac_alg3 pad2 key src

-- `VerifyARQC`
unfoldable pub verify_arqc : {C : Type 0} → Des C → Bytes → Bytes → Bytes → Result (MacError C) Bool
verify_arqc des key src arqc =
    generate_arqc des key src
    >>= (λ want. if not (length arqc == length want) then ok false else ok (eq_bytes want arqc))

-- `GenerateARPC`
unfoldable pub generate_arpc :
    {C : Type 0} → Des C → Bytes → Bytes → Bytes → Result (MacError C) Bytes
generate_arpc des key arqc arc =
    if not (length arqc == 8)
    then err (bad_arqc_length (length arqc))
    else if not (length arc == 2)
    then err (bad_arc_length (length arc))
    else map_err from_cipher (triple_des_block des key)
      >>= (λ b. ok (b.encrypt (xored arqc (arc ++ replicate 6 0))))
