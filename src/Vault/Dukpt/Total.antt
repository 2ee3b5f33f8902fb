-- ===== src/Vault/Dukpt/Total.antt =====
-- vault/dukpt.go: the keys of a device and of its transactions.
use isopace.Common.{
  ℕ, zero, suc, ◌/◌, ◌≤◌, ◌≡◌, ◌∙◌, refl, sym, ap, inl, inr, true, List, [], ◌∷◌, ◌++◌, ◌==◌, Bytes,
  length, take, drop, slice, get_or, set, arith, bit_and, Result, ok, length-append, length-take,
  length-drop, Bool-cases,
}
use isopace.Vault.Cipher.{Des, IsDesLibrary}
use isopace.Vault.Cipher.Blocks.{des_block-IsDes, triple_des_block-IsDes, length-xored}
use isopace.Vault.Dukpt.{
  key_variant_mask, DukptError, ipek_from, derive_ipek, ksn_counter, set_counter_bit, enc_register,
  generate_key, walk, derive_session_key,
}
use isopace.Vault.PinBlock.{xored}

length-set : {A : Type 0} (xs : List A) (i : ℕ) (v : A) → length (set xs i v) ≡ length xs
length-set [] i v = refl
length-set (x ∷ xs) zero v = refl
length-set (x ∷ xs) (suc i) v = ap suc (length-set xs i v)

-- Replacing the last of the first bytes leaves the others.
set-take :
    {A : Type 0} (n : ℕ) (xs : List A) (v : A)
    → suc n ≤ length xs
    → set (take (suc n) xs) n v ≡ take n xs ++ (v ∷ [])
set-take n [] v h = absurd (omega arith)
set-take zero (x ∷ xs) v h = refl
set-take (suc n) (x ∷ xs) v h = ap (λ t. x ∷ t) (set-take n xs v (omega arith))

-- The serial numbers of one device differ in their counters alone.
record SameDevice (ksn other : Bytes) : Type 0 where
  pub length_other : length other ≡ 10
  pub front : take 7 other ≡ take 7 ksn
  pub bits : bit_and (get_or other 7 0) 0xE0 ≡ bit_and (get_or ksn 7 0) 0xE0

module _ {C : Type 0} (des : Des C) (lib : IsDesLibrary des) where
  -- A key of 16 bytes, without an error.
  abbrev pub IsKey : Result (DukptError C) Bytes → Type 0
  IsKey r = (key : Bytes) × (r ≡ ok key) × (length key ≡ 16)

  IsHalf : Result (DukptError C) Bytes → Type 0
  IsHalf r = (half : Bytes) × (r ≡ ok half) × (length half ≡ 8)

  enc_register-IsHalf :
      (key reg : Bytes) → length key ≡ 16 → length reg ≡ 8 → IsHalf (enc_register des key reg)
  unfolding IsHalf enc_register
  enc_register-IsHalf key reg k r =
      let (b, q, h) = des_block-IsDes des lib (take 8 key) (length-take 8 key (omega arith)) in
      let s : length (slice key 8 16) ≡ 8 =
        length-take 8 (drop 8 key) (omega (arith, length-drop 8 key)) in
      let n : length (xored reg (slice key 8 16)) ≡ 8 =
        length-xored reg (slice key 8 16) (omega (arith, s)) ∙ r in
      let m : length (b.encrypt (xored reg (slice key 8 16))) ≡ 8 = h.length_encrypt _ n in
      (_, rw (enc_register, q) refl, length-xored _ (slice key 8 16) (omega (arith, s, m)) ∙ m)

  masked : (key : Bytes) → length key ≡ 16 → length (xored key key_variant_mask) ≡ 16
  masked key k = length-xored key key_variant_mask (omega (arith, k)) ∙ k

  generate_key-IsKey :
      (key reg : Bytes) → length key ≡ 16 → length reg ≡ 8 → IsKey (generate_key des key reg)
  unfolding IsHalf generate_key
  generate_key-IsKey key reg k r =
      let (right, q1, n1) = enc_register-IsHalf key reg k r in
      let (left, q2, n2) = enc_register-IsHalf (xored key key_variant_mask) reg (masked key k) r in
      (
        left ++ right,
        rw (generate_key, q1, q2) refl,
        omega (arith, n1, n2, length-append left right),
      )

  length-set_counter_bit :
      (reg : Bytes) (shift : ℕ) → length (set_counter_bit reg shift) ≡ length reg
  unfolding set_counter_bit
  length-set_counter_bit reg shift = length-set _ 7 _ ∙ length-set _ 6 _ ∙ length-set reg 5 _

  walk-IsKey :
      (counter left shift : ℕ) (reg key : Bytes)
      → length key ≡ 16
      → length reg ≡ 8
      → IsKey (walk des counter left shift reg key)
  unfolding walk
  walk-IsKey counter zero shift reg key k r = (key, refl, k)
  walk-IsKey counter (suc left) shift reg key k r = elim (Bool-cases (bit_and counter shift == 0)) [
    | inl e ↦ let (out, q, n) = walk-IsKey counter left (shift / 2) reg key k r in (out, rw e q, n)
    | inr e ↦
        let reg' : Bytes = set_counter_bit reg shift in
        let r' : length reg' ≡ 8 = length-set_counter_bit reg shift ∙ r in
        let (ck, g, n) = generate_key-IsKey key reg' k r' in
        let (out, q, m) = walk-IsKey counter left (shift / 2) reg' ck n r' in (out, rw (e, g) q, m)
  ]

  pub session-IsKey :
      (ipek ksn : Bytes)
      → length ipek ≡ 16
      → length ksn ≡ 10
      → IsKey (derive_session_key des ipek ksn)
  unfolding derive_session_key
  session-IsKey ipek ksn k n =
      let low : Bytes = slice ksn 2 10 in
      let l : length low ≡ 8 = length-take 8 (drop 2 ksn) (omega (arith, length-drop 2 ksn)) in
      let r5 : Bytes = set low 5 (bit_and (get_or low 5 0) 0xE0) in
      let reg : Bytes = set (set r5 6 0) 7 0 in
      let w =
        walk-IsKey (ksn_counter ksn) 21 0x100000 reg ipek k
          (length-set (set r5 6 0) 7 0 ∙ length-set r5 6 0 ∙ length-set low 5 _ ∙ l) in
      let t1 : (length ipek == 16) ≡ true = ground arith in
      let t2 : (length ksn == 10) ≡ true = ground arith in (w.0, rw (t1, t2) w.1, w.2)

  -- The start of a serial number without the counter.
  base_of : Bytes → Bytes
  base_of ksn = set (take 8 ksn) 7 (bit_and (get_or ksn 7 0) 0xE0)

  same_base :
      (ksn other : Bytes) → length ksn ≡ 10 → SameDevice ksn other → base_of other ≡ base_of ksn
  unfolding base_of
  same_base ksn other n d =
      set-take 7 other _ (omega (arith, d.length_other))
      ∙ (λ i. d.front i ++ (d.bits i ∷ []))
      ∙ sym (set-take 7 ksn _ (omega (arith, n)))

  derive_ipek-IsKey :
      (bdk ksn : Bytes) → length bdk ≡ 16 → length ksn ≡ 10 → IsKey (derive_ipek des bdk ksn)
  unfolding derive_ipek ipek_from
  derive_ipek-IsKey bdk ksn k n =
      let (b1, q1, h1) = triple_des_block-IsDes des lib bdk (inl k) in
      let (b2, q2, h2) =
        triple_des_block-IsDes des lib (xored bdk key_variant_mask) (inl (masked bdk k)) in
      let base : Bytes = set (take 8 ksn) 7 (bit_and (get_or ksn 7 0) 0xE0) in
      let l : length base ≡ 8 =
        length-set (take 8 ksn) 7 _ ∙ length-take 8 ksn (omega (arith, n)) in
      let t1 : (length bdk == 16) ≡ true = ground arith in
      let t2 : (length ksn == 10) ≡ true = ground arith in
      (
        b1.encrypt base ++ b2.encrypt base,
        rw (t1, t2, q1, q2) refl,
        omega (
          arith,
          h1.length_encrypt base l,
          h2.length_encrypt base l,
          length-append (b1.encrypt base) (b2.encrypt base),
        ),
      )

  same_ipek :
      (bdk ksn other : Bytes)
      → length ksn ≡ 10
      → SameDevice ksn other
      → derive_ipek des bdk other ≡ derive_ipek des bdk ksn
  unfolding derive_ipek base_of
  same_ipek bdk ksn other n d =
      λ i. ipek_from des bdk ((d.length_other ∙ sym n) i) (same_base ksn other n d i)

  -- From a base key of 16 bytes and a serial number of 10, `DeriveIPEK` gives an initial key of 16
  -- bytes, the same for every serial number of that device; and from it and any of these serial
  -- numbers `DeriveSessionKey` gives a key of 16 bytes, whatever the counter.
  device_keys :
      (bdk ksn : Bytes)
      → length bdk ≡ 16
      → length ksn ≡ 10
      → (ipek : Bytes) × (derive_ipek des bdk ksn ≡ ok ipek)
        × (length ipek ≡ 16)
        × ((other : Bytes)
            → SameDevice ksn other
            → (derive_ipek des bdk other ≡ ok ipek)
              × ((key : Bytes) × (derive_session_key des ipek other ≡ ok key) × (length key ≡ 16)))
  device_keys bdk ksn k n =
      let (ipek, q, m) = derive_ipek-IsKey bdk ksn k n in
      (
        ipek,
        q,
        m,
        λ other d. (same_ipek bdk ksn other n d ∙ q, session-IsKey ipek other m d.length_other),
      )
