-- ===== src/Tlv/Triplets.antt =====
-- One tag, one length, one value.
use isopace.Common.{
  ℕ, ◌%◌, ◌^◌, ◌<◌, ◌≤◌, ◌≡◌, refl, sym, ◌∙◌, arith, inl, inr, ◌⊎◌, true, false, ◌||◌, bit_and, [],
  ◌∷◌, ◌++◌,
}
use isopace.Common.{
  ltb, leb, ◌==◌, Bool-cases, Bytes, length, length-append, take-append_eq, drop-append_eq, ok,
}
use isopace.Common.BigEndian.{be_put, length-be_put, be_get-be_put}
use isopace.Common.Bits.Masks.{digit, test-mask}
use isopace.Tlv.{read_tail, read_tag, read_ber_len, read_tlv, ber_len}

-- The bytes of a tag: of the bytes after the first, all but the last have the high bit.
abbrev pub IsTail : Bytes → Type 0
IsTail [] = ⊥
IsTail (c ∷ []) = (bit_and c 0x80 == 0) ≡ true
IsTail (c ∷ d ∷ cs) = ((bit_and c 0x80 == 0) ≡ false) × IsTail (d ∷ cs)

abbrev pub IsTag : Bytes → Type 0
IsTag [] = ⊥
IsTag (b0 ∷ bs) =
    (((bit_and b0 0x1F == 0x1F) ≡ false) × (bs ≡ []))
    ⊎ (((bit_and b0 0x1F == 0x1F) ≡ true) × IsTail bs)

read_tail_lem : (t rest : Bytes) → IsTail t → read_tail (t ++ rest) ≡ ok (t, rest)
unfolding read_tail
read_tail_lem [] rest h = absurd h
read_tail_lem (c ∷ []) rest h = rw h refl
read_tail_lem (c ∷ d ∷ cs) rest (h, k) = rw (h, read_tail_lem (d ∷ cs) rest k) refl

read_tag_lem : (t rest : Bytes) → IsTag t → read_tag (t ++ rest) ≡ ok (t, rest)
unfolding read_tag
read_tag_lem [] rest h = absurd h
read_tag_lem (b ∷ bs) rest (inl (h, e)) = rw (e, h) refl
read_tag_lem (b ∷ bs) rest (inr (h, k)) = rw (h, read_tail_lem bs rest k) refl

-- The long form, of `nb` bytes.
long_len :
    (l0 nb n : ℕ) (rest : Bytes)
    → (bit_and l0 0x80 == 0) ≡ false
    → bit_and l0 0x7F ≡ nb
    → 1 ≤ nb
    → nb ≤ 4
    → n < 256 ^ nb
    → read_ber_len (l0 ∷ (be_put nb n ++ rest)) ≡ ok (n, rest)
unfolding read_ber_len
long_len l0 nb n rest h e lo hi fits =
    let none_bad : (nb == 0 || ltb 4 nb) ≡ false = ground arith in
    let len = length-be_put nb n in
    let room : ltb (length (be_put nb n ++ rest)) nb ≡ false =
      ground (arith, length-append (be_put nb n) rest, len) in
    let front = take-append_eq nb (be_put nb n) rest (sym len) in
    let back = drop-append_eq nb (be_put nb n) rest (sym len) in
    rw (h, e, none_bad, room, front, back, be_get-be_put nb n fits) refl

short_len : (n : ℕ) (rest : Bytes) → n < 128 → read_ber_len (be_put 1 n ++ rest) ≡ ok (n, rest)
unfolding read_ber_len be_put digit
short_len n rest h =
    let low : n % 256 ≡ n = omega arith in
    let clear : (bit_and n 0x80 == 0) ≡ true = test-mask n 7 ∙ ground arith in rw (low, clear) refl

read_ber_len-ber_len :
    (n : ℕ) (rest : Bytes) → n < 2 ^ 32 → read_ber_len (ber_len n ++ rest) ≡ ok (n, rest)
unfolding ber_len
read_ber_len-ber_len n rest h = elim (Bool-cases (ltb n 0x80)) [
  | inl a ↦ rw a (short_len n rest (ground arith))
  | inr a ↦ elim (Bool-cases (leb n 0xFF)) [
    | inl b ↦
        rw (a, b) (long_len 0x81 1 n rest refl refl (omega arith) (omega arith) (ground arith))
    | inr b ↦ elim (Bool-cases (leb n 0xFFFF)) [
      | inl c ↦
          rw (a, b, c) (long_len 0x82 2 n rest refl refl (omega arith) (omega arith) (ground arith))
      | inr c ↦ elim (Bool-cases (leb n 0xFFFFFF)) [
        | inl d ↦
            rw (a, b, c, d)
              (long_len 0x83 3 n rest refl refl (omega arith) (omega arith) (ground arith))
        | inr d ↦
            rw (a, b, c, d)
              (long_len 0x84 4 n rest refl refl (omega arith) (omega arith) (ground arith))
      ]
    ]
  ]
]

-- A triplet in front of other bytes is read, whatever they are.
pub read_tlv_front :
    (tag val rest : Bytes)
    → IsTag tag
    → length val < 2 ^ 32
    → read_tlv (tag ++ (ber_len (length val) ++ (val ++ rest))) ≡ ok (tag, val, rest)
unfolding read_tlv
read_tlv_front tag val rest t h =
    let room : ltb (length (val ++ rest)) (length val) ≡ false =
      ground (arith, length-append val rest) in
    rw
      (
        read_tag_lem tag (ber_len (length val) ++ (val ++ rest)) t,
        read_ber_len-ber_len (length val) (val ++ rest) h,
        room,
        take-append_eq (length val) val rest refl,
        drop-append_eq (length val) val rest refl,
      )
      refl
