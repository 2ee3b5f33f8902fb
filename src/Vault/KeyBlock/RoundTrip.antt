-- ===== src/Vault/KeyBlock/RoundTrip.antt =====
-- vault/keyblock.go: a wrapped key is unwrapped.
use isopace.Common.{
  ℕ, zero, suc, ◌+◌, ◌-◌, ◌*◌, ◌/◌, ◌≤◌, ◌≡◌, ◌∙◌, refl, sym, ap, inl, inr, true, false, ◌||◌, none,
  some, [], ◌++◌, ltb, ◌==◌, Bytes, IsByte, length, take, drop, arith, Result, ok, err, All,
  All-append, length-append, take-append_eq, drop-append_eq, slice-append,
}
use isopace.Common.BigEndian.{be_get, be_put, length-be_put, be_put-IsByte, be_get-be_put}
use isopace.BitmapCodec.Words.{hex_decode-hex_encode, length-hex}
use isopace.Vault.Cipher.{Des, IsDesLibrary}
use isopace.Vault.PinBlock.{Reader}
use isopace.Vault.KeyBlock.{
  KeyBlockHeader, KeyBlockError, read_pad, pad_count, confidential, wrap_key_block, open_block,
  key_of_plain, decode_hex, check_block, unwrap_key_block, hex_text, bad_key_data, bad_mac,
}
use isopace.Vault.KeyBlock.Header.{version_text, normal_header, marshal_header-IsWritten}
use isopace.Vault.Cipher.Blocks.{IsKeyLength}
use isopace.Vault.KeyBlock.Opening.{seal_block-Sealed}

-- The source of randomness gives what it is asked for.
abbrev pub Fills : Reader → Type 0
Fills r = (n : ℕ) → 1 ≤ n → (p : Bytes) × (r n ≡ some p) × (length p ≡ n) × All IsByte p

read_pad-Fills :
    (r : Reader)
    → Fills r
    → (n : ℕ) → (p : Bytes) × (read_pad r n ≡ some p) × (length p ≡ n) × All IsByte p
unfolding read_pad
read_pad-Fills r h zero = ([], refl, refl, tt)
read_pad-Fills r h (suc n) = h (suc n) (omega arith)

length-confidential :
    (key pad : Bytes) → length (confidential key pad) ≡ 2 + length key + length pad
unfolding confidential
length-confidential key pad = omega (
  arith,
  length-append (be_put 2 (length key * 8)) (key ++ pad),
  length-append key pad,
  length-be_put 2 (length key * 8),
)

confidential-IsByte :
    (key pad : Bytes) → All IsByte key → All IsByte pad → All IsByte (confidential key pad)
unfolding confidential
confidential-IsByte key pad hk hp =
    All-append IsByte (be_put 2 (length key * 8)) (key ++ pad) (be_put-IsByte 2 (length key * 8))
      (All-append IsByte key pad hk hp)

key_of_plain-confidential :
    {C : Type 0} (key pad : Bytes)
    → length key ≤ 8191
    → key_of_plain {C = C} (confidential key pad) ≡ ok key
unfolding key_of_plain confidential
key_of_plain-confidential key pad small =
    let plain : Bytes = confidential key pad in
    let size : be_get (take 2 plain) / 8 ≡ length key =
      ap (λ s. be_get s / 8)
        (take-append_eq 2 (be_put 2 (length key * 8)) (key ++ pad)
          (sym (length-be_put 2 (length key * 8))))
      ∙ ap (λ n. n / 8) (be_get-be_put 2 (length key * 8) (omega arith))
      ∙ omega arith in
    let l = length-confidential key pad in
    let t1 : ltb (length plain) 2 ≡ false = ground (arith, l) in
    let t2 : ltb (length plain) (2 + length key) ≡ false = ground (arith, l) in
    rw (size, t1, t2)
      (ap ok (
        slice-append 2 (2 + length key) (be_put 2 (length key * 8)) key pad
          (sym (length-be_put 2 (length key * 8)))
          (ap (λ n. n + length key) (sym (length-be_put 2 (length key * 8))))))

pub decode_hex-hex_text :
    {C : Type 0} (e : KeyBlockError C) (b : Bytes) → All IsByte b → decode_hex e (hex_text b) ≡ ok b
unfolding decode_hex hex_text
decode_hex-hex_text e b h =
    ap (λ o. elim o as (λ _. Result _ Bytes) [ none ↦ err e | some x ↦ ok x ])
      (hex_decode-hex_encode b h)

length-hex_text : (b : Bytes) → length (hex_text b) ≡ length b * 2
unfolding hex_text
length-hex_text b = length-hex b

module _ {C : Type 0} (des : Des C) (lib : IsDesLibrary des) (kbpk : Bytes)
    (long : IsKeyLength (length kbpk)) where
  kbpk_test : (length kbpk == 16 || length kbpk == 24) ≡ true
  kbpk_test = elim long [ inl e ↦ ground arith | inr e ↦ ground arith ]

  -- The block in its parts.
  unwrap_parts :
      (hdr : KeyBlockHeader) (header ct mac plain key : Bytes)
      → length header ≡ 16
      → length mac ≡ 8
      → All IsByte ct
      → All IsByte mac
      → check_block {C = C} (header ++ (hex_text ct ++ hex_text mac)) ≡ ok hdr
      → open_block des kbpk header ct mac ≡ ok plain
      → key_of_plain {C = C} plain ≡ ok key
      → unwrap_key_block des kbpk (header ++ (hex_text ct ++ hex_text mac)) ≡ ok (hdr, key)
  unfolding unwrap_key_block
  unwrap_parts hdr header ct mac plain key lh lm bc bm checks opens found =
      let body : Bytes = hex_text ct ++ hex_text mac in
      let n : length body - 16 ≡ length (hex_text ct) =
        omega (arith, lm, length-append (hex_text ct) (hex_text mac), length-hex_text mac) in
      let b : drop 16 (header ++ body) ≡ body = drop-append_eq 16 header body (sym lh) in
      let f : take 16 (header ++ body) ≡ header = take-append_eq 16 header body (sym lh) in
      let x : take (length body - 16) body ≡ hex_text ct =
        take-append_eq _ (hex_text ct) (hex_text mac) n in
      let y : drop (length body - 16) body ≡ hex_text mac =
        drop-append_eq _ (hex_text ct) (hex_text mac) n in
      rw
        (
          kbpk_test,
          checks,
          b,
          f,
          x,
          y,
          decode_hex-hex_text bad_key_data ct bc,
          decode_hex-hex_text bad_mac mac bm,
          opens,
          found,
        )
        refl

  -- Under a key block protection key of 16 or 24 bytes, a source of randomness that gives the bytes it is asked for, and
  -- a header whose usage has two characters and its key version two or none: a key of 1 to 4974
  -- bytes is wrapped, and unwrapping the block under the same protection key gives that key and the
  -- header, with the version set to 'B' and an empty key version to "00".
  pub unwrap-wrap :
      (hdr : KeyBlockHeader) (key : Bytes) (r : Reader)
      → length hdr.key_usage ≡ 2
      → length (version_text hdr) ≡ 2
      → 1 ≤ length key
      → length key ≤ 4974
      → All IsByte key
      → Fills r
      → (block : Bytes) × (wrap_key_block des kbpk hdr key r ≡ ok block)
        × (unwrap_key_block des kbpk block ≡ ok (normal_header hdr, key))
  unfolding wrap_key_block
  unwrap-wrap hdr key r usage version some_key small key_bytes fills =
      let (pad, read, filled, random) = read_pad-Fills r fills (pad_count key) in
      let plain : Bytes = confidential key pad in
      let l = length-confidential key pad in
      let w =
        marshal_header-IsWritten {C = C} hdr (16 + 2 * length plain + 16) usage version
          (omega (arith, l, filled)) in
      let s =
        seal_block-Sealed des lib kbpk w.header plain long (omega (arith, l, filled))
          (confidential-IsByte key pad key_bytes random) in
      let n : length (hex_text s.ct ++ hex_text s.mac) ≡ 2 * length plain + 16 = omega (
        arith,
        length-append (hex_text s.ct) (hex_text s.mac),
        length-hex_text s.ct,
        length-hex_text s.mac,
        s.length_ct,
        s.is_tag,
      ) in
      let nonempty : (length key == 0) ≡ false = ground arith in
      (
        w.header ++ (hex_text s.ct ++ hex_text s.mac),
        rw (kbpk_test, nonempty, read, w.writes, s.seals) refl,
        unwrap_parts (normal_header hdr) w.header s.ct s.mac plain key w.length_header s.is_tag.0
            s.ct_bytes s.is_tag.1
            (w.checks (hex_text s.ct ++ hex_text s.mac) (omega (arith, n)) (omega (arith, n))
              (omega (arith, n, l, filled)))
            s.opens (key_of_plain-confidential key pad (omega arith)),
      )
