-- ===== src/Length/RoundTrip.antt =====
-- What `WriteLen` accepts, and that `ReadLen` reads back what `WriteLen` wrote.
use isopace.Common.{
  ℕ, zero, suc, ◌+◌, ◌-◌, ◌*◌, ◌^◌, ◌≤◌, ◌<◌, ◌≡◌, refl, sym, ap, ◌∙◌, [], ◌∷◌, ◌++◌, arith, false,
}
use isopace.Common.{
  if◌then◌else◌, Bytes, length, length-append, length-replicate, slice, slice-append, All,
  All-append, replicate, ltb, ok, err, Result,
}
use isopace.Common.Int.{pos, negsuc}
use isopace.Common.BigEndian.{be_get, be_put, be_get-be_put, length-be_put}
use isopace.Bcd.{IsDigit, packed_len}
use isopace.Bcd.RoundTrip.{pack_total}
use isopace.Ebcdic.{cp037, encode}
use isopace.Ebcdic.Laws.{IsCp037, decode-encode-cp037, length-encode}
use isopace.Digits.{itoa, digits_from}
use isopace.Digits.Laws.{
  itoa-IsDigit, digits_from-append, digits_from-itoa, digits_from-replicate, length-itoa, lt-itoa,
}
use isopace.Length.{
  LengthError, truncated, overflow, Repr, ascii, ebcdic, packed, binary, VarLen, atoi_digits_from,
  atoi_digits, decimal_pad, read_len, read_repr, write_len, write_repr, shl_one,
}

pub atoi_digits_from-eq :
    (acc : ℕ) (s : Bytes) → All IsDigit s → atoi_digits_from acc s ≡ ok (digits_from acc s)
unfolding atoi_digits_from digits_from
atoi_digits_from-eq acc [] h = refl
atoi_digits_from-eq acc (c ∷ s) (hc, h) =
    ground (arith, atoi_digits_from-eq (acc * 10 + (c - b'0')) s h)

replicate-IsDigit : (k : ℕ) → All IsDigit (replicate k b'0')
replicate-IsDigit zero = tt
replicate-IsDigit (suc k) = (omega arith, replicate-IsDigit k)

-- What `decimalPad` writes for `n` in `width` digits.
abbrev Padded : ℕ → ℕ → Bytes → Type 0
Padded n width s = All IsDigit s × (length s ≡ width) × (atoi_digits s ≡ ok n)

padded :
    (n width : ℕ)
    → length (itoa n) ≤ width
    → Padded n width (replicate (width - length (itoa n)) b'0' ++ itoa n)
unfolding atoi_digits
padded n width h =
    let zeros : Bytes = replicate (width - length (itoa n)) b'0' in
    let d = All-append IsDigit zeros (itoa n) (replicate-IsDigit _) (itoa-IsDigit n) in
    (
      d,
      omega (
        arith,
        length-append zeros (itoa n),
        length-replicate {A = ℕ} (width - length (itoa n)) b'0',
      ),
      atoi_digits_from-eq 0 (zeros ++ itoa n) d
          ∙ ap ok (
              digits_from-append 0 zeros (itoa n)
              ∙ rw (digits_from-replicate (width - length (itoa n))) (digits_from-itoa n)),
    )

-- `decimalPad` succeeds exactly below 10 ^ width, for a width of one digit at least.
decimal_pad_fits :
    (n w : ℕ) → n < 10 ^ suc w → (s : Bytes) × ((decimal_pad n (suc w) ≡ ok s) × Padded n (suc w) s)
decimal_pad_fits n w h =
    let l = length-itoa n w h in
    (
      replicate (suc w - length (itoa n)) b'0' ++ itoa n,
      (unfold decimal_pad in ground arith, padded n (suc w) l),
    )

decimal_pad_overflow : (n w : ℕ) → 10 ^ w ≤ n → decimal_pad n w ≡ err overflow
unfolding decimal_pad
decimal_pad_overflow n w h = ground (arith, lt-itoa n w)

-- The counts below this number have a prefix.
abbrev pub capacity : Repr → VarLen → ℕ
capacity binary v = 256 ^ v.bytes
capacity _ v = 10 ^ v.digits

-- At least one digit, or at most seven raw bytes.
abbrev pub Fits : Repr → VarLen → Type 0
Fits binary v = v.bytes ≤ 7
Fits _ v = 1 ≤ v.digits

shl_one_lem : (b : ℕ) → b ≤ 7 → shl_one (8 * b) ≡ 256 ^ b
shl_one_lem zero h = refl
shl_one_lem (suc zero) h = refl
shl_one_lem (suc (suc zero)) h = refl
shl_one_lem (suc (suc (suc zero))) h = refl
shl_one_lem (suc (suc (suc (suc zero)))) h = refl
shl_one_lem (suc (suc (suc (suc (suc zero))))) h = refl
shl_one_lem (suc (suc (suc (suc (suc (suc zero)))))) h = refl
shl_one_lem (suc (suc (suc (suc (suc (suc (suc zero))))))) h = refl
shl_one_lem (suc (suc (suc (suc (suc (suc (suc (suc b)))))))) h = absurd (omega arith)

module _ (v : VarLen) (n : ℕ) (dst rest : Bytes) where
  -- The prefix `p` is written behind `dst`, and read back in front of `rest`.
  abbrev RoundTrips : Repr → Bytes → Type 0
  RoundTrips r p =
      (write_repr r v dst n ≡ ok (dst ++ p))
      × (read_repr r v (dst ++ (p ++ rest)) (length dst) ≡ ok (n, length dst + length p))

  enough : (p : Bytes) → ltb (length (dst ++ (p ++ rest))) (length dst + length p) ≡ false
  enough p = ground (arith, length-append dst (p ++ rest), length-append p rest)

  slice_prefix : (p : Bytes) → slice (dst ++ (p ++ rest)) (length dst) (length dst + length p) ≡ p
  slice_prefix p = slice-append (length dst) (length dst + length p) dst p rest refl refl

  ascii_case : (w : ℕ) → v.digits ≡ suc w → n < 10 ^ v.digits → (p : Bytes) × RoundTrips ascii p
  unfolding read_repr write_repr
  ascii_case w e h =
      let (s, t) = decimal_pad_fits n w (rw e at h) in
      let pad = t.0 in
      let (d, len, val) = t.1 in
      (s, (rw (e, pad) refl, rw (e, ← len, enough s, slice_prefix s) (rw val)))

  digit-IsCp037 : (s : Bytes) → All IsDigit s → All IsCp037 s
  digit-IsCp037 [] h = tt
  digit-IsCp037 (c ∷ s) (hc, h) = (((omega arith, omega arith), omega arith), digit-IsCp037 s h)

  ebcdic_case : (w : ℕ) → v.digits ≡ suc w → n < 10 ^ v.digits → (p : Bytes) × RoundTrips ebcdic p
  unfolding read_repr write_repr
  ebcdic_case w e h =
      let (s, t) = decimal_pad_fits n w (rw e at h) in
      let pad = t.0 in
      let (d, len, val) = t.1 in
      let same = (decode-encode-cp037 s (digit-IsCp037 s d)).0 in
      let len' : length (encode cp037 s) ≡ suc w = length-encode cp037 s ∙ len in
      (
        encode cp037 s,
        (
          rw (e, pad) refl,
          rw (e, ← len', enough (encode cp037 s), slice_prefix (encode cp037 s), same) (rw val),
        ),
      )

  packed_case : (w : ℕ) → v.digits ≡ suc w → n < 10 ^ v.digits → (p : Bytes) × RoundTrips packed p
  unfolding read_repr write_repr
  packed_case w e h =
      let (s, t) = decimal_pad_fits n w (rw e at h) in
      let pad = t.0 in
      let (d, len, val) = t.1 in
      let (p, q) = pack_total s d in
      let (packs, unpacks, size) = q in
      let size' : packed_len (suc w) ≡ length p = rw (← len) (sym size) in
      (
        p,
        (
          rw (e, pad) (rw packs),
          rw (e, size', enough p, slice_prefix p, ← len) (rw unpacks (rw val)),
        ),
      )

  read_raw :
      (p : Bytes) (k : ℕ)
      → k ≡ length p
      → be_get p ≡ n
      → if◌then◌else◌ {A = Result LengthError (ℕ × ℕ)}
          (ltb (length (dst ++ (p ++ rest))) (length dst + k))
          (err truncated)
          (ok (be_get (slice (dst ++ (p ++ rest)) (length dst) (length dst + k)), length dst + k))
        ≡ ok (n, length dst + length p)
  read_raw p k e val = rw (e, enough p, slice_prefix p) (rw val)

  binary_case : v.bytes ≤ 7 → n < 256 ^ v.bytes → (p : Bytes) × RoundTrips binary p
  unfolding read_repr write_repr
  binary_case b h =
      let p : Bytes = be_put v.bytes n in
      let len = length-be_put v.bytes n in
      (
        p,
        (
          ground (arith, shl_one_lem v.bytes b),
          read_raw p v.bytes (sym len) (be_get-be_put v.bytes n h),
        ),
      )

  -- The number of digits as a successor.
  digits_case : 1 ≤ v.digits → (w : ℕ) × (v.digits ≡ suc w)
  digits_case h = (v.digits - 1, omega arith)

  round_trip : (r : Repr) → Fits r v → n < capacity r v → (p : Bytes) × RoundTrips r p
  round_trip ascii f h = let (w, e) = digits_case f in ascii_case w e h
  round_trip ebcdic f h = let (w, e) = digits_case f in ebcdic_case w e h
  round_trip packed f h = let (w, e) = digits_case f in packed_case w e h
  round_trip binary f h = binary_case f h

  -- Below its capacity a prefix is written behind `dst`, whatever its representation, and
  -- `ReadLen` at its offset returns the count and the offset just past it, whatever follows.
  pub read_len-write_len :
      Fits v.repr v
      → n < capacity v.repr v
      → (p : Bytes) × ((write_len v dst (pos n) ≡ ok (dst ++ p))
          × (read_len v (dst ++ (p ++ rest)) (length dst) ≡ ok (n, length dst + length p)))
  unfolding read_len write_len
  read_len-write_len f h = round_trip v.repr f h

  overflow_at : (r : Repr) → Fits r v → capacity r v ≤ n → write_repr r v dst n ≡ err overflow
  unfolding write_repr
  overflow_at ascii f h = rw (decimal_pad_overflow n v.digits h)
  overflow_at ebcdic f h = rw (decimal_pad_overflow n v.digits h)
  overflow_at packed f h = rw (decimal_pad_overflow n v.digits h)
  overflow_at binary f h = ground (arith, shl_one_lem v.bytes f)

-- `WriteLen` refuses a count at or above the capacity, and a negative one, with `ErrOverflow`.
pub write_len_overflow :
    (v : VarLen) (n : ℕ) (dst : Bytes)
    → Fits v.repr v
    → capacity v.repr v ≤ n
    → (write_len v dst (pos n) ≡ err overflow) × (write_len v dst (negsuc n) ≡ err overflow)
unfolding write_len
write_len_overflow v n dst f h = (overflow_at v n dst [] v.repr f h, refl)
