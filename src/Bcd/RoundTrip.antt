-- ===== src/Bcd/RoundTrip.antt =====
-- `Pack` and `Unpack` against each other.
use isopace.Common.{
  ℕ, zero, suc, ◌+◌, ◌-◌, ◌*◌, ◌/◌, ◌%◌, ◌≤◌, ◌≡◌, refl, ◌∙◌, bit_or, [], ◌∷◌, arith, inl, inr,
}
use isopace.Common.{Bytes, IsByte, length, take, All, ok, Result-cases, Bool-cases, ◌==◌}
use isopace.Common.Bits.{low_nibble, pack_nibbles}
use isopace.Common.Int.{pos}
use isopace.Bcd.{
  packed_len, nibble, pack_pairs, pack, pack_odd, unpack_pairs, unpack_odd, unpack, IsDigit,
}

pub nibble_digit : (c : ℕ) → IsDigit c → nibble c ≡ ok (c - b'0')
unfolding nibble
nibble_digit c h = ground arith

-- One byte of two digits, read back.
unpack_pairs_cons :
    (hi lo : ℕ) (bs : Bytes) {ds : Bytes}
    → hi ≤ 9
    → lo ≤ 9
    → unpack_pairs bs ≡ ok ds
    → unpack_pairs (bit_or (hi * 16 % 256) lo ∷ bs) ≡ ok ((b'0' + hi) ∷ (b'0' + lo) ∷ ds)
unfolding unpack_pairs
unpack_pairs_cons hi lo bs h l e =
    ground (
      arith,
      pack_nibbles hi lo (omega arith) (omega arith),
      low_nibble (hi * 16 + lo) (omega arith),
    )

pack_pairs_cons :
    (x y : ℕ) (ds : Bytes) {p : Bytes}
    → IsDigit x
    → IsDigit y
    → pack_pairs ds ≡ ok p
    → pack_pairs (x ∷ y ∷ ds) ≡ ok (bit_or ((x - b'0') * 16 % 256) (y - b'0') ∷ p)
unfolding pack_pairs
pack_pairs_cons x y ds hx hy e = ground (arith, nibble_digit x hx, nibble_digit y hy)

-- What `p` must be for the round trip of an even number of digits.
abbrev Packs : Bytes → Bytes → Type 0
Packs ds p = (pack_pairs ds ≡ ok p) × (unpack_pairs p ≡ ok ds) × (length p * 2 ≡ length ds)

pack_pairs_total : (ds : Bytes) → All IsDigit ds → length ds % 2 ≡ 0 → (p : Bytes) × Packs ds p
pack_pairs_total [] h e = ([], (unfold pack_pairs in refl, unfold unpack_pairs in refl, refl))
pack_pairs_total (x ∷ []) h e = absurd (omega arith)
pack_pairs_total (x ∷ y ∷ ds) (hx, (hy, h)) e =
    let (p, t) = pack_pairs_total ds h (omega arith) in
    (
      bit_or ((x - b'0') * 16 % 256) (y - b'0') ∷ p,
      (
        pack_pairs_cons x y ds hx hy t.0,
        ground (arith, unpack_pairs_cons (x - b'0') (y - b'0') p (omega arith) (omega arith) t.1),
        omega (arith, t.2),
      ),
    )

pub pack-even : (ds : Bytes) → length ds % 2 ≡ 0 → pack ds ≡ pack_pairs ds
unfolding pack
pack-even ds e = ground arith

take_all : (p : Bytes) (n : ℕ) → n ≡ length p → take n p ≡ p
take_all [] zero e = refl
take_all [] (suc n) e = refl
take_all (x ∷ p) zero e = absurd (omega arith)
take_all (x ∷ p) (suc n) e = rw (take_all p n (omega arith))

unpack-even : (p : Bytes) (n : ℕ) → n % 2 ≡ 0 → length p * 2 ≡ n → unpack p (pos n) ≡ unpack_pairs p
unfolding unpack packed_len
unpack-even p n e l = ground (arith, take_all p ((n + 1) / 2) (omega arith))

unpack-odd :
    (x : ℕ) (p : Bytes) (n : ℕ) {ds : Bytes}
    → n % 2 ≡ 1
    → length p * 2 + 1 ≡ n
    → x ≤ 9
    → unpack_pairs p ≡ ok ds
    → unpack (x ∷ p) (pos n) ≡ ok ((b'0' + x) ∷ ds)
unfolding unpack packed_len unpack_odd
unpack-odd x p n e l h u =
    ground (arith, take_all (x ∷ p) ((n + 1) / 2) (omega arith), low_nibble x (omega arith))

-- What `p` must be for the round trip of any number of digits.
abbrev Reads : Bytes → Bytes → Type 0
Reads ds p =
    (pack ds ≡ ok p) × (unpack p (pos (length ds)) ≡ ok ds) × (length p ≡ packed_len (length ds))

odd_total : (ds : Bytes) → All IsDigit ds → length ds % 2 ≡ 1 → (p : Bytes) × Reads ds p
odd_total [] h e = absurd (omega arith)
odd_total (x ∷ ds) (hx, h) e =
    let (p, t) = pack_pairs_total ds h (omega arith) in
    (
      (x - b'0') ∷ p,
      (
        unfold pack pack_odd in ground (arith, nibble_digit x hx, t.0),
        ground (
          arith,
          unpack-odd (x - b'0') p (suc (length ds)) e (omega (arith, t.2)) (omega arith) t.1,
        ),
        unfold packed_len in omega (arith, t.2),
      ),
    )

even_total : (ds : Bytes) → All IsDigit ds → length ds % 2 ≡ 0 → (p : Bytes) × Reads ds p
even_total ds h e =
    let (p, t) = pack_pairs_total ds h e in
    (
      p,
      (
        rw (pack-even ds e) t.0,
        rw (unpack-even p (length ds) e t.2) t.1,
        unfold packed_len in omega (arith, t.2),
      ),
    )

-- On decimal digits `Pack` succeeds with `PackedLen` bytes, and `Unpack` of these bytes at the
-- same count is the digits again.
pub pack_total :
    (ds : Bytes)
    → All IsDigit ds
    → (p : Bytes) × ((pack ds ≡ ok p)
        × (unpack p (pos (length ds)) ≡ ok ds)
        × (length p ≡ packed_len (length ds)))
pack_total ds h = elim (Bool-cases (length ds % 2 == 1)) [
  | inl odd ↦ odd_total ds h (ground arith)
  | inr even ↦ even_total ds h (ground arith)
]

-- Whatever `Pack` accepts is a list of decimal digits.
pack_pairs-IsDigit : (ds : Bytes) {p : Bytes} → pack_pairs ds ≡ ok p → All IsDigit ds
unfolding pack_pairs nibble
pack_pairs-IsDigit [] e = tt
pack_pairs-IsDigit (x ∷ []) e = ground arith
pack_pairs-IsDigit (x ∷ y ∷ ds) e = elim (Result-cases (pack_pairs ds)) [
  | inl (q, r) ↦ let ih = pack_pairs-IsDigit ds r in ground arith
  | inr (w, r) ↦ ground arith
]

pack_odd-IsDigit : (ds : Bytes) {p : Bytes} → pack_odd ds ≡ ok p → All IsDigit ds
unfolding pack_odd nibble
pack_odd-IsDigit [] e = tt
pack_odd-IsDigit (x ∷ ds) e = elim (Result-cases (pack_pairs ds)) [
  | inl (q, r) ↦ let ih = pack_pairs-IsDigit ds r in ground arith
  | inr (w, r) ↦ ground arith
]

-- Whatever `Pack` accepts is a list of decimal digits.
pub pack-IsDigit : (ds : Bytes) {p : Bytes} → pack ds ≡ ok p → All IsDigit ds
unfolding pack
pack-IsDigit ds e = elim (Bool-cases (length ds % 2 == 1)) [
  | inl odd ↦ pack_odd-IsDigit ds (rw odd at e)
  | inr even ↦ pack_pairs-IsDigit ds (rw even at e)
]

-- One byte of two decimal nibbles, packed again.
repack_byte :
    (b : ℕ)
    → IsByte b
    → b / 16 ≤ 9
    → b % 16 ≤ 9
    → bit_or ((b'0' + b / 16 - b'0') * 16 % 256) (b'0' + b % 16 - b'0') ≡ b
repack_byte b hb h l = ground (arith, pack_nibbles (b / 16) (b % 16) (omega arith) (omega arith))

unpack_pairs_uncons :
    (b : ℕ) (p : Bytes) {ds : Bytes}
    → IsByte b
    → unpack_pairs (b ∷ p) ≡ ok ds
    → (q : Bytes) × (unpack_pairs p ≡ ok q)
      × (b / 16 ≤ 9)
      × (b % 16 ≤ 9)
      × (ds ≡ (b'0' + b / 16) ∷ (b'0' + b % 16) ∷ q)
unfolding unpack_pairs
unpack_pairs_uncons b p hb e = elim (Result-cases (unpack_pairs p)) [
  | inl (q, r) ↦ let l = low_nibble b hb in (q, r, ground arith, ground arith, ground arith)
  | inr (w, r) ↦ absurd (ground arith)
]

-- What `Unpack` returns of whole bytes is digits, two for each byte, and packs to the same bytes.
unpack_pairs_inv :
    (p : Bytes) {ds : Bytes}
    → All IsByte p
    → unpack_pairs p ≡ ok ds
    → All IsDigit ds × (length ds ≡ length p * 2) × (pack_pairs ds ≡ ok p)
unpack_pairs_inv [] h e = unfold unpack_pairs pack_pairs in ground arith
unpack_pairs_inv (b ∷ p) (hb, h) e =
    let (q, r, hi, lo, eq) = unpack_pairs_uncons b p hb e in
    let ih = unpack_pairs_inv p h r in
    rw eq (
      ((omega arith, omega arith), ((omega arith, omega arith), ih.0)),
      omega (arith, ih.1),
      pack_pairs_cons (b'0' + b / 16) (b'0' + b % 16) q (omega arith) (omega arith) ih.2
          ∙ rw (repack_byte b hb hi lo),
    )

-- At an even count `Unpack` is injective on whole buffers: `Pack` gives the same bytes back.
pub unpack_even :
    (p : Bytes) (n : ℕ) {ds : Bytes}
    → All IsByte p
    → length p * 2 ≡ n
    → unpack p (pos n) ≡ ok ds
    → All IsDigit ds × (length ds ≡ n) × (pack ds ≡ ok p)
unpack_even p n {ds} h l e =
    let even : n % 2 ≡ 0 = omega arith in
    let e' : unpack_pairs p ≡ ok ds = rw (unpack-even p n even l) at e in
    let (d, len, packs) = unpack_pairs_inv p h e' in
    (d, omega arith, rw (pack-even ds (omega arith)) packs)
