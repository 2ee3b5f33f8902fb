-- ===== src/Vault/PinBlock/RoundTrip.antt =====
-- A PIN comes back from its block.
use isopace.Common.{some_injective, none_ne_some}
use isopace.Common.{
  ℕ, zero, suc, ◌+◌, ◌-◌, ◌%◌, ◌<◌, ◌≤◌, ◌≡◌, refl, sym, ap, ◌∙◌, true, false, [], ◌∷◌, ◌++◌, map,
  arith, bit_and, some, ◌||◌,
}
use isopace.Common.{
  Bytes, IsByte, All, All-append, length, length-append, length-replicate, replicate, ok, not, ltb,
  ◌==◌,
}
use isopace.Common.Bits.{low_nibble}
use isopace.Bcd.{IsDigit}
use isopace.Vault.PinBlock.{
  Format, iso0, iso1, iso3, other, control, Reader, pack_nibbles, unpack_nibbles, pad_nibbles,
  pin_digit, pin_field, xored, all_nibbles, check_padding, decode_nibbles, clear_block,
  encode_pin_block, decode_pin_block,
}
use isopace.Vault.PinBlock.Nibbles.{
  IsNibble, unpack_nibbles-pack_nibbles, length-pack_nibbles, xored-xored, length-xored, values,
  digits_of-IsDigit, length-values, values-IsNibble, read_pin-values, pan_field-IsDigit,
}

-- The reader fills every buffer, with bytes.
abbrev pub Fills : Reader → Type 0
Fills r = (n : ℕ) → (buf : Bytes) × ((r n ≡ some buf) × ((length buf ≡ n) × All IsByte buf))

-- The padding of `n` nibbles, which the format's check accepts.
record Padding (f : Format) (n : ℕ) (r : Reader) : Type 0 where
  tail : Bytes
  pad_eq : pad_nibbles f n r ≡ ok tail
  tail_len : length tail ≡ n
  tail_nibbles : All IsNibble tail
  accepted : check_padding f tail ≡ ok tt

f_padding : (n : ℕ) → all_nibbles (λ n. n == 0xF) (replicate n 0xF) ≡ ok tt
unfolding all_nibbles
f_padding zero = refl
f_padding (suc n) = f_padding n

f_nibbles : (n : ℕ) → All IsNibble (replicate n 0xF)
f_nibbles zero = tt
f_nibbles (suc n) = (omega arith, f_nibbles n)

low_nibbles :
    (buf : Bytes)
    → All IsByte buf
    → (let t = map (λ b. bit_and b 0x0F) buf in (length t ≡ length buf) × All IsNibble t)
low_nibbles [] h = (refl, tt)
low_nibbles (b ∷ buf) (hb, h) =
    let (len, nib) = low_nibbles buf h in (ap suc len, (omega (arith, low_nibble b hb), nib))

letters :
    (buf : Bytes)
    → (let t = map (λ b. 0xA + b % 6) buf in
        (length t ≡ length buf)
        × ((All IsNibble t) × (all_nibbles (λ n. not (ltb n 0xA)) t ≡ ok tt)))
unfolding all_nibbles
letters [] = (refl, (tt, refl))
letters (b ∷ buf) =
    let (len, (nib, good)) = letters buf in
    let high : ltb (0xA + b % 6) 0xA ≡ false = ground arith in
    (ap suc len, ((omega arith, nib), rw (high, good) refl))

fill_of : (f : Format) {c : ℕ} (n : ℕ) (r : Reader) → control f ≡ some c → Fills r → Padding f n r
unfolding pad_nibbles check_padding
fill_of iso0 n r e fills = record {
  tail = replicate n 0xF;
  pad_eq = refl;
  tail_len = length-replicate n 0xF;
  tail_nibbles = f_nibbles n;
  accepted = f_padding n;
}
fill_of iso1 zero r e fills = record {
  tail = [];
  pad_eq = refl;
  tail_len = refl;
  tail_nibbles = tt;
  accepted = refl;
}
fill_of iso1 (suc n) r e fills =
    let (buf, (q, (len, bytes))) = fills (suc n) in
    let (same, nib) = low_nibbles buf bytes in
    record {
      tail = map (λ b. bit_and b 0x0F) buf;
      pad_eq = rw (pad_nibbles, q) refl;
      tail_len = same ∙ len;
      tail_nibbles = nib;
      accepted = refl;
    }
fill_of iso3 zero r e fills =
    unfold all_nibbles in
    record { tail = []; pad_eq = refl; tail_len = refl; tail_nibbles = tt; accepted = refl }
fill_of iso3 (suc n) r e fills =
    let (buf, (q, (len, bytes))) = fills (suc n) in
    let (same, (nib, good)) = letters buf in
    record {
      tail = map (λ b. 0xA + b % 6) buf;
      pad_eq = rw (pad_nibbles, q) refl;
      tail_len = same ∙ len;
      tail_nibbles = nib;
      accepted = good;
    }
fill_of (other _) n r e fills = absurd (none_ne_some e)

control_small : (f : Format) {c : ℕ} → control f ≡ some c → c < 16
control_small iso0 e = let q = some_injective e in omega (arith, q)
control_small iso1 e = let q = some_injective e in omega (arith, q)
control_small iso3 e = let q = some_injective e in omega (arith, q)
control_small (other _) e = absurd (none_ne_some e)

module _ (f : Format) (c : ℕ) (pin : Bytes) (known : control f ≡ some c) (digits : All IsDigit pin)
    (low : 4 ≤ length pin) (high : length pin ≤ 12) where
  -- The sixteen nibbles of the PIN field.
  field_nibbles : Bytes → Bytes
  field_nibbles tail = c ∷ length pin ∷ (values pin ++ tail)

  in_range : (ltb (length pin) 4 || ltb 12 (length pin)) ≡ false
  in_range = ground arith

  decode_nibbles_lem :
      (tail : Bytes)
      → check_padding f tail ≡ ok tt
      → decode_nibbles f c (field_nibbles tail) ≡ ok pin
  unfolding decode_nibbles field_nibbles
  decode_nibbles_lem tail good =
      let same : (c == c) ≡ true = ground arith in
      rw (same, in_range, read_pin-values pin tail digits, good) refl

  length-field_nibbles :
      (tail : Bytes) → length tail ≡ 14 - length pin → length (field_nibbles tail) ≡ 16
  unfolding field_nibbles
  length-field_nibbles tail e = omega (arith, e, length-append (values pin) tail, length-values pin)

  field_nibbles-IsNibble : (tail : Bytes) → All IsNibble tail → All IsNibble (field_nibbles tail)
  unfolding field_nibbles
  field_nibbles-IsNibble tail h = (
    control_small f known,
    (omega arith, All-append IsNibble (values pin) tail (values-IsNibble pin digits) h),
  )

  -- The PIN field is made, has eight bytes, and is read back.
  field_lem :
      (r : Reader)
      → Fills r
      → (pf : Bytes) × ((pin_field f pin r ≡ ok pf)
          × ((length pf ≡ 8) × (decode_nibbles f c (unpack_nibbles pf) ≡ ok pin)))
  unfolding pin_field field_nibbles
  field_lem r fills =
      let p = fill_of f (14 - length pin) r known fills in
      let ns = field_nibbles p.tail in
      let len = length-field_nibbles p.tail p.tail_len in
      let even : length ns % 2 ≡ 0 = omega (arith, len) in
      let back =
        unpack_nibbles-pack_nibbles ns (field_nibbles-IsNibble p.tail p.tail_nibbles) even in
      (
        pack_nibbles ns,
        (
          rw (pin_field, known, in_range, digits_of-IsDigit pin_digit pin digits, p.pad_eq) refl,
          (
            length-pack_nibbles ns even ∙ omega (arith, len),
            rw back (decode_nibbles_lem p.tail p.accepted),
          ),
        ),
      )

-- The block that a PIN field of eight bytes makes, and the field that the PAN uncovers again.
record Masked (f : Format) (pin pan : Bytes) (r : Reader) (pf : Bytes) : Type 0 where
  block : Bytes
  encodes : encode_pin_block f pin pan r ≡ ok block
  block_len : length block ≡ 8
  clears : clear_block f block pan ≡ ok pf

module _ (pin pan : Bytes) (r : Reader) (pf : Bytes) (len : length pf ≡ 8)
    (digits : All IsDigit pan) (long : 13 ≤ length pan) where
  masked :
      (f : Format) {c : ℕ} → control f ≡ some c → pin_field f pin r ≡ ok pf → Masked f pin pan r pf
  unfolding encode_pin_block clear_block
  masked iso0 known e =
      let (af, (q, n)) = pan_field-IsDigit pan digits long in
      record {
        block = xored pf af;
        encodes = rw (e, q) refl;
        block_len = length-xored pf af (len ∙ sym n) ∙ len;
        clears = rw (q, xored-xored pf af (len ∙ sym n)) refl;
      }
  masked iso1 known e = record { block = pf; encodes = e; block_len = len; clears = refl }
  masked iso3 known e =
      let (af, (q, n)) = pan_field-IsDigit pan digits long in
      record {
        block = xored pf af;
        encodes = rw (e, q) refl;
        block_len = length-xored pf af (len ∙ sym n) ∙ len;
        clears = rw (q, xored-xored pf af (len ∙ sym n)) refl;
      }
  masked (other _) known e = absurd (none_ne_some known)

decode_pin_block_lem :
    (f : Format) (block pan pf pin : Bytes) {c : ℕ}
    → control f ≡ some c
    → length block ≡ 8
    → clear_block f block pan ≡ ok pf
    → decode_nibbles f c (unpack_nibbles pf) ≡ ok pin
    → decode_pin_block f block pan ≡ ok pin
unfolding decode_pin_block
decode_pin_block_lem f block pan pf pin known len clears back =
    rw (decode_pin_block, len, known, clears, back) refl

-- In each of the three formats, a PIN of 4 to 12 digits under a PAN of at least 13 digits, with a source
-- of randomness that does not fail, is encoded into a block of eight bytes, and decoding the
-- block under that PAN gives the PIN.
pub decode_pin_block-encode_pin_block :
    (f : Format) {c : ℕ} (pin pan : Bytes) (r : Reader)
    → control f ≡ some c
    → All IsDigit pin
    → 4 ≤ length pin
    → length pin ≤ 12
    → All IsDigit pan
    → 13 ≤ length pan
    → Fills r
    → (block : Bytes) × ((encode_pin_block f pin pan r ≡ ok block)
        × ((length block ≡ 8) × (decode_pin_block f block pan ≡ ok pin)))
decode_pin_block-encode_pin_block f {c = c} pin pan r known digits low high pan_digits long fills =
    let (pf, (made, (len, back))) = field_lem f c pin known digits low high r fills in
    let m = masked pin pan r pf len pan_digits long f known made in
    (
      m.block,
      (
        m.encodes,
        (m.block_len, decode_pin_block_lem f m.block pan pf pin known m.block_len m.clears back),
      ),
    )
