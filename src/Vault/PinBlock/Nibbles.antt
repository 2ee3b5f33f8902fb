-- ===== src/Vault/PinBlock/Nibbles.antt =====
-- The parts of a PIN block: nibbles, the exclusive or, digits and padding.
use isopace.Common.{
  ℕ, zero, suc, ◌+◌, ◌-◌, ◌*◌, ◌/◌, ◌%◌, ◌<◌, ◌≤◌, ◌≡◌, refl, ap, ◌∙◌, false, [], ◌∷◌, ◌++◌, map,
  arith, bit_and, bit_or,
}
use isopace.Common.{Bytes, All, length, take, drop, ok, ltb, length-drop}
use isopace.Common.Bits
use isopace.Common.Bits.{low_nibble}
use isopace.Common.Bits.Xor.{xor_back}
use isopace.Bcd.{IsDigit}
use isopace.Vault.PinBlock.{
  pack_nibbles, unpack_nibbles, digits_of, PinError, pan_digit, pan_field, xored, read_pin,
}

abbrev pub IsNibble : ℕ → Type 0
IsNibble n = n < 16

byte_nibbles :
    (h l : ℕ)
    → IsNibble h
    → IsNibble l
    → (let b = bit_or (h * 16 % 256) (bit_and l 0x0F) in (b / 16 ≡ h) × (bit_and b 0x0F ≡ l))
byte_nibbles h l p q =
    let low : bit_and l 0x0F ≡ l = low_nibble l (omega arith) ∙ omega arith in
    let b : bit_or (h * 16 % 256) (bit_and l 0x0F) ≡ h * 16 + l =
      rw low (Bits.pack_nibbles h l p q) in
    (rw b (omega arith), rw b (low_nibble (h * 16 + l) (omega arith) ∙ omega arith))

pub unpack_nibbles-pack_nibbles :
    (ns : Bytes) → All IsNibble ns → length ns % 2 ≡ 0 → unpack_nibbles (pack_nibbles ns) ≡ ns
unfolding pack_nibbles unpack_nibbles
unpack_nibbles-pack_nibbles [] h e = refl
unpack_nibbles-pack_nibbles (a ∷ []) h e = absurd (omega (arith, e))
unpack_nibbles-pack_nibbles (a ∷ b ∷ ns) (ha, (hb, h)) e =
    let (hi, lo) = byte_nibbles a b ha hb in
    rw (hi, lo, unpack_nibbles-pack_nibbles ns h (omega (arith, e))) refl

pub length-pack_nibbles :
    (ns : Bytes) → length ns % 2 ≡ 0 → length (pack_nibbles ns) ≡ length ns / 2
unfolding pack_nibbles
length-pack_nibbles [] e = refl
length-pack_nibbles (a ∷ []) e = absurd (omega (arith, e))
length-pack_nibbles (a ∷ b ∷ ns) e = omega (arith, length-pack_nibbles ns (omega (arith, e)))

pub xored-xored : (as' bs : Bytes) → length as' ≡ length bs → xored (xored as' bs) bs ≡ as'
unfolding xored
xored-xored [] bs e = refl
xored-xored (a ∷ as') [] e = absurd (omega (arith, e))
xored-xored (a ∷ as') (b ∷ bs) e = rw (xor_back a b, xored-xored as' bs (omega (arith, e))) refl

pub length-xored : (as' bs : Bytes) → length as' ≡ length bs → length (xored as' bs) ≡ length as'
unfolding xored
length-xored [] bs e = refl
length-xored (a ∷ as') [] e = absurd (omega (arith, e))
length-xored (a ∷ as') (b ∷ bs) e = ap suc (length-xored as' bs (omega (arith, e)))

-- The values of decimal digits.
abbrev pub values : Bytes → Bytes
values = map (λ c. c - b'0')

pub digits_of-IsDigit :
    (e : PinError) (cs : Bytes) → All IsDigit cs → digits_of e cs ≡ ok (values cs)
unfolding digits_of
digits_of-IsDigit e [] h = refl
digits_of-IsDigit e (c ∷ cs) (hc, h) = rw (digits_of-IsDigit e cs h) (ground arith)

pub length-values : (cs : Bytes) → length (values cs) ≡ length cs
length-values [] = refl
length-values (c ∷ cs) = ap suc (length-values cs)

pub values-IsNibble : (cs : Bytes) → All IsDigit cs → All IsNibble (values cs)
values-IsNibble [] h = tt
values-IsNibble (c ∷ cs) (hc, h) = (omega arith, values-IsNibble cs h)

pub read_pin-values :
    (cs tail : Bytes) → All IsDigit cs → read_pin (length cs) (values cs ++ tail) ≡ ok (cs, tail)
unfolding read_pin
read_pin-values [] tail h = refl
read_pin-values (c ∷ cs) tail (hc, h) =
    let d : b'0' + (c - b'0') ≡ c = omega arith in
    let small : ltb 9 (c - b'0') ≡ false = ground arith in
    rw (small, read_pin-values cs tail h, d) refl

length-take : (n : ℕ) (xs : Bytes) → n ≤ length xs → length (take n xs) ≡ n
length-take zero xs h = refl
length-take (suc n) [] h = absurd (omega arith)
length-take (suc n) (x ∷ xs) h = ap suc (length-take n xs (omega arith))

-- A PAN of at least thirteen digits gives a field of eight bytes.
pub pan_field-IsDigit :
    (pan : Bytes)
    → All IsDigit pan
    → 13 ≤ length pan
    → (af : Bytes) × ((pan_field pan ≡ ok af) × (length af ≡ 8))
unfolding pan_field
pan_field-IsDigit pan h k =
    let ds = take 12 (drop (length pan - 13) (values pan)) in
    let len : length ds ≡ 12 =
      length-take 12 (drop (length pan - 13) (values pan))
        (omega (arith, length-drop (length pan - 13) (values pan), length-values pan)) in
    let long : ltb (length pan) 13 ≡ false = ground arith in
    let even : length (0 ∷ 0 ∷ 0 ∷ 0 ∷ ds) % 2 ≡ 0 = omega (arith, len) in
    (
      pack_nibbles (0 ∷ 0 ∷ 0 ∷ 0 ∷ ds),
      (
        rw (digits_of-IsDigit pan_digit pan h, long) refl,
        length-pack_nibbles (0 ∷ 0 ∷ 0 ∷ 0 ∷ ds) even ∙ omega (arith, len),
      ),
    )
