-- ===== src/Ebcdic/Laws.antt =====
-- The code pages on the characters that they cover.
use isopace.Common.{ℕ, suc, ◌<◌, ◌≤◌, ◌≡◌, refl, ap, ◌≢◌, Bool, true, ◌&&◌, ◌||◌, [], ◌∷◌, arith}
use isopace.Common.{Bytes, IsByte, All, length, ◌==◌, ltb}
use isopace.Common.Bits.{passes_below, passes_at}
use isopace.Ebcdic.{Table, decode_byte, encode_byte, decode, encode, cp037, cp1047}

-- Outside the printable characters, or a byte that comes back.
comes_back : Table → ℕ → Bool
comes_back t a =
    ltb a 0x20 || ltb 0x7E a || (decode_byte t (encode_byte t a) == a && ltb (encode_byte t a) 256)

cp1047_table : passes_below (comes_back cp1047) 256 ≡ true
unfolding passes_below comes_back cp1047 decode_byte encode_byte
cp1047_table = refl

cp037_table : passes_below (λ a. a == b'^' || comes_back cp037 a) 256 ≡ true
unfolding passes_below comes_back cp037 decode_byte encode_byte
cp037_table = refl

-- A printable ASCII character, from space to tilde.
abbrev pub IsPrintable : ℕ → Type 0
IsPrintable a = (0x20 ≤ a) × (a ≤ 0x7E)

-- A printable character that CP037 has.
abbrev pub IsCp037 : ℕ → Type 0
IsCp037 a = IsPrintable a × (a ≢ b'^')

cp1047_byte :
    (a : ℕ)
    → IsPrintable a
    → (decode_byte cp1047 (encode_byte cp1047 a) ≡ a) × (encode_byte cp1047 a < 256)
cp1047_byte a h =
    let t = passes_at (comes_back cp1047) 256 a (omega arith) cp1047_table in
    unfold comes_back in ground arith

cp037_byte :
    (a : ℕ)
    → IsCp037 a
    → (decode_byte cp037 (encode_byte cp037 a) ≡ a) × (encode_byte cp037 a < 256)
cp037_byte a h =
    let t = passes_at (λ a. a == b'^' || comes_back cp037 a) 256 a (omega arith) cp037_table in
    unfold comes_back in ground arith

-- Printable ASCII text survives CP1047, every character of it, and is written as bytes.
pub decode-encode-cp1047 :
    (s : Bytes)
    → All IsPrintable s
    → (decode cp1047 (encode cp1047 s) ≡ s) × All IsByte (encode cp1047 s)
unfolding decode encode
decode-encode-cp1047 [] h = (refl, tt)
decode-encode-cp1047 (a ∷ s) (ha, h) =
    let ih = decode-encode-cp1047 s h in let b = cp1047_byte a ha in (cc, (b.1, ih.1))

-- Printable ASCII text without a circumflex survives CP037, and is written as bytes.
pub decode-encode-cp037 :
    (s : Bytes) → All IsCp037 s → (decode cp037 (encode cp037 s) ≡ s) × All IsByte (encode cp037 s)
unfolding decode encode
decode-encode-cp037 [] h = (refl, tt)
decode-encode-cp037 (a ∷ s) (ha, h) =
    let ih = decode-encode-cp037 s h in let b = cp037_byte a ha in (cc, (b.1, ih.1))

pub length-encode : (t : Table) (s : Bytes) → length (encode t s) ≡ length s
unfolding encode
length-encode t [] = refl
length-encode t (c ∷ s) = ap suc (length-encode t s)
