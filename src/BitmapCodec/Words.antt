-- ===== src/BitmapCodec/Words.antt =====
-- The three representations of a word read back what they wrote.
use isopace.Common.{ℕ, ◌+◌, ◌*◌, ◌/◌, ◌%◌, ◌^◌, ◌<◌, ◌≡◌, refl, ap, ◌∙◌, [], ◌∷◌, arith, map, some}
use isopace.Common.{Bytes, IsByte, length, All}
use isopace.Common.BigEndian.{be_put, be_get, be_get-be_put, length-be_put, be_put-IsByte}
use isopace.Ebcdic.{cp037, encode}
use isopace.Ebcdic.Laws.{IsCp037, decode-encode-cp037, length-encode}
use isopace.BitmapCodec.{
  WordRepr, bin_word, hex_word, ebcdic_word, hex_encode, hex_decode, hex_value, hex_pair, hex_digit,
  upper_hex, hex_get,
}

-- What the codec relies on of a representation.
pub record IsWordRepr (r : WordRepr) : Type 0 where
  pub length_put : (w : ℕ) → length (r.put w) ≡ r.wire_len
  pub get_put : (w : ℕ) → w < 2 ^ 64 → r.get (r.put w) ≡ some w

pub bin_word-IsWordRepr : IsWordRepr bin_word
bin_word-IsWordRepr = record {
  length_put = length-be_put 8;
  get_put = λ w h. ap some (be_get-be_put 8 w h);
}

hex_value-hex_text : (n : ℕ) → n < 16 → hex_value (upper_hex (hex_digit n)) ≡ some n
unfolding hex_value upper_hex hex_digit
hex_value-hex_text n h = ground arith

hex_pair_lem :
    (h l : ℕ) {a b : ℕ}
    → hex_value h ≡ some a
    → hex_value l ≡ some b
    → hex_pair h l ≡ some (a * 16 + b)
unfolding hex_pair
hex_pair_lem h l e f = rw (hex_pair, e, f) refl

-- The two digits of a byte.
hex_pair-hex_digit :
    (b : ℕ)
    → b < 256
    → hex_pair (upper_hex (hex_digit (b / 16))) (upper_hex (hex_digit (b % 16))) ≡ some b
hex_pair-hex_digit b h =
    let hi = hex_value-hex_text (b / 16) (omega arith) in
    let lo = hex_value-hex_text (b % 16) (omega arith) in
    let join : b / 16 * 16 + b % 16 ≡ b = omega arith in
    hex_pair_lem (upper_hex (hex_digit (b / 16))) (upper_hex (hex_digit (b % 16))) hi lo
    ∙ ap some join

hex_decode_pair :
    (h l : ℕ) (rest : Bytes) {b : ℕ} {bs : Bytes}
    → hex_pair h l ≡ some b
    → hex_decode rest ≡ some bs
    → hex_decode (h ∷ l ∷ rest) ≡ some (b ∷ bs)
unfolding hex_decode
hex_decode_pair h l rest p e = rw (hex_decode, p, e) refl

pub hex_decode-hex_encode :
    (bs : Bytes) → All IsByte bs → hex_decode (map upper_hex (hex_encode bs)) ≡ some bs
unfolding hex_encode
hex_decode-hex_encode [] h = unfold hex_decode in refl
hex_decode-hex_encode (b ∷ bs) (hb, h) =
    hex_decode_pair (upper_hex (hex_digit (b / 16))) (upper_hex (hex_digit (b % 16)))
      (map upper_hex (hex_encode bs)) (hex_pair-hex_digit b hb) (hex_decode-hex_encode bs h)

pub length-hex : (bs : Bytes) → length (map upper_hex (hex_encode bs)) ≡ length bs * 2
unfolding hex_encode
length-hex [] = refl
length-hex (b ∷ bs) = omega (arith, length-hex bs)

-- A character that is no lower-case letter.
abbrev pub UpperDigit : ℕ → Type 0
UpperDigit c = c < b'a'

upper_hex_digit : (n : ℕ) → n < 16 → UpperDigit (upper_hex (hex_digit n))
unfolding upper_hex hex_digit
upper_hex_digit n h = ground arith

pub hex_text-UpperDigit :
    (bs : Bytes) → All IsByte bs → All UpperDigit (map upper_hex (hex_encode bs))
unfolding hex_encode
hex_text-UpperDigit [] h = tt
hex_text-UpperDigit (b ∷ bs) (hb, h) = (
  upper_hex_digit (b / 16) (omega arith),
  (upper_hex_digit (b % 16) (omega arith), hex_text-UpperDigit bs h),
)

hex_digit-IsCp037 : (n : ℕ) → n < 16 → IsCp037 (upper_hex (hex_digit n))
unfolding upper_hex hex_digit
hex_digit-IsCp037 n h = ground arith

hex-IsCp037 : (bs : Bytes) → All IsByte bs → All IsCp037 (map upper_hex (hex_encode bs))
unfolding hex_encode
hex-IsCp037 [] h = tt
hex-IsCp037 (b ∷ bs) (hb, h) = (
  hex_digit-IsCp037 (b / 16) (omega arith),
  (hex_digit-IsCp037 (b % 16) (omega arith), hex-IsCp037 bs h),
)

hex_get_lem : (src raw : Bytes) → hex_decode src ≡ some raw → hex_get src ≡ some (be_get raw)
hex_get_lem src raw e = rw (hex_get, e) refl

hex_get_put : (w : ℕ) → w < 2 ^ 64 → hex_get (map upper_hex (hex_encode (be_put 8 w))) ≡ some w
hex_get_put w h =
    hex_get_lem (map upper_hex (hex_encode (be_put 8 w))) (be_put 8 w)
      (hex_decode-hex_encode (be_put 8 w) (be_put-IsByte 8 w))
    ∙ ap some (be_get-be_put 8 w h)

pub hex_word-IsWordRepr : IsWordRepr hex_word
unfolding hex_word hex_encode
hex_word-IsWordRepr = record {
  length_put = λ w. length-hex (be_put 8 w) ∙ ap (λ n. n * 2) (length-be_put 8 w);
  get_put = hex_get_put;
}

-- Every 64-bit word put in EBCDIC-hex is 16 bytes long and is read back as it was.
pub ebcdic_word-IsWordRepr : IsWordRepr ebcdic_word
unfolding ebcdic_word hex_word hex_encode encode
ebcdic_word-IsWordRepr = record {
  length_put = λ w.
      length-encode cp037 (map upper_hex (hex_encode (be_put 8 w)))
      ∙ hex_word-IsWordRepr.length_put w;
  get_put = λ w h.
      ap hex_get
        (decode-encode-cp037 (map upper_hex (hex_encode (be_put 8 w)))
          (hex-IsCp037 (be_put 8 w) (be_put-IsByte 8 w))).0
      ∙ hex_get_put w h;
}
