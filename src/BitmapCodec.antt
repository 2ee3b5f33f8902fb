-- ===== src/BitmapCodec.antt =====
-- fieldcodec/bitmap.go: the wire forms of the bitmap. Offsets are not negative, so the guard
-- `off < 0` has no counterpart.
pub mod Words
pub mod RoundTrip
pub mod Marks
pub mod Runs
use isopace.Common.{
  ℕ, zero, suc, ◌+◌, ◌-◌, ◌*◌, ◌/◌, ◌%◌, ◌^◌, Bool, true, false, ◌||◌, ◌&&◌, not, bit_and, bit_or,
  [], ◌∷◌, ◌++◌, map, Option, none, some,
}
use isopace.Common.{ltb, leb, ◌==◌, if◌then◌else◌, Bytes, length, slice, Result, ok, err}
use isopace.Common.BigEndian.{be_put, be_get}
use isopace.Ebcdic.{cp037, decode, encode}
use isopace.Bitmap.{Bitmap, empty, word, set_word}

pub data BitmapError : Type 0 where
  short_bitmap bad_hex : BitmapError

-- `wordRepr`
pub record WordRepr : Type 0 where
  pub wire_len : ℕ
  pub put : ℕ → Bytes
  pub get : Bytes → Option ℕ

abbrev pub cont_msb : ℕ
cont_msb = 2 ^ 63

-- `levelWords`: the words to emit and how many of them.
pub level_words : Bitmap → ℕ → Bitmap × ℕ
level_words bm levels =
    let need3 = not (bm.tertiary == 0) && leb 3 levels in
    let need2 = (not (bm.secondary == 0) || need3) && leb 2 levels in
    (
      record {
        primary = if need2 then bit_or bm.primary cont_msb else bm.primary;
        secondary = if need3 then bit_or bm.secondary cont_msb else bm.secondary;
        tertiary = bm.tertiary;
      },
      if need3 then 3 else if need2 then 2 else 1,
    )

-- The loop of `ReadBitmap` from `level` on, with `left` rounds to go at most.
unfoldable pub read_levels :
    WordRepr → Bytes → ℕ → ℕ → ℕ → ℕ → Bitmap → Result BitmapError (Bitmap × ℕ)
read_levels r src levels zero level off bm = ok (bm, off)
read_levels r src levels (suc left) level off bm =
    if ltb (length src) off || ltb (length src - off) r.wire_len
    then err short_bitmap
    else elim (r.get (slice src off (off + r.wire_len))) [
      | none ↦ err bad_hex
      | some w ↦
          let bm' = set_word level w bm in
          let off' = off + r.wire_len in
          let more = read_levels r src levels left (level + 1) off' bm' in
          if bit_and w cont_msb == 0 || leb levels (level + 1) then ok (bm', off') else more
    ]

unfoldable pub read_bitmap : WordRepr → Bytes → ℕ → ℕ → Result BitmapError (Bitmap × ℕ)
unfolding read_levels
read_bitmap r src off levels = read_levels r src levels 3 0 off empty

-- The loop of `WriteBitmap` from word `i` on, with `left` words to go.
pub write_words : WordRepr → Bitmap → ℕ → ℕ → Bytes → Bytes
write_words r w zero i dst = dst
write_words r w (suc left) i dst = write_words r w left (i + 1) (dst ++ r.put (word w i))

pub write_bitmap : WordRepr → Bytes → Bitmap → ℕ → Bytes
unfolding write_words level_words
write_bitmap r dst bm levels = let (w, n) = level_words bm levels in write_words r w n 0 dst

-- `binWord`
abbrev pub bin_word : WordRepr
bin_word = record { wire_len = 8; put = be_put 8; get = λ src. some (be_get src) }

-- `hex.Encode`: two lower-case digits for each byte.
unfoldable pub hex_digit : ℕ → ℕ
hex_digit n = if ltb n 10 then b'0' + n else b'a' + (n - 10)

unfoldable pub hex_encode : Bytes → Bytes
hex_encode [] = []
hex_encode (b ∷ bs) = hex_digit (b / 16) ∷ hex_digit (b % 16) ∷ hex_encode bs

-- `upperHex`
unfoldable pub upper_hex : ℕ → ℕ
upper_hex c = if leb b'a' c && leb c b'f' then c - b'a' + b'A' else c

-- `hex.Decode`: digits of either case, in pairs.
unfoldable pub hex_value : ℕ → Option ℕ
hex_value c =
    if leb b'0' c && leb c b'9'
    then some (c - b'0')
    else if leb b'a' c && leb c b'f'
    then some (c - b'a' + 10)
    else if leb b'A' c && leb c b'F'
    then some (c - b'A' + 10)
    else none

-- The value of a pair of hex digits.
unfoldable pub hex_pair : ℕ → ℕ → Option ℕ
hex_pair h l = elim (hex_value h) [
  | none ↦ none
  | some a ↦ elim (hex_value l) [ none ↦ none | some b ↦ some (a * 16 + b) ]
]

unfoldable pub hex_decode : Bytes → Option Bytes
hex_decode [] = some []
hex_decode (h ∷ []) = none
hex_decode (h ∷ l ∷ rest) =
    let tail = hex_decode rest in
    elim (hex_pair h l) [
      | none ↦ none
      | some b ↦ elim tail [ none ↦ none | some bs ↦ some (b ∷ bs) ]
    ]

abbrev pub hex_get : Bytes → Option ℕ
hex_get src = elim (hex_decode src) [ none ↦ none | some raw ↦ some (be_get raw) ]

-- `hexWord`
unfoldable pub hex_word : WordRepr
unfolding hex_encode upper_hex hex_decode hex_value hex_pair hex_digit
hex_word = record {
  wire_len = 16;
  put = λ w. map upper_hex (hex_encode (be_put 8 w));
  get = hex_get;
}

-- `ebcdicWord`
abbrev pub ebcdic_word : WordRepr
unfolding hex_encode upper_hex hex_decode hex_value hex_pair hex_digit
ebcdic_word = record {
  wire_len = 16;
  put = λ w. encode cp037 (map upper_hex (hex_encode (be_put 8 w)));
  get = λ src. hex_get (decode cp037 src);
}
