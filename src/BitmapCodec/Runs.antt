-- ===== src/BitmapCodec/Runs.antt =====
-- Tests, and the theorem at a concrete input.
use isopace.Common.{◌+◌, ◌^◌, ◌≡◌, refl, [], ◌∷◌, arith, inl, inr}
use isopace.Common.{Bytes, length}
use isopace.Bitmap.{Bitmap}
use isopace.Bitmap.Order.{IsBitmap}
use isopace.BitmapCodec.{
  hex_word, write_bitmap, write_words, level_words, hex_encode, hex_digit, upper_hex,
}
use isopace.BitmapCodec.Words.{hex_word-IsWordRepr}
use isopace.BitmapCodec.Marks.{Back, read_bitmap-write_bitmap}

-- Data elements 2, 64 and 70.
abbrev three_fields : Bitmap
three_fields = record { primary = 2 ^ 62 + 1; secondary = 2 ^ 58; tertiary = 0 }

three_fields-IsBitmap : IsBitmap three_fields
three_fields-IsBitmap = record {
  primary_fits = omega arith;
  secondary_fits = omega arith;
  tertiary_fits = omega arith;
}

abbrev before : Bytes
before = b'0' ∷ b'2' ∷ []

length-write_bitmap : length (write_bitmap hex_word before three_fields 2) ≡ 34
unfolding write_bitmap write_words level_words hex_word hex_encode hex_digit upper_hex
    isopace.Common.BigEndian.be_put
length-write_bitmap = refl

read_bitmap-write_bitmap_example :
    Back hex_word hex_word-IsWordRepr three_fields three_fields-IsBitmap 2 before (7 ∷ [])
read_bitmap-write_bitmap_example =
    read_bitmap-write_bitmap hex_word hex_word-IsWordRepr three_fields three_fields-IsBitmap 2
      before (7 ∷ []) refl refl (omega arith) (inl refl) (inr (omega arith))
