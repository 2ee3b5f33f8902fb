-- ===== src/Bitmap/Runs.antt =====
-- Tests, and the theorems at concrete inputs.
use isopace.Common.{◌≡◌, refl, [], ◌∷◌, ◌+◌, ◌^◌, arith}
use isopace.Bitmap.{Bitmap, is_set, range, range_word, leading_zeros, count, ones_count}
use isopace.Bitmap.Order.{IsBitmap, ascending, is_data, range-ascending}
use isopace.Common.Bits.Masks.{digit, and_not}

-- Data elements 2, 64, and 70 with the continuation bit 1.
abbrev some_fields : Bitmap
some_fields = record { primary = 2 ^ 63 + 2 ^ 62 + 1; secondary = 2 ^ 58; tertiary = 0 }

range-some_fields : range some_fields ≡ 2 ∷ 64 ∷ 70 ∷ []
unfolding range range_word leading_zeros digit and_not
range-some_fields = refl

count-some_fields : count some_fields ≡ 3
unfolding count ones_count is_set digit
count-some_fields = refl

some_fields-IsBitmap : IsBitmap some_fields
some_fields-IsBitmap = record {
  primary_fits = omega arith;
  secondary_fits = omega arith;
  tertiary_fits = omega arith;
}

range-ascending_example : range some_fields ≡ ascending (is_data some_fields) 192 1
range-ascending_example = range-ascending some_fields some_fields-IsBitmap
