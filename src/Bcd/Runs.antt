-- ===== src/Bcd/Runs.antt =====
-- Tests, and the theorems at concrete inputs.
use isopace.Common.{◌≡◌, refl, [], ◌∷◌, Bytes, ok, err}
use isopace.Common.Int.{pos, negsuc}
use isopace.Bcd.{pack, unpack, pack_right, non_digit, bad_nibble, short, neg_count}

abbrev four : Bytes
four = b'1' ∷ b'2' ∷ b'3' ∷ b'4' ∷ []

abbrev five : Bytes
five = b'1' ∷ b'2' ∷ b'3' ∷ b'4' ∷ b'5' ∷ []

pack-five : pack five ≡ ok (0x01 ∷ 0x23 ∷ 0x45 ∷ [])
unfolding pack
pack-five = refl

pack_right-five : pack_right five ≡ ok (0x12 ∷ 0x34 ∷ 0x50 ∷ [])
unfolding pack_right
pack_right-five = refl

pack_letter : pack (b'1' ∷ b'x' ∷ []) ≡ err non_digit
unfolding pack
pack_letter = refl

unpack_bad : unpack (0x1F ∷ []) (pos 2) ≡ err bad_nibble
unfolding unpack
unpack_bad = refl

unpack_short : unpack (0x12 ∷ []) (pos 3) ≡ err short
unfolding unpack
unpack_short = refl

unpack_neg : unpack (0x12 ∷ []) (negsuc 0) ≡ err neg_count
unfolding unpack
unpack_neg = refl

unpack_even_run : unpack (0x12 ∷ 0x34 ∷ []) (pos 4) ≡ ok four
unfolding unpack
unpack_even_run = refl
