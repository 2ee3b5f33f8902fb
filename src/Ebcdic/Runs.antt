-- ===== src/Ebcdic/Runs.antt =====
-- Tests, and the theorems at concrete inputs.
use isopace.Common.{◌≡◌, refl, [], ◌∷◌, Bytes}
use isopace.Ebcdic.{encode, cp037}

abbrev text : Bytes
text = b'A' ∷ b'7' ∷ b'[' ∷ []

encode-text : encode cp037 text ≡ 0xC1 ∷ 0xF7 ∷ 0xBA ∷ []
unfolding encode cp037
encode-text = refl

encode_circumflex : encode cp037 (b'^' ∷ []) ≡ 0x6F ∷ []
unfolding encode cp037
encode_circumflex = refl
