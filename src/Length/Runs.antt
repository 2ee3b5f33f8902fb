-- ===== src/Length/Runs.antt =====
-- Tests, and the theorems at concrete inputs.
use isopace.Common.{◌+◌, ◌≡◌, refl, [], ◌∷◌, ◌++◌, arith, Bytes, length, ok, err}
use isopace.Common.Int.{pos}
use isopace.Digits.{itoa}
use isopace.Bcd.{unpack, packed_len}
use isopace.Length.{
  truncated, bad_digit, read_len, write_len, decimal_pad, atoi_digits, var_ascii, var_bcd,
  var_binary, var_ebcdic,
}
use isopace.Length.RoundTrip.{read_len-write_len}

write_ascii : write_len (var_ascii 3) [] (pos 42) ≡ ok (b'0' ∷ b'4' ∷ b'2' ∷ [])
unfolding write_len decimal_pad itoa
write_ascii = refl

read_bcd : read_len (var_bcd 3) (9 ∷ 0x01 ∷ 0x23 ∷ []) 1 ≡ ok (123, 3)
unfolding read_len atoi_digits unpack packed_len
read_bcd = refl

read_short : read_len (var_ebcdic 2) (0xF1 ∷ []) 0 ≡ err truncated
unfolding read_len
read_short = refl

read_letter : read_len (var_ascii 2) (b'1' ∷ b'a' ∷ []) 0 ≡ err bad_digit
unfolding read_len atoi_digits
read_letter = refl

read_len-write_len_example :
    (p : Bytes) × ((write_len (var_binary 2) (7 ∷ []) (pos 300) ≡ ok (7 ∷ p))
      × (read_len (var_binary 2) (7 ∷ (p ++ (8 ∷ []))) 1 ≡ ok (300, 1 + length p)))
read_len-write_len_example =
    read_len-write_len (var_binary 2) 300 (7 ∷ []) (8 ∷ []) (omega arith) (omega arith)
