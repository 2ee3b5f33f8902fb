-- ===== src/CharTlv/Runs.antt =====
-- Tests, and the round trip at a concrete input: the parameters of a terminal.
use isopace.Common.{
  ◌≡◌, ◌<◌, ◌^◌, refl, some, List, [], ◌∷◌, Bytes, length, ok, err, arith, eq_bytes,
}
use isopace.Digits.{digits_from}
use isopace.Engine.Parse.{parse_int64, parse_below}
use isopace.Engine.Validate.{all_digits}
use isopace.CharTlv.{
  Element, decode, decode_from, read_count, count_of, cut_value, encode, encode_from, is_long,
  reaches, max_from, get, panics, too_long,
}
use isopace.CharTlv.RoundTrip.{decode-encode}

-- "03" with "ABC", "05" with nothing.
abbrev merchant : Element
merchant = record { tag = b'0' ∷ b'3' ∷ []; value = b'A' ∷ b'B' ∷ b'C' ∷ [] }

abbrev currency : Element
currency = record { tag = b'0' ∷ b'5' ∷ []; value = [] }

abbrev elements : List Element
elements = merchant ∷ currency ∷ []

decode-encode_example :
    (s : Bytes) × (encode elements 2 3 ≡ ok s) × (length s < 2 ^ 63 → decode s 2 3 ≡ ok elements)
decode-encode_example =
    decode-encode 2 3 elements (omega arith) (omega arith) (omega arith)
      (refl, omega arith, (refl, omega arith, tt))

-- "0", the largest int64 as a length, and nothing behind it.
abbrev largest : Bytes
largest =
    b'0' ∷ b'9' ∷ b'2' ∷ b'2' ∷ b'3' ∷ b'3' ∷ b'7' ∷ b'2' ∷ b'0' ∷ b'3' ∷ b'6' ∷ b'8' ∷ b'5' ∷ b'4'
    ∷ b'7' ∷ b'7' ∷ b'5' ∷ b'8' ∷ b'0' ∷ b'7' ∷ []

-- The check `start+n > len(s)` overflows.
largest_panics : decode largest 1 19 ≡ err panics
unfolding decode decode_from read_count count_of cut_value parse_int64 parse_below all_digits
    digits_from
largest_panics = refl

-- 10 ^ 19 is no int64, so that even an empty value is refused.
wide_refused : encode (currency ∷ []) 2 19 ≡ err too_long
unfolding encode encode_from is_long reaches max_from
wide_refused = refl

found : get elements (b'0' ∷ b'3' ∷ []) ≡ some (b'A' ∷ b'B' ∷ b'C' ∷ [])
unfolding get eq_bytes
found = refl
