-- ===== src/Bcd.antt =====
-- internal/bcd/bcd.go: packed binary-coded decimal, two digits to a byte. A slice is a list of
-- bytes; a loop over an index that advances by two is a recursion on the rest of the slice.
pub mod RoundTrip
pub mod Right
mod Runs
use isopace.Common.{
  ℕ, zero, suc, ◌+◌, ◌-◌, ◌*◌, ◌/◌, ◌%◌, ◌<◌, ◌≤◌, bit_and, bit_or, Bool, true, false, ◌||◌, List,
  [], ◌∷◌, ◌++◌, Option, none, some,
}
use isopace.Common.{
  ltb, leb, ◌==◌, if◌then◌else◌, Bytes, length, take, get_elem?, Result, ok, err, ◌>>=◌,
}
use isopace.Common.Int.{ℤ, pos, negsuc}

-- `out_of_range` is no value of the source: it is the panic of an index past the end of a slice.
pub data BcdError : Type 0 where
  non_digit bad_nibble short neg_count out_of_range : BcdError

unfoldable pub packed_len : ℕ → ℕ
packed_len n = (n + 1) / 2

pub nibble : ℕ → Result BcdError ℕ
nibble c = if ltb c b'0' || ltb b'9' c then err non_digit else ok (c - b'0')

-- The loop of `Pack`, from `di` on.
pub pack_pairs : Bytes → Result BcdError Bytes
pack_pairs [] = ok []
pack_pairs (h ∷ []) = do hi ← nibble h; err out_of_range
pack_pairs (h ∷ l ∷ ds) = do
  hi ← nibble h
  lo ← nibble l
  rest ← pack_pairs ds
  ok (bit_or (hi * 16 % 256) lo ∷ rest)

pack_odd : Bytes → Result BcdError Bytes
pack_odd [] = err out_of_range
pack_odd (d ∷ ds) = do n ← nibble d; rest ← pack_pairs ds; ok (n ∷ rest)

unfoldable pub pack : Bytes → Result BcdError Bytes
unfolding pack_odd pack_pairs nibble
pack digits = if length digits % 2 == 1 then pack_odd digits else pack_pairs digits

-- The loop of `Unpack` over the bytes `b[start:used]`.
pub unpack_pairs : Bytes → Result BcdError Bytes
unpack_pairs [] = ok []
unpack_pairs (b ∷ bs) =
    let rest = unpack_pairs bs in
    if ltb 9 (b / 16) || ltb 9 (bit_and b 0x0F)
    then err bad_nibble
    else (rest >>= λ ds. ok ((b'0' + b / 16) ∷ (b'0' + bit_and b 0x0F) ∷ ds))

unpack_odd : Bytes → Result BcdError Bytes
unpack_odd [] = err out_of_range
unpack_odd (b ∷ bs) =
    if ltb 9 (bit_and b 0x0F)
    then err bad_nibble
    else (unpack_pairs bs >>= λ ds. ok ((b'0' + bit_and b 0x0F) ∷ ds))

unfoldable pub unpack : Bytes → ℤ → Result BcdError Bytes
unfolding unpack_odd unpack_pairs packed_len
unpack b (negsuc _) = err neg_count
unpack b (pos n) =
    if ltb (length b) (packed_len n)
    then err short
    else if n % 2 == 1
    then unpack_odd (take (packed_len n) b)
    else unpack_pairs (take (packed_len n) b)

-- The loop of `PackRight`: a missing second digit leaves the low nibble 0.
unfoldable pub pack_right : Bytes → Result BcdError Bytes
unfolding nibble
pack_right [] = ok []
pack_right (h ∷ []) = do hi ← nibble h; ok (bit_or (hi * 16 % 256) 0 ∷ [])
pack_right (h ∷ l ∷ ds) = do
  hi ← nibble h
  lo ← nibble l
  rest ← pack_right ds
  ok (bit_or (hi * 16 % 256) lo ∷ rest)

-- The nibble of round `i` in the byte `x`.
abbrev pub nibble_at : ℕ → ℕ → ℕ
nibble_at i x = if i % 2 == 0 then x / 16 else bit_and x 0x0F

-- The loop of `UnpackRight` at index `i` with `left` rounds to go.
pub unpack_right_from : Bytes → ℕ → ℕ → Result BcdError Bytes
unpack_right_from b i zero = ok []
unpack_right_from b i (suc left) =
    let rest = unpack_right_from b (i + 1) left in
    elim (get_elem? b (i / 2)) [
      | none ↦ err out_of_range
      | some x ↦
          if ltb 9 (nibble_at i x)
          then err bad_nibble
          else (rest >>= λ ds. ok ((b'0' + nibble_at i x) ∷ ds))
    ]

unfoldable pub unpack_right : Bytes → ℤ → Result BcdError Bytes
unfolding unpack_right_from packed_len
unpack_right b (negsuc _) = err neg_count
unpack_right b (pos n) =
    if ltb (length b) (packed_len n) then err short else unpack_right_from b 0 n

-- An ASCII decimal digit.
abbrev pub IsDigit : ℕ → Type 0
IsDigit c = (b'0' ≤ c) × (c ≤ b'9')
