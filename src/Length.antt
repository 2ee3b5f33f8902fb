-- ===== src/Length.antt =====
-- lengthcodec/length.go: the length prefixes. The `FieldDef` that the interface passes is read by
-- `fixed` alone, of which it takes `MaxLen`. Offsets and unit counts that the engine hands over
-- are not negative; `units` of `WriteLen` is any integer.
pub mod RoundTrip
mod Runs
use isopace.Common.{
  ℕ, zero, suc, ◌+◌, ◌-◌, ◌*◌, ◌%◌, ◌^◌, ◌<◌, ◌≤◌, Bool, true, false, ◌||◌, [], ◌∷◌, ◌++◌,
}
use isopace.Common.{
  ltb, leb, if◌then◌else◌, Bytes, length, replicate, slice, Result, ok, err, ◌>>=◌, map_err,
}
use isopace.Common.Int.{ℤ, pos, negsuc}
use isopace.Common.BigEndian.{be_get, be_put}
use isopace.Digits.{itoa}
use isopace.Bcd.{BcdError, packed_len, pack, unpack}
use isopace.Ebcdic.{cp037, decode, encode}

pub data LengthError : Type 0 where
  truncated overflow bad_digit : LengthError
  -- an error that the BCD primitives return, passed on as it is
  bcd : BcdError → LengthError

-- `repr`
pub data Repr : Type 0 where
  ascii ebcdic packed binary : Repr

-- `varLen`
pub record VarLen : Type 0 where
  pub digits : ℕ
  pub bytes : ℕ
  pub repr : Repr

-- `fixed.ReadLen` and `fixed.WriteLen`, at `def.MaxLen`.
pub fixed_read_len : ℕ → Bytes → ℕ → Result LengthError (ℕ × ℕ)
fixed_read_len max_len src off = ok (max_len, off)

pub fixed_write_len : Bytes → ℤ → Result LengthError Bytes
fixed_write_len dst units = ok dst

-- The loop of `atoiDigits`; the prefixes are short enough for `n` to stay far below 2 ^ 63.
pub atoi_digits_from : ℕ → Bytes → Result LengthError ℕ
atoi_digits_from n [] = ok n
atoi_digits_from n (c ∷ b) =
    let rest = atoi_digits_from (n * 10 + (c - b'0')) b in
    if ltb c b'0' || ltb b'9' c then err bad_digit else rest

unfoldable pub atoi_digits : Bytes → Result LengthError ℕ
unfolding atoi_digits_from
atoi_digits = atoi_digits_from 0

unfoldable pub decimal_pad : ℕ → ℕ → Result LengthError Bytes
decimal_pad n width =
    let s = itoa n in
    if ltb width (length s) then err overflow else ok (replicate (width - length s) b'0' ++ s)

-- The digit cases of `ReadLen`: `n` wire bytes, decoded to ASCII digits by `text`.
abbrev read_digits : Bytes → ℕ → ℕ → (Bytes → Result LengthError Bytes) → Result LengthError (ℕ × ℕ)
read_digits src off n text =
    if ltb (length src) (off + n)
    then err truncated
    else (text (slice src off (off + n)) >>= λ s. atoi_digits s >>= λ u. ok (u, off + n))

read_repr : Repr → VarLen → Bytes → ℕ → Result LengthError (ℕ × ℕ)
read_repr ascii v src off = read_digits src off v.digits ok
read_repr ebcdic v src off = read_digits src off v.digits (λ b. ok (decode cp037 b))
read_repr packed v src off =
    read_digits src off (packed_len v.digits) (λ b. map_err bcd (unpack b (pos v.digits)))
read_repr binary v src off =
    if ltb (length src) (off + v.bytes)
    then err truncated
    else ok (be_get (slice src off (off + v.bytes)), off + v.bytes)

unfoldable pub read_len : VarLen → Bytes → ℕ → Result LengthError (ℕ × ℕ)
unfolding read_repr
read_len v src off = read_repr v.repr v src off

-- `1<<(8*v.bytes)` as an int, which is 0 from 64 bits on.
abbrev pub shl_one : ℕ → ℕ
shl_one k = 2 ^ k % 2 ^ 64

write_repr : Repr → VarLen → Bytes → ℕ → Result LengthError Bytes
write_repr ascii v dst n = decimal_pad n v.digits >>= λ s. ok (dst ++ s)
write_repr ebcdic v dst n = decimal_pad n v.digits >>= λ s. ok (dst ++ encode cp037 s)
write_repr packed v dst n =
    decimal_pad n v.digits >>= λ s. map_err bcd (pack s) >>= λ p. ok (dst ++ p)
write_repr binary v dst n =
    if leb (shl_one (8 * v.bytes)) n then err overflow else ok (dst ++ be_put v.bytes n)

unfoldable pub write_len : VarLen → Bytes → ℤ → Result LengthError Bytes
unfolding write_repr
write_len v dst (negsuc _) = err overflow
write_len v dst (pos n) = write_repr v.repr v dst n

-- The catalogue: `LLVarASCII` to `LLLLLLVarASCII`, and the others by their count.
abbrev pub var_ascii : ℕ → VarLen
var_ascii n = record { digits = n; bytes = 0; repr = ascii }

abbrev pub var_bcd : ℕ → VarLen
var_bcd n = record { digits = n; bytes = 0; repr = packed }

abbrev pub var_binary : ℕ → VarLen
var_binary n = record { digits = 0; bytes = n; repr = binary }

abbrev pub var_ebcdic : ℕ → VarLen
var_ebcdic n = record { digits = n; bytes = 0; repr = ebcdic }
