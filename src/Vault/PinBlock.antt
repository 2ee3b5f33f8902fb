-- ===== src/Vault/PinBlock.antt =====
-- vault/pinblock.go: the clear ISO 9564-1 PIN block. PIN and PAN are their bytes. The source of
-- randomness is code of the caller's: what `io.ReadFull` fills a buffer of the given length with, or
-- `none` where it fails. Indexes that the code keeps in range fail with `out_of_range` here.
pub mod Nibbles
pub mod RoundTrip
pub mod Runs
use isopace.Common.{
  ℕ, zero, suc, ◌+◌, ◌-◌, ◌*◌, ◌/◌, ◌%◌, Bool, true, false, ◌||◌, bit_and, bit_or, bit_xor, Option,
  none, some, [], ◌∷◌, ◌++◌, map,
}
use isopace.Common.{
  ltb, ◌==◌, if◌then◌else◌, not, Bytes, length, take, drop, replicate, Result, ok, err, ◌>>=◌,
}

-- `PINBlockFormat`
pub data Format : Type 0 where
  iso0 iso1 iso3 : Format
  other : ℕ → Format

pub data PinError : Type 0 where
  unknown_format pin_length pin_digit pan_digit pan_length randomness : PinError
  block_length bad_control bad_length bad_digit bad_padding out_of_range : PinError

abbrev pub control : Format → Option ℕ
control iso0 = some 0
control iso1 = some 1
control iso3 = some 3
control (other _) = none

abbrev pub Reader : Type 0
Reader = ℕ → Option Bytes

pub pack_nibbles : Bytes → Bytes
pack_nibbles [] = []
pack_nibbles (h ∷ []) = []
pack_nibbles (h ∷ l ∷ ns) = bit_or (h * 16 % 256) (bit_and l 0x0F) ∷ pack_nibbles ns

pub unpack_nibbles : Bytes → Bytes
unpack_nibbles [] = []
unpack_nibbles (x ∷ xs) = x / 16 ∷ bit_and x 0x0F ∷ unpack_nibbles xs

-- The tail of `n` nibbles that `padNibbles` fills.
pub pad_nibbles : Format → ℕ → Reader → Result PinError Bytes
pad_nibbles iso0 n r = ok (replicate n 0xF)
pad_nibbles iso1 zero r = ok []
pad_nibbles iso1 (suc n) r = elim (r (suc n)) [
  | none ↦ err randomness
  | some buf ↦ ok (map (λ b. bit_and b 0x0F) buf)
]
pad_nibbles iso3 zero r = ok []
pad_nibbles iso3 (suc n) r = elim (r (suc n)) [
  | none ↦ err randomness
  | some buf ↦ ok (map (λ b. 0xA + b % 6) buf)
]
pad_nibbles (other _) n r = err unknown_format

-- The digits of a text, or the error at the first other byte.
pub digits_of : PinError → Bytes → Result PinError Bytes
digits_of e [] = ok []
digits_of e (c ∷ cs) =
    let rest = digits_of e cs in
    if ltb c b'0' || ltb b'9' c then err e else (rest >>= λ ds. ok ((c - b'0') ∷ ds))

pub pin_field : Format → Bytes → Reader → Result PinError Bytes
unfolding digits_of pad_nibbles pack_nibbles
pin_field format pin r = elim (control format) [
  | none ↦ err unknown_format
  | some ctrl ↦
      let l = length pin in
      if ltb l 4 || ltb 12 l
      then err pin_length
      else (digits_of pin_digit pin >>= λ ds.
          pad_nibbles format (14 - l) r >>= λ tail. ok (pack_nibbles (ctrl ∷ l ∷ (ds ++ tail))))
]

pub pan_field : Bytes → Result PinError Bytes
unfolding digits_of pack_nibbles
pan_field pan = digits_of pan_digit pan >>= λ ds.
    if ltb (length pan) 13
    then err pan_length
    else ok (pack_nibbles (0 ∷ 0 ∷ 0 ∷ 0 ∷ take 12 (drop (length pan - 13) ds)))

-- `xored`, of slices of one length.
unfoldable pub xored : Bytes → Bytes → Bytes
xored [] bs = []
xored (a ∷ as') [] = []
xored (a ∷ as') (b ∷ bs) = bit_xor a b ∷ xored as' bs

-- `EncodePINBlockRand`
pub encode_pin_block : Format → Bytes → Bytes → Reader → Result PinError Bytes
unfolding pin_field pan_field xored
encode_pin_block iso0 pin pan r =
    pin_field iso0 pin r >>= λ pf. pan_field pan >>= λ af. ok (xored pf af)
encode_pin_block iso3 pin pan r =
    pin_field iso3 pin r >>= λ pf. pan_field pan >>= λ af. ok (xored pf af)
encode_pin_block iso1 pin pan r = pin_field iso1 pin r
encode_pin_block (other n) pin pan r = pin_field (other n) pin r >>= λ pf. err unknown_format

-- `l` digits from the front of the nibbles, and the nibbles after them.
pub read_pin : ℕ → Bytes → Result PinError (Bytes × Bytes)
read_pin zero ns = ok ([], ns)
read_pin (suc l) [] = err out_of_range
read_pin (suc l) (d ∷ ns) =
    let rest = read_pin l ns in
    if ltb 9 d then err bad_digit else (rest >>= λ p. ok ((b'0' + d) ∷ p.0, p.1))

-- The loops of `checkPadding`.
pub all_nibbles : (ℕ → Bool) → Bytes → Result PinError (Unit {0})
all_nibbles good [] = ok tt
all_nibbles good (n ∷ ns) =
    let rest = all_nibbles good ns in if good n then rest else err bad_padding

pub check_padding : Format → Bytes → Result PinError (Unit {0})
unfolding all_nibbles
check_padding iso0 pad = all_nibbles (λ n. n == 0xF) pad
check_padding iso3 pad = all_nibbles (λ n. not (ltb n 0xA)) pad
check_padding iso1 pad = ok tt
check_padding (other _) pad = ok tt

-- `DecodePINBlock` from the nibbles on.
pub decode_nibbles : Format → ℕ → Bytes → Result PinError Bytes
unfolding read_pin check_padding
decode_nibbles format ctrl (c ∷ l ∷ ns) =
    let body = read_pin l ns >>= λ p. check_padding format p.1 >>= λ _. ok p.0 in
    if not (c == ctrl)
    then err bad_control
    else if ltb l 4 || ltb 12 l
    then err bad_length
    else body
decode_nibbles format ctrl [] = err out_of_range
decode_nibbles format ctrl (c ∷ []) = err out_of_range

-- `clear`: the block without the PAN.
pub clear_block : Format → Bytes → Bytes → Result PinError Bytes
unfolding pan_field xored
clear_block iso0 block pan = pan_field pan >>= λ af. ok (xored block af)
clear_block iso3 block pan = pan_field pan >>= λ af. ok (xored block af)
clear_block iso1 block pan = ok block
clear_block (other _) block pan = ok block

pub decode_pin_block : Format → Bytes → Bytes → Result PinError Bytes
unfolding clear_block unpack_nibbles decode_nibbles
decode_pin_block format block pan =
    if not (length block == 8) then err block_length else elim (control format) [
      | none ↦ err unknown_format
      | some ctrl ↦
          (clear_block format block pan >>= λ clear.
          decode_nibbles format ctrl (unpack_nibbles clear))
    ]
