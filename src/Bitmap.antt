-- ===== src/Bitmap.antt =====
-- iso8583/bitmap.go: the 192-bit presence set, as three words of 64 bits. A data element is a
-- natural number; the negative ones fail the guard `de < 1` as 0 does.
pub mod Laws
pub mod Order
pub mod Fits
pub mod Runs
use isopace.Common.{
  ℕ, zero, suc, ◌+◌, ◌-◌, ◌*◌, ◌/◌, ◌%◌, ◌^◌, Bool, true, false, ◌||◌, ◌&&◌, not, bit_and, bit_or,
  List, [], ◌∷◌, ◌++◌,
}
use isopace.Common.{ltb, ◌==◌, if◌then◌else◌}
use isopace.Common.Bits.Masks.{digit, and_not}

pub record Bitmap : Type 0 where
  pub primary : ℕ
  pub secondary : ℕ
  pub tertiary : ℕ

abbrev pub empty : Bitmap
empty = record { primary = 0; secondary = 0; tertiary = 0 }

abbrev pub max_de : ℕ
max_de = 192

-- `contSecondary` and `contTertiary`
abbrev pub cont_secondary : ℕ
cont_secondary = 1

abbrev pub cont_tertiary : ℕ
cont_tertiary = 65

-- `words[i]`; the callers stay below 3.
abbrev pub word : Bitmap → ℕ → ℕ
word b zero = b.primary
word b (suc zero) = b.secondary
word b (suc (suc i)) = b.tertiary

abbrev pub set_word : ℕ → ℕ → Bitmap → Bitmap
set_word zero v b = record b { primary = v }
set_word (suc zero) v b = record b { secondary = v }
set_word (suc (suc i)) v b = record b { tertiary = v }

-- `wordBit`: the word of a data element and the position of its bit in the word, of which
-- `uint64(1) << position` is the mask.
abbrev pub word_of : ℕ → ℕ
word_of de = (de - 1) / 64

abbrev pub bit_of : ℕ → ℕ
bit_of de = 63 - (de - 1) % 64

unfoldable pub is_set : Bitmap → ℕ → Bool
is_set b de =
    if ltb de 1 || ltb max_de de
    then false
    else not (bit_and (word b (word_of de)) (2 ^ bit_of de) == 0)

unfoldable pub set : ℕ → Bitmap → Bitmap
set de b =
    if ltb de 1 || ltb max_de de
    then b
    else set_word (word_of de) (bit_or (word b (word_of de)) (2 ^ bit_of de)) b

pub clear : ℕ → Bitmap → Bitmap
clear de b =
    if ltb de 1 || ltb max_de de
    then b
    else set_word (word_of de) (and_not (word b (word_of de)) (2 ^ bit_of de)) b

-- `bits.OnesCount64`: the digits of the 64 positions, added up.
pub ones_count : ℕ → ℕ → ℕ
ones_count zero w = 0
ones_count (suc k) w = digit w k + ones_count k w

pub count : Bitmap → ℕ
unfolding ones_count is_set
count b =
    ones_count 64 b.primary
    + ones_count 64 b.secondary
    + ones_count 64 b.tertiary
    - (if is_set b cont_secondary then 1 else 0)
    - (if is_set b cont_tertiary then 1 else 0)

pub width : Bitmap → ℕ
unfolding is_set
width b = if is_set b cont_tertiary then 192 else if is_set b cont_secondary then 128 else 64

-- `bits.LeadingZeros64`, with `left` positions still to be looked at: `left` is 64 at the call, and
-- the answer for a word that is 0 is 64.
unfoldable pub leading_zeros : ℕ → ℕ → ℕ
leading_zeros zero w = 64
leading_zeros (suc left) w =
    let rest = leading_zeros left w in if digit w left == 1 then 63 - left else rest

-- The inner loop of `Range`. Each round clears a bit, so 64 rounds are enough.
unfoldable pub range_word : ℕ → ℕ → ℕ → List ℕ
range_word zero base w = []
range_word (suc fuel) base w =
    let lz = leading_zeros 64 w in
    let de = base + lz + 1 in
    let rest = range_word fuel base (and_not w (2 ^ (63 - lz))) in
    if w == 0 then [] else if de == cont_secondary || de == cont_tertiary then rest else de ∷ rest

-- `Range`: the data elements in the order in which they are yielded.
unfoldable pub range : Bitmap → List ℕ
unfolding range_word leading_zeros
range b =
    range_word 64 0 b.primary ++ (range_word 64 64 b.secondary ++ range_word 64 128 b.tertiary)
