-- ===== src/Ebcdic.antt =====
-- internal/ebcdic/ebcdic.go: the EBCDIC code pages CP037 and CP1047 as two tables of 256 bytes,
-- built by the source's `newTable` from its lists of pairs and ranges.
pub mod Laws
mod Runs
use isopace.Common.{ℕ, zero, suc, ◌+◌, Option, List, [], ◌∷◌, ◌++◌, map}
use isopace.Common.{Bytes, get_or, set, replicate}
use mathlib.Core.List.{foldl}

-- `Table`: each array holds 256 bytes.
pub record Table : Type 0 where
  pub e2a : Bytes
  pub a2e : Bytes

-- An index is a byte, so the default is never read.
pub decode_byte : Table → ℕ → ℕ
decode_byte t b = get_or t.e2a b 0

pub encode_byte : Table → ℕ → ℕ
encode_byte t b = get_or t.a2e b 0

unfoldable pub decode : Table → Bytes → Bytes
unfolding decode_byte
decode t = map (decode_byte t)

unfoldable pub encode : Table → Bytes → Bytes
unfolding encode_byte
encode t = map (encode_byte t)

-- `pair`: the EBCDIC code and the ASCII code.
abbrev Pair : Type 0
Pair = ℕ × ℕ

abbrev invariant : List Pair
invariant =
    (0x40, b' ')
    ∷ (0x4B, b'.')
    ∷ (0x4C, b'<')
    ∷ (0x4D, b'(')
    ∷ (0x4E, b'+')
    ∷ (0x4F, b'|')
    ∷ (0x50, b'&')
    ∷ (0x5A, b'!')
    ∷ (0x5B, b'$')
    ∷ (0x5C, b'*')
    ∷ (0x5D, b')')
    ∷ (0x5E, b';')
    ∷ (0x60, b'-')
    ∷ (0x61, b'/')
    ∷ (0x6B, b',')
    ∷ (0x6C, b'%')
    ∷ (0x6D, b'_')
    ∷ (0x6E, b'>')
    ∷ (0x6F, b'?')
    ∷ (0x79, b'`')
    ∷ (0x7A, b':')
    ∷ (0x7B, b'#')
    ∷ (0x7C, b'@')
    ∷ (0x7D, 39)
    ∷ (0x7E, b'=')
    ∷ (0x7F, 34)
    ∷ (0xA1, b'~')
    ∷ (0xC0, b'{')
    ∷ (0xD0, b'}')
    ∷ (0xE0, 92)
    ∷ []

-- `rangeMap`: the first EBCDIC code, the first ASCII code and the count.
abbrev ranges : List (ℕ × ℕ × ℕ)
ranges =
    (0xF0, b'0', 10)
    ∷ (0xC1, b'A', 9)
    ∷ (0xD1, b'J', 9)
    ∷ (0xE2, b'S', 8)
    ∷ (0x81, b'a', 9)
    ∷ (0x91, b'j', 9)
    ∷ (0xA2, b's', 8)
    ∷ []

abbrev cp037_extra : List Pair
cp037_extra = (0xBA, b'[') ∷ (0xBB, b']') ∷ []

abbrev cp1047_extra : List Pair
cp1047_extra = (0x5F, b'^') ∷ (0xAD, b'[') ∷ (0xBD, b']') ∷ []

-- `set(e, a)`
set_pair : Table → Pair → Table
set_pair t (e, a) = record { e2a = set t.e2a e a; a2e = set t.a2e a e }

-- One range: `n` rounds of `set(r.eStart+byte(i), r.aStart+byte(i))` from `i` = 0 on.
set_range : ℕ → ℕ → ℕ → Table → Table
set_range zero e a t = t
set_range (suc n) e a t = set_range n (e + 1) (a + 1) (set_pair t (e, a))

fresh : Table
fresh = record { e2a = replicate 256 0x3F; a2e = replicate 256 0x6F }

unfoldable pub new_table : List Pair → Table
unfolding set_pair set_range fresh
new_table extra =
    let inv = foldl set_pair fresh invariant in
    let rng = foldl (λ (t : Table) (r : ℕ × ℕ × ℕ). set_range r.2 r.0 r.1 t) inv ranges in
    let t = foldl set_pair rng extra in record { e2a = t.e2a; a2e = set t.a2e b' ' 0x40 }

unfoldable pub cp037 : Table
unfolding new_table
cp037 = new_table cp037_extra

unfoldable pub cp1047 : Table
unfolding new_table
cp1047 = new_table cp1047_extra
