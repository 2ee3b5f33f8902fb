-- ===== src/Bcd/Right.antt =====
-- `PackRight` and `UnpackRight` against each other.
use isopace.Common.{ℕ, zero, suc, ◌+◌, ◌-◌, ◌*◌, ◌/◌, ◌%◌, ◌≤◌, ◌≡◌, refl, bit_or, [], ◌∷◌, arith}
use isopace.Common.{Bytes, length, All, ok}
use isopace.Common.Bits.{low_nibble, pack_nibbles}
use isopace.Common.Int.{pos}
use isopace.Bcd.{packed_len, pack_right, unpack_right_from, unpack_right, IsDigit}
use isopace.Bcd.RoundTrip.{nibble_digit}

-- Two rounds on, the first byte is done with.
unpack_right_from_cons :
    (left i j x : ℕ) (b : Bytes)
    → j ≡ i + 2
    → unpack_right_from (x ∷ b) j left ≡ unpack_right_from b i left
unfolding unpack_right_from
unpack_right_from_cons zero i j x b e = refl
unpack_right_from_cons (suc left) i j x b e =
    let half : j / 2 ≡ suc (i / 2) = omega arith in
    let parity : j % 2 ≡ i % 2 = omega arith in
    ground (arith, half, parity, unpack_right_from_cons left (i + 1) (j + 1) x b (omega arith))

-- The two rounds at one byte.
first_byte :
    (hi lo left : ℕ) (b : Bytes) {ds : Bytes}
    → hi ≤ 9
    → lo ≤ 9
    → unpack_right_from b 0 left ≡ ok ds
    → unpack_right_from (bit_or (hi * 16 % 256) lo ∷ b) 0 (suc (suc left))
      ≡ ok ((b'0' + hi) ∷ (b'0' + lo) ∷ ds)
unfolding unpack_right_from
first_byte hi lo left b h l e = ground (
  arith,
  pack_nibbles hi lo (omega arith) (omega arith),
  low_nibble (hi * 16 + lo) (omega arith),
  unpack_right_from_cons left 0 2 (hi * 16 + lo) b refl,
)

last_byte :
    (hi : ℕ)
    → hi ≤ 9
    → unpack_right_from (bit_or (hi * 16 % 256) 0 ∷ []) 0 1 ≡ ok ((b'0' + hi) ∷ [])
unfolding unpack_right_from
last_byte hi h = ground (arith, pack_nibbles hi 0 (omega arith) (omega arith))

abbrev Reads : Bytes → Bytes → Type 0
Reads ds p =
    (pack_right ds ≡ ok p)
    × (unpack_right_from p 0 (length ds) ≡ ok ds)
    × (length p ≡ (length ds + 1) / 2)

pack_right_one :
    (x : ℕ) → IsDigit x → pack_right (x ∷ []) ≡ ok (bit_or ((x - b'0') * 16 % 256) 0 ∷ [])
unfolding pack_right
pack_right_one x h = ground (arith, nibble_digit x h)

pack_right_cons :
    (x y : ℕ) (ds : Bytes) {p : Bytes}
    → IsDigit x
    → IsDigit y
    → pack_right ds ≡ ok p
    → pack_right (x ∷ y ∷ ds) ≡ ok (bit_or ((x - b'0') * 16 % 256) (y - b'0') ∷ p)
unfolding pack_right
pack_right_cons x y ds hx hy e = ground (arith, nibble_digit x hx, nibble_digit y hy)

reads : (ds : Bytes) → All IsDigit ds → (p : Bytes) × Reads ds p
reads [] h = ([], (unfold pack_right in refl, unfold unpack_right_from in refl, refl))
reads (x ∷ []) (hx, h) = (
  bit_or ((x - b'0') * 16 % 256) 0 ∷ [],
  (pack_right_one x hx, ground (arith, last_byte (x - b'0') (omega arith)), refl),
)
reads (x ∷ y ∷ ds) (hx, (hy, h)) =
    let (p, t) = reads ds h in
    (
      bit_or ((x - b'0') * 16 % 256) (y - b'0') ∷ p,
      (
        pack_right_cons x y ds hx hy t.0,
        ground
            (arith, first_byte (x - b'0') (y - b'0') (length ds) p (omega arith) (omega arith) t.1),
        omega (arith, t.2),
      ),
    )

-- On decimal digits `PackRight` succeeds with `PackedLen` bytes, and `UnpackRight` of these bytes
-- at the same count is the digits again.
pub pack_right_total :
    (ds : Bytes)
    → All IsDigit ds
    → (p : Bytes) × ((pack_right ds ≡ ok p)
        × (unpack_right p (pos (length ds)) ≡ ok ds)
        × (length p ≡ packed_len (length ds)))
unfolding unpack_right packed_len
pack_right_total ds h =
    let (p, t) = reads ds h in (p, (t.0, ground (arith, t.1, t.2), omega (arith, t.2)))
