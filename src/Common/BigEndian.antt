-- ===== src/Common/BigEndian.antt =====
-- Big-endian unsigned integers of a fixed number of bytes, the form of `encoding/binary` and of
-- the source's own shift loops.
use Prim.Native.Nat.{ℕ, zero, suc, ◌+◌, ◌*◌, ◌/◌, ◌%◌, ◌^◌, ◌<◌}
use mathlib.Core.Path.{◌≡◌, refl, ◌∙◌}
use mathlib.Core.List.{[], ◌∷◌, ◌++◌}
use native.Mathlib.Omega.{arith}
use native.Mathlib.Nat.{pow-suc}
use isopace.Common.Lists.{Bytes, IsByte, length, length-append, All, All-append}

-- `n = n<<8 | b` over the bytes, at no fixed width.
pub be_from : ℕ → Bytes → ℕ
be_from acc [] = acc
be_from acc (b ∷ bs) = be_from (acc * 256 + b) bs

unfoldable pub be_get : Bytes → ℕ
unfolding be_from
be_get = be_from 0

-- The `width` lowest bytes of `n`, highest first.
unfoldable pub be_put : ℕ → ℕ → Bytes
be_put zero n = []
be_put (suc w) n = be_put w (n / 256) ++ (n % 256 ∷ [])

pub length-be_put : (w n : ℕ) → length (be_put w n) ≡ w
unfolding be_put
length-be_put zero n = refl
length-be_put (suc w) n =
    omega (arith, length-append (be_put w (n / 256)) (n % 256 ∷ []), length-be_put w (n / 256))

pub be_put-IsByte : (w n : ℕ) → All IsByte (be_put w n)
unfolding be_put
be_put-IsByte zero n = tt
be_put-IsByte (suc w) n =
    All-append IsByte (be_put w (n / 256)) _ (be_put-IsByte w (n / 256)) (omega arith)

be_from-append : (acc : ℕ) (xs ys : Bytes) → be_from acc (xs ++ ys) ≡ be_from (be_from acc xs) ys
unfolding be_from
be_from-append acc [] ys = refl
be_from-append acc (x ∷ xs) ys = be_from-append (acc * 256 + x) xs ys

-- Reading back what was written.
pub be_get-be_put : (w n : ℕ) → n < 256 ^ w → be_get (be_put w n) ≡ n
unfolding be_get be_put
be_get-be_put zero n h = omega arith
be_get-be_put (suc w) n h =
    be_from-append 0 (be_put w (n / 256)) (n % 256 ∷ [])
    ∙ unfold be_from in omega (arith, be_get-be_put w (n / 256) (omega (arith, pow-suc 256 w)))
