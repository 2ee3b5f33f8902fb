-- ===== src/Common/Bits.antt =====
-- Masks and shifts on a byte as arithmetic: tables checked by evaluation.
pub mod Digits
pub mod Masks
pub mod Xor
use Prim.Native.Nat.{ℕ, zero, suc, ◌+◌, ◌*◌, ◌/◌, ◌%◌, ◌<◌, bit_and, bit_or}
use mathlib.Core.Path.{◌≡◌, refl}
use mathlib.Core.Bool.{Bool, true, false}
use native.Mathlib.Omega.{arith}
use isopace.Common.Tests.{◌==◌, if◌then◌else◌}

-- The test passes at every number under the bound.
unfoldable pub passes_below : (ℕ → Bool) → ℕ → Bool
passes_below test zero = true
passes_below test (suc bound) = if test bound then passes_below test bound else false

pub passes_at :
    (test : ℕ → Bool) (bound n : ℕ) → n < bound → passes_below test bound ≡ true → test n ≡ true
unfolding passes_below
passes_at test zero n lt h = absurd (omega arith)
passes_at test (suc bound) n lt h = ground (arith, passes_at test bound n)

agree_below :
    (n : ℕ) (f g : ℕ → ℕ) → passes_below (λ x. f x == g x) n ≡ true → (x : ℕ) → x < n → f x ≡ g x
agree_below n f g h x lt = ground (arith, passes_at (λ x. f x == g x) n x lt h)

pub low_nibble : (b : ℕ) → b < 256 → bit_and b 0x0F ≡ b % 16
unfolding passes_below
low_nibble = agree_below 256 _ _ refl

join_nibbles : (b : ℕ) → b < 256 → bit_or (b / 16 * 16 % 256) (b % 16) ≡ b
unfolding passes_below
join_nibbles = agree_below 256 _ _ refl

-- `hi<<4 | lo` on two nibbles held in bytes.
pub pack_nibbles : (hi lo : ℕ) → hi < 16 → lo < 16 → bit_or (hi * 16 % 256) lo ≡ hi * 16 + lo
pack_nibbles hi lo h l = ground (arith, join_nibbles (hi * 16 + lo) (omega arith))
