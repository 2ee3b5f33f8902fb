-- ===== src/Common/Bits/Masks.antt =====
-- Single-bit masks: `w & (1<<k) != 0`, `w |= 1<<k` and `w &^= 1<<k` by the digits of `w`.
use Prim.Native.Nat.{ℕ, zero, suc, ◌+◌, ◌-◌, ◌*◌, ◌/◌, ◌%◌, ◌^◌, ◌≤◌, bit_and, bit_or}
use mathlib.Core.Path.{◌≡◌, refl, ap, ◌∙◌}
use Prim.Native.Nat.{min, max, bit_and-bitwise}
use mathlib.Core.Logic.{◌⊎◌, inl, inr}
use native.Mathlib.Omega.{arith}
use native.Mathlib.Nat.{pow-suc, one-le-pow}
use isopace.Common.Tests.{◌==◌, if◌then◌else◌}
use isopace.Common.Bits.Digits.{bit_and_low, bit_or_low}

-- The digit `k` of `w`, 0 or 1.
unfoldable pub digit : ℕ → ℕ → ℕ
digit w zero = w % 2
digit w (suc k) = digit (w / 2) k

pub digit-le : (w k : ℕ) → digit w k ≤ 1
unfolding digit
digit-le w zero = omega arith
digit-le w (suc k) = digit-le (w / 2) k

-- `a &^ b`
unfoldable pub and_not : ℕ → ℕ → ℕ
and_not a b = a - bit_and a b

pub digit-zero : (k : ℕ) → digit 0 k ≡ 0
unfolding digit
digit-zero zero = refl
digit-zero (suc k) = digit-zero k

and_nothing_under : (n w : ℕ) → w ≤ n → bit_and w 0 ≡ 0
and_nothing_under zero w h = let e : w ≡ 0 = omega arith in rw e
and_nothing_under (suc n) w h =
    omega (arith, bit_and_low w 0, and_nothing_under n (w / 2) (omega arith))

or_nothing_under : (n w : ℕ) → w ≤ n → bit_or w 0 ≡ w
or_nothing_under zero w h = let e : w ≡ 0 = omega arith in rw e
or_nothing_under (suc n) w h =
    omega (arith, bit_or_low w 0, or_nothing_under n (w / 2) (omega arith))

pub half_pow : (k : ℕ) → (2 ^ suc k / 2 ≡ 2 ^ k) × (2 ^ suc k % 2 ≡ 0)
half_pow k = omega (arith, pow-suc 2 k)

-- The mask picks one digit.
pub and-mask : (w k : ℕ) → bit_and w (2 ^ k) ≡ digit w k * 2 ^ k
unfolding digit
and-mask w zero = omega (arith, bit_and_low w 1, and_nothing_under (w / 2) (w / 2) (omega arith))
and-mask w (suc k) =
    let (h, e) = half_pow k in
    let low : bit_and w (2 ^ suc k) ≡ bit_and (w / 2) (2 ^ k) * 2 =
      bit_and_low w (2 ^ suc k) ∙ rw (h, e) (omega arith) in
    low ∙ rw (and-mask (w / 2) k) (omega (arith, ap (λ (t : ℕ). digit (w / 2) k * t) (pow-suc 2 k)))

pub zero_and : (y : ℕ) → bit_and 0 y ≡ 0
zero_and y = bit_and-bitwise 0 y

digit_cases : (d p : ℕ) → d ≤ 1 → (d * p ≡ 0) ⊎ (d * p ≡ p)
digit_cases zero p h = inl (omega arith)
digit_cases (suc zero) p h = inr (omega arith)
digit_cases (suc (suc d)) p h = absurd (omega arith)

-- `w & (1<<k) != 0` is the digit.
pub test-mask : (w k : ℕ) → (bit_and w (2 ^ k) == 0) ≡ (digit w k == 0)
test-mask w k =
    ground (arith, and-mask w k, digit-le w k, one-le-pow k 2, digit_cases (digit w k) (2 ^ k))

or_half : (w k : ℕ) → bit_or w (2 ^ suc k) / 2 ≡ bit_or (w / 2) (2 ^ k)
or_half w k =
    let (h, e) = half_pow k in
    let low : bit_or w (2 ^ suc k) ≡ bit_or (w / 2) (2 ^ k) * 2 + max (w % 2) 0 =
      bit_or_low w (2 ^ suc k) ∙ rw (h, e) in
    rw low (omega arith)

and-le-under : (n x y : ℕ) → x ≤ n → bit_and x y ≤ x
and-le-under zero x y h =
    let e : x ≡ 0 = omega arith in rw e (omega (arith, bit_and_low 0 y, zero_and y))
and-le-under (suc n) x y h =
    omega (arith, bit_and_low x y, and-le-under n (x / 2) (y / 2) (omega arith))

pub and_not_low :
    (x y : ℕ) → and_not x y ≡ and_not (x / 2) (y / 2) * 2 + (x % 2 - min (x % 2) (y % 2))
unfolding and_not
and_not_low x y = omega (
  arith,
  bit_and_low x y,
  and-le-under x x y (omega arith),
  and-le-under (x / 2) (x / 2) (y / 2) (omega arith),
)

not_half : (w k : ℕ) → and_not w (2 ^ k) / 2 ≡ and_not (w / 2) (2 ^ k / 2)
not_half w k = omega (arith, and_not_low w (2 ^ k))

pub digit-or : (w k j : ℕ) → digit (bit_or w (2 ^ k)) j ≡ (if j == k then 1 else digit w j)
unfolding digit
digit-or w zero zero = omega (arith, bit_or_low w 1)
digit-or w zero (suc j) =
    let e : bit_or w (2 ^ 0) / 2 ≡ w / 2 =
      omega (arith, bit_or_low w 1, or_nothing_under (w / 2) (w / 2) (omega arith)) in
    ap (λ x. digit x j) e ∙ ground arith
digit-or w (suc k) zero = ground (arith, bit_or_low w (2 ^ suc k), half_pow k)
digit-or w (suc k) (suc j) =
    let (h, e) = half_pow k in
    ap (λ x. digit x j) (or_half w k) ∙ digit-or (w / 2) k j ∙ ground arith

pub digit-and_not : (w k j : ℕ) → digit (and_not w (2 ^ k)) j ≡ (if j == k then 0 else digit w j)
unfolding digit
digit-and_not w zero zero = omega (arith, and_not_low w 1)
digit-and_not w zero (suc j) =
    let e : and_not w (2 ^ 0) / 2 ≡ w / 2 =
      not_half w zero
      ∙ unfold and_not in omega (arith, and_nothing_under (w / 2) (w / 2) (omega arith)) in
    ap (λ x. digit x j) e ∙ ground arith
digit-and_not w (suc k) zero = ground (arith, and_not_low w (2 ^ suc k), half_pow k)
digit-and_not w (suc k) (suc j) =
    ap (λ x. digit x j) (not_half w (suc k) ∙ rw ((half_pow k).0))
    ∙ digit-and_not (w / 2) k j
    ∙ ground arith
