-- ===== src/Common/Bits/Xor.antt =====
-- `a ^ b`
use Prim.Native.Nat.{ℕ, zero, suc, ◌+◌, ◌*◌, ◌/◌, ◌%◌, ◌≤◌, ◌<◌, bit_xor, differ, bit_xor-bitwise}
use mathlib.Core.Path.{◌≡◌, refl, ◌∙◌}
use native.Mathlib.Omega.{arith}
use isopace.Common.Bits.Digits.{same_digits}

pub bit_xor_low : (x y : ℕ) → bit_xor x y ≡ bit_xor (x / 2) (y / 2) * 2 + differ (x % 2) (y % 2)
bit_xor_low zero y = simp bit_xor-bitwise (omega arith)
bit_xor_low (suc x) y =
    simp bit_xor-bitwise (
      rw
        (same_digits (λ b. b) differ (suc x / 2) (y / 2) x (suc x / 2) (omega arith) (omega arith)))

differ_self : (x y : ℕ) → x < 2 → y < 2 → (differ (differ x y) y ≡ x) × (differ x y < 2)
differ_self zero zero h k = (refl, omega arith)
differ_self zero (suc zero) h k = (refl, omega arith)
differ_self (suc zero) zero h k = (refl, omega arith)
differ_self (suc zero) (suc zero) h k = (refl, omega arith)
differ_self (suc (suc x)) y h k = absurd (omega arith)
differ_self zero (suc (suc y)) h k = absurd (omega arith)
differ_self (suc zero) (suc (suc y)) h k = absurd (omega arith)

xor_back_under : (n x y : ℕ) → x ≤ n → y ≤ n → bit_xor (bit_xor x y) y ≡ x
xor_back_under zero x y h k =
    let ex : x ≡ 0 = omega arith in let ey : y ≡ 0 = omega arith in rw (ex, ey)
xor_back_under (suc n) x y h k =
    let r = bit_xor (x / 2) (y / 2) in
    let d = differ (x % 2) (y % 2) in
    let (back, two) = differ_self (x % 2) (y % 2) (omega arith) (omega arith) in
    let low = bit_xor_low x y in
    let half : bit_xor x y / 2 ≡ r = omega (arith, low, two) in
    let last : bit_xor x y % 2 ≡ d = omega (arith, low, two) in
    let ih = xor_back_under n (x / 2) (y / 2) (omega arith) (omega arith) in
    bit_xor_low (bit_xor x y) y ∙ rw (half, last, ih, back) (omega arith)

-- `a ^ b ^ b` is `a`.
pub xor_back : (x y : ℕ) → bit_xor (bit_xor x y) y ≡ x
xor_back x y = xor_back_under (x + y) x y (omega arith) (omega arith)
