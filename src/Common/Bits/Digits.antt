-- ===== src/Common/Bits/Digits.antt =====
-- One equation for the lowest binary digit of `bit_and` and `bit_or`, whatever the operands.
use Prim.Native.Nat.{ℕ, zero, suc, ◌+◌, ◌*◌, ◌/◌, ◌%◌, ◌≤◌, bit_and, bit_or}
use Prim.Native.Nat.{min, max, digits, bit_and-bitwise, bit_or-bitwise}
use mathlib.Core.Path.{◌≡◌, refl}
use native.Mathlib.Omega.{arith}

-- Two amounts of fuel that both cover the first operand give one result.
pub same_digits :
    (last : ℕ → ℕ) (op : ℕ → ℕ → ℕ) (x y small large : ℕ)
    → x ≤ small
    → x ≤ large
    → digits last op small x y ≡ digits last op large x y
same_digits last op zero y zero zero p q = refl
same_digits last op zero y zero (suc large) p q = refl
same_digits last op zero y (suc small) zero p q = refl
same_digits last op zero y (suc small) (suc large) p q = refl
same_digits last op (suc x) y zero large p q = absurd (omega arith)
same_digits last op (suc x) y (suc small) zero p q = absurd (omega arith)
same_digits last op (suc x) y (suc small) (suc large) p q =
    rw (same_digits last op (suc x / 2) (y / 2) small large (omega arith) (omega arith))

pub bit_and_low : (x y : ℕ) → bit_and x y ≡ bit_and (x / 2) (y / 2) * 2 + min (x % 2) (y % 2)
bit_and_low zero y = simp bit_and-bitwise (omega arith)
bit_and_low (suc x) y =
    simp bit_and-bitwise
      (rw (same_digits (λ _. 0) min (suc x / 2) (y / 2) x (suc x / 2) (omega arith) (omega arith)))

pub bit_or_low : (x y : ℕ) → bit_or x y ≡ bit_or (x / 2) (y / 2) * 2 + max (x % 2) (y % 2)
bit_or_low zero y = simp bit_or-bitwise (omega arith)
bit_or_low (suc x) y =
    simp bit_or-bitwise
      (rw (same_digits (λ b. b) max (suc x / 2) (y / 2) x (suc x / 2) (omega arith) (omega arith)))
