-- ===== src/Digits.antt =====
-- Decimal text: what `strconv.Itoa` and `strconv.FormatUint` write of a number that is not
-- negative, and the value of a list of ASCII digits.
pub mod Laws
use isopace.Common.{ℕ, zero, suc, ◌+◌, ◌-◌, ◌*◌, ◌/◌, ◌%◌, ◌≤◌, Bool, true, false, [], ◌∷◌, ◌++◌}
use isopace.Common.{ltb, if◌then◌else◌, Bytes}

-- `fuel` bounds the number of digits after the first.
itoa_from : ℕ → ℕ → Bytes
itoa_from zero n = (b'0' + n % 10) ∷ []
itoa_from (suc fuel) n =
    let front = itoa_from fuel (n / 10) in
    if ltb n 10 then (b'0' + n) ∷ [] else front ++ ((b'0' + n % 10) ∷ [])

-- A number has at most as many digits as it has units, so `n` itself is fuel enough.
unfoldable pub itoa : ℕ → Bytes
unfolding itoa_from
itoa n = itoa_from n n

-- The number that a list of ASCII digits stands for, after `acc`.
unfoldable pub digits_from : ℕ → Bytes → ℕ
digits_from acc [] = acc
digits_from acc (c ∷ cs) = digits_from (acc * 10 + (c - b'0')) cs
