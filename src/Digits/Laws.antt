-- ===== src/Digits/Laws.antt =====
-- `itoa` writes digits, that stand for the number, and as few as the number needs.
use isopace.Common.{
  ℕ, zero, suc, ◌+◌, ◌-◌, ◌*◌, ◌/◌, ◌%◌, ◌^◌, ◌≤◌, ◌<◌, ◌≡◌, refl, [], ◌∷◌, ◌++◌, arith,
}
use isopace.Common.{Bytes, length, length-append, All, All-append, replicate}
use isopace.Bcd.{IsDigit}
use isopace.Digits.{itoa_from, itoa, digits_from}
use native.Mathlib.Nat.{pow-suc, one-le-pow}

itoa_from-IsDigit : (f n : ℕ) → All IsDigit (itoa_from f n)
unfolding itoa_from
itoa_from-IsDigit zero n = omega arith
itoa_from-IsDigit (suc f) n =
    let front = itoa_from f (n / 10) in
    let last : Bytes = (b'0' + n % 10) ∷ [] in
    ground (arith, All-append IsDigit front last (itoa_from-IsDigit f (n / 10)) (omega arith))

pub itoa-IsDigit : (n : ℕ) → All IsDigit (itoa n)
unfolding itoa
itoa-IsDigit n = itoa_from-IsDigit n n

pub digits_from-append :
    (acc : ℕ) (xs ys : Bytes) → digits_from acc (xs ++ ys) ≡ digits_from (digits_from acc xs) ys
unfolding digits_from
digits_from-append acc [] ys = refl
digits_from-append acc (x ∷ xs) ys = digits_from-append (acc * 10 + (x - b'0')) xs ys

digits_from-itoa_from : (f n : ℕ) → n ≤ f → digits_from 0 (itoa_from f n) ≡ n
unfolding itoa_from digits_from
digits_from-itoa_from zero n h = omega arith
digits_from-itoa_from (suc f) n h = ground (
  arith,
  digits_from-append 0 (itoa_from f (n / 10)) ((b'0' + n % 10) ∷ []),
  digits_from-itoa_from f (n / 10) (omega arith),
)

pub digits_from-itoa : (n : ℕ) → digits_from 0 (itoa n) ≡ n
unfolding itoa
digits_from-itoa n = digits_from-itoa_from n n (omega arith)

-- Zeros on the left change nothing.
pub digits_from-replicate : (k : ℕ) → digits_from 0 (replicate k b'0') ≡ 0
unfolding digits_from
digits_from-replicate zero = refl
digits_from-replicate (suc k) = digits_from-replicate k

length-itoa_from : (f n w : ℕ) → n ≤ f → n < 10 ^ suc w → length (itoa_from f n) ≤ suc w
unfolding itoa_from
length-itoa_from zero n w h k = omega arith
length-itoa_from (suc f) n zero h k = ground (arith, pow-suc 10 0)
length-itoa_from (suc f) n (suc w) h k = ground (
  arith,
  length-append (itoa_from f (n / 10)) ((b'0' + n % 10) ∷ []),
  length-itoa_from f (n / 10) w (omega arith) (omega (arith, pow-suc 10 (suc w))),
)

lt-itoa_from : (f n w : ℕ) → n ≤ f → length (itoa_from f n) ≤ w → n < 10 ^ w
unfolding itoa_from
lt-itoa_from zero n w h k = omega (arith, one-le-pow w 10)
lt-itoa_from (suc f) n zero h k =
    absurd (ground (arith, length-append (itoa_from f (n / 10)) ((b'0' + n % 10) ∷ [])))
lt-itoa_from (suc f) n (suc w) h k = ground (
  arith,
  pow-suc 10 w,
  one-le-pow w 10,
  length-append (itoa_from f (n / 10)) ((b'0' + n % 10) ∷ []),
  lt-itoa_from f (n / 10) w,
)

-- A number below 10 ^ (w + 1) takes at most w + 1 digits.
pub length-itoa : (n w : ℕ) → n < 10 ^ suc w → length (itoa n) ≤ suc w
unfolding itoa
length-itoa n w = length-itoa_from n n w (omega arith)

-- A number of at most w digits is below 10 ^ w.
pub lt-itoa : (n w : ℕ) → length (itoa n) ≤ w → n < 10 ^ w
unfolding itoa
lt-itoa n w = lt-itoa_from n n w (omega arith)

some_digit : (f n : ℕ) → 1 ≤ length (itoa_from f n)
unfolding itoa_from
some_digit zero n = omega arith
some_digit (suc f) n = ground (arith, length-append (itoa_from f (n / 10)) ((b'0' + n % 10) ∷ []))

-- There is at least one digit.
pub itoa_nonempty : (n : ℕ) → 1 ≤ length (itoa n)
unfolding itoa
itoa_nonempty n = some_digit n n
