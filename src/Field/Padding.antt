-- ===== src/Field/Padding.antt =====
-- `padFixed`: a value that fits its field, and what it is padded to.
use isopace.Common.{
  ℕ, zero, suc, ◌-◌, ◌≤◌, ◌≡◌, refl, sym, ap, ◌∙◌, ◌⊎◌, inl, inr, arith, Bool, true, false, ◌++◌,
  append-nil,
}
use isopace.Common.{
  ltb, ◌==◌, if◌then◌else◌, Bytes, length, replicate, length-append, length-replicate, All,
  All-append, Bool-cases, Result, ok, err,
}
use isopace.Engine.Types.{Attrs}
use isopace.Field.{FieldError, too_long, is_fixed, pad_fixed}

-- A fixed field is as wide as it says; any other one as the value is long.
abbrev pub IsFit : Attrs → Bytes → ℕ → Type 0
IsFit def b n =
    ((is_fixed def ≡ true) × ((length b ≤ def.max_len) × (n ≡ def.max_len)))
    ⊎ ((is_fixed def ≡ false) × (n ≡ length b))

-- The value with as many copies of `pad` as are missing to `n`, on the left or on the right.
abbrev pub padded : ℕ → Bool → Bytes → ℕ → Bytes
padded pad left b n =
    if left then replicate (n - length b) pad ++ b else b ++ replicate (n - length b) pad

replicate-All : (P : ℕ → Type 0) (pad k : ℕ) → P pad → All P (replicate k pad)
replicate-All P pad zero h = tt
replicate-All P pad (suc k) h = (h, replicate-All P pad k h)

pub padded_exact : (pad : ℕ) (left : Bool) (b : Bytes) → padded pad left b (length b) ≡ b
padded_exact pad true b = let z : length b - length b ≡ 0 = omega arith in rw z refl
padded_exact pad false b = let z : length b - length b ≡ 0 = omega arith in rw z (append-nil b)

if_ok :
    (left : Bool) (x y : Bytes)
    → if◌then◌else◌ {A = Result FieldError Bytes} left (ok x) (ok y) ≡ ok (if left then x else y)
if_ok true x y = refl
if_ok false x y = refl

-- `padFixed` accepts a value that fits and gives it padded.
pub pad_fixed-padded :
    (def : Attrs) (pad : ℕ) (left : Bool) (b : Bytes) (n : ℕ)
    → IsFit def b n
    → pad_fixed b def pad left ≡ ok (padded pad left b n)
unfolding pad_fixed
pad_fixed-padded def pad left b n (inr (f, e)) = rw (f, e) (ap ok (sym (padded_exact pad left b)))
pad_fixed-padded def pad left b n (inl (f, (h, e))) = elim (Bool-cases (length b == def.max_len)) [
  | inl q ↦
      let m : def.max_len ≡ length b = ground arith in
      let small : ltb def.max_len (length b) ≡ false = ground arith in
      let n_is : n ≡ length b = e ∙ m in
      rw (f, small, q, n_is) (ap ok (sym (padded_exact pad left b)))
  | inr q ↦
      let small : ltb def.max_len (length b) ≡ false = ground arith in
      rw (f, small, q, e)
        (if_ok left (replicate (def.max_len - length b) pad ++ b)
          (b ++ replicate (def.max_len - length b) pad))
]

length-padded_short :
    (pad : ℕ) (left : Bool) (b : Bytes) (n : ℕ) → length b ≤ n → length (padded pad left b n) ≡ n
length-padded_short pad true b n low =
    omega
      (arith, length-replicate (n - length b) pad, length-append (replicate (n - length b) pad) b)
length-padded_short pad false b n low =
    omega
      (arith, length-replicate (n - length b) pad, length-append b (replicate (n - length b) pad))

pub length-padded :
    (def : Attrs) (pad : ℕ) (left : Bool) (b : Bytes) (n : ℕ)
    → IsFit def b n
    → length (padded pad left b n) ≡ n
length-padded def pad left b n h =
    length-padded_short pad left b n
      (elim h [ inl (_, (k, e)) ↦ omega arith | inr (_, e) ↦ omega arith ])

pub padded-All :
    (P : ℕ → Type 0) (pad : ℕ) (left : Bool) (b : Bytes) (n : ℕ)
    → P pad
    → All P b
    → All P (padded pad left b n)
padded-All P pad true b n hp h =
    All-append P (replicate (n - length b) pad) b (replicate-All P pad (n - length b) hp) h
padded-All P pad false b n hp h =
    All-append P b (replicate (n - length b) pad) h (replicate-All P pad (n - length b) hp)

-- A value that is longer than a fixed field is refused.
pub pad_fixed_too_long :
    (def : Attrs) (pad : ℕ) (left : Bool) (b : Bytes)
    → is_fixed def ≡ true
    → suc def.max_len ≤ length b
    → pad_fixed b def pad left ≡ err too_long
unfolding pad_fixed
pad_fixed_too_long def pad left b f h =
    let big : ltb def.max_len (length b) ≡ true = ground arith in rw (f, big) refl
