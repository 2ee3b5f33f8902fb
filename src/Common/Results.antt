-- ===== src/Common/Results.antt =====
-- Go's `(value, error)` pair: a value or an error of the package's own type.
use mathlib.Core.Path.{◌≡◌, refl, ap}
use mathlib.Core.Bool.{Bool, true, false}
use mathlib.Core.Option.{none, some}
use isopace.Common.Tests.{if◌then◌else◌}
use mathlib.Core.Logic.{◌≢◌, ◌⊎◌, inl, inr}

pub data Result {ℓ} (E : Type 0) (A : Type ℓ) : Type ℓ where
  ok : A → Result E A
  err : E → Result E A

-- `x, err := m; if err != nil { return err }` in front of what is done with `x`.
infixl 5 ◌>>=◌
abbrev pub ◌>>=◌ {ℓ κ} :
    {E : Type 0} {X : Type ℓ} {Y : Type κ} → Result E X → (X → Result E Y) → Result E Y
m >>= next = elim m [ err e ↦ err e | ok x ↦ next x ]

-- `if err != nil { return wrap(err) }`
abbrev pub map_err {ℓ} : {E F : Type 0} {A : Type ℓ} → (E → F) → Result E A → Result F A
map_err g (ok a) = ok a
map_err g (err e) = err (g e)

pub Result-cases {ℓ} :
    {E : Type 0} {A : Type ℓ} (r : Result E A) → ((a : A) × (r ≡ ok a)) ⊎ ((e : E) × (r ≡ err e))
Result-cases (ok a) = inl (a, refl)
Result-cases (err e) = inr (e, refl)

-- `ok` with its error type said.
abbrev pub result_ok {ℓ} : (E : Type 0) {A : Type ℓ} → A → Result E A
result_ok E a = ok a

pub ok_injective {ℓ} : {E : Type 0} {A : Type ℓ} {a b : A} → result_ok E a ≡ result_ok E b → a ≡ b
ok_injective {a = a} e = ap (λ r. elim r [ ok x ↦ x | err _ ↦ a ]) e

pub err_injective {ℓ} :
    {E : Type 0} {A : Type ℓ} {d e : E} → (let l : Result E A = err d in l ≡ err e) → d ≡ e
err_injective {d = d} q = ap (λ r. elim r [ ok _ ↦ d | err x ↦ x ]) q

pub err_ne_ok {ℓ} : {E : Type 0} {A : Type ℓ} {a : A} {e : E} → err e ≢ ok a
err_ne_ok h = cc

pub some_injective {ℓ} : {A : Type ℓ} {a b : A} → some a ≡ some b → a ≡ b
some_injective {a = a} e = ap (λ o. elim o [ none ↦ a | some x ↦ x ]) e

pub none_ne_some {ℓ} : {A : Type ℓ} {a : A} → none ≢ some a
none_ne_some h = cc

-- What a chain that succeeds went through.
pub bind_ok {ℓ κ} :
    {E : Type 0} {X : Type ℓ} {Y : Type κ} (m : Result E X) {f : X → Result E Y} {y : Y}
    → (m >>= f) ≡ ok y
    → (x : X) × (m ≡ ok x) × (f x ≡ ok y)
bind_ok (ok x) e = (x, refl, e)
bind_ok (err _) e = absurd (err_ne_ok e)

pub map_err_ok {ℓ} :
    {E F : Type 0} {A : Type ℓ} (g : E → F) (r : Result E A) {a : A} → map_err g r ≡ ok a → r ≡ ok a
map_err_ok {E = E} g (ok x) e = ap (result_ok E) (ok_injective e)
map_err_ok g (err _) e = absurd (err_ne_ok e)

-- `if test { return err }` in front of what succeeds.
pub guard_ok {ℓ} :
    {E : Type 0} {A : Type ℓ} (b : Bool) (e : E) {r : Result E A} {a : A}
    → (if b then err e else r) ≡ ok a
    → (b ≡ false) × (r ≡ ok a)
guard_ok true e q = absurd (err_ne_ok q)
guard_ok false e q = (refl, q)
