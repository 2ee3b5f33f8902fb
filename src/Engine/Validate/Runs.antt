-- ===== src/Engine/Validate/Runs.antt =====
-- The check digit at a concrete number: 18 passes, and 19 does not.
use isopace.Common.{ℕ, ◌≡◌, refl, ◌≢◌, arith, none, [], ◌∷◌, false}
use isopace.Engine.Types.{Kinds, Attrs, numeric_value}
use isopace.Engine.Validate.{luhn, luhn_loop}

abbrev K : Kinds
K = record { Child = Unit; Cause = Unit }

abbrev attrs : Attrs
attrs = record { max_len = 2; scale = 0; is_prefixed = false }

passes : luhn {K = K} (numeric_value (b'1' ∷ b'8' ∷ [])) attrs ≡ none
unfolding luhn luhn_loop
passes = refl

abbrev eight : ℕ
eight = b'8'

abbrev nine : ℕ
nine = b'9'

eight_ne_nine : eight ≢ nine
eight_ne_nine h = omega arith
