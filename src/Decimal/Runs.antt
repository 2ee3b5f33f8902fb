-- ===== src/Decimal/Runs.antt =====
-- Decimals at concrete numbers.
use isopace.Common.{◌+◌, ◌^◌, ◌-◌, ◌<◌, ◌≤◌, ◌≡◌, refl, ◌⊎◌, arith, true, none, some}
use isopace.Common.{ok}
use isopace.Common.Int.{ℤ, pos, negsuc, pos_part, neg_part}
use isopace.Engine.Types.{Decimal}
use isopace.Decimal.{rescale, add_check}
use isopace.Decimal.Checks.{fits_int64, add_check_lem}
use isopace.Decimal.Rescale.{rescale_up}

-- 10.99 and -0.005
abbrev price : Decimal
price = record { unscaled = pos 1099; scale = 2 }

abbrev small : Decimal
small = record { unscaled = negsuc 4; scale = 3 }

add_check_lem_example :
    ((r : ℤ) × ((add_check (pos (2 ^ 63 - 1)) (pos 1) ≡ some r)
        × ((fits_int64 r ≡ true) × (pos_part r + (0 + 0) ≡ neg_part r + (2 ^ 63 - 1 + 1)))))
    ⊎ ((add_check (pos (2 ^ 63 - 1)) (pos 1) ≡ none)
        × ((2 ^ 63 ≤ 2 ^ 63 - 1 + 1) ⊎ (2 ^ 63 < 0 + 0)))
add_check_lem_example = add_check_lem (pos (2 ^ 63 - 1)) (pos 1) refl refl

up : rescale price 4 ≡ ok (record { unscaled = pos 109900; scale = 4 })
up = rescale_up price refl 4 (omega arith) (omega arith)
