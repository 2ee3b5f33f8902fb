-- ===== src/Field/Amounts/Runs.antt =====
-- An amount of 3.00 in a field of one byte.
use isopace.Common.{ℕ, false, ◌≡◌, arith}
use isopace.Common.{Bytes, length, ok}
use isopace.Common.Int.{pos}
use isopace.Engine.Types.{Attrs, amount_value}
use isopace.Field.Amounts.{amount_binary}
use isopace.Field.Amounts.Truncation.{amount, amount_binary_truncates}

abbrev attrs : Attrs
attrs = record { max_len = 1; scale = 2; is_prefixed = false }

amount_binary_truncates_example :
    (body : Bytes) × ((length body ≡ 1)
      × (((amount_binary {C = Unit}).encode_body (amount attrs 44) attrs ≡ ok body)
          × (((amount_binary {C = Unit}).encode_body (amount attrs 300) attrs ≡ ok body)
              × ((units : ℕ)
                  → (amount_binary {C = Unit}).decode_body body units attrs
                    ≡ ok (amount_value (record { unscaled = pos 44; scale = 2 }) body)))))
amount_binary_truncates_example =
    amount_binary_truncates Unit attrs (omega arith) 44 1 (omega arith) (omega arith)
