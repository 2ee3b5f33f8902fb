-- ===== src/Link/Runs.antt =====
-- A frame of two bytes behind a prefix of two.
use isopace.Common.{◌^◌, ◌-◌, [], ◌∷◌}
use isopace.Common.{Bytes}
use isopace.Link.{LengthPrefix}

abbrev two : LengthPrefix
two = record { width = 2; max = 2 ^ 16 - 1 }

abbrev msg : Bytes
msg = 8 ∷ 9 ∷ []
