-- ===== src/Engine/Validate.antt =====
-- `Validate` of codec.go and the validators of validate.go, but for those by regular expressions,
-- which are a library's, and by the currency.
pub mod Luhn
pub mod Report
mod Runs
use isopace.Common.{
  ℕ, zero, suc, ◌+◌, ◌-◌, ◌*◌, ◌%◌, Bool, true, false, not, ◌||◌, ◌&&◌, Option, none, some, List,
  [], ◌∷◌, ◌++◌,
}
use isopace.Common.{ltb, ◌==◌, if◌then◌else◌, Bytes, length, take, eq_bytes}
use isopace.Decimal.{decimal_text}
use isopace.Engine.Types.{
  Kinds, Value, Attrs, FieldDef, Violation, Rule, RequiredRule, Schema, kind_string, kind_numeric,
  kind_bytes, kind_amount, kind_invalid, kind_composite, required_optional, required_always,
  required_on_mti, required_rule, digits_rule, luhn_rule, len_rule, oneof_rule, mti_rule,
  decode_rule,
}
use isopace.Engine.Message.{Message, field, has, get}

-- `Value.String`
abbrev pub value_text : {K : Kinds} → Value K → Option Bytes
value_text v = elim v.kind [
  | kind_string ↦ some v.raw
  | kind_numeric ↦ some v.raw
  | kind_bytes ↦ some v.raw
  | kind_amount ↦ some (decimal_text v.dec)
  | kind_invalid ↦ none
  | kind_composite ↦ none
]

-- `violate`
abbrev pub violate : Rule → Violation
violate rule = record { place = none; rule = rule }

-- `strings.HasPrefix`
abbrev pub has_prefix : Bytes → Bytes → Bool
has_prefix s p = eq_bytes (take (length p) s) p

-- `mtiInClasses`
pub mti_in_classes : Bytes → List Bytes → Bool
mti_in_classes mti [] = false
mti_in_classes mti (c ∷ classes) = has_prefix mti c || mti_in_classes mti classes

abbrev pub Validator : Kinds → Type 0
Validator K = Value K → Attrs → Option Violation

abbrev pub is_digit : ℕ → Bool
is_digit c = not (ltb c b'0' || ltb b'9' c)

unfoldable pub all_digits : Bytes → Bool
all_digits [] = true
all_digits (c ∷ cs) = is_digit c && all_digits cs

-- `Required`, `Digits`, `LenBetween` and `MaxLength`
abbrev pub required : {K : Kinds} → Validator K
required v def = if length v.raw == 0 then some (violate required_rule) else none

abbrev pub digits : {K : Kinds} → Validator K
unfolding all_digits
digits v def = if all_digits v.raw then none else some (violate digits_rule)

abbrev pub len_between : {K : Kinds} → ℕ → ℕ → Validator K
len_between low high v def =
    if ltb (length v.raw) low || ltb high (length v.raw) then some (violate len_rule) else none

abbrev pub max_length : {K : Kinds} → ℕ → Validator K
max_length n v def = if ltb n (length v.raw) then some (violate len_rule) else none

-- The value of a digit in the sum of `Luhn`.
abbrev pub luhn_digit : Bool → ℕ → ℕ
luhn_digit double c =
    let d = c - b'0' in if double then (if ltb 9 (d * 2) then d * 2 - 9 else d * 2) else d

-- One round of the loop of `Luhn`, which runs from the last byte to the first: `double` and `sum`,
-- or nothing after a byte that is no digit.
abbrev pub luhn_step : ℕ → Option (Bool × ℕ) → Option (Bool × ℕ)
luhn_step c none = none
luhn_step c (some (double, sum)) =
    if is_digit c then some (not double, sum + luhn_digit double c) else none

unfoldable pub luhn_loop : Bytes → Option (Bool × ℕ)
luhn_loop [] = some (false, 0)
luhn_loop (c ∷ cs) = luhn_step c (luhn_loop cs)

-- What is asked of the state after the loop.
abbrev pub luhn_end : Option (Bool × ℕ) → Option Violation
luhn_end none = some (violate luhn_rule)
luhn_end (some (double, sum)) = if sum % 10 == 0 then none else some (violate luhn_rule)

-- `Luhn`
unfoldable pub luhn : {K : Kinds} → Validator K
unfolding luhn_loop
luhn v def = if length v.raw == 0 then some (violate luhn_rule) else luhn_end (luhn_loop v.raw)

pub is_member : Bytes → List Bytes → Bool
is_member s [] = false
is_member s (a ∷ allowed) = eq_bytes s a || is_member s allowed

-- `OneOf` and `MTIClass`
abbrev pub one_of : {K : Kinds} → List Bytes → Validator K
unfolding is_member
one_of allowed v def = elim (value_text v) [
  | none ↦ some (violate oneof_rule)
  | some s ↦ if is_member s allowed then none else some (violate oneof_rule)
]

abbrev pub mti_class : {K : Kinds} → List Bytes → Validator K
unfolding mti_in_classes
mti_class allowed v def = elim (value_text v) [
  | none ↦ some (violate mti_rule)
  | some s ↦ if mti_in_classes s allowed then none else some (violate mti_rule)
]

-- `All`: the first violation.
pub all_of : {K : Kinds} → List (Validator K) → Validator K
all_of [] v def = none
all_of (rule ∷ rules) v def =
    let rest = all_of rules v def in elim (rule v def) [ none ↦ rest | some viol ↦ some viol ]

-- The rule of presence in `Validate`.
unfoldable pub is_missing : RequiredRule → Bytes → Bool → Bool
unfolding mti_in_classes
is_missing r mti present = elim r.mode [
  | required_optional ↦ false
  | required_always ↦ not present
  | required_on_mti ↦ not present && mti_in_classes mti r.mti_classes
]

abbrev pub violation_at : ℕ → Rule → Violation
violation_at de rule = record { place = some de; rule = rule }

-- `if viol.Path.IsZero() { viol.Path = def.Path }`
abbrev pub placed_at : ℕ → Violation → Violation
placed_at de v = elim v.place [ none ↦ violation_at de v.rule | some p ↦ v ]

-- The validators of a field, in order, all of them.
unfoldable pub run_rules : {K : Kinds} → ℕ → Value K → Attrs → List (Validator K) → List Violation
run_rules de v def [] = []
run_rules de v def (rule ∷ rules) = elim (rule v def) [
  | none ↦ run_rules de v def rules
  | some viol ↦ placed_at de viol ∷ run_rules de v def rules
]

-- What `Validate` reports of a field, of which `Get` answers `got`.
unfoldable pub field_violations :
    {K : Kinds} → Bytes → FieldDef K → ℕ → Bool → Option (Value K) → List Violation
unfolding is_missing run_rules
field_violations mti def de present got =
    (if is_missing def.required mti present then violation_at de required_rule ∷ [] else [])
    ++ (if present
        then elim got [
          | none ↦ violation_at de decode_rule ∷ []
          | some v ↦ run_rules de v def.attrs def.validators
        ]
        else [])

-- The loop over the data elements from `de` on, with `left` of them to go. `Get` is called on fields
-- that are present only, and may fill in their value.
unfoldable pub validate_loop :
    {K : Kinds} → Schema K → Bytes → ℕ → ℕ → Message K → Message K × List Violation
unfolding field_violations field has get
validate_loop sch mti zero de m = (m, [])
validate_loop sch mti (suc left) de m = elim (field sch de) [
  | none ↦ validate_loop sch mti left (de + 1) m
  | some def ↦
      let present = has m de in
      let got = get sch m de in
      let rest = validate_loop sch mti left (de + 1) (if present then got.0 else m) in
      (rest.0, field_violations mti def de present got.1 ++ rest.1)
]

-- The text of the MTI, or none.
abbrev pub mti_text : {K : Kinds} → Option (Value K) → Bytes
mti_text none = []
mti_text (some v) = elim (value_text v) [ none ↦ [] | some s ↦ s ]

-- `Validate`: the message with the values filled in, and the violations.
unfoldable pub validate : {K : Kinds} → Schema K → Message K → Message K × List Violation
unfolding validate_loop get
validate sch m = let got = get sch m 0 in validate_loop sch (mti_text got.1) sch.max_de 1 got.0
