-- ===== src/Field/Runs.antt =====
-- A payment message of three data elements, run through the engine.
use isopace.Common.{
  ℕ, ◌≡◌, refl, arith, true, false, Option, none, some, [], ◌∷◌, inl, inr, ◌∙◌, sym,
}
use isopace.Common.{
  ◌==◌, if◌then◌else◌, length, Bytes, All, Result, ok, err, some_injective, ok_injective,
}
use isopace.BitmapCodec.{hex_word}
use isopace.BitmapCodec.Words.{hex_word-IsWordRepr}
use isopace.Common.Bits.Masks.{digit, and_not}
use isopace.Bcd.{packed_len}
use isopace.Length.{read_len, atoi_digits, var_ascii}
use isopace.Field.Amounts.{amount_ascii}
use isopace.Engine.Types.{
  zero_decimal, kind_amount, Value, FieldDef, Schema, numeric_value, kind_numeric,
  required_optional,
}
use isopace.Engine.Message.{
  Message, Fault, new_decoded, clone, get, new_message, set_field, unset, field,
}
use isopace.Engine.Fields.{IsWritable}
use isopace.Engine.Built.{Built, new_step, set_step, unset_step, IsCarriable}
use isopace.Engine.RoundTrip.{Back, unmarshal-marshal}
use isopace.Engine.Validate.{validate, mti_text}
use isopace.Engine.Validate.Report.{all_violations, validate-violations}
use isopace.Engine.Parse.{in_uint, in_bytes, value_decimal, make_value}
use isopace.Engine.Parse.RoundTrip.{make_value_loses}
use isopace.Engine.Forward.{marshal-unmarshal, marshal-clone-set_field}
use isopace.Engine.Codec.{
  unmarshal, read_head, field_body_span, body_span, wire_bytes, read_body, read_bitmap, read_fields,
  marshal,
}
use isopace.Common.BigEndian.{be_get}
use isopace.Bitmap.{range}
use isopace.BitmapCodec.{read_levels, hex_value, hex_pair, hex_decode}
use isopace.Field.{b_raw_name}
use isopace.Field.{
  field_cause, bcd_cause, is_fixed, Wire, WireCause, lookup, num_ascii_name, num_bcd_name,
  num_ascii, bcd_num,
}
use isopace.Field.Wire.{var_length, wire-IsWritable}
use isopace.Field.RoundTrip.{ReadsAs, decode_body-encode_body}
use isopace.Field.Presence.{word_bitmap}
use isopace.Engine.Types.{kind_bytes, bytes_value}
use isopace.Field.Catalogue.{named, codec_of, kind_of, decode_body-HasKind}
use isopace.Field.Built.{Built-IsBuilt, IsRoomy}
use mathlib.Core.Path.{subst}

abbrev C : Type 0
C = Unit

abbrev fixed_def : ℕ → FieldDef (Wire C)
fixed_def n = record {
  kind = kind_numeric;
  attrs = record { max_len = n; scale = 0; is_prefixed = false };
  codec = some (lookup num_ascii_name);
  length_codec = none;
  required = record { mode = required_optional; mti_classes = [] };
  validators = [];
}

-- Up to 19 packed digits behind two ASCII digits.
abbrev pan_def : FieldDef (Wire C)
pan_def = record {
  kind = kind_numeric;
  attrs = record { max_len = 19; scale = 0; is_prefixed = true };
  codec = some (lookup num_bcd_name);
  length_codec = some (var_length (var_ascii 2));
  required = record { mode = required_optional; mti_classes = [] };
  validators = [];
}

abbrev defs : ℕ → Option (FieldDef (Wire C))
defs de = if de == 2 then some pan_def else if de == 3 then some (fixed_def 6) else none

abbrev pub schema : Schema (Wire C)
schema = record {
  mti = some (fixed_def 4);
  bitmap = record { codec = some (word_bitmap hex_word); levels = 1 };
  defs = defs;
  max_de = 3;
}

-- "0100", "411" and "000000"
abbrev pub mti_digits : Bytes
mti_digits = b'0' ∷ b'1' ∷ b'0' ∷ b'0' ∷ []

abbrev pub pan_text : Bytes
pan_text = b'4' ∷ b'1' ∷ b'1' ∷ []

abbrev pub code_text : Bytes
code_text = b'0' ∷ b'0' ∷ b'0' ∷ b'0' ∷ b'0' ∷ b'0' ∷ []

abbrev make : Bytes → FieldDef (Wire C) → Result WireCause (Value (Wire C))
make b def = ok (numeric_value b)

-- The MTI, a field without a prefix and one with.
any_carried : (b : Bytes) → All {0, 0} (λ _. Unit) b
any_carried [] = tt
any_carried (x ∷ b) = (tt, any_carried b)

fixed_IsWritable : (n : ℕ) (b : Bytes) → length b ≡ n → IsWritable (fixed_def n) (numeric_value b)
fixed_IsWritable n b e = wire-IsWritable (fixed_def n) num_ascii_name b (record {
  has_codec = refl;
  carried = any_carried b;
  counts = tt;
  sized = inl (refl, (refl, e));
})

pan_IsWritable : IsWritable pan_def (numeric_value pan_text)
pan_IsWritable = wire-IsWritable pan_def num_bcd_name pan_text (record {
  has_codec = refl;
  carried = (ground arith, (ground arith, (ground arith, tt)));
  counts = omega arith;
  sized = inr (var_ascii 2, (refl, (refl, (omega arith, omega arith))));
})

carriable :
    (b : Bytes) (de : ℕ) (def : FieldDef (Wire C))
    → field schema de ≡ some def
    → IsWritable def (numeric_value b)
    → IsCarriable schema (make b) de
carriable b de def f w d v e made =
    subst (λ x. IsWritable d x) (ok_injective made)
      (subst (λ x. IsWritable x (numeric_value b)) (some_injective (sym f ∙ e)) w)

-- `New`, `Set` three times, and an `Unset` of a data element that is not there.
abbrev pub with_mti : Bytes → Message (Wire C)
with_mti mti =
    unset 1
      (set_field schema (make code_text) 3
        (set_field schema (make pan_text) 2
          (set_field schema (make mti) 0 (new_message schema)).0).0).0

pub with_mti-Built : (mti : Bytes) → length mti ≡ 4 → Built schema (with_mti mti)
unfolding field
with_mti-Built mti n = unset_step 1 (
    set_step (make code_text) 3 refl
      (carriable code_text 3 (fixed_def 6) refl (fixed_IsWritable 6 code_text refl))
      (set_step (make pan_text) 2 refl (carriable pan_text 2 pan_def refl pan_IsWritable) (
        set_step (make mti) 0 refl (carriable mti 0 (fixed_def 4) refl (fixed_IsWritable 4 mti n))
          new_step)))

abbrev built : Message (Wire C)
built = with_mti mti_digits

built-Built : Built schema built
built-Built = with_mti-Built mti_digits refl

pub schema-IsRoomy : IsRoomy schema
schema-IsRoomy = record {
  repr = hex_word;
  is_repr = hex_word-IsWordRepr;
  has_bitmap = refl;
  three = omega arith;
  room = omega arith;
}

pub mti_IsWritable :
    (mti : Bytes)
    → length mti ≡ 4
    → (def : FieldDef (Wire C)) → schema.mti ≡ some def
    → IsWritable def ((with_mti mti).slots 0).v
unfolding set_field unset new_message field
mti_IsWritable mti n def e =
    subst (λ x. IsWritable x (numeric_value mti)) (some_injective e) (fixed_IsWritable 4 mti n)

unmarshal-marshal_example :
    Back schema false built
      (Built-IsBuilt schema schema-IsRoomy built built-Built (mti_IsWritable mti_digits refl))
unmarshal-marshal_example =
    unmarshal-marshal schema false built
      (Built-IsBuilt schema schema-IsRoomy built built-Built (mti_IsWritable mti_digits refl))

-- "0100", "6000000000000000", "03" with 0411 packed, "000000"
abbrev wire : Bytes
wire =
    b'0' ∷ b'1' ∷ b'0' ∷ b'0' ∷ b'6' ∷ b'0' ∷ b'0' ∷ b'0' ∷ b'0' ∷ b'0' ∷ b'0' ∷ b'0' ∷ b'0' ∷ b'0'
    ∷ b'0' ∷ b'0' ∷ b'0' ∷ b'0' ∷ b'0' ∷ b'0' ∷ b'0' ∷ b'3' ∷ 4 ∷ 17 ∷ b'0' ∷ b'0' ∷ b'0' ∷ b'0'
    ∷ b'0' ∷ b'0' ∷ []

abbrev got_or : Result (ℕ × Fault (Wire C)) (Message (Wire C)) → Message (Wire C)
got_or (ok m) = m
got_or (err e) = new_message schema

abbrev got : Message (Wire C)
got = got_or (unmarshal schema false wire)

incoming : unmarshal schema false wire ≡ ok got
unfolding unmarshal read_head field_body_span body_span wire_bytes lookup num_ascii bcd_num
    new_decoded read_body read_bitmap word_bitmap var_length isopace.BitmapCodec.read_bitmap
    read_levels hex_value hex_pair hex_decode be_get hex_word read_fields range field digit read_len
    atoi_digits packed_len and_not
incoming = refl

marshal-unmarshal_example : marshal schema got (1 ∷ []) ≡ ok wire
marshal-unmarshal_example = marshal-unmarshal schema wire false got (1 ∷ []) incoming

-- The processing code is changed.
abbrev changed : Message (Wire C)
changed = (set_field schema (make (b'1' ∷ b'2' ∷ b'3' ∷ b'4' ∷ b'5' ∷ b'6' ∷ [])) 3 got).0

marshal-clone-set_field_example : marshal schema (clone changed) [] ≡ ok wire
unfolding set_field field unmarshal read_head field_body_span body_span wire_bytes lookup num_ascii
    bcd_num new_decoded read_body read_bitmap word_bitmap var_length isopace.BitmapCodec.read_bitmap
    read_levels hex_value hex_pair hex_decode be_get hex_word read_fields range digit read_len
    atoi_digits packed_len and_not
marshal-clone-set_field_example =
    marshal-clone-set_field schema wire got changed
      (make (b'1' ∷ b'2' ∷ b'3' ∷ b'4' ∷ b'5' ∷ b'6' ∷ [])) 3 [] incoming refl

decode_body-encode_body_example :
    ReadsAs {C = C}
      (lookup num_bcd_name)
      pan_def.attrs
      3
      (numeric_value pan_text)
      (numeric_value pan_text)
unfolding is_fixed
decode_body-encode_body_example =
    decode_body-encode_body C pan_def.attrs pan_text 3 (inr (refl, refl)) num_bcd_name
      (ground arith, (ground arith, (ground arith, tt))) (omega arith)

validate-violations_example :
    (validate schema built).1 ≡ all_violations schema (mti_text (get schema built 0).1) built 3 1
validate-violations_example = validate-violations schema built

abbrev amount_def : FieldDef (Wire C)
amount_def = record (fixed_def 12) { kind = kind_amount; codec = some amount_ascii }

make_value_loses_example :
    ((v : Value (Wire C)) × ((make_value (in_uint 1000) amount_def ≡ ok v)
        × (value_decimal v ≡ ok zero_decimal)))
    × ((v : Value (Wire C)) × ((make_value (in_bytes code_text) amount_def ≡ ok v)
          × (value_decimal v ≡ ok zero_decimal)))
make_value_loses_example = make_value_loses amount_def 1000 code_text refl

decode_body-HasKind_example : kind_bytes ≡ kind_of (named b_raw_name)
unfolding codec_of lookup isopace.Field.binary_raw
decode_body-HasKind_example =
    decode_body-HasKind C (named b_raw_name) pan_text 3
      (record { max_len = 3; scale = 0; is_prefixed = false }) (bytes_value pan_text) refl
