-- ===== src/Field/Built.antt =====
-- Messages of a schema of the catalogue's codecs, from `New` over `Marshal` to `Unmarshal`.
use isopace.Common.{◌*◌, ◌≤◌, ◌≡◌, refl, some, arith}
use isopace.Bitmap.{cont_secondary, cont_tertiary}
use isopace.BitmapCodec.{WordRepr}
use isopace.BitmapCodec.Words.{IsWordRepr}
use isopace.Engine.Types.{FieldDef, Schema}
use isopace.Engine.Message.{Message}
use isopace.Engine.Fields.{IsWritable}
use isopace.Engine.Presence.{HasNoMarks}
use isopace.Engine.RoundTrip.{IsBuilt}
use isopace.Engine.Built.{Built, IsSound, Built-IsSound}
use isopace.Field.{Wire}
use isopace.Field.Presence.{word_bitmap, word_bitmap-BitmapBack}

-- A schema with a bitmap form of the library that has room for its data elements.
pub record IsRoomy {C : Type 0} (sch : Schema (Wire C)) : Type 0 where
  pub repr : WordRepr
  pub is_repr : IsWordRepr repr
  pub has_bitmap : sch.bitmap.codec ≡ some (word_bitmap repr)
  pub three : sch.bitmap.levels ≤ 3
  pub room : sch.max_de ≤ 64 * sch.bitmap.levels

module _ {C : Type 0} (sch : Schema (Wire C)) (roomy : IsRoomy sch) (m : Message (Wire C)) where
  Built-HasNoMarks : IsSound sch m → HasNoMarks m.slots sch.max_de
  Built-HasNoMarks s = record {
    fits = omega (arith, roomy.three, roomy.room);
    no_secondary = s.no_marks cont_secondary refl;
    no_tertiary = s.no_marks cont_tertiary refl;
  }

  pub Built-IsBuilt :
      Built sch m
      → ((def : FieldDef (Wire C)) → sch.mti ≡ some def → IsWritable def (m.slots 0).v)
      → IsBuilt sch m
  Built-IsBuilt b mti =
      let s = Built-IsSound sch b in
      record {
        no_source = s.no_source;
        counted = s.counted;
        no_marks = Built-HasNoMarks s;
        mti_writable = mti;
        fields_defined = λ i lo hi p. s.fields_defined i p;
        bitmap = word_bitmap roomy.repr;
        has_bitmap = roomy.has_bitmap;
        bitmap_back = λ dst.
            word_bitmap-BitmapBack roomy.repr m.slots sch.max_de sch.bitmap.levels dst roomy.is_repr
              (Built-HasNoMarks s) roomy.three roomy.room;
      }
