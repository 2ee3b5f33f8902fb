-- ===== src/Field/Presence.antt =====
-- The wire forms of the bitmap, as the engine uses them.
use isopace.Common.{
  ℕ, zero, suc, ◌+◌, ◌*◌, ◌≤◌, ◌≡◌, refl, sym, ap, ◌∙◌, arith, inl, inr, ◌⊎◌, false, [], ◌++◌,
  append_assoc,
}
use isopace.Common.{leb, ◌==◌, Bool-cases, Bytes, length, length-append, ok, map_err}
use isopace.Bitmap.{Bitmap, empty, set, is_set, cont_secondary, cont_tertiary}
use isopace.Bitmap.Order.{is_data, range-ascending}
use isopace.Bitmap.Fits.{empty-IsBitmap, set-secondary, set-tertiary, ascending-congr}
use isopace.BitmapCodec.{WordRepr, read_bitmap, write_bitmap}
use isopace.BitmapCodec.Words.{IsWordRepr}
use isopace.BitmapCodec.Marks.{read_bitmap-write_bitmap, write_bitmap-append}
use isopace.Engine.Types.{Kinds, BitmapCodec}
use isopace.Engine.Message.{Slot}
use isopace.Engine.Codec.{present_bits}
use isopace.Engine.Presence.{HasNoMarks, is_set-present_bits, empty-is_set, present_bits-IsBitmap}
use isopace.Engine.RoundTrip.{BitmapBack}
use isopace.Field.{Wire, bitmap_cause}

unfoldable pub word_bitmap : {C : Type 0} → WordRepr → BitmapCodec (Wire C)
word_bitmap r = record {
  read = λ src off levels. map_err bitmap_cause (read_bitmap r src off levels);
  write = λ dst bm levels. ok (write_bitmap r dst bm levels);
}

module _ {K : Kinds} (slots : ℕ → Slot K) where
  present_bits-tertiary :
      (left de : ℕ) (bm : Bitmap)
      → de + left ≤ 129
      → (present_bits slots left de bm).tertiary ≡ bm.tertiary
  unfolding present_bits
  present_bits-tertiary zero de bm h = refl
  present_bits-tertiary (suc left) de bm h = elim (Bool-cases (slots de).present) [
    | inl p ↦
        rw (present_bits, p)
          (present_bits-tertiary left (de + 1) (set de bm) (omega arith)
            ∙ set-tertiary bm de (omega arith))
    | inr p ↦ rw (present_bits, p) (present_bits-tertiary left (de + 1) bm (omega arith))
  ]

  present_bits-secondary :
      (left de : ℕ) (bm : Bitmap)
      → de + left ≤ 65
      → (present_bits slots left de bm).secondary ≡ bm.secondary
  unfolding present_bits
  present_bits-secondary zero de bm h = refl
  present_bits-secondary (suc left) de bm h = elim (Bool-cases (slots de).present) [
    | inl p ↦
        rw (present_bits, p)
          (present_bits-secondary left (de + 1) (set de bm) (omega arith)
            ∙ set-secondary bm de (omega arith))
    | inr p ↦ rw (present_bits, p) (present_bits-secondary left (de + 1) bm (omega arith))
  ]

  -- No bit stands for a continuation.
  no_mark :
      (count de : ℕ)
      → HasNoMarks slots count
      → 1 ≤ de
      → de ≤ 192
      → (slots de).present ≡ false
      → is_set (present_bits slots count 1 empty) de ≡ false
  no_mark count de h lo hi absent = ground (
    arith,
    is_set-present_bits slots count 1 empty de (omega arith) (omega (arith, h.fits)) (lo, hi),
    empty-is_set de,
    absent,
  )

-- A form whose words are read back as they were put carries the bitmap of the present slots, when
-- they are no more than the levels have room for.
pub word_bitmap-BitmapBack :
    {C : Type 0} (r : WordRepr) (slots : ℕ → Slot (Wire C)) (count levels : ℕ) (dst : Bytes)
    → IsWordRepr r
    → HasNoMarks slots count
    → levels ≤ 3
    → count ≤ 64 * levels
    → BitmapBack (word_bitmap {C = C} r) levels (present_bits slots count 1 empty) dst
unfolding word_bitmap is_set
word_bitmap-BitmapBack r slots count levels dst ok_repr h three room =
    let bm = present_bits slots count 1 empty in
    let one = no_mark slots count cont_secondary h (omega arith) (omega arith) h.no_secondary in
    let two = no_mark slots count cont_tertiary h (omega arith) (omega arith) h.no_tertiary in
    let fits = present_bits-IsBitmap slots count 1 empty empty-IsBitmap in
    let room3 : (bm.tertiary ≡ 0) ⊎ (levels ≡ 3) = (elim (Bool-cases (levels == 3)) [
      | inl e ↦ inr (ground arith)
      | inr e ↦ inl (present_bits-tertiary slots count 1 empty (ground arith))
    ]) in
    let room2 : (bm.secondary ≡ 0) ⊎ (2 ≤ levels) = (elim (Bool-cases (leb 2 levels)) [
      | inl e ↦ inr (ground arith)
      | inr e ↦ inl (present_bits-secondary slots count 1 empty (ground arith))
    ]) in
    record {
      bytes = write_bitmap r [] bm levels;
      writes = ap ok (write_bitmap-append r dst bm levels);
      reads = λ rest.
          let back =
            read_bitmap-write_bitmap r ok_repr bm fits levels dst rest (ground arith) (ground arith)
              three room3 room2 in
          let split : write_bitmap r dst bm levels ++ rest
              ≡ dst ++ (write_bitmap r [] bm levels ++ rest) =
            ap (λ x. x ++ rest) (write_bitmap-append r dst bm levels)
            ∙ append_assoc dst (write_bitmap r [] bm levels) rest in
          let len : length (write_bitmap r dst bm levels)
              ≡ length dst + length (write_bitmap r [] bm levels) =
            ap length (write_bitmap-append r dst bm levels)
            ∙ length-append dst (write_bitmap r [] bm levels) in
          (
            back.got,
            (
              ap (map_err bitmap_cause) (
                  ap (λ x. read_bitmap r x (length dst) levels) (sym split)
                  ∙ back.reads
                  ∙ ap (λ n. ok (back.got, n)) len),
              range-ascending back.got back.fits_got
                  ∙ ascending-congr (is_data back.got) (is_data bm) 192 1 (λ i lo hi. back.same i)
                  ∙ sym (range-ascending bm fits),
            ),
          );
    }
