-- ===== src/BitmapCodec/Marks.antt =====
-- The round trip of a bitmap through `WriteBitmap` and `ReadBitmap`.
use isopace.Common.{
  ℕ, zero, suc, ◌+◌, [], append-nil, append_assoc, ◌^◌, ◌<◌, ◌≤◌, ◌≡◌, refl, sym, ap, ◌∙◌, ◌⊎◌, inl,
  inr, ◌++◌, arith, true, false, ◌||◌, bit_and, bit_or,
}
use isopace.Common.{Bytes, length, ok, leb, ltb, ◌==◌, Bool-cases}
use isopace.Bitmap.{word, Bitmap, empty, set, is_set, cont_secondary, cont_tertiary, max_de}
use isopace.Bitmap.Laws.{is_set-set}
use isopace.Bitmap.Fits.{set-IsBitmap}
use isopace.Bitmap.Order.{IsBitmap, is_data}
use isopace.BitmapCodec.{
  WordRepr, cont_msb, read_levels, read_bitmap, write_words, write_bitmap, level_words,
}
use isopace.BitmapCodec.Words.{IsWordRepr}
use isopace.BitmapCodec.RoundTrip.{read_one, read_two, read_three, or_mask, or_mask_fits}

-- The continuation bits are no data elements.
is_data-set :
    (b : Bitmap) (d : ℕ)
    → (d == cont_secondary || d == cont_tertiary) ≡ true
    → (de : ℕ) → is_data (set d b) de ≡ is_data b de
unfolding is_data is_set
is_data-set b d h de = elim (Bool-cases (ltb de 1 || ltb max_de de)) [
  | inl out ↦ rw out refl
  | inr inside ↦ ground (arith, is_set-set b d de (ground arith) (ground arith))
]

-- The words are written behind what is there.
write_words-append :
    (r : WordRepr) (w : Bitmap) (left i : ℕ) (dst : Bytes)
    → write_words r w left i dst ≡ dst ++ write_words r w left i []
unfolding write_words
write_words-append r w zero i dst = sym (append-nil dst)
write_words-append r w (suc left) i dst =
    write_words-append r w left (i + 1) (dst ++ r.put (word w i))
    ∙ append_assoc dst (r.put (word w i)) (write_words r w left (i + 1) [])
    ∙ ap (λ x. dst ++ x) (sym (write_words-append r w left (i + 1) (r.put (word w i))))

pub write_bitmap-append :
    (r : WordRepr) (dst : Bytes) (bm : Bitmap) (levels : ℕ)
    → write_bitmap r dst bm levels ≡ dst ++ write_bitmap r [] bm levels
unfolding write_bitmap
write_bitmap-append r dst bm levels =
    write_words-append r (level_words bm levels).0 (level_words bm levels).1 0 dst

module _ (bm : Bitmap) (levels : ℕ) where
  levels_one :
      (bm.tertiary == 0) ≡ true → (bm.secondary == 0) ≡ true → level_words bm levels ≡ (bm, 1)
  unfolding level_words
  levels_one a b = rw (a, b) refl

  levels_two :
      (bm.tertiary == 0) ≡ true
      → (bm.secondary == 0) ≡ false
      → leb 2 levels ≡ true
      → level_words bm levels ≡ (set 1 bm, 2)
  unfolding level_words set
  levels_two a b c = rw (a, b, c) refl

  levels_three :
      (bm.tertiary == 0) ≡ false
      → leb 3 levels ≡ true
      → leb 2 levels ≡ true
      → level_words bm levels ≡ (set 65 (set 1 bm), 3)
  unfolding level_words set
  levels_three a b c = elim (Bool-cases (bm.secondary == 0)) [
    | inl z ↦ rw (a, b, c, z) refl
    | inr z ↦ rw (a, b, c, z) refl
  ]

module _ (r : WordRepr) (ok_repr : IsWordRepr r) (bm : Bitmap) (fits : IsBitmap bm) (levels : ℕ)
    (dst rest : Bytes) where
  -- The bitmap that is read back, with the continuation bits that were written.
  pub record Back : Type 0 where
    pub got : Bitmap
    pub reads :
        read_bitmap r (write_bitmap r dst bm levels ++ rest) (length dst) levels
        ≡ ok (got, length (write_bitmap r dst bm levels))
    pub fits_got : IsBitmap got
    pub same : (de : ℕ) → is_data got de ≡ is_data bm de

  or_cont_fits : (w : ℕ) → w < 2 ^ 64 → bit_or w cont_msb < 2 ^ 64
  or_cont_fits w h = or_mask_fits 63 w h

  write_bitmap_lem :
      (w : Bitmap) (n : ℕ)
      → level_words bm levels ≡ (w, n)
      → write_bitmap r dst bm levels ≡ write_words r w n 0 dst
  unfolding write_bitmap
  write_bitmap_lem w n e = ap (λ x. write_words r x.0 x.1 0 dst) e

  back_from :
      (got : Bitmap) (out : Bytes)
      → write_bitmap r dst bm levels ≡ out
      → read_levels r (out ++ rest) levels 3 0 (length dst) empty ≡ ok (got, length out)
      → IsBitmap got
      → ((de : ℕ) → is_data got de ≡ is_data bm de)
      → Back
  unfolding read_bitmap
  back_from got out written e fits_got same = record {
    got = got;
    reads =
        ap (λ o. read_bitmap r (o ++ rest) (length dst) levels) written
        ∙ e
        ∙ ap (λ o. ok (got, length o)) (sym written);
    fits_got = fits_got;
    same = same;
  }

  back_three : (bm.tertiary == 0) ≡ false → levels ≡ 3 → Back
  unfolding write_words set
  back_three a e3 =
      let two : leb 2 levels ≡ true = ground arith in
      let three : leb 3 levels ≡ true = ground arith in
      let w : Bitmap = set 65 (set 1 bm) in
      let more : (bit_and w.primary cont_msb == 0 || leb levels 1) ≡ false =
        rw (or_mask bm.primary 63) (ground arith) in
      let more2 : (bit_and w.secondary cont_msb == 0 || leb levels 2) ≡ false =
        rw (or_mask bm.secondary 63) (ground arith) in
      back_from w (((dst ++ r.put w.primary) ++ r.put w.secondary) ++ r.put w.tertiary)
        (write_bitmap_lem w 3 (levels_three bm levels a three two))
        (read_three r ok_repr levels dst rest w.primary w.secondary w.tertiary
          (or_cont_fits bm.primary fits.primary_fits)
          (or_cont_fits bm.secondary fits.secondary_fits) fits.tertiary_fits more more2
          (ground arith))
        (set-IsBitmap (set 1 bm) 65 (set-IsBitmap bm 1 fits))
        (λ de. is_data-set (set 1 bm) 65 refl de ∙ is_data-set bm 1 refl de)

  back_two :
      bm.tertiary ≡ 0
      → (bm.secondary == 0) ≡ false
      → 2 ≤ levels
      → (bit_and bm.secondary cont_msb == 0) ≡ true
      → Back
  unfolding write_words set
  back_two a b two_more last =
      let two : leb 2 levels ≡ true = ground arith in
      let none3 : (bm.tertiary == 0) ≡ true = ground arith in
      let w : Bitmap = set 1 bm in
      let more : (bit_and w.primary cont_msb == 0 || leb levels 1) ≡ false =
        rw (or_mask bm.primary 63) (ground arith) in
      back_from (record w { tertiary = 0 }) ((dst ++ r.put w.primary) ++ r.put w.secondary)
        (write_bitmap_lem w 2 (levels_two bm levels none3 b two))
        (read_two r ok_repr levels dst rest w.primary w.secondary 0
          (or_cont_fits bm.primary fits.primary_fits) fits.secondary_fits (omega arith) more
          (rw last refl))
        (record {
          primary_fits = or_cont_fits bm.primary fits.primary_fits;
          secondary_fits = fits.secondary_fits;
          tertiary_fits = omega arith;
        })
        (λ de. ap (λ t. is_data (record w { tertiary = t }) de) (sym a) ∙ is_data-set bm 1 refl de)

  back_one : bm.tertiary ≡ 0 → bm.secondary ≡ 0 → (bit_and bm.primary cont_msb == 0) ≡ true → Back
  unfolding write_words
  back_one a b last =
      let none3 : (bm.tertiary == 0) ≡ true = ground arith in
      let none2 : (bm.secondary == 0) ≡ true = ground arith in
      back_from (record { primary = bm.primary; secondary = 0; tertiary = 0 })
        (dst ++ r.put bm.primary) (write_bitmap_lem bm 1 (levels_one bm levels none3 none2))
        (read_one r ok_repr levels dst rest bm.primary 0 0 fits.primary_fits (omega arith)
          (omega arith) (rw last refl))
        (record {
          primary_fits = fits.primary_fits;
          secondary_fits = omega arith;
          tertiary_fits = omega arith;
        })
        (λ de.
          ap (λ t. is_data (record { primary = bm.primary; secondary = 0; tertiary = t }) de)
            (sym a)
          ∙ ap
              (λ s.
                is_data (record { primary = bm.primary; secondary = s; tertiary = bm.tertiary }) de)
              (sym b))

  -- With any form whose words are read back as they were put: a bitmap without the continuation bits 1
  -- and 65, with at most three levels and all of its data elements within them, is written behind
  -- `dst` so that reading from there, whatever follows, ends where the writing did and gives
  -- a bitmap with the same data elements.
  pub read_bitmap-write_bitmap :
      (bit_and bm.primary cont_msb == 0) ≡ true
      → (bit_and bm.secondary cont_msb == 0) ≡ true
      → levels ≤ 3
      → (bm.tertiary ≡ 0) ⊎ (levels ≡ 3)
      → (bm.secondary ≡ 0) ⊎ (2 ≤ levels)
      → Back
  read_bitmap-write_bitmap one two h room3 room2 = elim (Bool-cases (bm.tertiary == 0)) [
    | inr a ↦ elim room3 [ inl z ↦ absurd (ground arith) | inr e ↦ back_three a e ]
    | inl a ↦ elim (Bool-cases (bm.secondary == 0)) [
      | inl b ↦ back_one (ground arith) (ground arith) one
      | inr b ↦ elim room2 [
        | inl z ↦ absurd (ground arith)
        | inr e ↦ back_two (ground arith) b e two
      ]
    ]
  ]
