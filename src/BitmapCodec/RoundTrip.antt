-- ===== src/BitmapCodec/RoundTrip.antt =====
-- A bitmap comes back from the words that it is written as.
use isopace.Common.{
  ℕ, zero, suc, ◌+◌, ◌-◌, ◌*◌, ◌/◌, ◌%◌, ◌^◌, ◌<◌, ◌≡◌, refl, ap, ◌∙◌, ◌++◌, arith, some, true,
  false, ◌||◌, bit_and, bit_or, append_assoc, max,
}
use isopace.Common.{
  Bytes, length, length-append, slice, slice-append, ok, ltb, leb, ◌==◌, if◌then◌else◌,
}
use isopace.Bitmap.{Bitmap, empty, set_word}
use isopace.BitmapCodec.{WordRepr, cont_msb, read_levels}
use isopace.BitmapCodec.Words.{IsWordRepr}
use isopace.Common.Bits.Digits.{bit_or_low}
use isopace.Common.Bits.Masks.{half_pow, test-mask, digit-or}
use native.Mathlib.Nat.{pow-suc}

module _ (r : WordRepr) (ok_repr : IsWordRepr r) (levels : ℕ) where
  -- One round at a word that was put between `xs` and `ys`.
  read_level :
      (left level off w : ℕ) (src xs ys : Bytes) (bm : Bitmap)
      → w < 2 ^ 64
      → src ≡ xs ++ (r.put w ++ ys)
      → off ≡ length xs
      → read_levels r src levels (suc left) level off bm ≡ (
          if bit_and w cont_msb == 0 || leb levels (level + 1)
          then ok (set_word level w bm, off + r.wire_len)
          else read_levels r src levels left (level + 1) (off + r.wire_len) (set_word level w bm))
  unfolding read_levels
  read_level left level off w src xs ys bm h es eo =
      let len : length src ≡ length xs + (r.wire_len + length ys) =
        ap length es
        ∙ length-append xs (r.put w ++ ys)
        ∙ ap (λ n. length xs + n)
            (length-append (r.put w) ys ∙ ap (λ n. n + length ys) (ok_repr.length_put w)) in
      let room : (ltb (length src) off || ltb (length src - off) r.wire_len) ≡ false =
        ground (arith, len, eo) in
      let cut : slice src off (off + r.wire_len) ≡ r.put w =
        ap (λ s. slice s off (off + r.wire_len)) es
        ∙ slice-append off (off + r.wire_len) xs (r.put w) ys eo
            (omega (arith, eo, ok_repr.length_put w)) in
      let got : r.get (slice src off (off + r.wire_len)) ≡ some w =
        ap r.get cut ∙ ok_repr.get_put w h in
      rw (read_levels, room, got) refl

  -- The word is the last one.
  read_stop :
      (left level off w : ℕ) (src xs ys : Bytes) (bm : Bitmap)
      → w < 2 ^ 64
      → src ≡ xs ++ (r.put w ++ ys)
      → off ≡ length xs
      → (bit_and w cont_msb == 0 || leb levels (level + 1)) ≡ true
      → read_levels r src levels (suc left) level off bm
        ≡ ok (set_word level w bm, off + r.wire_len)
  read_stop left level off w src xs ys bm h es eo e =
      read_level left level off w src xs ys bm h es eo ∙ rw e refl

  -- Another word follows.
  read_more :
      (left level off w : ℕ) (src xs ys : Bytes) (bm : Bitmap)
      → w < 2 ^ 64
      → src ≡ xs ++ (r.put w ++ ys)
      → off ≡ length xs
      → (bit_and w cont_msb == 0 || leb levels (level + 1)) ≡ false
      → read_levels r src levels (suc left) level off bm
        ≡ read_levels r src levels left (level + 1) (off + r.wire_len) (set_word level w bm)
  read_more left level off w src xs ys bm h es eo e =
      read_level left level off w src xs ys bm h es eo ∙ rw e refl

  past : (xs : Bytes) (off w : ℕ) → off ≡ length xs → off + r.wire_len ≡ length (xs ++ r.put w)
  past xs off w e = omega (arith, e, length-append xs (r.put w), ok_repr.length_put w)

  module _ (dst rest : Bytes) (p s t : ℕ) (hp : p < 2 ^ 64) (hs : s < 2 ^ 64)
      (ht : t < 2 ^ 64) where
    pub read_one :
        (bit_and p cont_msb == 0 || leb levels 1) ≡ true
        → read_levels r ((dst ++ r.put p) ++ rest) levels 3 0 (length dst) empty
          ≡ ok (record { primary = p; secondary = 0; tertiary = 0 }, length (dst ++ r.put p))
    read_one e =
        read_stop 2 0 (length dst) p _ dst rest empty hp (append_assoc dst (r.put p) rest) refl e
        ∙ ap (λ n. ok (record { primary = p; secondary = 0; tertiary = 0 }, n))
            (past dst (length dst) p refl)

    pub read_two :
        (bit_and p cont_msb == 0 || leb levels 1) ≡ false
        → (bit_and s cont_msb == 0 || leb levels 2) ≡ true
        → read_levels r (((dst ++ r.put p) ++ r.put s) ++ rest) levels 3 0 (length dst) empty
          ≡ ok (
            record { primary = p; secondary = s; tertiary = 0 },
            length ((dst ++ r.put p) ++ r.put s),
          )
    read_two e f =
        let q = past dst (length dst) p refl in
        let split = append_assoc (dst ++ r.put p) (r.put s) rest in
        read_more 2 0 (length dst) p _ dst (r.put s ++ rest) empty hp
          (split ∙ append_assoc dst (r.put p) (r.put s ++ rest)) refl e
        ∙ read_stop 1 1 (length dst + r.wire_len) s _ (dst ++ r.put p) rest _ hs split q f
        ∙ ap (λ n. ok (record { primary = p; secondary = s; tertiary = 0 }, n))
            (past (dst ++ r.put p) _ s q)

    pub read_three :
        (bit_and p cont_msb == 0 || leb levels 1) ≡ false
        → (bit_and s cont_msb == 0 || leb levels 2) ≡ false
        → leb levels 3 ≡ true
        → read_levels r
            ((((dst ++ r.put p) ++ r.put s) ++ r.put t) ++ rest)
            levels
            3
            0
            (length dst)
            empty
          ≡ ok (
            record { primary = p; secondary = s; tertiary = t },
            length (((dst ++ r.put p) ++ r.put s) ++ r.put t),
          )
    read_three e f g =
        let q = past dst (length dst) p refl in
        let q2 = past (dst ++ r.put p) (length dst + r.wire_len) s q in
        let split = append_assoc ((dst ++ r.put p) ++ r.put s) (r.put t) rest in
        let split2 = append_assoc (dst ++ r.put p) (r.put s) (r.put t ++ rest) in
        read_more 2 0 (length dst) p _ dst (r.put s ++ (r.put t ++ rest)) empty hp
          (split ∙ split2 ∙ append_assoc dst (r.put p) (r.put s ++ (r.put t ++ rest))) refl e
        ∙ read_more 1 1 (length dst + r.wire_len) s _ (dst ++ r.put p) (r.put t ++ rest) _ hs
            (split ∙ split2) q f
        ∙ read_stop 0 2 (length dst + r.wire_len + r.wire_len) t _ ((dst ++ r.put p) ++ r.put s)
            rest _ ht split q2 (ground (arith, g))
        ∙ ap (λ n. ok (record { primary = p; secondary = s; tertiary = t }, n))
            (past ((dst ++ r.put p) ++ r.put s) _ t q2)

-- A bit that was set is seen, and the word still fits.
pub or_mask : (w k : ℕ) → (bit_and (bit_or w (2 ^ k)) (2 ^ k) == 0) ≡ false
or_mask w k = ground (arith, test-mask (bit_or w (2 ^ k)) k, digit-or w k k)

pub or_mask_fits : (k w : ℕ) → w < 2 ^ suc k → bit_or w (2 ^ k) < 2 ^ suc k
or_mask_fits zero w h =
    let e : w / 2 ≡ 0 = omega arith in
    let low : bit_or w 1 ≡ bit_or 0 0 * 2 + max (w % 2) 1 = bit_or_low w 1 ∙ rw e refl in
    omega (arith, low)
or_mask_fits (suc k) w h =
    let (half, even) = half_pow k in
    let low : bit_or w (2 ^ suc k) ≡ bit_or (w / 2) (2 ^ k) * 2 + max (w % 2) 0 =
      bit_or_low w (2 ^ suc k) ∙ rw (half, even) refl in
    omega (
      arith,
      low,
      or_mask_fits k (w / 2) (omega (arith, pow-suc 2 (suc k))),
      pow-suc 2 k,
      pow-suc 2 (suc k),
    )
