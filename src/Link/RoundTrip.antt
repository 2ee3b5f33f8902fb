-- ===== src/Link/RoundTrip.antt =====
-- A frame that is written is read, and no more than it.
use isopace.Common.{
  ℕ, ◌-◌, ◌^◌, ◌<◌, ◌≤◌, ◌≡◌, refl, sym, ◌∙◌, arith, inl, inr, ◌⊎◌, false, some, none, ◌++◌,
  append_assoc,
}
use isopace.Common.{
  ltb, ◌==◌, Bool-cases, Bytes, length, length-append, take-append_eq, drop-append_eq, ok, err,
  some_injective, none_ne_some,
}
use isopace.Common.BigEndian.{be_get, be_put, length-be_put, be_get-be_put}
use isopace.Link.{
  LengthPrefix, length_prefix, default_max_frame, too_large, read_full, read_frame, write_frame,
}
use mathlib.Core.Path.{subst}

-- What is in front of the stream is read.
read_full_front : (n : ℕ) (xs ys : Bytes) → n ≡ length xs → read_full (xs ++ ys) n ≡ ok (xs, ys)
unfolding read_full
read_full_front n xs ys e =
    let enough : ltb (length (xs ++ ys)) n ≡ false = ground (arith, length-append xs ys) in
    rw (enough, take-append_eq n xs ys e, drop-append_eq n xs ys e) refl

-- The prefix has room for the largest frame.
abbrev HasRoom : LengthPrefix → Type 0
HasRoom lp = lp.max < 256 ^ lp.width

length_prefix-HasRoom : (w : ℕ) (lp : LengthPrefix) → length_prefix w ≡ some lp → HasRoom lp
length_prefix-HasRoom w lp e = elim (Bool-cases (w == 2)) [
  | inl two ↦
      let made : length_prefix w ≡ some (record { width = 2; max = 2 ^ 16 - 1 }) = rw two refl in
      subst HasRoom (some_injective (sym made ∙ e)) (omega arith)
  | inr not_two ↦ elim (Bool-cases (w == 4)) [
    | inl four ↦
        let made : length_prefix w ≡ some (record { width = 4; max = default_max_frame }) =
          rw (not_two, four) refl in
        subst HasRoom (some_injective (sym made ∙ e)) (omega arith)
    | inr not_four ↦
        let made : length_prefix w ≡ none = rw (not_two, not_four) refl in
        absurd (none_ne_some (sym made ∙ e))
  ]
]

-- With a prefix of either width: a message that is no larger than the limit is written, and reading a stream that begins
-- with what was written gives the message and leaves what follows it; a larger one is refused.
pub read_frame-write_frame :
    (w : ℕ) (lp : LengthPrefix) (msg rest : Bytes)
    → length_prefix w ≡ some lp
    → ((frame : Bytes) × ((length msg ≤ lp.max)
          × ((write_frame lp msg ≡ ok frame) × (read_frame lp (frame ++ rest) ≡ ok (msg, rest)))))
      ⊎ ((lp.max < length msg) × (write_frame lp msg ≡ err too_large))
unfolding write_frame read_frame
read_frame-write_frame w lp msg rest made = elim (Bool-cases (ltb lp.max (length msg))) [
  | inr fits ↦
      let room = length_prefix-HasRoom w lp made in
      let hdr = be_put lp.width (length msg) in
      let split : (hdr ++ msg) ++ rest ≡ hdr ++ (msg ++ rest) = append_assoc hdr msg rest in
      let first =
        read_full_front lp.width hdr (msg ++ rest) (sym (length-be_put lp.width (length msg))) in
      let count : be_get hdr ≡ length msg = be_get-be_put lp.width (length msg) (ground arith) in
      let second = read_full_front (length msg) msg rest refl in
      inl (hdr ++ msg, (ground arith, (rw fits refl, rw (split, first, count, fits) second)))
  | inl large ↦ inr (ground arith, rw large refl)
]
