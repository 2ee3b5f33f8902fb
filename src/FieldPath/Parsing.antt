-- ===== src/FieldPath/Parsing.antt =====
-- A path that is written is read back.
use isopace.Common.{
  length-append, ℕ, ◌+◌, ◌^◌, ◌<◌, ◌≤◌, ◌≡◌, refl, sym, ap, ◌∙◌, arith, Bool, true, false, ◌||◌,
  ◌&&◌, some, [], ◌∷◌, ◌++◌, map, inl, inr, Bool-cases, leb, ◌==◌, Bytes, All, length, append_assoc,
  append-nil, ok,
}
use mathlib.Core.Path.{subst}
use isopace.Common.Int.{ℤ, pos, negsuc}
use isopace.Bcd.{IsDigit}
use isopace.Digits.{itoa}
use isopace.Digits.Laws.{itoa-IsDigit, itoa_nonempty}
use isopace.BitmapCodec.{upper_hex}
use isopace.Engine.Parse.RoundTrip.{parse_below-itoa}
use isopace.FieldPath.{
  FieldPath, PathElem, elem_text, path_text, is_path_digit, is_hex_letter, scan_elem, elem_of,
  number_elem, parse_elem, add_segment, parse_from, parse_path_uncached,
}

-- The canonical characters of a tag.
abbrev pub is_upper_letter : ℕ → Bool
is_upper_letter c = leb b'A' c && leb c b'F'

abbrev pub IsTagChar : ℕ → Type 0
IsTagChar c = (is_path_digit c || is_upper_letter c) ≡ true

abbrev pub has_letter : Bytes → Bool
has_letter [] = false
has_letter (c ∷ s) = is_upper_letter c || has_letter s

-- A number below `2 ^ 31`, or a tag in canonical hex with a letter.
abbrev pub IsElemOf : ℤ → Bytes → Type 0
IsElemOf (pos k) t = (t ≡ []) × k < 2 ^ 31
IsElemOf (negsuc m) t = (m ≡ 0) × All IsTagChar t × has_letter t ≡ true

abbrev pub IsElem : PathElem → Type 0
IsElem e = IsElemOf e.n e.tag

scan_elem-digits : (s : Bytes) → All IsDigit s → scan_elem false s ≡ some false
unfolding scan_elem
scan_elem-digits [] h = refl
scan_elem-digits (c ∷ s) (hc, h) =
    let d : is_path_digit c ≡ true = ground arith in rw d (scan_elem-digits s h)

scan_elem-tag :
    (letter : Bool) (s : Bytes)
    → All IsTagChar s
    → scan_elem letter s ≡ some (letter || has_letter s)
unfolding scan_elem
scan_elem-tag true [] h = refl
scan_elem-tag false [] h = refl
scan_elem-tag letter (c ∷ s) (hc, h) = elim (Bool-cases (is_path_digit c)) [
  | inl d ↦
      (let no : is_upper_letter c ≡ false = ground arith in rw (d, no) (scan_elem-tag letter s h))
  | inr f ↦
      (let up : is_upper_letter c ≡ true = ground arith in
        let hex : is_hex_letter c ≡ true = ground arith in
        let found : scan_elem true s ≡ some true = scan_elem-tag true s h in
        rw (f, hex, found, up) (ground arith))
]

upper_tag : (s : Bytes) → All IsTagChar s → map upper_hex s ≡ s
unfolding upper_hex
upper_tag [] h = refl
upper_tag (c ∷ s) (hc, h) =
    let same : upper_hex c ≡ c = ground arith in rw (same, upper_tag s h) refl

-- Text without a point, which ends no segment.
abbrev pub IsPointless : Bytes → Type 0
IsPointless s = All (λ c. (c == b'.') ≡ false) s

digits-IsPointless : (s : Bytes) → All IsDigit s → IsPointless s
digits-IsPointless [] h = h
digits-IsPointless (c ∷ s) (hc, h) = (ground arith, digits-IsPointless s h)

tag-IsPointless : (s : Bytes) → All IsTagChar s → IsPointless s
tag-IsPointless [] h = h
tag-IsPointless (c ∷ s) (hc, h) = (ground arith, tag-IsPointless s h)

-- What the loop and the parser of one element need of its text.
abbrev pub IsReadable : PathElem → Type 0
IsReadable e =
    (parse_elem (elem_text e) ≡ ok e)
    × IsPointless (elem_text e)
    × (length (elem_text e) == 0) ≡ false

number-IsReadable : (k : ℕ) → k < 2 ^ 31 → IsReadable (record { n = pos k; tag = [] })
unfolding parse_elem elem_of number_elem elem_text
number-IsReadable k h =
    let parsed : parse_elem (itoa k) ≡ ok (record { n = pos k; tag = [] }) =
      rw (scan_elem-digits (itoa k) (itoa-IsDigit k), parse_below-itoa (2 ^ 31) k h) refl in
    (parsed, digits-IsPointless (itoa k) (itoa-IsDigit k), ground (arith, itoa_nonempty k))

tag-IsReadable :
    (t : Bytes)
    → All IsTagChar t
    → has_letter t ≡ true
    → IsReadable (record { n = negsuc 0; tag = t })
unfolding parse_elem elem_of elem_text
tag-IsReadable [] h q = absurd (ground arith)
tag-IsReadable (c ∷ t) h q =
    let some_text : (length (c ∷ t) == 0) ≡ false = ground arith in
    let letters : scan_elem false (c ∷ t) ≡ some true = scan_elem-tag false (c ∷ t) h ∙ ap some q in
    let parsed : parse_elem (c ∷ t) ≡ ok (record { n = negsuc 0; tag = c ∷ t }) =
      rw letters (ap (λ s. ok (record { n = negsuc 0; tag = s })) (upper_tag (c ∷ t) h)) in
    (rw some_text parsed, rw some_text (tag-IsPointless (c ∷ t) h), rw (some_text) some_text)

IsElemOf-IsReadable : (i : ℤ) (t : Bytes) → IsElemOf i t → IsReadable (record { n = i; tag = t })
IsElemOf-IsReadable (pos k) t (q, h) =
    subst (λ s. IsReadable (record { n = pos k; tag = s })) (sym q) (number-IsReadable k h)
IsElemOf-IsReadable (negsuc m) t (q, h, l) =
    subst (λ i. IsReadable (record { n = negsuc i; tag = t })) (sym q) (tag-IsReadable t h l)

IsElem-IsReadable : (e : PathElem) → IsElem e → IsReadable e
IsElem-IsReadable e h = IsElemOf-IsReadable e.n e.tag h

parse_from-pointless :
    (p : FieldPath) (seg t rest : Bytes)
    → IsPointless t
    → parse_from p seg (t ++ rest) ≡ parse_from p (seg ++ t) rest
unfolding parse_from
parse_from-pointless p seg [] rest h = ap (λ s. parse_from p s rest) (sym (append-nil seg))
parse_from-pointless p seg (c ∷ t) rest (hc, h) =
    rw hc (parse_from-pointless p (seg ++ (c ∷ [])) t rest h)
    ∙ ap (λ s. parse_from p s rest) (append_assoc seg (c ∷ []) t)

add_segment-elem_text :
    (p : FieldPath) (e : PathElem)
    → IsElem e
    → length p < 6
    → add_segment p (elem_text e) ≡ ok (p ++ (e ∷ []))
unfolding add_segment
add_segment-elem_text p e h small =
    let r = IsElem-IsReadable e h in
    let room : leb 6 (length p) ≡ false = ground arith in rw (r.2, room, r.0) refl

parse_from-path_text :
    (q p : FieldPath)
    → All IsElem p
    → 1 ≤ length p
    → length q + length p ≤ 6
    → parse_from q [] (path_text p) ≡ ok (q ++ p)
unfolding parse_from path_text
parse_from-path_text q [] h some_elem small = absurd (omega arith)
parse_from-path_text q (e ∷ []) h some_elem small =
    let r = IsElem-IsReadable e h.0 in
    ap (parse_from q []) (sym (append-nil (elem_text e)))
    ∙ parse_from-pointless q [] (elem_text e) [] r.1
    ∙ add_segment-elem_text q e h.0 (omega arith)
parse_from-path_text q (e ∷ f ∷ p) h some_elem small =
    let r = IsElem-IsReadable e h.0 in
    let added = add_segment-elem_text q e h.0 (omega arith) in
    let rest =
      parse_from-path_text (q ++ (e ∷ [])) (f ∷ p) h.1 (omega arith)
        (omega (arith, length-append q (e ∷ []))) in
    parse_from-pointless q [] (elem_text e) (b'.' ∷ path_text (f ∷ p)) r.1
    ∙ rw added rest
    ∙ ap ok (append_assoc q (e ∷ []) (f ∷ p))

pub parse_path_uncached-path_text :
    (p : FieldPath)
    → All IsElem p
    → 1 ≤ length p
    → length p ≤ 6
    → parse_path_uncached (path_text p) ≡ ok p
unfolding parse_path_uncached
parse_path_uncached-path_text p h some_elem small =
    parse_from-path_text [] p h some_elem (omega arith)
