-- ===== src/FieldPath/Runs.antt =====
-- iso8583/path.go: runs at concrete paths and caches.
use isopace.Common.{ℕ, ◌≡◌, refl, arith, eq_bytes, [], ◌∷◌, Bytes, All, ok, err}
use isopace.Common.Int.{pos, negsuc}
use isopace.BitmapCodec.{upper_hex}
use isopace.Engine.Parse.{parse_below}
use isopace.FieldPath.{
  FieldPath, PathCache, PathElem, path_text, parse_path, parse_path_uncached, parse_from,
  add_segment, parse_elem, scan_elem, elem_of, number_elem, cache_lookup, cache_store, store_new,
  evict, cache_delete, parse_and_store, empty_element, invalid_character,
}
use isopace.FieldPath.Parsing.{IsElem}
use isopace.FieldPath.Caching.{IsSound, answer, parse_path-IsSound, parse_path-path_text}

abbrev number : ℕ → PathElem
number k = record { n = pos k; tag = [] }

-- "55.9F26"
abbrev cryptogram : FieldPath
cryptogram = number 55 ∷ record { n = negsuc 0; tag = (b'9' ∷ b'F' ∷ b'2' ∷ b'6' ∷ []) } ∷ []

-- "55.9f26"
abbrev cryptogram_text : Bytes
cryptogram_text = b'5' ∷ b'5' ∷ b'.' ∷ b'9' ∷ b'f' ∷ b'2' ∷ b'6' ∷ []

-- A full cache of one entry.
abbrev full : PathCache
full = record {
  entries = ((b'2' ∷ []), number 2 ∷ []) ∷ [];
  ring = λ i. (b'2' ∷ []);
  next = 0;
  limit = 1;
}

-- A segment that is empty, and a character that is no hex digit.
no_element : answer (b'5' ∷ b'.' ∷ []) ≡ err empty_element
unfolding parse_path_uncached parse_from add_segment parse_elem scan_elem elem_of number_elem
    parse_below
no_element = refl

wrong_character : answer (b'5' ∷ b'G' ∷ []) ≡ err invalid_character
unfolding parse_path_uncached parse_from add_segment parse_elem scan_elem elem_of number_elem
    parse_below
wrong_character = refl

-- Lower-case hex is read too, and written in upper case.
lower_case : parse_path_uncached cryptogram_text ≡ ok cryptogram
unfolding parse_path_uncached parse_from add_segment parse_elem scan_elem elem_of number_elem
    parse_below upper_hex
lower_case = refl

-- A tag of digits alone loses the zero in front: "06" is read as "6".
leading_zero : parse_path_uncached (b'0' ∷ b'6' ∷ []) ≡ ok (number 6 ∷ [])
unfolding parse_path_uncached parse_from add_segment parse_elem scan_elem elem_of number_elem
    parse_below
leading_zero = refl

-- The entry that is evicted makes room for the new one.
evicted :
    (parse_path (b'4' ∷ b'8' ∷ []) full).1.entries ≡ (((b'4' ∷ b'8' ∷ []), number 48 ∷ []) ∷ [])
unfolding parse_path cache_lookup parse_and_store cache_store store_new evict cache_delete
    parse_path_uncached parse_from add_segment parse_elem scan_elem elem_of number_elem parse_below
    eq_bytes
evicted = refl

full-IsSound : IsSound full.entries
unfolding parse_path_uncached parse_from add_segment parse_elem scan_elem elem_of number_elem
    parse_below
full-IsSound = (refl, tt)

cryptogram-IsElem : All IsElem cryptogram
cryptogram-IsElem = ((refl, ground arith), ((refl, (refl, (refl, (refl, (refl, tt)))), refl), tt))

parse_path-IsSound_example :
    ((parse_path cryptogram_text full).0 ≡ answer cryptogram_text)
    × IsSound (parse_path cryptogram_text full).1.entries
parse_path-IsSound_example = parse_path-IsSound cryptogram_text full full-IsSound

parse_path-path_text_example : (parse_path (path_text cryptogram) full).0 ≡ ok cryptogram
parse_path-path_text_example =
    parse_path-path_text cryptogram full full-IsSound cryptogram-IsElem (ground arith)
      (ground arith)
