-- ===== src/FieldPath.antt =====
-- iso8583/path.go: the paths of fields, their text, and the cache of parsed ones.
mod Parsing
mod Caching
mod Runs
use isopace.Common.{
  ℕ, zero, suc, ◌+◌, ◌-◌, ◌%◌, ◌^◌, Bool, true, false, ◌||◌, ◌&&◌, not, Option, none, some, List,
  [], ◌∷◌, ◌++◌, map, ltb, leb, ◌==◌, if◌then◌else◌, Bytes, eq_bytes, length, drop, Result, ok, err,
  map_err, ◌>>=◌,
}
use isopace.Common.Int.{ℤ, pos, negsuc}
use isopace.BitmapCodec.{upper_hex}
use isopace.Decimal.{format_int}
use isopace.Engine.Parse.{ValueError, parse_below}

-- `PathElem`; `tag` is empty in one that is a number.
pub record PathElem : Type 0 where
  pub n : ℤ
  pub tag : Bytes

-- `FieldPath`, of which the elements past `n` are always zero: the first `n` of them.
abbrev pub FieldPath : Type 0
FieldPath = List PathElem

pub data PathError : Type 0 where
  empty_path too_deep empty_element invalid_character out_of_range : PathError

abbrev pub max_path_depth : ℕ
max_path_depth = 6

-- `PathElem.String`
unfoldable pub elem_text : PathElem → Bytes
elem_text e = if length e.tag == 0 then format_int e.n else e.tag

-- `FieldPath.String`
unfoldable pub path_text : FieldPath → Bytes
unfolding elem_text
path_text [] = []
path_text (e ∷ []) = elem_text e
path_text (e ∷ f ∷ p) = elem_text e ++ (b'.' ∷ path_text (f ∷ p))

-- `Tail`, and `Push`, which panics at the full depth.
unfoldable pub tail : FieldPath → FieldPath
tail p = drop 1 p

unfoldable pub push_elem : PathElem → FieldPath → Option FieldPath
push_elem e p = if leb max_path_depth (length p) then none else some (p ++ (e ∷ []))

abbrev pub is_path_digit : ℕ → Bool
is_path_digit c = leb b'0' c && leb c b'9'

abbrev pub is_hex_letter : ℕ → Bool
is_hex_letter c = (leb b'A' c && leb c b'F') || (leb b'a' c && leb c b'f')

-- The loop of `parseElem`: whether there was a hex letter, if every character is valid.
unfoldable pub scan_elem : Bool → Bytes → Option Bool
scan_elem letter [] = some letter
scan_elem letter (c ∷ s) =
    let same = scan_elem letter s in
    let found = scan_elem true s in
    if is_path_digit c then same else if is_hex_letter c then found else none

-- `strconv.ParseInt` of digits, below `2 ^ 31`.
unfoldable pub number_elem : Result ValueError ℕ → Result PathError PathElem
number_elem (ok k) = ok (record { n = pos k; tag = [] })
number_elem (err _) = err out_of_range

unfoldable pub elem_of : Bytes → Option Bool → Result PathError PathElem
elem_of seg none = err invalid_character
elem_of seg (some true) = ok (record { n = negsuc 0; tag = map upper_hex seg })
elem_of seg (some false) = number_elem (parse_below (2 ^ 31) seg)

-- `parseElem`
unfoldable pub parse_elem : Bytes → Result PathError PathElem
unfolding scan_elem elem_of number_elem
parse_elem seg = elem_of seg (scan_elem false seg)

-- A segment that has ended, behind the elements before it.
unfoldable pub add_segment : FieldPath → Bytes → Result PathError FieldPath
unfolding parse_elem
add_segment p seg =
    if length seg == 0
    then err empty_element
    else if leb max_path_depth (length p)
    then err too_deep
    else parse_elem seg >>= (λ e. ok (p ++ (e ∷ [])))

-- The loop of `parsePathUncached`, with the segment so far and what is left of the text.
unfoldable pub parse_from : FieldPath → Bytes → Bytes → Result PathError FieldPath
parse_from p seg [] = add_segment p seg
parse_from p seg (c ∷ s) =
    let longer = parse_from p (seg ++ (c ∷ [])) s in
    let ended = add_segment p seg >>= (λ q. parse_from q [] s) in
    if c == b'.' then ended else longer

-- `parsePathUncached`
unfoldable pub parse_path_uncached : Bytes → Result PathError FieldPath
unfolding parse_from add_segment
parse_path_uncached s = parse_from [] [] s

-- `pathCache`: the map, the ring of keys, and the place in it.
pub record PathCache : Type 0 where
  pub entries : List (Bytes × FieldPath)
  pub ring : ℕ → Bytes
  pub next : ℕ
  pub limit : ℕ

-- `cacheLookup`
unfoldable pub cache_lookup : Bytes → List (Bytes × FieldPath) → Option FieldPath
cache_lookup s [] = none
cache_lookup s ((k, p) ∷ es) = let rest = cache_lookup s es in if eq_bytes s k then some p else rest

-- `delete`
unfoldable pub cache_delete : Bytes → List (Bytes × FieldPath) → List (Bytes × FieldPath)
cache_delete s [] = []
cache_delete s ((k, p) ∷ es) =
    let rest = cache_delete s es in if eq_bytes s k then rest else (k, p) ∷ rest

-- The entries after the oldest one has made room.
unfoldable pub evict : PathCache → List (Bytes × FieldPath)
unfolding cache_delete
evict c =
    let old = c.ring c.next in
    if ltb (length c.entries) c.limit || length old == 0
    then c.entries
    else cache_delete old c.entries

-- `cacheStore` behind its look for the key.
unfoldable pub store_new : Bytes → FieldPath → PathCache → Option FieldPath → PathCache
unfolding evict
store_new s p c (some _) = c
store_new s p c none = record c {
  entries = (s, p) ∷ evict c;
  ring = λ i. if i == c.next then s else c.ring i;
  next = (c.next + 1) % c.limit;
}

-- `cacheStore`
unfoldable pub cache_store : Bytes → FieldPath → PathCache → PathCache
unfolding store_new cache_lookup
cache_store s p c = store_new s p c (cache_lookup s c.entries)

-- `ParsePath` when the cache does not have the text.
unfoldable pub parse_and_store :
    Bytes → PathCache → Result PathError FieldPath → Result PathError FieldPath × PathCache
parse_and_store s c (err e) = (err e, c)
parse_and_store s c (ok p) = (ok p, cache_store s p c)

-- `ParsePath`, with the cache before and after.
unfoldable pub parse_path : Bytes → PathCache → Result PathError FieldPath × PathCache
unfolding cache_lookup cache_store parse_path_uncached parse_and_store
parse_path s c = if length s == 0 then (err empty_path, c) else elim (cache_lookup s c.entries) [
  | some p ↦ (ok p, c)
  | none ↦ parse_and_store s c (parse_path_uncached s)
]
