-- ===== src/FieldPath/Caching.antt =====
-- What the cache of paths remembers is what the parser answers, whatever was evicted.
use isopace.Common.{
  ◌≡◌, refl, sym, ap, ◌∙◌, arith, ◌≤◌, inl, inr, Option-cases, false, Option, none, some, List, [],
  ◌∷◌, Bool-cases, if◌then◌else◌, ltb, ◌==◌, ◌||◌, Bytes, All, length, eq_bytes, eq_bytes→eq,
  Result, ok, err,
}
use isopace.FieldPath.Parsing.{IsElem, parse_path_uncached-path_text}
use isopace.FieldPath.{
  path_text, FieldPath, PathError, PathCache, empty_path, cache_lookup, cache_delete, evict,
  cache_store, store_new, parse_and_store, parse_path, parse_path_uncached,
}

-- Every entry is the answer of the parser.
abbrev pub IsSound : List (Bytes × FieldPath) → Type 0
IsSound es = All (λ e. parse_path_uncached e.0 ≡ ok e.1) es

-- The answer of `ParsePath` if there were no cache.
abbrev pub answer : Bytes → Result PathError FieldPath
answer s = if length s == 0 then err empty_path else parse_path_uncached s

cache_lookup-IsSound :
    (s : Bytes) (p : FieldPath) (es : List (Bytes × FieldPath))
    → IsSound es
    → cache_lookup s es ≡ some p
    → parse_path_uncached s ≡ ok p
unfolding cache_lookup
cache_lookup-IsSound s p [] h q = absurd (ground arith)
cache_lookup-IsSound s p ((k, p') ∷ es) h q = elim (Bool-cases (eq_bytes s k)) [
  | inl t ↦
      (let same : p' ≡ p = ground arith in
        ap parse_path_uncached (eq_bytes→eq s k t) ∙ h.0 ∙ ap ok same)
  | inr f ↦ cache_lookup-IsSound s p es h.1 ((rw f refl) ∙ q)
]

cache_delete-IsSound :
    (s : Bytes) (es : List (Bytes × FieldPath)) → IsSound es → IsSound (cache_delete s es)
unfolding cache_delete
cache_delete-IsSound s [] h = h
cache_delete-IsSound s ((k, p) ∷ es) h = elim (Bool-cases (eq_bytes s k)) [
  | inl t ↦ rw t (cache_delete-IsSound s es h.1)
  | inr f ↦ rw f (h.0, cache_delete-IsSound s es h.1)
]

evict-IsSound : (c : PathCache) → IsSound c.entries → IsSound (evict c)
unfolding evict
evict-IsSound c h =
    let old = c.ring c.next in
    elim (Bool-cases (ltb (length c.entries) c.limit || length old == 0)) [
      | inl t ↦ simp t h
      | inr f ↦ simp f (cache_delete-IsSound old c.entries h)
    ]

store_new-IsSound :
    (s : Bytes) (p : FieldPath) (c : PathCache) (o : Option FieldPath)
    → IsSound c.entries
    → parse_path_uncached s ≡ ok p
    → IsSound (store_new s p c o).entries
unfolding store_new
store_new-IsSound s p c none h q = (q, evict-IsSound c h)
store_new-IsSound s p c (some _) h q = h

cache_store-IsSound :
    (s : Bytes) (p : FieldPath) (c : PathCache)
    → IsSound c.entries
    → parse_path_uncached s ≡ ok p
    → IsSound (cache_store s p c).entries
unfolding cache_store
cache_store-IsSound s p c h q = store_new-IsSound s p c (cache_lookup s c.entries) h q

parse_and_store-IsSound :
    (s : Bytes) (c : PathCache) (r : Result PathError FieldPath)
    → IsSound c.entries
    → parse_path_uncached s ≡ r
    → ((parse_and_store s c r).0 ≡ r) × IsSound (parse_and_store s c r).1.entries
unfolding parse_and_store
parse_and_store-IsSound s c (ok p) h q = (refl, cache_store-IsSound s p c h q)
parse_and_store-IsSound s c (err e) h q = (refl, h)

-- However full the cache is and whatever it has evicted, as long as every entry is what the parser answers for its
-- key, `ParsePath` answers as if there were no cache, and every entry is still what the parser answers.
pub parse_path-IsSound :
    (s : Bytes) (c : PathCache)
    → IsSound c.entries
    → ((parse_path s c).0 ≡ answer s) × IsSound (parse_path s c).1.entries
unfolding parse_path
parse_path-IsSound s c h = elim (Bool-cases (length s == 0)) [
  | inl t ↦ simp t (refl, h)
  | inr f ↦ elim (Option-cases (cache_lookup s c.entries)) [
    | inl new ↦ simp (f, new) (parse_and_store-IsSound s c (parse_path_uncached s) h refl)
    | inr (p, old) ↦ simp (f, old) (sym (cache_lookup-IsSound s p c.entries h old), h)
  ]
]

answer-ok : (s : Bytes) (p : FieldPath) → parse_path_uncached s ≡ ok p → answer s ≡ ok p
unfolding parse_path_uncached
answer-ok [] p q = absurd (ground arith)
answer-ok (c ∷ s) p q =
    let some_text : (length (c ∷ s) == 0) ≡ false = ground arith in rw some_text q

-- A path of one to six elements, each a number below 2 ^ 31 or a tag of upper-case hex digits with a letter among
-- them, is what `ParsePath` answers for the text that `FieldPath.String` writes, whatever the cache holds, as long
-- as every entry of it is what the parser answers for its key.
pub parse_path-path_text :
    (p : FieldPath) (c : PathCache)
    → IsSound c.entries
    → All IsElem p
    → 1 ≤ length p
    → length p ≤ 6
    → (parse_path (path_text p) c).0 ≡ ok p
parse_path-path_text p c h elems some_elem small =
    (parse_path-IsSound (path_text p) c h).0
    ∙ answer-ok (path_text p) p (parse_path_uncached-path_text p elems some_elem small)
