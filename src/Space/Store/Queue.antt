-- ===== src/Space/Store/Queue.antt =====
-- The queue of a key in memory, and the queue that the records of a log stand for.
use isopace.Common.{
  ℕ, ◌≡◌, ◌≢◌, refl, sym, ◌∙◌, true, ◌&&◌, not, List, [], ◌∷◌, ◌++◌, arith, inl, inr, ap,
  append-nil, append_assoc,
}
use isopace.Common.{
  ◌==◌, if◌then◌else◌, Bytes, mem, mem-append, eq_bytes, eq_bytes→eq, eq_bytes_comm, All,
  Bool-cases,
}
use mathlib.Core.Path.{subst}
use isopace.Space.Record.{Rec}
use isopace.Space.Store.{Entry, Data, queue_of, push_back, delete, replace, rebuild}

-- Equal keys are compared alike.
eq_bytes_trans : (i j k : Bytes) → eq_bytes i j ≡ true → eq_bytes i k ≡ eq_bytes j k
eq_bytes_trans i j k h = ap (λ x. eq_bytes x k) (eq_bytes→eq i j h)

pub queue_of-push_back :
    (k j : Bytes) (e : Entry) (m : Data)
    → queue_of j (push_back k e m)
      ≡ (if eq_bytes k j then queue_of j m ++ (e ∷ []) else queue_of j m)
unfolding queue_of push_back
queue_of-push_back k j e [] = refl
queue_of-push_back k j e ((i, q) ∷ m) = ground (
  arith,
  eq_bytes_trans i k j,
  eq_bytes_trans i j k,
  eq_bytes_comm k j,
  queue_of-push_back k j e m,
)

pub queue_of-delete :
    (k j : Bytes) (m : Data) → queue_of j (delete k m) ≡ (if eq_bytes k j then [] else queue_of j m)
unfolding queue_of delete
queue_of-delete k j [] = ground arith
queue_of-delete k j ((i, q) ∷ m) =
    ground
      (arith, eq_bytes_trans i k j, eq_bytes_trans i j k, eq_bytes_comm k j, queue_of-delete k j m)

-- A key with a queue that is not empty is in the map.
pub queue_of-replace :
    (k j : Bytes) (rest : List Entry) (m : Data)
    → queue_of k m ≢ []
    → queue_of j (replace k rest m) ≡ (if eq_bytes k j then rest else queue_of j m)
unfolding queue_of replace
queue_of-replace k j rest [] h = absurd (h refl)
queue_of-replace k j rest ((i, q) ∷ m) h = elim (Bool-cases (eq_bytes i k)) [
  | inl e ↦ ground (arith, eq_bytes_trans i k j)
  | inr n ↦
      let h' : queue_of k m ≢ [] = rw n at h in
      ground (arith, queue_of-replace k j rest m h', eq_bytes_trans i j k, eq_bytes_comm k j)
]

-- The entries of the key `k` among the `out` records `es` that no tombstone of `tomb` names, in
-- the order of the log.
unfoldable pub live : Bytes → List ℕ → List Rec → List Entry
live k tomb [] = []
live k tomb (e ∷ es) =
    if eq_bytes e.key k && not (mem e.seq tomb)
    then record { seq = e.seq; val = e.val } ∷ live k tomb es
    else live k tomb es

-- `replay`'s second loop builds these queues.
pub queue_of-rebuild :
    (k : Bytes) (es : List Rec) (tomb : List ℕ) (m : Data)
    → queue_of k (rebuild es tomb m) ≡ queue_of k m ++ live k tomb es
unfolding rebuild live
queue_of-rebuild k [] tomb m = sym (append-nil _)
queue_of-rebuild k (e ∷ es) tomb m = elim (Bool-cases (mem e.seq tomb)) [
  | inl dead ↦ rw dead (queue_of-rebuild k es tomb m ∙ ground arith)
  | inr lives ↦
      let x : Entry = record { seq = e.seq; val = e.val } in
      rw lives (
        queue_of-rebuild k es tomb (push_back e.key x m)
        ∙ ground (
          arith,
          queue_of-push_back e.key k x m,
          append_assoc (queue_of k m) (x ∷ []) (live k tomb es),
        ))
]

pub live-append :
    (k : Bytes) (tomb : List ℕ) (es fs : List Rec)
    → live k tomb (es ++ fs) ≡ live k tomb es ++ live k tomb fs
unfolding live
live-append k tomb [] fs = refl
live-append k tomb (e ∷ es) fs = ground (arith, live-append k tomb es fs)

mem_single : (a s : ℕ) → mem a (s ∷ []) ≡ (s == a)
unfolding mem
mem_single a s = ground arith

-- A further tombstone that names none of the records changes no queue.
live-other :
    (k : Bytes) (s : ℕ) (tomb : List ℕ) (es : List Rec)
    → All (λ e. e.seq ≢ s) es
    → live k (tomb ++ (s ∷ [])) es ≡ live k tomb es
unfolding live
live-other k s tomb [] h = refl
live-other k s tomb (e ∷ es) (he, h) =
    ground (arith, mem-append e.seq tomb (s ∷ []), mem_single e.seq s, live-other k s tomb es h)

-- The head of a queue is one of the records.
pub head_among :
    (P : ℕ → Type 0) (k : Bytes) (tomb : List ℕ) (es : List Rec) {h : Entry} {rest : List Entry}
    → All (λ e. P e.seq) es
    → live k tomb es ≡ h ∷ rest
    → P h.seq
unfolding live
head_among P k tomb [] a e = absurd (cc e)
head_among P k tomb (x ∷ es) {h} {rest} (ax, a) e =
    elim (Bool-cases (eq_bytes x.key k && not (mem x.seq tomb))) [
      | inl t ↦ let hx : x.seq ≡ h.seq = ground arith in subst P hx ax
      | inr f ↦ head_among P k tomb es a (rw f at e)
    ]

-- No two records of the log have one sequence number.
abbrev pub Distinct : List Rec → Type 0
Distinct [] = Unit
Distinct (e ∷ es) = All (λ f. f.seq ≢ e.seq) es × Distinct es

live_same :
    (j k : Bytes) (tomb : List ℕ) (es : List Rec)
    → eq_bytes k j ≡ true
    → live j tomb es ≡ live k tomb es
live_same j k tomb es e = ap (λ x. live x tomb es) (sym (eq_bytes→eq k j e))

-- The tombstone of the head of one queue takes it from that queue and leaves the others alone.
pub live-tombstone :
    (k j : Bytes) (tomb : List ℕ) (es : List Rec) {h : Entry} {rest : List Entry}
    → Distinct es
    → live k tomb es ≡ h ∷ rest
    → live j (tomb ++ (h.seq ∷ [])) es ≡ (if eq_bytes k j then rest else live j tomb es)
unfolding live
live-tombstone k j tomb [] d e = absurd (cc e)
live-tombstone k j tomb (x ∷ es) {h} {rest} (dx, d) e =
    elim (Bool-cases (eq_bytes x.key k && not (mem x.seq tomb))) [
      | inl t ↦
          let hx : h.seq ≡ x.seq = ground arith in
          let tl : live k tomb es ≡ rest = ground arith in
          let dx' : All (λ f. f.seq ≢ h.seq) es =
            subst (λ n. All (λ f. f.seq ≢ n) es) (sym hx) dx in
          ground (
            arith,
            mem-append x.seq tomb (h.seq ∷ []),
            mem_single x.seq h.seq,
            live-other j h.seq tomb es dx',
            live_same j k tomb es,
            eq_bytes_trans x.key k j,
          )
      | inr f ↦
          let e' : live k tomb es ≡ h ∷ rest = rw f at e in
          let ne = head_among (λ n. n ≢ x.seq) k tomb es dx e' in
          ground (
            arith,
            mem-append x.seq tomb (h.seq ∷ []),
            mem_single x.seq h.seq,
            live-tombstone k j tomb es d e',
            eq_bytes_trans x.key k j,
            eq_bytes_trans x.key j k,
            eq_bytes_comm k j,
          )
    ]
