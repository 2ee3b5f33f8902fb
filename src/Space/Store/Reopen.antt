-- ===== src/Space/Store/Reopen.antt =====
-- The log and the memory of a store agree, through every operation and over a crash.
use isopace.Common.{
  ℕ, ◌<◌, ◌≤◌, ◌≡◌, refl, sym, ◌∙◌, false, List, [], ◌∷◌, ◌++◌, arith, inl, ap, append-nil,
}
use isopace.Common.{if◌then◌else◌, Bytes, mem, eq_bytes, All, All-append, ok, err}
use isopace.Space.Record.{Rec, eof, read_record}
use isopace.Space.Record.RoundTrip.{IsWritten}
use isopace.Space.Store.{Store, nothing_gathered, rebuild, open_store, queue_of}
use isopace.Space.Store.Queue.{live, live-append, Distinct, queue_of-rebuild}
use isopace.Space.Store.Replay.{
  encode_all, gather, Stops, replay_records, outs, tombs, entries-gather, tomb-gather,
}

-- The next sequence number that a replay of the records comes to.
abbrev pub next : List Rec → ℕ
next rs = (gather nothing_gathered rs).seq

-- The log holds `rs`, and memory holds the queues that `rs` stands for.
pub record IsConsistent (s : Store) (rs : List Rec) : Type 0 where
  pub log_is : s.log ≡ encode_all rs
  pub whole : All IsWritten rs
  pub queues : (k : Bytes) → queue_of k s.data_map ≡ live k (tombs rs) (outs rs)
  pub next_le : next rs ≤ s.seq
  pub outs_below : All (λ r. r.seq < next rs) (outs rs)
  pub tombs_below : All (λ t. t < next rs) (tombs rs)
  pub distinct : Distinct (outs rs)

-- What `Open` makes of a log of whole records and a tail at which the reader stops.
abbrev reopened : List Rec → Bytes → Store
reopened rs log = record {
  closed = false;
  log = log;
  data_map = rebuild (gather nothing_gathered rs).entries (gather nothing_gathered rs).tomb [];
  seq = next rs;
}

pub open_lem :
    (rs : List Rec) (tail : Bytes)
    → All IsWritten rs
    → Stops tail
    → open_store (encode_all rs ++ tail) ≡ ok (reopened rs (encode_all rs ++ tail))
unfolding open_store
open_lem rs tail w st = rw (replay_records rs tail w st)

reopened-queues :
    (k : Bytes) (rs : List Rec) (log : Bytes)
    → queue_of k (reopened rs log).data_map ≡ live k (tombs rs) (outs rs)
reopened-queues k rs log =
    queue_of-rebuild k (gather nothing_gathered rs).entries (gather nothing_gathered rs).tomb []
    ∙ rw (entries-gather rs nothing_gathered, tomb-gather rs nothing_gathered)
        (unfold queue_of in refl)

eof_lem : read_record [] ≡ err eof
unfolding read_record
eof_lem = refl

-- A clean log, or a log cut inside the record that was being written, is read back: `Open`
-- succeeds and every queue is the one in memory.
pub open_recovers :
    (s : Store) (rs : List Rec) (tail : Bytes)
    → IsConsistent s rs
    → Stops tail
    → (t : Store) × ((open_store (s.log ++ tail) ≡ ok t)
        × (t.closed ≡ false)
        × (t.log ≡ s.log ++ tail)
        × ((k : Bytes) → queue_of k t.data_map ≡ queue_of k s.data_map))
open_recovers s rs tail c st = (
  reopened rs (encode_all rs ++ tail),
  (
    rw c.log_is (open_lem rs tail c.whole st),
    refl,
    ap (λ l. l ++ tail) (sym c.log_is),
    λ k. reopened-queues k rs (encode_all rs ++ tail) ∙ sym (c.queues k),
  ),
)

-- After a clean stop the store is consistent with the same records.
pub reopen-IsConsistent :
    (s : Store) (rs : List Rec)
    → IsConsistent s rs
    → (t : Store) × ((open_store s.log ≡ ok t) × IsConsistent t rs)
reopen-IsConsistent s rs c =
    let log = encode_all rs ++ [] in
    (
      reopened rs log,
      (
        ap open_store (c.log_is ∙ sym (append-nil _)) ∙ open_lem rs [] c.whole (inl eof_lem),
        record {
          log_is = append-nil (encode_all rs);
          whole = c.whole;
          queues = λ k. reopened-queues k rs log;
          next_le = omega arith;
          outs_below = c.outs_below;
          tombs_below = c.tombs_below;
          distinct = c.distinct;
        },
      ),
    )

pub recs_mono :
    (a b : ℕ) (es : List Rec) → a ≤ b → All (λ r. r.seq < a) es → All (λ r. r.seq < b) es
recs_mono a b [] h x = tt
recs_mono a b (e ∷ es) h (x, xs) = (omega arith, recs_mono a b es h xs)

pub nums_mono : (a b : ℕ) (ts : List ℕ) → a ≤ b → All (λ t. t < a) ts → All (λ t. t < b) ts
nums_mono a b [] h x = tt
nums_mono a b (t ∷ ts) h (x, xs) = (omega arith, nums_mono a b ts h xs)

pub not_mem : (s : ℕ) (ts : List ℕ) → All (λ t. t < s) ts → mem s ts ≡ false
unfolding mem
not_mem s [] h = refl
not_mem s (t ∷ ts) (x, xs) = ground (arith, not_mem s ts xs)

pub Distinct-append :
    (es : List Rec) (r : Rec)
    → Distinct es
    → All (λ e. e.seq < r.seq) es
    → Distinct (es ++ (r ∷ []))
Distinct-append [] r d h = (tt, tt)
Distinct-append (e ∷ es) r (de, d) (he, h) =
    (All-append _ es (r ∷ []) de (omega arith), Distinct-append es r d h)

-- What a new record adds to the queues.
pub live-append_out :
    (k : Bytes) (tomb : List ℕ) (es : List Rec) (r : Rec)
    → mem r.seq tomb ≡ false
    → live k tomb (es ++ (r ∷ [])) ≡ (
        if eq_bytes r.key k
        then live k tomb es ++ (record { seq = r.seq; val = r.val } ∷ [])
        else live k tomb es)
live-append_out k tomb es r m =
    live-append k tomb es (r ∷ []) ∙ unfold live in ground (arith, append-nil (live k tomb es))

-- A store on an empty log.
abbrev pub fresh : Store
fresh = record { closed = false; log = []; data_map = []; seq = 0 }

pub fresh-IsConsistent : IsConsistent fresh []
unfolding encode_all queue_of live gather outs tombs
fresh-IsConsistent = record {
  log_is = refl;
  whole = tt;
  queues = λ k. refl;
  next_le = omega arith;
  outs_below = tt;
  tombs_below = tt;
  distinct = tt;
}
