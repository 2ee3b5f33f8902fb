-- ===== src/Space/Store/Steps.antt =====
-- `Push` and `Pull` keep the log and the memory in agreement.
use isopace.Common.{
  ◌+◌, ◌-◌, ◌^◌, ◌<◌, ◌≤◌, ◌≡◌, refl, sym, ◌∙◌, true, false, List, [], ◌∷◌, ◌++◌, arith, inl, inr,
  ap, some,
}
use isopace.Common.{◌==◌, if◌then◌else◌, Bytes, length, mem, eq_bytes, All-append, ok}
use isopace.Space.Record.{op_out, Rec, encode_record}
use isopace.Space.Record.RoundTrip.{IsWritten}
use isopace.Space.Store.{
  Entry, Data, Store, written, note, nothing_gathered, push, pull, queue_of, push_back, out_record,
  in_record, replace, delete,
}
use isopace.Space.Store.Queue.{
  live, live-tombstone, head_among, queue_of-push_back, queue_of-delete, queue_of-replace,
}
use isopace.Space.Store.Replay.{
  encode_all-append, gather-append, outs, tombs, outs-append_out, outs-append_in, tombs-append_in,
  tombs-append_out,
}
use isopace.Space.Store.Reopen.{
  next, IsConsistent, recs_mono, nums_mono, not_mem, Distinct-append, live-append_out,
}

next-out :
    (rs : List Rec) (r : Rec)
    → (r.op == op_out) ≡ true
    → next rs ≤ r.seq
    → r.seq + 1 < 2 ^ 64
    → next (rs ++ (r ∷ [])) ≡ r.seq + 1
unfolding note
next-out rs r t h fits = ap (λ g. g.seq) (gather-append nothing_gathered rs r) ∙ ground arith

next-in : (rs : List Rec) (r : Rec) → (r.op == op_out) ≡ false → next (rs ++ (r ∷ [])) ≡ next rs
unfolding note
next-in rs r t = ap (λ g. g.seq) (gather-append nothing_gathered rs r) ∙ ground arith

queues_out :
    (key val k : Bytes) (s : Store) (rs rs' : List Rec)
    → IsConsistent s rs
    → live k (tombs rs') (outs rs') ≡ live k (tombs rs) (outs rs ++ (out_record s.seq key val ∷ []))
    → mem s.seq (tombs rs) ≡ false
    → queue_of k (push_back key (record { seq = s.seq; val = val }) s.data_map)
      ≡ live k (tombs rs') (outs rs')
queues_out key val k s rs rs' c l dead = ground (
  arith,
  queue_of-push_back key k (record { seq = s.seq; val = val }) s.data_map,
  c.queues k,
  l,
  live-append_out k (tombs rs) (outs rs) (out_record s.seq key val) dead,
)

-- A successful `Push` on an open store returns no error, puts the value at the end of its queue
-- and of no other, and leaves log and memory in agreement.
pub push-IsConsistent :
    (key val : Bytes) (s : Store) (rs : List Rec)
    → IsConsistent s rs
    → s.closed ≡ false
    → s.seq + 1 < 2 ^ 64
    → length key + length val < 2 ^ 32 - 32
    → ((push written key val s).1 ≡ ok tt)
      × ((j : Bytes)
          → queue_of j (push written key val s).0.data_map ≡ (
              if eq_bytes key j
              then queue_of j s.data_map ++ (record { seq = s.seq; val = val } ∷ [])
              else queue_of j s.data_map))
      × IsConsistent (push written key val s).0 (rs ++ (out_record s.seq key val ∷ []))
unfolding push
push-IsConsistent key val s rs c opened fits size =
    let r = out_record s.seq key val in
    let n = next-out rs r refl c.next_le fits in
    let o = outs-append_out rs r refl in
    let t = tombs-append_out rs r refl in
    let dead =
      not_mem s.seq (tombs rs) (nums_mono (next rs) s.seq (tombs rs) c.next_le c.tombs_below) in
    let small = recs_mono (next rs) s.seq (outs rs) c.next_le c.outs_below in
    rw opened (
      refl,
      λ j. queue_of-push_back key j (record { seq = s.seq; val = val }) s.data_map,
      record {
        log_is = ap (λ l. l ++ encode_record r) c.log_is ∙ sym (encode_all-append rs r);
        whole =
            All-append IsWritten rs (r ∷ []) c.whole
              (record { op_is = inl refl; seq_fits = omega arith; size_fits = size }, tt);
        queues = λ k. queues_out key val k s rs (rs ++ (r ∷ [])) c (rw (o, t)) dead;
        next_le = omega (arith, n);
        outs_below =
            rw (n, o)
              (All-append _ (outs rs) (r ∷ [])
                (recs_mono s.seq (s.seq + 1) (outs rs) (omega arith) small) (omega arith, tt));
        tombs_below =
            rw (n, t) (nums_mono (next rs) (s.seq + 1) (tombs rs) (omega arith) c.tombs_below);
        distinct = rw o (Distinct-append (outs rs) r c.distinct small);
      },
    )

-- The map without the head of a queue.
removed : Bytes → List Entry → Data → Data
removed key [] m = delete key m
removed key (e ∷ rest) m = replace key (e ∷ rest) m

queue_of-removed :
    (key j : Bytes) (h : Entry) (rest : List Entry) (m : Data)
    → queue_of key m ≡ h ∷ rest
    → queue_of j (removed key rest m) ≡ (if eq_bytes key j then rest else queue_of j m)
unfolding removed
queue_of-removed key j h [] m e = queue_of-delete key j m
queue_of-removed key j h (x ∷ rest) m e = queue_of-replace key j (x ∷ rest) m (λ n. ground arith)

-- One successful `Pull` in full.
pull_taken :
    (key : Bytes) (s : Store) (h : Entry) (rest : List Entry)
    → s.closed ≡ false
    → queue_of key s.data_map ≡ h ∷ rest
    → pull written key s ≡ (
      record s {
        log = s.log ++ encode_record (in_record h.seq);
        data_map = removed key rest s.data_map;
      },
      some (ok h.val),
    )
unfolding pull removed
pull_taken key s h [] o e = rw (o, e)
pull_taken key s h (x ∷ rest) o e = rw (o, e)

-- The store behind a successful `Pull`.
taken-IsConsistent :
    (key : Bytes) (s : Store) (rs : List Rec) (h : Entry) (rest : List Entry)
    → IsConsistent s rs
    → queue_of key s.data_map ≡ h ∷ rest
    → s.seq < 2 ^ 64
    → IsConsistent
        (record s {
          log = s.log ++ encode_record (in_record h.seq);
          data_map = removed key rest s.data_map;
        })
        (rs ++ (in_record h.seq ∷ []))
taken-IsConsistent key s rs h rest c e fits =
    let r = in_record h.seq in
    let n = next-in rs r refl in
    let o = outs-append_in rs r refl in
    let t = tombs-append_in rs r refl in
    let q : live key (tombs rs) (outs rs) ≡ h ∷ rest = sym (c.queues key) ∙ e in
    let low : h.seq < next rs =
      head_among (λ x. x < next rs) key (tombs rs) (outs rs) c.outs_below q in
    record {
      log_is = ap (λ l. l ++ encode_record r) c.log_is ∙ sym (encode_all-append rs r);
      whole = All-append IsWritten rs (r ∷ []) c.whole (
        record {
          op_is = inr (refl, refl, refl);
          seq_fits = omega (arith, c.next_le);
          size_fits = omega arith;
        },
        tt,
      );
      queues = λ k.
          queue_of-removed key k h rest s.data_map e
          ∙ rw (o, t)
              (ground (arith, c.queues k, live-tombstone key k (tombs rs) (outs rs) c.distinct q));
      next_le = omega (arith, n, c.next_le);
      outs_below = rw (n, o) c.outs_below;
      tombs_below = rw (n, t) (All-append _ (tombs rs) (h.seq ∷ []) c.tombs_below (low, tt));
      distinct = rw o c.distinct;
    }

-- A successful `Pull` of a queue that is not empty returns its head, takes it from that queue
-- alone, and leaves log and memory in agreement.
pub pull-IsConsistent :
    (key : Bytes) (s : Store) (rs : List Rec) (h : Entry) (rest : List Entry)
    → IsConsistent s rs
    → s.closed ≡ false
    → s.seq < 2 ^ 64
    → queue_of key s.data_map ≡ h ∷ rest
    → ((pull written key s).1 ≡ some (ok h.val))
      × ((j : Bytes)
          → queue_of j (pull written key s).0.data_map
            ≡ (if eq_bytes key j then rest else queue_of j s.data_map))
      × IsConsistent (pull written key s).0 (rs ++ (in_record h.seq ∷ []))
pull-IsConsistent key s rs h rest c opened fits e = rw (pull_taken key s h rest opened e) (
  refl,
  λ j. queue_of-removed key j h rest s.data_map e,
  taken-IsConsistent key s rs h rest c e fits,
)
