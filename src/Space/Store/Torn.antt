-- ===== src/Space/Store/Torn.antt =====
-- A crash inside the write of a record.
use isopace.Common.{ℕ, ◌<◌, ◌≡◌, false, List, [], ◌++◌, arith, inl, inr, append-nil, Bool-cases}
use isopace.Common.{Bytes, length, take, ltb, ok}
use isopace.Space.Record.{Rec, encode_record}
use isopace.Space.Record.RoundTrip.{IsWritten, torn_record, torn_header}
use isopace.Space.Store.{Store, open_store, queue_of}
use isopace.Space.Store.Replay.{Stops}
use isopace.Space.Store.Reopen.{IsConsistent, open_recovers}

cut-Stops :
    (r : Rec) (k : ℕ)
    → IsWritten r
    → k < length (encode_record r)
    → Stops (take k (encode_record r))
cut-Stops r k w h = elim (Bool-cases (ltb k 4)) [
  | inl small ↦ torn_header r k (ground arith)
  | inr big ↦
      let e = torn_record r k [] w (ground arith) (omega arith) in
      inr (rw (append-nil (take k (encode_record r))) at e)
]

-- After a crash that leaves any proper prefix of one more record behind the log, `Open` succeeds
-- and every queue is the one that memory held before the write.
pub open_torn :
    (s : Store) (rs : List Rec) (r : Rec) (k : ℕ)
    → IsConsistent s rs
    → IsWritten r
    → k < length (encode_record r)
    → (t : Store) × ((open_store (s.log ++ take k (encode_record r)) ≡ ok t)
        × (t.closed ≡ false)
        × (t.log ≡ s.log ++ take k (encode_record r))
        × ((j : Bytes) → queue_of j t.data_map ≡ queue_of j s.data_map))
open_torn s rs r k c w h = open_recovers s rs (take k (encode_record r)) c (cut-Stops r k w h)
