-- ===== src/Space/Store/Runs.antt =====
-- Tests, and the theorems at concrete inputs.
use isopace.Common.{◌≡◌, refl, false, [], ◌∷◌, ◌++◌, arith, inl, some, if◌then◌else◌}
use isopace.Common.{Bytes, length, take, eq_bytes, ok, err}
use isopace.Common.BigEndian.{be_put}
use isopace.Space.Record.{Rec, encode_record}
use isopace.Space.Record.RoundTrip.{IsWritten}
use isopace.Space.Store.{
  Store, written, open_store, push, pull, queue_of, push_back, out_record, in_record, closed_error,
  peek, len, close,
}
use isopace.Space.Store.Reopen.{IsConsistent, fresh, fresh-IsConsistent}
use isopace.Space.Store.Steps.{push-IsConsistent, pull-IsConsistent}
use isopace.Space.Store.Torn.{open_torn}

abbrev key : Bytes
key = b'q' ∷ []

abbrev val : Bytes
val = 1 ∷ 2 ∷ 3 ∷ []

-- The store behind one push.
abbrev one : Store
one = (push written key val fresh).0

-- A longer record, of which the first ten bytes reach the disk.
abbrev long : Rec
long = out_record 0 key (1 ∷ 2 ∷ 3 ∷ 4 ∷ 5 ∷ 6 ∷ 7 ∷ 8 ∷ 9 ∷ 10 ∷ 11 ∷ 12 ∷ [])

long-IsWritten : IsWritten long
long-IsWritten = record { op_is = inl refl; seq_fits = omega arith; size_fits = omega arith }

abbrev reopened : Store
reopened = record { closed = false; log = take 10 (encode_record long); data_map = []; seq = 0 }

one_queue : queue_of key one.data_map ≡ record { seq = 0; val = val } ∷ []
unfolding push push_back queue_of eq_bytes
one_queue = refl

one_closed : one.closed ≡ false
unfolding push
one_closed = refl

long_size : length (encode_record long) ≡ 34
unfolding encode_record be_put
long_size = refl

push_closed : (push written key val (close fresh)).1 ≡ err closed_error
unfolding push close
push_closed = refl

peek-one : peek key one ≡ some val
unfolding peek push push_back queue_of eq_bytes
peek-one = refl

len-one : len key one ≡ 1
unfolding len push push_back queue_of eq_bytes
len-one = refl

push-IsConsistent_example :
    ((push written key val fresh).1 ≡ ok tt)
    × ((j : Bytes)
        → queue_of j (push written key val fresh).0.data_map ≡ (
            if eq_bytes key j
            then queue_of j fresh.data_map ++ (record { seq = 0; val = val } ∷ [])
            else queue_of j fresh.data_map))
    × IsConsistent (push written key val fresh).0 (out_record 0 key val ∷ [])
push-IsConsistent_example =
    push-IsConsistent key val fresh [] fresh-IsConsistent refl (omega arith) (omega arith)

one_seq : one.seq ≡ 1
unfolding push
one_seq = refl

pull-IsConsistent_example :
    ((pull written key one).1 ≡ some (ok val))
    × ((j : Bytes)
        → queue_of j (pull written key one).0.data_map
          ≡ (if eq_bytes key j then [] else queue_of j one.data_map))
    × IsConsistent (pull written key one).0 (out_record 0 key val ∷ in_record 0 ∷ [])
pull-IsConsistent_example =
    pull-IsConsistent key one (out_record 0 key val ∷ []) (record { seq = 0; val = val }) []
      push-IsConsistent_example.2 one_closed (omega (arith, one_seq)) one_queue

open_torn_example :
    (t : Store) × ((open_store (fresh.log ++ take 10 (encode_record long)) ≡ ok t)
      × (t.closed ≡ false)
      × (t.log ≡ fresh.log ++ take 10 (encode_record long))
      × ((j : Bytes) → queue_of j t.data_map ≡ queue_of j fresh.data_map))
open_torn_example =
    open_torn fresh [] long 10 fresh-IsConsistent long-IsWritten (omega (arith, long_size))
