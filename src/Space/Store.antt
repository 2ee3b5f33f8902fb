-- ===== src/Space/Store.antt =====
-- space/store.go: the durable store-and-forward queue. The state is the memory of `Store` and the
-- bytes of its log file; the lock makes each method one step. What a call of the file system does
-- is an argument, `Write`. A channel's broadcast changes nothing that a method reads and has no
-- counterpart; a wait of `Pull` is the end of one round.
pub mod Queue
pub mod Replay
pub mod Reopen
pub mod Steps
pub mod Torn
mod Runs
use isopace.Common.{
  ℕ, zero, suc, ◌+◌, ◌%◌, ◌^◌, ◌≤◌, Bool, true, false, ◌||◌, ◌&&◌, List, [], ◌∷◌, ◌++◌, Option,
  none, some, not,
}
use isopace.Common.{
  ltb, leb, ◌==◌, if◌then◌else◌, Bytes, length, take, mem, eq_bytes, Result, ok, err, ◌>>=◌,
}
use isopace.Space.Record.{
  op_out, op_in, Rec, ReadError, eof, unexpected_eof, corrupt, encode_record, read_record,
}

-- `record`
pub record Entry : Type 0 where
  pub seq : ℕ
  pub val : Bytes

-- `map[string][]record` as an association list; a missing key has the empty queue.
abbrev pub Data : Type 0
Data = List (Bytes × List Entry)

pub queue_of : Bytes → Data → List Entry
queue_of k [] = []
queue_of k ((j, q) ∷ m) = if eq_bytes j k then q else queue_of k m

-- `data[key] = append(data[key], e)`
pub push_back : Bytes → Entry → Data → Data
push_back k e [] = (k, e ∷ []) ∷ []
push_back k e ((j, q) ∷ m) =
    if eq_bytes j k then (j, q ++ (e ∷ [])) ∷ m else (j, q) ∷ push_back k e m

-- `delete(data, key)`
pub delete : Bytes → Data → Data
delete k [] = []
delete k ((j, q) ∷ m) = if eq_bytes j k then delete k m else (j, q) ∷ delete k m

-- `data[key] = rest` at a key that is there.
pub replace : Bytes → List Entry → Data → Data
replace k rest [] = []
replace k rest ((j, q) ∷ m) = if eq_bytes j k then (j, rest) ∷ m else (j, q) ∷ replace k rest m

pub record Store : Type 0 where
  pub closed : Bool
  pub log : Bytes
  pub data_map : Data
  pub seq : ℕ

pub data StoreError : Type 0 where
  closed_error io_error : StoreError

-- The file's answer to `Write` and `Sync`: the record is in the log, or the call fails with its
-- first bytes in the log (all of them if it is the flush that fails).
pub data Write : Type 0 where
  written : Write
  failed : ℕ → Write

-- What `replay` has gathered: `entries`, `tomb` and the next sequence number.
pub record Gathered : Type 0 where
  pub entries : List Rec
  pub tomb : List ℕ
  pub seq : ℕ

-- The `switch op` of `replay`.
pub note : Gathered → Rec → Gathered
note g r =
    if r.op == op_out
    then record g {
      entries = g.entries ++ (r ∷ []);
      seq = if leb g.seq r.seq then (r.seq + 1) % 2 ^ 64 else g.seq;
    }
    else if r.op == op_in
    then record g { tomb = g.tomb ++ (r.seq ∷ []) }
    else g

-- `stuck` is no value of the source: the loop ran out of fuel.
pub data ReplayError : Type 0 where
  corrupt_log stuck : ReplayError

pub replay_loop : ℕ → Bytes → Gathered → Result ReplayError Gathered
replay_loop zero log g = err stuck
replay_loop (suc fuel) log g = elim (read_record log) [
  | err eof ↦ ok g
  | err unexpected_eof ↦ ok g
  | err corrupt ↦ err corrupt_log
  | ok (r, rest) ↦ replay_loop fuel rest (note g r)
]

-- The second loop of `replay`.
pub rebuild : List Rec → List ℕ → Data → Data
rebuild [] tomb m = m
rebuild (e ∷ es) tomb m =
    rebuild es tomb
      (if mem e.seq tomb then m else push_back e.key (record { seq = e.seq; val = e.val }) m)

abbrev pub nothing_gathered : Gathered
nothing_gathered = record { entries = []; tomb = []; seq = 0 }

-- Each record takes a byte at least, so one round more than the log has bytes is enough.
pub replay : Bytes → Result ReplayError Gathered
replay log = replay_loop (suc (length log)) log nothing_gathered

-- `Open` on a file that holds `log`.
unfoldable pub open_store : Bytes → Result ReplayError Store
open_store log = replay log >>= λ g.
    ok (record { closed = false; log = log; data_map = rebuild g.entries g.tomb []; seq = g.seq })

-- `Store.append`
pub append : Write → Rec → Store → Store × Result StoreError (Unit {0})
append written r s = (record s { log = s.log ++ encode_record r }, ok tt)
append (failed k) r s = (record s { log = s.log ++ take k (encode_record r) }, err io_error)

abbrev pub out_record : ℕ → Bytes → Bytes → Rec
out_record seq key val = record { op = op_out; seq = seq; key = key; val = val }

abbrev pub in_record : ℕ → Rec
in_record seq = record { op = op_in; seq = seq; key = []; val = [] }

-- The rest of `Push` behind a record that is in the log.
push_done :
    Bytes → Bytes → Store → Result StoreError (Unit {0}) → Store × Result StoreError (Unit {0})
push_done key val s (err e) = (s, err e)
push_done key val s (ok _) = (
  record s {
    seq = (s.seq + 1) % 2 ^ 64;
    data_map = push_back key (record { seq = s.seq; val = val }) s.data_map;
  },
  ok tt,
)

unfoldable pub push : Write → Bytes → Bytes → Store → Store × Result StoreError (Unit {0})
unfolding push_done append
push w key val s =
    if s.closed
    then (s, err closed_error)
    else (let (s', r) = append w (out_record s.seq key val) s in push_done key val s' r)

-- `takeHead` behind the tombstone.
take_done :
    Bytes
    → Entry
    → List Entry
    → Store
    → Result StoreError (Unit {0})
    → Store × Result StoreError Bytes
take_done key head rest s (err e) = (s, err e)
take_done key head [] s (ok _) = (record s { data_map = delete key s.data_map }, ok head.val)
take_done key head (e ∷ rest) s (ok _) =
    (record s { data_map = replace key (e ∷ rest) s.data_map }, ok head.val)

-- `takeHead` on the queue `q`; `none` is the caller's case of an empty queue.
take_head : Write → Bytes → List Entry → Store → Store × Option (Result StoreError Bytes)
take_head w key [] s = (s, none)
take_head w key (head ∷ rest) s =
    let (s', r) = append w (in_record head.seq) s in
    let (s'', v) = take_done key head rest s' r in (s'', some v)

-- One round of `Pull`, and `Pullp`: `none` is a wait there, and `ok = false` here.
unfoldable pub pull : Write → Bytes → Store → Store × Option (Result StoreError Bytes)
unfolding take_head take_done append
pull w key s =
    if s.closed then (s, some (err closed_error)) else take_head w key (queue_of key s.data_map) s

unfoldable pub peek : Bytes → Store → Option Bytes
peek key s = elim (queue_of key s.data_map) [ [] ↦ none | e ∷ _ ↦ some e.val ]

unfoldable pub len : Bytes → Store → ℕ
len key s = length (queue_of key s.data_map)

unfoldable pub close : Store → Store
close s = record s { closed = true }
