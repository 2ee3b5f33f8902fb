-- ===== src/Space/Record.antt =====
-- The log records of space/store.go. The reader is the rest of the log.
pub mod RoundTrip
use isopace.Common.{ℕ, zero, suc, ◌+◌, ◌-◌, ◌<◌, ◌≤◌, Bool, true, false, ◌||◌, [], ◌∷◌, ◌++◌, not}
use isopace.Common.{
  ltb, ◌==◌, if◌then◌else◌, Bytes, length, take, drop, slice, get_or, Result, ok, err, ◌>>=◌,
}
use isopace.Common.BigEndian.{be_get, be_put}

-- `opOut` and `opIn`
abbrev pub op_out : ℕ
op_out = 1

abbrev pub op_in : ℕ
op_in = 2

-- The end of the log at a boundary, its end inside a record, and a record that is no record.
pub data ReadError : Type 0 where
  eof unexpected_eof corrupt : ReadError

-- What `readRecord` returns when it returns no error.
pub record Rec : Type 0 where
  pub op : ℕ
  pub seq : ℕ
  pub key : Bytes
  pub val : Bytes

body : Rec → Bytes
body r =
    r.op
    ∷ (be_put 8 r.seq
        ++ (if r.op == op_out
            then be_put 4 (length r.key) ++ (r.key ++ (be_put 4 (length r.val) ++ r.val))
            else []))

-- `PutUint32` keeps the lowest 32 bits of the length, as `be_put 4` does.
unfoldable pub encode_record : Rec → Bytes
unfolding body
encode_record r = be_put 4 (length (body r)) ++ body r

-- The part of `readRecord` behind `off := 9`, on the body from there on.
read_payload : ℕ → ℕ → Bytes → Result ReadError Rec
read_payload op seq b =
    if ltb (length b) 4
    then err corrupt
    else (let kl = be_get (take 4 b) in
        if ltb (length b) (4 + kl + 4)
        then err corrupt
        else (let key = take kl (drop 4 b) in
            let b' = drop kl (drop 4 b) in
            let vl = be_get (take 4 b') in
            if ltb (length b) (4 + kl + 4 + vl)
            then err corrupt
            else ok (record { op = op; seq = seq; key = key; val = take vl (drop 4 b') })))

-- The part behind `body` being read.
read_body : Bytes → Result ReadError Rec
read_body b =
    let op = get_or b 0 0 in
    let seq = be_get (take 8 (drop 1 b)) in
    if not (op == op_out)
    then ok (record { op = op; seq = seq; key = []; val = [] })
    else read_payload op seq (drop 9 b)

-- `readRecord`: the record and the rest of the log, or the error.
unfoldable pub read_record : Bytes → Result ReadError (Rec × Bytes)
unfolding read_body read_payload
read_record r =
    if length r == 0
    then err eof
    else if ltb (length r) 4
    then err unexpected_eof
    else (let n = be_get (take 4 r) in
        if ltb n 9
        then err corrupt
        else if ltb (length (drop 4 r)) n
        then err unexpected_eof
        else (read_body (take n (drop 4 r)) >>= λ rec. ok (rec, drop n (drop 4 r))))
