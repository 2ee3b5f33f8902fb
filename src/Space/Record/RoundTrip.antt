-- ===== src/Space/Record/RoundTrip.antt =====
-- `readRecord` on what `encodeRecord` wrote, whole and cut short.
use isopace.Common.{
  ℕ, ◌+◌, ◌-◌, ◌^◌, ◌<◌, ◌≤◌, ◌≡◌, refl, sym, ◌∙◌, [], ◌++◌, arith, ◌⊎◌, append_assoc, append-nil,
  Bool-cases, inl, inr,
}
use isopace.Common.{
  ◌==◌, Bytes, length, length-append, take_all, length-take-le, take-append_past, take-append,
  drop-append, take, drop, take-append_eq, drop-append_eq, ok, err,
}
use isopace.Common.BigEndian.{be_get, be_put, be_get-be_put, length-be_put}
use isopace.Space.Record.{
  op_out, op_in, eof, unexpected_eof, Rec, body, encode_record, read_payload, read_body,
  read_record,
}

-- A record whose lengths fit their 32-bit fields. Only an `out` record carries a key and a value.
pub record IsWritten (r : Rec) : Type 0 where
  pub op_is : (r.op ≡ op_out) ⊎ ((r.op ≡ op_in) × (r.key ≡ []) × (r.val ≡ []))
  pub seq_fits : r.seq < 2 ^ 64
  pub size_fits : length r.key + length r.val < 2 ^ 32 - 32

-- A field of four bytes that holds `n`, in front of `rest`.
head_field : (n : ℕ) (rest : Bytes) → n < 2 ^ 32 → be_get (take 4 (be_put 4 n ++ rest)) ≡ n
head_field n rest h =
    rw (take-append_eq 4 (be_put 4 n) rest (sym (length-be_put 4 n))) (be_get-be_put 4 n h)

skip_field : (n : ℕ) (rest : Bytes) → drop 4 (be_put 4 n ++ rest) ≡ rest
skip_field n rest = drop-append_eq 4 (be_put 4 n) rest (sym (length-be_put 4 n))

payload_size :
    (key val : Bytes)
    → length (be_put 4 (length key) ++ (key ++ (be_put 4 (length val) ++ val)))
      ≡ 4 + length key + 4 + length val
payload_size key val = omega (
  arith,
  length-append (be_put 4 (length key)) (key ++ (be_put 4 (length val) ++ val)),
  length-append key (be_put 4 (length val) ++ val),
  length-append (be_put 4 (length val)) val,
  length-be_put 4 (length key),
  length-be_put 4 (length val),
)

-- The payload of an `out` record, read back.
read_payload_lem :
    (op seq : ℕ) (key val : Bytes)
    → length key + length val < 2 ^ 32 - 32
    → read_payload op seq (be_put 4 (length key) ++ (key ++ (be_put 4 (length val) ++ val)))
      ≡ ok (record { op = op; seq = seq; key = key; val = val })
unfolding read_payload
read_payload_lem op seq key val h =
    rw
      (
        head_field (length key) (key ++ (be_put 4 (length val) ++ val)) (omega arith),
        skip_field (length key) (key ++ (be_put 4 (length val) ++ val)),
        take-append_eq (length key) key (be_put 4 (length val) ++ val) refl,
        drop-append_eq (length key) key (be_put 4 (length val) ++ val) refl,
        head_field (length val) val (omega arith),
        skip_field (length val) val,
      )
      (ground (arith, payload_size key val, take_all val))

-- The first nine bytes of a body.
body_seq : (op seq : ℕ) (rest : Bytes) → seq < 2 ^ 64 → be_get (take 8 (be_put 8 seq ++ rest)) ≡ seq
body_seq op seq rest h =
    rw (take-append_eq 8 (be_put 8 seq) rest (sym (length-be_put 8 seq))) (be_get-be_put 8 seq h)

read_body_out : (r : Rec) → r.op ≡ op_out → IsWritten r → read_body (body r) ≡ ok r
unfolding read_body body
read_body_out r e w =
    rw
      (
        e,
        body_seq r.op r.seq _ w.seq_fits,
        drop-append_eq 8 (be_put 8 r.seq) _ (sym (length-be_put 8 r.seq)),
        read_payload_lem op_out r.seq r.key r.val w.size_fits,
      )
      refl

read_body_in :
    (r : Rec) → r.op ≡ op_in → r.key ≡ [] → r.val ≡ [] → r.seq < 2 ^ 64 → read_body (body r) ≡ ok r
unfolding read_body body
read_body_in r e k v h = rw (e, k, v, body_seq r.op r.seq _ h)

length-body : (r : Rec) → IsWritten r → (9 ≤ length (body r)) × (length (body r) < 2 ^ 32)
unfolding body
length-body r w = ground (
  arith,
  w.size_fits,
  length-be_put 8 r.seq,
  length-append (be_put 8 r.seq)
      (be_put 4 (length r.key) ++ (r.key ++ (be_put 4 (length r.val) ++ r.val))),
  append-nil (be_put 8 r.seq),
  payload_size r.key r.val,
)

read_body_lem : (r : Rec) → IsWritten r → read_body (body r) ≡ ok r
read_body_lem r w = elim w.op_is [
  | inl e ↦ read_body_out r e w
  | inr (e, k, v) ↦ read_body_in r e k v w.seq_fits
]

-- The four bytes of the length in front of `b`.
frame_size : (n : ℕ) (b : Bytes) → length (be_put 4 n ++ b) ≡ 4 + length b
frame_size n b = omega (arith, length-append (be_put 4 n) b, length-be_put 4 n)

frame_whole :
    (b rest : Bytes) {r : Rec}
    → 9 ≤ length b
    → length b < 2 ^ 32
    → read_body b ≡ ok r
    → read_record (be_put 4 (length b) ++ (b ++ rest)) ≡ ok (r, rest)
unfolding read_record
frame_whole b rest lo hi e =
    rw
      (
        head_field (length b) (b ++ rest) hi,
        skip_field (length b) (b ++ rest),
        take-append b rest,
        drop-append b rest,
        e,
      )
      (ground (arith, frame_size (length b) (b ++ rest), length-append b rest))

-- `readRecord` returns the record that `encodeRecord` wrote and stands just behind it.
pub read_record-encode_record :
    (r : Rec) (rest : Bytes) → IsWritten r → read_record (encode_record r ++ rest) ≡ ok (r, rest)
unfolding encode_record
read_record-encode_record r rest w =
    let (lo, hi) = length-body r w in
    rw append_assoc (frame_whole (body r) rest lo hi (read_body_lem r w))

-- A body shorter than its length field announces, whatever the bytes that are there.
pub frame_torn :
    (n : ℕ) (partial : Bytes)
    → n < 2 ^ 32
    → 9 ≤ n
    → length partial < n
    → read_record (be_put 4 n ++ partial) ≡ err unexpected_eof
unfolding read_record
frame_torn n partial h lo short =
    rw (head_field n partial h, skip_field n partial) (ground (arith, frame_size n partial))

header_torn :
    (b : Bytes) → length b < 4 → (read_record b ≡ err eof) ⊎ (read_record b ≡ err unexpected_eof)
unfolding read_record
header_torn b h = elim (Bool-cases (length b == 0)) [
  | inl e ↦ inl (rw e)
  | inr e ↦ inr (ground arith)
]

pub length-encode_record : (r : Rec) → 4 ≤ length (encode_record r)
unfolding encode_record
length-encode_record r = omega (arith, frame_size (length (body r)) (body r))

-- The first `k` bytes of a record, `k` less than all of them, and behind them anything too short
-- to make up for the rest.
pub torn_record :
    (r : Rec) (k : ℕ) (more : Bytes)
    → IsWritten r
    → 4 ≤ k
    → k + length more < length (encode_record r)
    → read_record (take k (encode_record r) ++ more) ≡ err unexpected_eof
unfolding encode_record
torn_record r k more w lo h =
    let n = length (body r) in
    let (big, fits) = length-body r w in
    let cut : take k (be_put 4 n ++ body r) ≡ be_put 4 n ++ take (k - 4) (body r) =
      take-append_past k (be_put 4 n) (body r) (omega (arith, length-be_put 4 n))
      ∙ rw (length-be_put 4 n) in
    rw (cut, append_assoc)
      (frame_torn n (take (k - 4) (body r) ++ more) fits big (
        omega (
          arith,
          length-append (take (k - 4) (body r)) more,
          length-take-le (k - 4) (body r),
          frame_size n (body r),
        )))

pub torn_header :
    (r : Rec) (k : ℕ)
    → k < 4
    → (read_record (take k (encode_record r)) ≡ err eof)
      ⊎ (read_record (take k (encode_record r)) ≡ err unexpected_eof)
torn_header r k h = header_torn _ (omega (arith, length-take-le k (encode_record r)))
