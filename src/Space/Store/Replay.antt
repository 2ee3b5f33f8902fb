-- ===== src/Space/Store/Replay.antt =====
-- `replay` on a log of whole records, with a torn tail or none.
use isopace.Common.{
  ℕ, zero, suc, ◌<◌, ◌≤◌, ◌≡◌, sym, ◌∙◌, true, false, List, [], ◌∷◌, ◌++◌, arith, refl, inl, inr,
  append-nil, append_assoc, ◌⊎◌,
}
use isopace.Common.{◌==◌, if◌then◌else◌, Bytes, length, length-append, All, ok, err}
use isopace.Space.Record.{op_out, op_in, Rec, eof, unexpected_eof, encode_record, read_record}
use isopace.Space.Record.RoundTrip.{IsWritten, read_record-encode_record, length-encode_record}
use isopace.Space.Store.{Gathered, note, replay_loop, replay, nothing_gathered}

unfoldable pub encode_all : List Rec → Bytes
encode_all [] = []
encode_all (r ∷ rs) = encode_record r ++ encode_all rs

unfoldable pub gather : Gathered → List Rec → Gathered
gather g [] = g
gather g (r ∷ rs) = gather (note g r) rs

-- A tail at which `replay` stops with no error.
abbrev pub Stops : Bytes → Type 0
Stops tail = (read_record tail ≡ err eof) ⊎ (read_record tail ≡ err unexpected_eof)

loop-Stops :
    (fuel : ℕ) (tail : Bytes) (g : Gathered) → Stops tail → replay_loop (suc fuel) tail g ≡ ok g
unfolding replay_loop
loop-Stops fuel tail g (inl e) = rw (e, replay_loop)
loop-Stops fuel tail g (inr e) = rw (e, replay_loop)

loop_step :
    (fuel : ℕ) (r : Rec) (rest : Bytes) (g : Gathered)
    → IsWritten r
    → replay_loop (suc fuel) (encode_record r ++ rest) g ≡ replay_loop fuel rest (note g r)
unfolding replay_loop
loop_step fuel r rest g w = rw (read_record-encode_record r rest w, replay_loop)

loop_gather :
    (fuel : ℕ) (rs : List Rec) (tail : Bytes) (g : Gathered)
    → All IsWritten rs
    → Stops tail
    → length rs < fuel
    → replay_loop fuel (encode_all rs ++ tail) g ≡ ok (gather g rs)
unfolding encode_all gather
loop_gather zero rs tail g w st h = absurd (omega arith)
loop_gather (suc fuel) [] tail g w st h = loop-Stops fuel tail g st
loop_gather (suc fuel) (r ∷ rs) tail g (wr, w) st h = rw append_assoc (
    loop_step fuel r (encode_all rs ++ tail) g wr
    ∙ loop_gather fuel rs tail (note g r) w st (omega arith))

-- Each record takes a byte at least.
length-encode_all : (rs : List Rec) → length rs ≤ length (encode_all rs)
unfolding encode_all
length-encode_all [] = omega arith
length-encode_all (r ∷ rs) = omega (
  arith,
  length-append (encode_record r) (encode_all rs),
  length-encode_record r,
  length-encode_all rs,
)

-- The log's records are gathered in order, and a tail at which the reader stops is left out.
pub replay_records :
    (rs : List Rec) (tail : Bytes)
    → All IsWritten rs
    → Stops tail
    → replay (encode_all rs ++ tail) ≡ ok (gather nothing_gathered rs)
unfolding replay
replay_records rs tail w st =
    loop_gather _ rs tail nothing_gathered w st
      (omega (arith, length-append (encode_all rs) tail, length-encode_all rs))

-- The records that `Push` wrote, and the sequence numbers of the tombstones.
unfoldable pub outs : List Rec → List Rec
outs [] = []
outs (r ∷ rs) = if r.op == op_out then r ∷ outs rs else outs rs

unfoldable pub tombs : List Rec → List ℕ
tombs [] = []
tombs (r ∷ rs) = if r.op == op_in then r.seq ∷ tombs rs else tombs rs

pub entries-gather : (rs : List Rec) (g : Gathered) → (gather g rs).entries ≡ g.entries ++ outs rs
unfolding gather note outs
entries-gather [] g = sym (append-nil g.entries)
entries-gather (r ∷ rs) g =
    ground (arith, entries-gather rs (note g r), append_assoc g.entries (r ∷ []) (outs rs))

pub tomb-gather : (rs : List Rec) (g : Gathered) → (gather g rs).tomb ≡ g.tomb ++ tombs rs
unfolding gather note tombs
tomb-gather [] g = sym (append-nil g.tomb)
tomb-gather (r ∷ rs) g =
    ground (arith, tomb-gather rs (note g r), append_assoc g.tomb (r.seq ∷ []) (tombs rs))

pub gather-append :
    (g : Gathered) (rs : List Rec) (r : Rec) → gather g (rs ++ (r ∷ [])) ≡ note (gather g rs) r
unfolding gather
gather-append g [] r = refl
gather-append g (x ∷ rs) r = gather-append (note g x) rs r

pub outs-append_out :
    (rs : List Rec) (r : Rec)
    → (r.op == op_out) ≡ true
    → outs (rs ++ (r ∷ [])) ≡ outs rs ++ (r ∷ [])
unfolding outs
outs-append_out [] r t = rw t
outs-append_out (x ∷ rs) r t = ground (arith, outs-append_out rs r t)

pub outs-append_in :
    (rs : List Rec) (r : Rec) → (r.op == op_out) ≡ false → outs (rs ++ (r ∷ [])) ≡ outs rs
unfolding outs
outs-append_in [] r t = rw t
outs-append_in (x ∷ rs) r t = ground (arith, outs-append_in rs r t)

pub tombs-append_in :
    (rs : List Rec) (r : Rec)
    → (r.op == op_in) ≡ true
    → tombs (rs ++ (r ∷ [])) ≡ tombs rs ++ (r.seq ∷ [])
unfolding tombs
tombs-append_in [] r t = rw t
tombs-append_in (x ∷ rs) r t = ground (arith, tombs-append_in rs r t)

pub tombs-append_out :
    (rs : List Rec) (r : Rec) → (r.op == op_in) ≡ false → tombs (rs ++ (r ∷ [])) ≡ tombs rs
unfolding tombs
tombs-append_out [] r t = rw t
tombs-append_out (x ∷ rs) r t = ground (arith, tombs-append_out rs r t)

pub encode_all-append :
    (rs : List Rec) (r : Rec) → encode_all (rs ++ (r ∷ [])) ≡ encode_all rs ++ encode_record r
unfolding encode_all
encode_all-append [] r = append-nil (encode_record r)
encode_all-append (x ∷ rs) r =
    rw (encode_all-append rs r)
      (sym (append_assoc (encode_record x) (encode_all rs) (encode_record r)))
