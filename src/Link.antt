-- ===== src/Link.antt =====
-- link/framer.go: messages with a length in front, over a stream of bytes. The stream is the bytes that are still to come;
-- `io.ReadFull` takes as many as it is asked for, or fails.
pub mod RoundTrip
mod Runs
use isopace.Common.{ℕ, ◌+◌, ◌-◌, ◌*◌, ◌^◌, Option, none, some, ◌++◌}
use isopace.Common.{ltb, ◌==◌, if◌then◌else◌, Bytes, length, take, drop, Result, ok, err, ◌>>=◌}
use isopace.Common.BigEndian.{be_get, be_put}

pub data FrameError : Type 0 where
  too_large end_of_stream unexpected_end : FrameError

-- `lengthPrefix`
pub record LengthPrefix : Type 0 where
  pub width : ℕ
  pub max : ℕ

abbrev pub default_max_frame : ℕ
default_max_frame = 2 ^ 20

-- The function `LengthPrefix`, which panics for another width.
abbrev pub length_prefix : ℕ → Option LengthPrefix
length_prefix w =
    if w == 2
    then some (record { width = 2; max = 2 ^ 16 - 1 })
    else if w == 4
    then some (record { width = 4; max = default_max_frame })
    else none

-- `io.ReadFull` into `n` bytes: what was read, and the rest.
unfoldable pub read_full : Bytes → ℕ → Result FrameError (Bytes × Bytes)
read_full src n =
    if ltb (length src) n
    then (if length src == 0 then err end_of_stream else err unexpected_end)
    else ok (take n src, drop n src)

-- `ReadFrame`: the body, and the rest of the stream.
unfoldable pub read_frame : LengthPrefix → Bytes → Result FrameError (Bytes × Bytes)
unfolding read_full be_get
read_frame lp src = read_full src lp.width >>= λ h.
    if ltb lp.max (be_get h.0) then err too_large else read_full h.1 (be_get h.0)

-- `WriteFrame`: the bytes of its one write.
unfoldable pub write_frame : LengthPrefix → Bytes → Result FrameError Bytes
unfolding be_put
write_frame lp msg =
    if ltb lp.max (length msg) then err too_large else ok (be_put lp.width (length msg) ++ msg)
