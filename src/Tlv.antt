-- ===== src/Tlv.antt =====
-- fieldcodec/tlv/bertlv.go: tags, lengths and values. The source reads at an index, which is the
-- rest of the bytes from there on here; a tag is its bytes, of which the source makes the hex text.
-- Tlv.Body has the codec that stands on this.
pub mod Triplets
pub mod Body
mod RoundTrip
mod Runs
use isopace.Common.{ℕ, zero, suc, ◌+◌, ◌||◌, bit_and, [], ◌∷◌, ◌++◌}
use isopace.Common.{
  ltb, leb, ◌==◌, if◌then◌else◌, Bytes, length, take, drop, Result, ok, err, ◌>>=◌,
}
use isopace.Common.BigEndian.{be_get, be_put}

pub data TlvError : Type 0 where
  truncated indefinite : TlvError

-- The bytes of a tag after the first, up to one with the high bit clear.
unfoldable pub read_tail : Bytes → Result TlvError (Bytes × Bytes)
read_tail [] = err truncated
read_tail (c ∷ cs) =
    let more = read_tail cs in
    if bit_and c 0x80 == 0 then ok (c ∷ [], cs) else (more >>= λ p. ok (c ∷ p.0, p.1))

unfoldable pub read_tag : Bytes → Result TlvError (Bytes × Bytes)
unfolding read_tail
read_tag [] = err truncated
read_tag (b0 ∷ bs) =
    if bit_and b0 0x1F == 0x1F then (read_tail bs >>= λ p. ok (b0 ∷ p.0, p.1)) else ok (b0 ∷ [], bs)

-- The length, and the bytes behind it.
unfoldable pub read_ber_len : Bytes → Result TlvError (ℕ × Bytes)
unfolding be_get
read_ber_len [] = err truncated
read_ber_len (l0 ∷ bs) =
    let nb = bit_and l0 0x7F in
    if bit_and l0 0x80 == 0
    then ok (l0, bs)
    else if nb == 0 || ltb 4 nb
    then err indefinite
    else if ltb (length bs) nb
    then err truncated
    else ok (be_get (take nb bs), drop nb bs)

-- `readTLV`: the tag, the value, and the bytes behind them.
unfoldable pub read_tlv : Bytes → Result TlvError (Bytes × Bytes × Bytes)
unfolding read_tag read_ber_len
read_tlv b = read_tag b >>= λ t. read_ber_len t.1 >>= λ l.
    if ltb (length l.1) l.0 then err truncated else ok (t.0, take l.0 l.1, drop l.0 l.1)

-- What `appendBERLen` appends.
unfoldable pub ber_len : ℕ → Bytes
unfolding be_put
ber_len n =
    if ltb n 0x80
    then be_put 1 n
    else if leb n 0xFF
    then 0x81 ∷ be_put 1 n
    else if leb n 0xFFFF
    then 0x82 ∷ be_put 2 n
    else if leb n 0xFFFFFF
    then 0x83 ∷ be_put 3 n
    else 0x84 ∷ be_put 4 n
