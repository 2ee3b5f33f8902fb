-- ===== src/CharTlv.antt =====
-- tlv/tlv.go: elements of a tag, a decimal length and a value, each of characters. `strconv.Atoi`
-- is that of the engine's numbers. Go's slicing fails where its upper bound is negative or out of
-- range, which is `panics` here.
mod RoundTrip
mod Runs
use isopace.Common.{
  ℕ, zero, suc, ◌+◌, ◌-◌, ◌*◌, ◌%◌, ◌^◌, Bool, true, false, ◌||◌, not, Option, none, some, List, [],
  ◌∷◌, ◌++◌, ltb, leb, ◌==◌, if◌then◌else◌, Bytes, eq_bytes, length, take, drop, replicate, Result,
  ok, err, ◌>>=◌,
}
use isopace.Common.Int.{ℤ, pos, negsuc}
use isopace.Decimal.{int64_of}
use isopace.Digits.{itoa}
use isopace.Engine.Parse.{ValueError, parse_int64}

-- `Element`
pub record Element : Type 0 where
  pub tag : Bytes
  pub value : Bytes

pub data TlvError : Type 0 where
  bad_widths truncated bad_length overruns bad_tag too_long panics stuck : TlvError

-- The rest of a round of `Decode` whose length is known: `start` is the offset of the value, and
-- `body` what stands from there.
unfoldable pub cut_value : ℕ → ℕ → Bytes → Result TlvError (Bytes × Bytes)
cut_value start n body =
    if leb (2 ^ 63) (start + n)
    then err panics
    else if ltb (length body) n
    then err overruns
    else ok (take n body, drop n body)

-- The tests on what `strconv.Atoi` gives.
unfoldable pub count_of : Result ValueError ℤ → Result TlvError ℕ
count_of (err _) = err bad_length
count_of (ok (pos n)) = ok n
count_of (ok (negsuc n)) = err bad_length

unfoldable pub read_count : Bytes → Result TlvError ℕ
unfolding count_of
read_count s = count_of (parse_int64 s)

-- The loop of `Decode` at offset `i`, where `rest` stands, with `fuel` rounds at most.
unfoldable pub decode_from : ℕ → ℕ → ℕ → ℕ → Bytes → Result TlvError (List Element)
decode_from fuel tw lw i [] = ok []
decode_from zero tw lw i (c ∷ rest) = err stuck
decode_from (suc fuel) tw lw i (c ∷ rest) =
    let s : Bytes = c ∷ rest in
    if ltb (length s) (tw + lw)
    then err truncated
    else read_count (take lw (drop tw s)) >>= (λ n.
      cut_value (i + tw + lw) n (drop (tw + lw) s) >>= (λ v.
        decode_from fuel tw lw (i + tw + lw + n) v.1
        >>= (λ more. ok (record { tag = take tw s; value = v.0 } ∷ more))))

-- `Decode`; the widths are not negative.
unfoldable pub decode : Bytes → ℕ → ℕ → Result TlvError (List Element)
decode s tw lw = if tw == 0 || lw == 0 then err bad_widths else decode_from (length s) tw lw 0 s

-- The loop `max *= 10`, of which the int64 is the pattern.
unfoldable pub max_from : ℕ → ℕ → ℕ
max_from zero m = m
max_from (suc n) m = max_from n (m * 10 % 2 ^ 64)

-- `len(e.Value) >= max`
unfoldable pub reaches : ℕ → ℤ → Bool
reaches n (pos max) = leb max n
reaches n (negsuc _) = true

unfoldable pub is_long : ℕ → ℕ → Bool
unfolding reaches max_from
is_long n lw = reaches n (int64_of (max_from lw 1))

-- `%0*d`
unfoldable pub pad_number : ℕ → ℕ → Bytes
pad_number w n = replicate (w - length (itoa n)) b'0' ++ itoa n

-- The loop of `Encode`, behind what the builder has.
unfoldable pub encode_from : ℕ → ℕ → Bytes → List Element → Result TlvError Bytes
encode_from tw lw b [] = ok b
encode_from tw lw b (e ∷ es) =
    let n = length e.value in
    let more = encode_from tw lw (b ++ (e.tag ++ (pad_number lw n ++ e.value))) es in
    if not (length e.tag == tw) then err bad_tag else if is_long n lw then err too_long else more

-- `Encode`
unfoldable pub encode : List Element → ℕ → ℕ → Result TlvError Bytes
encode es tw lw = if tw == 0 || lw == 0 then err bad_widths else encode_from tw lw [] es

-- `Get`
unfoldable pub get : List Element → Bytes → Option Bytes
get [] tag = none
get (e ∷ es) tag = let rest = get es tag in if eq_bytes e.tag tag then some e.value else rest
