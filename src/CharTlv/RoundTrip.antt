-- ===== src/CharTlv/RoundTrip.antt =====
-- tlv/tlv.go: what is encoded is decoded.
use isopace.Common.{
  ℕ, zero, suc, ◌+◌, ◌-◌, ◌*◌, ◌%◌, ◌^◌, ◌≤◌, ◌<◌, ◌≡◌, ◌∙◌, refl, sym, ap, true, false, ◌||◌, List,
  [], ◌∷◌, ◌++◌, ltb, leb, ◌==◌, if◌then◌else◌, Bytes, length, take, drop, replicate, Result, ok,
  err, ◌>>=◌, arith, append-nil, append_assoc, All, All-append, length-append, length-replicate,
  take-append_eq, drop-append_eq, take-append, drop-append,
}
use isopace.Common.Int.{pos}
use isopace.Bcd.{IsDigit}
use isopace.Decimal.{int64_of}
use isopace.Digits.{itoa, digits_from}
use isopace.Digits.Laws.{
  itoa-IsDigit, digits_from-append, digits_from-itoa, digits_from-replicate, length-itoa,
}
use isopace.Engine.Parse.RoundTrip.{parse_int64-digits}
use isopace.CharTlv.{
  Element, TlvError, truncated, cut_value, read_count, count_of, reaches, decode_from, decode,
  max_from, is_long, pad_number, encode_from, encode,
}
use native.Mathlib.Nat.{pow-suc, mul-suc, mul_assoc, one-le-pow, one-mul, pow-le-pow_right}

grow : (x p : ℕ) → 1 ≤ p → x ≤ x * p
grow x zero h = absurd (omega arith)
grow x (suc p) h = omega (arith, mul-suc x p)

max_from_lem : (n m : ℕ) → m * 10 ^ n < 2 ^ 63 → max_from n m ≡ m * 10 ^ n
unfolding max_from
max_from_lem zero m h = omega arith
max_from_lem (suc n) m h =
    let q : m * 10 * 10 ^ n ≡ m * 10 ^ suc n =
      mul_assoc m 10 (10 ^ n) ∙ ap (λ x. m * x) (omega (arith, pow-suc 10 n)) in
    let low : m * 10 ≤ m * 10 * 10 ^ n = grow (m * 10) (10 ^ n) (one-le-pow n 10 (omega arith)) in
    let w : m * 10 % 2 ^ 64 ≡ m * 10 = omega (arith, low, q, h) in
    ap (max_from n) w ∙ max_from_lem n (m * 10) (omega (arith, q, h)) ∙ q

pub is_long-capacity : (n lw : ℕ) → lw ≤ 18 → n < 10 ^ lw → is_long n lw ≡ false
unfolding is_long reaches
is_long-capacity n lw few small =
    let top : 10 ^ lw ≤ 10 ^ 18 = pow-le-pow_right (omega arith) few in
    let cap : max_from lw 1 ≡ 10 ^ lw =
      max_from_lem lw 1 (omega (arith, top, one-mul (10 ^ lw))) ∙ one-mul (10 ^ lw) in
    let wide : int64_of (10 ^ lw) ≡ pos (10 ^ lw) = ground (arith, top) in
    let below : leb (10 ^ lw) n ≡ false = ground arith in
    ap (λ m. reaches n (int64_of m)) cap ∙ ap (reaches n) wide ∙ below

replicate-IsDigit : (k : ℕ) → All IsDigit (replicate k b'0')
replicate-IsDigit zero = tt
replicate-IsDigit (suc k) = (ground arith, replicate-IsDigit k)

-- The length field.
record Count (lw n : ℕ) : Type 0 where
  width : length (pad_number lw n) ≡ lw
  reads : read_count (pad_number lw n) ≡ ok n

pad_number-Count : (lw n : ℕ) → n < 10 ^ suc lw → n < 2 ^ 63 → Count (suc lw) n
unfolding pad_number read_count count_of
pad_number-Count lw n small int =
    let zeros : Bytes = replicate (suc lw - length (itoa n)) b'0' in
    let width : length (zeros ++ itoa n) ≡ suc lw = omega (
      arith,
      length-append zeros (itoa n),
      length-replicate {A = ℕ} (suc lw - length (itoa n)) b'0',
      length-itoa n lw small,
    ) in
    record {
      width = width;
      reads = ap count_of (
          parse_int64-digits (zeros ++ itoa n) n (omega (arith, width))
            (All-append IsDigit zeros (itoa n) (replicate-IsDigit (suc lw - length (itoa n)))
              (itoa-IsDigit n))
            (digits_from-append 0 zeros (itoa n)
              ∙ ap (λ a. digits_from a (itoa n)) (digits_from-replicate (suc lw - length (itoa n)))
              ∙ digits_from-itoa n)
            int);
    }

-- Elements that fit the widths, and what is written of them.
abbrev pub Fits : ℕ → ℕ → List Element → Type 0
Fits tw lw [] = Unit
Fits tw lw (e ∷ es) = (length e.tag ≡ tw) × (length e.value < 10 ^ lw) × Fits tw lw es

written : ℕ → List Element → Bytes
written lw [] = []
written lw (e ∷ es) = e.tag ++ (pad_number lw (length e.value) ++ (e.value ++ written lw es))

module _ (tw lw : ℕ) (few : suc lw ≤ 18) where
  encode_from-written :
      (es : List Element) (b : Bytes)
      → Fits tw (suc lw) es
      → encode_from tw (suc lw) b es ≡ ok (b ++ written (suc lw) es)
  unfolding encode_from written
  encode_from-written [] b f = ap ok (sym (append-nil b))
  encode_from-written (e ∷ es) b (t, v, f) =
      let t1 : (length e.tag == tw) ≡ true = ground arith in
      rw
        (
          t1,
          is_long-capacity (length e.value) (suc lw) few v,
          encode_from-written es (b ++ (e.tag ++ (pad_number (suc lw) (length e.value) ++ e.value)))
              f,
        )
        (ap ok (
          append_assoc b _ (written (suc lw) es)
          ∙ ap (λ x. b ++ x)
              (append_assoc e.tag _ (written (suc lw) es)
                ∙ ap (λ x. e.tag ++ x)
                    (append_assoc (pad_number (suc lw) (length e.value)) e.value
                      (written (suc lw) es)))))

  -- A round of the loop of `Decode` on an element that is written there.
  module _ (fuel i : ℕ) (e : Element) (rest : Bytes) (some_tag : 1 ≤ tw) (t : length e.tag ≡ tw)
      (v : length e.value < 10 ^ suc lw) (room : i + tw + suc lw + length e.value < 2 ^ 63) where
    shown : Bytes
    shown = e.tag ++ (pad_number (suc lw) (length e.value) ++ (e.value ++ rest))

    round : Bytes → Result TlvError (List Element)
    round s =
        if ltb (length s) (tw + suc lw)
        then err truncated
        else read_count (take (suc lw) (drop tw s)) >>= (λ n.
          cut_value (i + tw + suc lw) n (drop (tw + suc lw) s) >>= (λ v.
            decode_from fuel tw (suc lw) (i + tw + suc lw + n) v.1
            >>= (λ more. ok (record { tag = take tw s; value = v.0 } ∷ more))))

    decode_from-round :
        (s : Bytes) → 1 ≤ length s → decode_from (suc fuel) tw (suc lw) i s ≡ round s
    unfolding decode_from round
    decode_from-round [] h = absurd (omega arith)
    decode_from-round (c ∷ s) h = refl

    decode_from_one :
        (es : List Element)
        → decode_from fuel tw (suc lw) (i + tw + suc lw + length e.value) rest ≡ ok es
        → decode_from (suc fuel) tw (suc lw) i shown ≡ ok (e ∷ es)
    unfolding shown round cut_value
    decode_from_one es next =
        let n : ℕ = length e.value in
        let p : Bytes = pad_number (suc lw) n in
        let c = pad_number-Count lw n v (omega arith) in
        let k : length shown ≡ tw + suc lw + (n + length rest) = omega (
          arith,
          t,
          c.width,
          length-append e.tag (p ++ (e.value ++ rest)),
          length-append p (e.value ++ rest),
          length-append e.value rest,
        ) in
        let t1 : ltb (length shown) (tw + suc lw) ≡ false = ground (arith, k) in
        let a : take tw shown ≡ e.tag = take-append_eq tw e.tag (p ++ (e.value ++ rest)) (sym t) in
        let b : take (suc lw) (drop tw shown) ≡ p =
          ap (take (suc lw)) (drop-append_eq tw e.tag (p ++ (e.value ++ rest)) (sym t))
          ∙ take-append_eq (suc lw) p (e.value ++ rest) (sym c.width) in
        let d : drop (tw + suc lw) shown ≡ e.value ++ rest =
          ap (drop (tw + suc lw)) (sym (append_assoc e.tag p (e.value ++ rest)))
          ∙ drop-append_eq (tw + suc lw) (e.tag ++ p) (e.value ++ rest)
              (omega (arith, t, c.width, length-append e.tag p)) in
        let t2 : leb (2 ^ 63) (i + tw + suc lw + n) ≡ false = ground (arith, room) in
        let t3 : ltb (length (e.value ++ rest)) n ≡ false =
          ground (arith, length-append e.value rest) in
        decode_from-round shown (omega (arith, k))
        ∙ rw
            (t1, b, c.reads, d, t2, t3, take-append e.value rest, drop-append e.value rest, next, a)
            refl

  decode_from-written :
      (es : List Element) (fuel i : ℕ)
      → 1 ≤ tw
      → Fits tw (suc lw) es
      → length (written (suc lw) es) ≤ fuel
      → i + length (written (suc lw) es) < 2 ^ 63
      → decode_from fuel tw (suc lw) i (written (suc lw) es) ≡ ok es
  unfolding written
  decode_from-written [] fuel i s f enough room = unfold decode_from in refl
  decode_from-written (e ∷ es) fuel i s (t, v, f) enough room =
      let n : ℕ = length e.value in
      let rest : Bytes = written (suc lw) es in
      let p : Bytes = pad_number (suc lw) n in
      let total : length (e.tag ++ (p ++ (e.value ++ rest))) ≡ tw + length p + (n + length rest) =
        omega (
          arith,
          t,
          length-append e.tag (p ++ (e.value ++ rest)),
          length-append p (e.value ++ rest),
          length-append e.value rest,
        ) in
      let c = pad_number-Count lw n v (omega (arith, total, room)) in
      more fuel (omega (arith, total, enough, s)) e es rest s t v
        (omega (arith, total, room, c.width))
        (λ short. decode_from-written es short (i + tw + suc lw + n) s f)
        (omega (arith, total, room, c.width)) (omega (arith, total, enough, c.width, s))
    where
      more :
          (fuel : ℕ)
          → 1 ≤ fuel
          → (e : Element) (es : List Element) (rest : Bytes) → 1 ≤ tw
          → length e.tag ≡ tw
          → length e.value < 10 ^ suc lw
          → i + tw + suc lw + length e.value < 2 ^ 63
          → ((short : ℕ)
              → length rest ≤ short
              → i + tw + suc lw + length e.value + length rest < 2 ^ 63
              → decode_from short tw (suc lw) (i + tw + suc lw + length e.value) rest ≡ ok es)
          → i + tw + suc lw + length e.value + length rest < 2 ^ 63
          → suc (length rest) ≤ fuel
          → decode_from fuel tw
              (suc lw)
              i
              (e.tag ++ (pad_number (suc lw) (length e.value) ++ (e.value ++ rest)))
            ≡ ok (e ∷ es)
      more zero h e es rest s t v room next space enough = absurd (omega arith)
      more (suc fuel) h e es rest s t v room next space enough =
          unfold shown in
          decode_from_one fuel i e rest s t v room es (next fuel (omega arith) space)

-- Elements whose tags have the width and whose values a length of at most 18 digits can count: they
-- are encoded, and decoding the text gives them back, if its length is an int64.
pub decode-encode :
    (tw lw : ℕ) (es : List Element)
    → 1 ≤ tw
    → 1 ≤ lw
    → lw ≤ 18
    → Fits tw lw es
    → (s : Bytes) × (encode es tw lw ≡ ok s) × (length s < 2 ^ 63 → decode s tw lw ≡ ok es)
unfolding encode decode
decode-encode tw zero es some_tag some_len few f = absurd (omega arith)
decode-encode tw (suc lw) es some_tag some_len few f =
    let widths : (tw == 0 || suc lw == 0) ≡ false = ground arith in
    let s : Bytes = written (suc lw) es in
    (
      s,
      rw widths (encode_from-written tw lw few es [] f),
      λ room. rw widths (
          decode_from-written tw lw few es (length s) 0 some_tag f (omega arith)
            (omega (arith, room))),
    )
