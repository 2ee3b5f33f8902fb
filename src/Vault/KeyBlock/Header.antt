-- ===== src/Vault/KeyBlock/Header.antt =====
-- vault/keyblock.go: the header of a key block is read back as it was written.
use isopace.Common.{
  ℕ, zero, suc, ◌+◌, ◌-◌, ◌*◌, ◌%◌, ◌≤◌, ◌<◌, ◌≡◌, ◌∙◌, refl, sym, ap, true, false, ◌||◌, [], ◌∷◌,
  ◌++◌, ltb, ◌==◌, if◌then◌else◌, Bytes, eq_bytes, length, replicate, arith, ok, All, All-append,
  length-append, length-replicate,
}
use isopace.Bcd.{IsDigit}
use isopace.Digits.{itoa, digits_from}
use isopace.Digits.Laws.{
  itoa-IsDigit, digits_from-append, digits_from-itoa, digits_from-replicate, length-itoa,
}
use isopace.Vault.KeyBlock.{
  KeyBlockHeader, four_digits, marshal_header, parse_header, atoi_from, check_block,
}

pub atoi_from-digits :
    {C : Type 0} (n : ℕ) (s : Bytes) → All IsDigit s → atoi_from {C = C} n s ≡ ok (digits_from n s)
unfolding atoi_from digits_from
atoi_from-digits n [] h = refl
atoi_from-digits n (c ∷ cs) (d, h) =
    let q : (ltb c b'0' || ltb b'9' c) ≡ false = ground arith in
    rw q (atoi_from-digits (n * 10 + (c - b'0')) cs h)

replicate-IsDigit : (k : ℕ) → All IsDigit (replicate k b'0')
replicate-IsDigit zero = tt
replicate-IsDigit (suc k) = (ground arith, replicate-IsDigit k)

four_digits-IsDigit : (n : ℕ) → All IsDigit (four_digits n)
unfolding four_digits
four_digits-IsDigit n =
    All-append IsDigit (replicate (4 - length (itoa n)) b'0') (itoa n) (replicate-IsDigit _)
      (itoa-IsDigit n)

digits_from-four_digits : (n : ℕ) → digits_from 0 (four_digits n) ≡ n
unfolding four_digits
digits_from-four_digits n =
    digits_from-append 0 (replicate (4 - length (itoa n)) b'0') (itoa n)
    ∙ ap (λ a. digits_from a (itoa n)) (digits_from-replicate (4 - length (itoa n)))
    ∙ digits_from-itoa n

length-four_digits : (n : ℕ) → n < 10000 → length (four_digits n) ≡ 4
unfolding four_digits
length-four_digits n h = omega (
  arith,
  length-itoa n 3 h,
  length-append (replicate (4 - length (itoa n)) b'0') (itoa n),
  length-replicate {A = ℕ} (4 - length (itoa n)) b'0',
)

pair_of : (s : Bytes) → length s ≡ 2 → (a b : ℕ) × (s ≡ a ∷ b ∷ [])
pair_of [] e = absurd (omega arith)
pair_of (a ∷ []) e = absurd (omega arith)
pair_of (a ∷ b ∷ []) e = (a, b, refl)
pair_of (a ∷ b ∷ c ∷ s) e = absurd (omega arith)

four_of : (s : Bytes) → length s ≡ 4 → (a b c d : ℕ) × (s ≡ a ∷ b ∷ c ∷ d ∷ [])
four_of [] e = absurd (omega arith)
four_of (a ∷ []) e = absurd (omega arith)
four_of (a ∷ b ∷ s) e =
    let (c, d, q) = pair_of s (omega arith) in (a, b, c, d, ap (λ t. a ∷ b ∷ t) q)

-- The key version that is written, and the header as it is read back.
abbrev pub version_text : KeyBlockHeader → Bytes
version_text h = if length h.key_version == 0 then b'0' ∷ b'0' ∷ [] else h.key_version

abbrev pub normal_header : KeyBlockHeader → KeyBlockHeader
normal_header h = record h { version = b'B'; key_version = version_text h }

-- What `marshal` puts together.
header_bytes : KeyBlockHeader → Bytes → Bytes → Bytes → Bytes
header_bytes h size usage kv =
    b'B' ∷ size
    ++ usage
    ++ (h.algorithm ∷ h.mode_of_use ∷ kv ++ (h.exportability ∷ b'0' ∷ b'0' ∷ b'0' ∷ b'0' ∷ []))

check_explicit :
    {C : Type 0} (h : KeyBlockHeader) (rest : Bytes) (a b c d u v k l : ℕ)
    → atoi_from {C = C} 0 (a ∷ b ∷ c ∷ d ∷ []) ≡ ok (16 + length rest)
    → 16 ≤ length rest
    → length rest % 16 ≡ 0
    → check_block {C = C} (header_bytes h (a ∷ b ∷ c ∷ d ∷ []) (u ∷ v ∷ []) (k ∷ l ∷ []) ++ rest)
      ≡ ok (record h { version = b'B'; key_usage = u ∷ v ∷ []; key_version = k ∷ l ∷ [] })
unfolding check_block parse_header header_bytes eq_bytes
check_explicit {C} h rest a b c d u v k l number long whole =
    let block : Bytes = header_bytes h (a ∷ b ∷ c ∷ d ∷ []) (u ∷ v ∷ []) (k ∷ l ∷ []) ++ rest in
    let t1 : ltb (length block) 16 ≡ false = ground arith in
    let t2 : (16 + length rest == length block) ≡ true = ground arith in
    let t3 : ltb (length block - 16) 16 ≡ false = ground arith in
    let t4 : ((length block - 16) % 16 == 0) ≡ true = ground arith in
    rw (t1, number, t2, t3, t4) refl

-- A header that `marshal` writes for a block of this many bytes.
pub record IsWritten (C : Type 0) (h : KeyBlockHeader) (block_len : ℕ) : Type 0 where
  pub header : Bytes
  pub writes : marshal_header {C = C} h block_len ≡ ok header
  pub length_header : length header ≡ 16
  pub checks :
      (rest : Bytes)
      → block_len ≡ 16 + length rest
      → 16 ≤ length rest
      → length rest % 16 ≡ 0
      → check_block {C = C} (header ++ rest) ≡ ok (normal_header h)

pub marshal_header-IsWritten :
    {C : Type 0} (h : KeyBlockHeader) (block_len : ℕ)
    → length h.key_usage ≡ 2
    → length (version_text h) ≡ 2
    → block_len < 10000
    → IsWritten C h block_len
unfolding marshal_header header_bytes
marshal_header-IsWritten {C} h n lu lv small =
    let (a, b, c, d, size) = four_of (four_digits n) (length-four_digits n small) in
    let (u, v, usage) = pair_of h.key_usage lu in
    let (k, l, version) = pair_of (version_text h) lv in
    let number : atoi_from {C = C} 0 (a ∷ b ∷ c ∷ d ∷ []) ≡ ok n =
      ap (atoi_from 0) (sym size)
      ∙ atoi_from-digits 0 (four_digits n) (four_digits-IsDigit n)
      ∙ ap ok (digits_from-four_digits n) in
    let t1 : (length h.key_usage == 2) ≡ true = ground arith in
    let t2 : (length (version_text h) == 2) ≡ true = ground arith in
    let t3 : ltb 9999 n ≡ false = ground arith in
    record {
      header = header_bytes h (a ∷ b ∷ c ∷ d ∷ []) (u ∷ v ∷ []) (k ∷ l ∷ []);
      writes = rw (t1, t2, t3) (λ i. ok (header_bytes h (size i) (usage i) (version i)));
      length_header = refl;
      checks = λ rest e long whole.
          check_explicit h rest a b c d u v k l (number ∙ ap ok e) long whole ∙ (λ i.
            ok (record h { version = b'B'; key_usage = sym usage i; key_version = sym version i }));
    }
