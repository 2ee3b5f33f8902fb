-- ===== src/Vault/Dukpt/Parent.antt =====
-- vault/dukpt.go: the key of a counter, from the key of the counter without its lowest bit.
use isopace.Common.{
  ℕ, zero, suc, ◌+◌, ◌*◌, ◌/◌, ◌%◌, ◌^◌, ◌<◌, ◌≤◌, ◌≡◌, ◌∙◌, refl, sym, ap, inl, inr, ◌⊎◌, true,
  false, arith, ◌==◌, if◌then◌else◌, Bytes, length, bit_and, Result, ok, err, ◌>>=◌,
}
use isopace.Common.Bits.Masks.{digit, digit-le, half_pow, test-mask}
use isopace.Vault.Cipher.{Des, IsDesLibrary}
use isopace.Vault.Dukpt.{
  ksn_counter, set_counter_bit, generate_key, walk, register_base, derive_session_key,
}
use isopace.Vault.Dukpt.Total.{session-IsKey}
use native.Mathlib.Nat.{pow-suc}
use native.Mathlib.Decide.{dec_lt}
use mathlib.Core.Path.{fun_ext, subst}

-- The register when the lowest `m` bits of the counter have been gone through.
pub reach : ℕ → ℕ → Bytes → Bytes
reach c zero reg = reg
reach c (suc m) reg = reach c m (if digit c m == 0 then reg else set_counter_bit reg (2 ^ m))

bit_value : (c m : ℕ) → (digit c m ≡ 0) ⊎ (digit c m ≡ 1)
bit_value c m = split (digit c m) (digit-le c m)
  where
    split : (d : ℕ) → d ≤ 1 → (d ≡ 0) ⊎ (d ≡ 1)
    split zero h = inl refl
    split (suc zero) h = inr refl
    split (suc (suc d)) h = absurd (omega arith)

bind_ok_right : {E : Type 0} (r : Result E Bytes) → (r >>= λ x. ok x) ≡ r
bind_ok_right (ok x) = refl
bind_ok_right (err e) = refl

bind_assoc :
    {E : Type 0} (r : Result E Bytes) (f g : Bytes → Result E Bytes)
    → (r >>= λ x. f x >>= g) ≡ ((r >>= f) >>= g)
bind_assoc (ok x) f g = refl
bind_assoc (err e) f g = refl

module _ {C : Type 0} (des : Des C) where
  skip_step :
      (c m : ℕ) (reg key : Bytes)
      → digit c m ≡ 0
      → walk des c (suc m) (2 ^ m) reg key ≡ walk des c m (2 ^ m / 2) reg key
  unfolding walk
  skip_step c m reg key d =
      let t : (bit_and c (2 ^ m) == 0) ≡ true = test-mask c m ∙ ap (λ x. x == 0) d in rw t refl

  take_step :
      (c m : ℕ) (reg key : Bytes)
      → digit c m ≡ 1
      → walk des c (suc m) (2 ^ m) reg key ≡ (
          generate_key des key (set_counter_bit reg (2 ^ m)) >>= λ ck.
          walk des c m (2 ^ m / 2) (set_counter_bit reg (2 ^ m)) ck)
  unfolding walk
  take_step c m reg key d =
      let t : (bit_and c (2 ^ m) == 0) ≡ false = test-mask c m ∙ ap (λ x. x == 0) d in rw t refl

  halved :
      (c m : ℕ) (reg key : Bytes)
      → walk des c (suc m) (2 ^ suc m / 2) reg key ≡ walk des c (suc m) (2 ^ m) reg key
  halved c m reg key = ap (λ s. walk des c (suc m) s reg key) (half_pow m).0

  -- Where no bit is left the key is kept, and the register.
  idle :
      (c m : ℕ) (reg key : Bytes)
      → ((j : ℕ) → j < m → digit c j ≡ 0)
      → (walk des c m (2 ^ m / 2) reg key ≡ ok key) × (reach c m reg ≡ reg)
  unfolding walk reach
  idle c zero reg key z = (refl, refl)
  idle c (suc m) reg key z =
      let d : digit c m ≡ 0 = z m (omega arith) in
      let rest = idle c m reg key (λ j h. z j (omega arith)) in
      (
        halved c m reg key ∙ skip_step c m reg key d ∙ rest.0,
        ap (λ x. reach c m (if x == 0 then reg else set_counter_bit reg (2 ^ m))) d ∙ rest.1,
      )

  -- `p` is `c` without its lowest set bit, which is bit `k`.
  module _ (k c p : ℕ) (above : (j : ℕ) → k < j → digit p j ≡ digit c j) (set : digit c k ≡ 1)
      (unset : digit p k ≡ 0) (low : (j : ℕ) → j < k → digit c j ≡ 0)
      (low' : (j : ℕ) → j < k → digit p j ≡ 0) where
    last_bit :
        (reg key : Bytes)
        → walk des c (suc k) (2 ^ suc k / 2) reg key ≡ (
            walk des p (suc k) (2 ^ suc k / 2) reg key >>= λ x.
            generate_key des x (reach c (suc k) reg))
    unfolding reach
    last_bit reg key =
        let reg' : Bytes = set_counter_bit reg (2 ^ k) in
        let there : reach c (suc k) reg ≡ reg' =
          ap (λ x. reach c k (if x == 0 then reg else reg')) set ∙ (idle c k reg' key low).1 in
        halved c k reg key
        ∙ take_step c k reg key set
        ∙ ap (λ f. generate_key des key reg' >>= f) (fun_ext (λ ck. (idle c k reg' ck low).0))
        ∙ bind_ok_right (generate_key des key reg')
        ∙ sym (
            ap (λ r. r >>= λ x. generate_key des x (reach c (suc k) reg))
              (halved p k reg key ∙ skip_step p k reg key unset ∙ (idle p k reg key low').0)
            ∙ ap (generate_key des key) there)

    pub walk_parent :
        (m : ℕ) (reg key : Bytes)
        → k < m
        → walk des c m (2 ^ m / 2) reg key
          ≡ (walk des p m (2 ^ m / 2) reg key >>= λ x. generate_key des x (reach c m reg))
    unfolding reach
    walk_parent zero reg key h = elim h [ ]
    walk_parent (suc m) reg key h = elim (dec_lt k m) [
      | no n ↦
          let e : k ≡ m = omega arith in
          subst
            (λ i. walk des c (suc i) (2 ^ suc i / 2) reg key ≡ (
              walk des p (suc i) (2 ^ suc i / 2) reg key >>= λ x.
              generate_key des x (reach c (suc i) reg)))
            e (last_bit reg key)
      | yes lt ↦ elim (bit_value c m) [
        | inl z ↦ halved c m reg key ∙ skip_step c m reg key z ∙ walk_parent m reg key lt ∙ (λ i.
            sym (halved p m reg key ∙ skip_step p m reg key (above m lt ∙ z)) i >>= λ x.
            generate_key des x (sym (reached reg z) i))
        | inr o ↦
            let reg' : Bytes = set_counter_bit reg (2 ^ m) in
            halved c m reg key
            ∙ take_step c m reg key o
            ∙ ap (λ f. generate_key des key reg' >>= f) (fun_ext (λ ck. walk_parent m reg' ck lt))
            ∙ bind_assoc (generate_key des key reg') (λ ck. walk des p m (2 ^ m / 2) reg' ck)
                (λ x. generate_key des x (reach c m reg'))
            ∙ (λ i. sym (halved p m reg key ∙ take_step p m reg key (above m lt ∙ o)) i >>= λ x.
                generate_key des x (sym (reached reg o) i))
      ]
    ]
      where
        reached :
            {d : ℕ} (reg : Bytes)
            → digit c m ≡ d
            → reach c (suc m) reg ≡ reach c m (if d == 0 then reg else set_counter_bit reg (2 ^ m))
        reached reg e = ap (λ x. reach c m (if x == 0 then reg else set_counter_bit reg (2 ^ m))) e

-- The digits of a number that is scaled by a power of two.
twice : (a k : ℕ) → a * 2 ^ suc k ≡ 2 * (a * 2 ^ k)
twice a k = omega (arith, ap (λ (t : ℕ). a * t) (pow-suc 2 k))

scaled_half : (a k : ℕ) → a * 2 ^ suc k / 2 ≡ a * 2 ^ k
scaled_half a k = omega (arith, twice a k)

scaled_low : (a k j : ℕ) → j < k → digit (a * 2 ^ k) j ≡ 0
unfolding digit
scaled_low a zero j h = elim h [ ]
scaled_low a (suc k) zero h = omega (arith, twice a k)
scaled_low a (suc k) (suc j) h =
    ap (λ x. digit x j) (scaled_half a k) ∙ scaled_low a k j (omega arith)

scaled_at : (a k : ℕ) → digit (a * 2 ^ k) k ≡ a % 2
unfolding digit
scaled_at a zero = omega arith
scaled_at a (suc k) = ap (λ x. digit x k) (scaled_half a k) ∙ scaled_at a k

scaled_above : (a b k j : ℕ) → a / 2 ≡ b / 2 → k < j → digit (a * 2 ^ k) j ≡ digit (b * 2 ^ k) j
unfolding digit
scaled_above a b k zero q h = elim h [ ]
scaled_above a b zero (suc j) q h =
    ap (λ x. digit x j) (let e : a * 2 ^ 0 / 2 ≡ b * 2 ^ 0 / 2 = omega arith in e)
scaled_above a b (suc k) (suc j) q h =
    ap (λ x. digit x j) (scaled_half a k)
    ∙ scaled_above a b k j q (omega arith)
    ∙ sym (ap (λ x. digit x j) (scaled_half b k))

-- The register of a serial number with the bits of its counter set, from the highest on.
abbrev pub full_register : Bytes → Bytes
full_register ksn = reach (ksn_counter ksn) 21 (register_base ksn)

session_walk :
    {C : Type 0} (des : Des C) (ipek ksn : Bytes)
    → length ipek ≡ 16
    → length ksn ≡ 10
    → derive_session_key des ipek ksn
      ≡ walk des (ksn_counter ksn) 21 0x100000 (register_base ksn) ipek
unfolding derive_session_key
session_walk des ipek ksn i n =
    let t1 : (length ipek == 16) ≡ true = ground arith in
    let t2 : (length ksn == 10) ≡ true = ground arith in rw (t1, t2) refl

-- Two serial numbers of 10 bytes whose last 8 are the same but for the counter, of which the
-- counter of one is that of the other without its lowest set bit: from an initial key of 16 bytes
-- `DeriveSessionKey` gives a key for each, without an error, and the key of the greater counter
-- is the one that the step of key generation makes, with the register of that counter, of the key
-- of the other.
pub session_key_parent :
    {C : Type 0} (des : Des C) (lib : IsDesLibrary des) (ipek ksn other : Bytes) (q k : ℕ)
    → length ipek ≡ 16
    → length ksn ≡ 10
    → length other ≡ 10
    → k < 21
    → register_base other ≡ register_base ksn
    → ksn_counter ksn ≡ (2 * q + 1) * 2 ^ k
    → ksn_counter other ≡ 2 * q * 2 ^ k
    → (parent key : Bytes) × (derive_session_key des ipek other ≡ ok parent)
      × (generate_key des parent (full_register ksn) ≡ ok key)
      × (derive_session_key des ipek ksn ≡ ok key)
      × (length key ≡ 16)
session_key_parent des lib ipek ksn other q k i n n' h base c p =
    let (key, made, size) = session-IsKey des lib ipek ksn i n in
    let (parent, made', _) = session-IsKey des lib ipek other i n' in
    let walked =
      walk_parent des k (ksn_counter ksn) (ksn_counter other)
        (λ j lt.
          ap (λ x. digit x j) p
          ∙ scaled_above (2 * q) (2 * q + 1) k j (omega arith) lt
          ∙ sym (ap (λ x. digit x j) c))
        (ap (λ x. digit x k) c ∙ scaled_at (2 * q + 1) k ∙ omega arith)
        (ap (λ x. digit x k) p ∙ scaled_at (2 * q) k ∙ omega arith)
        (λ j lt. ap (λ x. digit x j) c ∙ scaled_low (2 * q + 1) k j lt)
        (λ j lt. ap (λ x. digit x j) p ∙ scaled_low (2 * q) k j lt) 21 (register_base ksn) ipek h in
    let parent_walk : walk des (ksn_counter other) 21 0x100000 (register_base ksn) ipek
        ≡ ok parent =
      ap (λ r. walk des (ksn_counter other) 21 0x100000 r ipek) (sym base)
      ∙ sym (session_walk des ipek other i n')
      ∙ made' in
    (
      parent,
      key,
      made',
      sym (ap (λ r. r >>= λ x. generate_key des x (full_register ksn)) parent_walk)
          ∙ sym walked
          ∙ sym (session_walk des ipek ksn i n)
          ∙ made,
      made,
      size,
    )
