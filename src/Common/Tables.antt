-- ===== src/Common/Tables.antt =====
-- Tables of the source, as functions: Go maps with string keys, and goroutines by number.
use isopace.Common.{
  ℕ, ◌≡◌, ◌⊎◌, refl, inl, inr, false, Bytes, eq_bytes, eq_bytes_refl, eq_bytes_iff, ◌==◌, ==_refl,
  Bool-cases, if◌then◌else◌, arith,
}

-- An assignment to, or the deletion of, the entry of a Go map with string keys.
abbrev pub assign_key : {A : Type 0} → (Bytes → A) → Bytes → A → Bytes → A
assign_key f k a j = if eq_bytes j k then a else f j

abbrev pub assign : {A : Type 0} → (ℕ → A) → ℕ → A → ℕ → A
assign f i a j = if j == i then a else f j

pub assign_key_same : {A : Type 0} (f : Bytes → A) (k : Bytes) (a : A) → assign_key f k a k ≡ a
assign_key_same f k a = rw (eq_bytes_refl k) refl

pub assign_key-cases :
    {A : Type 0} (f : Bytes → A) (k : Bytes) (a : A) (j : Bytes)
    → ((j ≡ k) × (assign_key f k a j ≡ a)) ⊎ ((eq_bytes j k ≡ false) × (assign_key f k a j ≡ f j))
assign_key-cases f k a j = elim (Bool-cases (eq_bytes j k)) [
  | inl e ↦ inl ((eq_bytes_iff j k).0 e, rw e refl)
  | inr e ↦ inr (e, rw e refl)
]

pub assign_same : {A : Type 0} (f : ℕ → A) (i : ℕ) (a : A) → assign f i a i ≡ a
assign_same f i a = rw (==_refl i) refl

pub assign-cases :
    {A : Type 0} (f : ℕ → A) (i : ℕ) (a : A) (j : ℕ)
    → ((j ≡ i) × (assign f i a j ≡ a)) ⊎ (((j == i) ≡ false) × (assign f i a j ≡ f j))
assign-cases f i a j = elim (Bool-cases (j == i)) [
  | inl e ↦ inl (ground arith, rw e refl)
  | inr e ↦ inr (e, rw e refl)
]
