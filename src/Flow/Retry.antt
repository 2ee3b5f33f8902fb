-- ===== src/Flow/Retry.antt =====
-- flow/retry.go: a stage whose `Prepare` is tried again. The wait for the backoff is what `select`
-- answers after an attempt: `none` when the timer fires, the context's error when it is done.
use isopace.Common.{
  ℕ, zero, suc, ◌+◌, ◌-◌, ◌≤◌, ◌≡◌, refl, ◌∙◌, Bool, true, false, ◌||◌, not, Option, none, some,
  arith, ◌⊎◌, inl, inr,
}
use isopace.Common.{Result, ok, err, if◌then◌else◌, ◌==◌}
use isopace.Flow.Types.{Kinds, Stage, Shared, FlowError, Disposition}

-- `RetryPolicy`: a number of attempts that is not positive is 0, a nil function `none`. The delay itself has no
-- counterpart.
pub record RetryPolicy (K : Kinds) : Type 0 where
  pub max_attempts : ℕ
  pub retryable : Option (FlowError K → Bool)

abbrev pub default_retry_policy : {K : Kinds} → RetryPolicy K
default_retry_policy = record { max_attempts = 3; retryable = some (λ _. true) }

abbrev pub normalised : {K : Kinds} → RetryPolicy K → RetryPolicy K
normalised p = record {
  max_attempts = if p.max_attempts == 0 then 3 else p.max_attempts;
  retryable = elim p.retryable [ none ↦ some (λ _. true) | some t ↦ some t ];
}

-- `p.Retryable`, which is set in a normalised policy.
abbrev pub is_retryable : {K : Kinds} → RetryPolicy K → FlowError K → Bool
is_retryable p e = elim p.retryable [ none ↦ true | some t ↦ t e ]

abbrev Outcome : Kinds → Type 0
Outcome K = Result (FlowError K) Disposition × Shared K

-- The attempt's outcome is returned, and no other attempt is made.
unfoldable pub is_final : {K : Kinds} → RetryPolicy K → Outcome K → Bool
is_final p (ok d, sh) = true
is_final p (err e, sh) = sh.exchange.aborted || not (is_retryable p e)

-- The loop from an attempt on, with `left` attempts to go after it.
pub attempts :
    {K : Kinds}
    → Stage K
    → RetryPolicy K
    → (ℕ → Option (FlowError K))
    → ℕ
    → ℕ
    → Shared K
    → Outcome K
unfolding is_final
attempts inner p wait zero attempt sh = inner.prepare sh
attempts inner p wait (suc left) attempt sh =
    let out = inner.prepare sh in
    elim (is_final p out) [
      | true ↦ out
      | false ↦ elim (wait attempt) [
        | some e ↦ (err e, out.1)
        | none ↦ attempts inner p wait left (attempt + 1) out.1
      ]
    ]

-- `retryStage.Prepare`
pub retry_prepare :
    {K : Kinds} → Stage K → RetryPolicy K → (ℕ → Option (FlowError K)) → Shared K → Outcome K
unfolding attempts
retry_prepare inner p wait = attempts inner p wait (p.max_attempts - 1) 1

-- `Retry`: the second phase is the inner stage's.
pub retry : {K : Kinds} → Stage K → RetryPolicy K → (ℕ → Option (FlowError K)) → Stage K
unfolding retry_prepare
retry inner policy wait = record {
  name = inner.name;
  prepare = retry_prepare inner (normalised policy) wait;
  commit = inner.commit;
  rollback = inner.rollback;
}

-- What the stages share before the attempt that comes after `k` attempts.
pub before_attempt : {K : Kinds} → Stage K → ℕ → Shared K → Shared K
before_attempt inner zero sh = sh
before_attempt inner (suc k) sh = before_attempt inner k (inner.prepare sh).1

module _ {K : Kinds} (inner : Stage K) (p : RetryPolicy K) (wait : ℕ → Option (FlowError K)) where
  -- None of the first `k` attempts is final.
  unfoldable pub Transient : ℕ → Shared K → Type 0
  Transient zero sh = Unit
  Transient (suc k) sh = (is_final p (inner.prepare sh) ≡ false) × Transient k (inner.prepare sh).1

  attempts-final :
      (left attempt : ℕ) (sh : Shared K)
      → is_final p (inner.prepare sh) ≡ true
      → attempts inner p wait left attempt sh ≡ inner.prepare sh
  unfolding attempts
  attempts-final zero attempt sh e = refl
  attempts-final (suc left) attempt sh e = rw (attempts, e) refl

  attempts-next :
      (left attempt : ℕ) (sh : Shared K)
      → is_final p (inner.prepare sh) ≡ false
      → wait attempt ≡ none
      → attempts inner p wait (suc left) attempt sh
        ≡ attempts inner p wait left (attempt + 1) (inner.prepare sh).1
  unfolding attempts
  attempts-next left attempt sh e w = rw (attempts, e, w) refl

  attempts-Transient :
      (k left attempt : ℕ) (sh : Shared K)
      → ((i : ℕ) → wait i ≡ none)
      → Transient k sh
      → (k ≡ left) ⊎ ((k ≤ left) × (is_final p (inner.prepare (before_attempt inner k sh)) ≡ true))
      → attempts inner p wait left attempt sh ≡ inner.prepare (before_attempt inner k sh)
  unfolding Transient before_attempt
  attempts-Transient zero left attempt sh w t (inl e) = rw⁻¹ e (unfold attempts in refl)
  attempts-Transient zero left attempt sh w t (inr (h, e)) = attempts-final left attempt sh e
  attempts-Transient (suc k) zero attempt sh w t (inl e) = absurd (omega (arith, e))
  attempts-Transient (suc k) zero attempt sh w t (inr (h, e)) = absurd (omega arith)
  attempts-Transient (suc k) (suc left) attempt sh w (t, ts) (inl e) =
      attempts-next left attempt sh t (w attempt)
      ∙ attempts-Transient k left (attempt + 1) (inner.prepare sh).1 w ts (inl (omega (arith, e)))
  attempts-Transient (suc k) (suc left) attempt sh w (t, ts) (inr (h, e)) =
      attempts-next left attempt sh t (w attempt)
      ∙ attempts-Transient k left (attempt + 1) (inner.prepare sh).1 w ts (inr (omega arith, e))

-- When the timers fire and the first `k` attempts fail in a way that may be retried, the retried
-- stage gives the outcome of the attempt after them, which is the stage's own where the first `k`
-- attempts left the exchange, if that attempt is final or the last one that the policy allows.
pub retry-Transient :
    {K : Kinds} (inner : Stage K) (policy : RetryPolicy K) (wait : ℕ → Option (FlowError K)) (k : ℕ)
    (sh : Shared K)
    → ((i : ℕ) → wait i ≡ none)
    → Transient inner (normalised policy) wait k sh
    → (suc k ≡ (normalised policy).max_attempts)
      ⊎ ((suc k ≤ (normalised policy).max_attempts)
          × (is_final (normalised policy) (inner.prepare (before_attempt inner k sh)) ≡ true))
    → (retry inner policy wait).prepare sh ≡ inner.prepare (before_attempt inner k sh)
unfolding retry retry_prepare
retry-Transient inner policy wait k sh w t (inl e) =
    attempts-Transient inner (normalised policy) wait k _ 1 sh w t (inl (omega (arith, e)))
retry-Transient inner policy wait k sh w t (inr (h, e)) =
    attempts-Transient inner (normalised policy) wait k _ 1 sh w t (inr (omega (arith, h), e))
