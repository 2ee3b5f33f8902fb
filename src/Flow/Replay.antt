-- ===== src/Flow/Replay.antt =====
-- A duplicate of a committed request is answered from the idempotency store.
use isopace.Common.{ℕ, ◌≡◌, ◌≢◌, refl, sym, ap, ◌∙◌, inl, inr, Option, none, some, List, arith, []}
use isopace.Common.{Option-cases, some_injective}
use isopace.Flow.{
  Prepared, emit, roll_back, commit_all, store_response, transact, replay_response, run, key_of,
  lookup, prepare_loop, abort_cause, cloned,
}
use isopace.Engine.Message.{Message, clone}
use isopace.Engine.Types.{Kinds as MessageKinds}
use isopace.Flow.Types.{
  Kinds, Flow, Stage, State, Event, FlowError, event_begin, event_idempotent_hit, Shared,
}
use isopace.Flow.Phases.{emit-shared, run-replay, run-transact}
use mathlib.Core.Path.{subst}

emit-store : {K : Kinds} (ev : Event K) (s : State K) → (emit ev s).store ≡ s.store
unfolding emit
emit-store ev s = elim (Option-cases s.journal) [
  | inl q ↦ rw (emit, q) refl
  | inr (es, q) ↦ rw (emit, q) refl
]

-- Cloning twice is cloning once.
cloned_twice : {J : MessageKinds} (resp : Option (Message J)) → cloned (cloned resp) ≡ cloned resp
unfolding clone
cloned_twice none = refl
cloned_twice (some m) = refl

-- What is found under the key is a clone of the response of the exchange.
abbrev Stored : {K : Kinds} → ℕ → State K → Type 0
Stored k s = lookup (some k) s ≡ some (cloned s.shared.exchange.response)

stored_some :
    {K : Kinds} (k : ℕ) (s : State K) (resp : Option (Message K.Codecs))
    → s.store k ≡ some resp
    → lookup (some k) s ≡ some (cloned resp)
unfolding lookup
stored_some k s resp q = rw (lookup, q) refl

some_ne_none : {A : Type 0} {a : A} → some a ≢ none
some_ne_none h = cc

store_response-Stored :
    {K : Kinds} (k : ℕ) (e : Option (FlowError K)) (s : State K)
    → e ≡ none
    → Stored k (store_response (some k) e s)
unfolding store_response
store_response-Stored k none s q =
    let r = s.shared.exchange.response in
    stored_some k (store_response (some k) none s) (cloned r) (ground arith)
    ∙ ap (λ x. some x) (cloned_twice r)
store_response-Stored k (some e) s q = absurd (some_ne_none q)

module _ {K : Kinds} (k : ℕ) where
  finish-Stored :
      (c : Option (FlowError K)) (p : Prepared K) (s : State K)
      → (let r : Option (FlowError K) × State K = elim c [
        | some e ↦ roll_back e p s
        | none ↦ commit_all (some k) p s
      ] in
          r.0 ≡ none → Stored k r.1)
  unfolding roll_back commit_all
  finish-Stored (some e) p s q = absurd (some_ne_none q)
  finish-Stored none p s q = store_response-Stored k _ _ q

  transact-Stored :
      (f : Flow K) (ctx : ℕ → Option (FlowError K)) (stages : List (Stage K)) (s : State K)
      → (transact f ctx (some k) stages s).0 ≡ none
      → Stored k (transact f ctx (some k) stages s).1
  unfolding transact
  transact-Stored f ctx stages s q =
      let begun = emit (record { kind = event_begin; failure = none }) s in
      let p = prepare_loop f ctx f.max_stages 0 stages [] begun.shared in
      finish-Stored (abort_cause p) p begun q

  replay_response-Stored :
      (resp : Option (Message K.Codecs)) (s : State K)
      → lookup (some k) s ≡ some resp
      → cloned resp ≡ resp
      → Stored k (replay_response resp s)
  unfolding replay_response lookup
  replay_response-Stored resp s q same =
      let ev : Event K = record { kind = event_idempotent_hit; failure = none } in
      let sh : Shared K = record s.shared {
        exchange = record s.shared.exchange { response = resp };
      } in
      let t : State K = record s { shared = sh } in
      ap (λ st. elim (st k) [ none ↦ none | some x ↦ some (cloned x) ]) (emit-store ev t)
      ∙ q
      ∙ ap (λ x. some x) (sym same)
      ∙ ap (λ x. some (cloned x.exchange.response)) (sym (emit-shared ev t))

  -- What is found is a clone.
  found_cloned :
      (s : State K) (resp : Option (Message K.Codecs))
      → lookup (some k) s ≡ some resp
      → cloned resp ≡ resp
  unfolding lookup
  found_cloned s resp l = elim (Option-cases (s.store k)) [
    | inl q ↦ absurd (some_ne_none (sym l ∙ rw (lookup, q) refl))
    | inr (m, q) ↦
        let e : cloned m ≡ resp = some_injective (sym (stored_some k s m q) ∙ l) in
        ap cloned (sym e) ∙ cloned_twice m ∙ e
  ]

  module _ (f : Flow K) (n : ℕ) (stages : List (Stage K)) (entry : f.entry ≡ some n)
      (group_of : f.groups n ≡ some stages) where
    -- A run that returns no error leaves its response in the store.
    pub run-Stored :
        (ctx : ℕ → Option (FlowError K)) (s : State K)
        → key_of f s.shared.exchange ≡ some k
        → (run f ctx s).0 ≡ none
        → Stored k (run f ctx s).1
    run-Stored ctx s key q = elim (Option-cases (lookup (some k) s)) [
      | inl l ↦
          let e =
            run-transact f ctx s n stages entry group_of (ap (λ o. lookup o s) key ∙ l)
            ∙ ap (λ o. transact f ctx o stages s) key in
          subst (λ r. Stored k r.1) (sym e)
            (transact-Stored f ctx stages s (ap (λ r. r.0) (sym e) ∙ q))
      | inr (resp, l) ↦
          let e = run-replay f ctx s n stages resp entry group_of (ap (λ o. lookup o s) key ∙ l) in
          subst (λ r. Stored k r.1) (sym e)
            (replay_response-Stored resp s l (found_cloned s resp l))
    ]

    -- When a request with an idempotency key has been processed without an error, every later
    -- request with that key that finds the store as it was left is answered with a clone of the
    -- response of the first, whether that was made by the stages or replayed itself, and nothing
    -- else changes but the journal: the stages are not called again.
    pub run-again :
        (ctx : ℕ → Option (FlowError K)) (s : State K) (later : ℕ → Option (FlowError K))
        (t : State K)
        → key_of f s.shared.exchange ≡ some k
        → (run f ctx s).0 ≡ none
        → key_of f t.shared.exchange ≡ some k
        → t.store ≡ (run f ctx s).1.store
        → run f later t
          ≡ (none, replay_response (cloned (run f ctx s).1.shared.exchange.response) t)
    unfolding lookup
    run-again ctx s later t key q key' same =
        let found : lookup (some k) t ≡ lookup (some k) (run f ctx s).1 =
          ap (λ st. elim (st k) [ none ↦ none | some x ↦ some (cloned x) ]) same in
        run-replay f later t n stages _ entry group_of
          (ap (λ o. lookup o t) key' ∙ found ∙ run-Stored ctx s key q)
