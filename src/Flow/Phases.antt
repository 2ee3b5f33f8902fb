-- ===== src/Flow/Phases.antt =====
-- The two phases of `Run`.
use isopace.Common.{
  ◌⊎◌, true, false, arith, ℕ, ◌≤◌, ◌≡◌, refl, sym, ap, ◌∙◌, inl, inr, Option, none, some, List, [],
  ◌++◌, append_assoc,
}
use isopace.Common.{length, Option-cases}
use isopace.Flow.{
  Prepared, prepare_loop, emit, resolve, roll_back, commit_all, store_response, abort_cause,
  transact, replay_response, run, key_of, lookup, join_errors, commit_joined,
}
use isopace.Engine.Message.{Message}
use isopace.Flow.Types.{
  no_entry, unknown_group, event_begin, aborted_error, Exchange, Shared, Kinds, Flow, Stage, State,
  Event, FlowError,
}
use isopace.Flow.Calls.{
  Call, calls_of, calls_back, commit_calls, abort_calls, AllLogged, commit_joined-calls,
  abort_joined-calls,
}
use isopace.Flow.Loop.{prepare_calls, GroupsLogged, Pass, Sweep, prepare_loop-Sweep}
use mathlib.Core.Path.{subst}

-- Why a run calls no stage: there is nothing to start with, or the response was stored.
pub data NotStarted {K : Kinds} (f : Flow K) (s : State K) : Option (FlowError K) → Type 0 where
  no_start : f.entry ≡ none → NotStarted f s (some no_entry)
  unknown_start :
      (n : ℕ) → f.entry ≡ some n → f.groups n ≡ none → NotStarted f s (some (unknown_group n))
  duplicate :
      (resp : Option (Message K.Codecs))
      → lookup (key_of f s.shared.exchange) s ≡ some resp
      → NotStarted f s none

-- Why a transaction is rolled back with `e`: the prepare loop ended with it, or the exchange was
-- aborted, for that cause or none.
abbrev Undone : {K : Kinds} → Option (FlowError K) → Exchange K → FlowError K → Type 0
Undone o ex e =
    (o ≡ some e)
    ⊎ ((o ≡ none)
        × (ex.aborted ≡ true)
        × ((ex.failure ≡ some e) ⊎ ((ex.failure ≡ none) × (e ≡ aborted_error))))

-- The world after a run, by its log: `ps` are the stages that were prepared, `js` those of them
-- that joined.
pub data TwoPhase {K : Kinds} (log : K.World → List Call) (f : Flow K)
    (ctx : ℕ → Option (FlowError K)) (s : State K) (after : K.World)
    : Option (FlowError K) → Type 0 where
  untouched :
      (e : Option (FlowError K))
      → NotStarted f s e
      → after ≡ s.shared.world
      → TwoPhase log f ctx s after e
  committed :
      (e : Option (FlowError K)) (ps js : List (Stage K)) (sh : Shared K)
      → lookup (key_of f s.shared.exchange) s ≡ none
      → Pass f ctx f.max_stages s.shared ps js sh none
      → sh.exchange.aborted ≡ false
      → e ≡ join_errors (commit_joined js sh).0
      → length ps ≤ f.max_stages
      → log after ≡ log s.shared.world ++ (calls_of prepare_calls ps ++ calls_of commit_calls js)
      → TwoPhase log f ctx s after e
  rolled_back :
      (e : FlowError K) (ps js : List (Stage K)) (sh : Shared K) (o : Option (FlowError K))
      → lookup (key_of f s.shared.exchange) s ≡ none
      → Pass f ctx f.max_stages s.shared ps js sh o
      → Undone o sh.exchange e
      → length ps ≤ f.max_stages
      → log after ≡ log s.shared.world ++ (calls_of prepare_calls ps ++ calls_back abort_calls js)
      → TwoPhase log f ctx s after (some e)

-- What the cause tells of the prepare loop.
module _ {K : Kinds} (p : Prepared K) where
  abort_cause-none : abort_cause p ≡ none → (p.failure ≡ none) × (p.shared.exchange.aborted ≡ false)
  unfolding abort_cause
  abort_cause-none h = ground arith

  abort_cause-some :
      (e : FlowError K) → abort_cause p ≡ some e → Undone p.failure p.shared.exchange e
  unfolding abort_cause
  abort_cause-some e h = ground arith

pub emit-shared : {K : Kinds} (ev : Event K) (s : State K) → (emit ev s).shared ≡ s.shared
unfolding emit
emit-shared ev s = elim (Option-cases s.journal) [
  | inl q ↦ rw (emit, q) refl
  | inr (es, q) ↦ rw (emit, q) refl
]

pub store_response-shared :
    {K : Kinds} (key : Option ℕ) (e : Option (FlowError K)) (s : State K)
    → (store_response key e s).shared ≡ s.shared
unfolding store_response
store_response-shared none e s = refl
store_response-shared (some k) none s = refl
store_response-shared (some k) (some e) s = refl

-- From the state `s` that a run is called with, and `t` after its first event.
module _ {K : Kinds} (log : K.World → List Call) (f : Flow K) (ctx : ℕ → Option (FlowError K))
    (s t : State K) (p : Prepared K) (fresh : lookup (key_of f s.shared.exchange) s ≡ none)
    (begun : t.shared ≡ s.shared) (sweep : Sweep log f ctx f.max_stages [] t.shared p) where
  whole-Pass : Pass f ctx f.max_stages s.shared sweep.prepared p.joined p.shared p.failure
  whole-Pass =
      subst (λ sh. Pass f ctx f.max_stages sh sweep.prepared p.joined p.shared p.failure) begun
        (subst (λ js. Pass f ctx f.max_stages t.shared sweep.prepared js p.shared p.failure)
          (sym sweep.joined_eq) sweep.pass)

  joined_logs : AllLogged log p.joined
  joined_logs = subst (AllLogged log) (sym sweep.joined_eq) sweep.added_logs

  -- What the second phase adds to the log.
  both_phases :
      {after : K.World} (more : List Call)
      → log after ≡ log p.shared.world ++ more
      → log after ≡ log s.shared.world ++ (calls_of prepare_calls sweep.prepared ++ more)
  both_phases more e =
      e
      ∙ ap (λ l. l ++ more) sweep.calls_eq
      ∙ append_assoc (log t.shared.world) _ _
      ∙ ap (λ sh. log sh.world ++ (calls_of prepare_calls sweep.prepared ++ more)) begun

  commit_all-phases :
      (key : Option ℕ)
      → abort_cause p ≡ none
      → TwoPhase log f ctx s (commit_all key p t).1.shared.world (commit_all key p t).0
  unfolding commit_all
  commit_all-phases key q =
      let (fine, alive) = abort_cause-none p q in
      committed _ sweep.prepared p.joined p.shared fresh
        (subst (λ o. Pass f ctx f.max_stages s.shared sweep.prepared p.joined p.shared o) fine
          whole-Pass)
        alive refl sweep.bound
        (both_phases (calls_of commit_calls p.joined) (
          ap (λ sh. log sh.world) (store_response-shared key _ _ ∙ emit-shared _ _)
          ∙ commit_joined-calls log p.joined p.shared joined_logs))

  roll_back-phases :
      (e : FlowError K)
      → abort_cause p ≡ some e
      → TwoPhase log f ctx s (roll_back e p t).1.shared.world (roll_back e p t).0
  unfolding roll_back
  roll_back-phases e q =
      rolled_back e sweep.prepared p.joined p.shared p.failure fresh whole-Pass
        (abort_cause-some p e q) sweep.bound
        (both_phases (calls_back abort_calls p.joined) (
          ap (λ sh. log sh.world) (emit-shared _ _)
          ∙ abort_joined-calls log p.joined _ joined_logs))

  finish_phases :
      (c : Option (FlowError K)) (key : Option ℕ)
      → abort_cause p ≡ c
      → (let r : Option (FlowError K) × State K = elim c [
        | some e ↦ roll_back e p t
        | none ↦ commit_all key p t
      ] in
          TwoPhase log f ctx s r.1.shared.world r.0)
  finish_phases none key q = commit_all-phases key q
  finish_phases (some e) key q = roll_back-phases e q

module _ {K : Kinds} (f : Flow K) (ctx : ℕ → Option (FlowError K)) (s : State K) where
  -- The branches of `run`.
  run-no_entry : f.entry ≡ none → run f ctx s ≡ (some no_entry, s)
  unfolding run
  run-no_entry q = rw (run, q) refl

  run-unknown_group :
      (n : ℕ) → f.entry ≡ some n → f.groups n ≡ none → run f ctx s ≡ (some (unknown_group n), s)
  unfolding run resolve
  run-unknown_group n q g = rw (run, q, g) refl

  pub run-replay :
      (n : ℕ) (stages : List (Stage K)) (resp : Option (Message K.Codecs))
      → f.entry ≡ some n
      → f.groups n ≡ some stages
      → lookup (key_of f s.shared.exchange) s ≡ some resp
      → run f ctx s ≡ (none, replay_response resp s)
  unfolding run resolve
  run-replay n stages resp q g l = rw (run, q, g, l) refl

  pub run-transact :
      (n : ℕ) (stages : List (Stage K))
      → f.entry ≡ some n
      → f.groups n ≡ some stages
      → lookup (key_of f s.shared.exchange) s ≡ none
      → run f ctx s ≡ transact f ctx (key_of f s.shared.exchange) stages s
  unfolding run resolve
  run-transact n stages q g l = rw (run, q, g, l) refl

  replay_response-world :
      (resp : Option (Message K.Codecs)) → (replay_response resp s).shared.world ≡ s.shared.world
  unfolding replay_response
  replay_response-world resp = ap (λ sh. sh.world) (emit-shared _ _)

module _ {K : Kinds} (log : K.World → List Call) (f : Flow K) (ctx : ℕ → Option (FlowError K))
    (s : State K) where
  transact-phases :
      (key : Option ℕ) (stages : List (Stage K))
      → GroupsLogged log f
      → AllLogged log stages
      → lookup (key_of f s.shared.exchange) s ≡ none
      → TwoPhase log f ctx s
          (transact f ctx key stages s).1.shared.world
          (transact f ctx key stages s).0
  unfolding transact
  transact-phases key stages h k fresh =
      let ev : Event K = record { kind = event_begin; failure = none } in
      let begun = emit ev s in
      let p = prepare_loop f ctx f.max_stages 0 stages [] begun.shared in
      finish_phases log f ctx s begun p fresh (emit-shared ev s)
        (prepare_loop-Sweep log f ctx h f.max_stages 0 stages [] begun.shared k) (abort_cause p) key
        refl

  -- What a run calls, whatever its outcome, when the stages of every group log their calls.
  -- Nothing, with the error that says so when there is no entry group, and with no error when the
  -- response to the key is stored. Or else it prepares at most `max_stages` stages, of which those
  -- join that answer `Continue`; none is prepared after one that fails or is done or leaves the
  -- exchange aborted. If none failed, no fault came up and the exchange is not aborted, it then
  -- commits those that joined, in prepare order, and returns their errors. Otherwise it aborts
  -- those that joined, the last one first, and returns the cause.
  pub run-TwoPhase :
      GroupsLogged log f → TwoPhase log f ctx s (run f ctx s).1.shared.world (run f ctx s).0
  run-TwoPhase h =
      let Fits : Option (FlowError K) × State K → Type 0 =
        (λ r. TwoPhase log f ctx s r.1.shared.world r.0) in
      elim (Option-cases f.entry) [
        | inl q ↦ subst Fits (sym (run-no_entry f ctx s q)) (untouched _ (no_start q) refl)
        | inr (n, q) ↦ elim (Option-cases (f.groups n)) [
          | inl g ↦
              subst Fits (sym (run-unknown_group f ctx s n q g))
                (untouched _ (unknown_start n q g) refl)
          | inr (stages, g) ↦ elim (Option-cases (lookup (key_of f s.shared.exchange) s)) [
            | inl l ↦
                subst Fits (sym (run-transact f ctx s n stages q g l)) (
                  transact-phases (key_of f s.shared.exchange) stages h (h.group_logs n stages g) l)
            | inr (resp, l) ↦
                subst Fits (sym (run-replay f ctx s n stages resp q g l))
                  (untouched none (duplicate resp l) (replay_response-world f ctx s resp))
          ]
        ]
      ]
