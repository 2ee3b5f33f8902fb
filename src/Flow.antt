-- ===== src/Flow.antt =====
-- flow/: transactions in two phases. flow.go, stage.go, exchange.go, and the in-memory
-- journal and idempotency store of journal.go and idempotency.go. Stages are code of the
-- flow's clients, so they are values of the model: what they keep outside the exchange is the
-- `World`. The context is what `ctx.Err()` answers in each round. Timings and log lines are left out.
-- Messages are those of iso8583, with its `Clone`.
pub mod Types
pub mod Calls
pub mod Loop
pub mod Phases
pub mod Replay
pub mod Retry
pub mod Runs
use isopace.Common.{
  ℕ, zero, suc, ◌+◌, Bool, true, false, ◌||◌, Option, none, some, List, [], ◌∷◌, ◌++◌,
}
use isopace.Common.{◌==◌, if◌then◌else◌, Result, ok, err}
use isopace.Engine.Message.{Message, clone}
use isopace.Engine.Types.{Kinds as MessageKinds}
use isopace.Flow.Types.{
  Action, Disposition, Event, Exchange, Flow, FlowError, Kinds, Shared, Stage, State, aborted_error,
  act_continue, act_done, act_skip, cause, commit_failed, done, event_aborted, event_begin,
  event_committed, event_idempotent_hit, no_entry, too_many_stages, unknown_group,
}

-- `emit`, with `MemoryJournal.Record` as the journal.
pub emit : {K : Kinds} → Event K → State K → State K
emit ev s = elim s.journal [
  | none ↦ s
  | some entries ↦ record s {
    journal = some (entries ++ (record { id = s.shared.exchange.id; event = ev } ∷ []));
  }
]

pub resolve : {K : Kinds} → Flow K → ℕ → Result (FlowError K) (List (Stage K))
resolve f name = elim (f.groups name) [ none ↦ err (unknown_group name) | some g ↦ ok g ]

pub append_groups :
    {K : Kinds} → Flow K → List (Stage K) → List ℕ → Result (FlowError K) (List (Stage K))
append_groups f work [] = ok work
append_groups f work (name ∷ names) = elim (f.groups name) [
  | none ↦ err (unknown_group name)
  | some g ↦ append_groups f (work ++ g) names
]

abbrev pub joins : Action → Bool
joins act_continue = true
joins act_skip = false
joins act_done = false

abbrev pub is_done : Action → Bool
is_done act_continue = false
is_done act_skip = false
is_done act_done = true

-- `joined`, `prepErr` and what the stages left when the prepare loop ends.
pub record Prepared (K : Kinds) : Type 0 where
  pub joined : List (Stage K)
  pub failure : Option (FlowError K)
  pub shared : Shared K

-- What a round of the prepare loop comes to: the loop is left, or it goes on with `work[i+1:]`, the
-- stages that have joined, and what the stages share.
pub data Round (K : Kinds) : Type 0 where
  stop : Prepared K → Round K
  go : List (Stage K) → List (Stage K) → Shared K → Round K

-- The end of a round: `halt` tells that the exchange is aborted or the stage is done.
pub routed :
    {K : Kinds} → Bool → Result (FlowError K) (List (Stage K)) → List (Stage K) → Shared K → Round K
routed true work joined sh = stop (record { joined = joined; failure = none; shared = sh })
routed false (err e) joined sh = stop (record { joined = joined; failure = some e; shared = sh })
routed false (ok work) joined sh = go work joined sh

-- A round after `Prepare`.
pub voted :
    {K : Kinds}
    → Flow K
    → Stage K
    → List (Stage K)
    → List (Stage K)
    → Result (FlowError K) Disposition
    → Shared K
    → Round K
unfolding routed append_groups
voted f st work joined (err e) sh = stop (record { joined = joined; failure = some e; shared = sh })
voted f st work joined (ok d) sh =
    let joined' = if joins d.action then joined ++ (st ∷ []) else joined in
    routed (sh.exchange.aborted || is_done d.action) (append_groups f work d.groups) joined' sh

-- A round from the answer of `ctx.Err()` on.
pub round :
    {K : Kinds}
    → Flow K
    → Option (FlowError K)
    → Stage K
    → List (Stage K)
    → List (Stage K)
    → Shared K
    → Round K
unfolding voted
round f (some e) st work joined sh =
    stop (record { joined = joined; failure = some e; shared = sh })
round f none st work joined sh = let (res, sh') = st.prepare sh in voted f st work joined res sh'

-- The prepare loop from round `i` on: `left` is `maxStages - i`, and `work` is `work[i:]`.
pub prepare_loop :
    {K : Kinds}
    → Flow K
    → (ℕ → Option (FlowError K))
    → ℕ
    → ℕ
    → List (Stage K)
    → List (Stage K)
    → Shared K
    → Prepared K
unfolding round
prepare_loop f ctx left i [] joined sh = record { joined = joined; failure = none; shared = sh }
prepare_loop f ctx zero i (st ∷ work) joined sh = record {
  joined = joined;
  failure = some too_many_stages;
  shared = sh;
}
prepare_loop f ctx (suc left) i (st ∷ work) joined sh = elim (round f (ctx i) st work joined sh) [
  | stop p ↦ p
  | go work' joined' sh' ↦ prepare_loop f ctx left (i + 1) work' joined' sh'
]

-- One stage of `commitJoined`, with the error that is collected.
pub commit_stage : {K : Kinds} → Stage K → Shared K → Option K.Cause × Shared K
commit_stage st sh = elim st.commit [ none ↦ (none, sh) | some c ↦ c sh ]

pub commit_joined : {K : Kinds} → List (Stage K) → Shared K → List (ℕ × K.Cause) × Shared K
unfolding commit_stage
commit_joined [] sh = ([], sh)
commit_joined (st ∷ rest) sh =
    let (e, sh') = commit_stage st sh in
    let (es, sh'') = commit_joined rest sh' in
    (elim e [ none ↦ es | some x ↦ (st.name, x) ∷ es ], sh'')

pub abort_stage : {K : Kinds} → Stage K → Shared K → Shared K
abort_stage st sh = elim st.rollback [ none ↦ sh | some a ↦ (a sh).1 ]

-- `abortJoined`: the last stage first. Errors are only logged.
pub abort_joined : {K : Kinds} → List (Stage K) → Shared K → Shared K
unfolding abort_stage
abort_joined [] sh = sh
abort_joined (st ∷ rest) sh = abort_stage st (abort_joined rest sh)

-- The cause for which the transaction is rolled back, if any.
pub abort_cause : {K : Kinds} → Prepared K → Option (FlowError K)
abort_cause p = elim p.failure [
  | some e ↦ some e
  | none ↦
      if p.shared.exchange.aborted
      then elim p.shared.exchange.failure [ none ↦ some aborted_error | some e ↦ some e ]
      else none
]

pub roll_back : {K : Kinds} → FlowError K → Prepared K → State K → Option (FlowError K) × State K
unfolding abort_joined emit
roll_back e p s =
    let ex = record p.shared.exchange { aborted = true; failure = some e } in
    let sh = abort_joined p.joined (record p.shared { exchange = ex }) in
    (some e, emit (record { kind = event_aborted; failure = some e }) (record s { shared = sh }))

-- `errors.Join`
pub join_errors : {K : Kinds} → List (ℕ × K.Cause) → Option (FlowError K)
join_errors [] = none
join_errors (e ∷ es) = some (commit_failed (e ∷ es))

-- `resp.Clone()` where `resp` is not nil.
abbrev pub cloned : {J : MessageKinds} → Option (Message J) → Option (Message J)
cloned none = none
cloned (some m) = some (clone m)

-- `MemoryStore.Store`
pub store_response : {K : Kinds} → Option ℕ → Option (FlowError K) → State K → State K
store_response none e s = s
store_response (some k) (some e) s = s
store_response (some k) none s = record s {
  store = λ n. if n == k then some (cloned s.shared.exchange.response) else s.store n;
}

pub commit_all : {K : Kinds} → Option ℕ → Prepared K → State K → Option (FlowError K) × State K
unfolding commit_joined emit join_errors store_response
commit_all key p s =
    let (es, sh) = commit_joined p.joined p.shared in
    let e = join_errors es in
    let s' = emit (record { kind = event_committed; failure = none }) (record s { shared = sh }) in
    (e, store_response key e s')

-- `Run` from the `EventBegin` on.
pub transact :
    {K : Kinds}
    → Flow K
    → (ℕ → Option (FlowError K))
    → Option ℕ
    → List (Stage K)
    → State K
    → Option (FlowError K) × State K
unfolding emit prepare_loop abort_cause roll_back commit_all
transact f ctx key stages s =
    let begun = emit (record { kind = event_begin; failure = none }) s in
    let p = prepare_loop f ctx f.max_stages 0 stages [] begun.shared in
    elim (abort_cause p) [ some e ↦ roll_back e p begun | none ↦ commit_all key p begun ]

-- The key under which the exchange is idempotent.
pub key_of : {K : Kinds} → Flow K → Exchange K → Option ℕ
key_of f ex = elim f.idem_key [ none ↦ none | some key ↦ key ex ]

-- `MemoryStore.Lookup`
pub lookup : {K : Kinds} → Option ℕ → State K → Option (Option (Message K.Codecs))
lookup none s = none
lookup (some k) s = elim (s.store k) [ none ↦ none | some resp ↦ some (cloned resp) ]

-- The duplicate request is answered with the stored response.
pub replay_response : {K : Kinds} → Option (Message K.Codecs) → State K → State K
unfolding emit
replay_response resp s =
    let sh = record s.shared { exchange = record s.shared.exchange { response = resp } } in
    emit (record { kind = event_idempotent_hit; failure = none }) (record s { shared = sh })

pub run :
    {K : Kinds} → Flow K → (ℕ → Option (FlowError K)) → State K → Option (FlowError K) × State K
unfolding resolve key_of lookup replay_response transact
run f ctx s = elim f.entry [
  | none ↦ (some no_entry, s)
  | some entry ↦ elim (resolve f entry) [
    | err e ↦ (some e, s)
    | ok stages ↦
        let key = key_of f s.shared.exchange in
        elim (lookup key s) [
          | some resp ↦ (none, replay_response resp s)
          | none ↦ transact f ctx key stages s
        ]
  ]
]
