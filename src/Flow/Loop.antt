-- ===== src/Flow/Loop.antt =====
-- What the prepare loop calls, and which stages it joins.
use isopace.Common.{
  ℕ, zero, suc, ◌+◌, ◌≤◌, ◌≡◌, ◌≢◌, ◌||◌, refl, sym, ap, ◌∙◌, ◌⊎◌, inl, inr, Bool, true, false,
  Option, none, some, List, [], ◌∷◌, ◌++◌, arith, append-nil, append_assoc,
}
use isopace.Common.{
  ok, err, Result, length, if◌then◌else◌, Option-cases, ok_injective, err_injective, err_ne_ok,
}
use mathlib.Core.Path.{subst}
use isopace.Flow.{
  Prepared, Round, stop, go, round, voted, routed, prepare_loop, append_groups, joins, is_done,
}
use isopace.Flow.Types.{
  Kinds, Flow, Stage, Shared, FlowError, Disposition, Action, act_continue, act_skip, act_done,
  unknown_group, too_many_stages,
}
use isopace.Flow.Calls.{Call, prepare_call, calls_of, IsLogged, AllLogged, AllLogged-append}

abbrev pub prepare_calls : {K : Kinds} → Stage K → List Call
prepare_calls st = prepare_call st.name ∷ []

-- Every group of the flow is of stages that log their calls.
pub record GroupsLogged {K : Kinds} (log : K.World → List Call) (f : Flow K) : Type 0 where
  pub group_logs : (n : ℕ) (g : List (Stage K)) → f.groups n ≡ some g → AllLogged log g

-- What ends the prepare loop between two stages: the context, or a route to no group.
pub data Fault {K : Kinds} (f : Flow K) (ctx : ℕ → Option (FlowError K))
    : FlowError K → Type 0 where
  cancelled : (i : ℕ) {e : FlowError K} → ctx i ≡ some e → Fault f ctx e
  unknown : (n : ℕ) {e : FlowError K} → f.groups n ≡ none → e ≡ unknown_group n → Fault f ctx e

-- After this answer further stages are prepared only if the exchange is not aborted and the stage
-- is not done.
abbrev pub Goes : {K : Kinds} → Disposition → Shared K → List (Stage K) → Type 0
Goes d sh later = (later ≡ []) ⊎ ((sh.exchange.aborted ≡ false) × (d.action ≢ act_done))

-- With room for `left` stages: from `sh` the stages `ps` are prepared in their order, and those
-- whose answer is `Continue` join, `js`; the exchange comes to `sh'`, and the last index is the
-- error for which it ends, if any.
pub data Pass {K : Kinds} (f : Flow K) (ctx : ℕ → Option (FlowError K))
    : ℕ
      → Shared K
      → List (Stage K)
      → List (Stage K)
      → Shared K
      → Option (FlowError K)
      → Type 0 where
  ends : {left : ℕ} {sh : Shared K} → Pass f ctx left sh [] [] sh none
  faults :
      {left : ℕ} {sh : Shared K} {e : FlowError K}
      → Fault f ctx e
      → Pass f ctx left sh [] [] sh (some e)
  over_limit : {sh : Shared K} → Pass f ctx 0 sh [] [] sh (some too_many_stages)
  refuses :
      {left : ℕ} {sh : Shared K} {e : FlowError K} (st : Stage K)
      → (st.prepare sh).0 ≡ err e
      → Pass f ctx (suc left) sh (st ∷ []) [] (st.prepare sh).1 (some e)
  takes_part :
      {left : ℕ} {sh sh' : Shared K} {o : Option (FlowError K)} {ps js : List (Stage K)}
      (st : Stage K) (d : Disposition)
      → (st.prepare sh).0 ≡ ok d
      → d.action ≡ act_continue
      → Goes d (st.prepare sh).1 ps
      → Pass f ctx left (st.prepare sh).1 ps js sh' o
      → Pass f ctx (suc left) sh (st ∷ ps) (st ∷ js) sh' o
  stays_out :
      {left : ℕ} {sh sh' : Shared K} {o : Option (FlowError K)} {ps js : List (Stage K)}
      (st : Stage K) (d : Disposition)
      → (st.prepare sh).0 ≡ ok d
      → d.action ≢ act_continue
      → Goes d (st.prepare sh).1 ps
      → Pass f ctx left (st.prepare sh).1 ps js sh' o
      → Pass f ctx (suc left) sh (st ∷ ps) js sh' o

-- From `joined` and `sh`, at most `left` stages are prepared, in order; those that answer
-- `Continue` join, in order.
pub record Sweep {K : Kinds} (log : K.World → List Call) (f : Flow K)
    (ctx : ℕ → Option (FlowError K)) (left : ℕ) (joined : List (Stage K)) (sh : Shared K)
    (p : Prepared K) : Type 0 where
  pub prepared : List (Stage K)
  pub added : List (Stage K)
  pub joined_eq : p.joined ≡ joined ++ added
  pub added_logs : AllLogged log added
  pub calls_eq : log p.shared.world ≡ log sh.world ++ calls_of prepare_calls prepared
  pub bound : length prepared ≤ left
  pub pass : Pass f ctx left sh prepared added p.shared p.failure

-- The answer of a stage, and what has joined after it.
abbrev Answers :
    {K : Kinds} → Stage K → Shared K → Disposition → List (Stage K) → List (Stage K) → Type 0
Answers st sh d joined joined' =
    ((st.prepare sh).0 ≡ ok d)
    × (((d.action ≢ act_continue) × (joined' ≡ joined))
        ⊎ ((d.action ≡ act_continue) × (joined' ≡ joined ++ (st ∷ []))))

module _ {K : Kinds} (log : K.World → List Call) (f : Flow K) (ctx : ℕ → Option (FlowError K)) where
  start_here :
      (left : ℕ) (sh : Shared K) (p : Prepared K)
      → p.shared ≡ sh
      → Pass f ctx left sh [] [] sh p.failure
      → Sweep log f ctx left p.joined sh p
  unfolding AllLogged calls_of
  start_here left sh p e r = record {
    prepared = [];
    added = [];
    joined_eq = sym (append-nil p.joined);
    added_logs = tt;
    calls_eq = ap (λ s. log s.world) e ∙ sym (append-nil (log sh.world));
    bound = omega arith;
    pass = subst (λ s. Pass f ctx left sh [] [] s p.failure) (sym e) r;
  }

  -- A stage whose preparation fails is the last one.
  refused_last :
      (left : ℕ) (st : Stage K) (joined : List (Stage K)) (sh : Shared K) (p : Prepared K)
      (e : FlowError K)
      → IsLogged log st
      → p.shared ≡ (st.prepare sh).1
      → (st.prepare sh).0 ≡ err e
      → p.joined ≡ joined
      → p.failure ≡ some e
      → Sweep log f ctx (suc left) joined sh p
  unfolding AllLogged calls_of
  refused_last left st joined sh p e h same q j fl = record {
    prepared = st ∷ [];
    added = [];
    joined_eq = j ∙ sym (append-nil joined);
    added_logs = tt;
    calls_eq = ap (λ s. log s.world) same ∙ h.prepare_logs sh;
    bound = omega arith;
    pass =
        subst (λ s. Pass f ctx (suc left) sh (st ∷ []) [] s p.failure) (sym same)
          (subst (λ o. Pass f ctx (suc left) sh (st ∷ []) [] (st.prepare sh).1 o) (sym fl)
            (refuses st q));
  }

  one_more :
      (left : ℕ) (st : Stage K) (d : Disposition) (joined joined' : List (Stage K)) (sh : Shared K)
      (p : Prepared K)
      → IsLogged log st
      → Answers st sh d joined joined'
      → (rest : Sweep log f ctx left joined' (st.prepare sh).1 p)
      → Goes d (st.prepare sh).1 rest.prepared
      → Sweep log f ctx (suc left) joined sh p
  unfolding calls_of AllLogged
  one_more left st d joined joined' sh p h (ans, adds) rest goes =
      let calls : log p.shared.world ≡ log sh.world ++ calls_of prepare_calls (st ∷ rest.prepared) =
        rest.calls_eq
        ∙ ap (λ l. l ++ calls_of prepare_calls rest.prepared) (h.prepare_logs sh)
        ∙ append_assoc (log sh.world) (prepare_calls st) (calls_of prepare_calls rest.prepared) in
      elim adds [
        | inl (a, e) ↦ record {
          prepared = st ∷ rest.prepared;
          added = rest.added;
          joined_eq = rest.joined_eq ∙ ap (λ l. l ++ rest.added) e;
          added_logs = rest.added_logs;
          calls_eq = calls;
          bound = omega (arith, rest.bound);
          pass = stays_out st d ans a goes rest.pass;
        }
        | inr (a, e) ↦ record {
          prepared = st ∷ rest.prepared;
          added = st ∷ rest.added;
          joined_eq =
              rest.joined_eq
              ∙ ap (λ l. l ++ rest.added) e
              ∙ append_assoc joined (st ∷ []) rest.added;
          added_logs = (h, rest.added_logs);
          calls_eq = calls;
          bound = omega (arith, rest.bound);
          pass = takes_part st d ans a goes rest.pass;
        }
      ]

-- What a round leaves that prepares the stage from `sh`.
RoundFits :
    {K : Kinds}
    → (K.World → List Call)
    → Flow K
    → (ℕ → Option (FlowError K))
    → ℕ
    → Stage K
    → List (Stage K)
    → Shared K
    → Round K
    → Type 0
RoundFits log f ctx left st joined sh (stop p) =
    (p.shared ≡ (st.prepare sh).1)
    × (((e : FlowError _) × ((st.prepare sh).0 ≡ err e)
          × (p.joined ≡ joined)
          × (p.failure ≡ some e))
        ⊎ ((d : Disposition) × Answers st sh d joined p.joined
            × Pass f ctx left (st.prepare sh).1 [] [] (st.prepare sh).1 p.failure))
RoundFits log f ctx left st joined sh (go work joined' sh') =
    (sh' ≡ (st.prepare sh).1)
    × AllLogged log work
    × ((d : Disposition) × Answers st sh d joined joined'
        × ((st.prepare sh).1.exchange.aborted ≡ false)
        × (d.action ≢ act_done))

append_groups-some :
    {K : Kinds} (f : Flow K) (work : List (Stage K)) (name : ℕ) (names : List ℕ)
    {g : List (Stage K)}
    → f.groups name ≡ some g
    → append_groups f work (name ∷ names) ≡ append_groups f (work ++ g) names
unfolding append_groups
append_groups-some f work name names q = rw (append_groups, q) refl

append_groups-none :
    {K : Kinds} (f : Flow K) (work : List (Stage K)) (name : ℕ) (names : List ℕ)
    → f.groups name ≡ none
    → append_groups f work (name ∷ names) ≡ err (unknown_group name)
unfolding append_groups
append_groups-none f work name names q = rw (append_groups, q) refl

append_groups-AllLogged :
    {K : Kinds} (log : K.World → List Call) (f : Flow K) (work : List (Stage K)) (names : List ℕ)
    (out : List (Stage K))
    → GroupsLogged log f
    → AllLogged log work
    → append_groups f work names ≡ ok out
    → AllLogged log out
append_groups-AllLogged log f work [] out h k e =
    unfold append_groups in subst (AllLogged log) (ok_injective e) k
append_groups-AllLogged log f work (name ∷ names) out h k e = elim (Option-cases (f.groups name)) [
  | inl q ↦ absurd (err_ne_ok (sym (append_groups-none f work name names q) ∙ e))
  | inr (g, q) ↦
      append_groups-AllLogged log f (work ++ g) names out h
        (AllLogged-append log work g k (h.group_logs name g q))
        (sym (append_groups-some f work name names q) ∙ e)
]

append_groups-Fault :
    {K : Kinds} (f : Flow K) (ctx : ℕ → Option (FlowError K)) (work : List (Stage K))
    (names : List ℕ) (e : FlowError K)
    → append_groups f work names ≡ err e
    → Fault f ctx e
append_groups-Fault f ctx work [] e q = unfold append_groups in absurd (err_ne_ok (sym q))
append_groups-Fault f ctx work (name ∷ names) e q = elim (Option-cases (f.groups name)) [
  | inl g ↦ unknown name g (sym (err_injective (sym (append_groups-none f work name names g) ∙ q)))
  | inr (more, g) ↦
      append_groups-Fault f ctx (work ++ more) names e
        (sym (append_groups-some f work name names g) ∙ q)
]

vote_joined :
    {K : Kinds} (st : Stage K) (joined : List (Stage K)) (a : Action)
    → (let joined' : List (Stage K) = if joins a then joined ++ (st ∷ []) else joined in
        ((a ≢ act_continue) × (joined' ≡ joined))
        ⊎ ((a ≡ act_continue) × (joined' ≡ joined ++ (st ∷ []))))
vote_joined st joined act_continue = inr (refl, refl)
vote_joined st joined act_skip = inl (λ e. cc, refl)
vote_joined st joined act_done = inl (λ e. cc, refl)

not_halted : (b : Bool) (a : Action) → (b || is_done a) ≡ false → (b ≡ false) × (a ≢ act_done)
not_halted true a e = cc
not_halted false act_continue e = (refl, λ q. cc)
not_halted false act_skip e = (refl, λ q. cc)
not_halted false act_done e = cc

module _ {K : Kinds} (log : K.World → List Call) (f : Flow K) (ctx : ℕ → Option (FlowError K))
    (h : GroupsLogged log f) (left : ℕ) (st : Stage K) (joined : List (Stage K))
    (sh : Shared K) where
  routed-RoundFits :
      (d : Disposition) (joined' : List (Stage K)) (halt : Bool)
      (work : Result (FlowError K) (List (Stage K)))
      → Answers st sh d joined joined'
      → (halt ≡ false → ((st.prepare sh).1.exchange.aborted ≡ false) × (d.action ≢ act_done))
      → ((out : List (Stage K)) → work ≡ ok out → AllLogged log out)
      → ((e : FlowError K) → work ≡ err e → Fault f ctx e)
      → RoundFits log f ctx left st joined sh (routed halt work joined' (st.prepare sh).1)
  unfolding RoundFits routed
  routed-RoundFits d joined' true work a live k w = (refl, inr (d, a, ends))
  routed-RoundFits d joined' false (err e) a live k w = (refl, inr (d, a, faults (w e refl)))
  routed-RoundFits d joined' false (ok work) a live k w =
      let (alive, more) = live refl in (refl, k work refl, (d, a, alive, more))

  voted-RoundFits :
      (work : List (Stage K)) (res : Result (FlowError K) Disposition)
      → (st.prepare sh).0 ≡ res
      → AllLogged log work
      → RoundFits log f ctx left st joined sh (voted f st work joined res (st.prepare sh).1)
  unfolding RoundFits voted
  voted-RoundFits work (err e) q k = (refl, inl (e, q, refl, refl))
  voted-RoundFits work (ok d) q k =
      routed-RoundFits d _ _ _ (q, vote_joined st joined d.action)
        (λ e. not_halted (st.prepare sh).1.exchange.aborted d.action e)
        (λ out e. append_groups-AllLogged log f work d.groups out h k e)
        (λ e w. append_groups-Fault f ctx work d.groups e w)

module _ {K : Kinds} (log : K.World → List Call) (f : Flow K) (ctx : ℕ → Option (FlowError K))
    (h : GroupsLogged log f) where
  -- A round and the rounds after it.
  later_rounds :
      (left i : ℕ) (st : Stage K) (joined : List (Stage K)) (sh : Shared K) (r : Round K)
      → IsLogged log st
      → RoundFits log f ctx left st joined sh r
      → ((work' joined' : List (Stage K)) (sh' : Shared K)
          → AllLogged log work'
          → Sweep log f ctx left joined' sh' (prepare_loop f ctx left (i + 1) work' joined' sh'))
      → Sweep log f ctx (suc left) joined sh (elim r [
        | stop p ↦ p
        | go work' joined' sh' ↦ prepare_loop f ctx left (i + 1) work' joined' sh'
      ])
  unfolding RoundFits start_here
  later_rounds left i st joined sh (stop p) hs (e, inl (x, q, j, fl)) ih =
      refused_last log f ctx left st joined sh p x hs e q j fl
  later_rounds left i st joined sh (stop p) hs (e, inr (d, a, r)) ih =
      one_more log f ctx left st d joined p.joined sh p hs a
        (start_here log f ctx left (st.prepare sh).1 p e r) (inl refl)
  later_rounds left i st joined sh (go work joined' sh') hs (e, k, (d, a, alive, more)) ih =
      let p = prepare_loop f ctx left (i + 1) work joined' sh' in
      one_more log f ctx left st d joined joined' sh p hs a
        (subst (λ s. Sweep log f ctx left joined' s p) e (ih work joined' sh' k))
        (inr (alive, more))

  whole_round :
      (left i : ℕ) (c : Option (FlowError K)) (st : Stage K) (work joined : List (Stage K))
      (sh : Shared K)
      → ctx i ≡ c
      → IsLogged log st
      → AllLogged log work
      → ((work' joined' : List (Stage K)) (sh' : Shared K)
          → AllLogged log work'
          → Sweep log f ctx left joined' sh' (prepare_loop f ctx left (i + 1) work' joined' sh'))
      → Sweep log f ctx (suc left) joined sh (elim (round f c st work joined sh) [
        | stop p ↦ p
        | go work' joined' sh' ↦ prepare_loop f ctx left (i + 1) work' joined' sh'
      ])
  unfolding round
  whole_round left i (some e) st work joined sh q hs k ih =
      start_here log f ctx (suc left) sh _ refl (faults (cancelled i q))
  whole_round left i none st work joined sh q hs k ih =
      later_rounds left i st joined sh _ hs
        (voted-RoundFits log f ctx h left st joined sh work (st.prepare sh).0 refl k) ih

  -- The prepare loop goes over at most `left` stages, in order, and joins those that answer
  -- `Continue`, in order.
  pub prepare_loop-Sweep :
      (left i : ℕ) (work joined : List (Stage K)) (sh : Shared K)
      → AllLogged log work
      → Sweep log f ctx left joined sh (prepare_loop f ctx left i work joined sh)
  unfolding prepare_loop AllLogged
  prepare_loop-Sweep left i [] joined sh k = start_here log f ctx left sh _ refl ends
  prepare_loop-Sweep zero i (st ∷ work) joined sh k = start_here log f ctx zero sh _ refl over_limit
  prepare_loop-Sweep (suc left) i (st ∷ work) joined sh (hs, k) =
      whole_round left i (ctx i) st work joined sh refl hs k
        (λ work' joined' sh' k'. prepare_loop-Sweep left (i + 1) work' joined' sh' k')
