-- ===== src/Flow/Calls.antt =====
-- The order in which a run calls its stages.
use isopace.Common.{ℕ, ◌≡◌, sym, ap, ◌∙◌, none, some, List, [], ◌∷◌, ◌++◌, append-nil, append_assoc}
use isopace.Flow.{commit_stage, commit_joined, abort_stage, abort_joined}
use isopace.Flow.Types.{Kinds, Stage, Shared}

pub data Call : Type 0 where
  prepare_call commit_call abort_call : ℕ → Call

-- What the second phase calls of a stage: nothing where it has no such hook.
abbrev pub commit_calls : {K : Kinds} → Stage K → List Call
commit_calls st = elim st.commit [ none ↦ [] | some _ ↦ commit_call st.name ∷ [] ]

abbrev pub abort_calls : {K : Kinds} → Stage K → List Call
abort_calls st = elim st.rollback [ none ↦ [] | some _ ↦ abort_call st.name ∷ [] ]

-- The calls of the stages, in the order of the list.
unfoldable pub calls_of : {K : Kinds} → (Stage K → List Call) → List (Stage K) → List Call
calls_of calls [] = []
calls_of calls (st ∷ sts) = calls st ++ calls_of calls sts

-- The same, the last stage first.
pub calls_back : {K : Kinds} → (Stage K → List Call) → List (Stage K) → List Call
calls_back calls [] = []
calls_back calls (st ∷ sts) = calls_back calls sts ++ calls st

-- The stage writes each call of it at the end of a log in the outside world.
pub record IsLogged {K : Kinds} (log : K.World → List Call) (st : Stage K) : Type 0 where
  pub prepare_logs :
      (sh : Shared K) → log (st.prepare sh).1.world ≡ log sh.world ++ (prepare_call st.name ∷ [])
  pub commit_logs :
      (sh : Shared K) → log (commit_stage st sh).1.world ≡ log sh.world ++ commit_calls st
  pub abort_logs : (sh : Shared K) → log (abort_stage st sh).world ≡ log sh.world ++ abort_calls st

unfoldable pub AllLogged : {K : Kinds} → (K.World → List Call) → List (Stage K) → Type 0
AllLogged log [] = Unit
AllLogged log (st ∷ sts) = IsLogged log st × AllLogged log sts

pub AllLogged-append :
    {K : Kinds} (log : K.World → List Call) (xs ys : List (Stage K))
    → AllLogged log xs
    → AllLogged log ys
    → AllLogged log (xs ++ ys)
unfolding AllLogged
AllLogged-append log [] ys h k = k
AllLogged-append log (x ∷ xs) ys (hx, h) k = (hx, AllLogged-append log xs ys h k)

pub commit_joined-calls :
    {K : Kinds} (log : K.World → List Call) (js : List (Stage K)) (sh : Shared K)
    → AllLogged log js
    → log (commit_joined js sh).1.world ≡ log sh.world ++ calls_of commit_calls js
unfolding commit_joined calls_of AllLogged
commit_joined-calls log [] sh h = sym (append-nil (log sh.world))
commit_joined-calls log (st ∷ js) sh (hs, h) =
    commit_joined-calls log js (commit_stage st sh).1 h
    ∙ ap (λ l. l ++ calls_of commit_calls js) (hs.commit_logs sh)
    ∙ append_assoc (log sh.world) (commit_calls st) (calls_of commit_calls js)

pub abort_joined-calls :
    {K : Kinds} (log : K.World → List Call) (js : List (Stage K)) (sh : Shared K)
    → AllLogged log js
    → log (abort_joined js sh).world ≡ log sh.world ++ calls_back abort_calls js
unfolding abort_joined calls_back AllLogged
abort_joined-calls log [] sh h = sym (append-nil (log sh.world))
abort_joined-calls log (st ∷ js) sh (hs, h) =
    hs.abort_logs (abort_joined js sh)
    ∙ ap (λ l. l ++ abort_calls st) (abort_joined-calls log js sh h)
    ∙ append_assoc (log sh.world) (calls_back abort_calls js) (abort_calls st)
