-- ===== src/Flow/Runs.antt =====
-- Tests, and the theorems at concrete inputs: a flow of three stages whose world is the log.
use isopace.Common.{some_injective}
use isopace.Common.{ℕ, zero, suc, ◌≡◌, refl, true, false, Option, none, some, List, [], ◌∷◌, ◌++◌}
use isopace.Common.{inl}
use isopace.Common.{Result, ok, err, if◌then◌else◌, ◌==◌}
use isopace.Flow.{
  run, prepare_loop, round, voted, routed, append_groups, commit_joined, abort_joined, commit_stage,
  abort_stage, resolve, transact, emit, abort_cause, roll_back, commit_all, store_response,
  join_errors, key_of, lookup, replay_response, cloned,
}
use isopace.Bitmap.{empty}
use isopace.Engine.Message.{Message, empty_slot}
use isopace.Flow.Types.{
  Kinds, Flow, Stage, State, Shared, FlowError, Disposition, continue_on, route, cause,
}
use isopace.Flow.Calls.{Call, prepare_call, commit_call, abort_call, IsLogged, AllLogged}
use isopace.Flow.Loop.{GroupsLogged}
use isopace.Flow.Phases.{TwoPhase, run-TwoPhase}
use isopace.Flow.Replay.{run-again}
use isopace.Flow.Retry.{
  retry, default_retry_policy, normalised, before_attempt, Transient, is_final, retry-Transient,
}
use mathlib.Core.Path.{subst}

abbrev demo : Kinds
demo = record { Codecs = record { Child = ℕ; Cause = ℕ }; Value = ℕ; Cause = ℕ; World = List Call }

-- A message that is told by its number of slots, and is not sealed.
abbrev numbered : ℕ → Message demo.Codecs
numbered n = record {
  src = none;
  bm = empty;
  slots = λ _. empty_slot;
  slot_count = n;
  owned = true;
  sealed = false;
}

abbrev note_call : Call → Shared demo → Shared demo
note_call c sh = record sh { world = sh.world ++ (c ∷ []) }

-- A stage that logs its calls and answers with the request.
abbrev logging : ℕ → (ℕ → Result (FlowError demo) Disposition) → Stage demo
logging name vote = record {
  name = name;
  prepare = λ sh. (
    vote sh.exchange.request.slot_count,
    note_call (prepare_call name)
        (record sh { exchange = record sh.exchange { response = some sh.exchange.request } }),
  );
  commit = some (λ sh. (none, note_call (commit_call name) sh));
  rollback = some (λ sh. (none, note_call (abort_call name) sh));
}

logging-IsLogged :
    (name : ℕ) (vote : ℕ → Result (FlowError demo) Disposition)
    → IsLogged (λ w. w) (logging name vote)
unfolding commit_stage abort_stage
logging-IsLogged name vote = record {
  prepare_logs = λ sh. refl;
  commit_logs = λ sh. refl;
  abort_logs = λ sh. refl;
}

abbrev checks : Stage demo
checks = logging 1 (λ m. ok (route (7 ∷ [])))

abbrev reserves : Stage demo
reserves = logging 2 (λ m. ok continue_on)

-- Declines the message 0.
abbrev posts : Stage demo
posts = logging 3 (λ m. if m == 0 then err (cause 51) else ok continue_on)

abbrev demo_groups : ℕ → Option (List (Stage demo))
demo_groups zero = some (checks ∷ reserves ∷ [])
demo_groups (suc n) = some (posts ∷ [])

abbrev payments : Flow demo
payments = record {
  groups = demo_groups;
  entry = some 0;
  max_stages = 8;
  idem_key = some (λ ex. some ex.id);
}

payments-GroupsLogged : GroupsLogged (λ w. w) payments
unfolding AllLogged
payments-GroupsLogged = record {
  group_logs = λ n g e.
      elim n as (λ n. demo_groups n ≡ some g → AllLogged (λ w. w) g) [
        | zero ↦ λ e.
            subst (AllLogged (λ w. w)) (some_injective e)
              (logging-IsLogged 1 _, (logging-IsLogged 2 _, tt))
        | suc n ↦ λ e. subst (AllLogged (λ w. w)) (some_injective e) (logging-IsLogged 3 _, tt)
      ]
        e;
}

abbrev start : ℕ → State demo
start m = record {
  shared = record {
    world = [];
    exchange = record {
      id = 4;
      request = numbered m;
      response = none;
      props = λ _. none;
      failure = none;
      aborted = false;
    };
  };
  journal = some [];
  store = λ _. none;
}

abbrev live : ℕ → Option (FlowError demo)
live i = none

run_commits :
    (run payments live (start 5)).1.shared.world
    ≡ prepare_call 1
      ∷ prepare_call 2
      ∷ prepare_call 3
      ∷ commit_call 1
      ∷ commit_call 2
      ∷ commit_call 3
      ∷ []
unfolding run resolve key_of lookup transact emit prepare_loop round voted routed append_groups
    abort_cause commit_all commit_joined commit_stage store_response join_errors
run_commits = refl

run_rolls_back :
    (run payments live (start 0)).1.shared.world
    ≡ prepare_call 1 ∷ prepare_call 2 ∷ prepare_call 3 ∷ abort_call 2 ∷ abort_call 1 ∷ []
unfolding run resolve key_of lookup transact emit prepare_loop round voted routed append_groups
    abort_cause roll_back abort_joined abort_stage
run_rolls_back = refl

run-TwoPhase_example :
    TwoPhase
      (λ w. w)
      payments
      live
      (start 0)
      (run payments live (start 0)).1.shared.world
      (run payments live (start 0)).0
run-TwoPhase_example = run-TwoPhase (λ w. w) payments live (start 0) payments-GroupsLogged

no_error : (run payments live (start 5)).0 ≡ none
unfolding run resolve key_of lookup transact emit prepare_loop round voted routed append_groups
    abort_cause commit_all commit_joined commit_stage store_response join_errors
no_error = refl

-- A later request with the same key.
abbrev retransmitted : State demo
retransmitted = record (start 6) { store = (run payments live (start 5)).1.store }

key_is : (m : ℕ) → key_of payments (start m).shared.exchange ≡ some 4
unfolding key_of
key_is m = refl

run-again_example : run payments live retransmitted ≡ (
  none,
  replay_response (cloned (run payments live (start 5)).1.shared.exchange.response) retransmitted,
)
run-again_example =
    run-again 4 payments 0 (checks ∷ reserves ∷ []) refl refl live (start 5) live retransmitted
      (key_is 5) no_error (key_is 6) refl

-- A stage that fails until it has been called twice before.
abbrev flaky : Stage demo
flaky = record {
  name = 9;
  prepare = λ sh. (
    elim sh.world [
      | [] ↦ err (cause 1)
      | c ∷ w ↦ elim w [ [] ↦ err (cause 2) | c' ∷ w' ↦ ok continue_on ]
    ],
    note_call (prepare_call 9) sh,
  );
  commit = none;
  rollback = none;
}

two_calls_fail : Transient flaky (normalised default_retry_policy) live 2 (start 5).shared
unfolding Transient is_final
two_calls_fail = (refl, (refl, tt))

retry-Transient_example :
    (retry flaky default_retry_policy live).prepare (start 5).shared
    ≡ flaky.prepare (before_attempt flaky 2 (start 5).shared)
retry-Transient_example =
    retry-Transient flaky default_retry_policy live 2 (start 5).shared (λ i. refl) two_calls_fail
      (inl refl)
