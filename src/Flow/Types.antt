-- ===== src/Flow/Types.antt =====
-- flow/: the data of stage.go, exchange.go, journal.go and flow.go.
use isopace.Common.{ℕ, Bool, true, false, Option, none, some, List, [], ◌++◌}
use isopace.Common.{◌==◌, if◌then◌else◌, Result}
use isopace.Engine.Message.{Message}
use isopace.Engine.Types.{Kinds as MessageKinds}

-- The types of the clients: what the codecs of the messages choose, property values, error values,
-- and the outside world.
pub record Kinds : Type 1 where
  pub Codecs : MessageKinds
  pub Value : Type 0
  pub Cause : Type 0
  pub World : Type 0

pub data FlowError (K : Kinds) : Type 0 where
  no_entry : FlowError K
  unknown_group : ℕ → FlowError K
  too_many_stages : FlowError K
  aborted_error : FlowError K
  cause : K.Cause → FlowError K
  commit_failed : List (ℕ × K.Cause) → FlowError K

-- `Exchange`
pub record Exchange (K : Kinds) : Type 0 where
  pub id : ℕ
  pub request : Message K.Codecs
  pub response : Option (Message K.Codecs)
  pub props : ℕ → Option K.Value
  pub failure : Option (FlowError K)
  pub aborted : Bool

abbrev pub new_exchange : {K : Kinds} → ℕ → Message K.Codecs → Exchange K
new_exchange id req = record {
  id = id;
  request = req;
  response = none;
  props = λ _. none;
  failure = none;
  aborted = false;
}

abbrev pub set_prop : {K : Kinds} → ℕ → K.Value → Exchange K → Exchange K
set_prop key v ex = record ex { props = λ k. if k == key then some v else ex.props k }

-- `Exchange.Abort`; `none` is a nil cause.
abbrev pub abort : {K : Kinds} → Option (FlowError K) → Exchange K → Exchange K
abort none ex = record ex { aborted = true }
abort (some e) ex = record ex { aborted = true; failure = some e }

-- What a stage sees and changes.
pub record Shared (K : Kinds) : Type 0 where
  pub world : K.World
  pub exchange : Exchange K

pub data Action : Type 0 where
  act_continue act_skip act_done : Action

-- `Result`
pub record Disposition : Type 0 where
  pub action : Action
  pub groups : List ℕ

abbrev pub continue_on : Disposition
continue_on = record { action = act_continue; groups = [] }

abbrev pub skip : Disposition
skip = record { action = act_skip; groups = [] }

abbrev pub route : List ℕ → Disposition
route gs = record { action = act_continue; groups = gs }

abbrev pub done : Disposition
done = record { action = act_done; groups = [] }

-- `Stage`, with `commit` and `rollback` where it is a `Committer` and an `Aborter`.
pub record Stage (K : Kinds) : Type 0 where
  pub name : ℕ
  pub prepare : Shared K → Result (FlowError K) Disposition × Shared K
  pub commit : Option (Shared K → Option K.Cause × Shared K)
  pub rollback : Option (Shared K → Option K.Cause × Shared K)

-- `Func`
abbrev pub func :
    {K : Kinds} → ℕ → (Shared K → Result (FlowError K) Disposition × Shared K) → Stage K
func name fn = record { name = name; prepare = fn; commit = none; rollback = none }

pub data EventKind : Type 0 where
  event_begin event_committed event_aborted event_idempotent_hit : EventKind

pub record Event (K : Kinds) : Type 0 where
  pub kind : EventKind
  pub failure : Option (FlowError K)

-- `JournalEntry`
pub record JournalEntry (K : Kinds) : Type 0 where
  pub id : ℕ
  pub event : Event K

-- `Flow`: `entry` is `none` where it is the empty string.
pub record Flow (K : Kinds) : Type 0 where
  pub groups : ℕ → Option (List (Stage K))
  pub entry : Option ℕ
  pub max_stages : ℕ
  pub idem_key : Option (Exchange K → Option ℕ)

-- The state that a run works on. `journal` is `none` where no journal is configured; `store` is the
-- map of the `MemoryStore`, a key with a nil response being `some none`.
pub record State (K : Kinds) : Type 0 where
  pub shared : Shared K
  pub journal : Option (List (JournalEntry K))
  pub store : ℕ → Option (Option (Message K.Codecs))

abbrev pub new_flow : {K : Kinds} → Flow K
new_flow = record { groups = λ _. none; entry = none; max_stages = 1024; idem_key = none }

-- `Flow.Group`
abbrev pub group : {K : Kinds} → ℕ → List (Stage K) → Flow K → Flow K
group name stages f =
    let old : List (Stage _) = elim (f.groups name) [ none ↦ [] | some g ↦ g ] in
    record f {
      groups = λ n. if n == name then some (old ++ stages) else f.groups n;
      entry = elim f.entry [ none ↦ some name | some e ↦ some e ];
    }
