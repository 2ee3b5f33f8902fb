-- ===== src/Mux/Steps.antt =====
-- mux.go: the state of a mux, what each of its goroutines does, and how they interleave.
use isopace.Common.{
  ℕ, ◌<◌, ◌≡◌, Bool, true, false, Option, none, some, List, [], ◌∷◌, ◌++◌, Bytes, Result, ok, err,
  if◌then◌else◌,
}
use isopace.Common.Tables.{assign_key, assign}

-- `ErrTimeout`, `ErrClosed`, `ErrDuplicateKey`, and the errors that come from a keyer, from the
-- link, and from the context.
pub data MuxError (C : Type 0) : Type 0 where
  timeout closed duplicate_key : MuxError C
  key_error link_error context_error : C → MuxError C

-- `config` with the `Keyer` of `New`; of the two handlers of unsolicited frames, whether they are
-- set. A `timeout` of 0 is none.
pub record Config (C : Type 0) : Type 0 where
  pub key : Bytes → Result C Bytes
  pub timeout : ℕ
  pub has_unsolicited : Bool
  pub has_replier : Bool
  pub resp_key : Option (Bytes → Result C Bytes)

-- Where a call of `Request` stands, once it is in the table: about to send, in the `select`, about
-- to run its deferred `delete`, and returned.
pub data Phase (C : Type 0) : Type 0 where
  sending waiting : Phase C
  leaving returned : Result (MuxError C) Bytes → Phase C

-- A call of `Request`: not made, returned before it was in the table, or with its request, its key
-- and its channel, whose buffer has room for one frame.
pub data Call (C : Type 0) : Type 0 where
  idle : Call C
  refused : MuxError C → Call C
  active : (req k : Bytes) (ch : Option Bytes) (at : Phase C) → Call C

-- The goroutine of `readLoop`: at `Receive`, about to put a frame in the channel of a call, or
-- ended.
pub data Reader : Type 0 where
  receiving ended : Reader
  delivering : ℕ → Bytes → Reader

pub data Handler : Type 0 where
  by_replier by_unsolicited by_nobody : Handler

-- `Mux`. `handled` has the frames that went to `deliverUnsolicited`, the last one at the end.
pub record Mux (C : Type 0) : Type 0 where
  pub pending : Bytes → Option ℕ
  pub calls : ℕ → Call C
  pub reader : Reader
  pub handled : List (Handler × Bytes)
  pub done : Bool
  pub read_err : Option (MuxError C)

-- `New`
abbrev pub new_mux : {C : Type 0} → Mux C
new_mux = record {
  pending = λ _. none;
  calls = λ _. idle;
  reader = receiving;
  handled = [];
  done = false;
  read_err = none;
}

-- `Request` up to the unlocking: the key, the check for a duplicate, and the entry.
unfoldable pub register : {C : Type 0} → Config C → ℕ → Bytes → Mux C → Mux C
register cfg i req m = elim (cfg.key req) [
  | err c ↦ record m { calls = assign m.calls i (refused (key_error c)) }
  | ok k ↦ elim (m.pending k) [
    | some _ ↦ record m { calls = assign m.calls i (refused duplicate_key) }
    | none ↦ record m {
      pending = assign_key m.pending k (some i);
      calls = assign m.calls i (active req k none sending);
    }
  ]
]

-- The `link.Send` of `Request`, with the error that the link gave.
unfoldable pub sent : {C : Type 0} → Option C → Phase C
sent none = waiting
sent (some c) = leaving (err (link_error c))

-- The deferred `delete` of `Request`.
unfoldable pub finish : {C : Type 0} → ℕ → Bytes → Mux C → Call C → Mux C
finish i k m c = record m { pending = assign_key m.pending k none; calls = assign m.calls i c }

-- `closedErr`
unfoldable pub closed_err : {C : Type 0} → Mux C → MuxError C
closed_err m = elim m.read_err [ some e ↦ e | none ↦ closed ]

-- `stop`; `none` is a nil cause.
unfoldable pub stop : {C : Type 0} → Option (MuxError C) → Mux C → Mux C
stop cause m =
    if m.done
    then m
    else record m { done = true; read_err = elim cause [ some e ↦ some e | none ↦ m.read_err ] }

-- `responseKey`
unfoldable pub response_key : {C : Type 0} → Config C → Bytes → Result C Bytes
response_key cfg msg = elim cfg.resp_key [ some f ↦ f msg | none ↦ cfg.key msg ]

-- Which handler `deliverUnsolicited` calls.
unfoldable pub handler_of : {C : Type 0} → Config C → Handler
handler_of cfg =
    if cfg.has_replier
    then by_replier
    else if cfg.has_unsolicited
    then by_unsolicited
    else by_nobody

unfoldable pub deliver_unsolicited : {C : Type 0} → Config C → Bytes → Mux C → Mux C
deliver_unsolicited cfg msg m = record m { handled = m.handled ++ ((handler_of cfg, msg) ∷ []) }

-- A round of `readLoop` with a frame, up to the sending into the channel.
unfoldable pub dispatch : {C : Type 0} → Config C → Bytes → Mux C → Mux C
dispatch cfg msg m = elim (response_key cfg msg) [
  | err _ ↦ deliver_unsolicited cfg msg m
  | ok k ↦ elim (m.pending k) [
    | some i ↦ record m { pending = assign_key m.pending k none; reader = delivering i msg }
    | none ↦ deliver_unsolicited cfg msg m
  ]
]

-- `ch <- msg`
unfoldable pub put_frame : {C : Type 0} → Bytes → Call C → Call C
put_frame msg (active req k ch at) = active req k (some msg) at
put_frame msg c = c

-- The channel of a call has room for a frame.
unfoldable pub HasRoom : {C : Type 0} → Call C → Type 0
HasRoom (active _ _ none _) = Unit
HasRoom _ = ⊥

-- `Send`, with the error that the link gives if it is asked.
unfoldable pub send : {C : Type 0} → Option C → Mux C → Option (MuxError C)
send linked m =
    if m.done
    then some (closed_err m)
    else elim linked [ some c ↦ some (link_error c) | none ↦ none ]

-- `Err`
unfoldable pub err_of : {C : Type 0} → Mux C → Option (MuxError C)
err_of m = if m.done then some (closed_err m) else none

-- One step of one goroutine. The link, the context and the timer may do whatever they can do.
pub data Step {C : Type 0} (cfg : Config C) (m : Mux C) : Mux C → Type 0 where
  call : (i : ℕ) (req : Bytes) → m.calls i ≡ idle → Step cfg m (register cfg i req m)
  write :
      (i : ℕ) {req k : Bytes} {ch : Option Bytes} (linked : Option C)
      → m.calls i ≡ active req k ch sending
      → Step cfg m (record m { calls = assign m.calls i (active req k ch (sent linked)) })
  answer :
      (i : ℕ) {req k msg : Bytes}
      → m.calls i ≡ active req k (some msg) waiting
      → Step cfg m (record m { calls = assign m.calls i (active req k none (leaving (ok msg))) })
  cancel :
      (i : ℕ) {req k : Bytes} {ch : Option Bytes} (c : C)
      → m.calls i ≡ active req k ch waiting
      → Step cfg m (record m {
        calls = assign m.calls i (active req k ch (leaving (err (context_error c))));
      })
  expire :
      (i : ℕ) {req k : Bytes} {ch : Option Bytes}
      → 0 < cfg.timeout
      → m.calls i ≡ active req k ch waiting
      → Step cfg m (record m { calls = assign m.calls i (active req k ch (leaving (err timeout))) })
  shut :
      (i : ℕ) {req k : Bytes} {ch : Option Bytes}
      → m.done ≡ true
      → m.calls i ≡ active req k ch waiting
      → Step cfg m
          (record m { calls = assign m.calls i (active req k ch (leaving (err (closed_err m)))) })
  leave :
      (i : ℕ) {req k : Bytes} {ch : Option Bytes} {r : Result (MuxError C) Bytes}
      → m.calls i ≡ active req k ch (leaving r)
      → Step cfg m (finish i k m (active req k ch (returned r)))
  receive : (msg : Bytes) → m.reader ≡ receiving → Step cfg m (dispatch cfg msg m)
  deliver :
      (i : ℕ) {msg : Bytes}
      → m.reader ≡ delivering i msg
      → HasRoom (m.calls i)
      → Step cfg m
          (record m { calls = assign m.calls i (put_frame msg (m.calls i)); reader = receiving })
  fail :
      (c : C)
      → m.reader ≡ receiving
      → Step cfg m (stop (some (link_error c)) (record m { reader = ended }))
  close : Step cfg m (stop (some closed) m)

-- `t` follows from `s` by steps.
pub data Run {C : Type 0} (cfg : Config C) (s : Mux C) : Mux C → Type 0 where
  here : Run cfg s s
  next : {t u : Mux C} → Run cfg s t → Step cfg t u → Run cfg s u
