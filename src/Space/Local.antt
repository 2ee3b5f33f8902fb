-- ===== src/Space/Local.antt =====
-- space/local.go: queues in memory, with callers that wait for entries. What a mutex holds together
-- is one function here; a caller that waits is woken when the channel that it has seen is closed,
-- and a channel is the number of those that `signal` closed before it.
mod Fifo
mod Wakeup
mod Runs
use isopace.Common.{
  ℕ, ◌+◌, ◌<◌, ◌≡◌, Bool, true, false, Option, none, some, List, [], ◌∷◌, ◌++◌, Bytes, Result, ok,
  err, if◌then◌else◌, length,
}
use isopace.Common.Tables.{assign_key, assign}

-- `ErrClosed`, and the errors of a context.
pub data LocalError (C : Type 0) : Type 0 where
  closed : LocalError C
  context_error : C → LocalError C

-- A caller of `In` (`take` is true) or `Rd`: none yet, at the top of the loop of `wait`, in its
-- `select` with the channel that it has read, and returned.
pub data Caller (V C : Type 0) : Type 0 where
  idle : Caller V C
  checking : (key : Bytes) (take : Bool) → Caller V C
  waiting : (key : Bytes) (take : Bool) (seen : ℕ) → Caller V C
  returned : Result (LocalError C) V → Caller V C

-- `Local`. `notify` is the number of the channel that is open.
pub record Local (V C : Type 0) : Type 0 where
  pub entries : Bytes → Option (List V)
  pub notify : ℕ
  pub closed : Bool
  pub callers : ℕ → Caller V C

-- `NewLocal`
abbrev pub new_local : {V C : Type 0} → Local V C
new_local = record { entries = λ _. none; notify = 0; closed = false; callers = λ _. idle }

-- `l.data[key]`, of which a missing one is empty.
abbrev pub queue_of : {V : Type 0} → Option (List V) → List V
queue_of none = []
queue_of (some q) = q

-- `signal`
unfoldable pub signal : {V C : Type 0} → Local V C → Local V C
signal l = record l { notify = l.notify + 1 }

-- `Out`
unfoldable pub out : {V C : Type 0} → Bytes → V → Local V C → Local V C
unfolding signal
out key value l =
    if l.closed
    then l
    else signal (record l {
      entries = assign_key l.entries key (some (queue_of (l.entries key) ++ (value ∷ [])));
    })

-- `pop`, of a queue with something behind its head or nothing.
unfoldable pub pop : {V C : Type 0} → Bytes → List V → Local V C → Local V C
pop key [] l = record l { entries = assign_key l.entries key none }
pop key (v ∷ rest) l = record l { entries = assign_key l.entries key (some (v ∷ rest)) }

-- `Close`
unfoldable pub close : {V C : Type 0} → Local V C → Local V C
unfolding signal
close l = if l.closed then l else signal (record l { closed = true })

unfoldable pub inp_queue : {V C : Type 0} → Bytes → List V → Local V C → Option V × Local V C
inp_queue key [] l = (none, l)
inp_queue key (v ∷ rest) l = (some v, pop key rest l)

-- `Inp`
unfoldable pub inp : {V C : Type 0} → Bytes → Local V C → Option V × Local V C
unfolding inp_queue
inp key l = inp_queue key (queue_of (l.entries key)) l

-- `Rdp`
unfoldable pub rdp : {V C : Type 0} → Bytes → Local V C → Option V
rdp key l = elim (queue_of (l.entries key)) [ [] ↦ none | v ∷ rest ↦ some v ]

-- `Len`
unfoldable pub len : {V C : Type 0} → Bytes → Local V C → ℕ
len key l = length (queue_of (l.entries key))

-- What a caller does that holds the lock of an open space, with the queue under its key.
unfoldable pub check_queue : {V C : Type 0} → ℕ → Bytes → Bool → List V → Local V C → Local V C
check_queue i key take [] l = record l { callers = assign l.callers i (waiting key take l.notify) }
check_queue i key true (v ∷ rest) l =
    pop key rest (record l { callers = assign l.callers i (returned (ok v)) })
check_queue i key false (v ∷ rest) l = record l { callers = assign l.callers i (returned (ok v)) }

-- A round of the loop of `wait` up to the `select`.
unfoldable pub check : {V C : Type 0} → ℕ → Bytes → Bool → Local V C → Local V C
unfolding check_queue
check i key take l =
    if l.closed
    then record l { callers = assign l.callers i (returned (err closed)) }
    else check_queue i key take (queue_of (l.entries key)) l

-- What a step does, for those outside: a value that was put, or one that was taken and answered.
pub data Event (V : Type 0) : Type 0 where
  put taken : Bytes → V → Event V
  nothing : Event V

-- What `Out` does.
unfoldable pub out_event : {V C : Type 0} → Bytes → V → Local V C → Event V
out_event key v l = if l.closed then nothing else put key v

-- What the answer of `Inp` says.
unfoldable pub inp_event : {V : Type 0} → Bytes → Option V → Event V
inp_event key none = nothing
inp_event key (some v) = taken key v

-- What a caller of `In` or `Rd` is answered, if it has returned: `Rd` takes nothing.
unfoldable pub answer_event : {V C : Type 0} → Bytes → Bool → Caller V C → Event V
answer_event key true (returned (ok v)) = taken key v
answer_event key true (returned (err _)) = nothing
answer_event key true idle = nothing
answer_event key true (checking _ _) = nothing
answer_event key true (waiting _ _ _) = nothing
answer_event key false c = nothing

-- One step of one goroutine, with its event.
pub data Step {V C : Type 0} (l : Local V C) : Event V → Local V C → Type 0 where
  do_out : (key : Bytes) (v : V) → Step l (out_event key v l) (out key v l)
  call :
      (i : ℕ) (key : Bytes) (take : Bool)
      → l.callers i ≡ idle
      → Step l nothing (record l { callers = assign l.callers i (checking key take) })
  look :
      (i : ℕ) {key : Bytes} {take : Bool}
      → l.callers i ≡ checking key take
      → Step l (answer_event key take ((check i key take l).callers i)) (check i key take l)
  wake :
      (i : ℕ) {key : Bytes} {take : Bool} {seen : ℕ}
      → l.callers i ≡ waiting key take seen
      → seen < l.notify
      → Step l nothing (record l { callers = assign l.callers i (checking key take) })
  cancel :
      (i : ℕ) {key : Bytes} {take : Bool} {seen : ℕ} (c : C)
      → l.callers i ≡ waiting key take seen
      → Step l nothing
          (record l { callers = assign l.callers i (returned (err (context_error c))) })
  probe : (key : Bytes) → Step l (inp_event key (inp key l).0) (inp key l).1
  do_close : Step l nothing (close l)

-- The steps from `s` on, the events in their order.
pub data Run {V C : Type 0} (s : Local V C) : List (Event V) → Local V C → Type 0 where
  here : Run s [] s
  next :
      {es : List (Event V)} {e : Event V} {t u : Local V C}
      → Run s es t
      → Step t e u
      → Run s (es ++ (e ∷ [])) u
