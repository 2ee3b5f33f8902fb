-- ===== src/Space/Local/Runs.antt =====
-- Tests, and the theorems at concrete inputs: a caller waits, and an entry comes.
use isopace.Common.{ℕ, ◌≡◌, ◌++◌, refl, true, false, some, none, List, [], ◌∷◌, Bytes, ok, eq_bytes}
use isopace.Space.Local.{
  Local, new_local, queue_of, waiting, returned, signal, out, pop, inp, inp_queue, check,
  check_queue, out_event, inp_event, answer_event, Event, put, taken, nothing, probe, rdp, len,
  close, do_out, call, look, Run, here, next,
}
use isopace.Space.Local.Fifo.{puts, takes, queue_is_fifo}
use isopace.Space.Local.Wakeup.{waiting_caller_returns}

abbrev key : Bytes
key = 7 ∷ []

-- `In` finds nothing, and then there is an `Out`.
abbrev events : List (Event ℕ)
events = nothing ∷ nothing ∷ put key 5 ∷ []

came :
    (l : Local ℕ ℕ) × Run new_local events l
    × (l.callers 1 ≡ waiting key true 0)
    × (l.closed ≡ false)
    × (queue_of (l.entries key) ≡ 5 ∷ [])
unfolding check check_queue answer_event out out_event signal eq_bytes
came =
    let r1 = next here (call 1 key true refl) in
    let r2 = next r1 (look 1 refl) in (_, next r2 (do_out key 5), refl, refl, refl)

waiting_caller_returns_example :
    (e : Event ℕ) × (t : Local ℕ ℕ) × Run came.0 (nothing ∷ e ∷ []) t
    × (t.callers 1 ≡ returned (ok 5))
waiting_caller_returns_example = waiting_caller_returns (ok 5) came.1 came.2 (came.3, ([], came.4))

-- `Inp` is faster than the caller that waits.
abbrev all_events : List (Event ℕ)
all_events = nothing ∷ nothing ∷ put key 5 ∷ taken key 5 ∷ []

overtaken : (l : Local ℕ ℕ) × Run new_local all_events l
unfolding check check_queue answer_event inp_event inp inp_queue pop out out_event signal eq_bytes
overtaken =
    let r1 = next here (call 1 key true refl) in
    let r2 = next r1 (look 1 refl) in let r3 = next r2 (do_out key 5) in (_, next r3 (probe key))

queue_is_fifo_example :
    puts key all_events ≡ takes key all_events ++ queue_of (overtaken.0.entries key)
queue_is_fifo_example = queue_is_fifo key overtaken.1

-- `Out` on a closed space is no-op, and `Rdp` leaves the entry.
closed_out : out key 5 (close (new_local {V = ℕ} {C = ℕ})) ≡ close new_local
unfolding out close signal
closed_out = refl

abbrev one_entry : Local ℕ ℕ
one_entry = record new_local { entries = λ _. some (5 ∷ []) }

head_read : rdp key one_entry ≡ some 5
unfolding rdp
head_read = refl

one_counted : len key one_entry ≡ 1
unfolding len
one_counted = refl

taken_entry : (inp key one_entry).1.entries key ≡ none
unfolding inp inp_queue pop eq_bytes
taken_entry = refl
