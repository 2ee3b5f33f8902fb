-- ===== src/Space/Local/Fifo.antt =====
-- space/local.go: the queues against what went in and came out.
use isopace.Common.{
  ℕ, ◌≡◌, ◌∙◌, refl, sym, ap, inl, inr, Bool, true, false, Option, none, some, List, [], ◌∷◌, ◌++◌,
  Bytes, eq_bytes, eq_bytes_iff, if◌then◌else◌, append-nil, append_assoc, ok, err, Bool-cases,
}
use isopace.Common.Tables.{assign_key, assign, assign_same, assign_key-cases}
use mathlib.Core.Path.{subst}
use isopace.Space.Local.{
  Local, new_local, queue_of, signal, out, pop, close, inp, inp_queue, check, check_queue, returned,
  Event, put, taken, nothing, out_event, inp_event, answer_event, Caller, waiting, closed, Step,
  do_out, call, look, wake, cancel, probe, do_close, Run, here, next,
}

-- What an event puts under a key, and what it takes from there.
pub put_at : {V : Type 0} → Bytes → Event V → List V
put_at k (put key v) = if eq_bytes k key then v ∷ [] else []
put_at k _ = []

pub taken_at : {V : Type 0} → Bytes → Event V → List V
taken_at k (taken key v) = if eq_bytes k key then v ∷ [] else []
taken_at k _ = []

-- All the values that were put under a key, and all that were taken from there, in their order.
pub puts : {V : Type 0} → Bytes → List (Event V) → List V
puts k [] = []
puts k (e ∷ es) = put_at k e ++ puts k es

pub takes : {V : Type 0} → Bytes → List (Event V) → List V
takes k [] = []
takes k (e ∷ es) = taken_at k e ++ takes k es

module _ {V C : Type 0} (k : Bytes) where
  queue : Local V C → List V
  queue l = queue_of (l.entries k)

  -- The queue, what an event puts behind it and takes from its front.
  Moved : Local V C → Event V → Local V C → Type 0
  Moved l e t = queue l ++ put_at k e ≡ taken_at k e ++ queue t

  same_entries : (l t : Local V C) → l.entries ≡ t.entries → Moved l nothing t
  unfolding Moved queue put_at taken_at
  same_entries l t e = append-nil (queue l) ∙ ap (λ f. queue_of (f k)) e

  out-Moved : (key : Bytes) (v : V) (l : Local V C) → Moved l (out_event key v l) (out key v l)
  unfolding Moved queue put_at taken_at out signal out_event
  out-Moved key v l = elim (Bool-cases l.closed) [
    | inl c ↦ simp (out, out_event, c) (append-nil (queue l))
    | inr c ↦ elim (Bool-cases (eq_bytes k key)) [
      | inl e ↦
          simp (out, out_event, signal, c, e)
            (ap (λ x. queue_of (l.entries x) ++ (v ∷ [])) ((eq_bytes_iff k key).0 e))
      | inr e ↦ simp (out, out_event, signal, c, e) (append-nil (queue l))
    ]
  ]

  head_taken :
      (key : Bytes) (v : V) (rest : List V) (l t : Local V C) (stored : Option (List V))
      → queue_of (l.entries key) ≡ v ∷ rest
      → l.entries ≡ t.entries
      → queue_of stored ≡ rest
      → queue l ++ []
        ≡ (if eq_bytes k key then v ∷ [] else []) ++ queue_of (assign_key t.entries key stored k)
  unfolding queue
  head_taken key v rest l t stored q e r = elim (assign_key-cases t.entries key stored k) [
    | inl (s, a) ↦
        let hit : eq_bytes k key ≡ true = (eq_bytes_iff k key).1 s in
        append-nil (queue l)
        ∙ ap (λ x. queue_of (l.entries x)) s
        ∙ q
        ∙ ap (λ x. v ∷ x) (sym r)
        ∙ sym (λ i. (if hit i then v ∷ [] else []) ++ queue_of (a i))
    | inr (s, a) ↦
        append-nil (queue l)
        ∙ ap (λ f. queue_of (f k)) e
        ∙ sym (λ i. (if s i then v ∷ [] else []) ++ queue_of (a i))
  ]

  -- The head is taken of a queue with these entries.
  pop-Moved :
      (key : Bytes) (v : V) (rest : List V) (l t : Local V C)
      → queue_of (l.entries key) ≡ v ∷ rest
      → l.entries ≡ t.entries
      → Moved l (taken key v) (pop key rest t)
  unfolding Moved queue put_at taken_at pop
  pop-Moved key v [] l t q e = head_taken key v [] l t none q e refl
  pop-Moved key v (w ∷ rest) l t q e = head_taken key v (w ∷ rest) l t (some (w ∷ rest)) q e refl

  probe-Moved :
      (key : Bytes) (q : List V) (l : Local V C)
      → queue_of (l.entries key) ≡ q
      → Moved l (inp_event key (inp_queue key q l).0) (inp_queue key q l).1
  unfolding inp_queue inp_event
  probe-Moved key [] l q = same_entries l l refl
  probe-Moved key (v ∷ rest) l q = pop-Moved key v rest l l q refl

  -- The event of a round that leaves its caller so.
  answered :
      (i : ℕ) (key : Bytes) (take : Bool) (l t : Local V C) {c : Caller V C}
      → t.callers i ≡ c
      → Moved l (answer_event key take c) t
      → Moved l (answer_event key take (t.callers i)) t
  answered i key take l t e m = subst (λ c. Moved l (answer_event key take c) t) (sym e) m

  pop-callers : (key : Bytes) (q : List V) (l : Local V C) → (pop key q l).callers ≡ l.callers
  unfolding pop
  pop-callers key [] l = refl
  pop-callers key (v ∷ rest) l = refl

  check_queue-Moved :
      (i : ℕ) (key : Bytes) (take : Bool) (q : List V) (l : Local V C)
      → queue_of (l.entries key) ≡ q
      → Moved l
          (answer_event key take ((check_queue i key take q l).callers i))
          (check_queue i key take q l)
  unfolding check_queue answer_event
  check_queue-Moved i key true [] l q =
      answered i key true l _ (assign_same l.callers i (waiting key true l.notify))
        (same_entries l _ refl)
  check_queue-Moved i key false [] l q = same_entries l _ refl
  check_queue-Moved i key false (v ∷ rest) l q = same_entries l _ refl
  check_queue-Moved i key true (v ∷ rest) l q =
      let t : Local V C = record l { callers = assign l.callers i (returned (ok v)) } in
      answered i key true l _
        (ap (λ c. c i) (pop-callers key rest t) ∙ assign_same l.callers i (returned (ok v)))
        (pop-Moved key v rest l t q refl)

  refused-Moved :
      (i : ℕ) (key : Bytes) (take : Bool) (l : Local V C)
      → (let t : Local V C = record l { callers = assign l.callers i (returned (err closed)) } in
          Moved l (answer_event key take (t.callers i)) t)
  unfolding answer_event
  refused-Moved i key true l =
      answered i key true l _ (assign_same l.callers i (returned (err closed)))
        (same_entries l _ refl)
  refused-Moved i key false l = same_entries l _ refl

  check-Moved :
      (i : ℕ) (key : Bytes) (take : Bool) (l : Local V C)
      → Moved l (answer_event key take ((check i key take l).callers i)) (check i key take l)
  unfolding check Moved queue
  check-Moved i key take l = elim (Bool-cases l.closed) [
    | inl c ↦ simp (check, c) (refused-Moved i key take l)
    | inr c ↦ simp (check, c) (check_queue-Moved i key take (queue_of (l.entries key)) l refl)
  ]

  close-Moved : (l : Local V C) → Moved l nothing (close l)
  unfolding close signal
  close-Moved l = elim (Bool-cases l.closed) [
    | inl c ↦ simp (close, c) (same_entries l l refl)
    | inr c ↦ simp (close, signal, c) (same_entries l _ refl)
  ]

  Step-Moved : {l t : Local V C} {e : Event V} → Step l e t → Moved l e t
  unfolding inp
  Step-Moved {l} (do_out key v) = out-Moved key v l
  Step-Moved {l} (call i key take p) = same_entries l _ refl
  Step-Moved {l} (look i {key} {take} p) = check-Moved i key take l
  Step-Moved {l} (wake i p lt) = same_entries l _ refl
  Step-Moved {l} (cancel i c p) = same_entries l _ refl
  Step-Moved {l} (probe key) = probe-Moved key (queue_of (l.entries key)) l refl
  Step-Moved {l} do_close = close-Moved l

moved :
    {V C : Type 0} (k : Bytes) {l t : Local V C} {e : Event V}
    → Step l e t
    → queue_of (l.entries k) ++ put_at k e ≡ taken_at k e ++ queue_of (t.entries k)
unfolding Moved queue
moved k st = Step-Moved k st

puts_next :
    {V : Type 0} (k : Bytes) (es : List (Event V)) (e : Event V)
    → puts k (es ++ (e ∷ [])) ≡ puts k es ++ put_at k e
unfolding puts
puts_next k [] e = append-nil (put_at k e)
puts_next k (x ∷ es) e =
    ap (λ q. put_at k x ++ q) (puts_next k es e)
    ∙ sym (append_assoc (put_at k x) (puts k es) (put_at k e))

takes_next :
    {V : Type 0} (k : Bytes) (es : List (Event V)) (e : Event V)
    → takes k (es ++ (e ∷ [])) ≡ takes k es ++ taken_at k e
unfolding takes
takes_next k [] e = append-nil (taken_at k e)
takes_next k (x ∷ es) e =
    ap (λ q. taken_at k x ++ q) (takes_next k es e)
    ∙ sym (append_assoc (taken_at k x) (takes k es) (taken_at k e))

-- Whatever the interleaving: the values that were put under a key are, in their order, those that
-- calls of `In` and `Inp` were answered from it, each of them once, and then those that are in its
-- queue.
pub queue_is_fifo :
    {V C : Type 0} {es : List (Event V)} {l : Local V C} (k : Bytes)
    → Run new_local es l
    → puts k es ≡ takes k es ++ queue_of (l.entries k)
unfolding puts takes
queue_is_fifo k here = refl
queue_is_fifo k (next {es} {e} {t} {u} r st) =
    puts_next k es e
    ∙ ap (λ q. q ++ put_at k e) (queue_is_fifo k r)
    ∙ append_assoc (takes k es) (queue_of (t.entries k)) (put_at k e)
    ∙ ap (λ q. takes k es ++ q) (moved k st)
    ∙ sym (append_assoc (takes k es) (taken_at k e) (queue_of (u.entries k)))
    ∙ ap (λ q. q ++ queue_of (u.entries k)) (sym (takes_next k es e))
