-- ===== src/Space/Local/Wakeup.antt =====
-- space/local.go: no wake-up is lost.
use isopace.Common.{
  ℕ, ◌≤◌, ◌<◌, ◌≡◌, ◌≢◌, ◌⊎◌, ◌∙◌, refl, sym, ap, inl, inr, Bool, true, false, Option, none, some,
  List, [], ◌∷◌, Bytes, if◌then◌else◌, Bool-cases, ok, err, arith, Result,
}
use isopace.Common.Tables.{assign_key, assign, assign_key-cases, assign-cases, assign_same}
use isopace.Space.Local.{
  Local, LocalError, context_error, Caller, idle, checking, waiting, returned, closed, new_local,
  queue_of, signal, out, pop, close, inp, inp_queue, check, check_queue, Event, nothing, Step,
  do_out, call, look, wake, cancel, probe, do_close, Run, here, next,
}
use mathlib.Core.Path.{subst}

-- A caller in its `select` has seen no channel that is still to come, and its channel is closed or
-- it waits for good reason.
abbrev pub Justified : {V C : Type 0} → Local V C → Caller V C → Type 0
Justified l (waiting key take seen) =
    (seen ≤ l.notify) × ((seen < l.notify) ⊎ ((l.closed ≡ false) × (queue_of (l.entries key) ≡ [])))
Justified l _ = Unit

nil_ne_cons : {V : Type 0} {v : V} {rest : List V} → v ∷ rest ≢ []
nil_ne_cons e = cc

module _ {V C : Type 0} where
  -- A signal was given, or nothing that is waited for has come.
  Later : Local V C → Local V C → Type 0
  Later l t =
      (l.notify < t.notify)
      ⊎ ((t.notify ≡ l.notify)
          × (t.closed ≡ l.closed)
          × ((k : Bytes) → queue_of (l.entries k) ≡ [] → queue_of (t.entries k) ≡ []))

  stays :
      (l t : Local V C)
      → t.notify ≡ l.notify
      → t.closed ≡ l.closed
      → t.entries ≡ l.entries
      → Later l t
  unfolding Later
  stays l t n c e = inr (n, c, λ k q. ap (λ f. queue_of (f k)) e ∙ q)

  Later-Justified : (l t : Local V C) (c : Caller V C) → Later l t → Justified l c → Justified t c
  unfolding Later
  Later-Justified l t (waiting key take seen) (inl n) j =
      (omega (arith, n, j), inl (omega (arith, n, j)))
  Later-Justified l t (waiting key take seen) (inr (n, c, kept)) (le, inl lt) =
      (omega (arith, n, le), inl (omega (arith, n, lt)))
  Later-Justified l t (waiting key take seen) (inr (n, c, kept)) (le, inr (o, q)) =
      (omega (arith, n, le), inr (c ∙ o, kept key q))
  Later-Justified l t idle n j = tt
  Later-Justified l t (checking _ _) n j = tt
  Later-Justified l t (returned _) n j = tt

  AllJustified : Local V C → Type 0
  AllJustified l = (i : ℕ) → Justified l (l.callers i)

  -- A step that changes one caller.
  one_caller :
      (l t : Local V C) (i : ℕ) (c : Caller V C)
      → Later l t
      → t.callers ≡ assign l.callers i c
      → Justified t c
      → AllJustified l
      → AllJustified t
  unfolding AllJustified
  one_caller l t i c n e j h x = elim (assign-cases l.callers i c x) [
    | inl (_, a) ↦ subst (Justified t) (sym (ap (λ f. f x) e ∙ a)) j
    | inr (_, a) ↦
        subst (Justified t) (sym (ap (λ f. f x) e ∙ a)) (Later-Justified l t (l.callers x) n (h x))
  ]

  no_caller :
      (l t : Local V C) → Later l t → t.callers ≡ l.callers → AllJustified l → AllJustified t
  unfolding AllJustified
  no_caller l t n e h x =
      subst (Justified t) (sym (ap (λ f. f x) e)) (Later-Justified l t (l.callers x) n (h x))

  emptied :
      (key : Bytes) {v : V} {rest : List V} (l t : Local V C) (stored : Option (List V)) (k : Bytes)
      → queue_of (l.entries key) ≡ v ∷ rest
      → t.entries ≡ l.entries
      → queue_of (l.entries k) ≡ []
      → queue_of (assign_key t.entries key stored k) ≡ []
  emptied key l t stored k q e z = elim (assign_key-cases t.entries key stored k) [
    | inl (s, a) ↦ absurd (nil_ne_cons (sym q ∙ ap (λ x. queue_of (l.entries x)) (sym s) ∙ z))
    | inr (s, a) ↦ ap queue_of a ∙ ap (λ f. queue_of (f k)) e ∙ z
  ]

  -- A queue with a head loses it.
  pop-Later :
      (key : Bytes) (v : V) (rest : List V) (l t : Local V C)
      → queue_of (l.entries key) ≡ v ∷ rest
      → t.notify ≡ l.notify
      → t.closed ≡ l.closed
      → t.entries ≡ l.entries
      → Later l (pop key rest t)
  unfolding pop Later
  pop-Later key v [] l t q n c e = inr (n, c, λ k z. emptied key l t none k q e z)
  pop-Later key v (w ∷ rest) l t q n c e =
      inr (n, c, λ k z. emptied key l t (some (w ∷ rest)) k q e z)

  pop-callers : (key : Bytes) (rest : List V) (l : Local V C) → (pop key rest l).callers ≡ l.callers
  unfolding pop
  pop-callers key [] l = refl
  pop-callers key (v ∷ rest) l = refl

  check_queue-AllJustified :
      (i : ℕ) (key : Bytes) (take : Bool) (q : List V) (l : Local V C)
      → l.closed ≡ false
      → queue_of (l.entries key) ≡ q
      → AllJustified l
      → AllJustified (check_queue i key take q l)
  unfolding check_queue
  check_queue-AllJustified i key take [] l o q h =
      one_caller l _ i (waiting key take l.notify) (stays l _ refl refl refl) refl
        (omega arith, inr (o, q)) h
  check_queue-AllJustified i key false (v ∷ rest) l o q h =
      one_caller l _ i (returned (ok v)) (stays l _ refl refl refl) refl tt h
  check_queue-AllJustified i key true (v ∷ rest) l o q h =
      let t : Local V C = record l { callers = assign l.callers i (returned (ok v)) } in
      one_caller l (pop key rest t) i (returned (ok v)) (pop-Later key v rest l t q refl refl refl)
        (pop-callers key rest t) tt h

  check-AllJustified :
      (i : ℕ) (key : Bytes) (take : Bool) (l : Local V C)
      → AllJustified l
      → AllJustified (check i key take l)
  unfolding check
  check-AllJustified i key take l h = elim (Bool-cases l.closed) [
    | inl c ↦
        simp (check, c)
          (one_caller l _ i (returned (err closed)) (stays l _ refl (sym c) refl) refl tt h)
    | inr c ↦ simp (check, c) (check_queue-AllJustified i key take _ l c refl h)
  ]

  inp_queue-AllJustified :
      (key : Bytes) (q : List V) (l : Local V C)
      → queue_of (l.entries key) ≡ q
      → AllJustified l
      → AllJustified (inp_queue key q l).1
  unfolding inp_queue
  inp_queue-AllJustified key [] l q h = h
  inp_queue-AllJustified key (v ∷ rest) l q h =
      no_caller l _ (pop-Later key v rest l l q refl refl refl) (pop-callers key rest l) h

  signalled :
      (l t : Local V C)
      → l.notify < t.notify
      → t.callers ≡ l.callers
      → AllJustified l
      → AllJustified t
  unfolding Later
  signalled l t lt e h = no_caller l t (inl lt) e h

  out-AllJustified :
      (key : Bytes) (v : V) (l : Local V C) → AllJustified l → AllJustified (out key v l)
  unfolding out signal
  out-AllJustified key v l h = elim (Bool-cases l.closed) [
    | inl c ↦ simp (out, c) h
    | inr c ↦ simp (out, signal, c) (signalled l _ (omega arith) refl h)
  ]

  close-AllJustified : (l : Local V C) → AllJustified l → AllJustified (close l)
  unfolding close signal
  close-AllJustified l h = elim (Bool-cases l.closed) [
    | inl c ↦ simp (close, c) h
    | inr c ↦ simp (close, signal, c) (signalled l _ (omega arith) refl h)
  ]

  Step-AllJustified : {l t : Local V C} {e : Event V} → Step l e t → AllJustified l → AllJustified t
  unfolding inp
  Step-AllJustified {l} (do_out key v) h = out-AllJustified key v l h
  Step-AllJustified {l} (call i key take p) h =
      one_caller l _ i (checking key take) (stays l _ refl refl refl) refl tt h
  Step-AllJustified {l} (look i {key} {take} p) h = check-AllJustified i key take l h
  Step-AllJustified {l} (wake i {key} {take} p lt) h =
      one_caller l _ i (checking key take) (stays l _ refl refl refl) refl tt h
  Step-AllJustified {l} (cancel i c p) h =
      one_caller l _ i (returned (err (context_error c))) (stays l _ refl refl refl) refl tt h
  Step-AllJustified {l} (probe key) h =
      inp_queue-AllJustified key (queue_of (l.entries key)) l refl h
  Step-AllJustified {l} do_close h = close-AllJustified l h

  Run-AllJustified : {es : List (Event V)} {l : Local V C} → Run new_local es l → AllJustified l
  unfolding AllJustified
  Run-AllJustified here = λ i. tt
  Run-AllJustified (next r st) = Step-AllJustified st (Run-AllJustified r)

  -- What a caller gets that looks now.
  abbrev pub Ready : Local V C → Bytes → Result (LocalError C) V → Type 0
  Ready l key (ok v) =
      (l.closed ≡ false) × ((rest : List V) × (queue_of (l.entries key) ≡ v ∷ rest))
  Ready l key (err e) = (l.closed ≡ true) × (e ≡ closed)

  awake :
      (l : Local V C) (i : ℕ) (key : Bytes) (take : Bool) (seen : ℕ) (res : Result (LocalError C) V)
      → Ready l key res
      → Justified l (waiting key take seen)
      → seen < l.notify
  awake l i key take seen (ok v) g (le, inl lt) = lt
  awake l i key take seen (ok v) g (le, inr (c, z)) = absurd (nil_ne_cons (sym g.1.1 ∙ z))
  awake l i key take seen (err e) g (le, inl lt) = lt
  awake l i key take seen (err e) g (le, inr (c, z)) = cc (sym g.0 ∙ c)

  looked :
      (l : Local V C) (i : ℕ) (key : Bytes) (take : Bool) (res : Result (LocalError C) V)
      → Ready l key res
      → (check i key take l).callers i ≡ returned res
  unfolding check check_queue pop
  looked l i key take (err e) (o, same) =
      ap
        (λ (b : Bool).
          (if b
              then record l { callers = assign l.callers i (returned (err closed)) }
              else check_queue i key take (queue_of (l.entries key)) l).callers
            i)
        o
      ∙ assign_same l.callers i (returned (err closed))
      ∙ ap (λ x. returned (err x)) (sym same)
  looked l i key take (ok v) (o, (rest, q)) =
      ap
        (λ (b : Bool).
          (if b
              then record l { callers = assign l.callers i (returned (err closed)) }
              else check_queue i key take (queue_of (l.entries key)) l).callers
            i)
        o
      ∙ ap (λ x. (check_queue i key take x l).callers i) q
      ∙ found take
    where
      found : (take : Bool) → (check_queue i key take (v ∷ rest) l).callers i ≡ returned (ok v)
      found false = assign_same l.callers i (returned (ok v))
      found true =
          ap (λ f. f i)
            (pop-callers key rest (record l { callers = assign l.callers i (returned (ok v)) }))
          ∙ assign_same l.callers i (returned (ok v))

  still :
      (l t : Local V C) (key : Bytes) (res : Result (LocalError C) V)
      → t.closed ≡ l.closed
      → t.entries ≡ l.entries
      → Ready l key res
      → Ready t key res
  still l t key (ok v) c e (o, (rest, q)) = (c ∙ o, (rest, ap (λ f. queue_of (f key)) e ∙ q))
  still l t key (err x) c e (o, same) = (c ∙ o, same)

  -- Whatever the interleaving, no wake-up is lost: a caller of `In` or `Rd` that waits while there is an
  -- entry under its key can return with the head, and one that waits while the space is closed can
  -- return with `ErrClosed`, by two steps of its own.
  pub waiting_caller_returns :
      {es : List (Event V)} {l : Local V C} {i : ℕ} {key : Bytes} {take : Bool} {seen : ℕ}
      (res : Result (LocalError C) V)
      → Run new_local es l
      → l.callers i ≡ waiting key take seen
      → Ready l key res
      → (e : Event V) × (t : Local V C) × Run l (nothing ∷ e ∷ []) t × (t.callers i ≡ returned res)
  unfolding AllJustified
  waiting_caller_returns {l = l} {i} {key} {take} {seen} res r p g =
      let lt = awake l i key take seen res g (subst (Justified l) p (Run-AllJustified r i)) in
      let c : Local V C = record l { callers = assign l.callers i (checking key take) } in
      let at : c.callers i ≡ checking key take = assign_same l.callers i (checking key take) in
      (
        _,
        _,
        next (next here (wake i p lt)) (look i at),
        looked c i key take res (still l c key res refl refl g),
      )
