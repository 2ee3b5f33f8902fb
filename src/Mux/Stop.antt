-- ===== src/Mux/Stop.antt =====
-- mux.go: stopping a mux ends every call, and the first cause is the one that is reported.
use isopace.Common.{
  ℕ, ◌≡◌, ◌∙◌, refl, ap, inl, inr, Bool, true, false, Option, some, Bytes, if◌then◌else◌,
  Option-cases, Result-cases,
}
use isopace.Mux.Steps.{
  Config, Mux, MuxError, register, finish, closed_err, closed, stop, err_of, response_key,
  deliver_unsolicited, dispatch, send, Step, call, write, answer, cancel, expire, shut, leave,
  receive, deliver, fail, close, link_error, ended, Run, here, next,
}

module _ {C : Type 0} (cfg : Config C) where
  -- The flags of a mux that is stopped.
  abbrev pub Frozen : Mux C → Mux C → Type 0
  Frozen m n = (n.done ≡ m.done) × (n.read_err ≡ m.read_err)

  register-Frozen : (i : ℕ) (req : Bytes) (m : Mux C) → Frozen m (register cfg i req m)
  unfolding register
  register-Frozen i req m = elim (Result-cases (cfg.key req)) [
    | inr (e, q) ↦ simp (register, q) (refl, refl)
    | inl (k, q) ↦ elim (Option-cases (m.pending k)) [
      | inr (j, d) ↦ simp (register, q, d) (refl, refl)
      | inl d ↦ simp (register, q, d) (refl, refl)
    ]
  ]

  dispatch-Frozen : (msg : Bytes) (m : Mux C) → Frozen m (dispatch cfg msg m)
  unfolding dispatch deliver_unsolicited
  dispatch-Frozen msg m = elim (Result-cases (response_key cfg msg)) [
    | inr (e, q) ↦ simp (dispatch, q, deliver_unsolicited) (refl, refl)
    | inl (k, q) ↦ elim (Option-cases (m.pending k)) [
      | inr (j, d) ↦ simp (dispatch, q, d) (refl, refl)
      | inl d ↦ simp (dispatch, q, d, deliver_unsolicited) (refl, refl)
    ]
  ]

  stop_stopped : (cause : Option (MuxError C)) (m : Mux C) → m.done ≡ true → stop cause m ≡ m
  unfolding stop
  stop_stopped cause m d = go _ m.done d
    where
      go : (n : Mux C) (b : Bool) → b ≡ true → (if b then m else n) ≡ m
      go n true e = refl
      go n false e = cc

  -- No step of a stopped mux changes its flags.
  Step-Frozen : {m n : Mux C} → Step cfg m n → m.done ≡ true → Frozen m n
  unfolding finish
  Step-Frozen {m} (call i req _) d = register-Frozen i req m
  Step-Frozen (write i linked _) d = (refl, refl)
  Step-Frozen (answer i _) d = (refl, refl)
  Step-Frozen (cancel i c _) d = (refl, refl)
  Step-Frozen (expire i _ _) d = (refl, refl)
  Step-Frozen (shut i _ _) d = (refl, refl)
  Step-Frozen (leave i _) d = (refl, refl)
  Step-Frozen {m} (receive msg _) d = dispatch-Frozen msg m
  Step-Frozen (deliver i _ _) d = (refl, refl)
  Step-Frozen {m} (fail c _) d =
      let e = stop_stopped (some (link_error c)) (record m { reader = ended }) d in
      (ap (λ x. x.done) e, ap (λ x. x.read_err) e)
  Step-Frozen {m} close d =
      let e = stop_stopped (some closed) m d in (ap (λ x. x.done) e, ap (λ x. x.read_err) e)

  pub Run-Frozen : {m n : Mux C} → Run cfg m n → m.done ≡ true → Frozen m n
  Run-Frozen here d = (refl, refl)
  Run-Frozen (next r st) d =
      let f = Run-Frozen r d in let g = Step-Frozen st (f.0 ∙ d) in (g.0 ∙ f.0, g.1 ∙ f.1)

  -- When a mux that runs is stopped for a cause, by `Close` or by the read loop, `Err` gives that
  -- cause whatever happens afterwards, and `Send` refuses every frame with it.
  pub first_cause_wins :
      (m : Mux C) {n : Mux C} (cause : MuxError C)
      → m.done ≡ false
      → Run cfg (stop (some cause) m) n
      → (err_of n ≡ some cause) × ((linked : Option C) → send linked n ≡ some cause)
  unfolding err_of send closed_err stop
  first_cause_wins m {n} cause live r =
      let d : (stop (some cause) m).done ≡ true = rw (stop, live) refl in
      let e : (stop (some cause) m).read_err ≡ some cause = rw (stop, live) refl in
      let f = Run-Frozen r d in told n (f.0 ∙ d) (f.1 ∙ e)
    where
      told :
          (n : Mux C)
          → n.done ≡ true
          → n.read_err ≡ some cause
          → (err_of n ≡ some cause) × ((linked : Option C) → send linked n ≡ some cause)
      told n d e = (rw (err_of, d, e) refl, λ linked. rw (send, d, e) refl)
