-- ===== src/Mux/Leaving.antt =====
-- mux.go: when a mux is stopped, every call that waits returns, whatever the others do.
use isopace.Common.{
  ℕ, ◌≡◌, ◌⊎◌, ◌∙◌, refl, sym, ap, inl, inr, true, Option, none, some, Bytes, Result, err,
  Bool-cases, Option-cases, Result-cases,
}
use isopace.Common.Tables.{assign, assign-cases, assign_same}
use isopace.Mux.Steps.{
  Config, Mux, MuxError, Call, idle, refused, active, sending, waiting, leaving, returned, register,
  finish, closed_err, closed, stop, response_key, deliver_unsolicited, dispatch, put_frame, Step,
  call, write, answer, cancel, expire, shut, leave, receive, deliver, fail, close, link_error,
  ended, key_error, duplicate_key, Run, here, next,
}
use isopace.Mux.Stop.{Run-Frozen}
use mathlib.Core.Path.{subst}

-- The call whose goroutine makes a step, if it is one of a call.
abbrev pub actor : {C : Type 0} {cfg : Config C} {m n : Mux C} → Step cfg m n → Option ℕ
actor (call i req p) = some i
actor (write i linked p) = some i
actor (answer i p) = some i
actor (cancel i c p) = some i
actor (expire i t p) = some i
actor (shut i d p) = some i
actor (leave i p) = some i
actor (receive msg p) = none
actor (deliver i p room) = none
actor (fail c p) = none
actor close = none

-- Steps of one call alone.
pub data OwnRun {C : Type 0} (cfg : Config C) (i : ℕ) (s : Mux C) : Mux C → Type 0 where
  stay : OwnRun cfg i s s
  act :
      {t u : Mux C} → OwnRun cfg i s t → (st : Step cfg t u) → actor st ≡ some i → OwnRun cfg i s u

module _ {C : Type 0} (cfg : Config C) (req k : Bytes) where
  -- The call is in its `select` or behind it.
  Late : Call C → Type 0
  Late (active r j _ sending) = ⊥
  Late (active r j _ waiting) = (r ≡ req) × (j ≡ k)
  Late (active r j _ (leaving _)) = (r ≡ req) × (j ≡ k)
  Late (active r j _ (returned _)) = (r ≡ req) × (j ≡ k)
  Late idle = ⊥
  Late (refused _) = ⊥

  keeps :
      (calls : ℕ → Call C) (i j : ℕ) (c : Call C)
      → (Late (calls j) → Late c)
      → Late (calls i)
      → Late (assign calls j c i)
  keeps calls i j c f l = elim (assign-cases calls j c i) [
    | inl (e, v) ↦ subst Late (sym v) (f (subst (λ x. Late (calls x)) e l))
    | inr (_, v) ↦ subst Late (sym v) l
  ]

  put_frame-Late : (msg : Bytes) (c : Call C) → Late c → Late (put_frame msg c)
  unfolding Late put_frame
  put_frame-Late msg (active r j _ sending) l = l
  put_frame-Late msg (active r j _ waiting) l = l
  put_frame-Late msg (active r j _ (leaving _)) l = l
  put_frame-Late msg (active r j _ (returned _)) l = l
  put_frame-Late msg idle l = l
  put_frame-Late msg (refused _) l = l

  register-Late :
      (i j : ℕ) (r : Bytes) (m : Mux C)
      → m.calls j ≡ idle
      → Late (m.calls i)
      → Late ((register cfg j r m).calls i)
  unfolding register Late
  register-Late i j r m p l =
      let gone =
        λ (c : Call C) (h : Late (m.calls j)). (let d : Late c = absurd (subst Late p h) in d) in
      elim (Result-cases (cfg.key r)) [
        | inr (e, q) ↦ rw (register, q) (keeps m.calls i j _ (gone (refused (key_error e))) l)
        | inl (x, q) ↦ elim (Option-cases (m.pending x)) [
          | inr (y, d) ↦ rw (register, q, d) (keeps m.calls i j _ (gone (refused duplicate_key)) l)
          | inl d ↦ rw (register, q, d) (keeps m.calls i j _ (gone (active r x none sending)) l)
        ]
      ]

  dispatch-calls : (msg : Bytes) (m : Mux C) → (dispatch cfg msg m).calls ≡ m.calls
  unfolding dispatch deliver_unsolicited
  dispatch-calls msg m = elim (Result-cases (response_key cfg msg)) [
    | inr (e, q) ↦ rw (dispatch, q, deliver_unsolicited) refl
    | inl (x, q) ↦ elim (Option-cases (m.pending x)) [
      | inr (y, d) ↦ rw (dispatch, q, d) refl
      | inl d ↦ rw (dispatch, q, d, deliver_unsolicited) refl
    ]
  ]

  stop-calls : (cause : Option (MuxError C)) (m : Mux C) → (stop cause m).calls ≡ m.calls
  unfolding stop
  stop-calls cause m = elim (Bool-cases m.done) [
    | inl e ↦ rw (stop, e) refl
    | inr e ↦ rw (stop, e) refl
  ]

  Step-Late : (i : ℕ) {m n : Mux C} → Step cfg m n → Late (m.calls i) → Late (n.calls i)
  unfolding finish Late
  Step-Late i {m} (call j r p) l = register-Late i j r m p l
  Step-Late i {m} (write j linked p) l = keeps m.calls i j _ (λ h. absurd (subst Late p h)) l
  Step-Late i {m} (answer j p) l = keeps m.calls i j _ (λ h. subst Late p h) l
  Step-Late i {m} (cancel j c p) l = keeps m.calls i j _ (λ h. subst Late p h) l
  Step-Late i {m} (expire j t p) l = keeps m.calls i j _ (λ h. subst Late p h) l
  Step-Late i {m} (shut j d p) l = keeps m.calls i j _ (λ h. subst Late p h) l
  Step-Late i {m} (leave j p) l = keeps m.calls i j _ (λ h. subst Late p h) l
  Step-Late i {m} (receive msg p) l = subst (λ f. Late (f i)) (sym (dispatch-calls msg m)) l
  Step-Late i {m} (deliver j {msg} p room) l =
      keeps m.calls i j _ (put_frame-Late msg (m.calls j)) l
  Step-Late i {m} (fail c p) l =
      subst (λ f. Late (f i)) (sym (stop-calls (some (link_error c)) (record m { reader = ended })))
        l
  Step-Late i {m} close l = subst (λ f. Late (f i)) (sym (stop-calls (some closed) m)) l

  Run-Late : (i : ℕ) {m n : Mux C} → Run cfg m n → Late (m.calls i) → Late (n.calls i)
  Run-Late i here l = l
  Run-Late i (next r st) l = Step-Late i st (Run-Late i r l)

  -- The call returns by steps of its own alone, from `n`: with this cause, unless it has left its
  -- `select` before with the result that it returns.
  abbrev pub Returns : ℕ → MuxError C → Mux C → Type 0
  Returns i cause n =
      (ch : Option Bytes) × (res : Result (MuxError C) Bytes) × (t : Mux C) × OwnRun cfg i n t
      × (t.calls i ≡ active req k ch (returned res))
      × ((res ≡ err cause)
          ⊎ ((n.calls i ≡ active req k ch (leaving res))
              ⊎ (n.calls i ≡ active req k ch (returned res))))

  Late-Returns :
      (i : ℕ) (n : Mux C) (c : Call C)
      → n.done ≡ true
      → n.calls i ≡ c
      → Late c
      → Returns i (closed_err n) n
  unfolding Late finish
  Late-Returns i n (active r j ch waiting) d p (er, ej) =
      let q : n.calls i ≡ active req k ch waiting = p ∙ (λ t. active (er t) (ej t) ch waiting) in
      let c : Call C = active req k ch (leaving (err (closed_err n))) in
      (
        ch,
        err (closed_err n),
        _,
        act (act stay (shut i d q) refl) (leave i (assign_same n.calls i c)) refl,
        assign_same (assign n.calls i c) i _,
        inl refl,
      )
  Late-Returns i n (active r j ch (leaving res)) d p (er, ej) =
      let q : n.calls i ≡ active req k ch (leaving res) =
        p ∙ (λ t. active (er t) (ej t) ch (leaving res)) in
      (ch, res, _, act stay (leave i q) refl, assign_same n.calls i _, inr (inl q))
  Late-Returns i n (active r j ch (returned res)) d p (er, ej) =
      let q : n.calls i ≡ active req k ch (returned res) =
        p ∙ (λ t. active (er t) (ej t) ch (returned res)) in
      (ch, res, n, stay, q, inr (inr q))
  Late-Returns i n (active r j ch sending) d p l = absurd l
  Late-Returns i n idle d p l = absurd l
  Late-Returns i n (refused e) d p l = absurd l

  -- Whatever has been done since the mux was stopped: every `Request` that was in its `select` then
  -- can return by steps of its own alone, if it has not returned yet, and with the cause of the
  -- stop, unless it has left its `select` already, with the result that it returns.
  pub stopped_request-Returns :
      {m n : Mux C} (i : ℕ) {ch : Option Bytes}
      → m.done ≡ true
      → m.calls i ≡ active req k ch waiting
      → Run cfg m n
      → Returns i (closed_err m) n
  unfolding Late closed_err
  stopped_request-Returns {m} {n} i d p r =
      let f = Run-Frozen cfg r d in
      subst (λ e. Returns i e n)
        (ap (λ (o : Option (MuxError C)). elim o [ some e ↦ e | none ↦ closed ]) f.1)
        (Late-Returns i n (n.calls i) (f.0 ∙ d) refl
          (Run-Late i r (subst Late (sym p) (refl, refl))))
