-- ===== src/Mux/Sound.antt =====
-- mux.go: every step keeps what holds of the calls, the table and the reader.
use isopace.Common.{
  ℕ, ◌≡◌, ◌≢◌, ◌∙◌, sym, ap, inl, inr, true, false, Option, none, some, Bytes, Result, ok, err,
  Bool, if◌then◌else◌, Option-cases, Result-cases, some_injective,
}
use isopace.Common.Tables.{assign_key, assign, assign_key-cases, assign_same, assign-cases}
use isopace.Mux.Steps.{
  Config, Mux, MuxError, Call, idle, refused, active, sending, leaving, returned, receiving,
  delivering, new_mux, register, sent, finish, stop, response_key, deliver_unsolicited, dispatch,
  put_frame, Step, call, write, answer, cancel, expire, shut, leave, receive, deliver, fail, close,
  Run, here, next,
}
use mathlib.Core.Path.{subst}
use isopace.Mux.Invariant.{
  PhaseOf, CallOf, IsRunning, Waits, Expects, IsSound, new_mux-IsSound, update-IsSound,
  Expects-phase, call_of, advance-IsSound, delete-IsSound, answer-IsSound, Waits_one,
  delivering_injective, eq_false,
}

module _ {C : Type 0} (cfg : Config C) where
  register-IsSound :
      {m : Mux C} (h : IsSound cfg m) (i : ℕ) (req : Bytes)
      → m.calls i ≡ idle
      → IsSound cfg (register cfg i req m)
  unfolding register
  register-IsSound {m} h i req p = elim (Result-cases (cfg.key req)) [
    | inr (e, q) ↦ rw (register, q) (plain _ tt)
    | inl (k, q) ↦ elim (Option-cases (m.pending k)) [
      | inr (j, d) ↦ rw (register, q, d) (plain _ tt)
      | inl d ↦ rw (register, q, d) (enter k q)
    ]
  ]
    where
      plain : (c : Call C) → CallOf cfg c → IsSound cfg (record m { calls = assign m.calls i c })
      plain c o =
          update-IsSound cfg h i c o (λ j w. absurd (subst (Waits j) p w))
            (λ f e. absurd (subst (Expects cfg f) p e))

      enter :
          (k : Bytes)
          → cfg.key req ≡ ok k
          → IsSound cfg (record m {
            pending = assign_key m.pending k (some i);
            calls = assign m.calls i (active req k none sending);
          })
      enter k q =
          let u = plain (active req k none sending) (q, tt, tt) in
          record {
            calls = u.calls;
            pending = λ j x e. elim (assign_key-cases m.pending k (some i) j) [
              | inl (same, v) ↦
                  subst (λ y. Waits j (assign m.calls i (active req k none sending) y))
                    (some_injective (sym v ∙ e))
                    (subst (Waits j) (sym (assign_same m.calls i _)) (sym same, tt))
              | inr (_, v) ↦ u.pending j x (sym v ∙ e)
            ];
            expects = u.expects;
            apart = λ x msg j d e. elim (assign_key-cases m.pending k (some i) j) [
              | inl (_, v) ↦ absurd (
                  subst (Expects cfg msg) (ap m.calls (sym (some_injective (sym v ∙ e))) ∙ p)
                    (h.expects x msg d))
              | inr (_, v) ↦ h.apart x msg j d (sym v ∙ e)
            ];
          }

  unsolicited-IsSound :
      {m : Mux C} (h : IsSound cfg m) (msg : Bytes) → IsSound cfg (deliver_unsolicited cfg msg m)
  unfolding deliver_unsolicited
  unsolicited-IsSound h msg = record {
    calls = h.calls;
    pending = h.pending;
    expects = h.expects;
    apart = h.apart;
  }

  dispatch-IsSound :
      {m : Mux C} (h : IsSound cfg m) (msg : Bytes) → IsSound cfg (dispatch cfg msg m)
  unfolding dispatch
  dispatch-IsSound {m} h msg = elim (Result-cases (response_key cfg msg)) [
    | inr (e, q) ↦ rw (dispatch, q) (unsolicited-IsSound h msg)
    | inl (k, q) ↦ elim (Option-cases (m.pending k)) [
      | inl d ↦ rw (dispatch, q, d) (unsolicited-IsSound h msg)
      | inr (i, d) ↦ rw (dispatch, q, d) (hand k i q d)
    ]
  ]
    where
      expecting :
          (k : Bytes) (c : Call C) → response_key cfg msg ≡ ok k → Waits k c → Expects cfg msg c
      expecting k (active _ _ none at) q w = q ∙ ap ok (sym w.0)
      expecting k idle q w = absurd w
      expecting k (refused _) q w = absurd w
      expecting k (active _ _ (some _) at) q w = absurd w

      hand :
          (k : Bytes) (i : ℕ)
          → response_key cfg msg ≡ ok k
          → m.pending k ≡ some i
          → IsSound cfg
              (record m { pending = assign_key m.pending k none; reader = delivering i msg })
      hand k i q d =
          let u = delete-IsSound cfg h k in
          record {
            calls = u.calls;
            pending = u.pending;
            expects = λ j f e.
                let it = delivering_injective cfg e in
                subst (λ y. Expects cfg y (m.calls j)) it.1
                  (expecting k (m.calls j) q (h.pending k j (d ∙ ap some it.0)));
            apart = λ j f x e g. elim (assign_key-cases m.pending k none x) [
              | inl (_, v) ↦ cc
              | inr (ne, v) ↦ absurd (
                  eq_false cfg ne
                    (Waits_one cfg h (sym v ∙ g) (d ∙ ap some (delivering_injective cfg e).0)))
            ];
          }

  leave-IsSound :
      {m : Mux C} (h : IsSound cfg m) (i : ℕ) {req k : Bytes} {ch : Option Bytes}
      {r : Result (MuxError C) Bytes}
      → m.calls i ≡ active req k ch (leaving r)
      → IsSound cfg (finish i k m (active req k ch (returned r)))
  unfolding finish
  leave-IsSound {m} h i {req} {k} {ch} {r} p =
      let o = call_of cfg h i p in
      let c : Call C = active req k ch (returned r) in
      let gone = delete-IsSound cfg h k in
      record {
        calls = λ j. elim (assign-cases m.calls i c j) [
          | inl (e, q) ↦ subst (CallOf cfg) (sym q) (o.0, o.1, result r o.2)
          | inr (e, q) ↦ subst (CallOf cfg) (sym q) (h.calls j)
        ];
        pending = λ j x e. elim (assign-cases m.calls i c x) [
          | inl (same, q) ↦ absurd (other j x same e)
          | inr (_, q) ↦ subst (Waits j) (sym q) (gone.pending j x e)
        ];
        expects = λ j msg d. elim (assign-cases m.calls i c j) [
          | inl (same, q) ↦ subst (Expects cfg msg) (sym q) (
              Expects-phase cfg req k ch (leaving r) (returned r) msg
                (subst (Expects cfg msg) (ap m.calls same ∙ p) (h.expects j msg d)))
          | inr (_, q) ↦ subst (Expects cfg msg) (sym q) (h.expects j msg d)
        ];
        apart = gone.apart;
      }
    where
      result :
          (r : Result (MuxError C) Bytes) → PhaseOf cfg k (leaving r) → PhaseOf cfg k (returned r)
      result (ok msg) o = o
      result (err e) o = tt

      key_of : (ch : Option Bytes) (j : Bytes) → Waits j (active req k ch (leaving r)) → k ≡ j
      key_of none j w = w.0
      key_of (some _) j w = absurd w

      other : (j : Bytes) (x : ℕ) → x ≡ i → assign_key m.pending k none j ≢ some x
      other j x same e = elim (assign_key-cases m.pending k none j) [
        | inl (_, v) ↦ cc
        | inr (ne, v) ↦
            eq_false cfg ne (
              sym (key_of ch j (subst (Waits j) (ap m.calls same ∙ p) (h.pending j x (sym v ∙ e)))))
      ]

  deliver-IsSound :
      {m : Mux C} (h : IsSound cfg m) (i : ℕ) {msg : Bytes}
      → m.reader ≡ delivering i msg
      → IsSound cfg
          (record m { calls = assign m.calls i (put_frame msg (m.calls i)); reader = receiving })
  unfolding put_frame
  deliver-IsSound {m} h i {msg} d = record {
    calls = λ j. elim (assign-cases m.calls i (put_frame msg (m.calls i)) j) [
      | inl (e, q) ↦ subst (CallOf cfg) (sym q) (put (m.calls i) (h.expects i msg d) (h.calls i))
      | inr (e, q) ↦ subst (CallOf cfg) (sym q) (h.calls j)
    ];
    pending = λ k j p. elim (assign-cases m.calls i (put_frame msg (m.calls i)) j) [
      | inl (e, q) ↦ absurd (h.apart i msg k d (p ∙ ap some e))
      | inr (e, q) ↦ subst (Waits k) (sym q) (h.pending k j p)
    ];
    expects = λ j f e. cc;
    apart = λ j f k e p. cc;
  }
    where
      put : (c : Call C) → Expects cfg msg c → CallOf cfg c → CallOf cfg (put_frame msg c)
      put (active req k none at) e o = (o.0, e, o.2)
      put (active req k (some _) at) e o = absurd e
      put idle e o = tt
      put (refused _) e o = tt

  -- The reader stops or stands at `Receive`, and the flags change.
  stop-IsSound :
      {m : Mux C} (h : IsSound cfg m) (cause : Option (MuxError C)) → IsSound cfg (stop cause m)
  unfolding stop
  stop-IsSound {m} h cause = go m.done
    where
      stopped : Mux C
      stopped = record m {
        done = true;
        read_err = elim cause [ some e ↦ some e | none ↦ m.read_err ];
      }

      go : (b : Bool) → IsSound cfg (if b then m else stopped)
      go true = h
      go false = record {
        calls = h.calls;
        pending = h.pending;
        expects = h.expects;
        apart = h.apart;
      }

  sent-IsRunning : (linked : Option C) → IsRunning (sent linked)
  unfolding sent
  sent-IsRunning none = tt
  sent-IsRunning (some c) = tt

  sent-PhaseOf : (k : Bytes) (linked : Option C) → PhaseOf cfg k (sent linked)
  unfolding sent
  sent-PhaseOf k none = tt
  sent-PhaseOf k (some c) = tt

  -- Every step keeps the invariant.
  pub Step-IsSound : {m n : Mux C} → Step cfg m n → IsSound cfg m → IsSound cfg n
  Step-IsSound (call i req p) h = register-IsSound h i req p
  Step-IsSound (write i {k} linked p) h =
      advance-IsSound cfg h i p (sent linked) (sent-IsRunning linked) (sent-PhaseOf k linked)
  Step-IsSound (answer i p) h = answer-IsSound cfg h i p
  Step-IsSound (cancel i c p) h = advance-IsSound cfg h i p _ tt tt
  Step-IsSound (expire i _ p) h = advance-IsSound cfg h i p _ tt tt
  Step-IsSound (shut i _ p) h = advance-IsSound cfg h i p _ tt tt
  Step-IsSound (leave i p) h = leave-IsSound h i p
  Step-IsSound (receive msg _) h = dispatch-IsSound h msg
  Step-IsSound (deliver i d _) h = deliver-IsSound h i d
  Step-IsSound (fail c q) h =
      stop-IsSound
        (record {
          calls = h.calls;
          pending = h.pending;
          expects = λ i msg d. cc;
          apart = λ i msg k d p. cc;
        })
        _
  Step-IsSound close h = stop-IsSound h _

  pub Run-IsSound : {m : Mux C} → Run cfg new_mux m → IsSound cfg m
  Run-IsSound here = new_mux-IsSound cfg
  Run-IsSound (next r st) = Step-IsSound st (Run-IsSound r)
