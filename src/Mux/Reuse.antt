-- ===== src/Mux/Reuse.antt =====
-- mux.go: a key that is used again while the `Request` that had it is about to return.
use isopace.Common.{ℕ, ◌≡◌, refl, ap, none, some, [], ◌∷◌, ◌++◌, Bytes, ok}
use isopace.Common.Tables.{assign_key, assign, assign_key_same}
use isopace.Mux.Steps.{
  Config, Mux, idle, active, sending, waiting, leaving, returned, delivering, receiving, new_mux,
  register, sent, finish, response_key, deliver_unsolicited, handler_of, dispatch, put_frame,
  HasRoom, Step, call, write, answer, leave, receive, deliver, Run, here, next,
}
use mathlib.Core.Path.{subst}

module _ {C : Type 0} (cfg : Config C) where
  pub register_step :
      (m : Mux C) (i : ℕ) (req k : Bytes)
      → m.calls i ≡ idle
      → cfg.key req ≡ ok k
      → m.pending k ≡ none
      → Step cfg m (record m {
        pending = assign_key m.pending k (some i);
        calls = assign m.calls i (active req k none sending);
      })
  unfolding register
  register_step m i req k p q d = subst (Step cfg m) (simp (register, q, d)) (call i req p)

  pub hand_over_step :
      (m : Mux C) (i : ℕ) (msg k : Bytes)
      → m.reader ≡ receiving
      → response_key cfg msg ≡ ok k
      → m.pending k ≡ some i
      → Step cfg m (record m { pending = assign_key m.pending k none; reader = delivering i msg })
  unfolding dispatch
  hand_over_step m i msg k p q d = subst (Step cfg m) (simp (dispatch, q, d)) (receive msg p)

  pub unmatched_step :
      (m : Mux C) (msg k : Bytes)
      → m.reader ≡ receiving
      → response_key cfg msg ≡ ok k
      → m.pending k ≡ none
      → Step cfg m (record m { handled = m.handled ++ ((handler_of cfg, msg) ∷ []) })
  unfolding dispatch deliver_unsolicited
  unmatched_step m msg k p q d = subst (Step cfg m) (simp (dispatch, q, d)) (receive msg p)

  module _ (a b f g k : Bytes) (ka : cfg.key a ≡ ok k) (kb : cfg.key b ≡ ok k)
      (kf : response_key cfg f ≡ ok k) (kg : response_key cfg g ≡ ok k) where
    -- The first request has its answer in hand, and has not deleted its entry yet.
    answered :
        (m : Mux C) × Run cfg new_mux m
        × (m.pending k ≡ none)
        × (m.reader ≡ receiving)
        × (m.calls 1 ≡ active a k none (leaving (ok f)))
        × (m.calls 2 ≡ idle)
        × (m.handled ≡ [])
    unfolding sent put_frame HasRoom
    answered =
        let r1 = next here (register_step new_mux 1 a k refl ka refl) in
        let r2 = next r1 (write 1 none refl) in
        let r3 =
          next r2 (hand_over_step _ 1 f k refl kf (assign_key_same (λ _. none) k (some 1))) in
        let r4 = next r3 (deliver 1 refl tt) in
        let r5 = next r4 (answer 1 refl) in
        (_, r5, assign_key_same (assign_key (λ _. none) k (some 1)) k none, refl, refl, refl, refl)

    -- Two requests with one key, of which the second is made when the first has its answer and has not
    -- run its deferred `delete` yet: the table can be reached in which the entry of the key is the
    -- second one's, that waits. There the `delete` of the first is its next step, which takes that
    -- entry away; and after it the answer of the second goes to the handler of unsolicited frames,
    -- while the second still waits and the table has no entry for it.
    pub reused_key_unanswered :
        (m : Mux C) × Run cfg new_mux m
        × (m.calls 1 ≡ active a k none (leaving (ok f)))
        × (m.calls 2 ≡ active b k none waiting)
        × (m.pending k ≡ some 2)
        × (let left : Mux C = finish 1 k m (active a k none (returned (ok f))) in
            Step cfg m left
            × (left.pending k ≡ none)
            × (left.calls 2 ≡ active b k none waiting)
            × ((n : Mux C) × Step cfg left n
                × (n.calls 2 ≡ active b k none waiting)
                × (n.handled ≡ (handler_of cfg, g) ∷ [])
                × (n.pending k ≡ none)))
    unfolding sent finish
    reused_key_unanswered =
        let (m, r, free, ready, first, second, quiet) = answered in
        let r1 = next r (register_step m 2 b k second kb free) in
        let r2 = next r1 (write 2 none refl) in
        let gone = assign_key_same (assign_key m.pending k (some 2)) k none in
        (
          _,
          r2,
          first,
          refl,
          assign_key_same m.pending k (some 2),
          (
            leave 1 first,
            gone,
            refl,
            (
              _,
              unmatched_step _ g k ready kg gone,
              refl,
              ap (λ x. x ++ ((handler_of cfg, g) ∷ [])) quiet,
              gone,
            ),
          ),
        )
