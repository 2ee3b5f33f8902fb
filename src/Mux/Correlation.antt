-- ===== src/Mux/Correlation.antt =====
-- mux.go: whom a frame is for, in every state that the interleaved goroutines reach.
use isopace.Common.{ℕ, ◌≡◌, ◌≢◌, ◌∙◌, refl, ap, Option, none, some, Bytes, Result, ok}
use isopace.Mux.Steps.{
  Config, Mux, MuxError, Call, idle, refused, active, Phase, sending, waiting, leaving, returned,
  receiving, delivering, new_mux, response_key, HasRoom, Step, deliver, Run,
}
use isopace.Mux.Invariant.{Waits, Expects, CallOf}
use isopace.Mux.Sound.{Run-IsSound}
use mathlib.Core.Path.{subst}

module _ {C : Type 0} {cfg : Config C} {m : Mux C} (r : Run cfg new_mux m) where
  -- Whatever the interleaving: a frame that a `Request` returns has the key of its request, as the
  -- response keyer gives it.
  pub returned_frame_matches :
      {i : ℕ} {req k msg : Bytes} {ch : Option Bytes}
      → m.calls i ≡ active req k ch (returned (ok msg))
      → (cfg.key req ≡ ok k) × (response_key cfg msg ≡ ok k)
  returned_frame_matches {i} p =
      let c = subst (CallOf cfg) p ((Run-IsSound cfg r).calls i) in (c.0, c.2)

  expected_room : (msg : Bytes) (c : Call C) → Expects cfg msg c → HasRoom c
  unfolding HasRoom
  expected_room msg (active _ _ none _) e = tt
  expected_room msg (active _ _ (some _) _) e = absurd e
  expected_room msg idle e = absurd e
  expected_room msg (refused _) e = absurd e

  -- Whatever the interleaving, and also when the `Request` has returned in the meantime: a reader
  -- that has a frame for a call is not blocked by its channel, and gets back to `Receive` in one
  -- step.
  pub reader_returns :
      {i : ℕ} {msg : Bytes}
      → m.reader ≡ delivering i msg
      → (n : Mux C) × Step cfg m n × (n.reader ≡ receiving)
  reader_returns {i} {msg} d =
      (_, deliver i d (expected_room msg (m.calls i) ((Run-IsSound cfg r).expects i msg d)), refl)

  in_flight :
      (k : Bytes) (c : Call C)
      → Waits k c
      → CallOf cfg c
      → (req : Bytes) × (at : Phase C) × (c ≡ active req k none at)
        × (cfg.key req ≡ ok k)
        × ((res : Result (MuxError C) Bytes) → at ≢ returned res)
  in_flight k (active req k' none (returned _)) w o = absurd w.1
  in_flight k (active req k' none sending) w o =
      (req, sending, ap (λ x. active req x none sending) w.0, o.0 ∙ ap ok w.0, λ res e. cc)
  in_flight k (active req k' none waiting) w o =
      (req, waiting, ap (λ x. active req x none waiting) w.0, o.0 ∙ ap ok w.0, λ res e. cc)
  in_flight k (active req k' none (leaving q)) w o =
      (req, leaving q, ap (λ x. active req x none (leaving q)) w.0, o.0 ∙ ap ok w.0, λ res e. cc)
  in_flight k (active _ _ (some _) _) w o = absurd w
  in_flight k idle w o = absurd w
  in_flight k (refused _) w o = absurd w

  -- Whatever the interleaving: an entry of the table stands for a call with that key that has not
  -- returned and has been given no frame, so that nothing is left behind in the table.
  pub pending_in_flight :
      {k : Bytes} {i : ℕ}
      → m.pending k ≡ some i
      → (req : Bytes) × (at : Phase C) × (m.calls i ≡ active req k none at)
        × (cfg.key req ≡ ok k)
        × ((res : Result (MuxError C) Bytes) → at ≢ returned res)
  pending_in_flight {k} {i} p =
      in_flight k (m.calls i) ((Run-IsSound cfg r).pending k i p) ((Run-IsSound cfg r).calls i)
