-- ===== src/Mux/Invariant.antt =====
-- mux.go: what holds of the calls, the table and the reader, and of a change to one of them.
use isopace.Common.{
  ℕ, ◌≡◌, ◌≢◌, ◌∙◌, sym, ap, inl, inr, false, Option, none, some, Bytes, ok, eq_bytes, eq_bytes_iff,
}
use isopace.Common.Tables.{assign_key, assign, assign_key-cases, assign-cases}
use isopace.Mux.Steps.{
  Config, Mux, Call, idle, refused, active, Phase, waiting, leaving, returned, receiving,
  delivering, ended, new_mux, response_key,
}
use mathlib.Core.Path.{subst}

-- What a call got or returned is a frame that the response keyer gives its key.
abbrev pub PhaseOf : {C : Type 0} → Config C → Bytes → Phase C → Type 0
PhaseOf cfg k (leaving (ok msg)) = response_key cfg msg ≡ ok k
PhaseOf cfg k (returned (ok msg)) = response_key cfg msg ≡ ok k
PhaseOf cfg k _ = Unit

abbrev pub BufferOf : {C : Type 0} → Config C → Bytes → Option Bytes → Type 0
BufferOf cfg k none = Unit
BufferOf cfg k (some msg) = response_key cfg msg ≡ ok k

abbrev pub CallOf : {C : Type 0} → Config C → Call C → Type 0
CallOf cfg (active req k ch at) = (cfg.key req ≡ ok k) × BufferOf cfg k ch × PhaseOf cfg k at
CallOf cfg _ = Unit

abbrev pub IsRunning : {C : Type 0} → Phase C → Type 0
IsRunning (returned _) = ⊥
IsRunning _ = Unit

-- The call may be in the table under `k`: it has no frame yet and has not returned.
abbrev pub Waits : {C : Type 0} → Bytes → Call C → Type 0
Waits k (active _ k' none at) = (k' ≡ k) × IsRunning at
Waits k _ = ⊥

-- The call may be given the frame: its channel is empty.
abbrev pub Expects : {C : Type 0} → Config C → Bytes → Call C → Type 0
Expects cfg msg (active _ k none _) = response_key cfg msg ≡ ok k
Expects cfg msg _ = ⊥

pub record IsSound {C : Type 0} (cfg : Config C) (m : Mux C) : Type 0 where
  pub calls : (i : ℕ) → CallOf cfg (m.calls i)
  pub pending : (k : Bytes) (i : ℕ) → m.pending k ≡ some i → Waits k (m.calls i)
  pub expects : (i : ℕ) (msg : Bytes) → m.reader ≡ delivering i msg → Expects cfg msg (m.calls i)
  pub apart : (i : ℕ) (msg k : Bytes) → m.reader ≡ delivering i msg → m.pending k ≢ some i

module _ {C : Type 0} (cfg : Config C) where
  pub new_mux-IsSound : IsSound cfg new_mux
  new_mux-IsSound = record {
    calls = λ i. tt;
    pending = λ k i q. cc;
    expects = λ i msg q. cc;
    apart = λ i msg k q e. cc;
  }

  -- A step that changes one call, and neither the table nor the reader.
  module _ {m : Mux C} (h : IsSound cfg m) (i : ℕ) (c : Call C) where
    pub update-IsSound :
        CallOf cfg c
        → ((k : Bytes) → Waits k (m.calls i) → Waits k c)
        → ((msg : Bytes) → Expects cfg msg (m.calls i) → Expects cfg msg c)
        → IsSound cfg (record m { calls = assign m.calls i c })
    update-IsSound hc hw he = record {
      calls = λ j. elim (assign-cases m.calls i c j) [
        | inl (e, q) ↦ subst (CallOf cfg) (sym q) hc
        | inr (e, q) ↦ subst (CallOf cfg) (sym q) (h.calls j)
      ];
      pending = λ k j p. elim (assign-cases m.calls i c j) [
        | inl (e, q) ↦
            subst (Waits k) (sym q) (hw k (subst (λ x. Waits k (m.calls x)) e (h.pending k j p)))
        | inr (e, q) ↦ subst (Waits k) (sym q) (h.pending k j p)
      ];
      expects = λ j msg p. elim (assign-cases m.calls i c j) [
        | inl (e, q) ↦
            subst (Expects cfg msg) (sym q)
              (he msg (subst (λ x. Expects cfg msg (m.calls x)) e (h.expects j msg p)))
        | inr (e, q) ↦ subst (Expects cfg msg) (sym q) (h.expects j msg p)
      ];
      apart = λ j msg k p. h.apart j msg k p;
    }

  Waits-phase :
      (req k : Bytes) (ch : Option Bytes) (at to : Phase C) (j : Bytes)
      → IsRunning to
      → Waits j (active req k ch at)
      → Waits j (active req k ch to)
  Waits-phase req k none at to j r w = (w.0, r)
  Waits-phase req k (some _) at to j r w = absurd w

  pub Expects-phase :
      (req k : Bytes) (ch : Option Bytes) (at to : Phase C) (msg : Bytes)
      → Expects cfg msg (active req k ch at)
      → Expects cfg msg (active req k ch to)
  Expects-phase req k none at to msg e = e
  Expects-phase req k (some _) at to msg e = absurd e

  module _ {m : Mux C} (h : IsSound cfg m) (i : ℕ) {req k : Bytes} {ch : Option Bytes}
      {at : Phase C} (p : m.calls i ≡ active req k ch at) where
    pub call_of : CallOf cfg (active req k ch at)
    call_of = subst (CallOf cfg) p (h.calls i)

    -- A step of a call that keeps its channel and does not return.
    pub advance-IsSound :
        (to : Phase C)
        → IsRunning to
        → PhaseOf cfg k to
        → IsSound cfg (record m { calls = assign m.calls i (active req k ch to) })
    advance-IsSound to r o =
        update-IsSound h i _ (call_of.0, call_of.1, o)
          (λ j w. Waits-phase req k ch at to j r (subst (Waits j) p w))
          (λ msg e. Expects-phase req k ch at to msg (subst (Expects cfg msg) p e))

  pub answer-IsSound :
      {m : Mux C} (h : IsSound cfg m) (i : ℕ) {req k msg : Bytes}
      → m.calls i ≡ active req k (some msg) waiting
      → IsSound cfg (record m { calls = assign m.calls i (active req k none (leaving (ok msg))) })
  answer-IsSound h i p =
      let c = call_of h i p in
      update-IsSound h i _ (c.0, tt, c.1) (λ j w. absurd (subst (Waits j) p w))
        (λ f e. absurd (subst (Expects cfg f) p e))

  -- The table loses the entry of a key.
  pub delete-IsSound :
      {m : Mux C} (h : IsSound cfg m) (k : Bytes)
      → IsSound cfg (record m { pending = assign_key m.pending k none })
  delete-IsSound {m} h k = record {
    calls = h.calls;
    pending = λ j i p. h.pending j i (kept j i p);
    expects = h.expects;
    apart = λ i msg j d p. h.apart i msg j d (kept j i p);
  }
    where
      kept : (j : Bytes) (i : ℕ) → assign_key m.pending k none j ≡ some i → m.pending j ≡ some i
      kept j i p = elim (assign_key-cases m.pending k none j) [
        | inl (_, q) ↦ cc
        | inr (_, q) ↦ sym q ∙ p
      ]

  pub Waits_one :
      {m : Mux C} (h : IsSound cfg m) {j k : Bytes} {i : ℕ}
      → m.pending j ≡ some i
      → m.pending k ≡ some i
      → j ≡ k
  Waits_one {m} h {j} {k} {i} p q = one (m.calls i) (h.pending j i p) (h.pending k i q)
    where
      one : (c : Call C) → Waits j c → Waits k c → j ≡ k
      one (active _ _ none at) v w = sym v.0 ∙ w.0
      one idle v w = absurd v
      one (refused _) v w = absurd v
      one (active _ _ (some _) at) v w = absurd v

  pub delivering_injective :
      {i j : ℕ} {f g : Bytes} → delivering i f ≡ delivering j g → (i ≡ j) × (f ≡ g)
  delivering_injective {i} {f = f} e = (
    ap (λ r. elim r [ delivering x _ ↦ x | receiving ↦ i | ended ↦ i ]) e,
    ap (λ r. elim r [ delivering _ y ↦ y | receiving ↦ f | ended ↦ f ]) e,
  )

  pub eq_false : {x k : Bytes} → eq_bytes x k ≡ false → x ≢ k
  eq_false {x} {k} ne e = cc (sym ((eq_bytes_iff x k).1 e) ∙ ne)
