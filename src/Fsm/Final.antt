-- ===== src/Fsm/Final.antt =====
-- Induction on the rounds of a machine whose final state stops (internal/fsm/fsm.go).
use veracity.Base.{ℕ, zero, suc, Option, none, some, Error, ◌≡◌, refl, sym, subst}
use veracity.Fsm.{
  Fsm, Action, Run, done, Exit, stop, fail, stay_in_current_state, enter_state, and_then, perform,
  resume, finalize, round, loop, start,
}
use veracity.Fsm.Invariant.{Leaves, Goes, to_stop, to_fail, to_stay, to_enter, to_block}

module _ {St W : Type 0} (states : St → W → Run (Action St × W)) (ctx_err : W → Option Error)
    (f : St) (J : ℕ → St → W → Type 0) (S K B R : W → Type 0)
    (out : (s : St) (w : W) → J zero s w → R w)
    (step : (n : ℕ) (s : St) (w : W) → J (suc n) s w → Goes (J n) S B s w (states s w))
    (final : (w : W) → S w → (w' : W) × (states f w ≡ done (stop, w')) × K w') where
  abbrev Here : ℕ → Option St → W → Type 0
  Here n none w = K w
  Here n (some s) w = J n s w

  abbrev After : ℕ → W → Run (Fsm St × W) → Type 0
  After n w (Run.done (m, w')) = (m.final ≡ some f) × Here n m.current w'
  After n w Run.blocked = B w
  After n w Run.panicked = ⊥

  After-stopped :
      (n : ℕ) (v w : W) (e : Option Error)
      → S w
      → After n v (finalize states ctx_err (record { current = none; final = some f; err = e }) w)
  unfolding finalize perform stop
  After-stopped n v w e h =
      let (w', q, k) = final w h in
      subst
        (λ r. After n v (perform ctx_err r (record { current = none; final = some f; err = e })))
        (sym q) (refl, k)

  After-perform :
      (n : ℕ) (s : St) (w : W) (e : Option Error) (r : Run (Action St × W))
      → Goes (J n) S B s w r
      → After n w (
          and_then
            (perform ctx_err r (record { current = some s; final = some f; err = e }))
            (finalize states ctx_err))
  unfolding perform stop fail stay_in_current_state enter_state
  After-perform n s w e r (to_stop h) = After-stopped n w _ _ h
  After-perform n s w e r (to_fail x h) = After-stopped n w _ _ h
  After-perform n s w e r (to_stay h) = unfold finalize in (refl, h)
  After-perform n s w e r (to_enter t h) = unfold finalize in (refl, h)
  After-perform n s w e r (to_block h) = h

  resume-Leaves :
      (n : ℕ) (next : Fsm St → W → Exit W) (w : W) (r : Run (Fsm St × W))
      → ((m : Fsm St) (w' : W) → m.final ≡ some f → Here n m.current w' → Leaves K B R (next m w'))
      → After n w r
      → Leaves K B R (resume next w r)
  unfolding resume
  resume-Leaves n next w (Run.done (m, w')) ih h = ih m w' h.0 h.1
  resume-Leaves n next w Run.blocked ih h = h
  resume-Leaves n next w Run.panicked ih h = h

  loop-Leaves :
      (fuel : ℕ) (c : Option St) (e : Option Error) (w : W)
      → Here fuel c w
      → Leaves K B R (loop states ctx_err fuel (record { current = c; final = some f; err = e }) w)
  unfolding loop round
  loop-Leaves zero none e w h = h
  loop-Leaves zero (some s) e w h = out s w h
  loop-Leaves (suc fuel) none e w h = h
  loop-Leaves (suc fuel) (some s) e w h =
      resume-Leaves fuel (loop states ctx_err fuel) w _
        (λ m w' q j.
          subst
            (λ x. Leaves K B R (
              loop states ctx_err fuel (record { current = m.current; final = x; err = m.err }) w'))
            (sym q) (loop-Leaves fuel m.current m.err w' j))
        (After-perform fuel s w e (states s w) (step fuel s w h))

  -- A machine whose final state stops does not panic; it leaves `K` where it stops, after the final
  -- state has run on `S`, `B` where it waits for ever, and `R` where `fuel` rounds do not end it.
  pub start_final-Leaves :
      (fuel : ℕ) (s : St) (w : W)
      → J fuel s w
      → Leaves K B R (start states ctx_err fuel s (some f) w)
  unfolding start
  start_final-Leaves fuel s w h = loop-Leaves fuel (some s) none w h
