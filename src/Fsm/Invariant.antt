-- ===== src/Fsm/Invariant.antt =====
-- Induction on the rounds of a machine without a final state (internal/fsm/fsm.go).
use veracity.Base.{ℕ, zero, suc, Option, none, some, Error, ◌≡◌, refl, sym, subst}
use veracity.Fsm.{
  Fsm, Action, Run, done, blocked, Exit, stop, fail, stay_in_current_state, enter_state, and_then,
  perform, resume, finalize, round, loop, start,
}

-- What holds at each kind of exit: `K` after the machine stopped, `B` where it waits for ever, `R`
-- where the fuel ran out.
abbrev pub Leaves {ℓ} : {W : Type ℓ} → (W → Type 0) → (W → Type 0) → (W → Type 0) → Exit W → Type 0
Leaves K B R (Exit.returned e w) = K w
Leaves K B R (Exit.blocked w) = B w
Leaves K B R (Exit.panicked w) = ⊥
Leaves K B R (Exit.running w) = R w

module _ {St W : Type 0} (J : St → W → Type 0) (K B : W → Type 0) where
  -- The action of a call of the state `s`, with what holds of the world in the state that follows.
  pub data Goes (s : St) (w : W) : Run (Action St × W) → Type 0 where
    to_stop : {w' : W} → K w' → Goes s w (done (stop, w'))
    to_fail : {w' : W} (e : Error) → K w' → Goes s w (done (fail e, w'))
    to_stay : {w' : W} → J s w' → Goes s w (done (stay_in_current_state, w'))
    to_enter : {w' : W} (t : St) → J t w' → Goes s w (done (enter_state t, w'))
    to_block : B w → Goes s w blocked

module _ {St W : Type 0} (J : St → W → Type 0) (K : W → Type 0) where
  abbrev Here : Option St → W → Type 0
  Here none w = K w
  Here (some s) w = J s w

module _ {St W : Type 0} (states : St → W → Run (Action St × W)) (ctx_err : W → Option Error)
    (J : ℕ → St → W → Type 0) (K B R : W → Type 0) (out : (s : St) (w : W) → J zero s w → R w)
    (step : (n : ℕ) (s : St) (w : W) → J (suc n) s w → Goes (J n) K B s w (states s w)) where
  abbrev After : ℕ → W → Run (Fsm St × W) → Type 0
  After n w (Run.done (m, w')) = (m.final ≡ none) × Here (J n) K m.current w'
  After n w Run.blocked = B w
  After n w Run.panicked = ⊥

  After-perform :
      (n : ℕ) (s : St) (w : W) (e : Option Error) (r : Run (Action St × W))
      → Goes (J n) K B s w r
      → After n w (
          and_then
            (perform ctx_err r (record { current = some s; final = none; err = e }))
            (finalize states ctx_err))
  unfolding perform finalize stop fail stay_in_current_state enter_state
  After-perform n s w e r (to_stop h) = (refl, h)
  After-perform n s w e r (to_fail x h) = (refl, h)
  After-perform n s w e r (to_stay h) = (refl, h)
  After-perform n s w e r (to_enter t h) = (refl, h)
  After-perform n s w e r (to_block h) = h

  After-round :
      (n : ℕ) (s : St) (e : Option Error) (w : W)
      → J (suc n) s w
      → After n w (round states ctx_err s (record { current = some s; final = none; err = e }) w)
  unfolding round
  After-round n s e w h = After-perform n s w e (states s w) (step n s w h)

  -- The induction: `next` is the rest of the loop.
  resume-Leaves :
      (n : ℕ) (next : Fsm St → W → Exit W) (w : W) (r : Run (Fsm St × W))
      → ((m : Fsm St) (w' : W)
          → m.final ≡ none
          → Here (J n) K m.current w'
          → Leaves K B R (next m w'))
      → After n w r
      → Leaves K B R (resume next w r)
  unfolding resume
  resume-Leaves n next w (Run.done (m, w')) ih h = ih m w' h.0 h.1
  resume-Leaves n next w Run.blocked ih h = h
  resume-Leaves n next w Run.panicked ih h = h

  loop-Leaves :
      (fuel : ℕ) (c : Option St) (e : Option Error) (w : W)
      → Here (J fuel) K c w
      → Leaves K B R (loop states ctx_err fuel (record { current = c; final = none; err = e }) w)
  unfolding loop
  loop-Leaves zero none e w h = h
  loop-Leaves zero (some s) e w h = out s w h
  loop-Leaves (suc fuel) none e w h = h
  loop-Leaves (suc fuel) (some s) e w h =
      resume-Leaves fuel (loop states ctx_err fuel) w _
        (λ m w' f j.
          subst
            (λ x. Leaves K B R (
              loop states ctx_err fuel (record { current = m.current; final = x; err = m.err }) w'))
            (sym f) (loop-Leaves fuel m.current m.err w' j))
        (After-round fuel s e w h)

  -- A machine without a final state does not panic; it leaves `K` where it stops, `B` where it waits
  -- for ever, and `R` where `fuel` rounds do not end it. `J n` is the invariant with `n` rounds left.
  pub start-Leaves :
      (fuel : ℕ) (s : St) (w : W) → J fuel s w → Leaves K B R (start states ctx_err fuel s none w)
  unfolding start
  start-Leaves fuel s w h = loop-Leaves fuel (some s) none w h
