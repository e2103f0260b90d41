-- ===== src/Fsm/Errors.antt =====
-- The error that `Start` returns (internal/fsm/fsm.go).
use veracity.Base.{ℕ, zero, suc, Option, none, some, Error, ◌≡◌, refl, sym, subst, ap, ◌∙◌}
use veracity.Fsm.{
  Fsm, Action, Run, done, Exit, returned, perform, resume, stop, fail, stay_in_current_state,
  enter_state, execute, finalize_by, finalize, and_then, round, loop, start,
}

-- The actions that the package can make, but for `Fail(nil)`, which clears the error of a machine.
pub data IsAction {ℓ} {St : Type ℓ} : Action St → Type ℓ where
  stops : IsAction stop
  fails : (e : Error) → IsAction (fail e)
  stays : IsAction stay_in_current_state
  enters : (s : St) → IsAction (enter_state s)

-- What a call of a state promises of its action.
abbrev pub Makes {ℓ} : {St W : Type ℓ} → Run (Action St × W) → Type ℓ
Makes (Run.done (act, w)) = IsAction act
Makes Run.blocked = Unit
Makes Run.panicked = Unit

-- A machine that has an error, in each result of a round.
abbrev HasError {ℓ} : {St W : Type ℓ} → Run (Fsm St × W) → Type 0
HasError (Run.done (m, w)) = (e : Error) × (m.err ≡ some e)
HasError Run.blocked = Unit
HasError Run.panicked = Unit

abbrev pub Failed {ℓ} : {W : Type ℓ} → Exit W → Type 0
Failed (Exit.returned e w) = (x : Error) × (e ≡ some x)
Failed _ = Unit

-- The error of a machine that has one.
abbrev broken {ℓ} : {St : Type ℓ} → Option St → Option St → Error → Fsm St
broken c f x = record { current = c; final = f; err = some x }

module _ {ℓ} {St W : Type ℓ} (ctx_err : W → Option Error) where
  perform_action_keeps :
      (c f : Option St) (x : Error) (w : W) {act : Action St}
      → IsAction act
      → HasError (perform ctx_err (done (act, w)) (broken c f x))
  unfolding perform stop fail stay_in_current_state enter_state
  perform_action_keeps c f x w stops = (x, refl)
  perform_action_keeps c f x w (fails e) = (e, refl)
  perform_action_keeps c f x w stays = (x, refl)
  perform_action_keeps c f x w (enters s) = (x, refl)

  perform_keeps :
      (c f : Option St) (x : Error) (r : Run (Action St × W))
      → Makes r
      → HasError (perform ctx_err r (broken c f x))
  perform_keeps c f x (Run.done (act, w)) h = perform_action_keeps c f x w h
  perform_keeps c f x Run.blocked h = unfold perform in tt
  perform_keeps c f x Run.panicked h = unfold perform in tt

module _ {ℓ} {St W : Type ℓ} (states : St → W → Run (Action St × W)) (ctx_err : W → Option Error)
    (makes : (s : St) (w : W) → Makes (states s w)) where
  execute_keeps :
      (s : St) (m : Fsm St) (x : Error) (w : W)
      → m.err ≡ some x
      → HasError (execute states ctx_err s m w)
  unfolding execute
  execute_keeps s m x w e =
      subst
        (λ y.
          HasError (
            perform ctx_err (states s w)
              (record { current = m.current; final = m.final; err = y })))
        (sym e) (perform_keeps ctx_err m.current m.final x (states s w) (makes s w))

  finalize_by_keeps :
      (c f : Option St) (m : Fsm St) (x : Error) (w : W)
      → m.err ≡ some x
      → HasError (finalize_by states ctx_err c f m w)
  finalize_by_keeps (some s) f m x w e = unfold finalize_by in (x, e)
  finalize_by_keeps none none m x w e = unfold finalize_by in (x, e)
  finalize_by_keeps none (some f) m x w e = unfold finalize_by in execute_keeps f m x w e

  and_then_keeps :
      (r : Run (Fsm St × W)) → HasError r → HasError (and_then r (finalize states ctx_err))
  unfolding finalize
  and_then_keeps (Run.done (m, w)) h = finalize_by_keeps m.current m.final m h.0 w h.1
  and_then_keeps Run.blocked h = tt
  and_then_keeps Run.panicked h = tt

  round_keeps :
      (s : St) (m : Fsm St) (x : Error) (w : W)
      → m.err ≡ some x
      → HasError (round states ctx_err s m w)
  unfolding round
  round_keeps s m x w e = and_then_keeps (execute states ctx_err s m w) (execute_keeps s m x w e)

  resume_keeps :
      (next : Fsm St → W → Exit W) (w : W) (r : Run (Fsm St × W))
      → ((m : Fsm St) (x : Error) (w' : W) → m.err ≡ some x → Failed (next m w'))
      → HasError r
      → Failed (resume next w r)
  unfolding resume
  resume_keeps next w (Run.done (m, w')) ih h = ih m h.0 w' h.1
  resume_keeps next w Run.blocked ih h = tt
  resume_keeps next w Run.panicked ih h = tt

  loop_keeps_at :
      (fuel : ℕ) (c f : Option St) (o : Option Error) (x : Error) (w : W)
      → o ≡ some x
      → Failed (loop states ctx_err fuel (record { current = c; final = f; err = o }) w)
  unfolding loop
  loop_keeps_at zero none f o x w e = (x, e)
  loop_keeps_at zero (some s) f o x w e = tt
  loop_keeps_at (suc fuel) none f o x w e = (x, e)
  loop_keeps_at (suc fuel) (some s) f o x w e =
      resume_keeps (loop states ctx_err fuel) w _
        (λ m y w' h. loop_keeps_at fuel m.current m.final m.err y w' h) (round_keeps s _ x w e)

  -- Once a machine has an error, whatever its states and its final state do with the package's
  -- actions except `Fail(nil)`, and for every number of rounds: if `Start` returns, it returns an
  -- error.
  pub loop_error_stays :
      (fuel : ℕ) (m : Fsm St) (x : Error) (w : W)
      → m.err ≡ some x
      → Failed (loop states ctx_err fuel m w)
  loop_error_stays fuel m x w e = loop_keeps_at fuel m.current m.final m.err x w e

module _ {ℓ} {St W : Type ℓ} (states : St → W → Run (Action St × W))
    (ctx_err : W → Option Error) where
  round-fail_then_stop :
      (s f : St) (w w₁ w₂ : W) (e : Error)
      → states s w ≡ done (fail e, w₁)
      → states f w₁ ≡ done (stop, w₂)
      → round states ctx_err s (record { current = some s; final = some f; err = none }) w
        ≡ done (record { current = none; final = some f; err = some e }, w₂)
  unfolding round finalize fail stop
  round-fail_then_stop s f w w₁ w₂ e p q =
      ap
        (λ r.
          and_then (perform ctx_err r (record { current = some s; final = some f; err = none }))
            (finalize states ctx_err))
        p
      ∙ ap (λ r. perform ctx_err r (record { current = none; final = some f; err = some e })) q

  loop_stopped :
      (fuel : ℕ) (f : Option St) (e : Error) (w : W)
      → loop states ctx_err fuel (record { current = none; final = f; err = some e }) w
        ≡ returned (some e) w
  unfolding loop
  loop_stopped zero f e w = refl
  loop_stopped (suc fuel) f e w = refl

  -- A state that fails with `e`, followed by a final state that stops: `Start` returns `e`, and not
  -- the context's error, after the final state has run.
  pub fail_then_stop :
      (fuel : ℕ) (s f : St) (w w₁ w₂ : W) (e : Error)
      → states s w ≡ done (fail e, w₁)
      → states f w₁ ≡ done (stop, w₂)
      → start states ctx_err (suc fuel) s (some f) w ≡ returned (some e) w₂
  unfolding start loop resume
  fail_then_stop fuel s f w w₁ w₂ e p q =
      ap (resume (loop states ctx_err fuel) w) (round-fail_then_stop s f w w₁ w₂ e p q)
      ∙ loop_stopped fuel (some f) e w₂
