-- ===== src/Fsm/Unread.antt =====
-- A change of the world that no state reads stays as it is through a run (internal/fsm/fsm.go).
use veracity.Base.{ℕ, zero, suc, Option, none, some, Error, ◌≡◌, refl, ap, ◌∙◌}
use veracity.Fsm.{
  Fsm, Action, Run, Exit, and_then, perform_action, perform, resume, execute, finalize_by, finalize,
  round, loop, start,
}

-- The change, made to the world that a call or a run ends with.
abbrev pub map_run : {A W : Type 0} → (W → W) → Run (A × W) → Run (A × W)
map_run g (Run.done (a, w)) = Run.done (a, g w)
map_run g Run.blocked = Run.blocked
map_run g Run.panicked = Run.panicked

abbrev pub map_exit : {W : Type 0} → (W → W) → Exit W → Exit W
map_exit g (Exit.returned e w) = Exit.returned e (g w)
map_exit g (Exit.blocked w) = Exit.blocked (g w)
map_exit g (Exit.panicked w) = Exit.panicked (g w)
map_exit g (Exit.running w) = Exit.running (g w)

module _ {St W : Type 0} (states : St → W → Run (Action St × W)) (ctx_err : W → Option Error)
    (g : W → W) (unread : (s : St) (w : W) → states s (g w) ≡ map_run g (states s w))
    (err_unread : (w : W) → ctx_err (g w) ≡ ctx_err w) where
  perform-map_run :
      (r : Run (Action St × W)) (m : Fsm St)
      → perform ctx_err (map_run g r) m ≡ map_run g (perform ctx_err r m)
  unfolding perform
  perform-map_run (Run.done (act, w)) m = by_action act.apply
    where
      by_action :
          (a : Option (Option Error → Fsm St → Fsm St))
          → perform_action a (ctx_err (g w)) m (g w) ≡ map_run g (perform_action a (ctx_err w) m w)
      by_action none = refl
      by_action (some f) = ap (λ e. Run.done (f e m, g w)) (err_unread w)
  perform-map_run Run.blocked m = refl
  perform-map_run Run.panicked m = refl

  execute-map_run :
      (s : St) (m : Fsm St) (w : W)
      → execute states ctx_err s m (g w) ≡ map_run g (execute states ctx_err s m w)
  unfolding execute
  execute-map_run s m w =
      ap (λ r. perform ctx_err r m) (unread s w) ∙ perform-map_run (states s w) m

  finalize_by-map_run :
      (c f : Option St) (m : Fsm St) (w : W)
      → finalize_by states ctx_err c f m (g w) ≡ map_run g (finalize_by states ctx_err c f m w)
  unfolding finalize_by
  finalize_by-map_run (some s) f m w = refl
  finalize_by-map_run none none m w = refl
  finalize_by-map_run none (some f) m w = execute-map_run f m w

  and_then-map_run :
      (r : Run (Fsm St × W)) (k : Fsm St → W → Run (Fsm St × W))
      → ((m : Fsm St) (w : W) → k m (g w) ≡ map_run g (k m w))
      → and_then (map_run g r) k ≡ map_run g (and_then r k)
  and_then-map_run (Run.done (m, w)) k h = h m w
  and_then-map_run Run.blocked k h = refl
  and_then-map_run Run.panicked k h = refl

  round-map_run :
      (s : St) (m : Fsm St) (w : W)
      → round states ctx_err s m (g w) ≡ map_run g (round states ctx_err s m w)
  unfolding round finalize
  round-map_run s m w =
      ap (λ r. and_then r (finalize states ctx_err)) (execute-map_run s m w)
      ∙ and_then-map_run (execute states ctx_err s m w) (finalize states ctx_err)
          (λ n v. finalize_by-map_run n.current n.final n v)

  resume-map_exit :
      (next : Fsm St → W → Exit W) (w : W) (r : Run (Fsm St × W))
      → ((m : Fsm St) (v : W) → next m (g v) ≡ map_exit g (next m v))
      → resume next (g w) (map_run g r) ≡ map_exit g (resume next w r)
  unfolding resume
  resume-map_exit next w (Run.done (m, v)) h = h m v
  resume-map_exit next w Run.blocked h = refl
  resume-map_exit next w Run.panicked h = refl

  loop-map_exit :
      (fuel : ℕ) (m : Fsm St) (w : W)
      → loop states ctx_err fuel m (g w) ≡ map_exit g (loop states ctx_err fuel m w)
  unfolding loop
  loop-map_exit zero m w =
      elim m.current
        as (λ c.
          elim c [ none ↦ Exit.returned m.err (g w) | some s ↦ Exit.running (g w) ]
          ≡ map_exit g (elim c [ none ↦ Exit.returned m.err w | some s ↦ Exit.running w ])) [
            | none ↦ refl
            | some s ↦ refl
          ]
  loop-map_exit (suc fuel) m w = by_current (λ n v. loop-map_exit fuel n v) m.current
    where
      by_current :
          ((n : Fsm St) (v : W)
            → loop states ctx_err fuel n (g v) ≡ map_exit g (loop states ctx_err fuel n v))
          → (c : Option St)
          → elim c as (λ _. Exit W) [
            | none ↦ Exit.returned m.err (g w)
            | some s ↦ resume (loop states ctx_err fuel) (g w) (round states ctx_err s m (g w))
          ]
            ≡ map_exit g (elim c as (λ _. Exit W) [
              | none ↦ Exit.returned m.err w
              | some s ↦ resume (loop states ctx_err fuel) w (round states ctx_err s m w)
            ])
      by_current ih none = refl
      by_current ih (some s) =
          ap (resume (loop states ctx_err fuel) (g w)) (round-map_run s m w)
          ∙ resume-map_exit (loop states ctx_err fuel) w (round states ctx_err s m w) ih

  -- A run from a changed world is the run from the world itself, changed where it ends.
  pub start-map_exit :
      (fuel : ℕ) (s : St) (f : Option St) (w : W)
      → start states ctx_err fuel s f (g w) ≡ map_exit g (start states ctx_err fuel s f w)
  unfolding start
  start-map_exit fuel s f w = loop-map_exit fuel _ w
