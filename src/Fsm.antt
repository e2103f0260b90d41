-- ===== src/Fsm.antt =====
-- internal/fsm: the state machine that runs the workers and supervisors.
--
-- A state of the source is a closure; here it is a name in `St`, with the closure's captured argument
-- as the argument of a constructor (`With`), and `states` gives each name its code. What a state reads
-- and writes is the world `W`; `ctx_err` reads the context's error off it.
pub mod Errors
pub mod Invariant
pub mod Final
pub mod Unread
mod Examples
use veracity.Base.{ℕ, zero, suc, Option, none, some, Error}

-- The mutable part of the struct `fsm`; the context is part of the world.
pub record Fsm {ℓ} (St : Type ℓ) : Type ℓ where
  pub current : Option St
  pub final : Option St
  pub err : Option Error

-- An action is a function on the machine, which also sees `ctx.Err()`; the zero `Action` has none.
pub record Action {ℓ} (St : Type ℓ) : Type ℓ where
  pub apply : Option (Option Error → Fsm St → Fsm St)

-- `if m.err == nil { m.err = m.ctx.Err() }`
abbrev pub or_else : Option Error → Option Error → Option Error
or_else none e = e
or_else (some e) _ = some e

module _ {ℓ} {St : Type ℓ} where
  unfoldable pub stop : Action St
  stop = record {
    apply = some (λ ctx_err m. record m { current = none; err = or_else m.err ctx_err });
  }

  -- `Fail`, whose error may be nil: it replaces the error that the machine has.
  unfoldable pub fail_with : Option Error → Action St
  fail_with e = record { apply = some (λ _ m. record m { current = none; err = e }) }

  -- `Fail` as the components call it, with an error that is not nil.
  unfoldable pub fail : Error → Action St
  unfolding fail_with
  fail e = fail_with (some e)

  unfoldable pub stay_in_current_state : Action St
  stay_in_current_state = record { apply = some (λ _ m. m) }

  -- A state is a name and never nil, so that the panic on a nil state has no counterpart.
  unfoldable pub enter_state : St → Action St
  enter_state next = record { apply = some (λ _ m. record m { current = some next }) }

-- What a call of a state gives: an action and the new world, or a wait that nothing ends, or a panic.
pub data Run {ℓ} (A : Type ℓ) : Type ℓ where
  done : A → Run A
  blocked : Run A
  panicked : Run A

pub data Exit {ℓ} (W : Type ℓ) : Type ℓ where
  returned : Option Error → W → Exit W
  blocked : W → Exit W
  panicked : W → Exit W
  running : W → Exit W

module _ {ℓ} {St W : Type ℓ} where
  -- `act.apply(m)`, with the panic on the zero action.
  unfoldable pub perform_action :
      Option (Option Error → Fsm St → Fsm St) → Option Error → Fsm St → W → Run (Fsm St × W)
  perform_action none ctx_err m w = panicked
  perform_action (some f) ctx_err m w = done (f ctx_err m, w)

  unfoldable pub perform : (W → Option Error) → Run (Action St × W) → Fsm St → Run (Fsm St × W)
  unfolding perform_action
  perform ctx_err (Run.done (act, w)) m = perform_action act.apply (ctx_err w) m w
  perform ctx_err Run.blocked m = blocked
  perform ctx_err Run.panicked m = panicked

  abbrev pub and_then : Run (Fsm St × W) → (Fsm St → W → Run (Fsm St × W)) → Run (Fsm St × W)
  and_then (Run.done (m, w)) k = k m w
  and_then Run.blocked k = blocked
  and_then Run.panicked k = panicked

module _ {ℓ} {St W : Type ℓ} (states : St → W → Run (Action St × W))
    (ctx_err : W → Option Error) where
  unfoldable pub execute : St → Fsm St → W → Run (Fsm St × W)
  unfolding perform
  execute s m w = perform ctx_err (states s w) m

  -- `if m.current == nil && m.final != nil { m.execute(m.final) }`
  unfoldable pub finalize_by : Option St → Option St → Fsm St → W → Run (Fsm St × W)
  unfolding execute
  finalize_by (some s) f m w = done (m, w)
  finalize_by none none m w = done (m, w)
  finalize_by none (some f) m w = execute f m w

  unfoldable pub finalize : Fsm St → W → Run (Fsm St × W)
  unfolding finalize_by
  finalize m w = finalize_by m.current m.final m w

  -- One round of the loop of `Start`.
  unfoldable pub round : St → Fsm St → W → Run (Fsm St × W)
  unfolding execute finalize
  round s m w = and_then (execute s m w) finalize

-- The loop of `Start`, on fuel: `resume` goes on after a round, from the world `w` of its start.
unfoldable pub resume {ℓ} : {St W : Type ℓ} → (Fsm St → W → Exit W) → W → Run (Fsm St × W) → Exit W
resume next w (Run.done (m, w')) = next m w'
resume next w Run.blocked = blocked w
resume next w Run.panicked = panicked w

module _ {ℓ} {St W : Type ℓ} (states : St → W → Run (Action St × W))
    (ctx_err : W → Option Error) where
  unfoldable pub loop : ℕ → Fsm St → W → Exit W
  unfolding round resume
  loop zero m w = elim m.current [ none ↦ returned m.err w | some s ↦ running w ]
  loop (suc fuel) m w = elim m.current [
    | none ↦ returned m.err w
    | some s ↦ resume (loop fuel) w (round states ctx_err s m w)
  ]

  -- `Start(ctx, initial)`, with the final state of `WithFinalState` if there is one.
  unfoldable pub start : ℕ → St → Option St → W → Exit W
  unfolding loop
  start fuel initial final w =
      loop fuel (record { current = some initial; final = final; err = none }) w
