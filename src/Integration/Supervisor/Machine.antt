-- ===== src/Integration/Supervisor/Machine.antt =====
-- internal/integration/supervisor.go: `recover`, `idle`, and the state machine of `Run`.
use veracity.Base.{ℕ, List, [], ◌∷◌, Option, none, some, if◌then◌else◌, ◌==◌, Error, Outcome, ok}
use veracity.Fsm
use veracity.Fsm.{Action, Run, Exit, done, blocked, panicked, stop, fail, enter_state}
use veracity.EventStream.{Messages}
use veracity.Integration.{Record, CommandAccepted}
use veracity.Integration.Services.{Log, AcceptedSet, App}
use veracity.Integration.Supervisor.{
  Input, Supervisor, State, recover_state, idle_state, accept_command_state, Origin, append_events,
  handle_command,
}
use veracity.Integration.Supervisor.Requests.{fail_or, accept_command}
use veracity.Integration.Pending.{Pending, chain, each, replay}

module _ {E U X JS KS : Type 0} (M : Messages E U) (J : Log (Record E U) JS) (K : AcceptedSet U KS)
    (A : App E U X) where
  -- The end of `recover`: the journal is truncated.
  unfoldable pub truncated :
      Supervisor E U JS KS X
      → Outcome (Unit {0}) × JS
      → Run (Action (State E) × Supervisor E U JS KS X)
  truncated w (Outcome.ok _, s) = done (enter_state idle_state, record w { journal = s })
  truncated w (Outcome.err e, s) = done (fail e, record w { journal = s })
  truncated w (Outcome.panic, s) = panicked

  -- The pending operations are completed, the events before the commands.
  unfoldable pub complete :
      Pending E U → Supervisor E U JS KS X → Outcome (Unit {0}) × Supervisor E U JS KS X
  unfolding chain each append_events handle_command
  complete p w =
      chain (each (λ op. append_events M J K A Origin.decoded op) p.handled w)
        (λ _ v. each (λ (op : CommandAccepted E). handle_command M J K A op.command) p.accepted v)

  unfoldable pub recovered :
      Supervisor E U JS KS X
      → ℕ × Outcome (Pending E U)
      → Option Error
      → Run (Action (State E) × Supervisor E U JS KS X)
  unfolding complete truncated fail_or
  recovered w (pos, Outcome.panic) e = panicked
  recovered w (pos, Outcome.err x) e = done (fail x, record w { journal_pos = pos })
  recovered w (pos, Outcome.ok p) (some x) = done (fail x, record w { journal_pos = pos })
  recovered w (pos, Outcome.ok p) none =
      fail_or M J K A (complete p (record w { journal_pos = pos }))
        (λ v. truncated v (J.truncate v.journal_pos v.journal))

  -- `Range` over the records, if the journal has any.
  unfoldable pub bounded :
      Supervisor E U JS KS X
      → Outcome (ℕ × ℕ) × JS
      → Run (Action (State E) × Supervisor E U JS KS X)
  unfolding recovered replay
  bounded w (Outcome.err e, s) = done (fail e, record w { journal = s })
  bounded w (Outcome.panic, s) = panicked
  bounded w (Outcome.ok (begin, end), s) =
      let nothing : Pending E U = record { accepted = []; handled = [] } in
      if begin == end
      then recovered (record w { journal = s }) (begin, ok nothing) none
      else let ((visited, e), s') = J.range begin s in
        recovered (record w { journal = s' }) (replay M begin nothing visited) e

  unfoldable pub recover : Supervisor E U JS KS X → Run (Action (State E) × Supervisor E U JS KS X)
  unfolding bounded
  recover w = bounded w (J.bounds w.journal)

  pub select_idle :
      List (Input E) → Supervisor E U JS KS X → Run (Action (State E) × Supervisor E U JS KS X)
  select_idle [] w = blocked
  select_idle (Input.canceled e ∷ rest) w =
      done (stop, record w { inputs = rest; ctx_err = some e })
  select_idle (Input.shutdown_signaled ∷ rest) w = done (stop, record w { inputs = rest })
  select_idle (Input.received req ∷ rest) w =
      done (enter_state (accept_command_state req), record w { inputs = rest })

  unfoldable pub idle : Supervisor E U JS KS X → Run (Action (State E) × Supervisor E U JS KS X)
  unfolding select_idle
  idle w = select_idle w.inputs w

  unfoldable pub states :
      State E → Supervisor E U JS KS X → Run (Action (State E) × Supervisor E U JS KS X)
  unfolding recover idle accept_command
  states recover_state w = recover w
  states idle_state w = idle w
  states (accept_command_state req) w = accept_command M J K A req w

  -- `Run` after the journal and the set are open.
  unfoldable pub run : ℕ → Supervisor E U JS KS X → Exit (Supervisor E U JS KS X)
  unfolding states
  run fuel w = Fsm.start states (λ v. v.ctx_err) fuel recover_state none w
