-- ===== src/Integration/Supervisor/Requests.antt =====
-- internal/integration/supervisor.go: `acceptCommand`.
use veracity.Base.{Bool, true, false, [], ◌∷◌, ◌++◌, Outcome}
use veracity.Fsm.{Action, Run, done, panicked, fail, enter_state}
use veracity.EventStream.{Messages}
use veracity.Integration.{Record}
use veracity.Integration.Services.{Log, AcceptedSet, App}
use veracity.Integration.Pending.{accepted_record}
use veracity.Integration.Supervisor.{
  Request, Answer, ack, nack, Supervisor, State, idle_state, append_record, handle_command,
}

module _ {E U X JS KS : Type 0} (M : Messages E U) (J : Log (Record E U) JS) (K : AcceptedSet U KS)
    (A : App E U X) where
  unfoldable pub answer : Answer → Supervisor E U JS KS X → Supervisor E U JS KS X
  answer a w = record w { answers = w.answers ++ a ∷ [] }

  -- What a state does after a call: it fails with the call's error, or goes on.
  unfoldable pub fail_or :
      Outcome (Unit {0}) × Supervisor E U JS KS X
      → (Supervisor E U JS KS X → Run (Action (State E) × Supervisor E U JS KS X))
      → Run (Action (State E) × Supervisor E U JS KS X)
  fail_or (Outcome.ok _, w) k = k w
  fail_or (Outcome.err e, w) k = done (fail e, w)
  fail_or (Outcome.panic, w) k = panicked

  unfoldable pub accepted :
      Request E
      → Outcome (Unit {0}) × Supervisor E U JS KS X
      → Run (Action (State E) × Supervisor E U JS KS X)
  unfolding answer fail_or handle_command
  accepted req (Outcome.err e, w) = done (fail e, answer (nack req.acknowledgement) w)
  accepted req (Outcome.panic, w) = panicked
  accepted req (Outcome.ok _, w) =
      fail_or (handle_command M J K A req.value (answer (ack req.acknowledgement) w))
        (λ v. done (enter_state idle_state, v))

  unfoldable pub checked :
      Request E
      → Supervisor E U JS KS X
      → Outcome Bool × KS
      → Run (Action (State E) × Supervisor E U JS KS X)
  unfolding answer accepted append_record accepted_record
  checked req w (Outcome.err e, s) =
      done (fail e, answer (nack req.acknowledgement) (record w { accepted_commands = s }))
  checked req w (Outcome.panic, s) = panicked
  checked req w (Outcome.ok true, s) = done (
    enter_state idle_state,
    answer (ack req.acknowledgement) (record w { accepted_commands = s }),
  )
  checked req w (Outcome.ok false, s) =
      accepted req
        (append_record J (accepted_record req.value) (record w { accepted_commands = s }))

  unfoldable pub accept_command :
      Request E → Supervisor E U JS KS X → Run (Action (State E) × Supervisor E U JS KS X)
  unfolding checked
  accept_command req w = checked req w (K.has (M.message_id req.value) w.accepted_commands)
