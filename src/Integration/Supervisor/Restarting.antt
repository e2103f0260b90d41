-- ===== src/Integration/Supervisor/Restarting.antt =====
-- What `acceptCommand` leaves, and the supervisor that is started after it
-- (internal/integration/supervisor.go).
use veracity.Base.{
  ◌+◌, ◌<◌, ◌≡◌, refl, sym, ap, ◌∙◌, subst, Bool, true, false, List, length, All, arith, Outcome,
  ok, max_u64,
}
use veracity.Fsm.{Run, Action, done, enter_state}
use veracity.EventStream.{Messages}
use veracity.Integration.{Record, CommandHandled}
use veracity.Integration.Services.{Log, AcceptedSet, App}
use veracity.Integration.Pending.{Pending, accepted_record}
use veracity.Integration.Supervisor.{Request, ack, Supervisor, State, idle_state}
use veracity.Integration.Supervisor.Requests.{answer, fail_or, accepted, checked, accept_command}
use veracity.Integration.Supervisor.Machine.{recover}
use veracity.Integration.Supervisor.Progress.{
  pending_of, recs, At, Appends, append_record-Appends, At-Same,
}
use veracity.Integration.Supervisor.Effects.{Silent, Settled, replay_accepted}
use veracity.Integration.Supervisor.Calls.{Handles}
use veracity.Integration.Supervisor.Accept.{
  accepted_only, handled_all, Fresh, handle_command-Handles,
}
use veracity.Integration.Supervisor.Acknowledge.{absent-Fresh, has-Same}
use veracity.Integration.Supervisor.Completing.{Completes}
use veracity.Integration.Supervisor.Recover.{Recovers}
use veracity.Integration.Supervisor.Interrupted.{nothing_left, one_accepted, recover-Left-Recovers}
use veracity.Integration.Supervisor.Resuming.{
  Resumes, Resumed, append_record-Resumed, handle_command-Resumed,
}

module _ {E U X JS KS : Type 0} (M : Messages E U) (J : Log (Record E U) JS) (K : AcceptedSet U KS)
    (A : App E U X) where
  -- A state that is done, with success or not.
  abbrev pub ResumesRun : Run (Action (State E) × Supervisor E U JS KS X) → Type 0
  ResumesRun (Run.done (act, v)) = Resumes M J K A v
  ResumesRun Run.blocked = ⊥
  ResumesRun Run.panicked = Unit

  handled-ResumesRun :
      (env : E) (w : Supervisor E U JS KS X) (x : Outcome (Unit {0}) × Supervisor E U JS KS X)
      → Handles M J K A env w x
      → Resumed M J K A x
      → ResumesRun (fail_or M J K A x (λ v. done (enter_state idle_state, v)))
  unfolding fail_or
  handled-ResumesRun env w (Outcome.ok u, v) (s, r, k) h = record {
    work = handled_all M J K A s.handled;
    pending = s.at.pending;
    left = nothing_left s.handled s.silent;
    known = s.at.known;
  }
  handled-ResumesRun env w (Outcome.err e, v) k h = h
  handled-ResumesRun env w (Outcome.panic, v) k h = tt

  accepted-ResumesRun :
      (req : Request E) (hs : List (CommandHandled E U)) (u : Supervisor E U JS KS X)
      (x : Outcome (Unit {0}) × Supervisor E U JS KS X)
      → Silent hs
      → Fresh M J K A hs (M.message_id req.value)
      → u.journal_pos + 3 < max_u64
      → Resumed M J K A x
      → Appends M J K
          (accepted_record req.value)
          (handled_all M J K A hs)
          (accepted_only M J K A req.value hs)
          u
          x
      → ResumesRun (accepted M J K A req x)
  unfolding accepted answer
  accepted-ResumesRun req hs u (Outcome.ok t, v) s f room k (h, r, p, a, c) =
      let acked = answer M J K A (ack req.acknowledgement) v in
      let h' : At M J K (accepted_only M J K A req.value hs) acked = record {
        at_end = h.at_end;
        pending = h.pending;
        known = h.known;
      } in
      handled-ResumesRun req.value acked _
        (handle_command-Handles M J K A req.value hs acked s f h' (omega (arith, p, room))).0
        (handle_command-Resumed M J K A req.value hs acked s f h' (omega (arith, p, room)))
  accepted-ResumesRun req hs u (Outcome.err e, v) s f room k a = record {
    work = k.work;
    pending = k.pending;
    left = k.left;
    known = k.known;
  }
  accepted-ResumesRun req hs u (Outcome.panic, v) s f room k a = tt

  checked-ResumesRun :
      (req : Request E) (w : Supervisor E U JS KS X) (o : Outcome Bool)
      → Settled M J K w
      → w.journal_pos + 3 < max_u64
      → ((b : Bool) → o ≡ ok b → b ≡ K.contains w.accepted_commands (M.message_id req.value))
      → ResumesRun
          (checked M J K A req w (o, (K.has (M.message_id req.value) w.accepted_commands).1))
  unfolding checked answer
  checked-ResumesRun req w (Outcome.err e) s room q =
      let a = At-Same M J K _ w _ s.at (has-Same M J K A (M.message_id req.value) w) in
      record {
        work = handled_all M J K A s.handled;
        pending = a.pending;
        left = nothing_left s.handled s.silent;
        known = a.known;
      }
  checked-ResumesRun req w Outcome.panic s room q = tt
  checked-ResumesRun req w (Outcome.ok true) s room q =
      let a = At-Same M J K _ w _ s.at (has-Same M J K A (M.message_id req.value) w) in
      record {
        work = handled_all M J K A s.handled;
        pending = a.pending;
        left = nothing_left s.handled s.silent;
        known = a.known;
      }
  checked-ResumesRun req w (Outcome.ok false) s room q =
      let u : Supervisor E U JS KS X = record w {
        accepted_commands = (K.has (M.message_id req.value) w.accepted_commands).1;
      } in
      let a = At-Same M J K _ w u s.at (has-Same M J K A (M.message_id req.value) w) in
      let f =
        absent-Fresh M J K A w.accepted_commands (M.message_id req.value) s.handled
          (sym (q false refl)) s.at.known in
      let e = replay_accepted M req.value s.handled in
      accepted-ResumesRun req s.handled u _ s.silent f room
        (append_record-Resumed M J K A (accepted_record req.value) _
          (accepted_only M J K A req.value s.handled) u a (omega (arith, room))
          (nothing_left s.handled s.silent) (one_accepted req.value s.handled s.silent f) e a.known)
        (append_record-Appends M J K (accepted_record req.value) _
          (accepted_only M J K A req.value s.handled) u a (omega (arith, room)) e a.known)

  -- `acceptCommand` in a state in which the journal has no pending work, with room for three more
  -- records: unless it panics, it is done, and on every branch, failures included, the journal has at
  -- most one command whose work is left, no other command of the journal is the same, and every command
  -- that the journal has as handled is in the set.
  pub accept_command-ResumesRun :
      (req : Request E) (w : Supervisor E U JS KS X)
      → Settled M J K w
      → w.journal_pos + 3 < max_u64
      → ResumesRun (accept_command M J K A req w)
  unfolding accept_command
  accept_command-ResumesRun req w s room =
      checked-ResumesRun req w _ s room (K.has_ok (M.message_id req.value) w.accepted_commands)

  resume-Recovers :
      (v u : Supervisor E U JS KS X)
      → Resumes M J K A v
      → u.journal ≡ v.journal
      → u.accepted_commands ≡ v.accepted_commands
      → J.begin u.journal + length (recs M J K u) + 2 < max_u64
      → (p : Pending E U) × (pending_of M (recs M J K u) ≡ ok p)
        × Recovers M J K A (Completes M A p u.app) (recover M J K A u)
  resume-Recovers v u r j c room =
      let e = ap (λ s. pending_of M (J.records s)) j ∙ r.pending in
      let known =
        subst
          (λ s. All (λ (h : CommandHandled E U). K.contains s h.command_id ≡ true) r.work.handled)
          (sym c) r.known in
      (r.work, e, recover-Left-Recovers M J K A u r.work e r.left known room)

  -- A supervisor that took a request with nothing pending, and has succeeded or failed; then another
  -- one that is started over its journal and its set, with room for two records. The records of the
  -- journal make pending operations; if `recover` enters the idle state, then it has done all of them,
  -- with the calls of the handler and the recorder that make them up, and the journal is empty, its
  -- position at the end and nothing pending. Else it fails with an error, or a call panics,
  -- the callback of a range that fails included.
  pub accept_command-recover-Recovers :
      (req : Request E) (w v u : Supervisor E U JS KS X) (act : Action (State E))
      → Settled M J K w
      → w.journal_pos + 3 < max_u64
      → accept_command M J K A req w ≡ done (act, v)
      → u.journal ≡ v.journal
      → u.accepted_commands ≡ v.accepted_commands
      → J.begin u.journal + length (recs M J K u) + 2 < max_u64
      → (p : Pending E U) × (pending_of M (recs M J K u) ≡ ok p)
        × Recovers M J K A (Completes M A p u.app) (recover M J K A u)
  accept_command-recover-Recovers req w v u act s room e j c r =
      resume-Recovers v u (subst ResumesRun e (accept_command-ResumesRun req w s room)) j c r
