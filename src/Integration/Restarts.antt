-- ===== src/Integration/Restarts.antt =====
-- A supervisor whose record of the handled command is written although the append fails, and the one
-- that is started after it.
use veracity.Base.{ℕ, ◌≡◌, refl, List, [], ◌∷◌, some, arith, external, ok}
use veracity.Fsm.{done, enter_state, fail}
use veracity.Journal.Memory.{Memory, healthy, fails_after, append}
use veracity.Integration.{Record}
use veracity.Integration.Pending.{Pending, accepted_record, handled_record, replay_record}
use veracity.Integration.Supervisor.{Request, Supervisor, ack, idle_state}
use veracity.Integration.Supervisor.Requests.{accept_command}
use veracity.Integration.Supervisor.Machine.{recover}
use veracity.Integration.Supervisor.Effects.{Settled}
use veracity.Integration.Supervisor.Progress.{pending_of, recs}
use veracity.Integration.Supervisor.Completing.{Completes}
use veracity.Integration.Supervisor.Recover.{Recovers}
use veracity.Integration.Supervisor.Interrupted.{one_handled}
use veracity.Integration.Supervisor.Relapsing.{Relapses, recover-Relapses}
use veracity.Integration.Supervisor.Resuming.{Resumes}
use veracity.Integration.Supervisor.Restarting.{
  ResumesRun, accept_command-ResumesRun, accept_command-recover-Recovers,
}
use veracity.Integration.Examples.{
  numbers, log, list_set, in_list, tenfold, idle_supervisor, seven_handled,
}

abbrev request : Request ℕ
request = record { value = 7; acknowledgement = 1 }

abbrev faulty_supervisor : Supervisor ℕ ℕ (Memory (Record ℕ ℕ)) (List ℕ) (List ℕ)
faulty_supervisor = record idle_supervisor {
  journal = record { start = 0; items = []; faults = healthy ∷ fails_after ∷ [] };
}

faulty-Settled : Settled numbers log list_set faulty_supervisor
faulty-Settled = record {
  handled = [];
  at = record { at_end = refl; pending = refl; known = tt };
  silent = tt;
}

-- The supervisor when it has failed.
abbrev failed_supervisor : Supervisor ℕ ℕ (Memory (Record ℕ ℕ)) (List ℕ) (List ℕ)
failed_supervisor = record faulty_supervisor {
  journal_pos = 1;
  event_stream_id = some 99;
  journal = record {
    start = 0;
    items = accepted_record 7 ∷ handled_record seven_handled ∷ [];
    faults = [];
  };
  accepted_commands = 7 ∷ 4 ∷ [];
  answers = ack 1 ∷ [];
}

accept_fails :
    accept_command numbers log list_set tenfold request faulty_supervisor
    ≡ done (fail (external 1), failed_supervisor)
unfolding accept_command in_list append
accept_fails = refl

abbrev next_supervisor : Supervisor ℕ ℕ (Memory (Record ℕ ℕ)) (List ℕ) (List ℕ)
next_supervisor = record idle_supervisor {
  journal = failed_supervisor.journal;
  accepted_commands = failed_supervisor.accepted_commands;
}

recover_succeeds :
    recover numbers log list_set tenfold next_supervisor
    ≡ done (
      enter_state idle_state,
      record next_supervisor {
        journal_pos = 3;
        journal = record { start = 3; items = []; faults = [] };
        app = 70 ∷ [];
      },
    )
unfolding recover in_list append replay_record accepted_record
recover_succeeds = refl

accept_command-ResumesRun_example :
    ResumesRun numbers log list_set tenfold
      (accept_command numbers log list_set tenfold request faulty_supervisor)
accept_command-ResumesRun_example =
    accept_command-ResumesRun numbers log list_set tenfold request faulty_supervisor faulty-Settled
      (omega arith)

accept_command-recover-Recovers_example :
    (p : Pending ℕ ℕ) × (pending_of numbers (recs numbers log list_set next_supervisor) ≡ ok p)
    × Recovers numbers log list_set tenfold
        (Completes numbers tenfold p next_supervisor.app)
        (recover numbers log list_set tenfold next_supervisor)
accept_command-recover-Recovers_example =
    accept_command-recover-Recovers numbers log list_set tenfold request faulty_supervisor
      failed_supervisor next_supervisor (fail (external 1)) faulty-Settled (omega arith)
      accept_fails refl refl (omega arith)

next-Resumes : Resumes numbers log list_set tenfold next_supervisor
unfolding handled_record accepted_record replay_record in_list
next-Resumes = record {
  work = record { accepted = []; handled = seven_handled ∷ [] };
  pending = refl;
  left = one_handled seven_handled [] tt tt;
  known = (refl, tt);
}

recover-Relapses_example :
    Relapses numbers log list_set tenfold next-Resumes.work next_supervisor
      (recover numbers log list_set tenfold next_supervisor)
recover-Relapses_example =
    recover-Relapses numbers log list_set tenfold next_supervisor next-Resumes (omega arith)
