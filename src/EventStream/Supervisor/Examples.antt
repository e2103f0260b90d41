-- ===== src/EventStream/Supervisor/Examples.antt =====
-- A supervisor that gets requests for two streams, over an association list of workers.
use veracity.Base.{ℕ, ◌≡◌, refl, List, [], ◌∷◌, Option, none, some, arith, external, Error, ◌==◌}
use veracity.Fsm.{Exit, done, stop, start, enter_state, stay_in_current_state}
use veracity.Fsm.Unread.{map_exit}
use veracity.Maps.{Map, find}
use veracity.Maps.Assoc.{number_keys, AssocMap, assoc, insert, erase}
use veracity.EventStream.Worker.{Exchange}
use veracity.EventStream.Supervisor.{
  IdleInput, ForwardInput, Sent, to_worker, Supervisor, signal_shutdown, shutdown_all, run,
}
use veracity.EventStream.Supervisor.Shutdown.{In, Drained, shutdown_all-Drained}
use veracity.EventStream.Supervisor.Tracking.{Tracks}
use veracity.EventStream.Supervisor.Running.{new_supervisor}
use veracity.EventStream.Supervisor.Latch.{run-signal_shutdown}

abbrev worker_map : Map number_keys ℕ (AssocMap number_keys ℕ)
worker_map = assoc number_keys ℕ

abbrev exchange : ℕ → ℕ → Exchange ℕ ℕ
exchange stream channel = record {
  request = record { stream_id = stream; events = 1 ∷ []; offset_hint = 0 };
  response = channel;
}

abbrev opens : ℕ → ℕ → Option Error × ℕ
opens id x = (none, x)

abbrev two_streams : List (IdleInput ℕ ℕ)
two_streams =
    IdleInput.received (exchange 7 100)
    ∷ IdleInput.received (exchange 8 101)
    ∷ IdleInput.received (exchange 7 102)
    ∷ IdleInput.canceled (external 1)
    ∷ []

-- The worker of stream 7 stops before it takes the third exchange, and is started again.
abbrev restarting : List ForwardInput
restarting =
    ForwardInput.taken
    ∷ ForwardInput.taken
    ∷ ForwardInput.worker_stopped 0 none
    ∷ ForwardInput.taken
    ∷ []

abbrev stopping : List (ℕ × Option Error)
stopping = (1, none) ∷ (0, none) ∷ (0, none) ∷ (0, none) ∷ []

abbrev fresh_supervisor : Supervisor ℕ ℕ (AssocMap number_keys ℕ) ℕ
fresh_supervisor = new_supervisor worker_map 0 two_streams restarting stopping

abbrev sent_by : Exit (Supervisor ℕ ℕ (AssocMap number_keys ℕ) ℕ) → List (Sent ℕ ℕ)
sent_by (Exit.returned e w) = w.sent
sent_by (Exit.blocked w) = w.sent
sent_by (Exit.panicked w) = w.sent
sent_by (Exit.running w) = w.sent

restarted_worker :
    sent_by (run worker_map opens 20 fresh_supervisor)
    ≡ to_worker 0 (exchange 7 100)
      ∷ to_worker 1 (exchange 8 101)
      ∷ to_worker 2 (exchange 7 102)
      ∷ []
unfolding run insert erase start enter_state stay_in_current_state stop
restarted_worker = refl

abbrev one_running : Supervisor ℕ ℕ (AssocMap number_keys ℕ) ℕ
one_running = record fresh_supervisor {
  workers = ((7, 0) ∷ [], (refl, tt));
  live = (7, 0) ∷ [];
  started = 7 ∷ [];
}

one_running-Tracks : Tracks worker_map one_running.workers one_running.live one_running.started
one_running-Tracks = record {
  tracks = λ id. refl;
  distinct = (refl, tt);
  counted = refl;
  numbered = (refl, tt);
}

shutdown_all-Drained_example :
    (v : Supervisor ℕ ℕ (AssocMap number_keys ℕ) ℕ) × (shutdown_all worker_map one_running
      ≡ done (stop, v))
    × Drained worker_map (record one_running { signaled = 0 ∷ [] }) v
    × ((id n : ℕ) → find (λ a b. a == b) id one_running.live ≡ some n → In n v.signaled)
shutdown_all-Drained_example =
    shutdown_all-Drained worker_map one_running one_running-Tracks (omega arith)

run-signal_shutdown_example :
    run worker_map opens 20 (signal_shutdown fresh_supervisor)
    ≡ map_exit signal_shutdown (run worker_map opens 20 fresh_supervisor)
run-signal_shutdown_example = run-signal_shutdown worker_map opens 20 fresh_supervisor
