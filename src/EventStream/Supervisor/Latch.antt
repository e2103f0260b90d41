-- ===== src/EventStream/Supervisor/Latch.antt =====
-- The supervisor's latch (internal/eventstream/supervisor.go, `Shutdown`), which no state reads.
use veracity.Base.{
  ℕ, ◌≡◌, refl, ap, ◌∙◌, List, [], ◌∷◌, Option, none, some, length, Error, Bool-cases, inl, inr,
  ◌==◌, true,
}
use veracity.Fsm.{Run, Action}
use veracity.Fsm.Unread.{map_run, map_exit, start-map_exit}
use veracity.Maps.{Keys, Map}
use veracity.EventStream.Worker.{Exchange}
use veracity.EventStream.Supervisor.{
  IdleInput, ForwardInput, Supervisor, State, signal_shutdown, remove_picked, pick, receive_stopped,
  wait_all, shutdown_all, after_stop, select_idle, idle, after_stop_of, refuse, select_forward,
  opened, got_worker, worker_by_stream_id, forward_to, forward_append, states, run,
}

module _ {E U X Ws : Type 0} {Q : Keys U} (W : Map Q ℕ Ws) where
  abbrev signal : Supervisor E U Ws X → Supervisor E U Ws X
  signal w = record w { shutdown = true }

  abbrev signal? : Option (Supervisor E U Ws X) → Option (Supervisor E U Ws X)
  signal? none = none
  signal? (some w) = some (signal w)

  remove_picked-signal :
      (w : Supervisor E U Ws X) (o : Option ((U × ℕ) × List (U × ℕ)))
      → remove_picked W (signal w) o ≡ signal? (remove_picked W w o)
  unfolding remove_picked
  remove_picked-signal w none = refl
  remove_picked-signal w (some ((id, n), rest)) = refl

  receive-signal :
      (i : ℕ) (w : Supervisor E U Ws X)
      → receive_stopped W i (signal w) ≡ signal? (receive_stopped W i w)
  unfolding receive_stopped
  receive-signal i w = remove_picked-signal w (pick i w.live)

  after_stop-signal :
      (o : Option (Supervisor E U Ws X)) (res : Option Error)
      → after_stop W (signal? o) res ≡ map_run signal (after_stop W o res)
  unfolding after_stop
  after_stop-signal none res = refl
  after_stop-signal (some w) none = refl
  after_stop-signal (some w) (some e) = refl

  after_stop_of-signal :
      (ex : Exchange E U) (o : Option (Supervisor E U Ws X)) (res : Option Error)
      → after_stop_of W ex (signal? o) res ≡ map_run signal (after_stop_of W ex o res)
  unfolding after_stop_of refuse
  after_stop_of-signal ex none res = refl
  after_stop_of-signal ex (some w) none = refl
  after_stop_of-signal ex (some w) (some e) = refl

  wait_all-signal :
      (stops : List (ℕ × Option Error)) (w : Supervisor E U Ws X)
      → wait_all W stops (signal w) ≡ map_run signal (wait_all W stops w)
  unfolding wait_all
  wait_all-signal [] w = elim (Bool-cases (W.len w.workers == 0)) [
    | inl t ↦ rw t refl
    | inr f ↦ rw f refl
  ]
  wait_all-signal ((i, res) ∷ rest) w = elim (Bool-cases (W.len w.workers == 0)) [
    | inl t ↦ rw t refl
    | inr f ↦
        rw (f, receive-signal i w) (after (receive_stopped W i w) (λ v. wait_all-signal rest v))
  ]
    where
      after :
          (o : Option (Supervisor E U Ws X))
          → ((v : Supervisor E U Ws X)
              → wait_all W rest (signal v) ≡ map_run signal (wait_all W rest v))
          → elim (signal? o) as (λ _. Run (Action (State E U) × Supervisor E U Ws X)) [
            | none ↦ Run.blocked
            | some v ↦ wait_all W rest (record v { stops = rest })
          ]
            ≡ map_run signal (elim o as (λ _. Run (Action (State E U) × Supervisor E U Ws X)) [
              | none ↦ Run.blocked
              | some v ↦ wait_all W rest (record v { stops = rest })
            ])
      after none ih = refl
      after (some v) ih = ih (record v { stops = rest })

  select_idle-signal :
      (l : List (IdleInput E U)) (w : Supervisor E U Ws X)
      → select_idle W l (signal w) ≡ map_run signal (select_idle W l w)
  unfolding select_idle
  select_idle-signal [] w = refl
  select_idle-signal (IdleInput.canceled e ∷ rest) w = refl
  select_idle-signal (IdleInput.worker_stopped i res ∷ rest) w =
      ap (λ o. after_stop W o res) (receive-signal i (record w { idle_inputs = rest }))
      ∙ after_stop-signal _ res
  select_idle-signal (IdleInput.received ex ∷ rest) w = refl

  select_forward-signal :
      (ex : Exchange E U) (n : ℕ) (l : List ForwardInput) (w : Supervisor E U Ws X)
      → select_forward W ex n l (signal w) ≡ map_run signal (select_forward W ex n l w)
  unfolding select_forward refuse
  select_forward-signal ex n [] w = refl
  select_forward-signal ex n (ForwardInput.canceled e ∷ rest) w = refl
  select_forward-signal ex n (ForwardInput.worker_stopped i res ∷ rest) w =
      ap (λ o. after_stop_of W ex o res) (receive-signal i (record w { forward_inputs = rest }))
      ∙ after_stop_of-signal ex _ res
  select_forward-signal ex n (ForwardInput.taken ∷ rest) w = refl

  module _ (open_journal : U → X → Option Error × X) where
    forward-signal :
        (ex : Exchange E U) (w : Supervisor E U Ws X) (o : Option ℕ)
        → forward_to W open_journal ex (got_worker W open_journal ex.request.stream_id (signal w) o)
          ≡ map_run signal
              (forward_to W open_journal ex (got_worker W open_journal ex.request.stream_id w o))
    unfolding forward_to got_worker refuse
    forward-signal ex w (some n) = select_forward-signal ex n w.forward_inputs w
    forward-signal ex w none = by_open (open_journal ex.request.stream_id w.journals)
      where
        by_open :
            (r : Option Error × X)
            → forward_to W open_journal ex (opened W open_journal ex.request.stream_id (signal w) r)
              ≡ map_run signal
                  (forward_to W open_journal ex (opened W open_journal ex.request.stream_id w r))
        by_open (some e, x) = refl
        by_open (none, x) = select_forward-signal ex (length w.started) w.forward_inputs _

    states-signal :
        (s : State E U) (w : Supervisor E U Ws X)
        → states W open_journal s (signal w) ≡ map_run signal (states W open_journal s w)
    states-signal State.idle_state w = unfold states idle in select_idle-signal w.idle_inputs w
    states-signal (State.forward_append_state ex) w =
        unfold states forward_append worker_by_stream_id in
        forward-signal ex w (W.try_get ex.request.stream_id w.workers)
    states-signal State.shutdown_state w = unfold states shutdown_all in wait_all-signal w.stops _

    -- `Shutdown` has no effect on `Run`: a run that was told to shut down goes as the one that was not,
    -- with the same inputs received, the same sent and the same end, whatever the latch was.
    pub run-signal_shutdown :
        (fuel : ℕ) (w : Supervisor E U Ws X)
        → run W open_journal fuel (signal_shutdown w)
          ≡ map_exit signal_shutdown (run W open_journal fuel w)
    unfolding run signal_shutdown
    run-signal_shutdown fuel w =
        start-map_exit (states W open_journal) _ signal states-signal (λ v. refl) fuel _ _ w
