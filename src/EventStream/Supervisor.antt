-- ===== src/EventStream/Supervisor.antt =====
-- internal/eventstream/supervisor.go: the supervisor, which starts a worker for each stream and
-- forwards the append requests to them.
--
-- The world of its state machine is `Supervisor`. A worker is known by its number, the place of its
-- stream in `started`. `live` is the goroutines that have not sent their result on `workerStopped`:
-- a goroutine sends it once, when its worker's `Run` returns. Each `select` takes the case that the
-- next entry of its list gives, so the lists range over every order in which cases become ready:
-- `idle_inputs` for `idleState`, `forward_inputs` for `forwardAppendState`, and `stops` for the
-- receive of `shutdownState`. `workerStopped` gives the result of one of the goroutines, the entry's
-- number picking which. The journals are opened in the state `X`; logging is left out.
pub mod Picking
pub mod Tracking
pub mod Accounting
pub mod Forwarding
pub mod Shutdown
pub mod Running
pub mod Latch
mod Examples
use veracity.Base.{
  ℕ, zero, suc, ◌+◌, Bool, true, false, List, [], ◌∷◌, ◌++◌, map, Option, none, some, length, ◌==◌,
  if◌then◌else◌, Error, shutting_down, Outcome, ok, err, panic,
}
use veracity.Fsm
use veracity.Fsm.{
  Action, Run, Exit, done, blocked, panicked, stop, fail, stay_in_current_state, enter_state,
}
use veracity.Maps.{Keys, Map}
use veracity.EventStream.Worker.{Exchange, Reply, failure}

pub data IdleInput (E U : Type 0) : Type 0 where
  canceled : Error → IdleInput E U
  worker_stopped : ℕ → Option Error → IdleInput E U
  received : Exchange E U → IdleInput E U

-- `taken`: the worker received the exchange from its `AppendQueue`.
pub data ForwardInput : Type 0 where
  canceled : Error → ForwardInput
  worker_stopped : ℕ → Option Error → ForwardInput
  taken : ForwardInput

-- What the supervisor sends: an exchange to a worker, or a reply on a response channel.
pub data Sent (E U : Type 0) : Type 0 where
  to_worker : ℕ → Exchange E U → Sent E U
  to_client : Reply → Sent E U

pub record Supervisor (E U Ws X : Type 0) : Type 0 where
  pub shutdown : Bool
  pub workers : Ws
  pub live : List (U × ℕ)
  pub started : List U
  pub signaled : List ℕ
  pub journals : X
  pub idle_inputs : List (IdleInput E U)
  pub forward_inputs : List ForwardInput
  pub stops : List (ℕ × Option Error)
  pub sent : List (Sent E U)
  pub ctx_err : Option Error

pub data State (E U : Type 0) : Type 0 where
  idle_state : State E U
  forward_append_state : Exchange E U → State E U
  shutdown_state : State E U

-- One element of a list, with the others; a number beyond the end picks the last.
unfoldable pub pick : {A : Type 0} → ℕ → List A → Option (A × List A)
pick n [] = none
pick zero (x ∷ xs) = some (x, xs)
pick (suc n) (x ∷ xs) = elim (pick n xs) [ none ↦ some (x, xs) | some (y, ys) ↦ some (y, x ∷ ys) ]

-- The latch is set once, whoever signals it.
unfoldable pub signal_shutdown : {E U Ws X : Type 0} → Supervisor E U Ws X → Supervisor E U Ws X
signal_shutdown w = record w { shutdown = true }

module _ {E U Ws X : Type 0} {Q : Keys U} (W : Map Q ℕ Ws) where
  -- `res := <-s.workerStopped` and the removal of the worker; no result comes without a goroutine.
  unfoldable pub remove_picked :
      Supervisor E U Ws X → Option ((U × ℕ) × List (U × ℕ)) → Option (Supervisor E U Ws X)
  remove_picked w none = none
  remove_picked w (some ((id, n), rest)) =
      some (record w { live = rest; workers = W.remove id w.workers })

  unfoldable pub receive_stopped : ℕ → Supervisor E U Ws X → Option (Supervisor E U Ws X)
  unfolding pick remove_picked
  receive_stopped i w = remove_picked w (pick i w.live)

  -- The loop of `shutdownState`; it waits for ever where no further result comes.
  unfoldable pub wait_all :
      List (ℕ × Option Error) → Supervisor E U Ws X → Run (Action (State E U) × Supervisor E U Ws X)
  unfolding receive_stopped
  wait_all [] w = if W.len w.workers == 0 then done (stop, w) else blocked
  wait_all ((i, res) ∷ rest) w =
      if W.len w.workers == 0 then done (stop, w) else elim (receive_stopped i w) [
        | none ↦ blocked
        | some w' ↦ wait_all rest (record w' { stops = rest })
      ]

  unfoldable pub shutdown_all : Supervisor E U Ws X → Run (Action (State E U) × Supervisor E U Ws X)
  unfolding wait_all
  shutdown_all w =
      let signals = map (λ (p : U × ℕ). p.1) (W.all w.workers) in
      wait_all w.stops (record w { signaled = w.signaled ++ signals })

  -- `ex.Err(errShuttingDown)`
  unfoldable pub refuse : Exchange E U → Supervisor E U Ws X → Supervisor E U Ws X
  refuse ex w = record w { sent = w.sent ++ to_client (failure ex.response shutting_down) ∷ [] }

  -- The result of a worker: its error fails the supervisor.
  unfoldable pub after_stop :
      Option (Supervisor E U Ws X) → Option Error → Run (Action (State E U) × Supervisor E U Ws X)
  after_stop none res = blocked
  after_stop (some w) none = done (stay_in_current_state, w)
  after_stop (some w) (some e) = done (fail e, w)

  unfoldable pub select_idle :
      List (IdleInput E U) → Supervisor E U Ws X → Run (Action (State E U) × Supervisor E U Ws X)
  unfolding after_stop receive_stopped
  select_idle [] w = blocked
  select_idle (IdleInput.canceled e ∷ rest) w =
      done (stop, record w { idle_inputs = rest; ctx_err = some e })
  select_idle (IdleInput.worker_stopped i res ∷ rest) w =
      after_stop (receive_stopped i (record w { idle_inputs = rest })) res
  select_idle (IdleInput.received ex ∷ rest) w =
      done (enter_state (forward_append_state ex), record w { idle_inputs = rest })

  unfoldable pub idle : Supervisor E U Ws X → Run (Action (State E U) × Supervisor E U Ws X)
  unfolding select_idle
  idle w = select_idle w.idle_inputs w

  -- The result of a worker while an exchange waits to be forwarded.
  unfoldable pub after_stop_of :
      Exchange E U
      → Option (Supervisor E U Ws X)
      → Option Error
      → Run (Action (State E U) × Supervisor E U Ws X)
  unfolding refuse
  after_stop_of ex none res = blocked
  after_stop_of ex (some w) none = done (stay_in_current_state, w)
  after_stop_of ex (some w) (some e) = done (fail e, refuse ex w)

  unfoldable pub select_forward :
      Exchange E U
      → ℕ
      → List ForwardInput
      → Supervisor E U Ws X
      → Run (Action (State E U) × Supervisor E U Ws X)
  unfolding after_stop_of receive_stopped refuse
  select_forward ex n [] w = blocked
  select_forward ex n (ForwardInput.canceled e ∷ rest) w =
      done (stop, refuse ex (record w { forward_inputs = rest; ctx_err = some e }))
  select_forward ex n (ForwardInput.worker_stopped i res ∷ rest) w =
      after_stop_of ex (receive_stopped i (record w { forward_inputs = rest })) res
  select_forward ex n (ForwardInput.taken ∷ rest) w = done (
    enter_state idle_state,
    record w { forward_inputs = rest; sent = w.sent ++ to_worker n ex ∷ [] },
  )

module _ {E U Ws X : Type 0} {Q : Keys U} (W : Map Q ℕ Ws)
    (open_journal : U → X → Option Error × X) where
  -- `startWorkerForStreamID` and the entry in the map, if the journal opens.
  unfoldable pub opened :
      U → Supervisor E U Ws X → Option Error × X → Outcome ℕ × Supervisor E U Ws X
  opened id w (some e, x) = (err e, record w { journals = x })
  opened id w (none, x) =
      let n = length w.started in
      (
        ok n,
        record w {
          journals = x;
          started = w.started ++ id ∷ [];
          live = w.live ++ (id, n) ∷ [];
          workers = W.set id n w.workers;
        },
      )

  unfoldable pub got_worker : U → Supervisor E U Ws X → Option ℕ → Outcome ℕ × Supervisor E U Ws X
  unfolding opened
  got_worker id w (some n) = (ok n, w)
  got_worker id w none = opened id w (open_journal id w.journals)

  unfoldable pub worker_by_stream_id : U → Supervisor E U Ws X → Outcome ℕ × Supervisor E U Ws X
  unfolding got_worker
  worker_by_stream_id id w = got_worker id w (W.try_get id w.workers)

  unfoldable pub forward_to :
      Exchange E U
      → Outcome ℕ × Supervisor E U Ws X
      → Run (Action (State E U) × Supervisor E U Ws X)
  unfolding refuse select_forward
  forward_to ex (Outcome.ok n, w) = select_forward W ex n w.forward_inputs w
  forward_to ex (Outcome.err e, w) = done (fail e, refuse W ex w)
  forward_to ex (Outcome.panic, w) = panicked

  unfoldable pub forward_append :
      Exchange E U → Supervisor E U Ws X → Run (Action (State E U) × Supervisor E U Ws X)
  unfolding forward_to worker_by_stream_id
  forward_append ex w = forward_to ex (worker_by_stream_id ex.request.stream_id w)

  unfoldable pub states :
      State E U → Supervisor E U Ws X → Run (Action (State E U) × Supervisor E U Ws X)
  unfolding idle forward_append shutdown_all
  states idle_state w = idle W w
  states (forward_append_state ex) w = forward_append ex w
  states shutdown_state w = shutdown_all W w

  -- `Run`, with fuel for the rounds of the state machine.
  unfoldable pub run : ℕ → Supervisor E U Ws X → Exit (Supervisor E U Ws X)
  unfolding states
  run fuel w = Fsm.start states (λ v. v.ctx_err) fuel idle_state (some shutdown_state) w
