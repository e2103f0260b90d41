-- ===== src/EventStream/Supervisor/Running.antt =====
-- A run of the supervisor from its start to its end (internal/eventstream/supervisor.go, with the loop
-- of internal/fsm/fsm.go).
use veracity.Base.{ℕ, ◌≡◌, false, List, [], Option, none, All, Error}
use veracity.Maps.{Keys, Map}
use veracity.EventStream.Supervisor.{IdleInput, ForwardInput, Supervisor}
use veracity.EventStream.Supervisor.Tracking.{IsRouted}
use veracity.EventStream.Supervisor.Accounting.{Accounts}

module _ {E U X Ws : Type 0} {Q : Keys U} (W : Map Q ℕ Ws) where
  -- A supervisor that `Run` starts, which has no worker yet.
  abbrev pub new_supervisor :
      X → List (IdleInput E U) → List ForwardInput → List (ℕ × Option Error) → Supervisor E U Ws X
  new_supervisor x idle_inputs forward_inputs stops = record {
    shutdown = false;
    workers = W.empty;
    live = [];
    started = [];
    signaled = [];
    journals = x;
    idle_inputs = idle_inputs;
    forward_inputs = forward_inputs;
    stops = stops;
    sent = [];
    ctx_err = none;
  }

module _ {E U X Ws : Type 0} {Q : Keys U} (W : Map Q ℕ Ws) (all : List ℕ)
    (open_journal : U → X → Option Error × X) where
  -- The supervisor has ended: no worker runs, and every exchange that it took was handed to a worker of
  -- its stream or refused, in order.
  pub record Closed (w : Supervisor E U Ws X) : Type 0 where
    pub none_live : w.live ≡ []
    pub none_mapped : W.len w.workers ≡ 0
    pub routed : All (IsRouted w.started) w.sent
    pub accounts : Accounts W all [] w
