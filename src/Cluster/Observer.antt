-- ===== src/Cluster/Observer.antt =====
-- internal/cluster/registry.go and engineevents.go: the observer, which publishes the changes of the
-- registry's nodes.
--
-- The inputs of each state's `select` are a list. `published` is a receive on `MembershipChanged` by the
-- other side, and `events` has what it received. `Run` opens the keyspace; its ticker, with the interval
-- that `poll_interval` gives, is the input `ready_for_poll`.
pub mod Membership
pub mod Changes
pub mod Verdicts
pub mod Loading
pub mod Polling
pub mod Publishing
mod Examples
use veracity.Base.{
  ℕ, Bool, true, false, List, [], ◌∷◌, ◌++◌, Option, none, some, ltb, if◌then◌else◌, Error, Outcome,
  ok, err, panic, ℤ,
}
use veracity.Fsm.{Run, done, blocked, panicked, Exit, Action, stop, fail, enter_state, start}
use veracity.Maps.{Keys, Map}
use veracity.Keyspace.{Keyspace}
use veracity.Cluster.Registry.{
  Node, Registration, Clock, read_clock, default_registry_poll_interval, interval_or,
}

pub record MembershipChanged (U A : Type 0) : Type 0 where
  pub registered : List (Node U A)
  pub deregistered : List (Node U A)

pub data IdleInput : Type 0 where
  canceled : Error → IdleInput
  shutdown_signaled : IdleInput
  ready_for_poll : IdleInput

pub data PublishInput : Type 0 where
  canceled : Error → PublishInput
  ready_for_poll : PublishInput
  published : PublishInput

pub record RegistryObserver (U A S N : Type 0) : Type 0 where
  pub keyspace : S
  pub nodes : N
  pub clock : Clock
  pub idle_inputs : List IdleInput
  pub publish_inputs : List PublishInput
  pub events : List (MembershipChanged U A)
  pub ctx_err : Option Error

pub data State (U A : Type 0) : Type 0 where
  idle_state : State U A
  poll_state : State U A
  publish_state : MembershipChanged U A → State U A

unfoldable pub poll_interval : ℤ → ℕ
unfolding interval_or
poll_interval interval = interval_or default_registry_poll_interval interval

-- The node is appended unless its id was found, the result of the lookup.
abbrev pub missing_cons :
    {U A : Type 0} → Option (Node U A) → Node U A → List (Node U A) → List (Node U A)
missing_cons none node others = node ∷ others
missing_cons (some n) node others = others

module _ {U A N : Type 0} {Q : Keys U} (M : Map Q (Node U A) N) where
  -- The nodes of the pairs whose key is not in the map.
  unfoldable pub missing : List (U × Node U A) → N → List (Node U A)
  missing [] nodes = []
  missing ((id, node) ∷ rest) nodes = missing_cons (M.try_get id nodes) node (missing rest nodes)

  -- The event of `pollState`.
  unfoldable pub changes : N → N → MembershipChanged U A
  unfolding missing
  changes known nodes = record {
    registered = missing (M.all nodes) known;
    deregistered = missing (M.all known) nodes;
  }

  unfoldable pub set_all : List (Node U A) → N → N
  set_all [] nodes = nodes
  set_all (node ∷ rest) nodes = set_all rest (M.set node.id node nodes)

  unfoldable pub remove_all : List (Node U A) → N → N
  remove_all [] nodes = nodes
  remove_all (node ∷ rest) nodes = remove_all rest (M.remove node.id nodes)

  -- The nodes after an event.
  unfoldable pub apply_event : MembershipChanged U A → N → N
  unfolding set_all remove_all
  apply_event ev nodes = remove_all ev.deregistered (set_all ev.registered nodes)

module _ {U A S N : Type 0} where
  -- The end of the deletion of an expired registration.
  unfoldable pub deleted :
      N → RegistryObserver U A S N → Outcome (Unit {0}) × S → Outcome N × RegistryObserver U A S N
  deleted nodes o (Outcome.ok _, s) = (ok nodes, record o { keyspace = s })
  deleted nodes o (Outcome.err e, s) = (err e, record o { keyspace = s })
  deleted nodes o (Outcome.panic, s) = (panic, record o { keyspace = s })

  unfoldable pub select_idle :
      List IdleInput
      → RegistryObserver U A S N
      → Run (Action (State U A) × RegistryObserver U A S N)
  select_idle [] o = blocked
  select_idle (IdleInput.canceled e ∷ rest) o =
      done (stop, record o { idle_inputs = rest; ctx_err = some e })
  select_idle (IdleInput.shutdown_signaled ∷ rest) o = done (stop, record o { idle_inputs = rest })
  select_idle (IdleInput.ready_for_poll ∷ rest) o =
      done (enter_state State.poll_state, record o { idle_inputs = rest })

  unfoldable pub idle :
      RegistryObserver U A S N → Run (Action (State U A) × RegistryObserver U A S N)
  unfolding select_idle
  idle o = select_idle o.idle_inputs o

module _ {U A S N : Type 0} {Q : Keys U} (D : Keyspace Q (Registration U A) S)
    (M : Map Q (Node U A) N) where
  -- The function that `Range` calls for a registration, at the time of the observer's clock.
  unfoldable pub load_node :
      U → Registration U A → N → RegistryObserver U A S N → Outcome N × RegistryObserver U A S N
  unfolding deleted
  load_node id reg nodes o =
      if ltb o.clock.now reg.expires_at
      then (
        ok (M.set reg.node.id (record { id = reg.node.id; addresses = reg.node.addresses }) nodes),
        o,
      )
      else deleted nodes o (D.set id none o.keyspace)

  -- `Range` over the pairs, which an error ends; `range_err` is its own error after the last one.
  unfoldable pub load_pairs :
      List (U × Registration U A)
      → Option Error
      → Outcome N × RegistryObserver U A S N
      → Outcome N × RegistryObserver U A S N
  unfolding load_node read_clock
  load_pairs pairs range_err (Outcome.err e, o) = (err e, o)
  load_pairs pairs range_err (Outcome.panic, o) = (panic, o)
  load_pairs [] none (Outcome.ok nodes, o) = (ok nodes, o)
  load_pairs [] (some e) (Outcome.ok nodes, o) = (err e, o)
  load_pairs ((id, reg) ∷ rest) range_err (Outcome.ok nodes, o) =
      load_pairs rest range_err (load_node id reg nodes (record o { clock = read_clock o.clock }))

  unfoldable pub load_nodes : RegistryObserver U A S N → Outcome N × RegistryObserver U A S N
  unfolding load_pairs
  load_nodes o =
      let ((pairs, range_err), s) = D.range o.keyspace in
      load_pairs pairs range_err (ok M.empty, record o { keyspace = s })

-- The state after a poll: an event that is empty is not published.
unfoldable pub next_state :
    {U A : Type 0} → List (Node U A) → List (Node U A) → MembershipChanged U A → State U A
next_state [] [] ev = State.idle_state
next_state [] (node ∷ rest) ev = State.publish_state ev
next_state (node ∷ rest) deregistered ev = State.publish_state ev

module _ {U A S N : Type 0} {Q : Keys U} (M : Map Q (Node U A) N) where
  unfoldable pub announce :
      MembershipChanged U A
      → RegistryObserver U A S N
      → Run (Action (State U A) × RegistryObserver U A S N)
  unfolding next_state
  announce ev o = done (enter_state (next_state ev.registered ev.deregistered ev), o)

  unfoldable pub polled :
      Outcome N × RegistryObserver U A S N → Run (Action (State U A) × RegistryObserver U A S N)
  unfolding announce changes
  polled (Outcome.err e, o) = done (fail e, o)
  polled (Outcome.panic, o) = panicked
  polled (Outcome.ok nodes, o) = announce (changes M o.nodes nodes) o

  unfoldable pub publish :
      MembershipChanged U A → RegistryObserver U A S N → RegistryObserver U A S N
  unfolding apply_event
  publish ev o = record o { nodes = apply_event M ev o.nodes; events = o.events ++ ev ∷ [] }

  unfoldable pub select_publish :
      MembershipChanged U A
      → List PublishInput
      → RegistryObserver U A S N
      → Run (Action (State U A) × RegistryObserver U A S N)
  unfolding publish
  select_publish ev [] o = blocked
  select_publish ev (PublishInput.canceled e ∷ rest) o =
      done (stop, record o { publish_inputs = rest; ctx_err = some e })
  select_publish ev (PublishInput.ready_for_poll ∷ rest) o =
      done (enter_state State.poll_state, record o { publish_inputs = rest })
  select_publish ev (PublishInput.published ∷ rest) o =
      done (enter_state State.idle_state, publish ev (record o { publish_inputs = rest }))

module _ {U A S N : Type 0} {Q : Keys U} (D : Keyspace Q (Registration U A) S)
    (M : Map Q (Node U A) N) where
  unfoldable pub poll :
      RegistryObserver U A S N → Run (Action (State U A) × RegistryObserver U A S N)
  unfolding polled load_nodes
  poll o = polled M (load_nodes D M o)

  unfoldable pub states :
      State U A → RegistryObserver U A S N → Run (Action (State U A) × RegistryObserver U A S N)
  unfolding idle poll select_publish
  states State.idle_state o = idle o
  states State.poll_state o = poll o
  states (State.publish_state ev) o = select_publish M ev o.publish_inputs o

  unfoldable pub run : ℕ → RegistryObserver U A S N → Exit (RegistryObserver U A S N)
  unfolding states
  run fuel o = start states (λ v. v.ctx_err) fuel State.poll_state none o
