-- ===== src/Cluster/Observer/Examples.antt =====
-- An observer of a registry with a node that has expired and two that have not.
use veracity.Base.{ℕ, ◌+◌, ◌≡◌, refl, [], ◌∷◌, none, some, arith, List}
use veracity.Fsm.{Exit, start, enter_state, stop}
use veracity.Fsm.Invariant.{Leaves}
use veracity.Maps.{Map}
use veracity.Maps.Assoc.{AssocMap, assoc, number_keys, insert, erase}
use veracity.Keyspace.{Keyspace}
use veracity.Keyspace.Memory.{memory, write}
use veracity.Cluster.Registry.{Node, Registration}
use veracity.Cluster.Observer.{
  MembershipChanged, IdleInput, PublishInput, RegistryObserver, changes, apply_event, load_nodes,
  run,
}
use veracity.Cluster.Observer.Changes.{changes-apply}
use veracity.Cluster.Observer.Membership.{Keyed}
use veracity.Cluster.Observer.Verdicts.{OwnKeys}
use veracity.Cluster.Observer.Loading.{Loaded, load_nodes-Loaded}
use veracity.Cluster.Observer.Publishing.{Told, run-Told}

abbrev registry : Keyspace number_keys (Registration ℕ ℕ) (AssocMap number_keys (Registration ℕ ℕ))
registry = memory number_keys (Registration ℕ ℕ)

abbrev node_map : Map number_keys (Node ℕ ℕ) (AssocMap number_keys (Node ℕ ℕ))
node_map = assoc number_keys (Node ℕ ℕ)

abbrev node : ℕ → Node ℕ ℕ
node id = record { id = id; addresses = (id + 80) ∷ [] }

abbrev registration : ℕ → ℕ → Registration ℕ ℕ
registration id expires_at = record { node = node id; expires_at = expires_at }

abbrev observer :
    RegistryObserver ℕ ℕ (AssocMap number_keys (Registration ℕ ℕ)) (AssocMap number_keys (Node ℕ ℕ))
observer = record {
  keyspace = (
    (1, registration 1 50) ∷ (2, registration 2 500) ∷ (3, registration 3 109) ∷ [],
    (refl, (refl, (refl, tt))),
  );
  nodes = ([], tt);
  clock = record { now = 100; passing = 1 ∷ 1 ∷ 1 ∷ 3 ∷ 3 ∷ 3 ∷ 1 ∷ [] };
  idle_inputs = IdleInput.ready_for_poll ∷ IdleInput.shutdown_signaled ∷ [];
  publish_inputs = PublishInput.published ∷ PublishInput.published ∷ [];
  events = [];
  ctx_err = none;
}

abbrev events_of :
    Exit (
      RegistryObserver ℕ ℕ
        (AssocMap number_keys (Registration ℕ ℕ))
        (AssocMap number_keys (Node ℕ ℕ)))
    → List (MembershipChanged ℕ ℕ)
events_of (Exit.returned e o) = o.events
events_of (Exit.blocked o) = o.events
events_of (Exit.panicked o) = o.events
events_of (Exit.running o) = o.events

-- Node 3 expires between the two polls.
publishes :
    events_of (run registry node_map 10 observer)
    ≡ record { registered = node 2 ∷ node 3 ∷ []; deregistered = [] }
      ∷ record { registered = []; deregistered = node 3 ∷ [] }
      ∷ []
unfolding run insert erase write enter_state stop start changes apply_event
publishes = refl

abbrev two_nodes : AssocMap number_keys (Node ℕ ℕ)
two_nodes = ((1, node 1) ∷ (2, node 2) ∷ [], (refl, (refl, tt)))

abbrev moved_nodes : AssocMap number_keys (Node ℕ ℕ)
moved_nodes = ((2, record { id = 2; addresses = [] }) ∷ (3, node 3) ∷ [], (refl, (refl, tt)))

two_nodes-Keyed : Keyed node_map two_nodes
two_nodes-Keyed id n e = ground (arith, e)

moved_nodes-Keyed : Keyed node_map moved_nodes
moved_nodes-Keyed id n e = ground (arith, e)

changes-apply_example :
    node_map.try_get 2 (apply_event node_map (changes node_map two_nodes moved_nodes) two_nodes)
    ≡ some (node 2)
changes-apply_example =
    changes-apply node_map two_nodes moved_nodes two_nodes-Keyed moved_nodes-Keyed 2

observer-OwnKeys : OwnKeys registry observer.keyspace
observer-OwnKeys id reg e = ground (arith, e)

load_nodes-Loaded_example :
    Loaded registry node_map observer (load_nodes registry node_map observer)
load_nodes-Loaded_example = load_nodes-Loaded registry node_map observer observer-OwnKeys

run-Told_example :
    Leaves (Told node_map) (Told node_map) (λ _. ⊥) (run registry node_map 10 observer)
run-Told_example = run-Told registry node_map observer 10 refl refl (omega arith)
