-- ===== src/Cluster/Partition.antt =====
-- internal/cluster/partition.go: the partitioner, which routes workloads by rendezvous hashing.
--
-- `hash` is what xxhash gives for the bytes of a node followed by those of a workload, a `uint64`;
-- `nodes` is the ordered set of optimistic.antt, over the identifiers' `Less`.
pub mod Winner
pub mod Stability
mod Examples
use veracity.Base.{ℕ, Bool, List, [], ◌∷◌, Option, none, some, ltb, if◌then◌else◌}
use veracity.Optimistic.OrderedSet
use veracity.Optimistic.OrderedSet.{OrderedSet, compare_less, members}

pub record Partitioner (U : Type 0) : Type 0 where
  pub nodes : OrderedSet U

-- `Route` panics without nodes; its result is nil where no hash is above zero.
pub data Routed (U : Type 0) : Type 0 where
  node : Option U → Routed U
  panicked : Routed U

module _ {U : Type 0} (hash : U → U → ℕ) where
  -- The loop of `Route`, over `winner` and `score`.
  unfoldable pub route_loop : U → Option U → ℕ → List U → Option U
  route_loop workload winner score [] = winner
  route_loop workload winner score (n ∷ nodes) =
      let s = hash n workload in
      route_loop workload (if ltb score s then some n else winner)
        (if ltb score s then s else score) nodes

  unfoldable pub route_among : List U → U → Routed U
  unfolding route_loop
  route_among [] workload = Routed.panicked
  route_among (n ∷ nodes) workload = Routed.node (route_loop workload none 0 (n ∷ nodes))

  unfoldable pub route : Partitioner U → U → Routed U
  unfolding route_among
  route p workload = route_among (members p.nodes) workload

module _ {U : Type 0} (zero_value : U) (grow : ℕ → ℕ) (less : U → U → Bool) where
  unfoldable pub add_node : U → Partitioner U → Partitioner U
  add_node id p = record { nodes = OrderedSet.add zero_value grow (compare_less less) id p.nodes }

module _ {U : Type 0} (zero_value : U) (less : U → U → Bool) where
  unfoldable pub remove_node : U → Partitioner U → Partitioner U
  remove_node id p = record { nodes = OrderedSet.delete zero_value (compare_less less) id p.nodes }
