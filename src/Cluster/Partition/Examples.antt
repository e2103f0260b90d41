-- ===== src/Cluster/Partition/Examples.antt =====
-- Three nodes, whose score for a workload is at its largest for one of them.
use veracity.Base.{ℕ, ◌*◌, ◌%◌, ◌≡◌, ◌⊎◌, refl, some, ltb, arith}
use veracity.Optimistic.OrderedSet.{members}
use veracity.Optimistic.OrderedSet.Examples.{ltb-IsStrictOrder, odds, odds-IsOrdered}
use veracity.Cluster.Partition.{Partitioner, node, route, add_node, remove_node}
use veracity.Cluster.Partition.Winner.{Wins, route-Routes}
use veracity.Cluster.Partition.Stability.{route-add_node, route-remove_node}

abbrev score : ℕ → ℕ → ℕ
score n w = (n * w) % 11

abbrev three : Partitioner ℕ
three = record { nodes = odds }

route-three : route score three 7 ≡ node (some 3)
unfolding route members
route-three = refl

route-Routes_example : Wins score 7 (members odds) 3
unfolding route members
route-Routes_example = route-Routes score three 7

route-add_node_example :
    (route score (add_node 0 (λ n. n) ltb 4 three) 7 ≡ node (some 3))
    ⊎ (route score (add_node 0 (λ n. n) ltb 4 three) 7 ≡ node (some 4))
route-add_node_example =
    route-add_node score 0 (λ n. n) ltb ltb-IsStrictOrder three 4 7 3 odds-IsOrdered route-three

route-remove_node_example : route score (remove_node 0 ltb 1 three) 7 ≡ node (some 3)
route-remove_node_example =
    route-remove_node score 0 (λ n. n) ltb ltb-IsStrictOrder three 1 7 3 odds-IsOrdered
      (λ e. omega (arith, e)) route-three
