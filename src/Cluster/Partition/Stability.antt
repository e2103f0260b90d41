-- ===== src/Cluster/Partition/Stability.antt =====
-- What a change of the nodes does to the routes: as little as a change can.
use veracity.Base.{
  ℕ, ◌≡◌, ◌≢◌, refl, sym, ap, ◌∙◌, subst, ◌⊎◌, inl, inr, Bool, true, false, List, [], ◌∷◌, Option,
  none, some, arith, ltb, ltb→lt, if◌then◌else◌, Bool-cases,
}
use veracity.Optimistic.OrderedSet.{members}
use veracity.Optimistic.OrderedSet.Order.{
  IsStrictOrder, IsSorted, contains, insert, remove, not_contains, All-less,
}
use veracity.Optimistic.OrderedSet.Laws.{IsOrdered, members-add, members-delete}
use veracity.Cluster.Partition.{
  Partitioner, node, route_loop, route_among, route, add_node, remove_node,
}
use veracity.Cluster.Partition.Winner.{raise}

module _ {U : Type 0} (hash : U → U → ℕ) (w : U) where
  -- A node in front of the others wins, or changes nothing.
  loop_front :
      (m : U) (nodes : List U) (a : Option U) (s : ℕ)
      → (route_loop hash w a s (m ∷ nodes) ≡ some m)
        ⊎ (route_loop hash w a s (m ∷ nodes) ≡ route_loop hash w a s nodes)
  loop_front m nodes a s = elim (Bool-cases (ltb s (hash m w))) [
    | inl t ↦ elim (raise hash w a (some m) s (hash m w) nodes (omega (arith, ltb→lt _ _ t))) [
      | inl e ↦ inl (unfold route_loop in rw t e)
      | inr e ↦ inr (unfold route_loop in rw t (sym e))
    ]
    | inr f ↦ inr (unfold route_loop in rw f)
  ]

  -- The loop's first step, on two lists that begin with the same node.
  loop_same :
      (m n : U) (xs ys : List U) (a : Option U) (s : ℕ)
      → (let b = if ltb s (hash n w) then some n else a in
          let t = if ltb s (hash n w) then hash n w else s in
          (route_loop hash w b t xs ≡ some m)
          ⊎ (route_loop hash w b t xs ≡ route_loop hash w b t ys))
      → (route_loop hash w a s (n ∷ xs) ≡ some m)
        ⊎ (route_loop hash w a s (n ∷ xs) ≡ route_loop hash w a s (n ∷ ys))
  unfolding route_loop
  loop_same m n xs ys a s h = h

module _ {U : Type 0} (hash : U → U → ℕ) (w : U) (less : U → U → Bool) where
  loop_insert :
      (m : U) (nodes : List U) (a : Option U) (s : ℕ)
      → (route_loop hash w a s (insert less m nodes) ≡ some m)
        ⊎ (route_loop hash w a s (insert less m nodes) ≡ route_loop hash w a s nodes)
  loop_insert m [] a s = loop_front hash w m [] a s
  loop_insert m (n ∷ nodes) a s = elim (Bool-cases (less n m)) [
    | inl t ↦ rw t (
        loop_same hash w m n (insert less m nodes) nodes a s (
          loop_insert m nodes (if ltb s (hash n w) then some n else a)
            (if ltb s (hash n w) then hash n w else s)))
    | inr f ↦ rw f (loop_front hash w m (n ∷ nodes) a s)
  ]

module _ {U : Type 0} (hash : U → U → ℕ) (w : U) (less : U → U → Bool)
    (o : IsStrictOrder less) where
  removed_front :
      (m n : U) (nodes : List U)
      → IsSorted less (n ∷ nodes)
      → less n m ≡ false
      → contains less m (n ∷ nodes) ≡ true
      → n ≡ m
  removed_front m n nodes s f c = elim (Bool-cases (less m n)) [
    | inl l ↦ cc (not_contains less o m (n ∷ nodes) (l, All-less less o m n nodes l s.0), c)
    | inr g ↦ o.connex n m f g
  ]

  loop_remove :
      (m : U) (nodes : List U) (a : Option U) (s : ℕ)
      → IsSorted less nodes
      → contains less m nodes ≡ true
      → (route_loop hash w a s nodes ≡ some m)
        ⊎ (route_loop hash w a s nodes ≡ route_loop hash w a s (remove less m nodes))
  loop_remove m [] a s h c = cc
  loop_remove m (n ∷ nodes) a s h c = elim (Bool-cases (less n m)) [
    | inl t ↦
        let c' : contains less m nodes ≡ true = ground arith in
        rw t (
          loop_same hash w m n nodes (remove less m nodes) a s (
            loop_remove m nodes (if ltb s (hash n w) then some n else a)
              (if ltb s (hash n w) then hash n w else s) h.1 c'))
    | inr f ↦ rw f (
        subst
          (λ x.
            (route_loop hash w a s (x ∷ nodes) ≡ some m)
            ⊎ (route_loop hash w a s (x ∷ nodes) ≡ route_loop hash w a s nodes))
          (sym (removed_front m n nodes h f c)) (loop_front hash w m nodes a s))
  ]

  -- The route without the panic.
  abbrev winner_of : List U → Option U
  winner_of nodes = route_loop hash w none 0 nodes

  of_some :
      (nodes : List U) (n : U) → winner_of nodes ≡ some n → route_among hash nodes w ≡ node (some n)
  of_some [] n e = unfold route_loop in cc
  of_some (x ∷ nodes) n e = unfold route_among in ap node e

  to_some :
      (nodes : List U) (n : U) → route_among hash nodes w ≡ node (some n) → winner_of nodes ≡ some n
  to_some [] n e = unfold route_among in cc
  to_some (x ∷ nodes) n e = unfold route_among in cc

  abbrev Same : Option U → List U → List U → Type 0
  Same m xs ys = (winner_of xs ≡ m) ⊎ (winner_of xs ≡ winner_of ys)

  members_added :
      (id : U) (nodes : List U) (b : Bool)
      → Same (some id) (if b then nodes else insert less id nodes) nodes
  members_added id nodes true = inr refl
  members_added id nodes false = loop_insert hash w less id nodes none 0

  members_removed :
      (id : U) (nodes : List U) (b : Bool)
      → IsSorted less nodes
      → contains less id nodes ≡ b
      → Same (some id) nodes (if b then remove less id nodes else nodes)
  members_removed id nodes false s c = inr refl
  members_removed id nodes true s c = loop_remove id nodes none 0 s c

module _ {U : Type 0} (hash : U → U → ℕ) (zero_value : U) (grow : ℕ → ℕ) (less : U → U → Bool)
    (o : IsStrictOrder less) where
  -- When a node is added, a workload stays with the node that it had, or goes to the new one.
  pub route-add_node :
      (p : Partitioner U) (id w n : U)
      → IsOrdered less p.nodes
      → route hash p w ≡ node (some n)
      → (route hash (add_node zero_value grow less id p) w ≡ node (some n))
        ⊎ (route hash (add_node zero_value grow less id p) w ≡ node (some id))
  unfolding route add_node
  route-add_node p id w n h e =
      elim (subst (λ l. Same hash w less o (some id) l (members p.nodes))
        (sym (members-add zero_value grow less o id p.nodes h))
        (members_added hash w less o id (members p.nodes) (contains less id (members p.nodes)))) [
          | inl new ↦ inr (of_some hash w less o _ id new)
          | inr old ↦
              inl (of_some hash w less o _ n (old ∙ to_some hash w less o (members p.nodes) n e))
        ]

  -- When a node is removed, a workload that another node had stays with that node.
  pub route-remove_node :
      (p : Partitioner U) (id w n : U)
      → IsOrdered less p.nodes
      → n ≢ id
      → route hash p w ≡ node (some n)
      → route hash (remove_node zero_value less id p) w ≡ node (some n)
  unfolding route remove_node
  route-remove_node p id w n h ne e =
      elim (members_removed hash w less o id (members p.nodes) (contains less id (members p.nodes))
        h.sorted refl) [
          | inl gone ↦ absurd (ne (cc (gone, to_some hash w less o (members p.nodes) n e)))
          | inr kept ↦ of_some hash w less o _ n (
              ap (winner_of hash w less o) (members-delete zero_value grow less o id p.nodes h)
              ∙ sym kept
              ∙ to_some hash w less o (members p.nodes) n e)
        ]
