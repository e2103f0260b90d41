-- ===== src/Cluster/Partition/Winner.antt =====
-- The node that wins a workload, and what a change of the nodes does to it.
use veracity.Base.{
  ℕ, ◌≡◌, ◌<◌, ◌≤◌, refl, ap, subst, ◌⊎◌, inl, inr, true, List, [], ◌∷◌, ◌++◌, Option, none, some,
  All, arith, ltb, ltb→lt, ltb→le, Bool-cases,
}
use veracity.Optimistic.OrderedSet.{members}
use veracity.Cluster.Partition.{Partitioner, Routed, node, route_loop, route_among, route}

module _ {U : Type 0} (hash : U → U → ℕ) (w : U) where
  -- `n` has the highest score of the nodes, and no node before it has the same.
  pub record Wins (nodes : List U) (n : U) : Type 0 where
    pub before : List U
    pub after : List U
    pub split : nodes ≡ before ++ n ∷ after
    pub positive : 0 < hash n w
    pub above : All (λ x. hash x w < hash n w) before
    pub not_below : All (λ x. hash x w ≤ hash n w) after

  -- The same from a score on.
  record WinsFrom (score : ℕ) (nodes : List U) (n : U) : Type 0 where
    before' : List U
    after' : List U
    split' : nodes ≡ before' ++ n ∷ after'
    beats : score < hash n w
    above' : All (λ x. hash x w < hash n w) before'
    not_below' : All (λ x. hash x w ≤ hash n w) after'

  abbrev Ends : Option U → ℕ → List U → Option U → Type 0
  Ends winner score nodes r =
      ((r ≡ winner) × All (λ x. hash x w ≤ score) nodes)
      ⊎ ((n : U) × (r ≡ some n) × WinsFrom score nodes n)

  wins_here :
      (n : U) (nodes : List U) (score : ℕ) (winner : Option U) (r : Option U)
      → score < hash n w
      → Ends (some n) (hash n w) nodes r
      → Ends winner score (n ∷ nodes) r
  wins_here n nodes score winner r lt (inl (e, a)) = inr (
    n,
    e,
    record { before' = []; after' = nodes; split' = refl; beats = lt; above' = tt; not_below' = a },
  )
  wins_here n nodes score winner r lt (inr (m, e, h)) = inr (
    m,
    e,
    record {
      before' = n ∷ h.before';
      after' = h.after';
      split' = ap (◌∷◌ n) h.split';
      beats = omega (arith, h.beats);
      above' = (h.beats, h.above');
      not_below' = h.not_below';
    },
  )

  wins_later :
      (n : U) (nodes : List U) (score : ℕ) (winner : Option U) (r : Option U)
      → hash n w ≤ score
      → Ends winner score nodes r
      → Ends winner score (n ∷ nodes) r
  wins_later n nodes score winner r le (inl (e, a)) = inl (e, (le, a))
  wins_later n nodes score winner r le (inr (m, e, h)) = inr (
    m,
    e,
    record {
      before' = n ∷ h.before';
      after' = h.after';
      split' = ap (◌∷◌ n) h.split';
      beats = h.beats;
      above' = (omega (arith, h.beats), h.above');
      not_below' = h.not_below';
    },
  )

  route_loop-Ends :
      (winner : Option U) (score : ℕ) (nodes : List U)
      → Ends winner score nodes (route_loop hash w winner score nodes)
  unfolding route_loop
  route_loop-Ends winner score [] = inl (refl, tt)
  route_loop-Ends winner score (n ∷ nodes) = elim (Bool-cases (ltb score (hash n w))) [
    | inl t ↦ rw t (
        wins_here n nodes score winner _ (ltb→lt _ _ t) (route_loop-Ends (some n) (hash n w) nodes))
    | inr f ↦
        rw f (wins_later n nodes score winner _ (ltb→le _ _ f) (route_loop-Ends winner score nodes))
  ]

  -- What `Route` may give: a panic without nodes, nil where every score is zero, or the winner.
  abbrev pub Routes : List U → Routed U → Type 0
  Routes nodes Routed.panicked = nodes ≡ []
  Routes nodes (Routed.node none) = All (λ x. hash x w ≤ 0) nodes
  Routes nodes (Routed.node (some n)) = Wins nodes n

  Routes-Ends : (nodes : List U) (r : Option U) → Ends none 0 nodes r → Routes nodes (node r)
  Routes-Ends nodes none (inl (e, a)) = a
  Routes-Ends nodes (some n) (inl (e, a)) = cc
  Routes-Ends nodes none (inr (m, e, h)) = cc
  Routes-Ends nodes (some n) (inr (m, e, h)) =
      let q : m ≡ n = cc e in
      subst (Wins nodes) q (record {
        before = h.before';
        after = h.after';
        split = h.split';
        positive = h.beats;
        above = h.above';
        not_below = h.not_below';
      })

  route_among-Routes : (nodes : List U) → Routes nodes (route_among hash nodes w)
  unfolding route_among
  route_among-Routes [] = refl
  route_among-Routes (n ∷ nodes) = Routes-Ends (n ∷ nodes) _ (route_loop-Ends none 0 (n ∷ nodes))

  -- A loop that begins with a higher score either keeps its winner, or ends like the one with the
  -- lower score.
  pub raise :
      (a b : Option U) (s t : ℕ) (nodes : List U)
      → s ≤ t
      → (route_loop hash w b t nodes ≡ b)
        ⊎ (route_loop hash w a s nodes ≡ route_loop hash w b t nodes)
  unfolding route_loop
  raise a b s t [] le = inl refl
  raise a b s t (n ∷ nodes) le = elim (Bool-cases (ltb t (hash n w))) [
    | inl high ↦ let both : ltb s (hash n w) ≡ true = ground arith in rw (high, both) (inr refl)
    | inr low ↦ elim (Bool-cases (ltb s (hash n w))) [
      | inl mid ↦ rw (low, mid) (raise (some n) b (hash n w) t nodes (ltb→le _ _ low))
      | inr under ↦ rw (low, under) (raise a b s t nodes le)
    ]
  ]

module _ {U : Type 0} (hash : U → U → ℕ) where
  -- `Route` panics only without nodes; otherwise it gives the node whose score for the workload is
  -- the highest, the first of them in the order of the nodes where scores are equal, or nil where no
  -- score is above zero.
  pub route-Routes : (p : Partitioner U) (w : U) → Routes hash w (members p.nodes) (route hash p w)
  unfolding route
  route-Routes p w = route_among-Routes hash w (members p.nodes)
