-- ===== src/Cluster/Observer/Polling.antt =====
-- What a poll leaves of the observer (internal/cluster/registry.go, `loadNodes`).
use veracity.Base.{
  ◌≡◌, refl, ◌∙◌, inl, inr, Bool-cases, List, [], ◌∷◌, Option, none, some, Error, Outcome, ok,
  panic, ltb,
}
use veracity.Maps.{Keys, Map}
use veracity.Keyspace.{Keyspace}
use veracity.Cluster.Registry.{Node, Registration, read_clock}
use veracity.Cluster.Observer.{RegistryObserver, load_node, load_pairs, load_nodes, deleted}
use veracity.Cluster.Observer.Membership.{Keyed, Keyed-set}

module _ {U A S N : Type 0} {Q : Keys U} (D : Keyspace Q (Registration U A) S)
    (M : Map Q (Node U A) N) where
  -- Each node that a load gives stands under its own id, whatever the keyspace has.
  abbrev pub KeyedResult : Outcome N × RegistryObserver U A S N → Type 0
  KeyedResult (Outcome.ok nodes, o) = Keyed M nodes
  KeyedResult (Outcome.err e, o) = Unit
  KeyedResult (Outcome.panic, o) = ⊥

  deleted-Keyed :
      (nodes : N) (o : RegistryObserver U A S N) (p : Outcome (Unit {0}) × S)
      → (p.0 ≡ panic → ⊥)
      → Keyed M nodes
      → KeyedResult (deleted nodes o p)
  unfolding deleted
  deleted-Keyed nodes o (Outcome.ok u, s) h k = k
  deleted-Keyed nodes o (Outcome.err e, s) h k = tt
  deleted-Keyed nodes o (Outcome.panic, s) h k = h refl

  load_node-Keyed :
      (id : U) (reg : Registration U A) (nodes : N) (o : RegistryObserver U A S N)
      → Keyed M nodes
      → KeyedResult (load_node D M id reg nodes o)
  unfolding load_node
  load_node-Keyed id reg nodes o k = elim (Bool-cases (ltb o.clock.now reg.expires_at)) [
    | inl t ↦ rw t (Keyed-set M reg.node nodes k)
    | inr f ↦ rw f (deleted-Keyed nodes o _ (D.set_returns id none o.keyspace) k)
  ]

  load_pairs-Keyed :
      (l : List (U × Registration U A)) (x : Option Error)
      (p : Outcome N × RegistryObserver U A S N)
      → KeyedResult p
      → KeyedResult (load_pairs D M l x p)
  unfolding load_pairs
  load_pairs-Keyed l x (Outcome.err e, o) k = tt
  load_pairs-Keyed l x (Outcome.panic, o) k = absurd k
  load_pairs-Keyed [] none (Outcome.ok nodes, o) k = k
  load_pairs-Keyed [] (some e) (Outcome.ok nodes, o) k = tt
  load_pairs-Keyed ((id, reg) ∷ rest) x (Outcome.ok nodes, o) k =
      load_pairs-Keyed rest x _
        (load_node-Keyed id reg nodes (record o { clock = read_clock o.clock }) k)

  pub load_nodes-Keyed : (o : RegistryObserver U A S N) → KeyedResult (load_nodes D M o)
  unfolding load_nodes
  load_nodes-Keyed o =
      load_pairs-Keyed (D.range o.keyspace).0.0 (D.range o.keyspace).0.1
        (ok M.empty, record o { keyspace = (D.range o.keyspace).1 })
        (λ id n e. let q = M.get-empty id in cc (e, q))

  -- Only the keyspace and the clock differ.
  pub record Alike (o o' : RegistryObserver U A S N) : Type 0 where
    pub nodes : o'.nodes ≡ o.nodes
    pub events : o'.events ≡ o.events
    pub idle_inputs : o'.idle_inputs ≡ o.idle_inputs
    pub publish_inputs : o'.publish_inputs ≡ o.publish_inputs

  Alike-trans : {a b c : RegistryObserver U A S N} → Alike a b → Alike b c → Alike a c
  Alike-trans p q = record {
    nodes = q.nodes ∙ p.nodes;
    events = q.events ∙ p.events;
    idle_inputs = q.idle_inputs ∙ p.idle_inputs;
    publish_inputs = q.publish_inputs ∙ p.publish_inputs;
  }

  deleted-Alike :
      (nodes : N) (o : RegistryObserver U A S N) (p : Outcome (Unit {0}) × S)
      → Alike o (deleted nodes o p).1
  unfolding deleted
  deleted-Alike nodes o (Outcome.ok u, s) = record {
    nodes = refl;
    events = refl;
    idle_inputs = refl;
    publish_inputs = refl;
  }
  deleted-Alike nodes o (Outcome.err e, s) = record {
    nodes = refl;
    events = refl;
    idle_inputs = refl;
    publish_inputs = refl;
  }
  deleted-Alike nodes o (Outcome.panic, s) = record {
    nodes = refl;
    events = refl;
    idle_inputs = refl;
    publish_inputs = refl;
  }

  load_node-Alike :
      (id : U) (reg : Registration U A) (nodes : N) (o : RegistryObserver U A S N)
      → Alike o (load_node D M id reg nodes o).1
  unfolding load_node
  load_node-Alike id reg nodes o = elim (Bool-cases (ltb o.clock.now reg.expires_at)) [
    | inl t ↦
        rw t (record { nodes = refl; events = refl; idle_inputs = refl; publish_inputs = refl })
    | inr f ↦ rw f (deleted-Alike nodes o (D.set id none o.keyspace))
  ]

  load_pairs-Alike :
      (l : List (U × Registration U A)) (x : Option Error)
      (p : Outcome N × RegistryObserver U A S N)
      → Alike p.1 (load_pairs D M l x p).1
  unfolding load_pairs
  load_pairs-Alike l x (Outcome.err e, o) = record {
    nodes = refl;
    events = refl;
    idle_inputs = refl;
    publish_inputs = refl;
  }
  load_pairs-Alike l x (Outcome.panic, o) = record {
    nodes = refl;
    events = refl;
    idle_inputs = refl;
    publish_inputs = refl;
  }
  load_pairs-Alike [] none (Outcome.ok nodes, o) = record {
    nodes = refl;
    events = refl;
    idle_inputs = refl;
    publish_inputs = refl;
  }
  load_pairs-Alike [] (some e) (Outcome.ok nodes, o) = record {
    nodes = refl;
    events = refl;
    idle_inputs = refl;
    publish_inputs = refl;
  }
  load_pairs-Alike ((id, reg) ∷ rest) x (Outcome.ok nodes, o) =
      let a = load_node-Alike id reg nodes (record o { clock = read_clock o.clock }) in
      Alike-trans
        (record {
          nodes = a.nodes;
          events = a.events;
          idle_inputs = a.idle_inputs;
          publish_inputs = a.publish_inputs;
        })
        (load_pairs-Alike rest x
          (load_node D M id reg nodes (record o { clock = read_clock o.clock })))

  pub load_nodes-Alike : (o : RegistryObserver U A S N) → Alike o (load_nodes D M o).1
  unfolding load_nodes
  load_nodes-Alike o =
      let a =
        load_pairs-Alike (D.range o.keyspace).0.0 (D.range o.keyspace).0.1
          (ok M.empty, record o { keyspace = (D.range o.keyspace).1 }) in
      record {
        nodes = a.nodes;
        events = a.events;
        idle_inputs = a.idle_inputs;
        publish_inputs = a.publish_inputs;
      }
