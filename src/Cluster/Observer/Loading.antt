-- ===== src/Cluster/Observer/Loading.antt =====
-- What a poll loads and deletes (internal/cluster/registry.go, `loadNodes`).
use veracity.Base.{
  ◌≡◌, refl, ap, subst, ◌∙◌, inl, inr, Bool-cases, Option-cases, List, [], ◌∷◌, Option, none, some,
  All, Error, Outcome, ok, arith,
}
use veracity.Maps.{Keys, Map, find, Distinct, same_key}
use veracity.Keyspace.{Keyspace}
use veracity.Cluster.Registry.{Node, Registration, read_clock}
use veracity.Cluster.Observer.{RegistryObserver, load_node, load_pairs, load_nodes}
use veracity.Cluster.Observer.Verdicts.{
  Verdict, Verdict-since, Loads, LoadsPairs, cons-Loads, load_node-Loads, OwnKeys,
}

module _ {U A S N : Type 0} {Q : Keys U} (D : Keyspace Q (Registration U A) S)
    (M : Map Q (Node U A) N) where
  load_pairs-Loads :
      (l : List (U × Registration U A)) (x : Option Error) (nodes : N)
      (o : RegistryObserver U A S N)
      → Distinct Q l
      → All (λ (p : U × Registration U A). p.1.node.id ≡ p.0) l
      → LoadsPairs D M l (ok nodes, o) (load_pairs D M l x (ok nodes, o))
  unfolding load_pairs
  load_pairs-Loads [] none nodes o d a = record {
    later = omega arith;
    absent = λ id e. (refl, refl);
    present = λ id reg e. cc e;
  }
  load_pairs-Loads [] (some e) nodes o d a = tt
  load_pairs-Loads ((id, reg) ∷ rest) x nodes o (f, d) (q, a) =
      go (λ n v. load_pairs-Loads rest x n v d a)
        (load_node D M id reg nodes (record o { clock = read_clock o.clock }))
        (load_node-Loads D M id reg nodes o q)
    where
      extend :
          (n : N) (v : RegistryObserver U A S N) (p : Outcome N × RegistryObserver U A S N)
          → Loads D M ((id, reg) ∷ []) nodes o n v
          → LoadsPairs D M rest (ok n, v) p
          → LoadsPairs D M ((id, reg) ∷ rest) (ok nodes, o) p
      extend n v (Outcome.ok n', v') h k = cons-Loads D M id reg rest nodes n n' o v v' f h k
      extend n v (Outcome.err e, v') h k = tt
      extend n v (Outcome.panic, v') h k = tt

      go :
          ((n : N) (v : RegistryObserver U A S N)
            → LoadsPairs D M rest (ok n, v) (load_pairs D M rest x (ok n, v)))
          → (p : Outcome N × RegistryObserver U A S N)
          → LoadsPairs D M ((id, reg) ∷ []) (ok nodes, o) p
          → LoadsPairs D M ((id, reg) ∷ rest) (ok nodes, o) (load_pairs D M rest x p)
      go rec (Outcome.err e, v) h = tt
      go rec (Outcome.panic, v) h = tt
      go rec (Outcome.ok n, v) h = extend n v _ h (rec n v)

  range_failed :
      (l : List (U × Registration U A)) (e : Error) (p : Outcome N × RegistryObserver U A S N)
      (nodes : N)
      → (load_pairs D M l (some e) p).0 ≡ ok nodes
      → ⊥
  unfolding load_pairs
  range_failed l e (Outcome.err x, o) nodes h = cc h
  range_failed l e (Outcome.panic, o) nodes h = cc h
  range_failed [] e (Outcome.ok n, o) nodes h = cc h
  range_failed ((id, reg) ∷ rest) e (Outcome.ok n, o) nodes h = range_failed rest e _ nodes h

  -- The result of `loadNodes`.
  abbrev pub Loaded : RegistryObserver U A S N → Outcome N × RegistryObserver U A S N → Type 0
  Loaded o (Outcome.ok nodes, o') =
      ((id : U)
        → D.value o.keyspace id ≡ none
        → (M.try_get id nodes ≡ none) × (D.value o'.keyspace id ≡ none))
      × ((id : U) (reg : Registration U A)
          → D.value o.keyspace id ≡ some reg
          → Verdict D M o.clock.now o'.clock.now none id reg o.keyspace (M.try_get id nodes)
              o'.keyspace)
  Loaded o (Outcome.err e, o') = Unit
  Loaded o (Outcome.panic, o') = Unit

  found-at :
      (s : S) (l : List (U × Registration U A)) (id : U) (reg : Registration U A)
      → All (λ (p : U × Registration U A). D.value s p.0 ≡ some p.1) l
      → find Q.equal id l ≡ some reg
      → D.value s id ≡ some reg
  found-at s [] id reg a e = cc e
  found-at s ((j, g) ∷ rest) id reg (v, a) e = elim (Bool-cases (Q.equal j id)) [
    | inl t ↦
        let q : g ≡ reg = cc (t, e) in
        subst (λ i. D.value s i ≡ some reg) (same_key Q j id t) (v ∙ ap some q)
    | inr u ↦ found-at s rest id reg a (ground (arith, u, e))
  ]

  visited-OwnKeys :
      (s : S) (l : List (U × Registration U A))
      → OwnKeys D s
      → All (λ (p : U × Registration U A). D.value s p.0 ≡ some p.1) l
      → All (λ (p : U × Registration U A). p.1.node.id ≡ p.0) l
  visited-OwnKeys s [] w a = tt
  visited-OwnKeys s ((j, g) ∷ rest) w (v, a) = (w j g v, visited-OwnKeys s rest w a)

  module _ (o : RegistryObserver U A S N) where
    abbrev start_of : RegistryObserver U A S N
    start_of = record o { keyspace = (D.range o.keyspace).1 }

    not_visited :
        (id : U) → D.value o.keyspace id ≡ none → find Q.equal id (D.range o.keyspace).0.0 ≡ none
    not_visited id e = elim (Option-cases (find Q.equal id (D.range o.keyspace).0.0)) [
      | inl x ↦ x
      | inr (reg, x) ↦
          let v = found-at o.keyspace _ id reg (D.range_visits o.keyspace) x in cc (v, e)
    ]

    all-Loaded :
        (p : Outcome N × RegistryObserver U A S N)
        → ((n : N) → p.0 ≡ ok n → (D.range o.keyspace).0.1 ≡ none)
        → LoadsPairs D M (D.range o.keyspace).0.0 (ok M.empty, start_of) p
        → Loaded o p
    all-Loaded (Outcome.ok n, o') h l = (
      λ id e.
          let (a, b) = l.absent id (not_visited id e) in
          (a ∙ M.get-empty id, b ∙ D.range_keeps id o.keyspace ∙ e),
      λ id reg e.
          Verdict-since D M (l.present id reg (D.range_all o.keyspace (h n refl) id reg e))
            (omega arith) (M.get-empty id) (D.range_keeps id o.keyspace),
    )
    all-Loaded (Outcome.err e, o') h l = tt
    all-Loaded (Outcome.panic, o') h l = tt

    range_done :
        (x : Option Error) (n : N)
        → (load_pairs D M (D.range o.keyspace).0.0 x (ok M.empty, start_of)).0 ≡ ok n
        → x ≡ none
    range_done none n h = refl
    range_done (some e) n h = absurd (range_failed _ e _ n h)

    -- `loadNodes`, over a keyspace that meets its interface and whose registrations stand under the ids
    -- of their nodes. Where it succeeds, each registration has its verdict, at a time of the load: its
    -- node is loaded and it stays if it had not expired, and it is deleted and its node is not loaded if
    -- it had. No other node is loaded, and no registration appears.
    pub load_nodes-Loaded : OwnKeys D o.keyspace → Loaded o (load_nodes D M o)
    unfolding load_nodes
    load_nodes-Loaded w =
        all-Loaded _ (λ n h. range_done (D.range o.keyspace).0.1 n h)
          (load_pairs-Loads (D.range o.keyspace).0.0 (D.range o.keyspace).0.1 M.empty start_of
            (D.range_distinct o.keyspace)
            (visited-OwnKeys o.keyspace _ w (D.range_visits o.keyspace)))
