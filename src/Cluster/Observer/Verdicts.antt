-- ===== src/Cluster/Observer/Verdicts.antt =====
-- What a poll makes of one registration (internal/cluster/registry.go, `loadNodes`).
use veracity.Base.{
  ℕ, ◌<◌, ◌≤◌, ◌≡◌, refl, subst, ◌∙◌, inl, inr, false, Bool-cases, List, [], ◌∷◌, Option, none,
  some, Outcome, ok, if◌then◌else◌, ltb, arith,
}
use veracity.Maps.{Keys, Map, find, equal_self, same_key}
use veracity.Keyspace.{Keyspace}
use veracity.Cluster.Registry.{Node, Registration, read_clock}
use veracity.Cluster.Registrar.Storing.{read_clock_le}
use veracity.Cluster.Observer.{RegistryObserver, load_node, deleted}

module _ {U A S : Type 0} {Q : Keys U} (D : Keyspace Q (Registration U A) S) where
  -- Each registration stands under the id of its node, as the registrar saves it.
  abbrev pub OwnKeys : S → Type 0
  OwnKeys s = (id : U) (reg : Registration U A) → D.value s id ≡ some reg → reg.node.id ≡ id

module _ {U A S N : Type 0} {Q : Keys U} (D : Keyspace Q (Registration U A) S)
    (M : Map Q (Node U A) N) where
  -- What becomes of a registration: at a time between `t` and `t'` it had not expired, and the node is
  -- loaded; or it had, and the registration is deleted.
  pub data Verdict (t t' : ℕ) (before : Option (Node U A)) (id : U) (reg : Registration U A) (s : S)
      (loaded : Option (Node U A)) (s' : S) : Type 0 where
    live :
        (now : ℕ)
        → t ≤ now
        → now ≤ t'
        → now < reg.expires_at
        → loaded ≡ some reg.node
        → D.value s' id ≡ D.value s id
        → Verdict t t' before id reg s loaded s'
    lapsed :
        (now : ℕ)
        → t ≤ now
        → now ≤ t'
        → reg.expires_at ≤ now
        → loaded ≡ before
        → D.value s' id ≡ none
        → Verdict t t' before id reg s loaded s'

  -- The result of a load, from the pairs that `Range` visits.
  pub record Loads (pairs : List (U × Registration U A)) (nodes : N) (o : RegistryObserver U A S N)
      (nodes' : N) (o' : RegistryObserver U A S N) : Type 0 where
    pub later : o.clock.now ≤ o'.clock.now
    pub absent :
        (id : U)
        → find Q.equal id pairs ≡ none
        → (M.try_get id nodes' ≡ M.try_get id nodes)
          × (D.value o'.keyspace id ≡ D.value o.keyspace id)
    pub present :
        (id : U) (reg : Registration U A)
        → find Q.equal id pairs ≡ some reg
        → Verdict o.clock.now o'.clock.now
            (M.try_get id nodes)
            id
            reg
            o.keyspace
            (M.try_get id nodes')
            o'.keyspace

  -- A load leaves the rest of the observer, and only deletes registrations.
  abbrev pub LoadsPairs :
      List (U × Registration U A)
      → Outcome N × RegistryObserver U A S N
      → Outcome N × RegistryObserver U A S N
      → Type 0
  LoadsPairs pairs (Outcome.ok nodes, o) (Outcome.ok nodes', o') = Loads pairs nodes o nodes' o'
  LoadsPairs pairs p q = Unit

  Verdict-then :
      {t t' t'' : ℕ} {before l l' : Option (Node U A)} {id : U} {reg : Registration U A}
      {s s' s'' : S}
      → Verdict t t' before id reg s l s'
      → t' ≤ t''
      → l' ≡ l
      → D.value s'' id ≡ D.value s' id
      → Verdict t t'' before id reg s l' s''
  Verdict-then (live now a b c e f) le q v = live now a (omega (arith, b, le)) c (q ∙ e) (v ∙ f)
  Verdict-then (lapsed now a b c e f) le q v = lapsed now a (omega (arith, b, le)) c (q ∙ e) (v ∙ f)

  pub Verdict-since :
      {t t' t'' : ℕ} {before before' l : Option (Node U A)} {id : U} {reg : Registration U A}
      {s s' s'' : S}
      → Verdict t' t'' before' id reg s' l s''
      → t ≤ t'
      → before' ≡ before
      → D.value s' id ≡ D.value s id
      → Verdict t t'' before id reg s l s''
  Verdict-since (live now a b c e f) le q v = live now (omega (arith, a, le)) b c e (f ∙ v)
  Verdict-since (lapsed now a b c e f) le q v = lapsed now (omega (arith, a, le)) b c (e ∙ q) f

  pub cons-Loads :
      (id : U) (reg : Registration U A) (rest : List (U × Registration U A)) (n n' n'' : N)
      (o o' o'' : RegistryObserver U A S N)
      → find Q.equal id rest ≡ none
      → Loads ((id, reg) ∷ []) n o n' o'
      → Loads rest n' o' n'' o''
      → Loads ((id, reg) ∷ rest) n o n'' o''
  cons-Loads id reg rest n n' n'' o o' o'' f a b = record {
    later = omega (arith, a.later, b.later);
    absent = λ j e. elim (Bool-cases (Q.equal id j)) [
      | inl t ↦ cc (t, e)
      | inr u ↦
          let (x, y) = a.absent j (rw u refl) in
          let (z, w) = b.absent j (ground (arith, u, e)) in (z ∙ x, w ∙ y)
    ];
    present = λ j g e. elim (Bool-cases (Q.equal id j)) [
      | inl t ↦
          let q : reg ≡ g = cc (t, e) in
          let (z, w) = b.absent j (subst (λ i. find Q.equal i rest ≡ none) (same_key Q id j t) f) in
          Verdict-then (a.present j g (rw (t, q) refl)) b.later z w
      | inr u ↦
          let (x, y) = a.absent j (rw u refl) in
          Verdict-since (b.present j g (ground (arith, u, e))) a.later x y
    ];
  }

  one-Loads :
      (id : U) (reg : Registration U A) (n n' : N) (o o' : RegistryObserver U A S N)
      → o.clock.now ≤ o'.clock.now
      → ((j : U)
          → Q.equal id j ≡ false
          → (M.try_get j n' ≡ M.try_get j n) × (D.value o'.keyspace j ≡ D.value o.keyspace j))
      → Verdict o.clock.now o'.clock.now
          (M.try_get id n)
          id
          reg
          o.keyspace
          (M.try_get id n')
          o'.keyspace
      → Loads ((id, reg) ∷ []) n o n' o'
  one-Loads id reg n n' o o' le others v = record {
    later = le;
    absent = λ j e. elim (Bool-cases (Q.equal id j)) [ inl t ↦ cc (t, e) | inr u ↦ others j u ];
    present = λ j g e. elim (Bool-cases (Q.equal id j)) [
      | inl t ↦
          let q : reg ≡ g = cc (t, e) in
          subst
            (λ i.
              Verdict o.clock.now o'.clock.now (M.try_get i n) i g o.keyspace (M.try_get i n')
                o'.keyspace)
            (same_key Q id j t)
            (subst
              (λ h.
                Verdict o.clock.now o'.clock.now (M.try_get id n) id h o.keyspace (M.try_get id n')
                  o'.keyspace)
              q v)
      | inr u ↦ cc (u, e)
    ];
  }

  deleted-Loads :
      (id : U) (reg : Registration U A) (nodes : N) (o₀ o : RegistryObserver U A S N)
      → o₀.clock.now ≤ o.clock.now
      → o.keyspace ≡ o₀.keyspace
      → reg.expires_at ≤ o.clock.now
      → (p : Outcome (Unit {0}) × S)
      → ((j : U)
          → p.0 ≡ ok tt
          → D.value p.1 j ≡ (if Q.equal id j then none else D.value o.keyspace j))
      → LoadsPairs ((id, reg) ∷ []) (ok nodes, o₀) (deleted nodes o p)
  unfolding deleted
  deleted-Loads id reg nodes o₀ o le same x (Outcome.ok u, s) h =
      one-Loads id reg nodes nodes o₀ (record o { keyspace = s }) le
        (λ j f. (refl, h j refl ∙ rw (f, same) refl))
        (lapsed o.clock.now le (omega arith) x refl (h id refl ∙ rw (equal_self Q id) refl))
  deleted-Loads id reg nodes o₀ o le same x (Outcome.err e, s) h = tt
  deleted-Loads id reg nodes o₀ o le same x (Outcome.panic, s) h = tt

  pub load_node-Loads :
      (id : U) (reg : Registration U A) (nodes : N) (o : RegistryObserver U A S N)
      → reg.node.id ≡ id
      → LoadsPairs
          ((id, reg) ∷ [])
          (ok nodes, o)
          (load_node D M id reg nodes (record o { clock = read_clock o.clock }))
  unfolding load_node
  load_node-Loads id reg nodes o q =
      elim (Bool-cases (ltb (read_clock o.clock).now reg.expires_at)) [
        | inl t ↦ rw t (
            one-Loads id reg nodes _ o _ (read_clock_le o.clock)
              (λ j f. (M.get-set j reg.node.id reg.node nodes ∙ rw (q, f) refl, refl))
              (live (read_clock o.clock).now (read_clock_le o.clock) (omega arith)
                (ground (arith, t))
                (M.get-set id reg.node.id reg.node nodes ∙ rw (q, equal_self Q id) refl) refl))
        | inr f ↦ rw f (
            deleted-Loads id reg nodes o (record o { clock = read_clock o.clock })
              (read_clock_le o.clock) refl (ground (arith, f)) _
              (λ j e. D.set_ok id j none o.keyspace e))
      ]
