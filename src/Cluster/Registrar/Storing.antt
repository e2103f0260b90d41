-- ===== src/Cluster/Registrar/Storing.antt =====
-- What a write of the registrar leaves in the registry (internal/cluster/registry.go,
-- `saveRegistration` and `deleteRegistration`).
use veracity.Base.{
  ℕ, ◌≤◌, ◌≡◌, refl, ◌⊎◌, inl, inr, false, Option, Error, Outcome, ok, err, if◌then◌else◌, arith,
  ◌∙◌, List, [], ◌∷◌,
}
use veracity.Maps.{Keys, equal_self}
use veracity.Keyspace.{Keyspace}
use veracity.Cluster.Registry.{Registration, Clock, passed, read_clock}
use veracity.Cluster.Registrar.{Registrar, store}

pub read_clock_le : (c : Clock) → c.now ≤ (read_clock c).now
unfolding read_clock
read_clock_le c = go c.now c.passing
  where
    go : (t : ℕ) (l : List ℕ) → t ≤ (passed t l).now
    go t [] = omega arith
    go t (d ∷ rest) = omega arith

module _ {U A S : Type 0} {Q : Keys U} (D : Keyspace Q (Registration U A) S) where
  abbrev pub at : Registrar U A S → U → Option (Registration U A)
  at r j = D.value r.keyspace j

  -- No registration but that of the node `id` differs.
  abbrev pub OthersKeep : U → S → S → Type 0
  OthersKeep id s s' = (j : U) → Q.equal id j ≡ false → D.value s' j ≡ D.value s j

  -- The node and the interval are the same, and the clock has not gone back.
  pub record Continues (r r' : Registrar U A S) : Type 0 where
    pub same_node : r'.node ≡ r.node
    pub same_interval : r'.interval ≡ r.interval
    pub later : r.clock.now ≤ r'.clock.now

  -- The result of a write of `v`.
  abbrev pub Stored :
      Option (Registration U A) → Registrar U A S → Outcome (Unit {0}) × Registrar U A S → Type 0
  Stored v r (Outcome.ok u, r') =
      (at r' r.node.id ≡ v) × OthersKeep r.node.id r.keyspace r'.keyspace × Continues r r'
  Stored v r (Outcome.err e, r') =
      ((at r' r.node.id ≡ at r r.node.id) ⊎ (at r' r.node.id ≡ v))
      × OthersKeep r.node.id r.keyspace r'.keyspace
      × Continues r r'
  Stored v r (Outcome.panic, r') = Unit

  set-Stored :
      (v : Option (Registration U A)) (r : Registrar U A S) (p : Outcome (Unit {0}) × S)
      → ((j : U) → p.0 ≡ ok tt → D.value p.1 j ≡ (if Q.equal r.node.id j then v else at r j))
      → ((e : Error)
          → p.0 ≡ err e
          → ((j : U) → D.value p.1 j ≡ at r j)
            ⊎ ((j : U) → D.value p.1 j ≡ (if Q.equal r.node.id j then v else at r j)))
      → Stored v r (p.0, record r { keyspace = p.1 })
  set-Stored v r (Outcome.ok u, s) h k = (
    h r.node.id refl ∙ rw (equal_self Q r.node.id) refl,
    λ j f. h j refl ∙ rw f refl,
    record { same_node = refl; same_interval = refl; later = omega arith },
  )
  set-Stored v r (Outcome.err e, s) h k = elim (k e refl) [
    | inl g ↦ (
      inl (g r.node.id),
      λ j f. g j,
      record { same_node = refl; same_interval = refl; later = omega arith },
    )
    | inr g ↦ (
      inr (g r.node.id ∙ rw (equal_self Q r.node.id) refl),
      λ j f. g j ∙ rw f refl,
      record { same_node = refl; same_interval = refl; later = omega arith },
    )
  ]
  set-Stored v r (Outcome.panic, s) h k = tt

  pub store-Stored :
      (v : Option (Registration U A)) (r : Registrar U A S) → Stored v r (store D v r)
  unfolding store
  store-Stored v r =
      set-Stored v r (D.set r.node.id v r.keyspace) (λ j e. D.set_ok r.node.id j v r.keyspace e)
        (λ x e. D.set_err r.node.id v r.keyspace x e)
