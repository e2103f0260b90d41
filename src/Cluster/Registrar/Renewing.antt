-- ===== src/Cluster/Registrar/Renewing.antt =====
-- What a renewal does on each branch (internal/cluster/registry.go, `renew`).
use veracity.Base.{
  ◌<◌, ◌≤◌, ◌≡◌, refl, sym, ◌∙◌, ◌⊎◌, inl, inr, Option, none, some, Outcome, ok, ltb, arith,
  Bool-cases,
}
use veracity.Maps.{Keys}
use veracity.Keyspace.{Keyspace}
use veracity.Cluster.Registry.{Registration, read_clock}
use veracity.Cluster.Registrar.{
  Registrar, save_registration, delete_registration, registration_at, expired, renew_found, renew,
}
use veracity.Cluster.Registrar.Storing.{
  read_clock_le, at, OthersKeep, Continues, Stored, store-Stored,
}

module _ {U A S : Type 0} {Q : Keys U} (D : Keyspace Q (Registration U A) S) where
  -- The registration was there and had not expired when it was read, and the new one is stamped with a
  -- later reading of the clock.
  pub record Extended (r r' : Registrar U A S) : Type 0 where
    pub old : Registration U A
    pub found : at D r r.node.id ≡ some old
    pub unexpired : (read_clock r.clock).now ≤ old.expires_at
    pub past : (read_clock (read_clock r.clock)).now ≤ r'.clock.now
    pub extended :
        at D r' r.node.id ≡ some (registration_at (read_clock (read_clock r.clock)).now r)

  abbrev pub Lapsed : Registrar U A S → Type 0
  Lapsed r =
      (reg : Registration U A)
      → at D r r.node.id ≡ some reg
      → reg.expires_at < (read_clock r.clock).now

  -- The result of a renewal.
  abbrev pub Renewed : Registrar U A S → Outcome (Unit {0}) × Registrar U A S → Type 0
  Renewed r (Outcome.ok u, r') =
      Extended r r' × OthersKeep D r.node.id r.keyspace r'.keyspace × Continues D r r'
  Renewed r (Outcome.err e, r') =
      ((at D r' r.node.id ≡ at D r r.node.id)
        ⊎ ((at D r' r.node.id ≡ none) × Lapsed r)
        ⊎ Extended r r')
      × OthersKeep D r.node.id r.keyspace r'.keyspace
      × Continues D r r'
  Renewed r (Outcome.panic, r') = Unit

  -- `r` has read the registration `old`: its keyspace is now `s`.
  module _ (r : Registrar U A S) (s : S) (same : (j : U) → D.value s j ≡ at D r j) where
    abbrev read : Registrar U A S
    read = record r { keyspace = s; clock = read_clock r.clock }

    deleted-Renewed :
        (p : Outcome (Unit {0}) × Registrar U A S)
        → Lapsed r
        → Stored D none read p
        → Renewed r (expired p)
    unfolding expired
    deleted-Renewed (Outcome.ok u, r') l (v, o, c) = (
      inr (inl (v, l)),
      λ j f. o j f ∙ same j,
      record {
        same_node = c.same_node;
        same_interval = c.same_interval;
        later = omega (arith, c.later, read_clock_le r.clock);
      },
    )
    deleted-Renewed (Outcome.err e, r') l (v, o, c) = (
      elim v [ inl k ↦ inl (k ∙ same r.node.id) | inr n ↦ inr (inl (n, l)) ],
      λ j f. o j f ∙ same j,
      record {
        same_node = c.same_node;
        same_interval = c.same_interval;
        later = omega (arith, c.later, read_clock_le r.clock);
      },
    )
    deleted-Renewed (Outcome.panic, r') l t = tt

    saved-Renewed :
        (old : Registration U A)
        → at D r r.node.id ≡ some old
        → (read_clock r.clock).now ≤ old.expires_at
        → (p : Outcome (Unit {0}) × Registrar U A S)
        → Stored D
            (some (registration_at (read_clock (read_clock r.clock)).now r))
            (record read { clock = read_clock (read_clock r.clock) })
            p
        → Renewed r p
    saved-Renewed old q le (Outcome.ok u, r') (v, o, c) = (
      record { old = old; found = q; unexpired = le; past = c.later; extended = v },
      λ j f. o j f ∙ same j,
      record {
        same_node = c.same_node;
        same_interval = c.same_interval;
        later = omega (arith, c.later, read_clock_le r.clock, read_clock_le (read_clock r.clock));
      },
    )
    saved-Renewed old q le (Outcome.err e, r') (v, o, c) = (
      elim v [
        | inl k ↦ inl (k ∙ same r.node.id)
        | inr n ↦
            inr
              (inr (record { old = old; found = q; unexpired = le; past = c.later; extended = n }))
      ],
      λ j f. o j f ∙ same j,
      record {
        same_node = c.same_node;
        same_interval = c.same_interval;
        later = omega (arith, c.later, read_clock_le r.clock, read_clock_le (read_clock r.clock));
      },
    )
    saved-Renewed old q le (Outcome.panic, r') t = tt

  renew_found-Renewed :
      (r : Registrar U A S) (p : Outcome (Option (Registration U A)) × S)
      → ((v : Option (Registration U A)) → p.0 ≡ ok v → v ≡ at D r r.node.id)
      → ((j : U) → D.value p.1 j ≡ at D r j)
      → Renewed r (renew_found D r p)
  unfolding renew_found
  renew_found-Renewed r (Outcome.err e, s) h same = (
    inl (same r.node.id),
    λ j f. same j,
    record { same_node = refl; same_interval = refl; later = omega arith },
  )
  renew_found-Renewed r (Outcome.panic, s) h same = tt
  renew_found-Renewed r (Outcome.ok none, s) h same = (
    inl (same r.node.id),
    λ j f. same j,
    record { same_node = refl; same_interval = refl; later = omega arith },
  )
  renew_found-Renewed r (Outcome.ok (some reg), s) h same =
      elim (Bool-cases (ltb reg.expires_at (read_clock r.clock).now)) [
        | inl t ↦ rw t (
            deleted-Renewed r s same _
              (λ x e.
                let q : some reg ≡ some x = h (some reg) refl ∙ e in
                let q' : reg ≡ x = cc q in ground (arith, t, q'))
              (unfold delete_registration in store-Stored D none (read r s same)))
        | inr f ↦ rw f (
            saved-Renewed r s same reg (sym (h (some reg) refl)) (ground (arith, f)) _ (
              unfold save_registration in
              store-Stored D _
                (record (read r s same) { clock = read_clock (read_clock r.clock) })))
      ]

  -- `renew`, over a store that meets its interface. Where it succeeds, the node was registered and the
  -- registration had not expired when the clock was read, and it is now replaced by one that is stamped
  -- with a later reading. Where it fails, the registration is as it was, or it had expired and is gone,
  -- or the store failed after it was extended. The registrations of the other nodes, the node and the
  -- interval are as before.
  pub renew-Renewed : (r : Registrar U A S) → Renewed r (renew D r)
  unfolding renew
  renew-Renewed r =
      renew_found-Renewed r (D.get r.node.id r.keyspace) (λ v e. D.get_ok r.node.id r.keyspace v e)
        (λ j. D.get_keeps r.node.id j r.keyspace)
