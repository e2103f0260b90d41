-- ===== src/Cluster/Registrar/Staying.antt =====
-- A node stays registered while the registrar runs (internal/cluster/registry.go).
use veracity.Base.{
  ℕ, zero, suc, ◌+◌, ◌*◌, ◌<◌, ◌≤◌, ◌≡◌, refl, sym, ap, subst, ◌∙◌, List, [], ◌∷◌, Option, none,
  some, Outcome, ok, arith, pos, ltb, inl, inr, Bool-cases, All,
}
use veracity.Fsm.{Exit}
use veracity.Maps.{Keys, equal_self}
use veracity.Keyspace.{Keyspace}
use veracity.Cluster.Registry.{
  Registration, Clock, passed, read_clock, interval_or, double_duration, add_duration,
}
use veracity.Cluster.Registrar.{
  Input, Registrar, store, registration_at, save_registration, delete_registration, return_with,
  register, deregister, renew_found, renew, serve, run,
}
use veracity.Cluster.Registrar.Storing.{at}
use veracity.Cluster.Registrar.Expiry.{expiry_exact}

-- No reading of the clock comes more than `bound` after the last.
abbrev pub Punctual : ℕ → Clock → Type 0
Punctual bound c = All (λ d. d ≤ bound) c.passing

abbrev pub NotCanceled : Input → Type 0
NotCanceled (Input.canceled e) = ⊥
NotCanceled Input.shutdown_signaled = Unit
NotCanceled Input.ticked = Unit

module _ {U A S : Type 0} {Q : Keys U} (D : Keyspace Q (Registration U A) S) where
  -- No call of the store fails.
  pub record Reliable : Type 0 where
    pub sets : (k : U) (v : Option (Registration U A)) (s : S) → (D.set k v s).0 ≡ ok tt
    pub gets : (k : U) (s : S) → (D.get k s).0 ≡ ok (D.value s k)

  -- The node `id` is gone after a shutdown, and has an unexpired registration while `Run` waits.
  abbrev pub Stays : U → Exit (Registrar U A S) → Type 0
  Stays id (Exit.returned none w) = at D w id ≡ none
  Stays id (Exit.returned (some e) w) = ⊥
  Stays id (Exit.blocked w) =
      (reg : Registration U A) × (at D w id ≡ some reg) × (w.clock.now < reg.expires_at)
  Stays id (Exit.panicked w) = ⊥
  Stays id (Exit.running w) = ⊥

  module _ (rel : Reliable) (id : U) (n : ℕ) (positive : 0 < n)
      (small : n < 4611686018427387904) where
    -- The registration was stamped with the last reading of the clock.
    record Fresh (w : Registrar U A S) : Type 0 where
      pub node : w.node.id ≡ id
      pub interval : w.interval ≡ n
      pub punctual : Punctual (n * 2) w.clock
      pub registration : Registration U A
      pub stored : at D w id ≡ some registration
      pub expires : registration.expires_at ≡ w.clock.now + n * 2

    abbrev FreshOk : Outcome (Unit {0}) × Registrar U A S → Type 0
    FreshOk (Outcome.ok u, w) = Fresh w
    FreshOk (Outcome.err e, w) = ⊥
    FreshOk (Outcome.panic, w) = ⊥

    read_clock-Punctual :
        (c : Clock)
        → Punctual (n * 2) c
        → Punctual (n * 2) (read_clock c) × ((read_clock c).now ≤ c.now + n * 2)
    unfolding read_clock
    read_clock-Punctual c h = go c.now c.passing h
      where
        go :
            (t : ℕ) (l : List ℕ)
            → All (λ d. d ≤ n * 2) l
            → All (λ d. d ≤ n * 2) (passed t l).passing × ((passed t l).now ≤ t + n * 2)
        go t [] a = (tt, omega arith)
        go t (d ∷ rest) (a, b) = (b, omega arith)

    store_ok :
        (v : Option (Registration U A)) (w : Registrar U A S)
        → store D v w ≡ (ok tt, record w { keyspace = (D.set w.node.id v w.keyspace).1 })
    unfolding store
    store_ok v w =
        ap (λ x. (x, record w { keyspace = (D.set w.node.id v w.keyspace).1 }))
          (rel.sets w.node.id v w.keyspace)

    stored_value : (v : Option (Registration U A)) (k : U) (s : S) → D.value (D.set k v s).1 k ≡ v
    stored_value v k s = D.set_ok k k v s (rel.sets k v s) ∙ rw (equal_self Q k) refl

    save-FreshOk :
        (w : Registrar U A S)
        → w.node.id ≡ id
        → w.interval ≡ n
        → Punctual (n * 2) w.clock
        → FreshOk (save_registration D w)
    unfolding save_registration
    save-FreshOk w e i c =
        let c' = read_clock w.clock in
        let reg = registration_at c'.now w in
        subst FreshOk (sym (store_ok (some reg) (record w { clock = c' }))) (record {
          node = e;
          interval = i;
          punctual = (read_clock-Punctual w.clock c).0;
          registration = reg;
          stored = ap (D.value _) (sym e) ∙ stored_value (some reg) w.node.id w.keyspace;
          expires =
              unfold registration_at in
              ap (λ m. add_duration c'.now (double_duration m)) i ∙ expiry_exact c'.now n small;
        })

    renew_found-FreshOk :
        (w : Registrar U A S) (p : Outcome (Option (Registration U A)) × S) (g : Registration U A)
        → p.0 ≡ ok (some g)
        → w.node.id ≡ id
        → w.interval ≡ n
        → Punctual (n * 2) w.clock
        → g.expires_at ≡ w.clock.now + n * 2
        → FreshOk (renew_found D w p)
    unfolding renew_found
    renew_found-FreshOk w (Outcome.ok (some reg), s) g q e i c x =
        let (c', le) = read_clock-Punctual w.clock c in
        let q' : reg ≡ g = cc q in
        elim (Bool-cases (ltb reg.expires_at (read_clock w.clock).now)) [
          | inl t ↦ ground (arith, t, q', x, le)
          | inr f ↦
              rw f (save-FreshOk (record w { keyspace = s; clock = read_clock w.clock }) e i c')
        ]
    renew_found-FreshOk w (Outcome.ok none, s) g q e i c x = cc q
    renew_found-FreshOk w (Outcome.err e', s) g q e i c x = cc q
    renew_found-FreshOk w (Outcome.panic, s) g q e i c x = cc q

    renew-FreshOk : (w : Registrar U A S) → Fresh w → FreshOk (renew D w)
    unfolding renew
    renew-FreshOk w h =
        renew_found-FreshOk w _ h.registration
          (rel.gets w.node.id w.keyspace ∙ ap ok (ap (D.value w.keyspace) h.node ∙ h.stored)) h.node
          h.interval h.punctual h.expires

    serve-Stays :
        (l : List Input)
        → All NotCanceled l
        → (p : Outcome (Unit {0}) × Registrar U A S) → FreshOk p
        → Stays id (serve D l p)
    unfolding serve
    serve-Stays l a (Outcome.err e, w) h = absurd h
    serve-Stays l a (Outcome.panic, w) h = absurd h
    serve-Stays [] a (Outcome.ok u, w) h =
        (h.registration, h.stored, omega (arith, h.expires, positive))
    serve-Stays (Input.canceled e ∷ rest) a (Outcome.ok u, w) h = absurd a.0
    serve-Stays (Input.shutdown_signaled ∷ rest) a (Outcome.ok u, w) h =
        unfold deregister delete_registration return_with in
        subst (λ p. Stays id (return_with p)) (sym (store_ok none w))
          (ap (D.value _) (sym h.node) ∙ stored_value none w.node.id w.keyspace)
    serve-Stays (Input.ticked ∷ rest) a (Outcome.ok u, w) h =
        serve-Stays rest a.1 (renew D w) (renew-FreshOk w h)

  -- A store of which no call fails, a positive renewal interval below 2^62 nanoseconds, a clock that is
  -- read at least once in twice the interval, and a context that is not canceled: `Run` never fails. It
  -- returns without an error, with the node's registration gone, or waits, and then the node has a
  -- registration that has not expired.
  pub run-Stays :
      Reliable
      → (n : ℕ) → 0 < n
      → n < 4611686018427387904
      → (inputs : List Input) → All NotCanceled inputs
      → (r : Registrar U A S) → Punctual (n * 2) r.clock
      → Stays r.node.id (run D inputs (pos n) r)
  unfolding run
  run-Stays rel zero p s inputs a r c = absurd (omega (arith, p))
  run-Stays rel (suc n) p s inputs a r c =
      unfold register interval_or in
      serve-Stays rel r.node.id (suc n) p s inputs a _
        (save-FreshOk rel r.node.id (suc n) p s (record r { interval = suc n }) refl refl c)
