-- ===== src/Cluster/Registrar/Serving.antt =====
-- What `Run` leaves in the registry (internal/cluster/registry.go).
use veracity.Base.{
  ℕ, ◌≤◌, ◌≡◌, refl, sym, ap, ◌∙◌, false, List, [], ◌∷◌, none, some, Outcome, arith, ℤ, subst,
}
use veracity.Fsm.{Exit}
use veracity.Maps.{Keys}
use veracity.Keyspace.{Keyspace}
use veracity.Cluster.Registry.{Registration, read_clock, interval_or, default_renew_interval}
use veracity.Cluster.Registrar.{
  Input, Registrar, registration_at, return_with, save_registration, delete_registration, register,
  deregister, renew, serve, run,
}
use veracity.Cluster.Registrar.Storing.{at, OthersKeep, Continues, Stored, store-Stored}
use veracity.Cluster.Registrar.Renewing.{Renewed, renew-Renewed}

module _ {U A S : Type 0} where
  -- The registrar after `Run` has set the interval.
  unfoldable pub with_interval : ℤ → Registrar U A S → Registrar U A S
  unfolding interval_or
  with_interval renew_interval r = record r {
    interval = interval_or default_renew_interval renew_interval;
  }

module _ {U A S : Type 0} {Q : Keys U} (D : Keyspace Q (Registration U A) S)
    (o : Registrar U A S) where
  -- The node of `o` has a registration of its own addresses, stamped at some time of the run.
  pub record Registered (w : Registrar U A S) : Type 0 where
    pub stamp : ℕ
    pub past : stamp ≤ w.clock.now
    pub registration : at D w o.node.id ≡ some (registration_at stamp o)

  -- What `w` still has of `o`.
  pub record Kept (w : Registrar U A S) : Type 0 where
    pub node : w.node ≡ o.node
    pub interval : w.interval ≡ o.interval
    pub others : OthersKeep D o.node.id o.keyspace w.keyspace

  abbrev pub Ended : Exit (Registrar U A S) → Type 0
  Ended (Exit.returned none w) =
      (at D w o.node.id ≡ none) × OthersKeep D o.node.id o.keyspace w.keyspace
  Ended (Exit.returned (some e) w) = OthersKeep D o.node.id o.keyspace w.keyspace
  Ended (Exit.blocked w) = Registered w × OthersKeep D o.node.id o.keyspace w.keyspace
  Ended (Exit.panicked w) = Unit
  Ended (Exit.running w) = ⊥

  -- The result of a call of the loop.
  abbrev Serves : Outcome (Unit {0}) × Registrar U A S → Type 0
  Serves (Outcome.ok u, w) = Registered w × Kept w
  Serves (Outcome.err e, w) = OthersKeep D o.node.id o.keyspace w.keyspace
  Serves (Outcome.panic, w) = Unit

  Kept-Continues :
      (w w' : Registrar U A S)
      → Kept w
      → OthersKeep D w.node.id w.keyspace w'.keyspace
      → Continues D w w'
      → Kept w'
  Kept-Continues w w' k h c = record {
    node = c.same_node ∙ k.node;
    interval = c.same_interval ∙ k.interval;
    others = λ j f. h j (subst (λ n. Q.equal n.id j ≡ false) (sym k.node) f) ∙ k.others j f;
  }

  same_registration :
      (w : Registrar U A S) (t : ℕ) → Kept w → registration_at t w ≡ registration_at t o
  unfolding registration_at
  same_registration w t k = rw (k.node, k.interval) refl

  Registered-stamped :
      (w w' : Registrar U A S) (t : ℕ)
      → Kept w
      → t ≤ w'.clock.now
      → at D w' w.node.id ≡ some (registration_at t w)
      → Registered w'
  Registered-stamped w w' t k le e = record {
    stamp = t;
    past = le;
    registration = ap (λ n. at D w' n.id) (sym k.node) ∙ e ∙ ap some (same_registration w t k);
  }

  Renewed-Serves :
      (w : Registrar U A S) (p : Outcome (Unit {0}) × Registrar U A S)
      → Kept w
      → Renewed D w p
      → Serves p
  Renewed-Serves w (Outcome.ok u, w') k (e, h, c) = (
    Registered-stamped w w' (read_clock (read_clock w.clock)).now k e.past e.extended,
    Kept-Continues w w' k h c,
  )
  Renewed-Serves w (Outcome.err e, w') k (v, h, c) = (Kept-Continues w w' k h c).others
  Renewed-Serves w (Outcome.panic, w') k t = tt

  saved-Serves :
      (w : Registrar U A S) (t : ℕ) (p : Outcome (Unit {0}) × Registrar U A S)
      → Kept w
      → t ≤ w.clock.now
      → Stored D (some (registration_at t w)) w p
      → Serves p
  saved-Serves w t (Outcome.ok u, w') k le (v, h, c) =
      (Registered-stamped w w' t k (omega (arith, le, c.later)) v, Kept-Continues w w' k h c)
  saved-Serves w t (Outcome.err e, w') k le (v, h, c) = (Kept-Continues w w' k h c).others
  saved-Serves w t (Outcome.panic, w') k le u = tt

  left-Ended :
      (w : Registrar U A S) (p : Outcome (Unit {0}) × Registrar U A S)
      → Kept w
      → Stored D none w p
      → Ended (return_with p)
  unfolding return_with
  left-Ended w (Outcome.ok u, w') k (v, h, c) =
      (ap (λ n. at D w' n.id) (sym k.node) ∙ v, (Kept-Continues w w' k h c).others)
  left-Ended w (Outcome.err e, w') k (v, h, c) = (Kept-Continues w w' k h c).others
  left-Ended w (Outcome.panic, w') k t = tt

  serve-Ended :
      (l : List Input) (p : Outcome (Unit {0}) × Registrar U A S) → Serves p → Ended (serve D l p)
  unfolding serve
  serve-Ended l (Outcome.err e, w) h = h
  serve-Ended l (Outcome.panic, w) h = tt
  serve-Ended [] (Outcome.ok u, w) (g, k) = (g, k.others)
  serve-Ended (Input.canceled e ∷ rest) (Outcome.ok u, w) (g, k) = k.others
  serve-Ended (Input.shutdown_signaled ∷ rest) (Outcome.ok u, w) (g, k) =
      unfold deregister delete_registration in left-Ended w _ k (store-Stored D none w)
  serve-Ended (Input.ticked ∷ rest) (Outcome.ok u, w) (g, k) =
      serve-Ended rest (renew D w) (Renewed-Serves w _ k (renew-Renewed D w))

module _ {U A S : Type 0} {Q : Keys U} (D : Keyspace Q (Registration U A) S) where
  -- `Run`, over a store that meets its interface and may fail at any call. Where it returns without an
  -- error, the node's registration is gone. Where it waits for ever, the node has a registration of its
  -- own addresses, for the interval in use. However it returns, no other node's registration has
  -- changed.
  pub run-Ended :
      (inputs : List Input) (renew_interval : ℤ) (r : Registrar U A S)
      → Ended D (with_interval renew_interval r) (run D inputs renew_interval r)
  unfolding run with_interval
  run-Ended inputs renew_interval r =
      unfold register save_registration in
      let o = with_interval renew_interval r in
      serve-Ended D o inputs _ (
        saved-Serves D o (record o { clock = read_clock o.clock }) (read_clock o.clock).now _
          (record { node = refl; interval = refl; others = λ j f. refl }) (omega arith)
          (store-Stored D _ _))
