-- ===== src/Cluster/Registrar.antt =====
-- internal/cluster/registry.go: the registrar, which keeps the node's registration in the registry.
--
-- `inputs` is what the `select` of `Run` receives. `Run` opens the keyspace; telemetry is left out.
pub mod Storing
pub mod Renewing
pub mod Expiry
pub mod Serving
pub mod Staying
mod Examples
use veracity.Base.{
  ℕ, ◌+◌, Bool, true, false, List, [], ◌∷◌, Option, none, some, ltb, if◌then◌else◌, Error,
  unregistered_node, expired_registration, Outcome, ok, err, panic, ℤ,
}
use veracity.Fsm.{Exit}
use veracity.Maps.{Keys}
use veracity.Keyspace.{Keyspace}
use veracity.Cluster.Registry.{
  Node, Registration, Clock, read_clock, default_renew_interval, interval_or, double_duration,
  add_duration,
}

-- The cases of the `select`; a canceled context comes with its `Err()`.
pub data Input : Type 0 where
  canceled : Error → Input
  shutdown_signaled : Input
  ticked : Input

pub record Registrar (U A S : Type 0) : Type 0 where
  pub node : Node U A
  pub interval : ℕ
  pub keyspace : S
  pub clock : Clock

module _ {U A S : Type 0} where
  -- The registration that `saveRegistration` sets at the time `now`.
  unfoldable pub registration_at : ℕ → Registrar U A S → Registration U A
  unfolding double_duration add_duration
  registration_at now r = record {
    node = record { id = r.node.id; addresses = r.node.addresses };
    expires_at = add_duration now (double_duration r.interval);
  }

  -- The deletion of an expired registration: its own error comes first.
  unfoldable pub expired :
      Outcome (Unit {0}) × Registrar U A S → Outcome (Unit {0}) × Registrar U A S
  expired (Outcome.ok _, r) = (err expired_registration, r)
  expired (Outcome.err e, r) = (err e, r)
  expired (Outcome.panic, r) = (panic, r)

  -- The result of a call with which `Run` returns.
  unfoldable pub return_with : Outcome (Unit {0}) × Registrar U A S → Exit (Registrar U A S)
  return_with (Outcome.ok _, r) = Exit.returned none r
  return_with (Outcome.err e, r) = Exit.returned (some e) r
  return_with (Outcome.panic, r) = Exit.panicked r

module _ {U A S : Type 0} {Q : Keys U} (D : Keyspace Q (Registration U A) S) where
  unfoldable pub store :
      Option (Registration U A) → Registrar U A S → Outcome (Unit {0}) × Registrar U A S
  store reg r = let (o, s) = D.set r.node.id reg r.keyspace in (o, record r { keyspace = s })

  unfoldable pub save_registration : Registrar U A S → Outcome (Unit {0}) × Registrar U A S
  unfolding read_clock registration_at store
  save_registration r =
      let c = read_clock r.clock in store (some (registration_at c.now r)) (record r { clock = c })

  unfoldable pub delete_registration : Registrar U A S → Outcome (Unit {0}) × Registrar U A S
  unfolding store
  delete_registration r = store none r

  unfoldable pub register : Registrar U A S → Outcome (Unit {0}) × Registrar U A S
  unfolding save_registration
  register r = save_registration r

  unfoldable pub deregister : Registrar U A S → Outcome (Unit {0}) × Registrar U A S
  unfolding delete_registration
  deregister r = delete_registration r

  unfoldable pub renew_found :
      Registrar U A S
      → Outcome (Option (Registration U A)) × S
      → Outcome (Unit {0}) × Registrar U A S
  unfolding read_clock expired delete_registration save_registration
  renew_found r (Outcome.err e, s) = (err e, record r { keyspace = s })
  renew_found r (Outcome.panic, s) = (panic, record r { keyspace = s })
  renew_found r (Outcome.ok none, s) = (err unregistered_node, record r { keyspace = s })
  renew_found r (Outcome.ok (some reg), s) =
      let c = read_clock r.clock in
      let r' = record r { keyspace = s; clock = c } in
      if ltb reg.expires_at c.now then expired (delete_registration r') else save_registration r'

  unfoldable pub renew : Registrar U A S → Outcome (Unit {0}) × Registrar U A S
  unfolding renew_found
  renew r = renew_found r (D.get r.node.id r.keyspace)

  -- The loop of `Run`, from the result of the last call.
  unfoldable pub serve : List Input → Outcome (Unit {0}) × Registrar U A S → Exit (Registrar U A S)
  unfolding return_with deregister renew
  serve inputs (Outcome.err e, r) = Exit.returned (some e) r
  serve inputs (Outcome.panic, r) = Exit.panicked r
  serve [] (Outcome.ok _, r) = Exit.blocked r
  serve (Input.canceled e ∷ rest) (Outcome.ok _, r) = Exit.returned (some e) r
  serve (Input.shutdown_signaled ∷ rest) (Outcome.ok _, r) = return_with (deregister r)
  serve (Input.ticked ∷ rest) (Outcome.ok _, r) = serve rest (renew r)

  unfoldable pub run : List Input → ℤ → Registrar U A S → Exit (Registrar U A S)
  unfolding serve register interval_or
  run inputs renew_interval r =
      serve inputs
        (register (record r { interval = interval_or default_renew_interval renew_interval }))
