-- ===== src/Cluster/Registrar/Examples.antt =====
-- A registrar over a keyspace in memory, with a clock that goes on by a second at each reading.
use veracity.Base.{
  ℕ, ◌≡◌, ◌<◌, ◌≤◌, ◌+◌, ◌*◌, refl, [], ◌∷◌, some, arith, expired_registration, err, pos, List,
}
use veracity.Maps.Assoc.{AssocMap, number_keys, insert}
use veracity.Keyspace.{Keyspace}
use veracity.Keyspace.Memory.{memory, write}
use veracity.Cluster.Registry.{Registration, default_renew_interval}
use veracity.Cluster.Registrar.{Input, Registrar, registration_at, register, renew, run}
use veracity.Cluster.Registrar.Storing.{at}
use veracity.Cluster.Registrar.Renewing.{Renewed, renew-Renewed}
use veracity.Cluster.Registrar.Expiry.{registration_at-expiry}
use veracity.Cluster.Registrar.Serving.{with_interval, Ended, run-Ended}
use veracity.Cluster.Registrar.Staying.{Reliable, Stays, run-Stays}

abbrev registry : Keyspace number_keys (Registration ℕ ℕ) (AssocMap number_keys (Registration ℕ ℕ))
registry = memory number_keys (Registration ℕ ℕ)

abbrev seconds : List ℕ
seconds = 1000000000 ∷ 1000000000 ∷ 1000000000 ∷ 1000000000 ∷ []

-- Node 1, in a registry that has node 2.
abbrev registrar : Registrar ℕ ℕ (AssocMap number_keys (Registration ℕ ℕ))
registrar = record {
  node = record { id = 1; addresses = 80 ∷ [] };
  interval = default_renew_interval;
  keyspace =
      ((2, record { node = record { id = 2; addresses = [] }; expires_at = 7 }) ∷ [], (refl, tt));
  clock = record { now = 100; passing = seconds };
}

-- Its registration expired at the time 50.
abbrev lapsed_registrar : Registrar ℕ ℕ (AssocMap number_keys (Registration ℕ ℕ))
lapsed_registrar = record registrar {
  keyspace =
      ((1, record { node = record { id = 1; addresses = [] }; expires_at = 50 }) ∷ [], (refl, tt));
}

renews :
    at registry (renew registry (register registry registrar).1).1 1
    ≡ some (registration_at 3000000100 registrar)
unfolding renew register registration_at insert write
renews = refl

refuses_lapsed : (renew registry lapsed_registrar).0 ≡ err expired_registration
unfolding renew write
refuses_lapsed = refl

renew-Renewed_example : Renewed registry lapsed_registrar (renew registry lapsed_registrar)
renew-Renewed_example = renew-Renewed registry lapsed_registrar

registration_at-expiry_example :
    (10000000000 < 4611686018427387904
      → (registration_at 100 registrar).expires_at ≡ 100 + 10000000000 * 2)
    × (4611686018427387904 ≤ 10000000000 → (registration_at 100 registrar).expires_at ≤ 100)
registration_at-expiry_example = registration_at-expiry registrar 100 (omega arith)

abbrev inputs : List Input
inputs = Input.ticked ∷ Input.shutdown_signaled ∷ []

run-Ended_example :
    Ended registry (with_interval (pos 10) registrar) (run registry inputs (pos 10) registrar)
run-Ended_example = run-Ended registry inputs (pos 10) registrar

registry-Reliable : Reliable registry
registry-Reliable = record { sets = λ k v s. refl; gets = λ k s. refl }

run-Stays_example : Stays registry 1 (run registry inputs (pos 500000000) registrar)
run-Stays_example =
    run-Stays registry registry-Reliable 500000000 (omega arith) (omega arith) inputs (tt, (tt, tt))
      registrar (omega arith, (omega arith, (omega arith, (omega arith, tt))))
