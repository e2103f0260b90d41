-- ===== src/Cluster/Registrar/Expiry.antt =====
-- When a registration expires (internal/cluster/registry.go, `saveRegistration`): the doubling of the
-- interval wraps.
use veracity.Base.{ℕ, ◌+◌, ◌*◌, ◌<◌, ◌≤◌, ◌≡◌, refl, ltb, inl, inr, Bool-cases, arith}
use veracity.Cluster.Registry.{double_duration, add_duration}
use veracity.Cluster.Registrar.{Registrar, registration_at}

pub expiry_exact :
    (now n : ℕ) → n < 4611686018427387904 → add_duration now (double_duration n) ≡ now + n * 2
unfolding double_duration add_duration
expiry_exact now n h = elim (Bool-cases (ltb (n * 2) 9223372036854775808)) [
  | inl t ↦ rw t refl
  | inr f ↦ ground (arith, f, h)
]

expiry_wrapped :
    (now n : ℕ)
    → 4611686018427387904 ≤ n
    → n < 9223372036854775808
    → add_duration now (double_duration n) ≤ now
unfolding double_duration add_duration
expiry_wrapped now n h k = elim (Bool-cases (ltb (n * 2) 9223372036854775808)) [
  | inl t ↦ ground (arith, t, h)
  | inr f ↦ rw f (omega arith)
]

module _ {U A S : Type 0} where
  -- A registration that is saved at the time `now`, with an interval that an `int64` holds: below 2^62
  -- nanoseconds it expires after exactly twice the interval; from there on the doubling wraps, and the
  -- registration has expired when it is saved.
  pub registration_at-expiry :
      (r : Registrar U A S) (now : ℕ)
      → r.interval < 9223372036854775808
      → (r.interval < 4611686018427387904
          → (registration_at now r).expires_at ≡ now + r.interval * 2)
        × (4611686018427387904 ≤ r.interval → (registration_at now r).expires_at ≤ now)
  unfolding registration_at
  registration_at-expiry r now h =
      (λ k. expiry_exact now r.interval k, λ k. expiry_wrapped now r.interval k h)
