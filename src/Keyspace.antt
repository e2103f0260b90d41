-- ===== src/Keyspace.antt =====
-- The key-value stores of persistencekit, which are not part of the repository: an interface with the
-- operations that the sources call and the documented behaviour that they rely on.
pub mod Memory
use veracity.Base.{
  ℕ, ◌≡◌, ◌⊎◌, Bool, List, [], ◌∷◌, Option, none, some, All, if◌then◌else◌, Error, Outcome, ok, err,
  panic,
}
use veracity.Maps.{Keys, find, Distinct}

-- `value` is what the keyspace has at a key. `range` is `Range`: the pairs that it visits, and an
-- error if it stops early.
pub record Keyspace {K : Type 0} (Q : Keys K) (V S : Type 0) : Type 0 where
  pub value : S → K → Option V
  pub get : K → S → Outcome (Option V) × S
  pub set : K → Option V → S → Outcome (Unit {0}) × S
  pub range : S → (List (K × V) × Option Error) × S
  pub get_ok : (k : K) (s : S) (v : Option V) → (get k s).0 ≡ ok v → v ≡ value s k
  pub get_keeps : (k j : K) (s : S) → value (get k s).1 j ≡ value s j
  pub set_ok :
      (k j : K) (v : Option V) (s : S)
      → (set k v s).0 ≡ ok tt
      → value (set k v s).1 j ≡ (if Q.equal k j then v else value s j)
  -- A failure may come before or after the write.
  pub set_err :
      (k : K) (v : Option V) (s : S) (e : Error)
      → (set k v s).0 ≡ err e
      → ((j : K) → value (set k v s).1 j ≡ value s j)
        ⊎ ((j : K) → value (set k v s).1 j ≡ (if Q.equal k j then v else value s j))
  pub set_returns : (k : K) (v : Option V) (s : S) → (set k v s).0 ≡ panic → ⊥
  pub range_visits : (s : S) → All (λ (p : K × V). value s p.0 ≡ some p.1) (range s).0.0
  pub range_distinct : (s : S) → Distinct Q (range s).0.0
  pub range_all :
      (s : S)
      → (range s).0.1 ≡ none
      → (k : K) (v : V) → value s k ≡ some v
      → find Q.equal k (range s).0.0 ≡ some v
  pub range_keeps : (j : K) (s : S) → value (range s).1 j ≡ value s j
