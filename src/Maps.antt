-- ===== src/Maps.antt =====
-- The maps of enginekit (`maps.Proto`), which are not part of the repository: an interface with the
-- operations that the sources call and the documented behaviour that they rely on.
pub mod Assoc
use veracity.Base.{
  All, subst, inl, inr, Bool-cases, ℕ, ◌+◌, ◌≡◌, ◌↔◌, refl, Bool, true, List, [], ◌∷◌, Option, none,
  some, if◌then◌else◌,
}

-- Keys are compared by their content.
pub record Keys (K : Type 0) : Type 0 where
  pub equal : K → K → Bool
  pub equal_iff : (a b : K) → (equal a b ≡ true) ↔ (a ≡ b)

-- The value of the first pair with the key.
abbrev pub find {ℓ κ} : {K : Type ℓ} {V : Type κ} → (K → K → Bool) → K → List (K × V) → Option V
find equal k [] = none
find equal k ((j, v) ∷ rest) = if equal j k then some v else find equal k rest

module _ {K : Type 0} (Q : Keys K) where
  pub equal_self : (k : K) → Q.equal k k ≡ true
  equal_self k = (Q.equal_iff k k).1 refl

  pub same_key : (j k : K) → Q.equal j k ≡ true → j ≡ k
  same_key j k = (Q.equal_iff j k).0

module _ {K V : Type 0} (Q : Keys K) where
  -- No key stands twice.
  abbrev pub Distinct : List (K × V) → Type 0
  Distinct [] = Unit
  Distinct ((j, w) ∷ rest) = (find Q.equal j rest ≡ none) × Distinct rest

module _ {K V : Type 0} (Q : Keys K) where
  -- Pairs of a list with distinct keys are found.
  pub visited :
      (l : List (K × V)) → Distinct Q l → All (λ (p : K × V). find Q.equal p.0 l ≡ some p.1) l
  visited [] d = tt
  visited ((k, v) ∷ l) d =
      (rw (equal_self Q k) refl, later l (visited l d.1) (λ j w e. behind j w e))
    where
      behind : (j : K) (w : V) → find Q.equal j l ≡ some w → find Q.equal j ((k, v) ∷ l) ≡ some w
      behind j w e = elim (Bool-cases (Q.equal k j)) [
        | inl t ↦
            let q : find Q.equal j l ≡ none =
              subst (λ i. find Q.equal i l ≡ none) (same_key Q k j t) d.0 in
            cc (e, q)
        | inr f ↦ rw f e
      ]

      later :
          (m : List (K × V))
          → All (λ (p : K × V). find Q.equal p.0 l ≡ some p.1) m
          → ((j : K) (w : V) → find Q.equal j l ≡ some w → find Q.equal j ((k, v) ∷ l) ≡ some w)
          → All (λ (p : K × V). find Q.equal p.0 ((k, v) ∷ l) ≡ some p.1) m
      later [] a h = tt
      later (p ∷ m) a h = (h p.0 p.1 a.0, later m a.1 h)

-- `all` is the pairs in the order in which an iteration visits them.
pub record Map {K : Type 0} (Q : Keys K) (V S : Type 0) : Type 0 where
  pub empty : S
  pub try_get : K → S → Option V
  pub set : K → V → S → S
  pub remove : K → S → S
  pub len : S → ℕ
  pub all : S → List (K × V)
  pub get-empty : (k : K) → try_get k empty ≡ none
  pub get-set :
      (k j : K) (v : V) (s : S)
      → try_get k (set j v s) ≡ (if Q.equal j k then some v else try_get k s)
  pub get-remove :
      (k j : K) (s : S) → try_get k (remove j s) ≡ (if Q.equal j k then none else try_get k s)
  pub len-empty : len empty ≡ 0
  pub len-set : (k : K) (v : V) (s : S) → try_get k s ≡ none → len (set k v s) ≡ len s + 1
  pub len-remove : (k : K) (v : V) (s : S) → try_get k s ≡ some v → len (remove k s) + 1 ≡ len s
  pub find-all : (k : K) (s : S) → find Q.equal k (all s) ≡ try_get k s
  pub Distinct-all : (s : S) → Distinct Q (all s)
