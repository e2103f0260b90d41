-- ===== src/Cluster/Observer/Membership.antt =====
-- Nodes by their ids, in the lists of an event and in a map (internal/cluster/registry.go,
-- `pollState` and `publishState`).
use veracity.Base.{
  ◌≡◌, refl, sym, ap, subst, ◌∙◌, List, [], ◌∷◌, Option, none, some, All, inl, inr, Bool-cases,
  Option-cases, if◌then◌else◌, arith,
}
use veracity.Maps.{Keys, Map, find, Distinct, visited, same_key}
use veracity.Cluster.Registry.{Node}
use veracity.Cluster.Observer.{MembershipChanged, missing, set_all, remove_all, apply_event}

module _ {U A : Type 0} (Q : Keys U) where
  -- The node with the id.
  abbrev pub lookup : U → List (Node U A) → Option (Node U A)
  lookup id [] = none
  lookup id (node ∷ rest) = if Q.equal node.id id then some node else lookup id rest

  -- No id stands twice.
  abbrev pub NoRepeat : List (Node U A) → Type 0
  NoRepeat [] = Unit
  NoRepeat (node ∷ rest) = (lookup node.id rest ≡ none) × NoRepeat rest

  -- An event that is sound after the nodes `f`: no id twice, the registered nodes are new, and the
  -- deregistered ones are those that were there.
  pub record Sound (f : U → Option (Node U A)) (ev : MembershipChanged U A) : Type 0 where
    pub registered_once : NoRepeat ev.registered
    pub deregistered_once : NoRepeat ev.deregistered
    pub registered_new : (id : U) (n : Node U A) → lookup id ev.registered ≡ some n → f id ≡ none
    pub deregistered_there :
        (id : U) (n : Node U A) → lookup id ev.deregistered ≡ some n → f id ≡ some n

-- What the first option lacks of the second.
abbrev pub unless {ℓ κ} : {V : Type ℓ} {W : Type κ} → Option V → Option W → Option W
unless none w = w
unless (some v) w = none

abbrev pub first_of {ℓ} : {V : Type ℓ} → Option V → Option V → Option V
first_of none w = w
first_of (some v) w = some v

unless-none {ℓ κ} : {V : Type ℓ} {W : Type κ} (o : Option V) → unless {W = W} o none ≡ none
unless-none none = refl
unless-none (some v) = refl

module _ {U A N : Type 0} {Q : Keys U} (M : Map Q (Node U A) N) where
  -- Each node stands under its own id.
  abbrev pub Keyed : N → Type 0
  Keyed nodes = (id : U) (n : Node U A) → M.try_get id nodes ≡ some n → n.id ≡ id

  pub Keyed-set : (n : Node U A) (nodes : N) → Keyed nodes → Keyed (M.set n.id n nodes)
  Keyed-set n nodes k id m e = elim (Bool-cases (Q.equal n.id id)) [
    | inl t ↦
        let q : n ≡ m = let g = M.get-set id n.id n nodes in cc (t, e, g) in
        subst (λ x. x.id ≡ id) q (same_key Q n.id id t)
    | inr u ↦ k id m (let g = M.get-set id n.id n nodes in cc (u, e, g))
  ]

  Keyed-remove : (j : U) (nodes : N) → Keyed nodes → Keyed (M.remove j nodes)
  Keyed-remove j nodes k id m e = elim (Bool-cases (Q.equal j id)) [
    | inl t ↦ let g = M.get-remove id j nodes in cc (t, e, g)
    | inr u ↦ k id m (let g = M.get-remove id j nodes in cc (u, e, g))
  ]

  Keyed-set_all : (l : List (Node U A)) (nodes : N) → Keyed nodes → Keyed (set_all M l nodes)
  unfolding set_all
  Keyed-set_all [] nodes k = k
  Keyed-set_all (n ∷ rest) nodes k = Keyed-set_all rest _ (Keyed-set n nodes k)

  Keyed-remove_all : (l : List (Node U A)) (nodes : N) → Keyed nodes → Keyed (remove_all M l nodes)
  unfolding remove_all
  Keyed-remove_all [] nodes k = k
  Keyed-remove_all (n ∷ rest) nodes k = Keyed-remove_all rest _ (Keyed-remove n.id nodes k)

  pub Keyed-apply_event :
      (ev : MembershipChanged U A) (nodes : N) → Keyed nodes → Keyed (apply_event M ev nodes)
  unfolding apply_event
  Keyed-apply_event ev nodes k =
      Keyed-remove_all ev.deregistered _ (Keyed-set_all ev.registered nodes k)

  abbrev pub KeyedPairs : List (U × Node U A) → Type 0
  KeyedPairs l = All (λ (p : U × Node U A). p.1.id ≡ p.0) l

  pub all-Keyed : (nodes : N) → Keyed nodes → KeyedPairs (M.all nodes)
  all-Keyed nodes k = go (M.all nodes) (visited Q (M.all nodes) (M.Distinct-all nodes))
    where
      go :
          (l : List (U × Node U A))
          → All (λ (p : U × Node U A). find Q.equal p.0 (M.all nodes) ≡ some p.1) l
          → KeyedPairs l
      go [] a = tt
      go ((id, n) ∷ rest) (e, a) = (k id n (sym (M.find-all id nodes) ∙ e), go rest a)

  missing-behind :
      (id : U) (l : List (U × Node U A)) (s : N)
      → KeyedPairs l
      → find Q.equal id l ≡ none
      → lookup Q id (missing M l s) ≡ none
  unfolding missing
  missing-behind id [] s k e = refl
  missing-behind id ((j, n) ∷ rest) s (q, k) e = elim (Bool-cases (Q.equal j id)) [
    | inl t ↦ cc (t, e)
    | inr u ↦
        let ih = missing-behind id rest s k (ground (arith, u, e)) in
        elim (Option-cases (M.try_get j s)) [ inl x ↦ rw (x, q, u) ih | inr (m, x) ↦ rw x ih ]
  ]

  -- The missing nodes by their ids.
  pub lookup-missing :
      (id : U) (l : List (U × Node U A)) (s : N)
      → KeyedPairs l
      → Distinct Q l
      → lookup Q id (missing M l s) ≡ unless (M.try_get id s) (find Q.equal id l)
  unfolding missing
  lookup-missing id [] s k d = elim (Option-cases (M.try_get id s)) [
    | inl x ↦ rw x refl
    | inr (m, x) ↦ rw x refl
  ]
  lookup-missing id ((j, n) ∷ rest) s (q, k) (f, d) = elim (Bool-cases (Q.equal j id)) [
    | inl t ↦
        let e : j ≡ id = same_key Q j id t in
        let b : lookup Q id (missing M rest s) ≡ none =
          missing-behind id rest s k (subst (λ i. find Q.equal i rest ≡ none) e f) in
        elim (Option-cases (M.try_get j s)) [
          | inl x ↦
              let x' : M.try_get id s ≡ none = ap (λ i. M.try_get i s) (sym e) ∙ x in
              rw (x, x', q, t) refl
          | inr (m, x) ↦
              let x' : M.try_get id s ≡ some m = ap (λ i. M.try_get i s) (sym e) ∙ x in rw (x, x') b
        ]
    | inr u ↦
        let ih = lookup-missing id rest s k d in
        elim (Option-cases (M.try_get j s)) [ inl x ↦ rw (x, q, u) ih | inr (m, x) ↦ rw (x, u) ih ]
  ]

  pub missing-NoRepeat :
      (l : List (U × Node U A)) (s : N) → KeyedPairs l → Distinct Q l → NoRepeat Q (missing M l s)
  unfolding missing
  missing-NoRepeat [] s k d = tt
  missing-NoRepeat ((j, n) ∷ rest) s (q, k) (f, d) =
      let ih = missing-NoRepeat rest s k d in
      elim (Option-cases (M.try_get j s)) [
        | inl x ↦
            rw x
              (missing-behind n.id rest s k (subst (λ i. find Q.equal i rest ≡ none) (sym q) f), ih)
        | inr (m, x) ↦ rw x ih
      ]

  pub get-set_all :
      (id : U) (l : List (Node U A)) (s : N)
      → NoRepeat Q l
      → M.try_get id (set_all M l s) ≡ first_of (lookup Q id l) (M.try_get id s)
  unfolding set_all
  get-set_all id [] s d = refl
  get-set_all id (n ∷ rest) s (f, d) = elim (Bool-cases (Q.equal n.id id)) [
    | inl t ↦
        let b : lookup Q id rest ≡ none =
          subst (λ i. lookup Q i rest ≡ none) (same_key Q n.id id t) f in
        get-set_all id rest _ d ∙ rw (b, t, M.get-set id n.id n s) rw t refl
    | inr u ↦ get-set_all id rest _ d ∙ rw (u, M.get-set id n.id n s) rw u refl
  ]

  pub get-remove_all :
      (id : U) (l : List (Node U A)) (s : N)
      → M.try_get id (remove_all M l s) ≡ unless (lookup Q id l) (M.try_get id s)
  unfolding remove_all
  get-remove_all id [] s = refl
  get-remove_all id (n ∷ rest) s = elim (Bool-cases (Q.equal n.id id)) [
    | inl t ↦
        get-remove_all id rest _
        ∙ rw (t, M.get-remove id n.id s) rw t (unless-none (lookup Q id rest))
    | inr u ↦ get-remove_all id rest _ ∙ rw (u, M.get-remove id n.id s) rw u refl
  ]
