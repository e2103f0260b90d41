-- ===== src/EventStream/Supervisor/Picking.antt =====
-- One goroutine taken out of those that run, and one added to them
-- (internal/eventstream/supervisor.go, `workerStopped` and `startWorkerForStreamID`).
use veracity.Base.{
  ℕ, zero, suc, ◌+◌, ◌≡◌, refl, sym, ap, subst, ◌∙◌, inl, inr, List, [], ◌∷◌, ◌++◌, Option, none,
  some, length, All, arith, if◌then◌else◌, Bool-cases,
}
use veracity.Maps.{Keys, Map, find, Distinct, equal_self, same_key}
use veracity.EventStream.Supervisor.{Supervisor, pick, remove_picked, receive_stopped}

-- `x` taken out of a list, which leaves `rest`.
pub data Picked {A : Type 0} (x : A) : List A → List A → Type 0 where
  here : {xs : List A} → Picked x xs (x ∷ xs)
  there : {y : A} {rest xs : List A} → Picked x rest xs → Picked x (y ∷ rest) (y ∷ xs)

pub length-Picked :
    {A : Type 0} {x : A} {rest xs : List A} → Picked x rest xs → length xs ≡ length rest + 1
length-Picked here = omega arith
length-Picked (there p) = omega (arith, length-Picked p)

pub All-Picked :
    {A : Type 0} (P : A → Type 0) {x : A} {rest xs : List A}
    → Picked x rest xs
    → All P xs
    → All P rest
All-Picked P here a = a.1
All-Picked P (there p) a = (a.0, All-Picked P p a.1)

-- What `pick` gives.
pub data PickedOf {A : Type 0} (l : List A) : Option (A × List A) → Type 0 where
  none_of : l ≡ [] → PickedOf l none
  one_of : (x : A) (rest : List A) → Picked x rest l → PickedOf l (some (x, rest))

pick-PickedOf : {A : Type 0} (n : ℕ) (l : List A) → PickedOf l (pick n l)
unfolding pick
pick-PickedOf {A = A} n [] = none_of refl
pick-PickedOf {A = A} zero (x ∷ xs) = one_of x xs here
pick-PickedOf {A = A} (suc n) (x ∷ xs) = after (pick n xs) (pick-PickedOf n xs)
  where
    after :
        (o : Option (A × List A))
        → PickedOf xs o
        → PickedOf (x ∷ xs) (elim o [ none ↦ some (x, xs) | some (y, ys) ↦ some (y, x ∷ ys) ])
    after o (none_of e) = one_of x xs here
    after o (one_of y rest p) = one_of y (x ∷ rest) (there p)

module _ {E U X Ws : Type 0} {Q : Keys U} (W : Map Q ℕ Ws) (w : Supervisor E U Ws X) where
  -- A receive from `workerStopped`: nothing runs, or the result of one goroutine comes.
  pub data Received : Option (Supervisor E U Ws X) → Type 0 where
    nothing_runs : w.live ≡ [] → Received none
    one_stopped :
        (x : U × ℕ) (rest : List (U × ℕ))
        → Picked x rest w.live
        → Received (some (record w { live = rest; workers = W.remove x.0 w.workers }))

  remove_picked-Received :
      (o : Option ((U × ℕ) × List (U × ℕ))) → PickedOf w.live o → Received (remove_picked W w o)
  unfolding remove_picked
  remove_picked-Received o (none_of e) = nothing_runs e
  remove_picked-Received o (one_of x rest p) = one_stopped x rest p

  pub receive-Received : (i : ℕ) → Received (receive_stopped W i w)
  unfolding receive_stopped
  receive-Received i = remove_picked-Received (pick i w.live) (pick-PickedOf i w.live)

module _ {U : Type 0} (Q : Keys U) where
  pub find-Picked_self :
      {x : U × ℕ} {rest xs : List (U × ℕ)}
      → Picked x rest xs
      → Distinct Q xs
      → find Q.equal x.0 xs ≡ some x.1
  find-Picked_self {x} here d = rw (equal_self Q x.0) refl
  find-Picked_self {x} (there {y} {rest} {xs} p) d = elim (Bool-cases (Q.equal y.0 x.0)) [
    | inl t ↦
        let e : y.0 ≡ x.0 = same_key Q y.0 x.0 t in
        cc (find-Picked_self p d.1, subst (λ i. find Q.equal i xs ≡ none) e d.0)
    | inr f ↦ rw f (find-Picked_self p d.1)
  ]

  pub find-Picked :
      {x : U × ℕ} {rest xs : List (U × ℕ)} (p : Picked x rest xs) (k : U)
      → Distinct Q xs
      → find Q.equal k rest ≡ (if Q.equal x.0 k then none else find Q.equal k xs)
  find-Picked {x} {rest} here k d = elim (Bool-cases (Q.equal x.0 k)) [
    | inl t ↦ rw t (subst (λ i. find Q.equal i rest ≡ none) (same_key Q x.0 k t) d.0)
    | inr f ↦ rw f refl
  ]
  find-Picked {x} (there {y} {rest} {xs} p) k d = elim (Bool-cases (Q.equal x.0 k)) [
    | inl t ↦ elim (Bool-cases (Q.equal y.0 k)) [
      | inl s ↦
          let e : y.0 ≡ x.0 = same_key Q y.0 k s ∙ sym (same_key Q x.0 k t) in
          cc (find-Picked_self p d.1, subst (λ i. find Q.equal i xs ≡ none) e d.0)
      | inr g ↦ rw (t, g) (find-Picked p k d.1 ∙ rw t refl)
    ]
    | inr f ↦ elim (Bool-cases (Q.equal y.0 k)) [
      | inl s ↦ rw (f, s) refl
      | inr g ↦ rw (f, g) (find-Picked p k d.1 ∙ rw f refl)
    ]
  ]

  pub Distinct-Picked :
      {x : U × ℕ} {rest xs : List (U × ℕ)} → Picked x rest xs → Distinct Q xs → Distinct Q rest
  Distinct-Picked here d = d.1
  Distinct-Picked {x} (there {y} {rest} {xs} p) d = (
    find-Picked p y.0 d.1
        ∙ elim (Bool-cases (Q.equal x.0 y.0)) [ inl t ↦ rw t refl | inr f ↦ rw f d.0 ],
    Distinct-Picked p d.1,
  )

  -- A new pair at the end.
  pub find-snoc :
      (k : U) (x : U × ℕ) (xs : List (U × ℕ))
      → find Q.equal x.0 xs ≡ none
      → find Q.equal k (xs ++ x ∷ []) ≡ (if Q.equal x.0 k then some x.1 else find Q.equal k xs)
  find-snoc k x [] h = refl
  find-snoc k x (y ∷ xs) h = elim (Bool-cases (Q.equal y.0 x.0)) [
    | inl t ↦ cc (h, ap (λ b. if b then some y.1 else find Q.equal x.0 xs) t)
    | inr f ↦
        let h' : find Q.equal x.0 xs ≡ none =
          sym (ap (λ b. if b then some y.1 else find Q.equal x.0 xs) f) ∙ h in
        elim (Bool-cases (Q.equal y.0 k)) [
          | inl s ↦ elim (Bool-cases (Q.equal x.0 k)) [
            | inl t ↦
                let e : y.0 ≡ x.0 = same_key Q y.0 k s ∙ sym (same_key Q x.0 k t) in
                cc (f, (Q.equal_iff y.0 x.0).1 e)
            | inr g ↦ rw (s, g) refl
          ]
          | inr g ↦ rw g (find-snoc k x xs h')
        ]
  ]

  pub Distinct-snoc :
      (x : U × ℕ) (xs : List (U × ℕ))
      → find Q.equal x.0 xs ≡ none
      → Distinct Q xs
      → Distinct Q (xs ++ x ∷ [])
  Distinct-snoc x [] h d = (refl, tt)
  Distinct-snoc x (y ∷ xs) h d = elim (Bool-cases (Q.equal y.0 x.0)) [
    | inl t ↦ cc (h, ap (λ b. if b then some y.1 else find Q.equal x.0 xs) t)
    | inr f ↦
        let h' : find Q.equal x.0 xs ≡ none =
          sym (ap (λ b. if b then some y.1 else find Q.equal x.0 xs) f) ∙ h in
        (
          find-snoc y.0 x xs h' ∙ elim (Bool-cases (Q.equal x.0 y.0)) [
            | inl t ↦
                let e : x.0 ≡ y.0 = same_key Q x.0 y.0 t in cc ((Q.equal_iff y.0 x.0).1 (sym e))
            | inr g ↦ rw g d.0
          ],
          Distinct-snoc x xs h' d.1,
        )
  ]
