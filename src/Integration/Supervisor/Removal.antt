-- ===== src/Integration/Supervisor/Removal.antt =====
-- The deletion of the operations that a record completes (internal/integration/supervisor.go, `recover`),
-- against a test of all elements.
use veracity.Base.{
  ◌≡◌, refl, ap, ◌∙◌, subst, Bool, true, false, List, [], ◌∷◌, ◌++◌, All, Bool-cases, if◌then◌else◌,
  append-nil, inl, inr,
}
use veracity.Integration.Pending.{delete_first}

module _ {T U : Type 0} (id : T → U) (equal : U → U → Bool) where
  -- The list without the elements that pass the test.
  abbrev pub without : (T → Bool) → List T → List T
  without f [] = []
  without f (x ∷ xs) = if f x then without f xs else x ∷ without f xs

  -- The ids of the list before those of `rest`.
  abbrev pub ids_before : List T → List U → List U
  ids_before [] rest = rest
  ids_before (x ∷ xs) rest = id x ∷ ids_before xs rest

  abbrev pub Distinct : List U → Type 0
  Distinct [] = Unit
  Distinct (u ∷ us) = All (λ v. equal v u ≡ false) us × Distinct us

  without_none : (xs : List T) → without (λ _. false) xs ≡ xs
  without_none [] = refl
  without_none (x ∷ xs) = ap (◌∷◌ x) (without_none xs)

  pub kept_all : (xs : List T) → without (λ _. false) xs ++ [] ≡ xs
  kept_all xs = append-nil (without (λ _. false) xs) ∙ without_none xs

  pub without_last :
      (f : T → Bool) (xs : List T) (x : T) (rest : List T)
      → without f (xs ++ x ∷ []) ++ rest ≡ without f xs ++ (if f x then rest else x ∷ rest)
  without_last f [] x rest = elim (Bool-cases (f x)) [ inl t ↦ rw t refl | inr n ↦ rw n refl ]
  without_last f (y ∷ ys) x rest = elim (Bool-cases (f y)) [
    | inl t ↦ rw t (without_last f ys x rest)
    | inr n ↦ rw n (ap (◌∷◌ y) (without_last f ys x rest))
  ]

  pub ids_last :
      (xs : List T) (x : T) (rest : List U)
      → ids_before (xs ++ x ∷ []) rest ≡ ids_before xs (id x ∷ rest)
  ids_last [] x rest = refl
  ids_last (y ∷ ys) x rest = ap (◌∷◌ (id y)) (ids_last ys x rest)

  All-delete_first :
      (P : U → Type 0) (f : T → Bool) (xs : List T) (rest : List U)
      → All P (ids_before xs rest)
      → All P (ids_before (delete_first f xs) rest)
  unfolding delete_first
  All-delete_first P f [] rest h = h
  All-delete_first P f (x ∷ xs) rest h = elim (Bool-cases (f x)) [
    | inl t ↦ rw t h.1
    | inr n ↦ rw n (h.0, All-delete_first P f xs rest h.1)
  ]

  pub delete_first-Distinct :
      (f : T → Bool) (xs : List T) (rest : List U)
      → Distinct (ids_before xs rest)
      → Distinct (ids_before (delete_first f xs) rest)
  unfolding delete_first
  delete_first-Distinct f [] rest h = h
  delete_first-Distinct f (x ∷ xs) rest h = elim (Bool-cases (f x)) [
    | inl t ↦ rw t h.1
    | inr n ↦ rw n (
      All-delete_first (λ v. equal v (id x) ≡ false) f xs rest h.0,
      delete_first-Distinct f xs rest h.1,
    )
  ]

  -- Two tests that differ only in whether `u` passes.
  module _ (u : U) (f g : T → Bool) (same : (x : T) → equal (id x) u ≡ false → f x ≡ g x)
      (passes : (x : T) → equal (id x) u ≡ true → f x ≡ true)
      (equal_id : (x : T) → equal (id x) u ≡ true → id x ≡ u) where
    without_absent :
        (xs : List T) (rest : List U)
        → All (λ v. equal v u ≡ false) (ids_before xs rest)
        → without f xs ≡ without g xs
    without_absent [] rest h = refl
    without_absent (x ∷ xs) rest h =
        let e = without_absent xs rest h.1 in rw (same x h.0) (ap (λ l. if g x then l else x ∷ l) e)

    pub without-delete_first :
        (xs : List T) (rest : List U)
        → Distinct (ids_before xs rest)
        → without f xs ≡ without g (delete_first (λ x. equal (id x) u) xs)
    unfolding delete_first
    without-delete_first [] rest h = refl
    without-delete_first (x ∷ xs) rest h = elim (Bool-cases (equal (id x) u)) [
      | inl t ↦ rw t (
          rw (passes x t) (
            without_absent xs rest
              (subst (λ w. All (λ v. equal v w ≡ false) (ids_before xs rest)) (equal_id x t) h.0)))
      | inr n ↦
          rw n
            (rw (same x n) (ap (λ l. if g x then l else x ∷ l) (without-delete_first xs rest h.1)))
    ]
