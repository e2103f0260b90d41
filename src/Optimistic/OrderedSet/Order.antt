-- ===== src/Optimistic/OrderedSet/Order.antt =====
-- Sorted lists of distinct members, and the operations that the set promises.
use veracity.Base.{
  ℕ, suc, ◌≡◌, ◌≤◌, refl, sym, ap, ◌∙◌, subst, Bool, true, false, not, ◌&&◌, ◌||◌, List, [], ◌∷◌,
  ◌++◌, All, arith, if◌then◌else◌, Bool-cases, inl, inr, length, take, drop, ◌+◌,
}

-- `Less` of the members, such as `(*UUID).Less`, is a strict total order.
pub record IsStrictOrder {M : Type 0} (less : M → M → Bool) : Type 0 where
  pub irrefl : (a : M) → less a a ≡ false
  pub trans : (a b c : M) → less a b ≡ true → less b c ≡ true → less a c ≡ true
  pub connex : (a b : M) → less a b ≡ false → less b a ≡ false → a ≡ b

module _ {M : Type 0} (less : M → M → Bool) where
  abbrev pub IsSorted : List M → Type 0
  IsSorted [] = Unit
  IsSorted (x ∷ xs) = All (λ y. less x y ≡ true) xs × IsSorted xs

  abbrev pub same : M → M → Bool
  same a b = not (less a b) && not (less b a)

  abbrev pub contains : M → List M → Bool
  contains m [] = false
  contains m (x ∷ xs) = same x m || contains m xs

  -- How many members stand before `m`.
  abbrev pub rank : M → List M → ℕ
  rank m [] = 0
  rank m (x ∷ xs) = if less x m then suc (rank m xs) else 0

  abbrev pub insert : M → List M → List M
  insert m [] = m ∷ []
  insert m (x ∷ xs) = if less x m then x ∷ insert m xs else m ∷ x ∷ xs

  abbrev pub remove : M → List M → List M
  remove m [] = []
  remove m (x ∷ xs) = if less x m then x ∷ remove m xs else xs

module _ {M : Type 0} (less : M → M → Bool) where
  pub take-insert :
      (m : M) (xs : List M)
      → take (rank less m xs) xs ++ m ∷ drop (rank less m xs) xs ≡ insert less m xs
  take-insert m [] = refl
  take-insert m (x ∷ xs) = ground (arith, take-insert m xs)

  pub take-remove :
      (m : M) (xs : List M)
      → take (rank less m xs) xs ++ drop (rank less m xs + 1) xs ≡ remove less m xs
  take-remove m [] = ground arith
  take-remove m (x ∷ xs) = ground (arith, take-remove m xs)

  pub rank-le-length : (m : M) (xs : List M) → rank less m xs ≤ length xs
  rank-le-length m [] = omega arith
  rank-le-length m (x ∷ xs) = ground (arith, rank-le-length m xs)

module _ {M : Type 0} (less : M → M → Bool) (o : IsStrictOrder less) where
  pub All-not_less :
      (x m : M) (xs : List M)
      → less x m ≡ false
      → All (λ y. less x y ≡ true) xs
      → All (λ y. less y m ≡ false) xs
  All-not_less x m [] h a = tt
  All-not_less x m (y ∷ ys) h a = (
    elim (Bool-cases (less y m)) [ inl t ↦ cc (o.trans x y m a.0 t) | inr f ↦ f ],
    All-not_less x m ys h a.1,
  )

  pub All-less :
      (m x : M) (xs : List M)
      → less m x ≡ true
      → All (λ y. less x y ≡ true) xs
      → All (λ y. less m y ≡ true) xs
  All-less m x [] h a = tt
  All-less m x (y ∷ ys) h a = (o.trans m x y h a.0, All-less m x ys h a.1)

  pub not_contains :
      (m : M) (xs : List M) → All (λ y. less m y ≡ true) xs → contains less m xs ≡ false
  not_contains m [] a = refl
  not_contains m (y ∷ ys) a = ground (arith, not_contains m ys a.1, a.0)

  All-insert :
      (z m : M) (xs : List M)
      → less z m ≡ true
      → All (λ y. less z y ≡ true) xs
      → All (λ y. less z y ≡ true) (insert less m xs)
  All-insert z m [] h a = (h, tt)
  All-insert z m (x ∷ xs) h a = elim (Bool-cases (less x m)) [
    | inl t ↦ rw t (a.0, All-insert z m xs h a.1)
    | inr f ↦ rw f (h, a)
  ]

  All-remove :
      (z m : M) (xs : List M)
      → All (λ y. less z y ≡ true) xs
      → All (λ y. less z y ≡ true) (remove less m xs)
  All-remove z m [] a = tt
  All-remove z m (x ∷ xs) a = elim (Bool-cases (less x m)) [
    | inl t ↦ rw t (a.0, All-remove z m xs a.1)
    | inr f ↦ rw f a.1
  ]

  less_of : (m x : M) → less x m ≡ false → same less x m ≡ false → less m x ≡ true
  less_of m x f n = ground arith

  pub insert-IsSorted :
      (m : M) (xs : List M)
      → IsSorted less xs
      → contains less m xs ≡ false
      → IsSorted less (insert less m xs)
  insert-IsSorted m [] s c = (tt, tt)
  insert-IsSorted m (x ∷ xs) s c = elim (Bool-cases (less x m)) [
    | inl t ↦ rw t (All-insert x m xs t s.0, insert-IsSorted m xs s.1 (ground arith))
    | inr f ↦ let l = less_of m x f (ground arith) in rw f ((l, All-less m x xs l s.0), s)
  ]

  pub remove-IsSorted : (m : M) (xs : List M) → IsSorted less xs → IsSorted less (remove less m xs)
  remove-IsSorted m [] s = tt
  remove-IsSorted m (x ∷ xs) s = elim (Bool-cases (less x m)) [
    | inl t ↦ rw t (All-remove x m xs s.0, remove-IsSorted m xs s.1)
    | inr f ↦ rw f s.1
  ]

  pub contains-insert :
      (y m : M) (xs : List M)
      → contains less y (insert less m xs) ≡ same less m y || contains less y xs
  contains-insert y m [] = refl
  contains-insert y m (x ∷ xs) = ground (arith, contains-insert y m xs)

  same_eq : (a b : M) → same less a b ≡ true → a ≡ b
  same_eq a b h = o.connex a b (ground arith) (ground arith)

  remove_here :
      (y m x : M) (xs : List M)
      → All (λ z. less x z ≡ true) xs
      → less x m ≡ false
      → contains less m (x ∷ xs) ≡ true
      → contains less y xs ≡ contains less y (x ∷ xs) && not (same less m y)
  remove_here y m x xs a f c = elim (Bool-cases (less m x)) [
    | inl l ↦ ground (arith, not_contains m xs (All-less m x xs l a))
    | inr n ↦
        let e = o.connex x m f n in
        elim (Bool-cases (same less x y)) [
          | inl s ↦ ground (
            arith,
            not_contains y xs (subst (λ z. All (λ w. less z w ≡ true) xs) (same_eq x y s) a),
            subst (λ z. same less z y ≡ true) e s,
          )
          | inr d ↦ ground (arith, subst (λ z. same less z y ≡ false) e d)
        ]
  ]

  apart : (x m y : M) → less x m ≡ true → same less x y ≡ true → same less m y ≡ false
  apart x m y l s =
      let e : less y m ≡ true = subst (λ z. less z m ≡ true) (same_eq x y s) l in ground arith

  pub contains-remove :
      (y m : M) (xs : List M)
      → IsSorted less xs
      → contains less m xs ≡ true
      → contains less y (remove less m xs) ≡ contains less y xs && not (same less m y)
  contains-remove y m [] s c = cc
  contains-remove y m (x ∷ xs) s c = elim (Bool-cases (less x m)) [
    | inl t ↦ rw t (ground (arith, contains-remove y m xs s.1, apart x m y t))
    | inr f ↦ rw f (remove_here y m x xs s.0 f c)
  ]

  same-contains :
      (m y : M) (xs : List M) → same less m y ≡ true → contains less m xs ≡ contains less y xs
  same-contains m y xs h = ap (λ z. contains less z xs) (same_eq m y h)

  -- A member that is there already, and one that is not.
  pub contains_old :
      (m y : M) (xs : List M)
      → contains less m xs ≡ true
      → contains less y xs ≡ (same less m y || contains less y xs)
  contains_old m y xs h = elim (Bool-cases (same less m y)) [
    | inl e ↦ rw e (sym (same-contains m y xs e) ∙ h)
    | inr n ↦ rw n
  ]

  pub contains_absent :
      (m y : M) (xs : List M)
      → contains less m xs ≡ false
      → contains less y xs ≡ (contains less y xs && not (same less m y))
  contains_absent m y xs h = elim (Bool-cases (same less m y)) [
    | inl e ↦ ground (arith, same-contains m y xs e)
    | inr n ↦ ground arith
  ]
