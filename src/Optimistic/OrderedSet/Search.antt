-- ===== src/Optimistic/OrderedSet/Search.antt =====
-- The binary search finds the rank of its target in a sorted list.
use veracity.Base.{
  ℕ, zero, suc, ◌≡◌, ◌<◌, ◌≤◌, ◌+◌, ◌/◌, refl, Bool, false, List, [], ◌∷◌, All, arith, Bool-cases,
  inl, inr, length, get_elem?, ltb, ltb→lt, ltb→le, Ordering,
}
use veracity.Optimistic.OrderedSet.{compare_less, test_at, equal_at, search_loop, binary_search}
use veracity.Optimistic.OrderedSet.Order.{
  IsStrictOrder, IsSorted, contains, rank, rank-le-length, not_contains, All-not_less, All-less,
}

module _ {M : Type 0} (less : M → M → Bool) (o : IsStrictOrder less) (m : M) where
  abbrev cmp : M → Ordering
  cmp x = compare_less less x m

  test-All :
      (xs : List M) (h : ℕ) → All (λ y. less y m ≡ false) xs → test_at cmp (get_elem? xs h) ≡ false
  test-All [] h a = refl
  test-All (x ∷ xs) zero a = unfold compare_less in ground arith
  test-All (x ∷ xs) (suc h) a = test-All xs h a.1

  test-rank :
      (xs : List M) (h : ℕ)
      → IsSorted less xs
      → h < length xs
      → test_at cmp (get_elem? xs h) ≡ ltb h (rank less m xs)
  test-rank [] h s lt = elim lt [ ]
  test-rank (x ∷ xs) zero s lt = unfold compare_less in ground arith
  test-rank (x ∷ xs) (suc h) s lt = elim (Bool-cases (less x m)) [
    | inl t ↦ rw t (ground (arith, test-rank xs h s.1 (omega arith)))
    | inr f ↦ rw f (ground (arith, test-All xs h (All-not_less less o x m xs f s.0)))
  ]

  search_loop-rank :
      (xs : List M) (fuel i j : ℕ)
      → IsSorted less xs
      → i ≤ rank less m xs
      → rank less m xs ≤ j
      → j ≤ length xs
      → j ≤ i + fuel
      → search_loop fuel cmp xs i j ≡ rank less m xs
  unfolding search_loop
  search_loop-rank xs zero i j s a b c f = omega arith
  search_loop-rank xs (suc fuel) i j s a b c f = elim (Bool-cases (ltb i j)) [
    | inl t ↦ elim (Bool-cases (ltb ((i + j) / 2) (rank less m xs))) [
      | inl right ↦
          rw (t, test-rank xs ((i + j) / 2) s (omega (arith, ltb→lt i j t)), right)
            (search_loop-rank xs fuel ((i + j) / 2 + 1) j s (omega (arith, ltb→lt _ _ right)) b c
              (omega (arith, ltb→lt i j t)))
      | inr left ↦
          rw (t, test-rank xs ((i + j) / 2) s (omega (arith, ltb→lt i j t)), left)
            (search_loop-rank xs fuel i ((i + j) / 2) s a (omega (arith, ltb→le _ _ left))
              (omega (arith, ltb→lt i j t)) (omega (arith, ltb→lt i j t)))
    ]
    | inr n ↦ rw n (omega (arith, ltb→le i j n))
  ]

  equal-contains :
      (xs : List M)
      → IsSorted less xs
      → equal_at cmp (get_elem? xs (rank less m xs)) ≡ contains less m xs
  equal-contains [] s = refl
  equal-contains (x ∷ xs) s = elim (Bool-cases (less x m)) [
    | inl t ↦ rw t (equal-contains xs s.1)
    | inr f ↦ rw f (
        unfold compare_less in
        elim (Bool-cases (less m x)) [
          | inl l ↦ ground (arith, not_contains less o m xs (All-less less o m x xs l s.0))
          | inr n ↦ ground arith
        ])
  ]

  -- In a sorted list the search gives the place of the target and whether it is there.
  pub binary_search_lem :
      (xs : List M) → IsSorted less xs → binary_search cmp xs ≡ (rank less m xs, contains less m xs)
  unfolding binary_search
  binary_search_lem xs s =
      let e =
        search_loop-rank xs (length xs) 0 (length xs) s (omega arith) (rank-le-length less m xs)
          (omega arith) (omega arith) in
      rw (e, equal-contains xs s)
