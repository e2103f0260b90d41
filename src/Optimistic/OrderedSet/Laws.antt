-- ===== src/Optimistic/OrderedSet/Laws.antt =====
-- `Add`, `Delete` and `Has` are those of a set of members in order.
use veracity.Base.{
  ℕ, ◌≡◌, ◌<◌, ◌≤◌, refl, sym, ap, ◌∙◌, subst, Bool, true, false, not, ◌&&◌, ◌||◌, List, [], ◌∷◌,
  arith, if◌then◌else◌, Bool-cases, inl, inr, length,
}
use veracity.Optimistic.OrderedSet.{
  OrderedSet, compare_less, members, size, add, delete, has, add_at, delete_at,
}
use veracity.Optimistic.OrderedSet.Order.{
  IsStrictOrder, IsSorted, same, contains, rank, insert, remove, take-insert, take-remove,
  rank-le-length, insert-IsSorted, remove-IsSorted, contains-insert, contains-remove, contains_old,
  contains_absent,
}
use veracity.Optimistic.OrderedSet.Search.{binary_search_lem}
use veracity.Optimistic.OrderedSet.Slices.{
  IsValid, size-length, members-insert_elem, insert_elem-IsValid, members-delete_elem,
  delete_elem-IsValid,
}

module _ {M : Type 0} (less : M → M → Bool) where
  pub rank-lt-length :
      (m : M) (xs : List M) → contains less m xs ≡ true → rank less m xs < length xs
  rank-lt-length m [] c = cc
  rank-lt-length m (x ∷ xs) c = elim (Bool-cases (less x m)) [
    | inl t ↦ rw t (ground (arith, rank-lt-length m xs))
    | inr f ↦ rw f (omega arith)
  ]

  -- The slice is within its array, and its members are in order.
  pub record IsOrdered (s : OrderedSet M) : Type 0 where
    pub valid : IsValid s
    pub sorted : IsSorted less (members s)

  pub has_lem :
      (o : IsStrictOrder less) (y : M) (s : OrderedSet M)
      → IsOrdered s
      → has (compare_less less) y s ≡ contains less y (members s)
  unfolding has
  has_lem o y s h = ap (λ (r : ℕ × Bool). r.1) (binary_search_lem less o y (members s) h.sorted)

  pub len-members : (s : OrderedSet M) → IsOrdered s → s.slice.len ≡ length (members s)
  len-members s h = unfold size in size-length s h.valid

module _ {M : Type 0} (zero_value : M) (grow : ℕ → ℕ) (less : M → M → Bool)
    (o : IsStrictOrder less) where
  pub add_lem :
      (m : M) (s : OrderedSet M)
      → IsOrdered less s
      → add zero_value grow (compare_less less) m s
        ≡ add_at zero_value grow
            (compare_less less)
            m
            s
            (rank less m (members s), contains less m (members s))
  add_lem m s h =
      unfold add in
      ap (add_at zero_value grow (compare_less less) m s)
        (binary_search_lem less o m (members s) h.sorted)

  pub delete_lem :
      (m : M) (s : OrderedSet M)
      → IsOrdered less s
      → delete zero_value (compare_less less) m s
        ≡ delete_at zero_value
            (compare_less less)
            m
            s
            (rank less m (members s), contains less m (members s))
  delete_lem m s h =
      unfold delete in
      ap (delete_at zero_value (compare_less less) m s)
        (binary_search_lem less o m (members s) h.sorted)

  added :
      (m : M) (s : OrderedSet M) (b : Bool)
      → IsOrdered less s
      → contains less m (members s) ≡ b
      → let s' = add_at zero_value grow (compare_less less) m s (rank less m (members s), b) in
        IsOrdered less s'
        × ((y : M) → contains less y (members s') ≡ (same less m y || contains less y (members s)))
  added m s true h e = unfold add_at in (h, λ y. contains_old less o m y (members s) e)
  added m s false h e =
      unfold add_at in
      let within : rank less m (members s) ≤ s.slice.len =
        omega (arith, len-members less s h, rank-le-length less m (members s)) in
      let q =
        members-insert_elem zero_value grow (rank less m (members s)) m s h.valid within
        ∙ take-insert less m (members s) in
      (
        record {
          valid = insert_elem-IsValid zero_value grow (rank less m (members s)) m s h.valid within;
          sorted = subst (IsSorted less) (sym q) (insert-IsSorted less o m (members s) h.sorted e);
        },
        λ y. ap (contains less y) q ∙ contains-insert less o y m (members s),
      )

  deleted :
      (m : M) (s : OrderedSet M) (b : Bool)
      → IsOrdered less s
      → contains less m (members s) ≡ b
      → let s' = delete_at zero_value (compare_less less) m s (rank less m (members s), b) in
        IsOrdered less s'
        × ((y : M)
            → contains less y (members s') ≡ (contains less y (members s) && not (same less m y)))
  deleted m s false h e = unfold delete_at in (h, λ y. contains_absent less o m y (members s) e)
  deleted m s true h e =
      unfold delete_at in
      let within : rank less m (members s) < s.slice.len =
        omega (arith, len-members less s h, rank-lt-length less m (members s) e) in
      let q =
        members-delete_elem zero_value (rank less m (members s)) s h.valid within
        ∙ take-remove less m (members s) in
      (
        record {
          valid = delete_elem-IsValid zero_value (rank less m (members s)) s h.valid within;
          sorted = subst (IsSorted less) (sym q) (remove-IsSorted less o m (members s) h.sorted);
        },
        λ y. ap (contains less y) q ∙ contains-remove less o y m (members s) h.sorted e,
      )

  members-add_at :
      (m : M) (s : OrderedSet M) (b : Bool)
      → IsOrdered less s
      → contains less m (members s) ≡ b
      → members (add_at zero_value grow (compare_less less) m s (rank less m (members s), b))
        ≡ (if b then members s else insert less m (members s))
  members-add_at m s true h e = unfold add_at in refl
  members-add_at m s false h e =
      unfold add_at in
      let within : rank less m (members s) ≤ s.slice.len =
        omega (arith, len-members less s h, rank-le-length less m (members s)) in
      members-insert_elem zero_value grow (rank less m (members s)) m s h.valid within
      ∙ take-insert less m (members s)

  members-delete_at :
      (m : M) (s : OrderedSet M) (b : Bool)
      → IsOrdered less s
      → contains less m (members s) ≡ b
      → members (delete_at zero_value (compare_less less) m s (rank less m (members s), b))
        ≡ (if b then remove less m (members s) else members s)
  members-delete_at m s false h e = unfold delete_at in refl
  members-delete_at m s true h e =
      unfold delete_at in
      let within : rank less m (members s) < s.slice.len =
        omega (arith, len-members less s h, rank-lt-length less m (members s) e) in
      members-delete_elem zero_value (rank less m (members s)) s h.valid within
      ∙ take-remove less m (members s)

  pub members-add :
      (m : M) (s : OrderedSet M)
      → IsOrdered less s
      → members (add zero_value grow (compare_less less) m s)
        ≡ (if contains less m (members s) then members s else insert less m (members s))
  members-add m s h = ap members (add_lem m s h) ∙ members-add_at m s _ h refl

  pub members-delete :
      (m : M) (s : OrderedSet M)
      → IsOrdered less s
      → members (delete zero_value (compare_less less) m s)
        ≡ (if contains less m (members s) then remove less m (members s) else members s)
  members-delete m s h = ap members (delete_lem m s h) ∙ members-delete_at m s _ h refl

  -- `Add` of a member to a set in order: the set is in order again, and has just the members that it
  -- had and the new one, whether or not that was there and whether or not the array had room.
  pub add-Adds :
      (m : M) (s : OrderedSet M)
      → IsOrdered less s
      → let s' = add zero_value grow (compare_less less) m s in
        IsOrdered less s'
        × ((y : M) → has (compare_less less) y s' ≡ (same less m y || has (compare_less less) y s))
  add-Adds m s h =
      let (h', c) =
        subst
          (λ t.
            IsOrdered less t
            × ((y : M)
                → contains less y (members t) ≡ (same less m y || contains less y (members s))))
          (sym (add_lem m s h)) (added m s (contains less m (members s)) h refl) in
      (
        h',
        λ y.
            has_lem less o y _ h' ∙ c y ∙ ap (λ b. same less m y || b) (sym (has_lem less o y s h)),
      )

  -- `Delete` of a member from a set in order: the set is in order again, and has just the members
  -- that it had but the deleted one, whether or not that was there.
  pub delete-Deletes :
      (m : M) (s : OrderedSet M)
      → IsOrdered less s
      → let s' = delete zero_value (compare_less less) m s in
        IsOrdered less s'
        × ((y : M)
            → has (compare_less less) y s' ≡ (has (compare_less less) y s && not (same less m y)))
  delete-Deletes m s h =
      let (h', c) =
        subst
          (λ t.
            IsOrdered less t
            × ((y : M)
                → contains less y (members t)
                  ≡ (contains less y (members s) && not (same less m y))))
          (sym (delete_lem m s h)) (deleted m s (contains less m (members s)) h refl) in
      (
        h',
        λ y.
            has_lem less o y _ h'
            ∙ c y
            ∙ ap (λ b. b && not (same less m y)) (sym (has_lem less o y s h)),
      )
