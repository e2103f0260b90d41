-- ===== src/Optimistic/OrderedSet/Slices.antt =====
-- What `slices.Insert` and `slices.Delete` do to the members, as lists.
use veracity.Base.{
  ℕ, ◌≡◌, ◌<◌, ◌≤◌, ◌+◌, ◌-◌, sym, ap, ◌∙◌, subst, List, [], ◌∷◌, ◌++◌, arith, Bool-cases, inl, inr,
  length, ltb, take, drop, replicate, take-append, take-take, length-take, length-drop,
  length-append, get_or-set, get_or-append_last, append_assoc, length-set,
}
use veracity.Optimistic.OrderedSet.{
  OrderedSet, array_of, view, insert_elem, delete_elem, members, size,
}

module _ {M : Type 0} where
  -- The slice is one of the arrays, up to its capacity.
  pub record IsValid (s : OrderedSet M) : Type 0 where
    pub allocated : s.slice.array < length s.arrays
    pub within : s.slice.len ≤ length (array_of s.arrays s.slice)

  pub size-length : (s : OrderedSet M) → IsValid s → size s ≡ length (members s)
  unfolding size members
  size-length s v = sym (length-take s.slice.len (array_of s.arrays s.slice) v.within)

  take-exact : (n : ℕ) (xs ys : List M) → length xs ≡ n → take n (xs ++ ys) ≡ xs
  take-exact n xs ys e = subst (λ k. take k (xs ++ ys) ≡ xs) e (take-append xs ys)

  insert-eq :
      (i n : ℕ) (m : M) (xs : List M)
      → i ≤ n
      → take i xs ++ m ∷ drop i (take n xs) ≡ take i (take n xs) ++ m ∷ drop i (take n xs)
  insert-eq i n m xs h = ap (λ l. l ++ m ∷ drop i (take n xs)) (sym (take-take i n xs h))

  insert-length :
      (i n : ℕ) (m : M) (xs : List M)
      → i ≤ n
      → n ≤ length xs
      → length (take i xs ++ m ∷ drop i (take n xs)) ≡ n + 1
  insert-length i n m xs h k = omega (
    arith,
    length-append (take i xs) (m ∷ drop i (take n xs)),
    length-take i xs (omega arith),
    length-drop i (take n xs),
    length-take n xs k,
  )

  pub members-insert_elem :
      (zero_value : M) (grow : ℕ → ℕ) (i : ℕ) (m : M) (s : OrderedSet M)
      → IsValid s
      → i ≤ s.slice.len
      → members (insert_elem zero_value grow i m s) ≡ take i (members s) ++ m ∷ drop i (members s)
  unfolding members insert_elem
  members-insert_elem zero_value grow i m s v h =
      let array = array_of s.arrays s.slice in
      let n = s.slice.len in
      elim (Bool-cases (ltb (length array) (n + 1))) [
        | inl full ↦
            rw
              (
                full,
                get_or-append_last s.arrays
                    ((take i array ++ m ∷ drop i (take n array)) ++ replicate (grow n) zero_value)
                    [],
              )
              (take-exact (n + 1) _ _ (insert-length i n m array h v.within)
                ∙ insert-eq i n m array h)
        | inr room ↦
            rw
              (
                room,
                get_or-set s.arrays s.slice.array
                    ((take i array ++ m ∷ drop i (take n array)) ++ drop (n + 1) array) []
                    v.allocated,
              )
              (take-exact (n + 1) _ _ (insert-length i n m array h v.within)
                ∙ insert-eq i n m array h)
      ]

  pub insert_elem-IsValid :
      (zero_value : M) (grow : ℕ → ℕ) (i : ℕ) (m : M) (s : OrderedSet M)
      → IsValid s
      → i ≤ s.slice.len
      → IsValid (insert_elem zero_value grow i m s)
  unfolding insert_elem
  insert_elem-IsValid zero_value grow i m s v h =
      let array = array_of s.arrays s.slice in
      let n = s.slice.len in
      let content = take i array ++ m ∷ drop i (take n array) in
      elim (Bool-cases (ltb (length array) (n + 1))) [
        | inl full ↦ rw full (record {
          allocated =
              omega
                (arith, length-append s.arrays ((content ++ replicate (grow n) zero_value) ∷ []));
          within = rw (get_or-append_last s.arrays (content ++ replicate (grow n) zero_value) []) (
              omega (
                arith,
                length-append content (replicate (grow n) zero_value),
                insert-length i n m array h v.within,
              ));
        })
        | inr room ↦ rw room (record {
          allocated = omega (
            arith,
            v.allocated,
            length-set s.arrays s.slice.array (content ++ drop (n + 1) array),
          );
          within =
              rw (get_or-set s.arrays s.slice.array (content ++ drop (n + 1) array) [] v.allocated)
                (omega (
                  arith,
                  length-append content (drop (n + 1) array),
                  insert-length i n m array h v.within,
                ));
        })
      ]

  -- The array of a slice that lost the member at `i`: the members left, a cleared place, the rest.
  abbrev pub gap : M → ℕ → ℕ → List M → List M
  gap zero_value i n xs = take i xs ++ drop (i + 1) (take n xs) ++ zero_value ∷ drop n xs

  remove-length :
      (i n : ℕ) (xs : List M)
      → i < n
      → n ≤ length xs
      → length (take i xs ++ drop (i + 1) (take n xs)) ≡ n - 1
  remove-length i n xs h k = omega (
    arith,
    length-append (take i xs) (drop (i + 1) (take n xs)),
    length-take i xs (omega arith),
    length-drop (i + 1) (take n xs),
    length-take n xs k,
  )

  pub members-delete_elem :
      (zero_value : M) (i : ℕ) (s : OrderedSet M)
      → IsValid s
      → i < s.slice.len
      → members (delete_elem zero_value i s) ≡ take i (members s) ++ drop (i + 1) (members s)
  unfolding members delete_elem
  members-delete_elem zero_value i s v h =
      let array = array_of s.arrays s.slice in
      let n = s.slice.len in
      rw (get_or-set s.arrays s.slice.array (gap zero_value i n array) [] v.allocated) (
        take-exact (n - 1) _ _ (remove-length i n array h v.within)
        ∙ ap (λ l. l ++ drop (i + 1) (take n array)) (sym (take-take i n array (omega arith))))

  pub delete_elem-IsValid :
      (zero_value : M) (i : ℕ) (s : OrderedSet M)
      → IsValid s
      → i < s.slice.len
      → IsValid (delete_elem zero_value i s)
  unfolding delete_elem
  delete_elem-IsValid zero_value i s v h =
      let array = array_of s.arrays s.slice in
      let n = s.slice.len in
      record {
        allocated =
            omega
              (arith, v.allocated, length-set s.arrays s.slice.array (gap zero_value i n array));
        within = rw (get_or-set s.arrays s.slice.array (gap zero_value i n array) [] v.allocated) (
            omega (
              arith,
              length-append (take i array ++ drop (i + 1) (take n array))
                  (zero_value ∷ drop n array),
              remove-length i n array h v.within,
            ));
      }

  -- Who still holds the old slice.
  pub view-delete_elem :
      (zero_value : M) (i : ℕ) (s : OrderedSet M)
      → IsValid s
      → i < s.slice.len
      → view (delete_elem zero_value i s).arrays s.slice
        ≡ (take i (members s) ++ drop (i + 1) (members s)) ++ zero_value ∷ []
  unfolding members delete_elem
  view-delete_elem zero_value i s v h =
      let array = array_of s.arrays s.slice in
      let n = s.slice.len in
      let left = take i array ++ drop (i + 1) (take n array) in
      rw (get_or-set s.arrays s.slice.array (gap zero_value i n array) [] v.allocated) (
        ap (take n) (sym (append_assoc left (zero_value ∷ []) (drop n array)))
        ∙ take-exact n (left ++ zero_value ∷ []) _ (
            omega (arith, length-append left (zero_value ∷ []), remove-length i n array h v.within))
        ∙ ap (λ l. (l ++ drop (i + 1) (take n array)) ++ zero_value ∷ [])
            (sym (take-take i n array (omega arith))))
