-- ===== src/Optimistic/OrderedSet/Snapshots.antt =====
-- What a reader sees that took the members before a deletion (`Members`, `Value.Load`).
use veracity.Base.{ℕ, ◌≡◌, ◌<◌, ap, ◌∙◌, Bool, true, [], ◌∷◌, ◌++◌, arith, take, drop, ◌+◌}
use veracity.Optimistic.OrderedSet.{OrderedSet, compare_less, members, delete, delete_at, view}
use veracity.Optimistic.OrderedSet.Order.{IsStrictOrder, contains, rank, remove, take-remove}
use veracity.Optimistic.OrderedSet.Slices.{IsValid, view-delete_elem}
use veracity.Optimistic.OrderedSet.Laws.{IsOrdered, rank-lt-length, len-members, delete_lem}

module _ {M : Type 0} (zero_value : M) (less : M → M → Bool) (o : IsStrictOrder less) where
  view-delete_at :
      (m : M) (i : ℕ) (s : OrderedSet M)
      → IsValid s
      → i < s.slice.len
      → view (delete_at zero_value (compare_less less) m s (i, true)).arrays s.slice
        ≡ (take i (members s) ++ drop (i + 1) (members s)) ++ zero_value ∷ []
  unfolding delete_at
  view-delete_at m i s v h = view-delete_elem zero_value i s v h

  -- A slice of the members that was taken before `Delete` of a member changes under its holder: it
  -- shows the members that are left and then a cleared element.
  pub snapshot-delete :
      (m : M) (s : OrderedSet M)
      → IsOrdered less s
      → contains less m (members s) ≡ true
      → view (delete zero_value (compare_less less) m s).arrays s.slice
        ≡ remove less m (members s) ++ zero_value ∷ []
  snapshot-delete m s h c =
      let within : rank less m (members s) < s.slice.len =
        omega (arith, len-members less s h, rank-lt-length less m (members s) c) in
      ap (λ (t : OrderedSet M). view t.arrays s.slice)
        (delete_lem zero_value (λ n. n) less o m s h
          ∙ ap (λ b. delete_at zero_value (compare_less less) m s (rank less m (members s), b)) c)
      ∙ view-delete_at m (rank less m (members s)) s h.valid within
      ∙ ap (λ l. l ++ zero_value ∷ []) (take-remove less m (members s))
