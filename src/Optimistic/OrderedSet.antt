-- ===== src/Optimistic/OrderedSet.antt =====
-- internal/optimistic/orderedset.go: the ordered set, with the slices and arrays that it shares with
-- its readers.
--
-- A slice is an array and a length; an array's capacity is its length, and a slice begins where its
-- array begins. `slices.BinarySearchFunc`, `slices.Insert` and `slices.Delete` are those of Go's
-- standard library. An operation is one undisturbed round of `Value.Apply`: the callback, which may
-- write to the array in place, and the swap. `grow` is the spare room that the runtime gives a new
-- array, and `zero_value` fills it.
pub mod Order
pub mod Search
pub mod Slices
pub mod Laws
pub mod Snapshots
pub mod Examples
use veracity.Base.{
  ℕ, zero, suc, ◌+◌, ◌-◌, ◌/◌, Bool, true, false, List, [], ◌∷◌, ◌++◌, Option, none, some, Ordering,
  length, get_elem?, take, drop, replicate, set, get_or, ltb, ◌==◌, if◌then◌else◌,
}

-- `LessComparator.Compare`: `-1`, `+1` and `0` are `lt`, `gt` and `eq`. `OrderedComparator.Compare`
-- makes the same tests with `<` and `>`.
unfoldable pub compare_less : {M : Type 0} → (M → M → Bool) → M → M → Ordering
compare_less less a b =
    if less a b then Ordering.lt else if less b a then Ordering.gt else Ordering.eq

pub record Slice : Type 0 where
  pub array : ℕ
  pub len : ℕ

pub record OrderedSet (M : Type 0) : Type 0 where
  pub arrays : List (List M)
  pub slice : Slice

module _ {M : Type 0} where
  abbrev pub array_of : List (List M) → Slice → List M
  array_of arrays s = get_or arrays s.array []

  -- The elements that a holder of the slice sees.
  abbrev pub view : List (List M) → Slice → List M
  view arrays s = take s.len (array_of arrays s)

  abbrev test_at : (M → Ordering) → Option M → Bool
  test_at cmp none = false
  test_at cmp (some x) = elim (cmp x) [ Ordering.lt ↦ true | _ ↦ false ]

  abbrev equal_at : (M → Ordering) → Option M → Bool
  equal_at cmp none = false
  equal_at cmp (some x) = elim (cmp x) [ Ordering.eq ↦ true | _ ↦ false ]

  -- The loop of `BinarySearchFunc`; each round moves an end, so the length is enough fuel.
  unfoldable pub search_loop : ℕ → (M → Ordering) → List M → ℕ → ℕ → ℕ
  search_loop zero cmp xs i j = i
  search_loop (suc fuel) cmp xs i j =
      let h = (i + j) / 2 in
      let right = search_loop fuel cmp xs (h + 1) j in
      let left = search_loop fuel cmp xs i h in
      if ltb i j then (if test_at cmp (get_elem? xs h) then right else left) else i

  unfoldable pub binary_search : (M → Ordering) → List M → ℕ × Bool
  unfolding search_loop
  binary_search cmp xs =
      let i = search_loop (length xs) cmp xs 0 (length xs) in (i, equal_at cmp (get_elem? xs i))

  -- `slices.Insert` of one element.
  unfoldable pub insert_elem : M → (ℕ → ℕ) → ℕ → M → OrderedSet M → OrderedSet M
  insert_elem zero_value grow i m s =
      let n = s.slice.len in
      let array = array_of s.arrays s.slice in
      let content = take i array ++ m ∷ drop i (take n array) in
      if ltb (length array) (n + 1)
      then record {
        arrays = s.arrays ++ (content ++ replicate (grow n) zero_value) ∷ [];
        slice = record { array = length s.arrays; len = n + 1 };
      }
      else record {
        arrays = set s.arrays s.slice.array (content ++ drop (n + 1) array);
        slice = record { array = s.slice.array; len = n + 1 };
      }

  -- `slices.Delete` of one element, which clears the place at the end.
  unfoldable pub delete_elem : M → ℕ → OrderedSet M → OrderedSet M
  delete_elem zero_value i s =
      let n = s.slice.len in
      let array = array_of s.arrays s.slice in
      record {
        arrays =
            set s.arrays s.slice.array
              (take i array ++ drop (i + 1) (take n array) ++ zero_value ∷ drop n array);
        slice = record { array = s.slice.array; len = n - 1 };
      }

  -- `Members`, and what `Len` counts.
  unfoldable pub members : OrderedSet M → List M
  members s = view s.arrays s.slice

  unfoldable pub size : OrderedSet M → ℕ
  size s = s.slice.len

module _ {M : Type 0} (zero_value : M) (grow : ℕ → ℕ) (compare : M → M → Ordering) where
  unfoldable pub add_at : M → OrderedSet M → ℕ × Bool → OrderedSet M
  add_at m s (i, true) = s
  add_at m s (i, false) = insert_elem zero_value grow i m s

  unfoldable pub add : M → OrderedSet M → OrderedSet M
  unfolding add_at binary_search members
  add m s = add_at m s (binary_search (λ x. compare x m) (members s))

module _ {M : Type 0} (zero_value : M) (compare : M → M → Ordering) where
  unfoldable pub delete_at : M → OrderedSet M → ℕ × Bool → OrderedSet M
  delete_at m s (i, true) = delete_elem zero_value i s
  delete_at m s (i, false) = s

  unfoldable pub delete : M → OrderedSet M → OrderedSet M
  unfolding delete_at binary_search members
  delete m s = delete_at m s (binary_search (λ x. compare x m) (members s))

unfoldable pub has : {M : Type 0} → (M → M → Ordering) → M → OrderedSet M → Bool
unfolding binary_search members
has compare m s = (binary_search (λ x. compare x m) (members s)).1
