-- ===== src/Optimistic/OrderedSet/Examples.antt =====
-- A set of numbers with room in its array.
use veracity.Base.{ℕ, ◌≡◌, refl, true, false, [], ◌∷◌, arith, ltb}
use veracity.Optimistic.OrderedSet.{
  OrderedSet, compare_less, members, add, delete, insert_elem, delete_elem, has, view,
}
use veracity.Optimistic.OrderedSet.Order.{IsStrictOrder}
use veracity.Optimistic.OrderedSet.Laws.{IsOrdered, add-Adds, delete-Deletes}
use veracity.Optimistic.OrderedSet.Snapshots.{snapshot-delete}

ltb_trans : (a b c : ℕ) → ltb a b ≡ true → ltb b c ≡ true → ltb a c ≡ true
ltb_trans a b c p q = ground arith

ltb_irrefl : (a : ℕ) → ltb a a ≡ false
ltb_irrefl a = ground arith

ltb_connex : (a b : ℕ) → ltb a b ≡ false → ltb b a ≡ false → a ≡ b
ltb_connex a b p q = ground arith

pub ltb-IsStrictOrder : IsStrictOrder ltb
ltb-IsStrictOrder = record { irrefl = ltb_irrefl; trans = ltb_trans; connex = ltb_connex }

abbrev pub odds : OrderedSet ℕ
odds = record { arrays = (1 ∷ 3 ∷ 5 ∷ 0 ∷ []) ∷ []; slice = record { array = 0; len = 3 } }

pub odds-IsOrdered : IsOrdered ltb odds
odds-IsOrdered = record {
  valid = record { allocated = omega arith; within = omega arith };
  sorted = unfold members in ((refl, (refl, tt)), ((refl, tt), (tt, tt)));
}

add_then_delete :
    members (delete 0 (compare_less ltb) 3 (add 0 (λ n. n) (compare_less ltb) 4 odds))
    ≡ 1 ∷ 4 ∷ 5 ∷ []
unfolding add delete compare_less insert_elem delete_elem
add_then_delete = refl

add-Adds_example : has (compare_less ltb) 4 (add 0 (λ n. n) (compare_less ltb) 4 odds) ≡ true
unfolding has compare_less
add-Adds_example = (add-Adds 0 (λ n. n) ltb ltb-IsStrictOrder 4 odds odds-IsOrdered).1 4

delete-Deletes_example : has (compare_less ltb) 3 (delete 0 (compare_less ltb) 3 odds) ≡ false
unfolding has compare_less
delete-Deletes_example = (delete-Deletes 0 (λ n. n) ltb ltb-IsStrictOrder 3 odds odds-IsOrdered).1 3

snapshot-delete_example :
    view (delete 0 (compare_less ltb) 3 odds).arrays odds.slice ≡ 1 ∷ 5 ∷ 0 ∷ []
unfolding members
snapshot-delete_example = snapshot-delete 0 ltb ltb-IsStrictOrder 3 odds odds-IsOrdered refl
