-- ===== src/Optimistic/Value.antt =====
-- internal/optimistic/value.go: `Value`, an atomic pointer that is replaced by compare-and-swap.
--
-- A pointer is its address with what it points to; `&after` has an address that nothing had before,
-- `next`. In `apply` each round of the loop is given the values that other goroutines publish between
-- its load and its compare-and-swap; `running` is a loop whose rounds were all given.
mod Linearization
mod Examples
use veracity.Base.{
  ℕ, ◌+◌, ◌<◌, Bool, true, false, List, [], ◌∷◌, Option, none, some, ◌==◌, if◌then◌else◌,
}

pub record Pointer (T : Type 0) : Type 0 where
  pub address : ℕ
  pub target : T

pub record Value (T : Type 0) : Type 0 where
  pub p : Option (Pointer T)
  pub next : ℕ

pub data Applied (T : Type 0) : Type 0 where
  returned : T → Bool → Value T → Applied T
  running : Value T → Applied T

module _ {T : Type 0} where
  -- Also `if p != nil { before = *p }`, which keeps `before` where `p` is nil.
  abbrev pub deref : T → Option (Pointer T) → T
  deref t none = t
  deref t (some q) = q.target

  -- `Load`; the first argument is the zero value of the type.
  unfoldable pub load : T → Value T → T
  load zero_value v = deref zero_value v.p

  abbrev pub same_pointer : Option (Pointer T) → Option (Pointer T) → Bool
  same_pointer none none = true
  same_pointer (some a) (some b) = a.address == b.address
  same_pointer _ _ = false

  unfoldable pub publish : T → Value T → Value T
  publish t v = record { p = some (record { address = v.next; target = t }); next = v.next + 1 }

  -- What other goroutines do.
  unfoldable pub publish_all : List T → Value T → Value T
  unfolding publish
  publish_all [] v = v
  publish_all (t ∷ ts) v = publish_all ts (publish t v)

  unfoldable pub compare_and_swap : Option (Pointer T) → T → Value T → Bool × Value T
  unfolding publish
  compare_and_swap old t v = if same_pointer old v.p then (true, publish t v) else (false, v)

  -- The test of the swap: the loop returns, or goes on with the rest of the rounds.
  unfoldable pub swapped : T → Bool × Value T → (Value T → Applied T) → Applied T
  swapped after (true, v) again = returned after true v
  swapped after (false, v) again = again v

  unfoldable pub attempt :
      T → T × Bool → Option (Pointer T) → List T → Value T → (Value T → Applied T) → Applied T
  unfolding swapped compare_and_swap publish_all
  attempt before (after, false) p others v again = returned before false v
  attempt before (after, true) p others v again =
      swapped after (compare_and_swap p after (publish_all others v)) again

  unfoldable pub apply_from : (T → T × Bool) → T → List (List T) → Value T → Applied T
  unfolding attempt
  apply_from fn before [] v = running v
  apply_from fn before (others ∷ rounds) v =
      attempt (deref before v.p) (fn (deref before v.p)) v.p others v
        (apply_from fn (deref before v.p) rounds)

  -- `Apply`.
  unfoldable pub apply : T → (T → T × Bool) → List (List T) → Value T → Applied T
  unfolding apply_from
  apply zero_value fn rounds v = apply_from fn zero_value rounds v
