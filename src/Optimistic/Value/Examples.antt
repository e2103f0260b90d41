-- ===== src/Optimistic/Value/Examples.antt =====
-- A counter that another goroutine changes between the load and the swap.
use veracity.Base.{ℕ, ◌+◌, Bool, true, [], ◌∷◌, none, some, ◌≡◌, refl}
use veracity.Optimistic.Value.{Value, returned, publish, apply}
use veracity.Optimistic.Value.Linearization.{Linearized, apply-Linearized, Returns, apply-Returns}

abbrev counter : Value ℕ
counter = record { p = none; next = 0 }

abbrev increment : ℕ → ℕ × Bool
increment n = (n + 1, true)

-- The first round is disturbed by two publications.
disturbed :
    apply 0 increment ((5 ∷ 7 ∷ []) ∷ [] ∷ []) counter
    ≡ returned 8 true (record { p = some (record { address = 2; target = 8 }); next = 3 })
unfolding apply publish
disturbed = refl

apply-Linearized_example :
    Linearized 0 increment
      ((5 ∷ 7 ∷ []) ∷ [] ∷ [])
      counter
      (apply 0 increment ((5 ∷ 7 ∷ []) ∷ [] ∷ []) counter)
apply-Linearized_example = apply-Linearized 0 increment ((5 ∷ 7 ∷ []) ∷ [] ∷ []) counter tt

apply-Returns_example : Returns 0 increment (apply 0 increment ((5 ∷ 7 ∷ []) ∷ [] ∷ []) counter)
apply-Returns_example = apply-Returns 0 increment ((5 ∷ 7 ∷ []) ∷ []) [] counter
