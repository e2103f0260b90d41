-- ===== src/Base/Errors.antt =====
-- What a Go call gives back: a value, an error, or a panic.
use Prim.Native.Nat.{ℕ}

-- The errors of the sources by name; those of the libraries, of contexts and of the application by
-- a number.
pub data Error : Type 0 where
  shutting_down : Error
  nack : Error
  unregistered_node : Error
  expired_registration : Error
  not_found : Error
  external : ℕ → Error

pub data Outcome {ℓ} (A : Type ℓ) : Type ℓ where
  ok : A → Outcome A
  err : Error → Outcome A
  panic : Outcome A
