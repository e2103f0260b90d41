-- ===== src/Base/Integers.antt =====
-- The integers over the native numbers, as far as durations need them.
use Prim.Native.Nat.{ℕ}

pub data ℤ : Type 0 where
  pos : ℕ → ℤ
  negsuc : ℕ → ℤ
