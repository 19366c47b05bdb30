-- ===== src/Base/Int.antt =====
-- Signed integers, as data: Go's `int` where the code only stores and passes it on.
use Prim.Native.Nat.{ℕ}

-- `negsuc n` is -(n + 1).
pub data ℤ : Type 0 where
  pos : ℕ → ℤ
  negsuc : ℕ → ℤ
