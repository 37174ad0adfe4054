-- ===== src/Prelude/Int.antt =====
-- The integers, as far as the program's data needs them: `negsuc n` is -(n + 1).
use Prim.Native.Nat.{ℕ}

pub data ℤ : Type 0 where
  pos : ℕ → ℤ
  negsuc : ℕ → ℤ
