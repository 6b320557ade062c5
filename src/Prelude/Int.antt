-- ===== src/Prelude/Int.antt =====
-- Signed results of system calls (`ssize_t`, `int`).
use Prim.Native.Nat.{ℕ}

-- `negsuc n` is -(n + 1).
pub data ℤ : Type 0 where
  pos : ℕ → ℤ
  negsuc : ℕ → ℤ
