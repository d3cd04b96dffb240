-- ===== src/Prelude/Signed.antt =====
-- Signed counts, as the durations of std::chrono have.
use Prim.Native.Nat.{ℕ}

-- `negsuc n` is -(n + 1).
pub data ℤ : Type 0 where
  pos negsuc : ℕ → ℤ
