-- ===== src/Prelude/Integers.antt =====
-- Integers over the native numbers, for differences that may be below 0.
use Prim.Native.Nat.{ℕ, ◌-◌}
use excubitor.Prelude.Tests.{leb, if◌then◌else◌}

pub data ℤ : Type 0 where
  pos : ℕ → ℤ
  negsuc : ℕ → ℤ

unfoldable pub difference : ℕ → ℕ → ℤ
difference m n = if leb n m then pos (m - n) else negsuc (n - m - 1)
