-- ===== src/Prelude/Integers.antt =====
-- Python's integers, for what a request's body may carry.
use Prim.Native.Nat.{ℕ}
use mathlib.Core.Bool.{Bool, false, ◌&&◌}
use over_under.Prelude.Tests.{ltb, leb}

-- `negsuc n` is -(n + 1).
pub data ℤ : Type 0 where
  pos negsuc : ℕ → ℤ

-- `low <= z < high`
abbrev pub between : ℕ → ℕ → ℤ → Bool
between low high (pos n) = leb low n && ltb n high
between low high (negsuc n) = false

-- The number of an integer that has passed such a test.
abbrev pub natural : ℤ → ℕ
natural (pos n) = n
natural (negsuc n) = 0
