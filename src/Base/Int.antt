-- ===== src/Base/Int.antt =====
-- Signed integers over the native numbers, under the library's names, for the values of `int`.
use Prim.Native.Nat.{ℕ}
use mathlib.Core.Bool.{Bool, true}
use sp_hw.Base.Tests.{◌==◌}

-- `negsuc n` is -(n + 1).
pub data ℤ : Type 0 where
  pos : ℕ → ℤ
  negsuc : ℕ → ℤ

-- `i <= 0`
abbrev pub nonpositive : ℤ → Bool
nonpositive (pos n) = n == 0
nonpositive (negsuc n) = true
