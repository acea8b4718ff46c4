-- ===== src/Prelude/Int.antt =====
-- Python's `int` where it may be negative: `negsuc n` is -(n + 1).
use Prim.Native.Nat.{ℕ, zero, suc, ◌+◌}
use mathlib.Core.Bool.{Bool, false}
use tenantforge.Prelude.Tests.{leb}

pub data ℤ : Type 0 where
  pos : ℕ → ℤ
  negsuc : ℕ → ℤ

-- `i + 1`
abbrev pub suc_ℤ : ℤ → ℤ
suc_ℤ (pos n) = pos (n + 1)
suc_ℤ (negsuc zero) = pos 0
suc_ℤ (negsuc (suc n)) = negsuc n

-- `i >= n` for a natural number `n`.
abbrev pub at_least : ℤ → ℕ → Bool
at_least (pos i) n = leb n i
at_least (negsuc i) n = false
