-- ===== src/Common/Int.antt =====
-- C `int` values that may be negative. `negsuc n` is -(n + 1).
use Prim.Native.Nat.{ℕ, zero, suc}
use mathlib.Core.Bool.{Bool, true, false}
use cs_453_concurrent_algori.Common.Tests.{◌==◌}

pub data ℤ : Type 0 where
  pos : ℕ → ℤ
  negsuc : ℕ → ℤ

-- `a == n` for a constant `n` that is not negative
abbrev pub is_pos : ℤ → ℕ → Bool
is_pos (pos a) n = a == n
is_pos (negsuc a) n = false

-- `a == -1`
abbrev pub is_minus_one : ℤ → Bool
is_minus_one (pos a) = false
is_minus_one (negsuc zero) = true
is_minus_one (negsuc (suc a)) = false

abbrev pub add_one : ℤ → ℤ
add_one (pos a) = pos (suc a)
add_one (negsuc zero) = pos 0
add_one (negsuc (suc a)) = negsuc a

abbrev pub sub_one : ℤ → ℤ
sub_one (pos zero) = negsuc 0
sub_one (pos (suc a)) = pos a
sub_one (negsuc a) = negsuc (suc a)
