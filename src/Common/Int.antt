-- ===== src/Common/Int.antt =====
-- Signed integers over the native numbers: the values of Go's 64-bit `int`.
use Prim.Native.Nat.{ℕ, zero, suc, ◌+◌, ◌-◌, ◌^◌}
use nine_core.Common.Tests.{◌==◌, if◌then◌else◌}

-- `negsuc n` is -(n + 1).
pub data ℤ : Type 0 where
  pos : ℕ → ℤ
  negsuc : ℕ → ℤ

-- -n.
abbrev pub neg_ℕ : ℕ → ℤ
neg_ℕ zero = pos 0
neg_ℕ (suc n) = negsuc n

-- One past the largest value of `int`.
abbrev pub int_limit : ℕ
int_limit = 2 ^ 63

-- `n++` on an `int`: the largest value wraps to the smallest.
unfoldable pub incr : ℤ → ℤ
incr (pos n) = if n + 1 == int_limit then negsuc (int_limit - 1) else pos (n + 1)
incr (negsuc zero) = pos 0
incr (negsuc (suc n)) = negsuc n

-- A number where it is positive, and 0 elsewhere: `d <= 0` is `natural d == 0`.
abbrev pub natural : ℤ → ℕ
natural (pos n) = n
natural (negsuc n) = 0
