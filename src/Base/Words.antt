-- ===== src/Base/Words.antt =====
-- int64 as its bit pattern, a number below 2 ^ 64, with the wrap-around of Go's `+`.
use Prim.Native.Nat.{ℕ, ◌+◌, ◌%◌, ◌^◌, ◌<◌}
use native.Mathlib.Omega.{arith}

abbrev pub Int64 : Type 0
Int64 = ℕ

abbrev pub int64_mod : ℕ
int64_mod = 2 ^ 64

unfoldable pub add64 : Int64 → Int64 → Int64
add64 a b = (a + b) % int64_mod

pub add64-lt : (a b : Int64) → add64 a b < int64_mod
unfolding add64
add64-lt a b = omega arith
