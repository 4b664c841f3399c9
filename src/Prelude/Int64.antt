-- ===== src/Prelude/Int64.antt =====
-- Go's `int64` and `int` as bit patterns below 2 ^ 64 (two's complement).
use Prim.Native.Nat.{ℕ, ◌+◌, ◌%◌, ◌^◌, ◌<◌}
use mathlib.Core.Path.{◌≡◌}
use mathlib.Core.Logic.{◌≢◌}
use mathlib.Core.Bool.{Bool, ◌||◌}
use native.Mathlib.Omega.{arith}
use unified_software_commerc.Prelude.Tests.{ltb, leb, eqb}

-- `v + 1`, which wraps.
unfoldable pub add_one : ℕ → ℕ
add_one v = (v + 1) % 2 ^ 64

-- `v < 1`: zero, or a pattern with the sign bit set.
unfoldable pub lt_one : ℕ → Bool
lt_one v = eqb v 0 || leb (2 ^ 63) v

-- `a < b` of signed integers.
unfoldable pub int_lt : ℕ → ℕ → Bool
int_lt a b = ltb ((a + 2 ^ 63) % 2 ^ 64) ((b + 2 ^ 63) % 2 ^ 64)

-- Below the largest signed value the increment does not wrap.
pub add_one_lem : (v : ℕ) → v + 1 < 2 ^ 63 → add_one v ≡ v + 1
unfolding add_one
add_one_lem v h = omega arith

-- The increment always changes the number.
pub add_one_differs : (v : ℕ) → add_one v ≢ v
unfolding add_one
add_one_differs v h = omega arith
