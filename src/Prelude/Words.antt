-- ===== src/Prelude/Words.antt =====
-- 64-bit unsigned arithmetic, as release builds of the source compute it.
use Prim.Native.Nat.{ℕ, ◌+◌, ◌%◌, ◌^◌, ◌≤◌, ◌<◌}
use mathlib.Core.Path.{◌≡◌}
use native.Mathlib.Omega.{arith}

abbrev pub u64_mod : ℕ
u64_mod = 2 ^ 64

unfoldable pub u64_add : ℕ → ℕ → ℕ
u64_add a b = (a + b) % u64_mod

pub u64_add_lem : (a b : ℕ) → a + b < u64_mod → u64_add a b ≡ a + b
unfolding u64_add
u64_add_lem a b h = omega arith

pub u64_add-le : (a b : ℕ) → u64_add a b ≤ a + b
unfolding u64_add
u64_add-le a b = omega arith
