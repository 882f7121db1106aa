-- ===== src/Base/Words.antt =====
-- Arithmetic of `uint64_t`, with its wrap-around.
use Prim.Native.Nat.{ℕ, ◌+◌, ◌-◌, ◌*◌, ◌%◌, ◌^◌, ◌≤◌, ◌<◌}
use mathlib.Core.Path.{◌≡◌}
use native.Mathlib.Omega.{arith}

abbrev pub u64_size : ℕ
u64_size = 2 ^ 64

unfoldable pub add64 : ℕ → ℕ → ℕ
add64 a b = (a + b) % u64_size

unfoldable pub sub64 : ℕ → ℕ → ℕ
sub64 a b = (a + u64_size - b) % u64_size

unfoldable pub mul64 : ℕ → ℕ → ℕ
mul64 a b = (a * b) % u64_size

pub add64_exact : (a b : ℕ) → a + b < u64_size → add64 a b ≡ a + b
unfolding add64
add64_exact a b h = omega arith

pub sub64_exact : (a b : ℕ) → b ≤ a → a < u64_size → sub64 a b ≡ a - b
unfolding sub64
sub64_exact a b h k = omega arith

pub mul64_exact : (a b : ℕ) → a * b < u64_size → mul64 a b ≡ a * b
unfolding mul64
mul64_exact a b h = omega arith
