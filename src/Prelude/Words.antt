-- ===== src/Prelude/Words.antt =====
-- `std::size_t` on a 64-bit target: unsigned arithmetic that wraps around.
use Prim.Native.Nat.{ℕ, ◌+◌, ◌-◌, ◌%◌, ◌^◌, ◌≤◌, ◌<◌}
use mathlib.Core.Path.{◌≡◌}
use native.Mathlib.Omega.{arith}

abbrev pub size_mod : ℕ
size_mod = 2 ^ 64

unfoldable pub add_size : ℕ → ℕ → ℕ
add_size a b = (a + b) % size_mod

unfoldable pub sub_size : ℕ → ℕ → ℕ
sub_size a b = (a + size_mod - b) % size_mod

-- Within range the wrap-around does not show.
pub add_size_exact : (a b : ℕ) → a + b < size_mod → add_size a b ≡ a + b
unfolding add_size
add_size_exact a b h = omega arith

pub sub_size_exact : (a b : ℕ) → b ≤ a → a < size_mod → sub_size a b ≡ a - b
unfolding sub_size
sub_size_exact a b h k = omega arith

-- A difference below zero comes out as its distance from the modulus.
pub sub_size_wraps : (a b : ℕ) → a < b → b ≤ size_mod → sub_size a b ≡ size_mod - (b - a)
unfolding sub_size
sub_size_wraps a b h k = omega arith
