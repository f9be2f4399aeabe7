-- ===== src/Prelude/Words.antt =====
-- `uint64_t` and `size_t`: numbers below 2^64, with the wrap-around written out.
use Prim.Native.Nat.{ℕ, ◌+◌, ◌-◌, ◌*◌, ◌%◌, ◌^◌, ◌<◌}
use mathlib.Core.Path.{◌≡◌}
use native.Mathlib.Omega.{arith}

abbrev pub u64 : ℕ
u64 = 2 ^ 64

abbrev pub add64 : ℕ → ℕ → ℕ
add64 a b = (a + b) % u64

abbrev pub sub64 : ℕ → ℕ → ℕ
sub64 a b = (a + (u64 - b % u64)) % u64

abbrev pub mul64 : ℕ → ℕ → ℕ
mul64 a b = (a * b) % u64

-- Adding and subtracting cancel, whatever wraps.
pub sub64-add64 : (a b : ℕ) → a < u64 → sub64 (add64 a b) b ≡ a
sub64-add64 a b h = omega arith
