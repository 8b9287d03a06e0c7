-- ===== src/Common/Words.antt =====
-- The arithmetic of `u64` and `usize` as a release build has it: it wraps.
use Prim.Native.Nat.{ℕ, ◌+◌, ◌-◌, ◌*◌, ◌%◌, ◌<◌, ◌≤◌}
use mathlib.Core.Path.{◌≡◌}
use native.Mathlib.Omega.{arith}
use native.Mathlib.Nat.{mod-eq_of_lt}

abbrev pub u64_mod : ℕ
u64_mod = 18446744073709551616

unfoldable pub add64 : ℕ → ℕ → ℕ
add64 a b = (a + b) % u64_mod

unfoldable pub sub64 : ℕ → ℕ → ℕ
sub64 a b = (a + u64_mod - b) % u64_mod

unfoldable pub mul64 : ℕ → ℕ → ℕ
mul64 a b = (a * b) % u64_mod

pub add64_exact : (a b : ℕ) → a + b < u64_mod → add64 a b ≡ a + b
unfolding add64
add64_exact a b h = omega arith

pub sub64_exact : (a b : ℕ) → b ≤ a → a < u64_mod → sub64 a b ≡ a - b
unfolding sub64
sub64_exact a b h k = omega arith

pub mul64_exact : (a b : ℕ) → a * b < u64_mod → mul64 a b ≡ a * b
unfolding mul64
mul64_exact a b h = mod-eq_of_lt h

-- The same for `u8`.
unfoldable pub add8 : ℕ → ℕ → ℕ
add8 a b = (a + b) % 256

unfoldable pub sub8 : ℕ → ℕ → ℕ
sub8 a b = (a + 256 - b) % 256

pub add8_exact : (a b : ℕ) → a + b < 256 → add8 a b ≡ a + b
unfolding add8
add8_exact a b h = omega arith

pub sub8_exact : (a b : ℕ) → b ≤ a → a < 256 → sub8 a b ≡ a - b
unfolding sub8
sub8_exact a b h k = omega arith
