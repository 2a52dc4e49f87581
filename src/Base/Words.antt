-- ===== src/Base/Words.antt =====
-- 64-bit unsigned arithmetic: size_t and uint64_t wrap at 2^64.
use Prim.Native.Nat.{ℕ, ◌+◌, ◌-◌, ◌*◌, ◌%◌, ◌^◌, ◌≤◌, ◌<◌}
use mathlib.Core.Path.{◌≡◌}
use native.Mathlib.Nat.{mod-eq_of_lt}
use native.Mathlib.Omega.{arith}

abbrev pub word : ℕ
word = 2 ^ 64

unfoldable pub add64 : ℕ → ℕ → ℕ
add64 a b = (a + b) % 2 ^ 64

unfoldable pub sub64 : ℕ → ℕ → ℕ
sub64 a b = (a + 2 ^ 64 - b) % 2 ^ 64

unfoldable pub mul64 : ℕ → ℕ → ℕ
mul64 a b = (a * b) % 2 ^ 64

pub add64-eq : (a b : ℕ) → a + b < word → add64 a b ≡ a + b
unfolding add64
add64-eq a b h = omega arith

pub sub64-eq : (a b : ℕ) → b ≤ a → a < word → sub64 a b ≡ a - b
unfolding sub64
sub64-eq a b h k = omega arith

pub mul64-eq : (a b : ℕ) → a * b < word → mul64 a b ≡ a * b
unfolding mul64
mul64-eq a b h = mod-eq_of_lt h

pub add64-lt : (a b : ℕ) → add64 a b < word
unfolding add64
add64-lt a b = omega arith

pub sub64-lt : (a b : ℕ) → sub64 a b < word
unfolding sub64
sub64-lt a b = omega arith

-- A difference that wraps is large.
pub sub64-wrap : (a b : ℕ) → a < b → b < word → sub64 a b ≡ word - (b - a)
unfolding sub64
sub64-wrap a b h k = omega arith
