-- ===== src/Base/Word.antt =====
-- Machine words as native numbers, and single bits of them.
use Prim.Native.Nat.{ℕ, ◌+◌, ◌-◌, ◌/◌, ◌%◌, ◌^◌}
use mathlib.Core.Bool.{Bool}
use os_from_zero.Base.Tests.{◌==◌}

-- `uint32_t` and `uint64_t` (also `size_t`) arithmetic wraps.
abbrev pub add32 : ℕ → ℕ → ℕ
add32 a b = (a + b) % 2 ^ 32

abbrev pub add64 : ℕ → ℕ → ℕ
add64 a b = (a + b) % 2 ^ 64

-- For `b` below 2 ^ 64, as every word is.
abbrev pub sub64 : ℕ → ℕ → ℕ
sub64 a b = (a + (2 ^ 64 - b)) % 2 ^ 64

-- `(x & (1 << k)) != 0`
abbrev pub test_bit : ℕ → ℕ → Bool
test_bit x k = (x / 2 ^ k % 2) == 1
