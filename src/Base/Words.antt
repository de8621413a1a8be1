-- ===== src/Base/Words.antt =====
-- Machine integers as native numbers: the wrap-around of each width, and the C conversions.
use Prim.Native.Nat.{ℕ, ◌+◌, ◌-◌, ◌%◌, ◌^◌, ◌<◌}
use mathlib.Core.Path.{◌≡◌}
use native.Mathlib.Omega.{arith}
use blockdevlogger.Base.Tests.{ltb, if◌then◌else◌}

-- `unsigned long` and `uint64_t` on the 64-bit targets of the program.
abbrev pub u64 : ℕ → ℕ
u64 n = n % 2 ^ 64

-- `unsigned int` and `uint32_t`
abbrev pub u32 : ℕ → ℕ
u32 n = n % 2 ^ 32

abbrev pub add64 : ℕ → ℕ → ℕ
add64 a b = (a + b) % 2 ^ 64

-- The modulus is added first, since `-` stops at 0. Both arguments are below it.
abbrev pub sub64 : ℕ → ℕ → ℕ
sub64 a b = (a + 2 ^ 64 - b) % 2 ^ 64

abbrev pub sub32 : ℕ → ℕ → ℕ
sub32 a b = (a + 2 ^ 32 - b) % 2 ^ 32

-- A value cut to `int` and then widened to `unsigned long`: the sign bit is repeated.
abbrev pub int_to_u64 : ℕ → ℕ
int_to_u64 n = if ltb (n % 2 ^ 32) (2 ^ 31) then n % 2 ^ 32 else n % 2 ^ 32 + (2 ^ 64 - 2 ^ 32)

pub int_to_u64_small : (n : ℕ) → n < 2 ^ 31 → int_to_u64 n ≡ n
int_to_u64_small n h = ground arith
