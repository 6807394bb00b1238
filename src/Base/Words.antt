-- ===== src/Base/Words.antt =====
-- Go's machine integers: `uint64` as a number below 2 ^ 64, `int64`, `int` and `time.Duration` as
-- integers that wrap around.
use Prim.Native.Nat.{ℕ, ◌+◌, ◌-◌, ◌%◌, ◌^◌, ◌<◌}
use mathlib.Core.Path.{◌≡◌}
use native.Mathlib.Omega.{arith}
use lightchain_worker.Base.Tests.{ltb, if◌then◌else◌}
use lightchain_worker.Base.Integers.{ℤ, pos, negsuc, ◌+ℤ◌, ◌-ℤ◌, ◌*ℤ◌, ◌≤ℤ◌, ◌<ℤ◌}

abbrev pub u64_mod : ℕ
u64_mod = 18446744073709551616

abbrev pub i64_half : ℕ
i64_half = 9223372036854775808

-- `uint64` sum and difference.
unfoldable pub add_u64 : ℕ → ℕ → ℕ
add_u64 a b = (a + b) % u64_mod

unfoldable pub sub_u64 : ℕ → ℕ → ℕ
sub_u64 a b = (a + u64_mod - b) % u64_mod

-- The integer that a 64-bit pattern stands for.
abbrev pub signed : ℕ → ℤ
signed n = if ltb n i64_half then pos n else negsuc (u64_mod - 1 - n)

-- The 64-bit pattern of an integer, read back as a signed one.
unfoldable pub wrap : ℤ → ℤ
wrap (pos n) = signed (n % u64_mod)
wrap (negsuc n) = signed (u64_mod - 1 - n % u64_mod)

unfoldable pub add_i64 : ℤ → ℤ → ℤ
add_i64 a b = wrap (a +ℤ b)

unfoldable pub sub_i64 : ℤ → ℤ → ℤ
sub_i64 a b = wrap (a -ℤ b)

unfoldable pub mul_i64 : ℤ → ℤ → ℤ
mul_i64 a b = wrap (a *ℤ b)

-- `a << k` on an int64.
unfoldable pub shl_i64 : ℤ → ℕ → ℤ
shl_i64 a k = wrap (a *ℤ pos (2 ^ k))

-- An integer that an int64 holds.
abbrev pub IsInt64 : ℤ → Type 0
IsInt64 a = (negsuc (i64_half - 1) ≤ℤ a) × (a <ℤ pos i64_half)

pub wrap_self : (a : ℤ) → IsInt64 a → wrap a ≡ a
unfolding wrap
wrap_self (pos n) h = ground arith
wrap_self (negsuc n) h = ground arith

pub wrap-IsInt64 : (a : ℤ) → IsInt64 (wrap a)
unfolding wrap
wrap-IsInt64 (pos n) = ground arith
wrap-IsInt64 (negsuc n) = ground arith

pub add_i64_exact : (a b : ℤ) → IsInt64 (a +ℤ b) → add_i64 a b ≡ a +ℤ b
unfolding add_i64
add_i64_exact a b h = wrap_self (a +ℤ b) h

pub sub_i64_exact : (a b : ℤ) → IsInt64 (a -ℤ b) → sub_i64 a b ≡ a -ℤ b
unfolding sub_i64
sub_i64_exact a b h = wrap_self (a -ℤ b) h

pub add_u64_exact : (a b : ℕ) → a + b < u64_mod → add_u64 a b ≡ a + b
unfolding add_u64
add_u64_exact a b h = omega arith
