-- ===== src/Prelude/Words.antt =====
-- Go's machine integers as bit patterns: an `int32`, `int64` or `int` is the number of its two's
-- complement pattern, so sums and products are those of ℕ modulo the width; only the order and the
-- sign look at the top bit.
use Prim.Native.Nat.{ℕ, ◌+◌, ◌%◌, ◌<◌}
use mathlib.Core.Path.{◌≡◌}
use mathlib.Core.Bool.{Bool, ◌&&◌}
use native.Mathlib.Omega.{arith}
use amy_queue.Prelude.Tests.{ltb, if◌then◌else◌}

abbrev pub two31 : ℕ
two31 = 2147483648

abbrev pub two32 : ℕ
two32 = 4294967296

abbrev pub two63 : ℕ
two63 = 9223372036854775808

abbrev pub two64 : ℕ
two64 = 18446744073709551616

abbrev pub u32 : ℕ → ℕ
u32 n = n % two32

abbrev pub u64 : ℕ → ℕ
u64 n = n % two64

-- `a < b` of two 64-bit signed integers.
abbrev pub slt64 : ℕ → ℕ → Bool
slt64 a b = ltb (u64 (a + two63)) (u64 (b + two63))

-- `0 < a` of a 32-bit signed integer.
abbrev pub is_positive32 : ℕ → Bool
is_positive32 a = ltb 0 a && ltb a two31

-- The rounds of `for i := int32(0); i < n; i++`: none for a negative n.
abbrev pub rounds32 : ℕ → ℕ
rounds32 n = if ltb n two31 then n else 0

-- Below the sign bit the signed order is the order of numbers.
pub slt64_small : (a b : ℕ) → a < two63 → b < two63 → slt64 a b ≡ ltb a b
slt64_small a b h k = ground arith
