-- ===== src/Prelude/Words.antt =====
-- 32-bit words: `u32` values are numbers up to `u32_max`.
use Prim.Native.Nat.{ℕ, ◌+◌, ◌%◌, ◌≤◌}
use mathlib.Core.Path.{◌≡◌}
use native.Mathlib.Omega.{arith}
use nisaba.Prelude.Tests.{leb, if◌then◌else◌}

abbrev pub u32_max : ℕ
u32_max = 4294967295

-- `u32::try_from(n).unwrap_or(u32::MAX)`.
abbrev pub u32_or_max : ℕ → ℕ
u32_or_max n = if leb n u32_max then n else u32_max

-- Addition of `u32` values without overflow checks.
abbrev pub add_u32 : ℕ → ℕ → ℕ
add_u32 a b = (a + b) % 4294967296

pub u32_or_max-eq : (n : ℕ) → n ≤ u32_max → u32_or_max n ≡ n
u32_or_max-eq n h = ground arith
