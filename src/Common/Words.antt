-- ===== src/Common/Words.antt =====
-- Machine words: the saturating and the wrapping additions of `u32` and `u64` and `usize`.
use Prim.Native.Nat.{ℕ, ◌+◌, ◌%◌, ◌^◌, ◌<◌, min}
use mathlib.Core.Path.{◌≡◌}
use native.Mathlib.Omega.{arith}

abbrev pub u32_max : ℕ
u32_max = 4294967295

-- `u32::saturating_add`
unfoldable pub saturating_add_u32 : ℕ → ℕ → ℕ
saturating_add_u32 a b = min (a + b) u32_max

-- `+= 1` on a `u32` and on a `u64`; the release profile wraps.
unfoldable pub incr_u32 : ℕ → ℕ
incr_u32 a = (a + 1) % 2 ^ 32

unfoldable pub incr_u64 : ℕ → ℕ
incr_u64 a = (a + 1) % 2 ^ 64

pub incr_u64_exact : (a : ℕ) → a + 1 < 2 ^ 64 → incr_u64 a ≡ a + 1
unfolding incr_u64
incr_u64_exact a h = omega arith
