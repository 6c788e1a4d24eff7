-- ===== src/Prelude/Int.antt =====
-- Go's signed integers (int32, and the int64 of a time.Duration) as integers.
use Prim.Native.Nat.{ℕ, suc, ◌-◌, ◌/◌, ◌%◌, ◌^◌, ◌<◌}
use mathlib.Core.Path.{◌≡◌}
use native.Mathlib.Omega.{arith}
use go_agentx.Prelude.Tests.{ltb, if◌then◌else◌}

-- `negsuc n` is -(n + 1).
pub data ℤ : Type 0 where
  pos : ℕ → ℤ
  negsuc : ℕ → ℤ

-- `uint32(i)` of a signed integer: the low 32 bits of its two's complement.
unfoldable pub to_uint32 : ℤ → ℕ
to_uint32 (pos n) = n % 2 ^ 32
to_uint32 (negsuc n) = 2 ^ 32 - 1 - n % 2 ^ 32

-- `int32(u)` of a uint32.
unfoldable pub to_int32 : ℕ → ℤ
to_int32 u = if ltb u (2 ^ 31) then pos u else negsuc (2 ^ 32 - 1 - u)

abbrev pub IsInt32 : ℤ → Type 0
IsInt32 (pos n) = n < 2 ^ 31
IsInt32 (negsuc n) = n < 2 ^ 31

-- Go's `/` by a positive number rounds towards zero.
unfoldable pub quot : ℤ → ℕ → ℤ
quot (pos n) d = pos (n / d)
quot (negsuc n) d = if ltb (suc n) d then pos 0 else negsuc (suc n / d - 1)

pub to_int32-to_uint32 : (i : ℤ) → IsInt32 i → to_int32 (to_uint32 i) ≡ i
unfolding to_int32 to_uint32
to_int32-to_uint32 (pos n) h = ground arith
to_int32-to_uint32 (negsuc n) h = ground arith

pub to_uint32_bound : (i : ℤ) → to_uint32 i < 2 ^ 32
unfolding to_uint32
to_uint32_bound (pos n) = omega arith
to_uint32_bound (negsuc n) = omega arith
