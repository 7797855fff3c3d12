-- ===== src/Base/Words.antt =====
-- Machine integers and `math/big`: conversions with their wrap-around written out.
use Prim.Native.Nat.{ℕ, ◌-◌, ◌%◌, ◌^◌, ◌<◌}
use mathlib.Core.Path.{◌≡◌}
use native.Mathlib.Omega.{arith}
use blockless_avs_tools.Base.Tests.{ltb, if◌then◌else◌}

-- `negsuc n` is -(n + 1).
pub data ℤ : Type 0 where
  pos : ℕ → ℤ
  negsuc : ℕ → ℤ

abbrev pub u8 : ℕ → ℕ
u8 n = n % 2 ^ 8

abbrev pub u32 : ℕ → ℕ
u32 n = n % 2 ^ 32

abbrev pub u64 : ℕ → ℕ
u64 n = n % 2 ^ 64

-- `int64(n)` of an unsigned 64-bit number: two's complement.
abbrev pub int64 : ℕ → ℤ
int64 n = if ltb (u64 n) (2 ^ 63) then pos (u64 n) else negsuc (2 ^ 64 - u64 n - 1)

pub int64-small : (n : ℕ) → n < 2 ^ 63 → int64 n ≡ pos n
int64-small n h = ground arith
