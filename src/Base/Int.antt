-- ===== src/Base/Int.antt =====
-- The signed integers of Go (`int`, `int32`, `int64`) as values, over the native numbers.
use Prim.Native.Nat.{ℕ, zero, suc, ◌/◌, ◌^◌}
use mathlib.Core.Bool.{Bool, true, false}
use sftpgo_operator.Base.Tests.{ltb}

-- `negsuc n` is -(n + 1).
pub data ℤ : Type 0 where
  pos : ℕ → ℤ
  negsuc : ℕ → ℤ

-- `z > 0`
abbrev pub is_positive : ℤ → Bool
is_positive (pos (suc n)) = true
is_positive _ = false

-- `z == 0`
abbrev pub is_zero : ℤ → Bool
is_zero (pos zero) = true
is_zero _ = false

-- `z / d` at a positive constant: Go truncates towards zero.
abbrev negate : ℕ → ℤ
negate zero = pos 0
negate (suc n) = negsuc n

abbrev pub quot : ℤ → ℕ → ℤ
quot (pos n) d = pos (n / d)
quot (negsuc n) d = negate (suc n / d)

-- What an `int64`, or an `int` of a 64-bit machine, can hold.
abbrev pub in_int64 : ℤ → Bool
in_int64 (pos n) = ltb n (2 ^ 63)
in_int64 (negsuc n) = ltb n (2 ^ 63)
