-- ===== src/Base/Int.antt =====
-- Signed integers over the native numbers, for the i64 fields that the program passes on.
use Prim.Native.Nat.{ℕ, suc, ◌-◌, ◌%◌, ◌^◌}

-- `negsuc n` is -(n + 1).
pub data ℤ : Type 0 where
  pos : ℕ → ℤ
  negsuc : ℕ → ℤ

-- `n as u64`: the two's complement bits of an i64, read as unsigned.
abbrev pub as_u64 : ℤ → ℕ
as_u64 (pos n) = n % 2 ^ 64
as_u64 (negsuc n) = 2 ^ 64 - suc (n % 2 ^ 64)
