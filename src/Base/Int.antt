-- ===== src/Base/Int.antt =====
-- Signed integers: Go's int64 and int.
use Prim.Native.Nat.{ℕ, ◌-◌, ◌%◌, ◌^◌}
use csi_driver_smb.Base.Tests.{ltb, if◌then◌else◌}

-- `negsuc n` is -(n + 1).
pub data ℤ : Type 0 where
  pos : ℕ → ℤ
  negsuc : ℕ → ℤ

-- the int64 that a product of numbers wraps around to
unfoldable pub to_int64 : ℕ → ℤ
to_int64 n = let r = n % 2 ^ 64 in if ltb r (2 ^ 63) then pos r else negsuc (2 ^ 64 - 1 - r)
