-- ===== src/Base/Signed.antt =====
-- Shifts and masks of a 64-bit signed integer (`i64`), which the models hold as an exact integer, and
-- its bit pattern.
use tweetnacl_modular.Base.Tests.{ltb, if◌then◌else◌}
use Prim.Native.Nat.{ℕ, ◌-◌, ◌/◌, ◌%◌, ◌^◌}
use tweetnacl_modular.Base.Int.{ℤ, pos, negsuc, ◌*ℤ◌}

-- `z >> k`, rounding down.
unfoldable pub shr_ℤ : ℤ → ℕ → ℤ
shr_ℤ (pos n) k = pos (n / 2 ^ k)
shr_ℤ (negsuc n) k = negsuc (n / 2 ^ k)

-- `z & (2 ^ k - 1)`
unfoldable pub low_ℤ : ℤ → ℕ → ℕ
low_ℤ (pos n) k = n % 2 ^ k
low_ℤ (negsuc n) k = 2 ^ k - 1 - n % 2 ^ k

-- `z << k`
unfoldable pub shl_ℤ : ℤ → ℕ → ℤ
shl_ℤ z k = pos (2 ^ k) *ℤ z

-- The bit pattern at 64 bits, and the integer of a pattern.
unfoldable pub word_ℤ : ℤ → ℕ
unfolding low_ℤ
word_ℤ z = low_ℤ z 64

unfoldable pub signed64 : ℕ → ℤ
signed64 w = if ltb w (2 ^ 63) then pos w else negsuc (2 ^ 64 - w - 1)
