-- ===== src/Word/Rotate.antt =====
-- The rotations of src/tweetnacl/tweetnacl.c stay words.
use tweetnacl_modular.Base.{ℕ, ◌^◌, ◌<◌, arith}
use tweetnacl_modular.Bits.{bit_or-lt, bit_and_mask}
use tweetnacl_modular.Word.{l32}

pub l32-lt : (x c : ℕ) → x < 2 ^ 32 → l32 x c < 2 ^ 32
unfolding l32
l32-lt x c h = bit_or-lt 32 _ _ (omega arith) (omega (arith, bit_and_mask 32 x))
