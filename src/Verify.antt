-- ===== src/Verify.antt =====
-- `vn`, `crypto_verify_16` and `crypto_verify_32` of src/tweetnacl/tweetnacl.c.
pub mod Equal
use tweetnacl_modular.Base.{ℕ, ◌/◌, ◌^◌, bit_and, List}
use tweetnacl_modular.Base.Int.{ℤ, signed32}
use tweetnacl_modular.Word.{u32, sub32, ◌>>◌}
use tweetnacl_modular.Memory.Secure.{differences}

-- `d |= x[i] ^ y[i]` for each `i`, then `(1 & ((d - 1) >> 8)) - 1` at 32 bits.
unfoldable pub vn : List ℕ → List ℕ → ℕ → ℤ
unfolding differences
vn x y n = signed32 (sub32 (bit_and 1 (sub32 (differences n 0 x y) 1 >> 8)) 1)

unfoldable pub crypto_verify_16 : List ℕ → List ℕ → ℤ
unfolding vn
crypto_verify_16 x y = vn x y 16

unfoldable pub crypto_verify_32 : List ℕ → List ℕ → ℤ
unfolding vn
crypto_verify_32 x y = vn x y 32
