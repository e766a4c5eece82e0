-- ===== src/Memory/Wipe.antt =====
-- What `secure_zero` of src/core/utils.c leaves.
use tweetnacl_modular.Base.{
  ℕ, zero, suc, ◌+◌, ◌≡◌, refl, ap, arith, List, ◌++◌, length, drop, replicate, length-replicate,
  ◌==◌, false,
}
use tweetnacl_modular.Memory.{at}
use tweetnacl_modular.Memory.Secure.{secure_zero, secure_memset}

-- The first `count` bytes are 0, and the others as they were.
pub secure_zero_lem :
    (p count : ℕ) (bs : List ℕ) → secure_zero (at p bs) count ≡ replicate count 0 ++ drop count bs
unfolding secure_zero secure_memset
secure_zero_lem p zero bs = refl
secure_zero_lem p (suc n) bs =
    let some_bytes : (suc n == 0) ≡ false = ground arith in
    let size : 0 + length (replicate (suc n) 0) ≡ suc n =
      omega (arith, length-replicate {A = ℕ} (suc n) 0) in
    rw some_bytes (ap (λ k. replicate (suc n) 0 ++ drop k bs) size)
