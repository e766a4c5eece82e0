-- ===== src/Curve25519/Unpack.antt =====
-- `unpack25519` reads the number of its bytes, less the top bit.
use tweetnacl_modular.Base.{ℕ, ◌*◌, ◌/◌, ◌^◌, ◌≡◌, arith, List, length, get_or, ◌<◌, All-get_or}
use tweetnacl_modular.Base.Read.{read_from_all}
use tweetnacl_modular.Base.Int.{pos, ◌+ℤ◌}
use tweetnacl_modular.Base.Ring.{ring_laws}
use tweetnacl_modular.Base.Signed.{low_ℤ}
use tweetnacl_modular.Bytes.{IsBytes}
use tweetnacl_modular.Bytes.Value.{le_value}
use tweetnacl_modular.Curve25519.{unpack25519, byte_limbs}
use tweetnacl_modular.Curve25519.Value.{gf_value}

-- For 32 bytes, the number that they store is that of the limbs which `unpack25519` reads and 2^255
-- times the top bit: the top bit alone is dropped.
pub unpack25519_value :
    (n : List ℕ)
    → length n ≡ 32
    → IsBytes n
    → pos (le_value n) ≡ gf_value (unpack25519 n) +ℤ pos (2 ^ 255 * (get_or n 31 0 / 2 ^ 7))
unfolding unpack25519 byte_limbs gf_value low_ℤ
unpack25519_value n count bytes =
    let low : get_or n 30 0 < 2 ^ 8 = All-get_or (λ b. b < 2 ^ 8) n 30 0 (omega arith) bytes in
    rw (read_from_all 32 n count) (omega ring_laws)
