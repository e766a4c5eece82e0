-- ===== src/Tests/Signatures.antt =====
-- The functions that open a signature of a hash, on concrete buffers.
use tweetnacl_modular.Base.{ℕ, List, ◌++◌, some}
use tweetnacl_modular.Memory.{at}
use tweetnacl_modular.Ed25519.Fips.{crypto_sign_ed25519ph_open, crypto_sign_ed25519ctx_open}
use tweetnacl_modular.Ed25519.Fips.Overrun.{Stops, fips_open_never_accepts}
use tweetnacl_modular.Tests.Data.{key, nonce, blank}

-- A signed message with 64 bytes behind the signature.
abbrev signed : List ℕ
signed = key ++ (key ++ (key ++ key))

fips_open_never_accepts_example :
    Stops 200 300 128 signed key 100 9 blank 64
      (crypto_sign_ed25519ph_open (at 100 blank) (some 9) (at 200 signed) 128 (at 300 key))
    × Stops 200 300 128 signed key 100 9 blank 127 (
        crypto_sign_ed25519ctx_open
          (some blank)
          (at 100 blank)
          (some 9)
          (at 200 signed)
          128
          (at 300 key)
          (at 400 nonce)
          3)
fips_open_never_accepts_example =
    fips_open_never_accepts 200 300 128 signed key 100 9 blank (some blank) (at 400 nonce) 3
