-- ===== src/Tests/Authenticator.antt =====
-- The authenticator and its arithmetic on small numbers.
use tweetnacl_modular.Base.{ℕ, ◌≡◌, ◌≢◌, ◌⊎◌, arith, List, [], ◌∷◌, ◌++◌, take, replicate}
use tweetnacl_modular.Base.Int.{ok, failed}
use tweetnacl_modular.Memory.{at, write_at}
use tweetnacl_modular.Bytes.{IsBytes}
use tweetnacl_modular.Poly.{crypto_onetimeauth, crypto_onetimeauth_verify}
use tweetnacl_modular.Poly.Reference.{poly1305}
use tweetnacl_modular.Poly.Authentic.{crypto_onetimeauth-poly1305, crypto_onetimeauth_verify_cases}
use tweetnacl_modular.Tests.Data.{key, message, blank, key-IsBytes, message-IsBytes, blank-IsBytes}

-- 2 ^ 130 - 5 + 9, and the digits of a product.
abbrev large : List ℕ
large = 4 ∷ replicate 15 0 ++ 4 ∷ []

abbrev wide : List ℕ
wide = replicate 17 353736000

large-IsBytes : IsBytes large
large-IsBytes = ground arith

crypto_onetimeauth-poly1305_example :
    crypto_onetimeauth (at 100 blank) (at 200 message) 40 (at 300 key)
    ≡ record { status = ok; out = write_at 0 (poly1305 (take 40 message) key) blank }
crypto_onetimeauth-poly1305_example =
    crypto_onetimeauth-poly1305 message key 40 message-IsBytes (omega arith) key-IsBytes
      (omega arith) 100 200 300 blank

crypto_onetimeauth_verify_cases_example :
    let result = crypto_onetimeauth_verify (at 100 blank) (at 200 message) 40 (at 300 key) in
    ((take 16 blank ≡ poly1305 (take 40 message) key) × (result ≡ ok))
    ⊎ ((take 16 blank ≢ poly1305 (take 40 message) key) × (result ≡ failed))
crypto_onetimeauth_verify_cases_example =
    crypto_onetimeauth_verify_cases message key 40 message-IsBytes (omega arith) key-IsBytes
      (omega arith) 100 200 300 blank blank-IsBytes (omega arith)
