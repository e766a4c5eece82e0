-- ===== src/Ed25519/Sign/Reference.antt =====
-- Ed25519 on whole strings of bytes: what a signature is made of, and what it is checked against.
-- The arithmetic on points and scalars is that of the models; the hashes are SHA-512 of FIPS 180-4.
use tweetnacl_modular.Base.{ℕ, List, ◌++◌, take, drop, replicate, set, get_or, bit_and, bit_or}
use tweetnacl_modular.Sha512.Reference.{sha512}
use tweetnacl_modular.Curve25519.{gf_of, add_rows}
use tweetnacl_modular.Ed25519.{Point, add_points, pack, scalarmult, scalarbase}
use tweetnacl_modular.Ed25519.Scalar.{mod_l, reduce}

-- The bytes of sB - hA, for a signature of the halves `r` and `s`, a public key and its negative
-- point, and a message; h is the hash of `r`, the key and the message.
unfoldable pub checked_half : Point → List ℕ → List ℕ → List ℕ → List ℕ → List ℕ
checked_half negative r s key message =
    pack (add_points (scalarmult negative (reduce (sha512 (r ++ (key ++ message))))) (scalarbase s))

-- The secret scalar: the first half of the secret's hash, with its bits set.
unfoldable pub secret_scalar : List ℕ → List ℕ
secret_scalar secret =
    let e = take 32 (sha512 secret) in
    let cleared = set e 0 (bit_and (get_or e 0 0) 248) in
    set cleared 31 (bit_or (bit_and (get_or cleared 31 0) 127) 64)

-- The nonce: the hash of the second half of the secret's hash and the message.
unfoldable pub sign_nonce : List ℕ → List ℕ → List ℕ
sign_nonce secret message = reduce (sha512 (take 32 (drop 32 (sha512 secret)) ++ message))

unfoldable pub first_half : List ℕ → List ℕ → List ℕ
unfolding sign_nonce
first_half secret message = pack (scalarbase (sign_nonce secret message))

-- The second half: the nonce and h times the secret scalar.
unfoldable pub second_half : List ℕ → List ℕ → List ℕ → List ℕ
unfolding first_half sign_nonce secret_scalar
second_half secret key message =
    let h = reduce (sha512 (first_half secret message ++ (key ++ message))) in
    mod_l (
      add_rows (gf_of (take 32 h)) (gf_of (secret_scalar secret))
        (gf_of (take 32 (sign_nonce secret message) ++ replicate 32 0)))
