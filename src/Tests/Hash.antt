-- ===== src/Tests/Hash.antt =====
-- SHA-512 of a short message.
use tweetnacl_modular.Base.{ℕ, ◌%◌, ◌≡◌, refl, arith, List, [], ◌∷◌, ◌++◌, take, replicate}
use tweetnacl_modular.Base.Int.{ok}
use tweetnacl_modular.Memory.{at, write_at}
use tweetnacl_modular.Sha512.{hash_rounds, crypto_hash}
use tweetnacl_modular.Sha512.Reference.{sha_steps, sha512}
use tweetnacl_modular.Sha512.Schedule.{slides, hash_rounds-sha_steps}
use tweetnacl_modular.Sha512.Hash.{crypto_hash-sha512}
use tweetnacl_modular.Sha512.Truncated.{crypto_hash_sha512_256, crypto_hash_sha512_224}
use tweetnacl_modular.Sha512.Truncated.Collision.{crypto_hash_sha512_collide}
use tweetnacl_modular.Tests.Data.{key, message, blank, message-IsBytes}

crypto_hash-sha512_example :
    crypto_hash (at 100 blank) (at 200 message) 40
    ≡ record { status = ok; out = write_at 0 (sha512 (take 40 message)) blank }
crypto_hash-sha512_example =
    crypto_hash-sha512 message 40 (omega arith) (omega arith) message-IsBytes 100 200 blank

hash_rounds-sha_steps_example :
    hash_rounds 3 30 (take 8 key) (take 16 key)
    ≡ sha_steps 3 30 (take 8 key) (slides (30 % 16) (take 16 key))
hash_rounds-sha_steps_example = hash_rounds-sha_steps 3 30 (take 8 key) (take 16 key) refl refl

-- Two messages with different blocks and the same last two bytes.
abbrev ones : List ℕ
ones = replicate 128 1 ++ 5 ∷ 6 ∷ []

abbrev twos : List ℕ
twos = replicate 128 2 ++ 5 ∷ 6 ∷ []

crypto_hash_sha512_collide_example :
    (crypto_hash_sha512_256 (at 100 blank) ones 130
      ≡ crypto_hash_sha512_256 (at 100 blank) twos 130)
    × (crypto_hash_sha512_224 (at 100 blank) ones 130
        ≡ crypto_hash_sha512_224 (at 100 blank) twos 130)
crypto_hash_sha512_collide_example = crypto_hash_sha512_collide (at 100 blank) ones twos 130 refl
