-- ===== src/Ed25519/Sign/Hashed.antt =====
-- The hash that the signatures take is SHA-512.
use tweetnacl_modular.Base.{
  ℕ, ◌^◌, ◌<◌, ◌≤◌, ◌≡◌, sym, ap, ◌∙◌, List, [], ◌∷◌, length, take, replicate, All-append,
}
use mathlib.Core.Path.{subst}
use tweetnacl_modular.Memory.Writes.{written-whole}
use tweetnacl_modular.Bytes.{IsBytes, ts64}
use tweetnacl_modular.Bytes.Big.{ts64-IsBytes}
use tweetnacl_modular.Sha512.{store_words}
use tweetnacl_modular.Sha512.Reference.{sha512}
use tweetnacl_modular.Sha512.Blocks.{store_words-digest_bytes}
use tweetnacl_modular.Sha512.Hash.{crypto_hash-sha512, length-sha512}
use tweetnacl_modular.Ed25519.Sign.{hash_local}

store_words-IsBytes : (ws : List ℕ) → IsBytes (store_words ws)
unfolding store_words
store_words-IsBytes [] = tt
store_words-IsBytes (w ∷ ws) =
    All-append (λ b. b < 2 ^ 8) (ts64 w) (store_words ws) (ts64-IsBytes w) (store_words-IsBytes ws)

pub sha512-IsBytes : (m : List ℕ) → IsBytes (sha512 m)
unfolding sha512
sha512-IsBytes m = subst IsBytes (store_words-digest_bytes _) (store_words-IsBytes _)

pub hash_local-sha512 :
    (m : List ℕ) (n : ℕ)
    → n ≤ length m
    → n < 2 ^ 64
    → IsBytes m
    → hash_local m n ≡ sha512 (take n m)
unfolding hash_local
hash_local-sha512 m n fits small bytes =
    ap (λ c. c.out) (crypto_hash-sha512 m n small fits bytes 0 100 (replicate 64 0))
    ∙ written-whole (sha512 (take n m)) (replicate 64 0) (sym (length-sha512 (take n m)))
