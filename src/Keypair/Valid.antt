-- ===== src/Keypair/Valid.antt =====
-- When `nacl_keypair_validate` accepts a pair.
use tweetnacl_modular.Base.{
  ℕ, ◌+◌, ◌*◌, ◌≤◌, ◌≡◌, ◌≢◌, ◌⊎◌, inl, inr, refl, ap, sym, ◌∙◌, arith, List, length, take, drop,
  replicate, length-append, take-append_le, take_all, if◌then◌else◌,
}
use tweetnacl_modular.Base.Int.{ok, failed}
use tweetnacl_modular.Memory.{at, write_at}
use tweetnacl_modular.Secretbox.{is_ok}
use tweetnacl_modular.Verify.Equal.{secure_memcmp_cases}
use tweetnacl_modular.Curve25519.Lengths.{length-mul_gf, length-pack25519}
use tweetnacl_modular.Curve25519.Ladder.{
  scalarmult_bytes, base_point, crypto_scalarmult, crypto_scalarmult_base,
}
use tweetnacl_modular.Keypair.{nacl_keypair_validate}

-- The public key of a secret.
pub public_of : List ℕ → List ℕ
public_of sk = scalarmult_bytes sk base_point

pub length-public_of : (sk : List ℕ) → length (public_of sk) ≡ 32
unfolding public_of scalarmult_bytes
length-public_of sk = length-pack25519 _ ∙ ap (λ k. 2 * k) (length-mul_gf _ _)

pub crypto_scalarmult_base-public_of :
    (p q : ℕ) (pk sk : List ℕ)
    → crypto_scalarmult_base (at p pk) (at q sk)
      ≡ record { status = ok; out = write_at 0 (public_of sk) pk }
unfolding crypto_scalarmult_base crypto_scalarmult public_of
crypto_scalarmult_base-public_of p q pk sk = refl

-- What a write of the public key leaves begins with it.
pub take-written : (sk old : List ℕ) → take 32 (write_at 0 (public_of sk) old) ≡ public_of sk
take-written sk old =
    take-append_le 32 (public_of sk) _ (omega (arith, length-public_of sk))
    ∙ take_all 32 (public_of sk) (omega (arith, length-public_of sk))

pub length-written : (sk old : List ℕ) → 32 ≤ length (write_at 0 (public_of sk) old)
length-written sk old =
    let all = length-append (public_of sk) (drop (0 + length (public_of sk)) old) in
    let size = length-public_of sk in omega (arith, all, size)

-- `nacl_keypair_validate` accepts a pair exactly if the first 32 bytes of the public key are those
-- of the secret key's point.
pub nacl_keypair_validate_cases :
    (p q : ℕ) (pk sk : List ℕ)
    → 32 ≤ length pk
    → ((take 32 pk ≡ public_of sk) × (nacl_keypair_validate (at p pk) (at q sk) ≡ ok))
      ⊎ ((take 32 pk ≢ public_of sk) × (nacl_keypair_validate (at p pk) (at q sk) ≡ failed))
unfolding public_of nacl_keypair_validate crypto_scalarmult_base crypto_scalarmult
nacl_keypair_validate_cases p q pk sk room =
    let made = write_at 0 (public_of sk) (replicate 32 0) in
    let written = take-written sk (replicate 32 0) in
    let size = length-written sk (replicate 32 0) in
    elim (secure_memcmp_cases 0 p 32 made pk size room) [
      | inl (same, e) ↦ inl (sym same ∙ written, ap (λ z. if is_ok z then ok else failed) e)
      | inr (other, e) ↦
          inr (λ same. other (written ∙ sym same), ap (λ z. if is_ok z then ok else failed) e)
    ]
