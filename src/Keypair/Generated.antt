-- ===== src/Keypair/Generated.antt =====
-- `nacl_keypair_generate_validated` over any source of random bytes.
use tweetnacl_modular.Base.{ℕ, ◌≡◌, ◌⊎◌, inl, inr, refl, arith, List, ◌++◌, length, drop, false}
use tweetnacl_modular.Base.Int.{ok, failed}
use tweetnacl_modular.Memory.{at, write_at}
use tweetnacl_modular.Secretbox.{is_ok}
use tweetnacl_modular.Status.{success}
use tweetnacl_modular.Rng.Source.{RandomSource}
use tweetnacl_modular.Box.{crypto_box_keypair}
use tweetnacl_modular.Keypair.{nacl_keypair_validate, attempt, nacl_keypair_generate_validated}
use tweetnacl_modular.Keypair.Valid.{
  public_of, crypto_scalarmult_base-public_of, take-written, length-written,
  nacl_keypair_validate_cases,
}

module _ (R : RandomSource) where
  open R use {State, randombytes_safe, fills}

  -- The pair of a secret is valid where it is written.
  written-valid :
      (p q : ℕ) (pk sk : List ℕ)
      → nacl_keypair_validate (at p (write_at 0 (public_of sk) pk)) (at q sk) ≡ ok
  written-valid p q pk sk =
      elim (nacl_keypair_validate_cases p q (write_at 0 (public_of sk) pk) sk
        (length-written sk pk)) [
          | inl (same, e) ↦ e
          | inr (other, e) ↦ absurd (other (take-written sk pk))
        ]

  -- A pair that is made.
  crypto_box_keypair_made :
      (p q : ℕ) (pk sk secret : List ℕ) (s : State)
      → let made = randombytes_safe (at q sk) 32 s in
        made.status ≡ success
        → made.buf ≡ at q secret
        → crypto_box_keypair R (at p pk) (at q sk) s ≡ record {
          status = ok;
          y = at p (write_at 0 (public_of secret) pk);
          x = at q secret;
          state = made.state;
        }
  unfolding crypto_box_keypair
  crypto_box_keypair_made p q pk sk secret s good buf =
      rw (good, buf, crypto_scalarmult_base-public_of p q pk secret) refl

  crypto_box_keypair_not_made :
      (p q : ℕ) (pk sk : List ℕ) (s : State)
      → let made = randombytes_safe (at q sk) 32 s in
        is_ok made.status ≡ false
        → crypto_box_keypair R (at p pk) (at q sk) s
          ≡ record { status = failed; y = at p pk; x = made.buf; state = made.state }
  unfolding crypto_box_keypair
  crypto_box_keypair_not_made p q pk sk s bad = rw bad refl

  -- With buffers that are not NULL, `nacl_keypair_generate_validated` makes one attempt. If the
  -- generator succeeds, the return is 0, its 32 bytes are in front of the secret key's buffer, the
  -- public key of that secret is in front of the other buffer, and `nacl_keypair_validate` accepts
  -- the pair. If the generator fails, the return is -1 and the public key's buffer stays.
  pub nacl_keypair_generate_validated_cases :
      (p q : ℕ) (pk sk : List ℕ) (s : State)
      → let made = randombytes_safe (at q sk) 32 s in
        let r = nacl_keypair_generate_validated R (at p pk) (at q sk) s in
        ((made.status ≡ success)
          × ((bs : List ℕ) × (length bs ≡ 32)
              × (let secret = bs ++ drop 32 sk in
                  (made.buf ≡ at q secret)
                  × (r ≡ record {
                    status = ok;
                    y = at p (write_at 0 (public_of secret) pk);
                    x = at q secret;
                    state = made.state;
                  })
                  × (nacl_keypair_validate r.y r.x ≡ ok))))
        ⊎ ((is_ok made.status ≡ false)
            × (r ≡ record { status = failed; y = at p pk; x = made.buf; state = made.state }))
  unfolding nacl_keypair_generate_validated attempt
  nacl_keypair_generate_validated_cases p q pk sk s = elim (fills q 32 sk s (omega arith)) [
    | inl (good, (bs, size, buf)) ↦
        let secret = bs ++ drop 32 sk in
        let made = crypto_box_keypair_made p q pk sk secret s good buf in
        let valid = written-valid p q pk secret in
        inl (good, (bs, size, (buf, rw (made, valid) refl, rw (made, valid) valid)))
    | inr bad ↦ let stops = crypto_box_keypair_not_made p q pk sk s bad in inr (bad, rw stops refl)
  ]
