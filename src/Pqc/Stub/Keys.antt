-- ===== src/Pqc/Stub/Keys.antt =====
-- `pqc_keygen` of the stub: its checks, and what it writes.
use tweetnacl_modular.Base.{
  ℕ, ◌≤◌, ◌<◌, ◌≡◌, ◌⊎◌, inl, inr, refl, false, le-or-lt, le→ltb, lt→ltb, some, List,
}
use tweetnacl_modular.Base.Int.{ℤ}
use tweetnacl_modular.Status.{success}
use tweetnacl_modular.Secretbox.{is_ok}
use tweetnacl_modular.Memory.{Ptr, at}
use tweetnacl_modular.Pqc.Params.{
  PqcParams, params_of, pqc_success, pqc_buffer_too_small, pqc_rng_failure,
}
use tweetnacl_modular.Pqc.Table.{params_of-IsEntry}
use tweetnacl_modular.Rng.Source.{RandomSource}
use tweetnacl_modular.Pqc.Stub.{KeyPair, make_keys, pqc_keygen}
use tweetnacl_modular.Pqc.Stub.Mix.{Wrote, xor_with-Wrote}

module _ (R : RandomSource) where
  open R use {State, randombytes_safe, fills}

  -- The generator makes first the public key and then the secret key, in the state `s`. If both calls
  -- succeed, each key is the generator's bytes, mixed with the seed, in front of its buffer; if one
  -- fails, the return is the failure of the generator.
  abbrev pub Makes : ℕ → ℕ → List ℕ → List ℕ → PqcParams → Ptr → ℕ → State → KeyPair State → Type 0
  Makes p q old_pk old_sk params seed seed_len s r =
      let a = randombytes_safe (at p old_pk) params.public_key_size s in
      let b = randombytes_safe (at q old_sk) params.secret_key_size a.state in
      ((a.status ≡ success)
        × (b.status ≡ success)
        × (r.result ≡ pqc_success)
        × Wrote seed seed_len p old_pk params.public_key_size a.buf r.public_key
        × Wrote seed seed_len q old_sk params.secret_key_size b.buf r.secret_key
        × (r.state ≡ b.state))
      ⊎ ((is_ok a.status ≡ false) × (r.result ≡ pqc_rng_failure) × (r.state ≡ a.state))
      ⊎ ((a.status ≡ success)
          × (is_ok b.status ≡ false)
          × (r.result ≡ pqc_rng_failure)
          × (r.state ≡ b.state))

  make_keys-Makes :
      (params : PqcParams) (p q : ℕ) (old_pk old_sk : List ℕ) (seed : Ptr) (seed_len : ℕ)
      (s : State)
      → 0 < params.public_key_size
      → 0 < params.secret_key_size
      → Makes p q old_pk old_sk params seed seed_len s
          (make_keys R params (at p old_pk) (at q old_sk) seed seed_len s)
  unfolding make_keys
  make_keys-Makes params p q old_pk old_sk seed seed_len s hp hs =
      let a = randombytes_safe (at p old_pk) params.public_key_size s in
      let b = randombytes_safe (at q old_sk) params.secret_key_size a.state in
      elim (fills p params.public_key_size old_pk s hp) [
        | inr bad ↦ inr (inl (bad, rw (make_keys, bad) refl, rw (make_keys, bad) refl))
        | inl (good, w) ↦ elim (fills q params.secret_key_size old_sk a.state hs) [
          | inr bad ↦
              inr (inr (good, bad, rw (make_keys, good, bad) refl, rw (make_keys, good, bad) refl))
          | inl (good', w') ↦ inl (
            good,
            good',
            rw (make_keys, good, good') refl,
            rw (make_keys, good, good')
                (xor_with-Wrote p params.public_key_size seed_len old_pk seed a.buf w),
            rw (make_keys, good, good')
                (xor_with-Wrote q params.secret_key_size seed_len old_sk seed b.buf w'),
            rw (make_keys, good, good') refl,
          )
        ]
      ]

  -- For an algorithm of the table and buffers that are not NULL, `pqc_keygen` of the stub returns
  -- that a buffer is too small, and changes nothing, exactly if one of the lengths is below the size
  -- of its key. Else it asks the generator for the public key and then for the secret key. If both
  -- calls succeed it returns 0, and each key is the generator's bytes, those at the indices of the
  -- seed xored with it, with what follows them in the buffer as it was. If one fails, it returns the
  -- failure of the generator, and asks no more.
  pub pqc_keygen_cases :
      (algo : ℤ) (params : PqcParams) (p q : ℕ) (old_pk old_sk : List ℕ) (pk_len sk_len : ℕ)
      (seed : Ptr) (seed_len : ℕ) (s : State)
      → params_of algo ≡ some params
      → let r = pqc_keygen R algo (at p old_pk) pk_len (at q old_sk) sk_len seed seed_len s in
        (((pk_len < params.public_key_size) ⊎ (sk_len < params.secret_key_size))
          × (r ≡ record {
            result = pqc_buffer_too_small;
            public_key = at p old_pk;
            secret_key = at q old_sk;
            state = s;
          }))
        ⊎ ((params.public_key_size ≤ pk_len)
            × (params.secret_key_size ≤ sk_len)
            × Makes p q old_pk old_sk params seed seed_len s r)
  unfolding pqc_keygen
  pqc_keygen_cases algo params p q old_pk old_sk pk_len sk_len seed seed_len s e =
      let sizes = params_of-IsEntry algo params e in
      let made = make_keys-Makes params p q old_pk old_sk seed seed_len s sizes.0 sizes.1 in
      elim (le-or-lt params.public_key_size pk_len) [
        | inr short ↦
            rw (pqc_keygen, e, lt→ltb pk_len params.public_key_size short) (inl (inl short, refl))
        | inl fits ↦ elim (le-or-lt params.secret_key_size sk_len) [
          | inr short ↦
              rw
                (
                  pqc_keygen,
                  e,
                  le→ltb pk_len params.public_key_size fits,
                  lt→ltb sk_len params.secret_key_size short,
                )
                (inl (inr short, refl))
          | inl fits' ↦
              rw
                (
                  pqc_keygen,
                  e,
                  le→ltb pk_len params.public_key_size fits,
                  le→ltb sk_len params.secret_key_size fits',
                )
                (inr (fits, fits', made))
        ]
      ]
