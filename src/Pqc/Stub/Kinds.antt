-- ===== src/Pqc/Stub/Kinds.antt =====
-- The stub and the two kinds of algorithms: for keys, and for signatures.
use tweetnacl_modular.Base.{
  ℕ, suc, ◌≤◌, ◌<◌, ◌≡◌, ◌≢◌, ◌⊎◌, inl, inr, refl, sym, ◌∙◌, arith, true, false, Bool-cases, le→ltb,
  ltb, ◌||◌, ◌==◌, none, some, List, Option-cases,
}
use tweetnacl_modular.Base.Int.{ℤ}
use tweetnacl_modular.Memory.{Ptr, at, is_null, contents}
use tweetnacl_modular.Secretbox.{is_ok, refill}
use tweetnacl_modular.Pqc.Params.{
  PqcParams, params_of, pqc_success, pqc_invalid_param, pqc_buffer_too_small, pqc_not_supported,
  pqc_rng_failure, pqc_verification_failed,
}
use tweetnacl_modular.Pqc.Table.{params_of-IsEntry}
use tweetnacl_modular.Rng.Source.{RandomSource}
use tweetnacl_modular.Pqc.Stub.{
  Received, make_secret, make_signature, open_secret, pqc_encapsulate, pqc_sign, pqc_decapsulate,
  pqc_verify, mix_secret,
}

-- `pqc_verify` of the stub accepts no signature: its result is not success, whatever the algorithm,
-- the pointers and the lengths.
pub pqc_verify_never :
    (algo : ℤ) (pk message sig : Ptr) (pk_len message_len sig_len : ℕ)
    → pqc_verify algo pk pk_len message message_len sig sig_len ≢ pqc_success
unfolding pqc_verify
pqc_verify_never algo pk message sig pk_len message_len sig_len e =
    elim (Bool-cases (is_null pk || (is_null message || is_null sig))) [
      | inl nulls ↦
          let stops : pqc_invalid_param ≡ pqc_success = sym (rw (pqc_verify, nulls) refl) ∙ e in
          absurd (cc)
      | inr there ↦ elim (Option-cases (params_of algo)) [
        | inl unknown ↦
            let stops : pqc_not_supported ≡ pqc_success =
              sym (rw (pqc_verify, there, unknown) refl) ∙ e in
            absurd (cc)
        | inr (params, known) ↦
            elim (Bool-cases
              (ltb pk_len params.public_key_size || ltb sig_len params.signature_size)) [
                | inl short ↦
                    let stops : pqc_buffer_too_small ≡ pqc_success =
                      sym (rw (pqc_verify, there, known, short) refl) ∙ e in
                    absurd (cc)
                | inr fits ↦
                    let stops : pqc_verification_failed ≡ pqc_success =
                      sym (rw (pqc_verify, there, known, fits) refl) ∙ e in
                    absurd (cc)
              ]
      ]
    ]

module _ (R : RandomSource) where
  open R use {State, randombytes_safe, empty_fails}

  -- A size of 0 is a call of the generator for 0 bytes, which fails.
  make_secret-signature :
      (params : PqcParams) (ct ss random : Ptr) (random_len : ℕ) (s : State)
      → params.ciphertext_size ≡ 0
      → let r = make_secret R params ct ss random random_len s in
        (r.result ≡ pqc_rng_failure) × (r.state ≡ (randombytes_safe ct 0 s).state)
  unfolding make_secret
  make_secret-signature params ct ss random random_len s e = rw (e, empty_fails ct s) (refl, refl)

  make_signature-kem :
      (params : PqcParams) (message sig random : Ptr) (message_len random_len : ℕ) (s : State)
      → params.signature_size ≡ 0
      → let r = make_signature R params message message_len sig random random_len s in
        (r.result ≡ pqc_rng_failure) × (r.state ≡ (randombytes_safe sig 0 s).state)
  unfolding make_signature
  make_signature-kem params message sig random message_len random_len s e =
      rw (e, empty_fails sig s) (refl, refl)

  module _ (algo : ℤ) (params : PqcParams) (known : params_of algo ≡ some params) (a b c : ℕ)
      (xs ys zs : List ℕ) where
    encapsulate_signature :
        (pk_len ct_len ss_len random_len : ℕ) (random : Ptr) (s : State)
        → params.public_key_size ≤ pk_len
        → params.ciphertext_size ≤ ct_len
        → params.shared_secret_size ≤ ss_len
        → params.ciphertext_size ≡ 0
        → let r =
            pqc_encapsulate R algo
              (at a xs)
              pk_len
              (at b ys)
              (some ct_len)
              (at c zs)
              ss_len
              random
              random_len
              s in
          (r.result ≡ pqc_rng_failure) × (r.state ≡ (randombytes_safe (at b ys) 0 s).state)
    unfolding pqc_encapsulate
    encapsulate_signature pk_len ct_len ss_len random_len random s h h' h'' e =
        rw
          (
            pqc_encapsulate,
            known,
            le→ltb pk_len params.public_key_size h,
            le→ltb ct_len params.ciphertext_size h',
            le→ltb ss_len params.shared_secret_size h'',
          )
          (make_secret-signature params (at b ys) (at c zs) random random_len s e)

    sign_kem :
        (sk_len message_len sig_len random_len : ℕ) (random : Ptr) (s : State)
        → params.secret_key_size ≤ sk_len
        → params.signature_size ≤ sig_len
        → params.signature_size ≡ 0
        → let r =
            pqc_sign R algo
              (at a xs)
              sk_len
              (at b ys)
              message_len
              (at c zs)
              (some sig_len)
              random
              random_len
              s in
          (r.result ≡ pqc_rng_failure) × (r.state ≡ (randombytes_safe (at c zs) 0 s).state)
    unfolding pqc_sign
    sign_kem sk_len message_len sig_len random_len random s h h' e =
        rw
          (
            pqc_sign,
            known,
            le→ltb sk_len params.secret_key_size h,
            le→ltb sig_len params.signature_size h',
          )
          (make_signature-kem params (at b ys) (at c zs) random message_len random_len s e)

    -- For an algorithm of the table, with pointers that are not NULL and lengths that suffice: if it
    -- is for keys, `pqc_sign` of the stub returns the failure of the generator; and if it is for
    -- signatures, `pqc_encapsulate` does. In both cases the generator is left as a call for 0 bytes
    -- leaves it.
    pub pqc_kinds :
        (pk_len ct_len ss_len sk_len message_len sig_len random_len : ℕ) (random : Ptr) (s : State)
        → params.public_key_size ≤ pk_len
        → params.ciphertext_size ≤ ct_len
        → params.shared_secret_size ≤ ss_len
        → params.secret_key_size ≤ sk_len
        → params.signature_size ≤ sig_len
        → let signed =
            pqc_sign R algo
              (at a xs)
              sk_len
              (at b ys)
              message_len
              (at c zs)
              (some sig_len)
              random
              random_len
              s in
          let sent =
            pqc_encapsulate R algo
              (at a xs)
              pk_len
              (at b ys)
              (some ct_len)
              (at c zs)
              ss_len
              random
              random_len
              s in
          ((0 < params.ciphertext_size)
            × (signed.result ≡ pqc_rng_failure)
            × (signed.state ≡ (randombytes_safe (at c zs) 0 s).state))
          ⊎ ((0 < params.signature_size)
              × (sent.result ≡ pqc_rng_failure)
              × (sent.state ≡ (randombytes_safe (at b ys) 0 s).state))
    pqc_kinds pk_len ct_len ss_len sk_len message_len sig_len random_len random s p1 p2 p3 p4 p5 =
        elim (params_of-IsEntry algo params known).3 [
          | inl (for_keys, none_signed) ↦
              let fails =
                sign_kem sk_len message_len sig_len random_len random s p4 p5 none_signed in
              inl (for_keys, fails.0, fails.1)
          | inr (none_sent, for_signatures) ↦
              let fails =
                encapsulate_signature pk_len ct_len ss_len random_len random s p1 p2 p3 none_sent in
              inr (for_signatures, fails.0, fails.1)
        ]

    -- For a signature algorithm, with pointers that are not NULL, lengths that suffice and a
    -- ciphertext of length 0, if the generator answers, `pqc_decapsulate` of the stub takes a
    -- remainder by 0, which is undefined; with a ciphertext that is not empty it returns.
    pub pqc_decapsulate_traps :
        (sk_len ct_len ss_len : ℕ) (s : State)
        → params.secret_key_size ≤ sk_len
        → params.ciphertext_size ≡ 0
        → params.shared_secret_size ≤ ss_len
        → is_ok (randombytes_safe (at c zs) params.shared_secret_size s).status ≡ true
        → (pqc_decapsulate R algo (at a xs) sk_len (at b ys) 0 (at c zs) ss_len s ≡ none)
          × ((r : Received State) × (pqc_decapsulate R algo
                  (at a xs)
                  sk_len
                  (at b ys)
                  (suc ct_len)
                  (at c zs)
                  ss_len
                  s
                ≡ some r)
              × (r.result ≡ pqc_success))
    unfolding pqc_decapsulate open_secret
    pqc_decapsulate_traps sk_len ct_len ss_len s h e h' good =
        let sizes = params_of-IsEntry algo params known in
        let made = randombytes_safe (at c zs) params.shared_secret_size s in
        let key : (sk_len == 0) ≡ false = ground (arith, sizes.1) in
        let text : (suc ct_len == 0) ≡ false = ground arith in
        let small : ltb 0 params.ciphertext_size ≡ false = ground arith in
        let small' : ltb (suc ct_len) params.ciphertext_size ≡ false = ground arith in
        (
          rw
              (
                pqc_decapsulate,
                known,
                le→ltb sk_len params.secret_key_size h,
                small,
                le→ltb ss_len params.shared_secret_size h',
                good,
              )
              refl,
          rw
              (
                pqc_decapsulate,
                known,
                le→ltb sk_len params.secret_key_size h,
                small',
                le→ltb ss_len params.shared_secret_size h',
                good,
                text,
                key,
              )
              (
                record {
                  result = pqc_success;
                  shared_secret = refill made.buf (
                      mix_secret params.shared_secret_size 0 ys (suc ct_len) xs sk_len
                        (contents made.buf));
                  state = made.state;
                },
                refl,
                refl,
              ),
        )
