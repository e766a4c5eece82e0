-- ===== src/Pqc/Hybrid/Sizes.antt =====
-- What the hybrid wrappers write.
use tweetnacl_modular.Base.{
  ℕ, ◌+◌, ◌-◌, ◌^◌, ◌≤◌, ◌<◌, ◌≡◌, ◌⊎◌, ◌∙◌, inl, inr, refl, arith, false, le-or-lt, le→ltb, lt→ltb,
  ltb, some, List, ◌++◌, drop, replicate,
}
use tweetnacl_modular.Base.Int.{ℤ}
use tweetnacl_modular.Memory.{at}
use tweetnacl_modular.Memory.Wipe.{secure_zero_lem}
use tweetnacl_modular.Utils.{size_max}
use tweetnacl_modular.Pqc.Params.{PqcParams, params_of, pqc_success, pqc_buffer_too_small}
use tweetnacl_modular.Pqc.Table.{params_of-IsEntry}
use tweetnacl_modular.Pqc.Hybrid.{send_zeros, pqc_hybrid_encapsulate}

send_zeros_cases :
    (ct_size p q ct_len ss_len : ℕ) (ct ss : List ℕ)
    → 32 + ct_size < 2 ^ 64
    → ((ct_len < 32 + ct_size)
        × (send_zeros ct_size (at p ct) ct_len (at q ss) ss_len ≡ record {
          result = pqc_buffer_too_small;
          ciphertext = at p ct;
          ciphertext_len = some (32 + ct_size);
          shared_secret = at q ss;
        }))
      ⊎ ((32 + ct_size ≤ ct_len)
          × (ss_len < 32)
          × (send_zeros ct_size (at p ct) ct_len (at q ss) ss_len ≡ record {
            result = pqc_buffer_too_small;
            ciphertext = at p ct;
            ciphertext_len = some (32 + ct_size);
            shared_secret = at q ss;
          }))
      ⊎ ((32 + ct_size ≤ ct_len)
          × (32 ≤ ss_len)
          × (send_zeros ct_size (at p ct) ct_len (at q ss) ss_len ≡ record {
            result = pqc_success;
            ciphertext = at p (replicate (32 + ct_size) 0 ++ drop (32 + ct_size) ct);
            ciphertext_len = some (32 + ct_size);
            shared_secret = at q (replicate 32 0 ++ drop 32 ss);
          }))
unfolding send_zeros
send_zeros_cases ct_size p q ct_len ss_len ct ss small =
    let sum : ltb (size_max - ct_size) 32 ≡ false = le→ltb (size_max - ct_size) 32 (omega arith) in
    elim (le-or-lt (32 + ct_size) ct_len) [
      | inr short ↦ inl (short, rw (send_zeros, sum, lt→ltb ct_len (32 + ct_size) short) refl)
      | inl fits ↦ elim (le-or-lt 32 ss_len) [
        | inr short ↦ inr (
            inl (
              fits,
              short,
              rw (send_zeros, sum, le→ltb ct_len (32 + ct_size) fits, lt→ltb ss_len 32 short) refl,
            ))
        | inl fits' ↦ inr (
            inr (
              fits,
              fits',
              rw
                  (
                    send_zeros,
                    sum,
                    le→ltb ct_len (32 + ct_size) fits,
                    le→ltb ss_len 32 fits',
                    secure_zero_lem p (32 + ct_size) ct,
                    secure_zero_lem q 32 ss,
                  )
                  refl,
            ))
      ]
    ]

-- For an algorithm of the table, a public key of the hybrid length and pointers that are not NULL,
-- `pqc_hybrid_encapsulate` of the stub returns that a buffer is too small, and writes the needed
-- length alone, exactly if the ciphertext has no room for 32 bytes more than the algorithm's, or the
-- secret none for 32. Else it returns 0, and the ciphertext and the shared secret are zeros
-- throughout: the public key has no part in them.
pub pqc_hybrid_encapsulate_cases :
    (algo : ℤ) (params : PqcParams) (o p q pk_len ct_len ss_len : ℕ) (pk ct ss : List ℕ)
    → params_of algo ≡ some params
    → 32 + params.public_key_size ≤ pk_len
    → let needed = 32 + params.ciphertext_size in
      let r =
        pqc_hybrid_encapsulate algo (at o pk) pk_len (at p ct) (some ct_len) (at q ss) ss_len in
      (((ct_len < needed) ⊎ (ss_len < 32))
        × (r ≡ record {
          result = pqc_buffer_too_small;
          ciphertext = at p ct;
          ciphertext_len = some needed;
          shared_secret = at q ss;
        }))
      ⊎ ((needed ≤ ct_len)
          × (32 ≤ ss_len)
          × (r ≡ record {
            result = pqc_success;
            ciphertext = at p (replicate needed 0 ++ drop needed ct);
            ciphertext_len = some needed;
            shared_secret = at q (replicate 32 0 ++ drop 32 ss);
          }))
unfolding pqc_hybrid_encapsulate
pqc_hybrid_encapsulate_cases algo params o p q pk_len ct_len ss_len pk ct ss known long =
    let size = params.ciphertext_size in
    let whole =
      pqc_hybrid_encapsulate algo (at o pk) pk_len (at p ct) (some ct_len) (at q ss) ss_len in
    let checked : whole ≡ send_zeros size (at p ct) ct_len (at q ss) ss_len =
      rw
        (
          pqc_hybrid_encapsulate,
          known,
          le→ltb pk_len 32 (omega arith),
          le→ltb (pk_len - 32) params.public_key_size (omega arith),
        )
        refl in
    elim (send_zeros_cases size p q ct_len ss_len ct ss (params_of-IsEntry algo params known).4) [
      | inl (short, e) ↦ inl (inl short, checked ∙ e)
      | inr (inl (fits, short, e)) ↦ inl (inr short, checked ∙ e)
      | inr (inr (fits, fits', e)) ↦ inr (fits, fits', checked ∙ e)
    ]
