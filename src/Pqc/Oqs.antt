-- ===== src/Pqc/Oqs.antt =====
-- src/drivers/crypto/pqc.c, key generation over liboqs (the build with WITH_PQC_LIBOQS). The
-- library is a parameter: which algorithms it has, what its objects hold, and what it makes.
use tweetnacl_modular.Base.{
  ℕ, ◌≤◌, ◌≡◌, ◌⊎◌, inl, inr, refl, le→ltb, ltb, if◌then◌else◌, Bool, true, false, not, ◌||◌,
  Option, none, some, List, [], ◌∷◌, replicate, drop, ◌++◌, Bool-cases, Option-cases, le-or-lt,
  lt→ltb, ◌<◌,
}
use tweetnacl_modular.Base.Int.{ℤ, pos, negsuc}
use tweetnacl_modular.Memory.{Ptr, at, is_null, contents}
use tweetnacl_modular.Memory.Secure.{secure_zero}
use tweetnacl_modular.Memory.Wipe.{secure_zero_lem}
use tweetnacl_modular.Secretbox.{refill}
use tweetnacl_modular.Pqc.Params.{
  pqc_success, pqc_invalid_param, pqc_buffer_too_small, pqc_not_supported,
  pqc_key_generation_failed, get_elem?,
}

-- The names that liboqs gives its algorithms.
pub data OqsName : Type 0 where
  kyber : ℕ → OqsName
  dilithium : ℕ → OqsName
  falcon : ℕ → OqsName
  sphincs_sha2_128f : OqsName
  sphincs_sha2_128s : OqsName
  sphincs_shake_128f : OqsName
  sphincs_shake_128s : OqsName

-- The cases of the `switch` in the order of the enumeration.
abbrev pub oqs_names : List OqsName
oqs_names =
    kyber 512
    ∷ kyber 768
    ∷ kyber 1024
    ∷ dilithium 2
    ∷ dilithium 3
    ∷ dilithium 5
    ∷ falcon 512
    ∷ falcon 1024
    ∷ sphincs_sha2_128f
    ∷ sphincs_sha2_128s
    ∷ sphincs_shake_128f
    ∷ sphincs_shake_128s
    ∷ []

unfoldable pub oqs_alg_name : ℤ → Option OqsName
oqs_alg_name (pos i) = get_elem? oqs_names i
oqs_alg_name (negsuc i) = none

-- An object of liboqs, of a KEM or a signature: the lengths of its keys; and what the generation of
-- a pair gives: whether it is OQS_SUCCESS, and the bytes of the two buffers after it.
pub record OqsObject : Type 0 where
  pub length_public_key : ℕ
  pub length_secret_key : ℕ
  pub keypair : List ℕ → List ℕ → Bool × List ℕ × List ℕ

-- Whether an algorithm is enabled, and its object, if it can be made.
pub record OqsKind : Type 0 where
  pub is_enabled : OqsName → Bool
  pub new : OqsName → Option OqsObject

pub record Oqs : Type 0 where
  pub kem : OqsKind
  pub sig : OqsKind

pub record OqsKeys : Type 0 where
  pub result : ℤ
  pub public_key : Ptr
  pub secret_key : Ptr

-- The branch for one kind of object; the two branches of the function differ in the kind only.
unfoldable pub keypair_of : Option OqsObject → Ptr → ℕ → Ptr → ℕ → OqsKeys
keypair_of none pk pk_len sk sk_len = record {
  result = pqc_key_generation_failed;
  public_key = pk;
  secret_key = sk;
}
keypair_of (some object) pk pk_len sk sk_len =
    let made = object.keypair (contents pk) (contents sk) in
    let made_pk = refill pk made.1 in
    let made_sk = refill sk made.2 in
    if ltb pk_len object.length_public_key || ltb sk_len object.length_secret_key
    then record { result = pqc_buffer_too_small; public_key = pk; secret_key = sk }
    else if not made.0
    then record {
      result = pqc_key_generation_failed;
      public_key = refill pk (secure_zero made_pk pk_len);
      secret_key = refill sk (secure_zero made_sk sk_len);
    }
    else record { result = pqc_success; public_key = made_pk; secret_key = made_sk }

unfoldable pub oqs_keygen : Oqs → ℤ → Ptr → ℕ → Ptr → ℕ → OqsKeys
unfolding keypair_of oqs_alg_name
oqs_keygen oqs algo pk pk_len sk sk_len = elim (oqs_alg_name algo) [
  | none ↦ record { result = pqc_not_supported; public_key = pk; secret_key = sk }
  | some name ↦
      if is_null pk || is_null sk
      then record { result = pqc_invalid_param; public_key = pk; secret_key = sk }
      else if oqs.kem.is_enabled name
      then keypair_of (oqs.kem.new name) pk pk_len sk sk_len
      else if oqs.sig.is_enabled name
      then keypair_of (oqs.sig.new name) pk pk_len sk sk_len
      else record { result = pqc_not_supported; public_key = pk; secret_key = sk }
]

-- A pair that was made: a success, with what the library wrote; or else buffers that are as they
-- were, or that hold zeros up to the lengths that the caller gave.
abbrev pub Keeps :
    ℕ → ℕ → List ℕ → List ℕ → ℕ → ℕ → (List ℕ → List ℕ → Bool × List ℕ × List ℕ) → OqsKeys → Type 0
Keeps p q pk sk pk_len sk_len keypair r =
    ((r.result ≡ pqc_success)
      × ((keypair pk sk).0 ≡ true)
      × (r.public_key ≡ at p (keypair pk sk).1)
      × (r.secret_key ≡ at q (keypair pk sk).2))
    ⊎ ((r.result ≡ pqc_key_generation_failed)
        × ((keypair pk sk).0 ≡ false)
        × (r.public_key ≡ at p (replicate pk_len 0 ++ drop pk_len (keypair pk sk).1))
        × (r.secret_key ≡ at q (replicate sk_len 0 ++ drop sk_len (keypair pk sk).2)))

-- What one kind of objects gives: no object; lengths that are too small; or a call of the library.
abbrev pub Outcome : ℕ → ℕ → List ℕ → List ℕ → ℕ → ℕ → Option OqsObject → OqsKeys → Type 0
Outcome p q pk sk pk_len sk_len none r =
    r ≡ record { result = pqc_key_generation_failed; public_key = at p pk; secret_key = at q sk }
Outcome p q pk sk pk_len sk_len (some object) r =
    (((pk_len < object.length_public_key) ⊎ (sk_len < object.length_secret_key))
      × (r ≡ record { result = pqc_buffer_too_small; public_key = at p pk; secret_key = at q sk }))
    ⊎ ((object.length_public_key ≤ pk_len)
        × (object.length_secret_key ≤ sk_len)
        × Keeps p q pk sk pk_len sk_len object.keypair r)

module _ (p q : ℕ) (pk sk : List ℕ) (pk_len sk_len : ℕ) where
  keypair_of-Outcome :
      (object : Option OqsObject)
      → Outcome p q pk sk pk_len sk_len object (keypair_of object (at p pk) pk_len (at q sk) sk_len)
  unfolding keypair_of
  keypair_of-Outcome none = refl
  keypair_of-Outcome (some object) = elim (le-or-lt object.length_public_key pk_len) [
    | inr short ↦ rw (lt→ltb pk_len object.length_public_key short) (inl (inl short, refl))
    | inl fits ↦ elim (le-or-lt object.length_secret_key sk_len) [
      | inr short ↦
          rw
            (
              le→ltb pk_len object.length_public_key fits,
              lt→ltb sk_len object.length_secret_key short,
            )
            (inl (inr short, refl))
      | inl fits' ↦ elim (Bool-cases (object.keypair pk sk).0) [
        | inl good ↦
            rw
              (
                le→ltb pk_len object.length_public_key fits,
                le→ltb sk_len object.length_secret_key fits',
                good,
              )
              (inr (fits, fits', inl (refl, refl, refl, refl)))
        | inr bad ↦
            rw
              (
                le→ltb pk_len object.length_public_key fits,
                le→ltb sk_len object.length_secret_key fits',
                bad,
                secure_zero_lem p pk_len (object.keypair pk sk).1,
                secure_zero_lem q sk_len (object.keypair pk sk).2,
              )
              (inr (fits, fits', inr (refl, refl, refl, refl)))
      ]
    ]
  ]

  -- Over any liboqs and for every algorithm, with buffers that are not NULL, the key generation over
  -- liboqs does one of these. It does not know the algorithm, or the library has it neither as a
  -- KEM nor as a signature: the return says so and the buffers stay. Else it takes the object of
  -- the KEM, or of the signature where there is no KEM. Without the object the return is a failure,
  -- with lengths below those of the object it is that a buffer is too small, and the buffers stay
  -- in both cases. Else the library makes a pair: if it succeeds, the buffers hold what it wrote;
  -- if it fails, every byte of both is 0, up to the lengths that the caller gave.
  pub oqs_keygen_cases :
      (oqs : Oqs) (algo : ℤ)
      → let r = oqs_keygen oqs algo (at p pk) pk_len (at q sk) sk_len in
        let refused : OqsKeys = record {
          result = pqc_not_supported;
          public_key = at p pk;
          secret_key = at q sk;
        } in
        ((oqs_alg_name algo ≡ none) × (r ≡ refused))
        ⊎ ((name : OqsName) × (oqs_alg_name algo ≡ some name)
            × (((oqs.kem.is_enabled name ≡ false)
                  × (oqs.sig.is_enabled name ≡ false)
                  × (r ≡ refused))
                ⊎ ((oqs.kem.is_enabled name ≡ true)
                    × Outcome p q pk sk pk_len sk_len (oqs.kem.new name) r)
                ⊎ ((oqs.kem.is_enabled name ≡ false)
                    × (oqs.sig.is_enabled name ≡ true)
                    × Outcome p q pk sk pk_len sk_len (oqs.sig.new name) r)))
  unfolding oqs_keygen
  oqs_keygen_cases oqs algo = elim (Option-cases (oqs_alg_name algo)) [
    | inl unknown ↦ inl (unknown, rw (oqs_keygen, unknown) refl)
    | inr (name, known) ↦ inr (
      name,
      known,
      elim (Bool-cases (oqs.kem.is_enabled name)) [
        | inl kem ↦
            inr (inl (kem, rw (oqs_keygen, known, kem) (keypair_of-Outcome (oqs.kem.new name))))
        | inr no_kem ↦ elim (Bool-cases (oqs.sig.is_enabled name)) [
          | inl sig ↦ inr (
              inr (
                no_kem,
                sig,
                rw (oqs_keygen, known, no_kem, sig) (keypair_of-Outcome (oqs.sig.new name)),
              ))
          | inr no_sig ↦ inl (no_kem, no_sig, rw (oqs_keygen, known, no_kem, no_sig) refl)
        ]
      ],
    )
  ]
