-- ===== src/Tests/Quantum.antt =====
-- The post-quantum wrappers over the generator of the library, and over a small liboqs.
use tweetnacl_modular.Base.{
  ℕ, suc, ◌+◌, ◌≤◌, ◌<◌, ◌≡◌, ◌≢◌, ◌⊎◌, refl, arith, false, true, none, some, List, [], ◌∷◌, ◌++◌,
  drop, replicate,
}
use tweetnacl_modular.Base.Int.{pos}
use tweetnacl_modular.Memory.{null, at}
use tweetnacl_modular.Secretbox.{is_ok}
use tweetnacl_modular.Status.{success}
use tweetnacl_modular.Rng.Drng.{drng_zero}
use tweetnacl_modular.Rng.Randombytes.{bytes, randombytes_safe}
use tweetnacl_modular.Pqc.Params.{
  PqcParams, entry, pqc_success, pqc_buffer_too_small, pqc_rng_failure, pqc_not_supported,
  params_of,
}
use tweetnacl_modular.Pqc.Generator.{System, system_random, generator_source}
use tweetnacl_modular.Pqc.Stub.{
  Received, pqc_keygen, pqc_encapsulate, pqc_decapsulate, pqc_sign, pqc_verify,
}
use tweetnacl_modular.Pqc.Stub.Keys.{Makes, pqc_keygen_cases}
use tweetnacl_modular.Pqc.Stub.Kinds.{pqc_verify_never, pqc_kinds, pqc_decapsulate_traps}
use tweetnacl_modular.Pqc.Hybrid.{pqc_hybrid_encapsulate, pqc_hybrid_keygen}
use tweetnacl_modular.Pqc.Hybrid.Sizes.{pqc_hybrid_encapsulate_cases}
use tweetnacl_modular.Pqc.Hybrid.Keys.{HybridWrote, inner, pqc_hybrid_keygen_cases}
use tweetnacl_modular.Pqc.Oqs.{
  Oqs, OqsObject, OqsName, OqsKeys, Outcome, oqs_alg_name, oqs_keygen, oqs_keygen_cases,
}

-- SPHINCS-SHA2-128F, number 8, has keys of 16 bytes.
abbrev sphincs : PqcParams
sphincs = entry 16 16 0 17088 16 "SPHINCS-SHA2-128F"

abbrev kyber512 : PqcParams
kyber512 = entry 800 1632 768 0 16 "KYBER512"

abbrev plenty : List ℕ
plenty = replicate 40 33

abbrev system : System
system = (
  record { randombytes_call_count = 0; randombytes_initialized = 0; drng = drng_zero },
  (bytes plenty ∷ []) ∷ (bytes plenty ∷ []) ∷ [],
)

sphincs_known : params_of (pos 8) ≡ some sphincs
unfolding params_of
sphincs_known = refl

kyber_known : params_of (pos 0) ≡ some kyber512
unfolding params_of
kyber_known = refl

pqc_keygen_cases_example :
    let r =
      pqc_keygen generator_source
        (pos 8)
        (at 100 plenty)
        16
        (at 200 plenty)
        40
        (at 300 plenty)
        20
        system in
    (((16 < 16) ⊎ (40 < 16))
      × (r ≡ record {
        result = pqc_buffer_too_small;
        public_key = at 100 plenty;
        secret_key = at 200 plenty;
        state = system;
      }))
    ⊎ ((16 ≤ 16)
        × (16 ≤ 40)
        × Makes generator_source 100 200 plenty plenty sphincs (at 300 plenty) 20 system r)
pqc_keygen_cases_example =
    pqc_keygen_cases generator_source (pos 8) sphincs 100 200 plenty plenty 16 40 (at 300 plenty) 20
      system sphincs_known

pqc_verify_never_example :
    pqc_verify (pos 8) (at 100 plenty) 40 (at 200 plenty) 40 (at 300 plenty) 20000 ≢ pqc_success
pqc_verify_never_example =
    pqc_verify_never (pos 8) (at 100 plenty) (at 200 plenty) (at 300 plenty) 40 40 20000

pqc_kinds_example :
    let signed =
      pqc_sign generator_source
        (pos 0)
        (at 100 plenty)
        1632
        (at 200 plenty)
        40
        (at 300 plenty)
        (some 0)
        null
        0
        system in
    let sent =
      pqc_encapsulate generator_source
        (pos 0)
        (at 100 plenty)
        800
        (at 200 plenty)
        (some 768)
        (at 300 plenty)
        16
        null
        0
        system in
    ((0 < 768)
      × (signed.result ≡ pqc_rng_failure)
      × (signed.state ≡ (system_random (at 300 plenty) 0 system).state))
    ⊎ ((0 < 0)
        × (sent.result ≡ pqc_rng_failure)
        × (sent.state ≡ (system_random (at 200 plenty) 0 system).state))
pqc_kinds_example =
    pqc_kinds generator_source (pos 0) kyber512 kyber_known 100 200 300 plenty plenty plenty 800 768
      16 1632 40 0 0 null system (omega arith) (omega arith) (omega arith) (omega arith)
      (omega arith)

random_answers : is_ok (system_random (at 300 plenty) 16 system).status ≡ true
unfolding randombytes_safe
random_answers = refl

pqc_decapsulate_traps_example :
    (pqc_decapsulate generator_source
        (pos 8)
        (at 100 plenty)
        40
        (at 200 plenty)
        0
        (at 300 plenty)
        40
        system
      ≡ none)
    × ((r : Received System) × (pqc_decapsulate generator_source
            (pos 8)
            (at 100 plenty)
            40
            (at 200 plenty)
            (suc 9)
            (at 300 plenty)
            40
            system
          ≡ some r)
        × (r.result ≡ pqc_success))
pqc_decapsulate_traps_example =
    pqc_decapsulate_traps generator_source (pos 8) sphincs sphincs_known 100 200 300 plenty plenty
      plenty 40 9 40 system (omega arith) refl (omega arith) random_answers

pqc_hybrid_encapsulate_cases_example :
    let r =
      pqc_hybrid_encapsulate
        (pos 8)
        (at 100 plenty)
        48
        (at 200 plenty)
        (some 40)
        (at 300 plenty)
        32 in
    (((40 < 32 + 0) ⊎ (32 < 32))
      × (r ≡ record {
        result = pqc_buffer_too_small;
        ciphertext = at 200 plenty;
        ciphertext_len = some (32 + 0);
        shared_secret = at 300 plenty;
      }))
    ⊎ ((32 + 0 ≤ 40)
        × (32 ≤ 32)
        × (r ≡ record {
          result = pqc_success;
          ciphertext = at 200 (replicate (32 + 0) 0 ++ drop (32 + 0) plenty);
          ciphertext_len = some (32 + 0);
          shared_secret = at 300 (replicate 32 0 ++ drop 32 plenty);
        }))
pqc_hybrid_encapsulate_cases_example =
    pqc_hybrid_encapsulate_cases (pos 8) sphincs 100 200 300 48 40 32 plenty plenty plenty
      sphincs_known (omega arith)

-- Buffers of 40 bytes, for keys of 48.
pqc_hybrid_keygen_cases_example :
    let r =
      pqc_hybrid_keygen generator_source
        (pos 8)
        (at 100 plenty)
        (some 40)
        (at 200 plenty)
        (some 40)
        system in
    let a = system_random (inner 100 16 plenty) 16 system in
    let b = system_random (inner 200 16 plenty) 16 a.state in
    (((a.status ≡ success)
        × (b.status ≡ success)
        × (r.result ≡ pqc_success)
        × HybridWrote 100 plenty 16 a.buf r.public_key
        × HybridWrote 200 plenty 16 b.buf r.secret_key)
      ⊎ (((is_ok a.status ≡ false) ⊎ (is_ok b.status ≡ false)) × (r.result ≡ pqc_rng_failure)))
    × (r.public_key_len ≡ some (32 + 16))
    × (r.secret_key_len ≡ some (32 + 16))
pqc_hybrid_keygen_cases_example =
    pqc_hybrid_keygen_cases generator_source (pos 8) sphincs 100 200 40 40 plenty plenty system
      sphincs_known

-- A liboqs whose key generation always fails, after it wrote the keys.
abbrev failing : OqsObject
failing = record {
  length_public_key = 8;
  length_secret_key = 16;
  keypair = λ pk sk. (false, replicate 8 5 ++ drop 8 pk, replicate 16 6 ++ drop 16 sk);
}

abbrev small_oqs : Oqs
small_oqs = record {
  kem = record { is_enabled = λ name. true; new = λ name. some failing };
  sig = record { is_enabled = λ name. false; new = λ name. none };
}

oqs_keygen_cases_example :
    let r = oqs_keygen small_oqs (pos 0) (at 100 plenty) 20 (at 200 plenty) 30 in
    let refused : OqsKeys = record {
      result = pqc_not_supported;
      public_key = at 100 plenty;
      secret_key = at 200 plenty;
    } in
    ((oqs_alg_name (pos 0) ≡ none) × (r ≡ refused))
    ⊎ ((name : OqsName) × (oqs_alg_name (pos 0) ≡ some name)
        × (((small_oqs.kem.is_enabled name ≡ false)
              × (small_oqs.sig.is_enabled name ≡ false)
              × (r ≡ refused))
            ⊎ ((small_oqs.kem.is_enabled name ≡ true)
                × Outcome 100 200 plenty plenty 20 30 (small_oqs.kem.new name) r)
            ⊎ ((small_oqs.kem.is_enabled name ≡ false)
                × (small_oqs.sig.is_enabled name ≡ true)
                × Outcome 100 200 plenty plenty 20 30 (small_oqs.sig.new name) r)))
oqs_keygen_cases_example = oqs_keygen_cases 100 200 plenty plenty 20 30 small_oqs (pos 0)
