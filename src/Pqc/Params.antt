-- ===== src/Pqc/Params.antt =====
-- src/drivers/crypto/pqc.c: results, the table of parameters, `pqc_get_params` and the names.
use Prim.Native.String.{String}
use tweetnacl_modular.Base.{ℕ, zero, suc, Option, none, some, List, [], ◌∷◌}
use tweetnacl_modular.Base.Int.{ℤ, pos, negsuc}

abbrev pub pqc_success : ℤ
pqc_success = pos 0

abbrev pub pqc_invalid_param : ℤ
pqc_invalid_param = negsuc 0

abbrev pub pqc_buffer_too_small : ℤ
pqc_buffer_too_small = negsuc 1

abbrev pub pqc_not_supported : ℤ
pqc_not_supported = negsuc 2

abbrev pub pqc_key_generation_failed : ℤ
pqc_key_generation_failed = negsuc 3

abbrev pub pqc_verification_failed : ℤ
pqc_verification_failed = negsuc 7

abbrev pub pqc_memory_allocation : ℤ
pqc_memory_allocation = negsuc 8

abbrev pub pqc_rng_failure : ℤ
pqc_rng_failure = negsuc 9

-- `pqc_params_t`, less the description.
pub record PqcParams : Type 0 where
  pub public_key_size : ℕ
  pub secret_key_size : ℕ
  pub ciphertext_size : ℕ
  pub signature_size : ℕ
  pub shared_secret_size : ℕ
  pub name : String

-- An entry, its sizes in the order of the fields.
abbrev pub entry : ℕ → ℕ → ℕ → ℕ → ℕ → String → PqcParams
entry pk sk ct sig ss name = record {
  public_key_size = pk;
  secret_key_size = sk;
  ciphertext_size = ct;
  signature_size = sig;
  shared_secret_size = ss;
  name = name;
}

abbrev pub pqc_params_table : List PqcParams
pqc_params_table =
    entry 800 1632 768 0 16 "KYBER512"
    ∷ entry 1184 2400 1088 0 32 "KYBER768"
    ∷ entry 1568 3168 1568 0 32 "KYBER1024"
    ∷ entry 1312 2560 0 2420 32 "DILITHIUM2"
    ∷ entry 1952 4032 0 4595 32 "DILITHIUM3"
    ∷ entry 2592 4896 0 4595 32 "DILITHIUM5"
    ∷ entry 897 1281 0 666 32 "FALCON512"
    ∷ entry 1793 2305 0 1026 32 "FALCON1024"
    ∷ entry 16 16 0 17088 16 "SPHINCS-SHA2-128F"
    ∷ entry 16 16 0 8008 16 "SPHINCS-SHA2-128S"
    ∷ entry 16 16 0 17088 16 "SPHINCS-SHAKE-128F"
    ∷ entry 16 16 0 8008 16 "SPHINCS-SHAKE-128S"
    ∷ []

abbrev pub get_elem? {ℓ} : {A : Type ℓ} → List A → ℕ → Option A
get_elem? [] i = none
get_elem? (x ∷ xs) zero = some x
get_elem? (x ∷ xs) (suc i) = get_elem? xs i

-- `pqc_params_table[algo]`, if the enumeration's value is in range.
unfoldable pub params_of : ℤ → Option PqcParams
params_of (pos i) = get_elem? pqc_params_table i
params_of (negsuc i) = none

-- `params` is NULL, or points to what it holds; the result, and what it holds after the call.
unfoldable pub pqc_get_params : ℤ → Option PqcParams → ℤ × Option PqcParams
unfolding params_of
pqc_get_params algo none = (pqc_invalid_param, none)
pqc_get_params algo (some old) = elim (params_of algo) [
  | none ↦ (pqc_not_supported, some old)
  | some params ↦ (pqc_success, some params)
]

unfoldable pub pqc_algorithm_to_string : ℤ → String
unfolding params_of
pqc_algorithm_to_string algo = elim (params_of algo) [
  | none ↦ "Unknown algorithm"
  | some params ↦ params.name
]

-- The texts of the errors from -1 on, and what is said of any other.
abbrev pub result_texts : List String
result_texts =
    "Invalid parameter" ∷ "Buffer too small" ∷ "Algorithm not supported" ∷ "Key generation failed"
    ∷ "Encryption failed" ∷ "Decryption failed" ∷ "Invalid signature" ∷ "Verification failed"
    ∷ "Memory allocation failed" ∷ []

unfoldable pub pqc_result_to_string : ℤ → String
pqc_result_to_string (pos zero) = "Success"
pqc_result_to_string (pos (suc n)) = "Unknown error"
pqc_result_to_string (negsuc n) = elim (get_elem? result_texts n) [
  | none ↦ "Unknown error"
  | some text ↦ text
]
