-- ===== src/Pqc/Stub.antt =====
-- src/drivers/crypto/pqc.c, the stub: key generation, encapsulation, decapsulation, signatures. A
-- result holds the return and what the buffers and the length pointer hold after the call.
pub mod Mix
pub mod Keys
pub mod Kinds
use tweetnacl_modular.Base.{
  ℕ, zero, suc, ◌+◌, ◌%◌, ◌==◌, bit_xor, ltb, min, if◌then◌else◌, Bool, true, false, not, ◌||◌,
  Option, none, some, List, [], ◌∷◌, get_or,
}
use tweetnacl_modular.Base.Int.{ℤ}
use tweetnacl_modular.Memory.{Ptr, is_null, contents}
use tweetnacl_modular.Secretbox.{refill, is_ok}
use tweetnacl_modular.Pqc.Params.{
  PqcParams, params_of, pqc_success, pqc_invalid_param, pqc_buffer_too_small, pqc_not_supported,
  pqc_verification_failed, pqc_rng_failure,
}
use tweetnacl_modular.Rng.Source.{RandomSource, Made}

-- `buf[i] ^= pattern[i % len]` from index `i` on, with the rounds left.
unfoldable pub xor_pattern : ℕ → ℕ → List ℕ → ℕ → List ℕ → List ℕ
xor_pattern zero i pattern len bs = bs
xor_pattern (suc rounds) i pattern len [] = []
xor_pattern (suc rounds) i pattern len (b ∷ bs) =
    bit_xor b (get_or pattern (i % len) 0) ∷ xor_pattern rounds (suc i) pattern len bs

-- The loop over the first `size` bytes, if there is a pattern.
unfoldable pub xor_with : Ptr → ℕ → ℕ → Ptr → Ptr
unfolding xor_pattern
xor_with pattern len size buf =
    if is_null pattern || len == 0
    then buf
    else refill buf (xor_pattern size 0 (contents pattern) len (contents buf))

pub record KeyPair (State : Type 0) : Type 0 where
  pub result : ℤ
  pub public_key : Ptr
  pub secret_key : Ptr
  pub state : State

pub record Sent (State : Type 0) : Type 0 where
  pub result : ℤ
  pub ciphertext : Ptr
  pub ciphertext_len : Option ℕ
  pub shared_secret : Ptr
  pub state : State

pub record Received (State : Type 0) : Type 0 where
  pub result : ℤ
  pub shared_secret : Ptr
  pub state : State

pub record Signed (State : Type 0) : Type 0 where
  pub result : ℤ
  pub signature : Ptr
  pub signature_len : Option ℕ
  pub state : State

-- `shared_secret[i] ^= ciphertext[..]; shared_secret[i] ^= secret_key[..]`, with the rounds left.
unfoldable pub mix_secret : ℕ → ℕ → List ℕ → ℕ → List ℕ → ℕ → List ℕ → List ℕ
mix_secret zero i ct ct_len sk sk_len bs = bs
mix_secret (suc rounds) i ct ct_len sk sk_len [] = []
mix_secret (suc rounds) i ct ct_len sk sk_len (b ∷ bs) =
    bit_xor (bit_xor b (get_or ct (i % ct_len) 0)) (get_or sk (i % sk_len) 0)
    ∷ mix_secret rounds (suc i) ct ct_len sk sk_len bs

module _ (R : RandomSource) where
  open R use {State, randombytes_safe}

  -- The part of `pqc_keygen` after its checks.
  unfoldable pub make_keys : PqcParams → Ptr → Ptr → Ptr → ℕ → State → KeyPair State
  unfolding xor_with
  make_keys params pk sk seed seed_len s =
      let a = randombytes_safe pk params.public_key_size s in
      let b = randombytes_safe sk params.secret_key_size a.state in
      if not (is_ok a.status)
      then record { result = pqc_rng_failure; public_key = a.buf; secret_key = sk; state = a.state }
      else if not (is_ok b.status)
      then record {
        result = pqc_rng_failure;
        public_key = a.buf;
        secret_key = b.buf;
        state = b.state;
      }
      else record {
        result = pqc_success;
        public_key = xor_with seed seed_len (min params.public_key_size seed_len) a.buf;
        secret_key = xor_with seed seed_len (min params.secret_key_size seed_len) b.buf;
        state = b.state;
      }

  unfoldable pub pqc_keygen : ℤ → Ptr → ℕ → Ptr → ℕ → Ptr → ℕ → State → KeyPair State
  unfolding make_keys
  pqc_keygen algo pk pk_len sk sk_len seed seed_len s =
      let stop : ℤ → KeyPair State =
        λ result. record { result = result; public_key = pk; secret_key = sk; state = s } in
      elim (params_of algo) [
        | none ↦ stop pqc_not_supported
        | some params ↦
            if is_null pk || is_null sk
            then stop pqc_invalid_param
            else if ltb pk_len params.public_key_size || ltb sk_len params.secret_key_size
            then stop pqc_buffer_too_small
            else make_keys params pk sk seed seed_len s
      ]

  -- The part of `pqc_encapsulate` after its checks. The secret is made twice, and mixed with
  -- `random` each time.
  unfoldable pub make_secret : PqcParams → Ptr → Ptr → Ptr → ℕ → State → Sent State
  unfolding xor_with
  make_secret params ct ss random random_len s =
      let a = randombytes_safe ct params.ciphertext_size s in
      let b = randombytes_safe ss params.shared_secret_size a.state in
      let mixed = xor_with random random_len (min params.shared_secret_size random_len) b.buf in
      let c = randombytes_safe mixed params.shared_secret_size b.state in
      let sent : ℤ → Ptr → State → Sent State = λ result secret t. record {
        result = result;
        ciphertext = a.buf;
        ciphertext_len = some params.ciphertext_size;
        shared_secret = secret;
        state = t;
      } in
      if not (is_ok a.status)
      then sent pqc_rng_failure ss a.state
      else if not (is_ok b.status)
      then sent pqc_rng_failure b.buf b.state
      else if not (is_ok c.status)
      then sent pqc_rng_failure c.buf c.state
      else sent pqc_success
          (xor_with random random_len (min params.shared_secret_size random_len) c.buf) c.state

  unfoldable pub pqc_encapsulate :
      ℤ → Ptr → ℕ → Ptr → Option ℕ → Ptr → ℕ → Ptr → ℕ → State → Sent State
  unfolding make_secret
  pqc_encapsulate algo pk pk_len ct none ss ss_len random random_len s = record {
    result = pqc_invalid_param;
    ciphertext = ct;
    ciphertext_len = none;
    shared_secret = ss;
    state = s;
  }
  pqc_encapsulate algo pk pk_len ct (some ct_len) ss ss_len random random_len s =
      let stop : ℤ → ℕ → Sent State = λ result held. record {
        result = result;
        ciphertext = ct;
        ciphertext_len = some held;
        shared_secret = ss;
        state = s;
      } in
      if is_null pk || (is_null ct || is_null ss)
      then stop pqc_invalid_param ct_len
      else elim (params_of algo) [
        | none ↦ stop pqc_not_supported ct_len
        | some params ↦
            if ltb pk_len params.public_key_size
            then stop pqc_buffer_too_small ct_len
            else if ltb ct_len params.ciphertext_size
            then stop pqc_buffer_too_small params.ciphertext_size
            else if ltb ss_len params.shared_secret_size
            then stop pqc_buffer_too_small ct_len
            else make_secret params ct ss random random_len s
      ]

  -- The part of `pqc_decapsulate` after its checks. `none` is the remainder by 0.
  unfoldable pub open_secret : PqcParams → Ptr → ℕ → Ptr → ℕ → Ptr → State → Option (Received State)
  unfolding mix_secret
  open_secret params sk sk_len ct ct_len ss s =
      let a = randombytes_safe ss params.shared_secret_size s in
      if not (is_ok a.status)
      then some (record { result = pqc_rng_failure; shared_secret = a.buf; state = a.state })
      else if ct_len == 0 || sk_len == 0
      then none
      else some (record {
        result = pqc_success;
        shared_secret = refill a.buf (
            mix_secret params.shared_secret_size 0 (contents ct) ct_len (contents sk) sk_len
              (contents a.buf));
        state = a.state;
      })

  unfoldable pub pqc_decapsulate : ℤ → Ptr → ℕ → Ptr → ℕ → Ptr → ℕ → State → Option (Received State)
  unfolding open_secret
  pqc_decapsulate algo sk sk_len ct ct_len ss ss_len s =
      let stop : ℤ → Option (Received State) =
        λ result. some (record { result = result; shared_secret = ss; state = s }) in
      if is_null sk || (is_null ct || is_null ss)
      then stop pqc_invalid_param
      else elim (params_of algo) [
        | none ↦ stop pqc_not_supported
        | some params ↦
            if ltb sk_len params.secret_key_size || ltb ct_len params.ciphertext_size
            then stop pqc_buffer_too_small
            else if ltb ss_len params.shared_secret_size
            then stop pqc_buffer_too_small
            else open_secret params sk sk_len ct ct_len ss s
      ]

  -- The part of `pqc_sign` after its checks. Both loops run over the whole signature.
  unfoldable pub make_signature : PqcParams → Ptr → ℕ → Ptr → Ptr → ℕ → State → Signed State
  unfolding xor_with
  make_signature params message message_len sig random random_len s =
      let a = randombytes_safe sig params.signature_size s in
      let signed : ℤ → Ptr → Signed State = λ result buf. record {
        result = result;
        signature = buf;
        signature_len = some params.signature_size;
        state = a.state;
      } in
      if not (is_ok a.status)
      then signed pqc_rng_failure a.buf
      else signed pqc_success (
          xor_with random random_len params.signature_size
            (xor_with message message_len params.signature_size a.buf))

  unfoldable pub pqc_sign : ℤ → Ptr → ℕ → Ptr → ℕ → Ptr → Option ℕ → Ptr → ℕ → State → Signed State
  unfolding make_signature
  pqc_sign algo sk sk_len message message_len sig none random random_len s = record {
    result = pqc_invalid_param;
    signature = sig;
    signature_len = none;
    state = s;
  }
  pqc_sign algo sk sk_len message message_len sig (some sig_len) random random_len s =
      let stop : ℤ → ℕ → Signed State = λ result held. record {
        result = result;
        signature = sig;
        signature_len = some held;
        state = s;
      } in
      if is_null sk || (is_null message || is_null sig)
      then stop pqc_invalid_param sig_len
      else elim (params_of algo) [
        | none ↦ stop pqc_not_supported sig_len
        | some params ↦
            if ltb sk_len params.secret_key_size
            then stop pqc_buffer_too_small sig_len
            else if ltb sig_len params.signature_size
            then stop pqc_buffer_too_small params.signature_size
            else make_signature params message message_len sig random random_len s
      ]

unfoldable pub pqc_verify : ℤ → Ptr → ℕ → Ptr → ℕ → Ptr → ℕ → ℤ
pqc_verify algo pk pk_len message message_len sig sig_len =
    if is_null pk || (is_null message || is_null sig)
    then pqc_invalid_param
    else elim (params_of algo) [
      | none ↦ pqc_not_supported
      | some params ↦
          if ltb pk_len params.public_key_size || ltb sig_len params.signature_size
          then pqc_buffer_too_small
          else pqc_verification_failed
    ]
