-- ===== src/Pqc/Hybrid.antt =====
-- src/drivers/crypto/pqc.c, the hybrid wrappers of the stub. A hybrid buffer is 32 bytes of
-- Curve25519, and then the post-quantum part.
pub mod Keys
pub mod Sizes
use tweetnacl_modular.Base.{
  ℕ, ◌+◌, ◌-◌, ◌^◌, ltb, if◌then◌else◌, Bool, not, ◌||◌, Option, none, some, List, ◌++◌, take,
}
use tweetnacl_modular.Base.Int.{ℤ}
use tweetnacl_modular.Memory.{Ptr, null, is_null, contents, advance}
use tweetnacl_modular.Memory.Secure.{secure_zero}
use tweetnacl_modular.Secretbox.{refill, is_ok}
use tweetnacl_modular.Utils.{size_max}
use tweetnacl_modular.Pqc.Params.{
  PqcParams, params_of, pqc_success, pqc_invalid_param, pqc_buffer_too_small, pqc_not_supported,
  pqc_memory_allocation, pqc_rng_failure,
}
use tweetnacl_modular.Rng.Source.{RandomSource, Made}
use tweetnacl_modular.Pqc.Stub.{KeyPair, Received, pqc_keygen}

pub record HybridKeys (State : Type 0) : Type 0 where
  pub result : ℤ
  pub public_key : Ptr
  pub public_key_len : Option ℕ
  pub secret_key : Ptr
  pub secret_key_len : Option ℕ
  pub state : State

pub record HybridSent : Type 0 where
  pub result : ℤ
  pub ciphertext : Ptr
  pub ciphertext_len : Option ℕ
  pub shared_secret : Ptr

-- The buffer `p`, of which the call changed what lies behind its first 32 bytes.
abbrev pub behind_32 : Ptr → Ptr → Ptr
behind_32 p q = refill p (take 32 (contents p) ++ contents q)

module _ (R : RandomSource) where
  open R use {State, randombytes_safe}

  -- The part of `pqc_hybrid_keygen` after its checks.
  unfoldable pub make_hybrid : ℤ → PqcParams → Ptr → Ptr → State → HybridKeys State
  unfolding pqc_keygen secure_zero
  make_hybrid algo params pk sk s =
      let zeroed_pk = refill pk (secure_zero pk (32 + params.public_key_size)) in
      let zeroed_sk = refill sk (secure_zero sk (32 + params.secret_key_size)) in
      let keys =
        pqc_keygen R algo (advance 32 zeroed_pk) params.public_key_size (advance 32 zeroed_sk)
          params.secret_key_size null 0 s in
      record {
        result = keys.result;
        public_key = behind_32 zeroed_pk keys.public_key;
        public_key_len = some (32 + params.public_key_size);
        secret_key = behind_32 zeroed_sk keys.secret_key;
        secret_key_len = some (32 + params.secret_key_size);
        state = keys.state;
      }

  -- The lengths that the pointers hold before the call are not read.
  unfoldable pub pqc_hybrid_keygen : ℤ → Ptr → Option ℕ → Ptr → Option ℕ → State → HybridKeys State
  unfolding make_hybrid
  pqc_hybrid_keygen algo pk (some pk_len) sk (some sk_len) s =
      let stop : ℤ → HybridKeys State = λ result. record {
        result = result;
        public_key = pk;
        public_key_len = some pk_len;
        secret_key = sk;
        secret_key_len = some sk_len;
        state = s;
      } in
      if is_null pk || is_null sk then stop pqc_invalid_param else elim (params_of algo) [
        | none ↦ stop pqc_not_supported
        | some params ↦ make_hybrid algo params pk sk s
      ]
  pqc_hybrid_keygen algo pk none sk sk_len s = record {
    result = pqc_invalid_param;
    public_key = pk;
    public_key_len = none;
    secret_key = sk;
    secret_key_len = sk_len;
    state = s;
  }
  pqc_hybrid_keygen algo pk (some pk_len) sk none s = record {
    result = pqc_invalid_param;
    public_key = pk;
    public_key_len = some pk_len;
    secret_key = sk;
    secret_key_len = none;
    state = s;
  }

  unfoldable pub pqc_hybrid_decapsulate : ℤ → Ptr → ℕ → Ptr → ℕ → Ptr → ℕ → State → Received State
  pqc_hybrid_decapsulate algo sk sk_len ct ct_len ss ss_len s =
      let stop : ℤ → Received State =
        λ result. record { result = result; shared_secret = ss; state = s } in
      let made = randombytes_safe ss 32 s in
      if is_null sk || (is_null ct || is_null ss)
      then stop pqc_invalid_param
      else elim (params_of algo) [
        | none ↦ stop pqc_not_supported
        | some params ↦
            if ltb sk_len 32
            then stop pqc_invalid_param
            else if ltb ct_len (32 + params.ciphertext_size)
            then stop pqc_invalid_param
            else if ltb ss_len 32
            then stop pqc_buffer_too_small
            else record {
              result = if is_ok made.status then pqc_success else pqc_rng_failure;
              shared_secret = made.buf;
              state = made.state;
            }
      ]

-- The part of `pqc_hybrid_encapsulate` that checks the sizes of what it writes, and writes zeros.
unfoldable pub send_zeros : ℕ → Ptr → ℕ → Ptr → ℕ → HybridSent
unfolding secure_zero
send_zeros ct_size ct ct_len ss ss_len =
    let sent : ℤ → ℕ → HybridSent = λ result held. record {
      result = result;
      ciphertext = ct;
      ciphertext_len = some held;
      shared_secret = ss;
    } in
    if ltb (size_max - ct_size) 32
    then sent pqc_memory_allocation ct_len
    else if ltb ct_len (32 + ct_size)
    then sent pqc_buffer_too_small (32 + ct_size)
    else if ltb ss_len 32
    then sent pqc_buffer_too_small (32 + ct_size)
    else record {
      result = pqc_success;
      ciphertext = refill ct (secure_zero ct (32 + ct_size));
      ciphertext_len = some (32 + ct_size);
      shared_secret = refill ss (secure_zero ss 32);
    }

unfoldable pub pqc_hybrid_encapsulate : ℤ → Ptr → ℕ → Ptr → Option ℕ → Ptr → ℕ → HybridSent
unfolding send_zeros
pqc_hybrid_encapsulate algo pk pk_len ct none ss ss_len = record {
  result = pqc_invalid_param;
  ciphertext = ct;
  ciphertext_len = none;
  shared_secret = ss;
}
pqc_hybrid_encapsulate algo pk pk_len ct (some ct_len) ss ss_len =
    let stop : ℤ → HybridSent = λ result. record {
      result = result;
      ciphertext = ct;
      ciphertext_len = some ct_len;
      shared_secret = ss;
    } in
    if is_null pk || (is_null ct || is_null ss)
    then stop pqc_invalid_param
    else elim (params_of algo) [
      | none ↦ stop pqc_not_supported
      | some params ↦
          if ltb pk_len 32
          then stop pqc_invalid_param
          else if ltb (pk_len - 32) params.public_key_size
          then stop pqc_buffer_too_small
          else send_zeros params.ciphertext_size ct ct_len ss ss_len
    ]
