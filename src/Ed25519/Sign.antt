-- ===== src/Ed25519/Sign.antt =====
-- src/tweetnacl/tweetnacl.c: `crypto_sign_keypair`, `crypto_sign` and `crypto_sign_open`. The
-- message and the signed message may be one buffer; else what is written does not overlap what is
-- read. The locals that are wiped at the end
-- are not seen outside.
pub mod Reference
pub mod Hashed
pub mod Opened
pub mod Signed
use tweetnacl_modular.Base.{
  ℕ, zero, suc, ◌+◌, ◌-◌, ◌%◌, ◌==◌, ltb, bit_and, bit_or, ◌||◌, not, if◌then◌else◌, Option, none,
  some, List, [], ◌∷◌, ◌++◌, map, get_or, set, take, drop, replicate,
}
use tweetnacl_modular.Base.Int.{ℤ, ok, failed}
use tweetnacl_modular.Memory.{Ptr, at, is_null, same, contents, write_at}
use tweetnacl_modular.Secretbox.{refill, is_ok}
use tweetnacl_modular.Verify.{crypto_verify_32}
use tweetnacl_modular.Sha512.{crypto_hash}
use tweetnacl_modular.Utils.{size_max}
use tweetnacl_modular.Rng.Source.{RandomSource}
use tweetnacl_modular.Curve25519.{gf_of, add_rows}
use tweetnacl_modular.Ed25519.{Point, add_points, pack, scalarmult, scalarbase, unpackneg}
use tweetnacl_modular.Ed25519.Scalar.{mod_l, reduce}

-- `crypto_hash` into a local array of 64 bytes.
unfoldable pub hash_local : List ℕ → ℕ → List ℕ
unfolding crypto_hash
hash_local m n = (crypto_hash (at 0 (replicate 64 0)) (at 100 m) n).out

-- The hash of the secret, with the bits of the scalar set: `d[0] &= 248; d[31] &= 127; d[31] |= 64`.
unfoldable pub secret_hash : List ℕ → List ℕ
unfolding hash_local
secret_hash sk =
    let d = hash_local sk 32 in
    let d' = set d 0 (bit_and (get_or d 0 0) 248) in
    set d' 31 (bit_or (bit_and (get_or d' 31 0) 127) 64)

-- The return, the output buffer and what the length pointer holds after the call.
pub record Message : Type 0 where
  pub status : ℤ
  pub out : List ℕ
  pub mlen : Option ℕ

-- The two buffers and the generator after `crypto_sign_keypair`.
pub record SignKeys (State : Type 0) : Type 0 where
  pub status : ℤ
  pub pk : Ptr
  pub sk : Ptr
  pub state : State

module _ (R : RandomSource) where
  open R use {State, randombytes_safe}

  unfoldable pub crypto_sign_keypair : Ptr → Ptr → State → SignKeys State
  unfolding secret_hash
  crypto_sign_keypair pk sk s =
      let made = randombytes_safe sk 32 s in
      let packed = pack (scalarbase (secret_hash (contents made.buf))) in
      if is_null pk || is_null sk
      then record { status = failed; pk = pk; sk = sk; state = s }
      else if not (is_ok made.status)
      then record { status = failed; pk = pk; sk = made.buf; state = made.state }
      else record {
        status = ok;
        pk = refill pk (write_at 0 packed (contents pk));
        sk = refill sk (write_at 32 packed (contents made.buf));
        state = made.state;
      }

-- The bytes that `sm[64 + i] = m[i]` copies where `m` is `sm`, from index `i` on with the rounds
-- left: behind the first 64 it reads what it wrote.
unfoldable pub copied_up : ℕ → ℕ → List ℕ → List ℕ
copied_up zero i m = []
copied_up (suc rounds) i m = get_or m (i % 64) 0 ∷ copied_up rounds (suc i) m

-- What the function leaves in `sm`, once it has copied the `n` bytes `text`.
unfoldable pub signed_message : List ℕ → List ℕ → ℕ → List ℕ → List ℕ
unfolding secret_hash
signed_message sm text n sk =
    let d = secret_hash sk in
    let sm1 = write_at 32 (take 32 (drop 32 d)) (write_at 64 text sm) in
    let r = reduce (hash_local (drop 32 sm1) (n + 32)) in
    let sm2 = write_at 32 (take 32 (drop 32 sk)) (write_at 0 (pack (scalarbase r)) sm1) in
    let h = reduce (hash_local sm2 (n + 64)) in
    let x =
      add_rows (gf_of (take 32 h)) (gf_of (take 32 d)) (gf_of (take 32 r ++ replicate 32 0)) in
    write_at 32 (mod_l x) sm2

unfoldable pub crypto_sign : Ptr → Option ℕ → Ptr → ℕ → Ptr → Message
unfolding signed_message copied_up
crypto_sign sm none m n sk = record { status = failed; out = contents sm; mlen = none }
crypto_sign sm (some old) m n sk =
    let text = if same m sm then copied_up n 0 (contents m) else take n (contents m) in
    if is_null sm || (is_null m || is_null sk)
    then record { status = failed; out = contents sm; mlen = some old }
    else if ltb (size_max - 64) n
    then record { status = failed; out = contents sm; mlen = some old }
    else record {
      status = ok;
      out = signed_message (contents sm) text n (contents sk);
      mlen = some (n + 64);
    }

-- The bytes that must equal the first half of the signature: those of sB - hA.
unfoldable pub expected_half : Point → List ℕ → ℕ → List ℕ → List ℕ
expected_half q filled n sm =
    let h = reduce (hash_local filled n) in
    pack (add_points (scalarmult q h) (scalarbase (drop 32 sm)))

-- `m` with the signed message, over it the public key at 32.
abbrev pub filled_with : List ℕ → List ℕ → ℕ → List ℕ → List ℕ
filled_with m sm n pk = write_at 32 (take 32 pk) (write_at 0 (take n sm) m)

-- The recovery of the message: `m[i] = sm[i + 64] & ~mask`.
unfoldable pub recover : List ℕ → List ℕ → ℕ → ℕ → List ℕ
recover m sm n bad =
    let mask = if bad == 0 then 0 else 255 in
    write_at 0 (map (λ src. bit_and src (255 - mask)) (take (n - 64) (drop 64 sm))) m

-- The part of `crypto_sign_open` after `m` is filled: `sm` is what its buffer then holds.
unfoldable pub open_with : Point → List ℕ → List ℕ → ℕ → Message
unfolding expected_half recover
open_with q filled sm n =
    let bad = if is_ok (crypto_verify_32 sm (expected_half q filled n sm)) then 0 else 1 in
    record {
      status = if bad == 0 then ok else failed;
      out = recover filled sm n bad;
      mlen = some (if bad == 0 then n - 64 else 0);
    }

-- Where `m` is `sm`, the key that is written over the second half of the signature is what the
-- rest of the function reads there.
unfoldable pub crypto_sign_open : Ptr → Option ℕ → Ptr → ℕ → Ptr → Message
unfolding open_with
crypto_sign_open m none sm n pk = record { status = failed; out = contents m; mlen = none }
crypto_sign_open m (some old) sm n pk =
    let stop : Message = record { status = failed; out = contents m; mlen = some old } in
    let filled = filled_with (contents m) (contents sm) n (contents pk) in
    if is_null m || (is_null sm || is_null pk)
    then stop
    else if ltb (size_max - 64) n
    then stop
    else if ltb n 64
    then stop
    else elim (unpackneg (contents pk)) [
      | none ↦ stop
      | some q ↦ open_with q filled (if same m sm then filled else contents sm) n
    ]
