-- ===== src/Box.antt =====
-- Public-key boxes of src/tweetnacl/tweetnacl.c: the shared key of two parties, and the secret
-- box under it.
pub mod Shared
use tweetnacl_modular.Base.{ℕ, ◌||◌, not, if◌then◌else◌, List, ◌++◌, replicate, take}
use tweetnacl_modular.Base.Int.{ℤ, ok, failed}
use tweetnacl_modular.Memory.{Ptr, at, is_null, contents, write_at, Call}
use tweetnacl_modular.Salsa.{crypto_core_hsalsa20, sigma}
use tweetnacl_modular.Secretbox.{refill, is_ok, crypto_secretbox, crypto_secretbox_open}
use tweetnacl_modular.Curve25519.Ladder.{crypto_scalarmult, crypto_scalarmult_base}
use tweetnacl_modular.Rng.Source.{RandomSource}

-- A pair of keys: the return, the two buffers and the generator after the call.
pub record BoxKeys (State : Type 0) : Type 0 where
  pub status : ℤ
  pub y : Ptr
  pub x : Ptr
  pub state : State

module _ (R : RandomSource) where
  open R use {State, randombytes_safe}

  unfoldable pub crypto_box_keypair : Ptr → Ptr → State → BoxKeys State
  crypto_box_keypair y x s =
      let made = randombytes_safe x 32 s in
      let public_key = crypto_scalarmult_base y made.buf in
      if is_null y || is_null x
      then record { status = failed; y = y; x = x; state = s }
      else if not (is_ok made.status)
      then record { status = failed; y = y; x = made.buf; state = made.state }
      else record {
        status = public_key.status;
        y = refill y public_key.out;
        x = made.buf;
        state = made.state;
      }

-- A local array of 32 bytes, which the call that gets it fills.
abbrev pub local_32 : Ptr
local_32 = at 0 (replicate 32 0)

-- The return of `crypto_scalarmult` is not looked at. The local `s` is wiped at the end.
unfoldable pub crypto_box_beforenm : Ptr → Ptr → Ptr → Call
unfolding crypto_scalarmult
crypto_box_beforenm k y x =
    if is_null k || (is_null y || is_null x)
    then record { status = failed; out = contents k }
    else let s = (crypto_scalarmult local_32 x y).out in
      record {
        status = ok;
        out = write_at 0 (crypto_core_hsalsa20 (replicate 16 0) s sigma) (contents k);
      }

unfoldable pub crypto_box_afternm : Ptr → Ptr → ℕ → Ptr → Ptr → Call
crypto_box_afternm c m d n k = crypto_secretbox c m d n k

unfoldable pub crypto_box_open_afternm : Ptr → Ptr → ℕ → Ptr → Ptr → Call
crypto_box_open_afternm m c d n k = crypto_secretbox_open m c d n k

-- The key in the local array `k`, which is wiped at the end.
unfoldable pub crypto_box : Ptr → Ptr → ℕ → Ptr → Ptr → Ptr → Call
unfolding crypto_box_beforenm crypto_box_afternm
crypto_box c m d n y x =
    let shared = crypto_box_beforenm local_32 y x in
    if is_null c || (is_null m || (is_null n || (is_null y || is_null x)))
    then record { status = failed; out = contents c }
    else if not (is_ok shared.status)
    then record { status = failed; out = contents c }
    else crypto_box_afternm c m d n (refill local_32 shared.out)

unfoldable pub crypto_box_open : Ptr → Ptr → ℕ → Ptr → Ptr → Ptr → Call
unfolding crypto_box_beforenm crypto_box_open_afternm
crypto_box_open m c d n y x =
    let shared = crypto_box_beforenm local_32 y x in
    if is_null m || (is_null c || (is_null n || (is_null y || is_null x)))
    then record { status = failed; out = contents m }
    else if not (is_ok shared.status)
    then record { status = failed; out = contents m }
    else crypto_box_open_afternm m c d n (refill local_32 shared.out)
