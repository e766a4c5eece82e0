-- ===== src/Keypair.antt =====
-- src/core/keygen_validate.c: a pair of keys is checked, and made again while the check fails.
pub mod Valid
pub mod Generated
use tweetnacl_modular.Base.{ℕ, zero, suc, ◌&&◌, ◌||◌, not, ltb, if◌then◌else◌}
use tweetnacl_modular.Base.Int.{ℤ, ok, failed}
use tweetnacl_modular.Memory.{Ptr, at, is_null}
use tweetnacl_modular.Memory.Secure.{secure_memcmp}
use tweetnacl_modular.Secretbox.{is_ok}
use tweetnacl_modular.Curve25519.Ladder.{crypto_scalarmult_base}
use tweetnacl_modular.Rng.Source.{RandomSource}
use tweetnacl_modular.Box.{BoxKeys, local_32, crypto_box_keypair}

-- The local `test_pk` gets the public key; the return of `crypto_scalarmult_base` is not looked at.
unfoldable pub nacl_keypair_validate : Ptr → Ptr → ℤ
nacl_keypair_validate pk sk =
    let test_pk = at 0 (crypto_scalarmult_base local_32 sk).out in
    if is_null pk || is_null sk
    then failed
    else if is_ok (secure_memcmp test_pk pk 32)
    then ok
    else failed

abbrev pub max_attempts : ℕ
max_attempts = 3

module _ (R : RandomSource) where
  open R use {State}

  -- The `do` loop, after the given number of attempts. The rounds left are those until
  -- `max_attempts`, at which the loop ends, so that there is always one left.
  unfoldable pub attempt : ℕ → ℕ → Ptr → Ptr → State → BoxKeys State
  attempt zero attempts pk sk s = record { status = failed; y = pk; x = sk; state = s }
  attempt (suc rounds) attempts pk sk s =
      let made = crypto_box_keypair R pk sk s in
      let rest = attempt rounds (suc attempts) made.y made.x made.state in
      if not (is_ok made.status)
      then record made { status = failed }
      else if not (is_ok (nacl_keypair_validate made.y made.x)) && ltb (suc attempts) max_attempts
      then rest
      else record made { status = if ltb (suc attempts) max_attempts then ok else failed }

  unfoldable pub nacl_keypair_generate_validated : Ptr → Ptr → State → BoxKeys State
  unfolding attempt
  nacl_keypair_generate_validated pk sk s =
      if is_null pk || is_null sk
      then record { status = failed; y = pk; x = sk; state = s }
      else attempt max_attempts 0 pk sk s
