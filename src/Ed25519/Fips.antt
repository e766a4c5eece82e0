-- ===== src/Ed25519/Fips.antt =====
-- src/drivers/crypto/fips/fips1865_ed25519.c: signatures of a message with a context, and of the
-- hash of a message. `memory` is what `malloc` gives in a call: nothing, or a block. The functions
-- that open give `none` where they write past the end of an array or a block, which is undefined.
pub mod Overrun
use tweetnacl_modular.Base.{
  ℕ, ◌+◌, ◌-◌, ◌==◌, ltb, ◌||◌, ◌&&◌, not, if◌then◌else◌, Option, none, some, List, ◌++◌, Bool,
  true, false, take, drop, replicate,
}
use tweetnacl_modular.Base.Int.{ok, failed}
use tweetnacl_modular.Memory.{Ptr, at, is_null, contents, write_at}
use tweetnacl_modular.Memory.Secure.{secure_memcmp}
use tweetnacl_modular.Secretbox.{is_ok}
use tweetnacl_modular.Sha512.{crypto_hash}
use tweetnacl_modular.Utils.{size_max}
use tweetnacl_modular.Ed25519.{unpackneg}
use tweetnacl_modular.Ed25519.Sign.{Message, crypto_sign, crypto_sign_open}

unfoldable pub ed25519ctx_hash : Ptr → ℕ → List ℕ
ed25519ctx_hash ctx ctx_len =
    if is_null ctx || ctx_len == 0
    then replicate 64 0
    else (crypto_hash (at 0 (replicate 64 0)) ctx (if ltb 255 ctx_len then 255 else ctx_len)).out

-- The message behind the hash of the context, signed.
unfoldable pub sign_combined : List ℕ → Ptr → ℕ → Ptr → ℕ → Ptr → List ℕ → Message
sign_combined block sm old m mlen sk ctx_hash =
    let combined = write_at 64 (take mlen (contents m)) (write_at 0 (take 64 ctx_hash) block) in
    let r = crypto_sign sm (some 0) (at 100 combined) (64 + mlen) sk in
    record r { mlen = if is_ok r.status then r.mlen else some old }

unfoldable pub crypto_sign_ed25519ctx :
    Option (List ℕ) → Ptr → Option ℕ → Ptr → ℕ → Ptr → Ptr → ℕ → Message
unfolding sign_combined
crypto_sign_ed25519ctx memory sm none m mlen sk ctx ctx_len = record {
  status = failed;
  out = contents sm;
  mlen = none;
}
crypto_sign_ed25519ctx memory sm (some old) m mlen sk ctx ctx_len =
    let stop : Message = record { status = failed; out = contents sm; mlen = some old } in
    if is_null sm || (is_null m || is_null sk)
    then stop
    else if not (is_null ctx) && ltb 255 ctx_len
    then stop
    else if ltb (size_max - 64) mlen
    then stop
    else elim memory [
      | none ↦ stop
      | some block ↦ sign_combined block sm old m mlen sk (ed25519ctx_hash ctx ctx_len)
    ]

-- Whether `crypto_sign_open` copies a signed message of `n` bytes past an output of `size`: it does so
-- for every length and key that it accepts, before it looks at the signature.
unfoldable pub copies_past : ℕ → ℕ → List ℕ → Bool
copies_past size n pk = elim (unpackneg pk) [
  | none ↦ false
  | some q ↦ not (ltb (size_max - 64) n) && (not (ltb n 64) && ltb size n)
]

-- The test of the length that `crypto_sign_open` gives.
abbrev pub has_length : Option ℕ → ℕ → Message → Message → Message
has_length none n same other = other
has_length (some len) n same other = if len == n then same else other

unfoldable pub open_combined : List ℕ → Ptr → ℕ → Ptr → ℕ → Ptr → List ℕ → Message
open_combined block m old sm smlen pk ctx_hash =
    let stop : Message = record { status = failed; out = contents m; mlen = some old } in
    let r = crypto_sign_open (at 100 block) (some 0) sm smlen pk in
    if not (is_ok r.status)
    then stop
    else has_length r.mlen (smlen - 64)
        (if not (is_ok (secure_memcmp (at 100 r.out) (at 200 ctx_hash) 64)) then stop else record {
          status = ok;
          out = write_at 0 (take (smlen - 64 - 64) (drop 64 r.out)) (contents m);
          mlen = some (smlen - 64 - 64);
        })
        (record stop { status = ok })

unfoldable pub crypto_sign_ed25519ctx_open :
    Option (List ℕ) → Ptr → Option ℕ → Ptr → ℕ → Ptr → Ptr → ℕ → Option Message
crypto_sign_ed25519ctx_open memory m none sm smlen pk ctx ctx_len =
    some (record { status = failed; out = contents m; mlen = none })
crypto_sign_ed25519ctx_open memory m (some old) sm smlen pk ctx ctx_len =
    let stop : Message = record { status = failed; out = contents m; mlen = some old } in
    if is_null m || (is_null sm || is_null pk)
    then some stop
    else if not (is_null ctx) && ltb 255 ctx_len
    then some stop
    else if ltb smlen 64
    then some stop
    else if ltb (smlen - 64) 64
    then some stop
    else elim memory [
      | none ↦ some stop
      | some block ↦
          if copies_past (smlen - 64) smlen (contents pk)
          then none
          else some (open_combined block m old sm smlen pk (ed25519ctx_hash ctx ctx_len))
    ]

-- The return of `crypto_hash` is not looked at.
unfoldable pub crypto_sign_ed25519ph : Ptr → Option ℕ → Ptr → ℕ → Ptr → Message
crypto_sign_ed25519ph sm none m mlen sk = record { status = failed; out = contents sm; mlen = none }
crypto_sign_ed25519ph sm (some old) m mlen sk =
    if is_null sm || (is_null m || is_null sk)
    then record { status = failed; out = contents sm; mlen = some old }
    else crypto_sign sm (some old) (at 100 (crypto_hash (at 0 (replicate 64 0)) m mlen).out) 64 sk

unfoldable pub crypto_sign_ed25519ph_open : Ptr → Option ℕ → Ptr → ℕ → Ptr → Option Message
crypto_sign_ed25519ph_open m none sm smlen pk =
    some (record { status = failed; out = contents m; mlen = none })
crypto_sign_ed25519ph_open m (some old) sm smlen pk =
    let stop : Message = record { status = failed; out = contents m; mlen = some old } in
    let r = crypto_sign_open (at 0 (replicate 64 0)) (some 0) sm smlen pk in
    if is_null m || (is_null sm || is_null pk)
    then some stop
    else if copies_past 64 smlen (contents pk)
    then none
    else if not (is_ok r.status)
    then some stop
    else some (
        has_length r.mlen 64
          (record { status = ok; out = write_at 0 (take 64 r.out) (contents m); mlen = some 64 })
          stop)
