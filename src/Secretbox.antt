-- ===== src/Secretbox.antt =====
-- Authenticated encryption: `crypto_secretbox` and `crypto_secretbox_open` of
-- src/tweetnacl/tweetnacl.c. A call gives its status and what it leaves in its output.
pub mod Reference
pub mod Pad
pub mod Seal
pub mod Open
pub mod Round
pub mod Errors
use tweetnacl_modular.Base.{
  ℕ, zero, suc, ◌-◌, Bool, true, false, ◌||◌, ltb, if◌then◌else◌, List, ◌++◌, take, replicate,
}
use tweetnacl_modular.Base.Int.{ℤ, pos, negsuc, ok, failed}
use tweetnacl_modular.Memory.{Ptr, null, at, is_null, contents, advance, write_at, Call}
use tweetnacl_modular.Stream.{crypto_stream, crypto_stream_xor}
use tweetnacl_modular.Poly.{crypto_onetimeauth, crypto_onetimeauth_verify}

-- The same buffer, with other bytes in it.
abbrev pub refill : Ptr → List ℕ → Ptr
refill null bs = null
refill (at a old) bs = at a bs

abbrev pub is_ok : ℤ → Bool
is_ok (pos zero) = true
is_ok (pos (suc n)) = false
is_ok (negsuc n) = false

-- The returns of `crypto_stream_xor` and `crypto_onetimeauth` are not looked at.
unfoldable pub crypto_secretbox : Ptr → Ptr → ℕ → Ptr → Ptr → Call
crypto_secretbox c m d n k =
    if is_null c || (is_null m || (is_null n || is_null k))
    then record { status = failed; out = contents c }
    else if ltb d 32
    then record { status = failed; out = contents c }
    else let c1 = refill c (crypto_stream_xor c m d n k).out in
      let tagged = (crypto_onetimeauth (advance 16 c1) (advance 32 c1) (d - 32) c1).out in
      record { status = ok; out = write_at 0 (replicate 16 0) (take 16 (contents c1) ++ tagged) }

-- The local array `x`, which `crypto_stream` fills.
unfoldable pub box_key : Ptr → Ptr → Ptr
box_key n k = at 0 (crypto_stream (at 0 (replicate 32 0)) 32 n k).out

unfoldable pub crypto_secretbox_open : Ptr → Ptr → ℕ → Ptr → Ptr → Call
crypto_secretbox_open m c d n k =
    if is_null m || (is_null c || (is_null n || is_null k))
    then record { status = failed; out = contents m }
    else if ltb d 32
    then record { status = failed; out = contents m }
    else if is_ok (crypto_onetimeauth_verify (advance 16 c) (advance 32 c) (d - 32) (box_key n k))
    then record { status = ok; out = write_at 0 (replicate 32 0) (crypto_stream_xor m c d n k).out }
    else record { status = failed; out = contents m }
