-- ===== src/Memory/Secure.antt =====
-- src/core/utils.c: wiping, checked copies and the comparison without early exit.
use tweetnacl_modular.Base.{
  ℕ, zero, suc, ◌==◌, ltb, if◌then◌else◌, ◌||◌, bit_or, bit_xor, List, take, drop, replicate,
  get_or,
}
use tweetnacl_modular.Base.Int.{ℤ, ok, failed}
use tweetnacl_modular.Word.{u8}
use tweetnacl_modular.Memory.{Ptr, is_null, contents, write_at, Call}

-- `secure_memset`: the loop writes `(unsigned char)value` `count` times. NULL and 0 are left alone.
unfoldable pub secure_memset : Ptr → ℕ → ℕ → List ℕ
secure_memset dest value count =
    if is_null dest || count == 0
    then contents dest
    else write_at 0 (replicate count (u8 value)) (contents dest)

unfoldable pub secure_zero : Ptr → ℕ → List ℕ
unfolding secure_memset
secure_zero dest count = secure_memset dest 0 count

unfoldable pub safe_memcpy : Ptr → ℕ → Ptr → ℕ → Call
safe_memcpy dest dest_size src count =
    if is_null dest || is_null src
    then record { status = failed; out = contents dest }
    else if ltb dest_size count
    then record { status = failed; out = contents dest }
    else record { status = ok; out = write_at 0 (take count (contents src)) (contents dest) }

-- The regions may overlap: the bytes are read before any is written.
unfoldable pub safe_memmove : Ptr → ℕ → Ptr → ℕ → Call
safe_memmove dest dest_size src count =
    if is_null dest || is_null src
    then record { status = failed; out = contents dest }
    else if ltb dest_size count
    then record { status = failed; out = contents dest }
    else record { status = ok; out = write_at 0 (take count (contents src)) (contents dest) }

-- `result |= vx[i] ^ vy[i]` over the rounds left.
unfoldable pub differences : ℕ → ℕ → List ℕ → List ℕ → ℕ
differences zero acc x y = acc
differences (suc n) acc x y =
    differences n (bit_or acc (bit_xor (get_or x 0 0) (get_or y 0 0))) (drop 1 x) (drop 1 y)

unfoldable pub secure_memcmp : Ptr → Ptr → ℕ → ℤ
unfolding differences
secure_memcmp x y n =
    if is_null x || is_null y
    then failed
    else if differences n 0 (contents x) (contents y) == 0
    then ok
    else failed
