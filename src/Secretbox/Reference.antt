-- ===== src/Secretbox/Reference.antt =====
-- The secret box as NaCl states it: XSalsa20 and Poly1305, with 32 zero bytes before a message and
-- 16 before a box.
use tweetnacl_modular.Base.{ℕ, ◌-◌, List, ◌++◌, take, drop, replicate}
use tweetnacl_modular.Memory.{at}
use tweetnacl_modular.Stream.{xor_bytes}
use tweetnacl_modular.Stream.Cipher.{xpad}
use tweetnacl_modular.Poly.Reference.{poly1305}

-- The first 32 bytes of the keystream.
unfoldable pub one_time_key : List ℕ → List ℕ → List ℕ
one_time_key n k = take 32 (xpad 32 n k)

-- The first `d` bytes of a buffer combined with the keystream.
unfoldable pub stream_of : ℕ → List ℕ → List ℕ → List ℕ → List ℕ
stream_of d m n k = xor_bytes d 0 (at 0 m) (xpad d n k)

-- The box of a message of `d` bytes, padding included.
unfoldable pub seal : ℕ → List ℕ → List ℕ → List ℕ → List ℕ
seal d m n k =
    let hidden = drop 32 (stream_of d m n k) in
    replicate 16 0 ++ (poly1305 hidden (one_time_key n k) ++ hidden)

-- The tag that stands in a box, and the tag that belongs there.
abbrev pub stored_tag : List ℕ → List ℕ
stored_tag c = take 16 (drop 16 c)

unfoldable pub right_tag : ℕ → List ℕ → List ℕ → List ℕ → List ℕ
right_tag d c n k = poly1305 (take (d - 32) (drop 32 c)) (one_time_key n k)
