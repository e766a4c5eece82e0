-- ===== src/Poly/Reference.antt =====
-- Poly1305 as RFC 8439 states it: numbers modulo 2 ^ 130 - 5, the message in blocks of 16 bytes.
use tweetnacl_modular.Base.{
  ℕ, zero, suc, ◌+◌, ◌*◌, ◌/◌, ◌%◌, bit_and, List, [], ◌∷◌, ◌++◌, length, take, drop,
}
use tweetnacl_modular.Bytes.Value.{le_value, le_bytes}
use tweetnacl_modular.Poly.Product.{prime}

abbrev pub clamp_mask : ℕ
clamp_mask = 0x0ffffffc0ffffffc0ffffffc0fffffff

-- A block of the message as a number, with a 1 above its bytes.
unfoldable pub block_value : List ℕ → ℕ
block_value m = le_value (take 16 m ++ 1 ∷ [])

-- Each block is added and the sum multiplied by `r`.
unfoldable pub accumulate : ℕ → List ℕ → ℕ → ℕ → ℕ
accumulate zero m r acc = acc
accumulate (suc blocks) m r acc =
    accumulate blocks (drop 16 m) r ((acc + block_value m) * r % prime)

-- The tag of a message under the 32 bytes of a key.
unfoldable pub poly1305 : List ℕ → List ℕ → List ℕ
poly1305 m k =
    let r = bit_and (le_value (take 16 k)) clamp_mask in
    le_bytes 16 (accumulate ((length m + 15) / 16) m r 0 + le_value (take 16 (drop 16 k)))
