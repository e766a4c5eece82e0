-- ===== src/Stream/Counter.antt =====
-- The loop on `z[8..15]` counts blocks as a 64-bit number, low byte first.
use tweetnacl_modular.Base.{
  ℕ, zero, suc, ◌+◌, ◌/◌, ◌%◌, ◌≤◌, ◌≡◌, refl, ap, ap₂, ◌∙◌, arith, List, ◌∷◌, ◌++◌, length,
  take-append, drop-append,
}
use tweetnacl_modular.Word.{u32, ◌>>◌}
use tweetnacl_modular.Bytes.Value.{le_bytes}
use tweetnacl_modular.Stream.{carry_bytes, increment}

carry_bytes-le_bytes : (n u v : ℕ) → u ≤ 256 → carry_bytes u (le_bytes n v) ≡ le_bytes n (v + u)
unfolding carry_bytes le_bytes
carry_bytes-le_bytes zero u v h = refl
carry_bytes-le_bytes (suc n) u v h = ap₂ ◌∷◌ (omega arith) (
    carry_bytes-le_bytes n (u32 (u + v % 256) >> 8) (v / 256) (omega arith)
    ∙ ap (le_bytes n) (omega arith))

-- With a nonce of 8 bytes, the bytes 8 to 15 go from the number of a block to the next one's, at
-- 64 bits.
pub increment-le_bytes :
    (nonce : List ℕ) (j : ℕ)
    → length nonce ≡ 8
    → increment (nonce ++ le_bytes 8 j) ≡ nonce ++ le_bytes 8 (j + 1)
unfolding increment
increment-le_bytes nonce j h = ap₂ ◌++◌ (take-append 8 nonce (le_bytes 8 j) (omega arith)) (
    ap (carry_bytes 1) (drop-append 8 nonce (le_bytes 8 j) (omega arith))
    ∙ carry_bytes-le_bytes 8 1 j (omega arith))
