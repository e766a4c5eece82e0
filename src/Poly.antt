-- ===== src/Poly.antt =====
-- The one-time authenticator: `add1305`, `crypto_onetimeauth` and `crypto_onetimeauth_verify` of
-- src/tweetnacl/tweetnacl.c. Numbers are arrays of 17 `u32`, a byte in each, low byte first.
pub mod Carry
pub mod Digits
pub mod Product
pub mod Squeeze
pub mod Freeze
pub mod Reference
pub mod Clamp
pub mod Absorb
pub mod Tag
pub mod Authentic
use tweetnacl_modular.Base.{
  ℕ, zero, suc, ◌+◌, ◌-◌, ◌*◌, ◌/◌, ◌%◌, ◌^◌, bit_and, bit_xor, ◌||◌, ltb, leb, ◌==◌, if◌then◌else◌,
  List, [], ◌∷◌, ◌++◌, get_or, set, take, drop, replicate,
}
use tweetnacl_modular.Base.Int.{ℤ, pos, negsuc, ok, failed}
use tweetnacl_modular.Word.{u32, sub32, ◌>>◌}
use tweetnacl_modular.Memory.{Ptr, is_null, contents, write_at, Call}
use tweetnacl_modular.Verify.{crypto_verify_16}

-- `u += h[j] + c[j]; h[j] = u & 255; u >>= 8;` for the digits left.
unfoldable pub add1305_loop : ℕ → List ℕ → List ℕ → List ℕ
add1305_loop u [] c = []
add1305_loop u (a ∷ h) [] = []
add1305_loop u (a ∷ h) (b ∷ c) =
    let s = u32 (u + u32 (a + b)) in bit_and s 255 ∷ add1305_loop (s >> 8) h c

unfoldable pub add1305 : List ℕ → List ℕ → List ℕ
add1305 h c = add1305_loop 0 h c

abbrev pub minusp : List ℕ
minusp = 5 ∷ 0 ∷ 0 ∷ 0 ∷ 0 ∷ 0 ∷ 0 ∷ 0 ∷ 0 ∷ 0 ∷ 0 ∷ 0 ∷ 0 ∷ 0 ∷ 0 ∷ 0 ∷ 252 ∷ []

-- `x[j] &= mask`
abbrev pub mask_at : ℕ → ℕ → List ℕ → List ℕ
mask_at j mask x = set x j (bit_and (get_or x j 0) mask)

-- The multiplier: 16 bytes of the key, with some bits cleared.
unfoldable pub clamp : List ℕ → List ℕ
clamp k = mask_at 15 15 (
    mask_at 12 252 (
      mask_at 11 15
        (mask_at 8 252 (mask_at 7 15 (mask_at 4 252 (mask_at 3 15 (take 16 k ++ 0 ∷ [])))))))

-- `(j <= i) ? r[i - j] : 320 * r[i + 17 - j]`
unfoldable pub coefficient : List ℕ → ℕ → ℕ → ℕ
coefficient r i j = if leb j i then get_or r (i - j) 0 else u32 (320 * get_or r (i + 17 - j) 0)

-- `x[i] += h[j] * …` for the digits of `h` left, from index `j` on.
unfoldable pub product_row : List ℕ → ℕ → ℕ → ℕ → List ℕ → ℕ
product_row r i j acc [] = acc
product_row r i j acc (a ∷ h) = product_row r i (suc j) (u32 (acc + u32 (a * coefficient r i j))) h

-- The rows from index `i` on.
unfoldable pub product_rows : List ℕ → List ℕ → ℕ → ℕ → List ℕ
product_rows h r zero i = []
product_rows h r (suc n) i = product_row r i 0 0 h ∷ product_rows h r n (suc i)

unfoldable pub product : List ℕ → List ℕ → List ℕ
product h r = product_rows h r 17 0

-- `u += h[j]; h[j] = u & 255; u >>= 8;` for `n` digits: the digits, and `u` after them.
unfoldable pub carry_run : ℕ → ℕ → List ℕ → List ℕ × ℕ
carry_run zero u h = ([], u)
carry_run (suc n) u [] = ([], u)
carry_run (suc n) u (a ∷ h) =
    let s = u32 (u + a) in let (rest, u') = carry_run n (s >> 8) h in (bit_and s 255 ∷ rest, u')

-- The second pass of the reduction: what lies above 2 ^ 130 comes back five times at the bottom.
unfoldable pub fold_top : List ℕ → ℕ → List ℕ
fold_top low top =
    let (low', u') = carry_run 16 (u32 (5 * (top >> 2))) low in
    low' ++ u32 (u' + bit_and top 3) ∷ []

-- The reduction after a product.
unfoldable pub squeeze : List ℕ → List ℕ
squeeze h = let (low, u) = carry_run 16 0 h in fold_top low (u32 (u + get_or h 16 0))

-- The digits of the next block: at most 16 bytes of the message, then a 1.
unfoldable pub block_digits : List ℕ → ℕ → List ℕ
block_digits m n = if ltb n 16 then take n m ++ 1 ∷ replicate (16 - n) 0 else take 16 m ++ 1 ∷ []

-- The `while` loop, with fuel for the blocks to come.
unfoldable pub absorb : ℕ → List ℕ → ℕ → List ℕ → List ℕ → List ℕ
absorb zero m n r h = h
absorb (suc fuel) m n r h =
    let rest =
      absorb fuel (drop 16 m) (n - 16) r (squeeze (product (add1305 h (block_digits m n)) r)) in
    if n == 0 then h else rest

-- `h[j] ^= s & (g[j] ^ h[j])`
unfoldable pub select_digits : ℕ → List ℕ → List ℕ → List ℕ
select_digits s [] h = []
select_digits s (a ∷ g) [] = []
select_digits s (a ∷ g) (b ∷ h) = bit_xor b (bit_and s (bit_xor a b)) ∷ select_digits s g h

-- The last reduction: minus 2 ^ 130 - 5, taken back if that goes below 0.
unfoldable pub freeze : List ℕ → List ℕ
freeze g = let h = add1305 g minusp in select_digits (sub32 0 (get_or h 16 0 >> 7)) g h

-- The 16 bytes that are written to `out`.
unfoldable pub tag : List ℕ → ℕ → List ℕ → List ℕ
tag m n k =
    let h = absorb (n / 16 + 1) m n (clamp k) (replicate 17 0) in
    take 16 (add1305 (freeze h) (take 16 (drop 16 k) ++ 0 ∷ []))

unfoldable pub crypto_onetimeauth : Ptr → Ptr → ℕ → Ptr → Call
crypto_onetimeauth out m n k =
    if is_null out || (is_null m || is_null k)
    then record { status = failed; out = contents out }
    else record { status = ok; out = write_at 0 (tag (contents m) n (contents k)) (contents out) }

-- The local array `x` is never NULL.
unfoldable pub crypto_onetimeauth_verify : Ptr → Ptr → ℕ → Ptr → ℤ
crypto_onetimeauth_verify h m n k =
    if is_null m || is_null k
    then failed
    else crypto_verify_16 (contents h) (tag (contents m) n (contents k))
