-- ===== src/Poly/Clamp.antt =====
-- The multiplier that `clamp` reads from a key is the key's low half, masked as one number.
use tweetnacl_modular.Base.{
  ℕ, suc, ◌^◌, ◌<◌, ◌≤◌, ◌≡◌, refl, ap, ◌∙◌, arith, bit_and, List, [], ◌∷◌, ◌++◌, length,
  All-get_or, All-take, All-append, take, get_or, length-take, length-append,
}
use tweetnacl_modular.Base.Read.{take-read_from}
use tweetnacl_modular.Bits.{mask-bit_and, bit_and_comm, bit_and_digits, bit_and-lt}
use tweetnacl_modular.Bytes.{IsBytes}
use tweetnacl_modular.Bytes.Value.{le_value, le_value-append}
use tweetnacl_modular.Poly.{clamp}
use tweetnacl_modular.Poly.Reference.{clamp_mask}

-- Digit by digit.
abbrev mask_digits : List ℕ → List ℕ → List ℕ
mask_digits [] ms = []
mask_digits (x ∷ xs) [] = []
mask_digits (x ∷ xs) (m ∷ ms) = bit_and x m ∷ mask_digits xs ms

mask_digits_value :
    (xs ms : List ℕ)
    → IsBytes xs
    → IsBytes ms
    → length xs ≡ length ms
    → le_value (mask_digits xs ms) ≡ bit_and (le_value xs) (le_value ms)
mask_digits_value [] [] hx hm e = refl
mask_digits_value [] (m ∷ ms) hx hm e = absurd (omega arith)
mask_digits_value (x ∷ xs) [] hx hm e = absurd (omega arith)
mask_digits_value (x ∷ xs) (m ∷ ms) hx hm e = omega (
  arith,
  mask_digits_value xs ms hx.1 hm.1 (omega arith),
  bit_and_digits 8 x m (le_value xs) (le_value ms) hx.0 hm.0,
)

mask_digits-IsBytes : (xs ms : List ℕ) → IsBytes xs → IsBytes (mask_digits xs ms)
mask_digits-IsBytes [] ms h = tt
mask_digits-IsBytes (x ∷ xs) [] h = tt
mask_digits-IsBytes (x ∷ xs) (m ∷ ms) h = (bit_and-lt 8 x m h.0, mask_digits-IsBytes xs ms h.1)

length-mask_digits :
    (xs ms : List ℕ) → length xs ≡ length ms → length (mask_digits xs ms) ≡ length xs
length-mask_digits [] ms e = refl
length-mask_digits (x ∷ xs) [] e = absurd (omega arith)
length-mask_digits (x ∷ xs) (m ∷ ms) e = ap suc (length-mask_digits xs ms (omega arith))

abbrev mask_bytes : List ℕ
mask_bytes =
    255 ∷ 255 ∷ 255 ∷ 15 ∷ 252 ∷ 255 ∷ 255 ∷ 15 ∷ 252 ∷ 255 ∷ 255 ∷ 15 ∷ 252 ∷ 255 ∷ 255 ∷ 15 ∷ []

module _ (k : List ℕ) (bytes : IsBytes k) (long : 16 ≤ length k) where
  full : (i : ℕ) → bit_and (get_or k i 0) 255 ≡ get_or k i 0
  full i =
      bit_and_comm (get_or k i 0) 255
      ∙ mask-bit_and 8 (get_or k i 0) (All-get_or (λ b. b < 2 ^ 8) k i 0 (omega arith) bytes)

  clamp-mask_digits : clamp k ≡ mask_digits (take 16 k) mask_bytes ++ 0 ∷ []
  unfolding clamp
  clamp-mask_digits = rw (take-read_from 16 k long) (simp full refl)

  low-IsBytes : IsBytes (take 16 k)
  low-IsBytes = All-take (λ b. b < 2 ^ 8) 16 k bytes

  count_low : length (take 16 k) ≡ 16
  count_low = omega (arith, length-take 16 k)

  -- For a key of bytes, 16 at least, the digits that `clamp` leaves stand for the key's first 16
  -- bytes, as one number, masked with the constant of RFC 8439.
  pub clamp_value : le_value (clamp k) ≡ bit_and (le_value (take 16 k)) clamp_mask
  clamp_value =
      let masked = mask_digits_value (take 16 k) mask_bytes low-IsBytes (ground arith) count_low in
      ap le_value clamp-mask_digits
      ∙ omega (arith, le_value-append (mask_digits (take 16 k) mask_bytes) (0 ∷ []), masked)

  pub clamp-IsBytes : IsBytes (clamp k)
  clamp-IsBytes = rw clamp-mask_digits (
      All-append (λ b. b < 2 ^ 8) _ _ (mask_digits-IsBytes (take 16 k) mask_bytes low-IsBytes)
        (omega arith, tt))

  pub length-clamp : length (clamp k) ≡ 17
  length-clamp =
      let masked = length-mask_digits (take 16 k) mask_bytes count_low in
      rw clamp-mask_digits (
        length-append (mask_digits (take 16 k) mask_bytes) (0 ∷ [])
        ∙ omega (arith, masked, count_low))
