-- ===== src/Verify/Equal.antt =====
-- The comparisons without early exit decide equality.
use tweetnacl_modular.Base.{
  ◌==◌, false, ℕ, zero, suc, ◌^◌, ◌<◌, ◌≤◌, ◌≡◌, ◌≢◌, ◌⊎◌, inl, inr, refl, ap, ◌∙◌, arith, bit_and,
  bit_or, bit_xor, List, [], ◌∷◌, take, length,
}
use native.Mathlib.Nat.{eq-zero-or-pos}
use tweetnacl_modular.Base.Int.{ℤ, signed32, ok, failed}
use tweetnacl_modular.Bits.{
  bit_xor-lt, bit_or-lt, eq_of_bit_xor-zero, zero_of_bit_or-zero, bit_xor_self,
}
use tweetnacl_modular.Word.{sub32, ◌>>◌}
use tweetnacl_modular.Bytes.{IsBytes}
use tweetnacl_modular.Memory.{at}
use tweetnacl_modular.Memory.Secure.{differences, secure_memcmp}
use tweetnacl_modular.Verify.{vn}

-- The accumulator of differences is a byte, and 0 exactly for equal prefixes.
differences-lt :
    (n acc : ℕ) (x y : List ℕ) → acc < 2 ^ 8 → IsBytes x → IsBytes y → differences n acc x y < 2 ^ 8
unfolding differences
differences-lt zero acc x y h hx hy = h
differences-lt (suc n) acc [] [] h hx hy =
    differences-lt n _ [] [] (bit_or-lt 8 acc _ h (bit_xor-lt 8 0 0 (omega arith) (omega arith))) hx
      hy
differences-lt (suc n) acc [] (b ∷ y) h hx hy =
    differences-lt n _ [] y (bit_or-lt 8 acc _ h (bit_xor-lt 8 0 b (omega arith) hy.0)) hx hy.1
differences-lt (suc n) acc (a ∷ x) [] h hx hy =
    differences-lt n _ x [] (bit_or-lt 8 acc _ h (bit_xor-lt 8 a 0 hx.0 (omega arith))) hx.1 hy
differences-lt (suc n) acc (a ∷ x) (b ∷ y) h hx hy =
    differences-lt n _ x y (bit_or-lt 8 acc _ h (bit_xor-lt 8 a b hx.0 hy.0)) hx.1 hy.1

differences-zero :
    (n acc : ℕ) (x y : List ℕ)
    → n ≤ length x
    → n ≤ length y
    → differences n acc x y ≡ 0
    → (acc ≡ 0) × (take n x ≡ take n y)
unfolding differences
differences-zero zero acc x y hx hy h = (h, refl)
differences-zero (suc n) acc (a ∷ x) (b ∷ y) hx hy h =
    let rest = differences-zero n (bit_or acc (bit_xor a b)) x y (omega arith) (omega arith) h in
    let parts = zero_of_bit_or-zero acc (bit_xor a b) rest.0 in
    (parts.0, ap (λ t. t ∷ take n x) (eq_of_bit_xor-zero a b parts.1) ∙ ap (◌∷◌ b) rest.1)
differences-zero (suc n) acc [] y hx hy h = absurd (omega arith)
differences-zero (suc n) acc (a ∷ x) [] hx hy h = absurd (omega arith)

same_heads :
    (n a b : ℕ) (x y : List ℕ) → a ∷ take n x ≡ b ∷ take n y → (a ≡ b) × (take n x ≡ take n y)
same_heads n a b x y e = (ground arith, ground arith)

differences_self :
    (n : ℕ) (x y : List ℕ)
    → n ≤ length x
    → n ≤ length y
    → take n x ≡ take n y
    → differences n 0 x y ≡ 0
unfolding differences
differences_self zero x y hx hy e = refl
differences_self (suc n) (a ∷ x) (b ∷ y) hx hy e =
    let (heads, tails) = same_heads n a b x y e in
    let none_yet : bit_or 0 (bit_xor a b) ≡ 0 = rw (heads, bit_xor_self b) refl in
    rw none_yet (differences_self n x y (omega arith) (omega arith) tails)
differences_self (suc n) [] y hx hy e = absurd (omega arith)
differences_self (suc n) (a ∷ x) [] hx hy e = absurd (omega arith)

-- The last line of `vn` turns a byte into 0 or -1.
collapse : ℕ → ℤ
collapse d = signed32 (sub32 (bit_and 1 (sub32 d 1 >> 8)) 1)

collapse_zero : collapse 0 ≡ ok
unfolding collapse
collapse_zero = refl

collapse_pos : (d : ℕ) → 0 < d → d < 2 ^ 8 → collapse d ≡ failed
unfolding collapse
collapse_pos d p h = let e : sub32 d 1 >> 8 ≡ 0 = omega arith in rw e refl

-- On two buffers of `n` bytes at least, `vn` returns 0 when the first `n` bytes agree, and -1 when
-- they do not.
pub vn_lem :
    (n : ℕ) (x y : List ℕ)
    → IsBytes x
    → IsBytes y
    → n ≤ length x
    → n ≤ length y
    → ((take n x ≡ take n y) × (vn x y n ≡ ok)) ⊎ ((take n x ≢ take n y) × (vn x y n ≡ failed))
unfolding vn collapse
vn_lem n x y hx hy lx ly = elim (eq-zero-or-pos (differences n 0 x y)) [
  | inl z ↦ inl ((differences-zero n 0 x y lx ly z).1, rw z collapse_zero)
  | inr p ↦ inr (
    λ e. omega (arith, differences_self n x y lx ly e),
    collapse_pos (differences n 0 x y) p (differences-lt n 0 x y (omega arith) hx hy),
  )
]

-- On two buffers of `n` bytes at least, `secure_memcmp` returns 0 when the first `n` bytes agree,
-- and -1 when they do not.
pub secure_memcmp_cases :
    (px py n : ℕ) (x y : List ℕ)
    → n ≤ length x
    → n ≤ length y
    → ((take n x ≡ take n y) × (secure_memcmp (at px x) (at py y) n ≡ ok))
      ⊎ ((take n x ≢ take n y) × (secure_memcmp (at px x) (at py y) n ≡ failed))
unfolding secure_memcmp
secure_memcmp_cases px py n x y lx ly = elim (eq-zero-or-pos (differences n 0 x y)) [
  | inl z ↦ inl ((differences-zero n 0 x y lx ly z).1, rw z refl)
  | inr p ↦
      let some_bit : (differences n 0 x y == 0) ≡ false = ground (arith, p) in
      inr (λ e. omega (arith, differences_self n x y lx ly e), rw some_bit refl)
]
