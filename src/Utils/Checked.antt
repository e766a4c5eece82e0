-- ===== src/Utils/Checked.antt =====
-- The checked operations fail exactly when the result does not fit.
use tweetnacl_modular.Base.{
  ℕ, zero, suc, ◌+◌, ◌-◌, ◌*◌, ◌/◌, ◌≤◌, ◌<◌, ◌≡◌, ◌⊎◌, inl, inr, refl, arith, some, ◌||◌, ◌&&◌,
  true, false, ◌==◌, Bool-cases, le-or-lt, le→ltb, lt→ltb,
}
use native.Mathlib.Nat.{le-div_iff_mul-le, div-lt_iff_lt-mul}
use tweetnacl_modular.Base.Int.{ℤ, pos, ◌+ℤ◌, ◌-ℤ◌, ◌≤ℤ◌, ltb_ℤ, ok, failed, +ℤ_parts, -ℤ_parts}
use tweetnacl_modular.Word.{u64}
use tweetnacl_modular.Utils.{
  int_max, int_min, size_max, safe_add_int, safe_sub_int, safe_add_size, safe_mul_size,
}

-- An `int` of 32 bits.
abbrev pub IsInt : ℤ → Type 0
IsInt a = (int_min ≤ℤ a) × (a ≤ℤ int_max)

-- For two integers of 32 bits and a result pointer that is not NULL, `safe_add_int` returns 0 and
-- stores the sum if it is an integer of 32 bits, and else returns -1 and leaves the result alone.
pub safe_add_int_cases :
    (a b old : ℤ)
    → IsInt a
    → IsInt b
    → (IsInt (a +ℤ b) × (safe_add_int a b (some old) ≡ (ok, some (a +ℤ b))))
      ⊎ ((IsInt (a +ℤ b) → ⊥) × (safe_add_int a b (some old) ≡ (failed, some old)))
unfolding safe_add_int
safe_add_int_cases a b old ha hb =
    let total = +ℤ_parts a b in
    let above = -ℤ_parts int_max b in
    let below = -ℤ_parts int_min b in
    elim (Bool-cases
      (ltb_ℤ (pos 0) b && ltb_ℤ (int_max -ℤ b) a || ltb_ℤ b (pos 0) && ltb_ℤ a (int_min -ℤ b))) [
        | inl t ↦ inr (λ h. ground (arith, total, above, below), rw t refl)
        | inr t ↦ inl (ground (arith, total, above, below), rw t refl)
      ]

-- For two integers of 32 bits and a result pointer that is not NULL, `safe_sub_int` returns 0 and
-- stores the difference if it is an integer of 32 bits, and else returns -1 and leaves the result
-- alone.
pub safe_sub_int_cases :
    (a b old : ℤ)
    → IsInt a
    → IsInt b
    → (IsInt (a -ℤ b) × (safe_sub_int a b (some old) ≡ (ok, some (a -ℤ b))))
      ⊎ ((IsInt (a -ℤ b) → ⊥) × (safe_sub_int a b (some old) ≡ (failed, some old)))
unfolding safe_sub_int
safe_sub_int_cases a b old ha hb =
    let total = -ℤ_parts a b in
    let below = +ℤ_parts int_min b in
    let above = +ℤ_parts int_max b in
    elim (Bool-cases
      (ltb_ℤ (pos 0) b && ltb_ℤ a (int_min +ℤ b) || ltb_ℤ b (pos 0) && ltb_ℤ (int_max +ℤ b) a)) [
        | inl t ↦ inr (λ h. ground (arith, total, above, below), rw t refl)
        | inr t ↦ inl (ground (arith, total, above, below), rw t refl)
      ]

-- For two sizes of 64 bits and a result pointer that is not NULL, `safe_add_size` returns 0 and
-- stores the sum if it fits, and else returns -1 and leaves the result alone.
pub safe_add_size_cases :
    (a b old : ℕ)
    → a ≤ size_max
    → b ≤ size_max
    → ((a + b ≤ size_max) × (safe_add_size a b (some old) ≡ (ok, some (a + b))))
      ⊎ ((size_max < a + b) × (safe_add_size a b (some old) ≡ (failed, some old)))
unfolding safe_add_size
safe_add_size_cases a b old ha hb = elim (le-or-lt (a + b) size_max) [
  | inl fits ↦
      let wrap : u64 (a + b) ≡ a + b = omega arith in
      inl (fits, rw (le→ltb (size_max - b) a (omega arith), wrap) refl)
  | inr over ↦ inr (over, rw (lt→ltb (size_max - b) a (omega arith)) refl)
]

product_zero : (a b : ℕ) → (a == 0 || b == 0) ≡ true → a * b ≡ 0
product_zero zero b h = omega arith
product_zero (suc a) zero h = omega arith
product_zero (suc a) (suc b) h = absurd (ground arith)

positive_right : (a b : ℕ) → (a == 0 || b == 0) ≡ false → 0 < b
positive_right a zero h = absurd (ground arith)
positive_right a (suc b) h = omega arith

-- For two sizes and a result pointer that is not NULL, `safe_mul_size` returns 0 and stores the
-- product if it fits in 64 bits, and else returns -1 and leaves the result alone.
pub safe_mul_size_cases :
    (a b old : ℕ)
    → ((a * b ≤ size_max) × (safe_mul_size a b (some old) ≡ (ok, some (a * b))))
      ⊎ ((size_max < a * b) × (safe_mul_size a b (some old) ≡ (failed, some old)))
unfolding safe_mul_size
safe_mul_size_cases a b old = elim (Bool-cases (a == 0 || b == 0)) [
  | inl none_there ↦
      let nothing = product_zero a b none_there in
      inl (omega (arith, nothing), rw (none_there, nothing) refl)
  | inr both ↦
      let there = positive_right a b both in
      elim (le-or-lt a (size_max / b)) [
        | inl low ↦
            let fits : a * b ≤ size_max = (le-div_iff_mul-le there).0 low in
            let wrap : u64 (a * b) ≡ a * b = omega (arith, fits) in
            inl (fits, rw (both, le→ltb (size_max / b) a low, wrap) refl)
        | inr high ↦
            let over : size_max < a * b = (div-lt_iff_lt-mul there).0 high in
            inr (over, rw (both, lt→ltb (size_max / b) a high) refl)
      ]
]
