-- ===== src/Utils/Product.antt =====
-- `safe_mul_int` fails exactly when the product does not fit.
use native.Mathlib.Nat.{le-div_iff_mul-le, div-lt_iff_lt-mul}
use tweetnacl_modular.Base.{
  ℕ, zero, suc, ◌-◌, ◌*◌, ◌/◌, ◌^◌, ◌≤◌, ◌<◌, ◌≡◌, ◌⊎◌, inl, inr, refl, arith, some, true, false,
  le-or-lt,
}
use tweetnacl_modular.Base.Int.{ℤ, pos, negsuc, ◌*ℤ◌, div_ℤ, ok, failed}
use tweetnacl_modular.Utils.{mul_overflows, safe_mul_int}
use tweetnacl_modular.Utils.Checked.{IsInt}

-- Comparing with a quotient is comparing the product.
fit_or_over :
    (m x y : ℕ)
    → ((suc x ≤ m / suc y) × (suc x * suc y ≤ m)) ⊎ ((m / suc y < suc x) × (m < suc x * suc y))
fit_or_over m x y =
    let there : 0 < suc y = omega arith in
    elim (le-or-lt (suc x) (m / suc y)) [
      | inl low ↦ inl (low, (le-div_iff_mul-le there).0 low)
      | inr high ↦ inr (high, (div-lt_iff_lt-mul there).0 high)
    ]

-- What the tests should say of two factors.
IsTested : ℤ → ℤ → Type 0
IsTested a b =
    (IsInt (a *ℤ b) × (mul_overflows a b ≡ false))
    ⊎ ((IsInt (a *ℤ b) → ⊥) × (mul_overflows a b ≡ true))

tested : (a b : ℤ) → IsTested a b
unfolding IsTested mul_overflows div_ℤ ◌*ℤ◌
tested (pos zero) (pos zero) = inl (ground arith, ground arith)
tested (pos zero) (pos (suc y)) = inl (ground arith, ground arith)
tested (pos zero) (negsuc y) = inl (ground arith, ground arith)
tested (pos (suc x)) (pos zero) = inl (ground arith, ground arith)
tested (negsuc x) (pos zero) = inl (ground arith, ground arith)
tested (pos (suc x)) (pos (suc y)) = elim (fit_or_over (2 ^ 31 - 1) x y) [
  | inl (low, fits) ↦ inl (ground (arith, fits), ground (arith, low))
  | inr (high, over) ↦ inr (λ h. ground (arith, over), ground (arith, high))
]
tested (pos (suc x)) (negsuc y) = elim (fit_or_over (2 ^ 31) y x) [
  | inl (low, fits) ↦ inl (ground (arith, fits), ground (arith, low))
  | inr (high, over) ↦ inr (λ h. ground (arith, over), ground (arith, high))
]
tested (negsuc x) (pos (suc y)) = elim (fit_or_over (2 ^ 31) x y) [
  | inl (low, fits) ↦ inl (ground (arith, fits), ground (arith, low))
  | inr (high, over) ↦ inr (λ h. ground (arith, over), ground (arith, high))
]
tested (negsuc x) (negsuc y) = elim (fit_or_over (2 ^ 31 - 1) y x) [
  | inl (low, fits) ↦ inl (ground (arith, fits), ground (arith, low))
  | inr (high, over) ↦ inr (λ h. ground (arith, over), ground (arith, high))
]

-- For a result pointer that is not NULL, `safe_mul_int` returns 0 and stores the product if it is
-- an integer of 32 bits, and else returns -1 and leaves the result alone.
pub safe_mul_int_cases :
    (a b old : ℤ)
    → (IsInt (a *ℤ b) × (safe_mul_int a b (some old) ≡ (ok, some (a *ℤ b))))
      ⊎ ((IsInt (a *ℤ b) → ⊥) × (safe_mul_int a b (some old) ≡ (failed, some old)))
unfolding safe_mul_int IsTested
safe_mul_int_cases a b old = elim (tested a b) [
  | inl (fits, passes) ↦ inl (fits, rw passes refl)
  | inr (over, stops) ↦ inr (over, rw stops refl)
]
