-- ===== src/Bits/Step.antt =====
-- One equation for the lowest binary digit of each native bit operation.
use Prim.Native.Nat.{digits, bitwise, differ, bit_and-bitwise, bit_or-bitwise, bit_xor-bitwise}
use native.Mathlib.Nat.{le_refl}
use tweetnacl_modular.Base.{
  ℕ, zero, suc, ◌+◌, ◌*◌, ◌/◌, ◌%◌, ◌≤◌, ◌<◌, min, max, bit_and, bit_or, bit_xor, ◌≡◌, refl, ap,
  arith, ◌∙◌,
}

module _ (rest : ℕ → ℕ) (on_digits : ℕ → ℕ → ℕ) where
  -- The count of digits to go does not matter once it reaches the first number.
  count_irrelevant :
      (x y s t : ℕ) → x ≤ s → x ≤ t → digits rest on_digits s x y ≡ digits rest on_digits t x y
  count_irrelevant (suc x) y (suc s) (suc t) hs ht =
      ap (λ high. high * 2 + on_digits (suc x % 2) (y % 2))
        (count_irrelevant (suc x / 2) (y / 2) s t (omega arith) (omega arith))
  count_irrelevant (suc x) y zero t hs ht = absurd (omega arith)
  count_irrelevant (suc x) y (suc s) zero hs ht = absurd (omega arith)
  count_irrelevant zero y zero zero hs ht = refl
  count_irrelevant zero y zero (suc t) hs ht = refl
  count_irrelevant zero y (suc s) zero hs ht = refl
  count_irrelevant zero y (suc s) (suc t) hs ht = refl

  lowest :
      (x y : ℕ)
      → bitwise rest on_digits (suc x) y
        ≡ on_digits (suc x % 2) (y % 2) + 2 * bitwise rest on_digits (suc x / 2) (y / 2)
  lowest x y =
      ap (λ high. high * 2 + on_digits (suc x % 2) (y % 2))
        (count_irrelevant (suc x / 2) (y / 2) x (suc x / 2) (omega arith) (le_refl _))
      ∙ omega arith

-- The exclusive or of two digits, in a form that `omega` reads.
differ_digits : (x y : ℕ) → x < 2 → y < 2 → differ x y ≡ (x + y) % 2
differ_digits zero y p q = omega arith
differ_digits (suc zero) zero p q = refl
differ_digits (suc zero) (suc zero) p q = refl
differ_digits (suc zero) (suc (suc y)) p q = absurd (omega arith)
differ_digits (suc (suc x)) y p q = absurd (omega arith)

xor_digit : (a b : ℕ) → bit_xor a b ≡ differ (a % 2) (b % 2) + 2 * bit_xor (a / 2) (b / 2)
xor_digit zero b = simp bit_xor-bitwise (omega arith)
xor_digit (suc a) b = simp bit_xor-bitwise (lowest (λ y. y) differ a b)

pub bit_xor_step : (a b : ℕ) → bit_xor a b ≡ (a + b) % 2 + 2 * bit_xor (a / 2) (b / 2)
bit_xor_step a b =
    omega (arith, xor_digit a b, differ_digits (a % 2) (b % 2) (omega arith) (omega arith))

pub bit_and_step : (a b : ℕ) → bit_and a b ≡ min (a % 2) (b % 2) + 2 * bit_and (a / 2) (b / 2)
bit_and_step zero b = simp bit_and-bitwise (omega arith)
bit_and_step (suc a) b = simp bit_and-bitwise (lowest (λ y. 0) min a b)

pub bit_or_step : (a b : ℕ) → bit_or a b ≡ max (a % 2) (b % 2) + 2 * bit_or (a / 2) (b / 2)
bit_or_step zero b = simp bit_or-bitwise (omega arith)
bit_or_step (suc a) b = simp bit_or-bitwise (lowest (λ y. y) max a b)
