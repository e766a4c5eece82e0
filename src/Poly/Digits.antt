-- ===== src/Poly/Digits.antt =====
-- Numbers by a function that gives their digits.
use native.Mathlib.Nat.{mul-add, mul_left_comm}
use tweetnacl_modular.Base.{
  ℕ, zero, suc, ◌+◌, ◌*◌, ◌^◌, ◌≡◌, refl, ap, ◌∙◌, arith, List, [], ◌∷◌, length, get_or,
}
use mathlib.Core.Path.{fun_ext}
use tweetnacl_modular.Bytes.Value.{le_value, scale_suc}

-- The number whose `n` digits are `f i`, `f (i + 1)`, ….
unfoldable pub digits_value : ℕ → ℕ → (ℕ → ℕ) → ℕ
digits_value zero i f = 0
digits_value (suc n) i f = f i + 256 * digits_value n (suc i) f

pub digits_value_zero : (n i : ℕ) → digits_value n i (λ t. 0) ≡ 0
unfolding digits_value
digits_value_zero zero i = refl
digits_value_zero (suc n) i = omega (arith, digits_value_zero n (suc i))

pub digits_value_linear :
    (n i a : ℕ) (f g : ℕ → ℕ)
    → digits_value n i (λ t. a * f t + g t) ≡ a * digits_value n i f + digits_value n i g
unfolding digits_value
digits_value_linear zero i a f g = omega arith
digits_value_linear (suc n) i a f g = omega (
  arith,
  digits_value_linear n (suc i) a f g,
  mul-add a (f i) (256 * digits_value n (suc i) f),
  mul_left_comm a 256 (digits_value n (suc i) f),
)

pub digits_value_shift :
    (n i : ℕ) (f : ℕ → ℕ) → digits_value n (suc i) f ≡ digits_value n i (λ t. f (suc t))
unfolding digits_value
digits_value_shift zero i f = refl
digits_value_shift (suc n) i f = ap (λ t. f (suc i) + 256 * t) (digits_value_shift n (suc i) f)

pub digits_value_congr :
    (n i : ℕ) (f g : ℕ → ℕ) → ((t : ℕ) → f t ≡ g t) → digits_value n i f ≡ digits_value n i g
digits_value_congr n i f g h = ap (digits_value n i) (fun_ext h)

-- The highest digit comes off.
pub digits_value_last :
    (n i : ℕ) (f : ℕ → ℕ) → digits_value (suc n) i f ≡ digits_value n i f + 256 ^ n * f (i + n)
unfolding digits_value
digits_value_last zero i f =
    let e : i ≡ i + 0 = omega arith in ap (λ t. f t + 256 * 0) e ∙ omega arith
digits_value_last (suc n) i f =
    let e : suc i + n ≡ i + suc n = omega arith in
    ap (λ t. f i + 256 * t)
      (digits_value_last n (suc i) f ∙ ap (λ t. digits_value n (suc i) f + 256 ^ n * f t) e)
    ∙ omega (arith, scale_suc n (f (i + suc n)))

pub digits_value-le_value :
    (r : List ℕ) → digits_value (length r) 0 (λ t. get_or r t 0) ≡ le_value r
unfolding digits_value
digits_value-le_value [] = refl
digits_value-le_value (b ∷ r) =
    ap (λ t. b + 256 * t)
      (digits_value_shift (length r) 0 (λ t. get_or (b ∷ r) t 0) ∙ digits_value-le_value r)
