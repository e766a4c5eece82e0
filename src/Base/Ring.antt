-- ===== src/Base/Ring.antt =====
-- The integers are a commutative ring.
use Prim.Native.Nat.{ℕ, ◌+◌, ◌*◌}
use mathlib.Core.Path.{◌≡◌, sym, ap, ◌∙◌}
use native.Mathlib.Omega.{arith}
use tweetnacl_modular.Base.Int.{
  ℤ, pos, negsuc, pos_part, neg_part, ◌+ℤ◌, ◌-ℤ◌, ◌*ℤ◌, +ℤ_parts, -ℤ_parts, eq_of_parts, int_laws,
}

pub *ℤ_parts :
    (a b : ℤ)
    → pos_part (a *ℤ b) + (pos_part a * neg_part b + neg_part a * pos_part b)
      ≡ neg_part (a *ℤ b) + (pos_part a * pos_part b + neg_part a * neg_part b)
unfolding ◌*ℤ◌
*ℤ_parts a b = ground arith

-- A product with a natural number: at a numeral, a linear fact.
pub scaled_parts :
    (c : ℕ) (z : ℤ)
    → pos_part (pos c *ℤ z) + c * neg_part z ≡ neg_part (pos c *ℤ z) + c * pos_part z
scaled_parts c z = omega (arith, *ℤ_parts (pos c) z)

pub *ℤ_comm : (a b : ℤ) → a *ℤ b ≡ b *ℤ a
*ℤ_comm a b = eq_of_parts (a *ℤ b) (b *ℤ a) (omega (arith, *ℤ_parts a b, *ℤ_parts b a))

pub *ℤ-+ℤ : (a b c : ℤ) → a *ℤ (b +ℤ c) ≡ a *ℤ b +ℤ a *ℤ c
*ℤ-+ℤ a b c =
    let s = b +ℤ c in
    let sum = +ℤ_parts b c in
    eq_of_parts (a *ℤ s) (a *ℤ b +ℤ a *ℤ c) (
      omega (
        arith,
        *ℤ_parts a s,
        *ℤ_parts a b,
        *ℤ_parts a c,
        +ℤ_parts (a *ℤ b) (a *ℤ c),
        ap (λ (t : ℕ). pos_part a * t) sum,
        ap (λ (t : ℕ). neg_part a * t) sum,
      ))

pub *ℤ_assoc : (a b c : ℤ) → a *ℤ (b *ℤ c) ≡ (a *ℤ b) *ℤ c
*ℤ_assoc a b c =
    let u = b *ℤ c in
    let v = a *ℤ b in
    eq_of_parts (a *ℤ u) (v *ℤ c) (
      omega (
        arith,
        *ℤ_parts a u,
        *ℤ_parts v c,
        ap (λ (t : ℕ). pos_part a * t) (*ℤ_parts b c),
        ap (λ (t : ℕ). neg_part a * t) (*ℤ_parts b c),
        ap (λ (t : ℕ). t * pos_part c) (*ℤ_parts a b),
        ap (λ (t : ℕ). t * neg_part c) (*ℤ_parts a b),
      ))

pub +ℤ-*ℤ : (a b c : ℤ) → (a +ℤ b) *ℤ c ≡ a *ℤ c +ℤ b *ℤ c
+ℤ-*ℤ a b c =
    *ℤ_comm (a +ℤ b) c
    ∙ *ℤ-+ℤ c a b
    ∙ ap (λ t. t +ℤ c *ℤ b) (*ℤ_comm c a)
    ∙ ap (λ t. a *ℤ c +ℤ t) (*ℤ_comm c b)

-- A numeral moves out of the second factor.
pub *ℤ-scaled : (a c z : ℤ) → a *ℤ (c *ℤ z) ≡ c *ℤ (a *ℤ z)
*ℤ-scaled a c z = *ℤ_assoc a c z ∙ ap (λ t. t *ℤ z) (*ℤ_comm a c) ∙ sym (*ℤ_assoc c a z)

pub +ℤ_assoc : (a b c : ℤ) → (a +ℤ b) +ℤ c ≡ a +ℤ (b +ℤ c)
+ℤ_assoc a b c = omega int_laws

pub ruleset ring_laws = (arith, +ℤ_parts, -ℤ_parts, scaled_parts, eq_of_parts)

pub *ℤ-zero : (a : ℤ) → a *ℤ pos 0 ≡ pos 0
*ℤ-zero a = eq_of_parts (a *ℤ pos 0) (pos 0) (omega (arith, *ℤ_parts a (pos 0)))
