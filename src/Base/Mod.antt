-- ===== src/Base/Mod.antt =====
-- Congruence modulo a number, as equal remainders.
use Prim.Native.Nat.{ℕ, ◌+◌, ◌*◌, ◌/◌, ◌%◌, ◌<◌, ◌≤◌}
use mathlib.Core.Path.{◌≡◌, sym, ap, ap₂, ◌∙◌}
use native.Mathlib.Nat.{
  div-add-mod, mul-add-mod_self_left, mul_comm, mul_assoc, mul-add, add-mod, mul_left_comm,
}
use native.Mathlib.Nat.{mod-eq_of_lt, mod-lt, mul-le-mul_left}
use native.Mathlib.Omega.{arith}

-- A factor may be replaced by its remainder.
pub mul-mod_right : (m c a : ℕ) → c * a % m ≡ c * (a % m) % m
mul-mod_right m c a =
    ap (λ t. c * t % m) (sym (div-add-mod a m))
    ∙ ap (λ t. t % m)
        (mul-add c (m * (a / m)) (a % m) ∙ ap (λ t. t + c * (a % m)) (mul_left_comm c m (a / m)))
    ∙ mul-add-mod_self_left m (c * (a / m)) (c * (a % m))

pub mul-mod_congr : (m c a b : ℕ) → a % m ≡ b % m → c * a % m ≡ c * b % m
mul-mod_congr m c a b h = mul-mod_right m c a ∙ ap (λ t. c * t % m) h ∙ sym (mul-mod_right m c b)

pub mod-mul_congr : (m c a b : ℕ) → a % m ≡ b % m → a * c % m ≡ b * c % m
mod-mul_congr m c a b h =
    ap (λ t. t % m) (mul_comm a c) ∙ mul-mod_congr m c a b h ∙ ap (λ t. t % m) (mul_comm c b)

pub add-mod_congr :
    (m a a' b b' : ℕ) → a % m ≡ a' % m → b % m ≡ b' % m → (a + b) % m ≡ (a' + b') % m
add-mod_congr m a a' b b' h h' =
    add-mod a b m ∙ ap₂ (λ s t. (s + t) % m) h h' ∙ sym (add-mod a' b' m)

-- The lowest digit to the base `b` comes off a remainder.
pub mod_scale : (b m q r : ℕ) → r < b → 1 ≤ m → (b * q + r) % (b * m) ≡ b * (q % m) + r
mod_scale b m q r h p =
    ap (λ t. t % (b * m)) split
    ∙ mul-add-mod_self_left (b * m) (q / m) (b * (q % m) + r)
    ∙ mod-eq_of_lt fits
  where
    split : b * q + r ≡ b * m * (q / m) + (b * (q % m) + r)
    split =
        ap (λ t. b * t + r) (sym (div-add-mod q m))
        ∙ ap (λ t. t + r) (mul-add b (m * (q / m)) (q % m))
        ∙ omega (arith, mul_assoc b m (q / m))

    fits : b * (q % m) + r < b * m
    fits =
        let room : q % m + 1 ≤ m = omega (arith, mod-lt q p) in
        let scaled = mul-le-mul_left b room in omega (arith, scaled, mul-add b (q % m) 1)
