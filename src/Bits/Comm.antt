-- ===== src/Bits/Comm.antt =====
-- `&` and `^` are commutative, and the masks that the selections use.
use native.Mathlib.Nat.{pow-suc, mod-eq_of_lt}
use tweetnacl_modular.Base.{
  ℕ, zero, suc, ◌+◌, ◌-◌, ◌*◌, ◌/◌, ◌%◌, ◌^◌, ◌<◌, ◌≡◌, refl, ap, ◌∙◌, arith, bit_and, bit_xor,
}
use tweetnacl_modular.Bits.Step.{bit_and_step, bit_xor_step}
use tweetnacl_modular.Bits.Xor.{lt-two-pow, bit_xor_cancel, zero-bit_xor}
use tweetnacl_modular.Bits.Mask.{bit_and_mask, bit_and-zero}

half-lt : (k a : ℕ) → a < 2 ^ suc k → a / 2 < 2 ^ k
half-lt k a h = omega (arith, pow-suc 2 k)

and_comm_width : (k a b : ℕ) → a < 2 ^ k → b < 2 ^ k → bit_and a b ≡ bit_and b a
and_comm_width zero zero zero ha hb = refl
and_comm_width zero zero (suc b) ha hb = absurd (omega arith)
and_comm_width zero (suc a) b ha hb = absurd (omega arith)
and_comm_width (suc k) a b ha hb = omega (
  arith,
  bit_and_step a b,
  bit_and_step b a,
  and_comm_width k (a / 2) (b / 2) (half-lt k a ha) (half-lt k b hb),
)

xor_comm_width : (k a b : ℕ) → a < 2 ^ k → b < 2 ^ k → bit_xor a b ≡ bit_xor b a
xor_comm_width zero zero zero ha hb = refl
xor_comm_width zero zero (suc b) ha hb = absurd (omega arith)
xor_comm_width zero (suc a) b ha hb = absurd (omega arith)
xor_comm_width (suc k) a b ha hb = omega (
  arith,
  bit_xor_step a b,
  bit_xor_step b a,
  xor_comm_width k (a / 2) (b / 2) (half-lt k a ha) (half-lt k b hb),
)

wide_left : (a b : ℕ) → a < 2 ^ (a + b)
wide_left a b = omega (arith, lt-two-pow (a + b))

wide_right : (a b : ℕ) → b < 2 ^ (a + b)
wide_right a b = omega (arith, lt-two-pow (a + b))

pub bit_and_comm : (a b : ℕ) → bit_and a b ≡ bit_and b a
bit_and_comm a b = and_comm_width (a + b) a b (wide_left a b) (wide_right a b)

pub bit_xor_comm : (a b : ℕ) → bit_xor a b ≡ bit_xor b a
bit_xor_comm a b = xor_comm_width (a + b) a b (wide_left a b) (wide_right a b)

pub zero-bit_and : (a : ℕ) → bit_and 0 a ≡ 0
zero-bit_and a = bit_and_comm 0 a ∙ bit_and-zero a

pub bit_xor-zero : (a : ℕ) → bit_xor a 0 ≡ a
bit_xor-zero a = bit_xor_comm a 0 ∙ zero-bit_xor a

-- A mask of ones keeps a word, and one of zeros drops it.
pub mask-bit_and : (k a : ℕ) → a < 2 ^ k → bit_and (2 ^ k - 1) a ≡ a
mask-bit_and k a h = bit_and_comm (2 ^ k - 1) a ∙ bit_and_mask k a ∙ mod-eq_of_lt h

-- `b ^ (a ^ b)` is `a`.
pub bit_xor_swap : (a b : ℕ) → bit_xor b (bit_xor a b) ≡ a
bit_xor_swap a b = bit_xor_comm b (bit_xor a b) ∙ bit_xor_cancel a b

-- The operation on numbers is the operation on their digits to the base 2 ^ k.
pub bit_and_digits :
    (k a b x y : ℕ)
    → a < 2 ^ k
    → b < 2 ^ k
    → bit_and (a + 2 ^ k * x) (b + 2 ^ k * y) ≡ bit_and a b + 2 ^ k * bit_and x y
bit_and_digits zero zero zero x y ha hb =
    let e : 0 + 2 ^ 0 * x ≡ x = omega arith in
    let e' : 0 + 2 ^ 0 * y ≡ y = omega arith in rw (e, e') (omega arith)
bit_and_digits zero zero (suc b) x y ha hb = absurd (omega arith)
bit_and_digits zero (suc a) b x y ha hb = absurd (omega arith)
bit_and_digits (suc k) a b x y ha hb =
    let p : 2 ^ suc k * x ≡ 2 * (2 ^ k * x) = omega (arith, ap (λ (t : ℕ). t * x) (pow-suc 2 k)) in
    let q : 2 ^ suc k * y ≡ 2 * (2 ^ k * y) = omega (arith, ap (λ (t : ℕ). t * y) (pow-suc 2 k)) in
    let z : 2 ^ suc k * bit_and x y ≡ 2 * (2 ^ k * bit_and x y) =
      omega (arith, ap (λ (t : ℕ). t * bit_and x y) (pow-suc 2 k)) in
    let e : (a + 2 ^ suc k * x) / 2 ≡ a / 2 + 2 ^ k * x = omega (arith, p) in
    let e' : (b + 2 ^ suc k * y) / 2 ≡ b / 2 + 2 ^ k * y = omega (arith, q) in
    let f : (a + 2 ^ suc k * x) % 2 ≡ a % 2 = omega (arith, p) in
    let f' : (b + 2 ^ suc k * y) % 2 ≡ b % 2 = omega (arith, q) in
    let rest =
      bit_and_digits k (a / 2) (b / 2) x y (omega (arith, pow-suc 2 k))
        (omega (arith, pow-suc 2 k)) in
    let s = bit_and_step (a + 2 ^ suc k * x) (b + 2 ^ suc k * y) in
    omega (arith, rw (e, e', f, f', rest) at s, bit_and_step a b, z)

pub bit_and-lt : (k a b : ℕ) → a < 2 ^ k → bit_and a b < 2 ^ k
bit_and-lt zero zero b h = rw (zero-bit_and b) h
bit_and-lt zero (suc a) b h = absurd (omega arith)
bit_and-lt (suc k) a b h = omega (
  arith,
  pow-suc 2 k,
  bit_and_step a b,
  bit_and-lt k (a / 2) (b / 2) (omega (arith, pow-suc 2 k)),
)
