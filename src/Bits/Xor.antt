-- ===== src/Bits/Xor.antt =====
-- `^` is an involution that keeps a word's width, and is 0 only for equal words.
use native.Mathlib.Nat.{pow-suc}
use tweetnacl_modular.Base.{ℕ, zero, suc, ◌+◌, ◌/◌, ◌%◌, ◌^◌, ◌<◌, ◌≡◌, refl, arith}
use tweetnacl_modular.Base.{bit_xor, bit_or, sym, ◌∙◌}
use tweetnacl_modular.Bits.Step.{bit_xor_step, bit_or_step}

half-lt : (k a : ℕ) → a < 2 ^ suc k → a / 2 < 2 ^ k
half-lt k a h = omega (arith, pow-suc 2 k)

-- Induction on the number of binary digits serves every law below.
pub bit_xor-lt : (k a b : ℕ) → a < 2 ^ k → b < 2 ^ k → bit_xor a b < 2 ^ k
bit_xor-lt zero zero zero ha hb = omega arith
bit_xor-lt zero zero (suc b) ha hb = absurd (omega arith)
bit_xor-lt zero (suc a) b ha hb = absurd (omega arith)
bit_xor-lt (suc k) a b ha hb = omega (
  arith,
  pow-suc 2 k,
  bit_xor_step a b,
  bit_xor-lt k (a / 2) (b / 2) (half-lt k a ha) (half-lt k b hb),
)

pub bit_or-lt : (k a b : ℕ) → a < 2 ^ k → b < 2 ^ k → bit_or a b < 2 ^ k
bit_or-lt zero zero zero ha hb = omega arith
bit_or-lt zero zero (suc b) ha hb = absurd (omega arith)
bit_or-lt zero (suc a) b ha hb = absurd (omega arith)
bit_or-lt (suc k) a b ha hb = omega (
  arith,
  pow-suc 2 k,
  bit_or_step a b,
  bit_or-lt k (a / 2) (b / 2) (half-lt k a ha) (half-lt k b hb),
)

-- A number is below 2 to itself, so every number has some width.
pub lt-two-pow : (n : ℕ) → n < 2 ^ n
lt-two-pow zero = omega arith
lt-two-pow (suc n) = omega (arith, pow-suc 2 n, lt-two-pow n)

xor_half : (a b : ℕ) → bit_xor a b / 2 ≡ bit_xor (a / 2) (b / 2)
xor_half a b = omega (arith, bit_xor_step a b)

xor_parity : (a b : ℕ) → bit_xor a b % 2 ≡ (a + b) % 2
xor_parity a b = omega (arith, bit_xor_step a b)

cancel_half :
    (a b : ℕ)
    → bit_xor (bit_xor (a / 2) (b / 2)) (b / 2) ≡ a / 2
    → bit_xor (bit_xor a b / 2) (b / 2) ≡ a / 2
cancel_half a b ih = rw (xor_half a b) ih

cancel_width : (k a b : ℕ) → a < 2 ^ k → b < 2 ^ k → bit_xor (bit_xor a b) b ≡ a
cancel_width zero zero zero ha hb = refl
cancel_width zero zero (suc b) ha hb = absurd (omega arith)
cancel_width zero (suc a) b ha hb = absurd (omega arith)
cancel_width (suc k) a b ha hb = omega (
  arith,
  bit_xor_step (bit_xor a b) b,
  xor_parity a b,
  cancel_half a b (cancel_width k (a / 2) (b / 2) (half-lt k a ha) (half-lt k b hb)),
)

lt-two-pow_add : (a b : ℕ) → (a < 2 ^ (a + b)) × (b < 2 ^ (a + b))
lt-two-pow_add a b = (omega (arith, lt-two-pow (a + b)), omega (arith, lt-two-pow (a + b)))

-- Applying the same mask twice gives the word back.
pub bit_xor_cancel : (a b : ℕ) → bit_xor (bit_xor a b) b ≡ a
bit_xor_cancel a b = let (ha, hb) = lt-two-pow_add a b in cancel_width (a + b) a b ha hb

xor_self_width : (k a : ℕ) → a < 2 ^ k → bit_xor a a ≡ 0
xor_self_width zero zero h = refl
xor_self_width zero (suc a) h = absurd (omega arith)
xor_self_width (suc k) a h =
    omega (arith, bit_xor_step a a, xor_self_width k (a / 2) (half-lt k a h))

pub bit_xor_self : (a : ℕ) → bit_xor a a ≡ 0
bit_xor_self a = xor_self_width a a (lt-two-pow a)

pub zero-bit_xor : (b : ℕ) → bit_xor 0 b ≡ b
zero-bit_xor b = rw (← bit_xor_self b) (bit_xor_cancel b b)

-- Words differ in some bit, or are equal.
pub eq_of_bit_xor-zero : (a b : ℕ) → bit_xor a b ≡ 0 → a ≡ b
eq_of_bit_xor-zero a b h = sym (bit_xor_cancel a b) ∙ (rw h (zero-bit_xor b))

or_zero_width : (k a b : ℕ) → a < 2 ^ k → b < 2 ^ k → bit_or a b ≡ 0 → (a ≡ 0) × (b ≡ 0)
or_zero_width zero zero zero ha hb h = (refl, refl)
or_zero_width zero zero (suc b) ha hb h = absurd (omega arith)
or_zero_width zero (suc a) b ha hb h = absurd (omega arith)
or_zero_width (suc k) a b ha hb h =
    let high : bit_or (a / 2) (b / 2) ≡ 0 = omega (arith, bit_or_step a b) in
    let halves = or_zero_width k (a / 2) (b / 2) (half-lt k a ha) (half-lt k b hb) high in
    (omega (arith, bit_or_step a b), omega (arith, bit_or_step a b))

-- `|` is 0 only when both words are.
pub zero_of_bit_or-zero : (a b : ℕ) → bit_or a b ≡ 0 → (a ≡ 0) × (b ≡ 0)
zero_of_bit_or-zero a b h = let (ha, hb) = lt-two-pow_add a b in or_zero_width (a + b) a b ha hb h
