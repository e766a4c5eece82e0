-- ===== src/Bits/Mask.antt =====
-- `(q << k) | r` as a sum, and `& (2^k - 1)` as a remainder, at every width.
use native.Mathlib.Nat.{pow-suc, one-le-pow, mod-add-div, mul-add-mod_self_left, mod-eq_of_lt}
use native.Mathlib.Nat.{mul_comm, mod-lt}
use tweetnacl_modular.Base.{
  ℕ, zero, suc, ◌+◌, ◌-◌, ◌*◌, ◌/◌, ◌%◌, ◌^◌, ◌<◌, ◌≤◌, ◌≡◌, refl, ap, arith,
}
use tweetnacl_modular.Base.{bit_and, bit_or, ◌∙◌}
use tweetnacl_modular.Bits.Step.{bit_or_step, bit_and_step}
use tweetnacl_modular.Bits.Xor.{lt-two-pow}

half-lt : (k a : ℕ) → a < 2 ^ suc k → a / 2 < 2 ^ k
half-lt k a h = omega (arith, pow-suc 2 k)

or_zero : (k a : ℕ) → a < 2 ^ k → bit_or a 0 ≡ a
or_zero zero zero h = refl
or_zero zero (suc a) h = absurd (omega arith)
or_zero (suc k) a h = omega (arith, bit_or_step a 0, or_zero k (a / 2) (half-lt k a h))

pub bit_or-zero : (a : ℕ) → bit_or a 0 ≡ a
bit_or-zero a = or_zero a a (lt-two-pow a)

pub zero-bit_or : (b : ℕ) → bit_or 0 b ≡ b
zero-bit_or b = zero_or b b (lt-two-pow b)
  where
    zero_or : (k b : ℕ) → b < 2 ^ k → bit_or 0 b ≡ b
    zero_or zero zero h = refl
    zero_or zero (suc b) h = absurd (omega arith)
    zero_or (suc k) b h = omega (arith, bit_or_step 0 b, zero_or k (b / 2) (half-lt k b h))

and_zero : (k a : ℕ) → a < 2 ^ k → bit_and a 0 ≡ 0
and_zero zero zero h = refl
and_zero zero (suc a) h = absurd (omega arith)
and_zero (suc k) a h = omega (arith, bit_and_step a 0, and_zero k (a / 2) (half-lt k a h))

pub bit_and-zero : (a : ℕ) → bit_and a 0 ≡ 0
bit_and-zero a = and_zero a a (lt-two-pow a)

double_fields : (k q : ℕ) → q * 2 ^ suc k ≡ q * 2 ^ k * 2
double_fields k q = omega (arith, ap (λ (t : ℕ). q * t) (pow-suc 2 k))

halved_fields :
    (k q r : ℕ)
    → bit_or (q * 2 ^ k) (r / 2) ≡ q * 2 ^ k + r / 2
    → bit_or (q * 2 ^ k * 2 / 2) (r / 2) ≡ q * 2 ^ k + r / 2
halved_fields k q r h = let e : q * 2 ^ k * 2 / 2 ≡ q * 2 ^ k = omega arith in rw e h

-- `(q << k) | r` is a sum when `r` fits `k` bits.
pub bit_or_shifted : (k q r : ℕ) → r < 2 ^ k → bit_or (q * 2 ^ k) r ≡ q * 2 ^ k + r
bit_or_shifted zero q zero h = rw bit_or-zero (omega arith)
bit_or_shifted zero q (suc r) h = absurd (omega arith)
bit_or_shifted (suc k) q r h = rw (double_fields k q) (
    omega (
      arith,
      bit_or_step (q * 2 ^ k * 2) r,
      halved_fields k q r (bit_or_shifted k q (r / 2) (half-lt k r h)),
    ))

mod_double : (a m : ℕ) → 1 ≤ m → a % (m * 2) ≡ a / 2 % m * 2 + a % 2
mod_double a m h =
    let low = a / 2 % m * 2 + a % 2 in
    let split : a ≡ m * 2 * (a / 2 / m) + low =
      omega (arith, mod-add-div (a / 2) m, ap (λ (t : ℕ). t * (a / 2 / m)) (mul_comm m 2)) in
    let fits : low < m * 2 = omega (arith, mod-lt (a / 2) h) in
    ap (λ t. t % (m * 2)) split ∙ mul-add-mod_self_left (m * 2) (a / 2 / m) low ∙ mod-eq_of_lt fits

halved_mask :
    (k a : ℕ)
    → bit_and (a / 2) (2 ^ k - 1) ≡ a / 2 % 2 ^ k
    → 1 ≤ 2 ^ k
    → bit_and (a / 2) ((2 ^ k * 2 - 1) / 2) ≡ a / 2 % 2 ^ k
halved_mask k a h p = let e : (2 ^ k * 2 - 1) / 2 ≡ 2 ^ k - 1 = omega arith in rw e h

-- A mask of `k` low bits is the remainder by `2 ^ k`.
pub bit_and_mask : (k a : ℕ) → bit_and a (2 ^ k - 1) ≡ a % 2 ^ k
bit_and_mask zero a = rw bit_and-zero (omega arith)
bit_and_mask (suc k) a =
    let pos : 1 ≤ 2 ^ k = one-le-pow k 2 (omega arith) in
    rw (pow-suc 2 k, mod_double a (2 ^ k) pos)
      (omega
        (arith, bit_and_step a (2 ^ k * 2 - 1), pos, halved_mask k a (bit_and_mask k (a / 2)) pos))
