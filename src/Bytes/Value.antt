-- ===== src/Bytes/Value.antt =====
-- The number that a list of digits to the base 256 stands for, low digit first and high digit first.
use native.Mathlib.Nat.{pow-suc, one-le-pow}
use tweetnacl_modular.Base.Mod.{mod_scale}
use tweetnacl_modular.Base.{◌/◌, ◌%◌, ap₂, sym, take}
use tweetnacl_modular.Base.{
  ℕ, zero, suc, ◌+◌, ◌*◌, ◌^◌, ◌<◌, ◌≤◌, ◌≡◌, refl, ap, ◌∙◌, arith, List, [], ◌∷◌, ◌++◌, length,
}
use tweetnacl_modular.Base.{replicate, All}

abbrev pub le_value : List ℕ → ℕ
le_value [] = 0
le_value (b ∷ bs) = b + 256 * le_value bs

abbrev pub be_value_from : ℕ → List ℕ → ℕ
be_value_from u [] = u
be_value_from u (b ∷ bs) = be_value_from (256 * u + b) bs

abbrev pub be_value : List ℕ → ℕ
be_value = be_value_from 0

pub le_value-lt : (xs : List ℕ) → All (λ b. b < 2 ^ 8) xs → le_value xs < 256 ^ length xs
le_value-lt [] h = omega arith
le_value-lt (x ∷ xs) h = omega (arith, pow-suc 256 (length xs), le_value-lt xs h.1)

pub scale_suc : (n v : ℕ) → 256 ^ suc n * v ≡ 256 * (256 ^ n * v)
scale_suc n v = omega (arith, ap (λ (t : ℕ). t * v) (pow-suc 256 n))

pub le_value-append :
    (xs ys : List ℕ) → le_value (xs ++ ys) ≡ le_value xs + 256 ^ length xs * le_value ys
le_value-append [] ys = omega arith
le_value-append (x ∷ xs) ys =
    omega (arith, scale_suc (length xs) (le_value ys), le_value-append xs ys)

pub le_value-zeros : (n : ℕ) → le_value (replicate n 0) ≡ 0
le_value-zeros zero = refl
le_value-zeros (suc n) = omega (arith, le_value-zeros n)

-- Digits are determined by their value and their number.
pub le_value_inj :
    (xs ys : List ℕ)
    → All (λ b. b < 2 ^ 8) xs
    → All (λ b. b < 2 ^ 8) ys
    → length xs ≡ length ys
    → le_value xs ≡ le_value ys
    → xs ≡ ys
le_value_inj [] [] hx hy e v = refl
le_value_inj [] (y ∷ ys) hx hy e v = absurd (omega arith)
le_value_inj (x ∷ xs) [] hx hy e v = absurd (omega arith)
le_value_inj (x ∷ xs) (y ∷ ys) hx hy e v =
    let heads : x ≡ y = omega arith in
    let tails : xs ≡ ys = le_value_inj xs ys hx.1 hy.1 (omega arith) (omega arith) in
    ap (λ b. b ∷ xs) heads ∙ ap (◌∷◌ y) tails

-- The `n` low bytes of a number, low byte first.
unfoldable pub le_bytes : ℕ → ℕ → List ℕ
le_bytes zero v = []
le_bytes (suc n) v = v % 256 ∷ le_bytes n (v / 256)

pub length-le_bytes : (n v : ℕ) → length (le_bytes n v) ≡ n
unfolding le_bytes
length-le_bytes zero v = refl
length-le_bytes (suc n) v = ap suc (length-le_bytes n (v / 256))

pub le_bytes-IsBytes : (n v : ℕ) → All (λ b. b < 2 ^ 8) (le_bytes n v)
unfolding le_bytes
le_bytes-IsBytes zero v = tt
le_bytes-IsBytes (suc n) v = (omega arith, le_bytes-IsBytes n (v / 256))

pub le_value-le_bytes : (n v : ℕ) → le_value (le_bytes n v) ≡ v % 256 ^ n
unfolding le_bytes
le_value-le_bytes zero v = omega arith
le_value-le_bytes (suc n) v =
    let power : 256 ^ suc n ≡ 256 * 256 ^ n = omega (arith, pow-suc 256 n) in
    let whole : v ≡ 256 * (v / 256) + v % 256 = omega arith in
    let digit =
      mod_scale 256 (256 ^ n) (v / 256) (v % 256) (omega arith) (one-le-pow n 256 (omega arith)) in
    omega (arith, le_value-le_bytes n (v / 256), digit, ap₂ (λ t m. t % m) whole power)

-- The low `n` digits are the remainder.
pub le_value-take :
    (n : ℕ) (xs : List ℕ)
    → All (λ b. b < 2 ^ 8) xs
    → n ≤ length xs
    → le_value (take n xs) ≡ le_value xs % 256 ^ n
le_value-take zero xs h l = omega arith
le_value-take (suc n) [] h l = absurd (omega arith)
le_value-take (suc n) (b ∷ xs) h l =
    let power : 256 ^ suc n ≡ 256 * 256 ^ n = omega (arith, pow-suc 256 n) in
    let whole : b + 256 * le_value xs ≡ 256 * le_value xs + b = omega arith in
    let digit = mod_scale 256 (256 ^ n) (le_value xs) b h.0 (one-le-pow n 256 (omega arith)) in
    omega (arith, le_value-take n xs h.1 (omega arith), digit, ap₂ (λ t m. t % m) whole power)

-- Digits are the bytes of their value.
pub eq-le_bytes :
    (n v : ℕ) (xs : List ℕ)
    → All (λ b. b < 2 ^ 8) xs
    → length xs ≡ n
    → le_value xs ≡ v % 256 ^ n
    → xs ≡ le_bytes n v
eq-le_bytes n v xs h l e =
    le_value_inj xs (le_bytes n v) h (le_bytes-IsBytes n v) (l ∙ sym (length-le_bytes n v))
      (e ∙ sym (le_value-le_bytes n v))
