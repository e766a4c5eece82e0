-- ===== src/Poly/Squeeze.antt =====
-- `squeeze` reduces a product below 2 ^ 130 + 2 ^ 30, and keeps its remainder.
use tweetnacl_modular.Base.{
  ℕ, zero, suc, ◌+◌, ◌*◌, ◌/◌, ◌%◌, ◌^◌, ◌<◌, ◌≤◌, ◌≡◌, ap, ◌∙◌, arith, bit_and, List, [], ◌∷◌,
  ◌++◌, length, All, All-append, All-get_or, take, take_all, get_or, length-append,
}
use tweetnacl_modular.Bits.{bit_and_mask}
use tweetnacl_modular.Word.{u32, ◌>>◌}
use tweetnacl_modular.Bytes.{IsBytes}
use tweetnacl_modular.Bytes.Value.{le_value, le_value-lt, le_value-append, scale_suc}
use tweetnacl_modular.Poly.{squeeze, fold_top, carry_run}
use tweetnacl_modular.Poly.Carry.{IsCarried, carry_run-IsCarried}
use tweetnacl_modular.Poly.Product.{prime}

-- A number, by its last digit and the digits below.
pub split_last :
    (n : ℕ) (h : List ℕ)
    → length h ≡ suc n
    → le_value h ≡ le_value (take n h) + 256 ^ n * get_or h n 0
split_last zero [] l = absurd (omega arith)
split_last zero (a ∷ []) l = omega arith
split_last zero (a ∷ b ∷ h) l = absurd (omega arith)
split_last (suc n) [] l = absurd (omega arith)
split_last (suc n) (a ∷ h) l =
    omega (arith, split_last n h (omega arith), scale_suc n (get_or h n 0))

-- A number that is nearly reduced, in 17 bytes.
pub record IsReduced (h : List ℕ) : Type 0 where
  pub digits : IsBytes h
  pub count : length h ≡ 17
  pub small : le_value h < 2 ^ 130 + 2 ^ 30

bytes_below : (bound : ℕ) (h : List ℕ) → 255 ≤ bound → IsBytes h → All (λ a. a ≤ bound) h
bytes_below bound [] b h = tt
bytes_below bound (a ∷ h) b v = (omega (arith, v.0), bytes_below bound h b v.1)

-- The digits that the second pass leaves, with what it carries out added to the two low bits of
-- the top digit.
module _ (low low' : List ℕ) (top u' : ℕ) (small : top ≤ 707472000) (bytes : IsBytes low)
    (count : length low ≡ 16) (second : IsCarried 16 (5 * (top / 4)) 900000000 low (low', u')) where
  low_small : le_value low < 2 ^ 128
  low_small = omega (arith, rw count at (le_value-lt low bytes))

  value_second : le_value low' + 256 ^ 16 * u' ≡ 5 * (top / 4) + le_value low
  value_second = second.value ∙ ap (λ t. 5 * (top / 4) + le_value t) (take_all 16 low (omega arith))

  carry_small : u' ≤ 1
  carry_small = omega (arith, value_second, low_small)

  value_last :
      le_value (low' ++ (u' + top % 4) ∷ []) ≡ 5 * (top / 4) + le_value low + 256 ^ 16 * (top % 4)
  value_last =
      le_value-append low' ((u' + top % 4) ∷ [])
      ∙ ap (λ t. le_value low' + 256 ^ t * (u' + top % 4 + 256 * 0)) second.count
      ∙ omega (arith, value_second)

  last-IsReduced : IsReduced (low' ++ (u' + top % 4) ∷ [])
  last-IsReduced = record {
    digits = All-append (λ b. b < 2 ^ 8) low' _ second.digits ((omega (arith, carry_small)), tt);
    count = length-append low' _ ∙ omega (arith, second.count);
    small = omega (arith, value_last, low_small);
  }

  last_remainder :
      le_value (low' ++ (u' + top % 4) ∷ []) % prime ≡ (le_value low + 256 ^ 16 * top) % prime
  last_remainder = omega (arith, value_last)

fold_top_lem :
    (low : List ℕ) (top : ℕ)
    → top ≤ 707472000
    → IsBytes low
    → length low ≡ 16
    → IsReduced (fold_top low top)
      × (le_value (fold_top low top) % prime ≡ (le_value low + 256 ^ 16 * top) % prime)
fold_top_lem low top small bytes count =
    let start : u32 (5 * (top >> 2)) ≡ 5 * (top / 4) = omega arith in
    let passed = carry_run 16 (5 * (top / 4)) low in
    let second =
      carry_run-IsCarried 16 (5 * (top / 4)) 900000000 low
        (bytes_below 900000000 low (omega arith) bytes) (omega arith) (omega arith) (omega arith) in
    let last : u32 (passed.1 + bit_and top 3) ≡ passed.1 + top % 4 =
      omega (arith, second.carry, bit_and_mask 2 top) in
    unfold fold_top in
    rw (start, last)
      (
        last-IsReduced low passed.0 top passed.1 small bytes count second,
        last_remainder low passed.0 top passed.1 small bytes count second,
      )

-- On 17 digits that are each at most 353736000, as those of a product are, `squeeze` gives 17
-- bytes with a value below 2 ^ 130 + 2 ^ 30 and the same remainder modulo 2 ^ 130 - 5.
pub squeeze_lem :
    (h : List ℕ)
    → All (λ x. x ≤ 353736000) h
    → length h ≡ 17
    → IsReduced (squeeze h) × (le_value (squeeze h) % prime ≡ le_value h % prime)
squeeze_lem h bound l =
    let passed = carry_run 16 0 h in
    let last = get_or h 16 0 in
    let first =
      carry_run-IsCarried 16 0 353736000 h bound (omega arith) (omega arith) (omega arith) in
    let last_small = All-get_or (λ x. x ≤ 353736000) h 16 0 (omega arith) bound in
    let top : u32 (passed.1 + last) ≡ passed.1 + last = omega (arith, first.carry, last_small) in
    let folded =
      fold_top_lem passed.0 (passed.1 + last) (omega (arith, first.carry, last_small)) first.digits
        first.count in
    unfold squeeze in
    rw top
      (folded.0, folded.1 ∙ ap (λ t. t % prime) (omega (arith, first.value, split_last 16 h l)))
