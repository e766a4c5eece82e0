-- ===== src/Utils/Branchless.antt =====
-- The branchless functions choose what their names say.
use tweetnacl_modular.Base.{
  ℕ, ◌+◌, ◌^◌, ◌≤◌, ◌<◌, ◌≡◌, ◌⊎◌, inl, inr, refl, ap, ◌∙◌, arith, min, max, bit_xor, ◌||◌, ◌==◌,
  if◌then◌else◌, Bool-cases, le-or-lt, le→ltb, lt→ltb,
}
use tweetnacl_modular.Base.Int.{ℤ, ◌≤ℤ◌, ltb_ℤ, ok, failed}
use tweetnacl_modular.Bits.{
  bit_xor-lt, bit_xor_swap, mask-bit_and, zero-bit_and, bit_xor-zero, bit_and_comm, bit_and-zero,
  zero-bit_or, bit_or-zero, bit_xor_comm,
}
use tweetnacl_modular.Word.{sub64}
use tweetnacl_modular.Utils.{
  sign_mask, constant_time_select, constant_time_min, constant_time_max, safe_range_check,
}

-- For bytes, `constant_time_select` gives `if_false` when the condition is 0, and `if_true` when it
-- is anything else.
pub constant_time_select_lem :
    (condition if_true if_false : ℕ)
    → if_true < 2 ^ 8
    → if_false < 2 ^ 8
    → constant_time_select condition if_true if_false
      ≡ (if condition == 0 then if_false else if_true)
unfolding constant_time_select
constant_time_select_lem condition t f ht hf = elim (Bool-cases (condition == 0)) [
  | inl off ↦ rw (off, bit_and-zero t, bit_and_comm f 255, mask-bit_and 8 f hf) (zero-bit_or f)
  | inr on ↦ rw (on, bit_and-zero f, bit_and_comm t 255, mask-bit_and 8 t ht) (bit_or-zero t)
]

module _ (a b : ℕ) (ha : a < 2 ^ 64) (hb : b < 2 ^ 64) where
  -- The mask takes the first operand, or keeps the second.
  taken : 2 ^ 63 ≤ sub64 a b → (constant_time_min a b ≡ a) × (constant_time_max a b ≡ b)
  unfolding constant_time_min constant_time_max sign_mask
  taken h =
      let all = mask-bit_and 64 (bit_xor a b) (bit_xor-lt 64 a b ha hb) in
      rw (le→ltb (sub64 a b) (2 ^ 63) h, all) (bit_xor_swap a b, bit_xor_cancel_left)
    where
      bit_xor_cancel_left : bit_xor a (bit_xor a b) ≡ b
      bit_xor_cancel_left = ap (bit_xor a) (bit_xor_comm a b) ∙ bit_xor_swap b a

  kept : sub64 a b < 2 ^ 63 → (constant_time_min a b ≡ b) × (constant_time_max a b ≡ a)
  unfolding constant_time_min constant_time_max sign_mask
  kept h =
      rw (lt→ltb (sub64 a b) (2 ^ 63) h, zero-bit_and (bit_xor a b))
        (bit_xor-zero b, bit_xor-zero a)

  -- For two 64-bit operands that are less than 2 ^ 63 apart, `constant_time_min` and
  -- `constant_time_max` give the minimum and the maximum.
  pub constant_time_lem :
      a < b + 2 ^ 63
      → b < a + 2 ^ 63
      → (constant_time_min a b ≡ min a b) × (constant_time_max a b ≡ max a b)
  constant_time_lem near near' = elim (le-or-lt b a) [
    | inl above ↦
        let same = kept (omega (arith, ha, hb)) in (omega (arith, same.0), omega (arith, same.1))
    | inr below ↦
        let same = taken (omega (arith, ha, hb)) in (omega (arith, same.0), omega (arith, same.1))
  ]

  -- For two 64-bit operands, the first of which is larger by 2 ^ 63 or more, `constant_time_min`
  -- gives the larger one and `constant_time_max` the smaller one.
  pub constant_time_far :
      b + 2 ^ 63 ≤ a → (constant_time_min a b ≡ max a b) × (constant_time_max a b ≡ min a b)
  constant_time_far far =
      let same = taken (omega (arith, ha, hb)) in (omega (arith, same.0), omega (arith, same.1))

-- Where the bounds are in order, `safe_range_check` returns 0 for a value between them and -1 for
-- any other; where they are not, it returns -1.
pub safe_range_check_cases :
    (value min_val max_val : ℤ)
    → ((min_val ≤ℤ value) × (value ≤ℤ max_val) × (safe_range_check value min_val max_val ≡ ok))
      ⊎ (((min_val ≤ℤ value) × (value ≤ℤ max_val) → ⊥)
          × (safe_range_check value min_val max_val ≡ failed))
unfolding safe_range_check
safe_range_check_cases value min_val max_val = elim (Bool-cases (ltb_ℤ max_val min_val)) [
  | inl empty ↦ inr (λ h. ground arith, rw empty refl)
  | inr some_left ↦ elim (Bool-cases (ltb_ℤ value min_val || ltb_ℤ max_val value)) [
    | inl out ↦ inr (λ h. ground arith, rw (some_left, out) refl)
    | inr within ↦ inl (ground arith, ground arith, rw (some_left, within) refl)
  ]
]
