-- ===== src/Rng/Drng/Retry.antt =====
-- The retry helpers: at most eleven instructions, and the first value among their answers.
use tweetnacl_modular.Base.{
  ℕ, zero, suc, ◌+◌, ◌<◌, ◌≡◌, ◌⊎◌, inl, inr, refl, arith, ◌∙◌, Option, none, some, Option-cases,
}
use tweetnacl_modular.Rng.Drng.{
  Hardware, Instruction, rdrand64_step, rdseed64_step, retry, rdrand64_retry, rdseed64_retry,
}

-- What `rounds` rounds give: the first value that the hardware answers, or nothing if it has none.
abbrev pub Retried : Hardware → Instruction → ℕ → ℕ → Option ℕ × ℕ → Type 0
Retried hardware i rounds n r =
    ((k : ℕ) × (v : ℕ) × (k < rounds)
      × ((j : ℕ) → j < k → hardware i (n + j) ≡ none)
      × (hardware i (n + k) ≡ some v)
      × (r ≡ (some v, n + k + 1)))
    ⊎ (((j : ℕ) → j < rounds → hardware i (n + j) ≡ none) × (r ≡ (none, n + rounds)))

module _ (hardware : Hardware) (i : Instruction) where
  -- A fact of the answers after the first holds of all, if the first is a failure.
  shift_none :
      (n k : ℕ)
      → hardware i n ≡ none
      → ((j : ℕ) → j < k → hardware i (suc n + j) ≡ none)
      → (j : ℕ) → j < suc k
      → hardware i (n + j) ≡ none
  shift_none n k first later zero h = let same : n + 0 ≡ n = omega arith in rw same first
  shift_none n k first later (suc j) h =
      let same : n + suc j ≡ suc n + j = omega arith in rw same (later j (omega arith))

  retry-first :
      (rounds n v : ℕ) → hardware i n ≡ some v → retry hardware (suc rounds) i n ≡ (some v, n + 1)
  unfolding retry
  retry-first rounds n v e = let same : n + 1 ≡ suc n = omega arith in rw (retry, e, same) refl

  retry-later :
      (rounds n : ℕ)
      → hardware i n ≡ none
      → retry hardware (suc rounds) i n ≡ retry hardware rounds i (suc n)
  unfolding retry
  retry-later rounds n e = rw (retry, e) refl

  pub retry-Retried : (rounds n : ℕ) → Retried hardware i rounds n (retry hardware rounds i n)
  retry-Retried zero n = inr (
    λ j h. absurd (omega arith),
    unfold retry in let same : n + 0 ≡ n = omega arith in rw same refl,
  )
  retry-Retried (suc rounds) n = elim (Option-cases (hardware i n)) [
    | inr (v, e) ↦ inl (
      0,
      v,
      omega arith,
      λ j h. absurd (omega arith),
      let same : n + 0 ≡ n = omega arith in rw same e,
      let same : n + 0 ≡ n = omega arith in rw same (retry-first rounds n v e),
    )
    | inl e ↦ elim (retry-Retried rounds (suc n)) [
      | inl (k, v, h, failures, found, r) ↦ inl (
        suc k,
        v,
        omega arith,
        shift_none n k e failures,
        let same : n + suc k ≡ suc n + k = omega arith in rw same found,
        let same : n + suc k ≡ suc n + k = omega arith in rw same (retry-later rounds n e ∙ r),
      )
      | inr (failures, r) ↦ inr (
        shift_none n rounds e failures,
        let same : n + suc rounds ≡ suc n + rounds = omega arith in
            rw same (retry-later rounds n e ∙ r),
      )
    ]
  ]

-- Each retry helper asks its instruction until it answers with a value, and then gives that value;
-- it stops after eleven failures, with nothing. It asks no instruction after the value.
pub retries_lem :
    (hardware : Hardware) (n : ℕ)
    → Retried hardware rdrand64_step 11 n (rdrand64_retry hardware n)
      × Retried hardware rdseed64_step 11 n (rdseed64_retry hardware n)
unfolding rdrand64_retry rdseed64_retry
retries_lem hardware n =
    (retry-Retried hardware rdrand64_step 11 n, retry-Retried hardware rdseed64_step 11 n)
