-- ===== src/Rng/Drng/Runs.antt =====
-- The Repetition Count Test finds the longest run of equal bytes.
use tweetnacl_modular.Base.{
  ℕ, zero, suc, ◌+◌, ◌≤◌, ◌<◌, ◌≡◌, ◌≢◌, ◌-◌, ◌⊎◌, inl, inr, refl, sym, arith, true, false, ◌==◌,
  ltb, if◌then◌else◌, List, [], ◌∷◌, length, Bool-cases, ==_iff, le-or-lt, le→ltb, lt→ltb,
}
use tweetnacl_modular.Status.{success, catastrophic_failure_code}
use tweetnacl_modular.Rng.Drng.{Drng, drng_mark_failure}
use tweetnacl_modular.Rng.Drng.Health.{longest_run, all_equal, drng_continuous_health_test}

-- The first `n` bytes are there, and each is `b`.
abbrev pub Starts : ℕ → ℕ → List ℕ → Type 0
Starts zero b bs = Unit {0}
Starts (suc n) b [] = ⊥
Starts (suc n) b (x ∷ xs) = (x ≡ b) × Starts n b xs

-- Somewhere `n` bytes in a row are equal.
abbrev pub HasRun : ℕ → List ℕ → Type 0
HasRun n [] = ⊥
HasRun n (x ∷ xs) = Starts n x (x ∷ xs) ⊎ HasRun n xs

Starts-le : (m n b : ℕ) (bs : List ℕ) → m ≤ n → Starts n b bs → Starts m b bs
Starts-le zero n b bs h s = tt
Starts-le (suc m) zero b bs h s = absurd (omega arith)
Starts-le (suc m) (suc n) b [] h s = s
Starts-le (suc m) (suc n) b (x ∷ xs) h s = (s.0, Starts-le m n b xs (omega arith) s.1)

-- With `k` bytes that are `prev` before `bs`, and the best run so far below `n`, the loop gets to
-- `n` exactly if the `k` bytes go on to `n`, or a run of `n` lies in the rest.
longest_run-above :
    (n prev : ℕ) (bs : List ℕ) (k best : ℕ) → n ≤ best → n ≤ longest_run prev bs k best
unfolding longest_run
longest_run-above n prev [] k best h = h
longest_run-above n prev (b ∷ bs) k best h =
    let next : ℕ = if b == prev then suc k else 1 in
    longest_run-above n b bs next (if ltb best next then next else best) (ground arith)

-- The run that reaches back `k` bytes.
abbrev Reaches : ℕ → ℕ → ℕ → List ℕ → Type 0
Reaches n prev k bs = ((j : ℕ) × (n ≡ k + j) × Starts j prev bs) ⊎ HasRun n bs

-- The same run, said with equal bounds.
Starts-eq : (m n b c : ℕ) (bs : List ℕ) → m ≡ n → b ≡ c → Starts m b bs → Starts n c bs
Starts-eq m n b c bs e f s = rw (← e, ← f) s

Starts-tail : (n b x : ℕ) (xs : List ℕ) → Starts (suc n) b (x ∷ xs) → Starts n b xs
Starts-tail n b x xs s = s.1

longest_run-step :
    (prev b : ℕ) (bs : List ℕ) (k best next : ℕ)
    → (if b == prev then suc k else 1) ≡ next
    → longest_run prev (b ∷ bs) k best
      ≡ longest_run b bs next (if ltb best next then next else best)
unfolding longest_run
longest_run-step prev b bs k best next e = rw e refl

longest_run-Reaches :
    (n prev : ℕ) (bs : List ℕ) (k best : ℕ)
    → best < n
    → 0 < k
    → k ≤ best
    → n ≤ longest_run prev bs k best
    → Reaches n prev k bs
longest_run-Reaches n prev [] k best low start old h = absurd (unfold longest_run in omega arith)
longest_run-Reaches n prev (b ∷ bs) k best low start old h = elim (Bool-cases (b == prev)) [
  | inl same ↦
      let eq : b ≡ prev = (==_iff b prev).0 same in
      let step = longest_run-step prev b bs k best (suc k) (ground arith) in
      elim (le-or-lt n (suc k)) [
        | inl full ↦ inl (1, omega arith, (eq, tt))
        | inr less ↦
            elim (longest_run-Reaches n b bs (suc k) (if ltb best (suc k) then suc k else best)
              (ground arith) (omega arith) (ground arith) (rw (← step) h)) [
                | inl (j, count, s) ↦
                    inl (suc j, omega arith, (eq, Starts-eq j j b prev bs refl eq s))
                | inr run ↦ inr (inr run)
              ]
      ]
  | inr differs ↦
      let step = longest_run-step prev b bs k best 1 (ground arith) in
      elim (longest_run-Reaches n b bs 1 (if ltb best 1 then 1 else best) (ground arith)
        (omega arith) (ground arith) (rw (← step) h)) [
          | inl (j, count, s) ↦
              inr (inl (Starts-eq (suc j) n b b (b ∷ bs) (omega arith) refl (refl, s)))
          | inr run ↦ inr (inr run)
        ]
]

-- What the next step needs, in each way to reach `n`.
abbrev Ahead : ℕ → ℕ → ℕ → ℕ → List ℕ → Type 0
Ahead n b next best bs = (n ≤ best) ⊎ Reaches n b next bs

Ahead-same :
    (n b prev : ℕ) (bs : List ℕ) (k best : ℕ)
    → k ≤ best
    → b ≡ prev
    → Reaches n prev k (b ∷ bs)
    → Ahead n b (suc k) best bs
Ahead-same n b prev bs k best old eq (inl (zero, count, s)) = inl (omega arith)
Ahead-same n b prev bs k best old eq (inl (suc j, count, s)) =
    inr (inl (j, omega arith, Starts-eq j j prev b bs refl (sym eq) s.1))
Ahead-same zero b prev bs k best old eq (inr (inl s)) = inl (omega arith)
Ahead-same (suc m) b prev bs k best old eq (inr (inl s)) = elim (le-or-lt (suc m) (suc k)) [
  | inl small ↦ elim (le-or-lt (suc m) best) [
    | inl low ↦ inl low
    | inr high ↦ inr (inl (0, omega arith, tt))
  ]
  | inr big ↦
      inr (inl (suc m - suc k, omega arith, Starts-le (suc m - suc k) m b bs (omega arith) s.1))
]
Ahead-same n b prev bs k best old eq (inr (inr run)) = inr (inr run)

Ahead-differs :
    (n b prev : ℕ) (bs : List ℕ) (k best : ℕ)
    → k ≤ best
    → b ≢ prev
    → Reaches n prev k (b ∷ bs)
    → Ahead n b 1 best bs
Ahead-differs n b prev bs k best old ne (inl (zero, count, s)) = inl (omega arith)
Ahead-differs n b prev bs k best old ne (inl (suc j, count, s)) = absurd (ne s.0)
Ahead-differs zero b prev bs k best old ne (inr (inl s)) = inl (omega arith)
Ahead-differs (suc m) b prev bs k best old ne (inr (inl s)) = inr (inl (m, omega arith, s.1))
Ahead-differs n b prev bs k best old ne (inr (inr run)) = inr (inr run)

reaches-longest_run :
    (n prev : ℕ) (bs : List ℕ) (k best : ℕ)
    → 0 < k
    → k ≤ best
    → Ahead n prev k best bs
    → n ≤ longest_run prev bs k best
reaches-longest_run n prev bs k best start old (inl low) = longest_run-above n prev bs k best low
reaches-longest_run n prev [] k best start old (inr (inl (zero, count, s))) =
    longest_run-above n prev [] k best (omega arith)
reaches-longest_run n prev [] k best start old (inr (inl (suc j, count, s))) = absurd s
reaches-longest_run n prev [] k best start old (inr (inr run)) = absurd run
reaches-longest_run n prev (b ∷ bs) k best start old (inr r) = elim (Bool-cases (b == prev)) [
  | inl same ↦
      let best' : ℕ = if ltb best (suc k) then suc k else best in
      let step = longest_run-step prev b bs k best (suc k) (ground arith) in
      let ahead = Ahead-same n b prev bs k best old ((==_iff b prev).0 same) r in
      let grown : Ahead n b (suc k) best' bs = elim ahead [
        | inl low ↦ inl (ground arith)
        | inr far ↦ inr far
      ] in
      rw step (reaches-longest_run n b bs (suc k) best' (omega arith) (ground arith) grown)
  | inr differs ↦
      let best' : ℕ = if ltb best 1 then 1 else best in
      let step = longest_run-step prev b bs k best 1 (ground arith) in
      let ahead =
        Ahead-differs n b prev bs k best old (λ e. ground (arith, (==_iff b prev).1 e)) r in
      let grown : Ahead n b 1 best' bs = elim ahead [
        | inl low ↦ inl (ground arith)
        | inr far ↦ inr far
      ] in
      rw step (reaches-longest_run n b bs 1 best' (omega arith) (ground arith) grown)
]

all_equal-cleared : (v : ℕ) (bs : List ℕ) → all_equal v bs false ≡ false
unfolding all_equal
all_equal-cleared v [] = refl
all_equal-cleared v (b ∷ bs) = ground (arith, all_equal-cleared v bs)

-- Bytes that are all `v` start with as many as there are.
all_equal-Starts : (v : ℕ) (bs : List ℕ) → all_equal v bs true ≡ true → Starts (length bs) v bs
all_equal-Starts v [] h = tt
all_equal-Starts v (b ∷ bs) h = elim (Bool-cases (b == v)) [
  | inl same ↦ ((==_iff b v).0 same, all_equal-Starts v bs (unfold all_equal in ground arith))
  | inr differs ↦ absurd (unfold all_equal in ground (arith, all_equal-cleared v bs))
]

run_of : (b : ℕ) (bs : List ℕ) → 9 ≤ longest_run b bs 1 1 → HasRun 9 (b ∷ bs)
run_of b bs h = elim (longest_run-Reaches 9 b bs 1 1 (omega arith) (omega arith) (omega arith) h) [
  | inl (j, count, s) ↦ inl (Starts-eq (suc j) 9 b b (b ∷ bs) (omega arith) refl (refl, s))
  | inr run ↦ inr run
]

no_run : (b : ℕ) (bs : List ℕ) → longest_run b bs 1 1 < 9 → HasRun 9 (b ∷ bs) → ⊥
no_run b bs h (inl s) = absurd (
    omega (
      arith,
      reaches-longest_run 9 b bs 1 1 (omega arith) (omega arith)
          (inr (inl (8, omega arith, Starts-tail 8 b b bs s))),
    ))
no_run b bs h (inr run) =
    absurd
      (omega (arith, reaches-longest_run 9 b bs 1 1 (omega arith) (omega arith) (inr (inr run))))

-- Sixteen bytes that are all `v` have a run of nine.
not-all_equal :
    (v b : ℕ) (bs : List ℕ)
    → 16 ≤ length (b ∷ bs)
    → longest_run b bs 1 1 < 9
    → all_equal v (b ∷ bs) true ≡ false
not-all_equal v b bs large short = elim (Bool-cases (all_equal v (b ∷ bs) true)) [
  | inr no_case ↦ no_case
  | inl all ↦
      let s =
        Starts-le 9 (length (b ∷ bs)) v (b ∷ bs) (omega arith) (all_equal-Starts v (b ∷ bs) all) in
      absurd (no_run b bs short (inl (Starts-eq 9 9 v b (b ∷ bs) refl (sym s.0) s)))
]

-- `drng_continuous_health_test` passes fewer than 16 bytes, and leaves the state. Of 16 or more it
-- returns the catastrophic failure, and marks it, exactly if somewhere nine bytes in a row are equal;
-- else it returns 0 and notes the success. The tests for all zeros and all ones, which follow, add
-- nothing to that.
pub drng_continuous_health_test_cases :
    (bs : List ℕ) (s : Drng)
    → ((length bs < 16) × (drng_continuous_health_test bs s ≡ (success, s)))
      ⊎ ((16 ≤ length bs)
          × HasRun 9 bs
          × (drng_continuous_health_test bs s ≡ (catastrophic_failure_code, drng_mark_failure s)))
      ⊎ ((16 ≤ length bs)
          × (HasRun 9 bs → ⊥)
          × (drng_continuous_health_test bs s
              ≡ (success, record s { last_health_test_result = success })))
unfolding drng_continuous_health_test
drng_continuous_health_test_cases [] s = inl (omega arith, refl)
drng_continuous_health_test_cases (b ∷ bs) s = elim (le-or-lt 16 (length (b ∷ bs))) [
  | inr small ↦ inl (small, rw (lt→ltb (length (b ∷ bs)) 16 small) refl)
  | inl large ↦ elim (le-or-lt 9 (longest_run b bs 1 1)) [
    | inl long ↦ inr (inl (large, run_of b bs long, ground arith))
    | inr short ↦ inr (
        inr (
          large,
          no_run b bs short,
          rw
              (
                le→ltb (length (b ∷ bs)) 16 large,
                le→ltb 8 (longest_run b bs 1 1) (omega arith),
                not-all_equal 0 b bs large short,
                not-all_equal 0xFF b bs large short,
              )
              refl,
        ))
  ]
]
