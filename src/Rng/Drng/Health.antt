-- ===== src/Rng/Drng/Health.antt =====
-- src/drivers/rng/drng.c: `drng_continuous_health_test`, and the two flags of the self-tests.
use tweetnacl_modular.Base.{
  ℕ, suc, ◌==◌, ltb, if◌then◌else◌, Bool, true, false, ◌||◌, List, [], ◌∷◌, get_or, length,
}
use tweetnacl_modular.Base.Int.{ℤ}
use tweetnacl_modular.Status.{success, catastrophic_failure_code}
use tweetnacl_modular.Rng.Drng.{Drng, drng_mark_failure}

-- The loop that clears `all_zero` and `all_same`, over the bytes from the index on.
unfoldable pub stuck_flags : ℕ → List ℕ → Bool × Bool → Bool × Bool
stuck_flags first [] flags = flags
stuck_flags first (b ∷ bs) (all_zero, all_same) =
    stuck_flags first bs
      (if b == 0 then all_zero else false, if b == first then all_same else false)

-- `all_zero || all_same`
unfoldable pub is_stuck : List ℕ → Bool
unfolding stuck_flags
is_stuck bs = let flags = stuck_flags (get_or bs 0 0) bs (true, true) in flags.0 || flags.1

-- The loop of the Repetition Count Test: the byte before, the bytes left, `consecutive_same` and
-- `max_consecutive`.
unfoldable pub longest_run : ℕ → List ℕ → ℕ → ℕ → ℕ
longest_run prev [] consecutive_same max_consecutive = max_consecutive
longest_run prev (b ∷ bs) consecutive_same max_consecutive =
    let consecutive = if b == prev then suc consecutive_same else 1 in
    longest_run b bs consecutive
      (if ltb max_consecutive consecutive then consecutive else max_consecutive)

-- The loop that clears a flag at a byte that is not `value`.
unfoldable pub all_equal : ℕ → List ℕ → Bool → Bool
all_equal value [] flag = flag
all_equal value (b ∷ bs) flag = all_equal value bs (if b == value then flag else false)

unfoldable pub drng_continuous_health_test : List ℕ → Drng → ℤ × Drng
unfolding drng_mark_failure longest_run all_equal
drng_continuous_health_test [] s = (success, s)
drng_continuous_health_test (b ∷ bs) s =
    if ltb (length (b ∷ bs)) 16
    then (success, s)
    else if ltb 8 (longest_run b bs 1 1)
    then (catastrophic_failure_code, drng_mark_failure s)
    else if all_equal 0 (b ∷ bs) true || all_equal 0xFF (b ∷ bs) true
    then (catastrophic_failure_code, drng_mark_failure s)
    else (success, record s { last_health_test_result = success })
