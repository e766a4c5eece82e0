-- ===== src/Tests/Random.antt =====
-- The random number generators on concrete hardware and answers.
use tweetnacl_modular.Base.{
  ℕ, ◌+◌, ◌*◌, ◌%◌, ◌≤◌, ◌<◌, ◌≡◌, ◌≢◌, ◌⊎◌, inl, refl, arith, true, ◌==◌, if◌then◌else◌, none,
  some, List, [], ◌∷◌, ◌++◌, length, take, drop, replicate, false,
}
use tweetnacl_modular.Base.Int.{ok, failed}
use tweetnacl_modular.Word.{u64}
use tweetnacl_modular.Status.{success, rng_failure, catastrophic_failure_code}
use tweetnacl_modular.Memory.{at}
use tweetnacl_modular.Rng.Drng.{
  rng_none, rng_rdrand, Drng, drng_zero, x86, arm, Hardware, rdrand64_step, rdseed64_step, Fill,
  rdrand64_retry, rdseed64_retry, drng_mark_failure,
}
use tweetnacl_modular.Rng.Drng.Start.{drng_init, drng_fill}
use tweetnacl_modular.Rng.Drng.Api.{randombytes_drng_fill, drng_reset_for_testing}
use tweetnacl_modular.Rng.Drng.Health.{drng_continuous_health_test}
use tweetnacl_modular.Rng.Drng.Retry.{Retried, retries_lem}
use tweetnacl_modular.Rng.Drng.Filled.{Wrote, Failed, drng_fill_cases}
use tweetnacl_modular.Rng.Drng.Platforms.{without_hardware, IsIdle, x86_never, arm_never_returns}
use tweetnacl_modular.Rng.Drng.Runs.{HasRun, drng_continuous_health_test_cases}
use tweetnacl_modular.Rng.Drng.Lifecycle.{Step, Reach, IsUnused, hardware_never_used}
use tweetnacl_modular.Rng.Randombytes.{
  Answer, bytes, interrupted, char_device, posix, Generator, Random, randombytes_safe,
}
use tweetnacl_modular.Rng.Randombytes.Device.{supply, ends}
use tweetnacl_modular.Rng.Randombytes.Safe.{Software, randombytes_safe-Software}

-- Every third instruction fails.
abbrev counting : Hardware
counting i n = if n % 3 == 0 then none else some (n * 1000003)

abbrev with_rdrand : Drng
with_rdrand = record drng_zero { rng_impl = rng_rdrand; initialized = 1; drng_init_state = 2 }

retries_lem_example :
    Retried counting rdrand64_step 11 3 (rdrand64_retry counting 3)
    × Retried counting rdseed64_step 11 3 (rdseed64_retry counting 3)
retries_lem_example = retries_lem counting 3

drng_fill_cases_example :
    (f : Fill) × (drng_fill x86 counting 1 (at 100 (replicate 32 170)) 21 with_rdrand ≡ some f)
    × (((f.status ≡ ok)
          × Wrote counting 0 f.drng.asked 100 (replicate 32 170) 21 f.buf
          × (f.drng ≡ record with_rdrand {
            asked = f.drng.asked;
            total_bytes_generated = u64 21;
            health_test_count = u64 1;
          }))
        ⊎ ((f.status ≡ failed)
            × Failed counting 0 f.drng.asked
            × (f.drng ≡ record with_rdrand {
              asked = f.drng.asked;
              catastrophic_failure = 1;
              power_up_selftest_passed = 0;
            })))
drng_fill_cases_example =
    drng_fill_cases 100 21 1 (replicate 32 170) with_rdrand x86 counting (omega arith) refl refl

-- RNDR answers at once.
abbrev answering : Hardware
answering i n = some (n + 7)

arm_never_returns_example :
    (drng_init arm answering 50 drng_zero ≡ none)
    × (drng_fill arm answering 50 (at 100 (replicate 32 170)) 16 drng_zero ≡ none)
arm_never_returns_example =
    arm_never_returns answering 50 7 16 (at 100 (replicate 32 170)) drng_zero refl refl refl refl

-- Nine bytes in a row among twenty.
abbrev sample : List ℕ
sample = 1 ∷ 2 ∷ 3 ∷ 4 ∷ 5 ∷ replicate 9 6 ++ 7 ∷ 8 ∷ 9 ∷ 10 ∷ 11 ∷ 12 ∷ []

drng_continuous_health_test_cases_example :
    ((length sample < 16) × (drng_continuous_health_test sample drng_zero ≡ (success, drng_zero)))
    ⊎ ((16 ≤ length sample)
        × HasRun 9 sample
        × (drng_continuous_health_test sample drng_zero
            ≡ (catastrophic_failure_code, drng_mark_failure drng_zero)))
    ⊎ ((16 ≤ length sample)
        × (HasRun 9 sample → ⊥)
        × (drng_continuous_health_test sample drng_zero
            ≡ (success, record drng_zero { last_health_test_result = success })))
drng_continuous_health_test_cases_example = drng_continuous_health_test_cases sample drng_zero

after_reset : Reach x86 counting drng_zero (drng_reset_for_testing drng_zero)
after_reset = Reach.next Reach.here (Step.reset refl)

hardware_never_used_example :
    ((drng_reset_for_testing drng_zero).rng_impl ≡ rng_none)
    × IsIdle (drng_reset_for_testing drng_zero)
    × ((randombytes_drng_fill x86 counting 1
            (at 100 (replicate 32 170))
            16
            (drng_reset_for_testing drng_zero)
          ≡ none)
        ⊎ ((f : Fill) × (randombytes_drng_fill x86 counting 1
                (at 100 (replicate 32 170))
                16
                (drng_reset_for_testing drng_zero)
              ≡ some f)
            × (f.status ≡ failed)
            × (f.buf ≡ at 100 (replicate 32 170))))
hardware_never_used_example =
    hardware_never_used x86 counting 1 16 (at 100 (replicate 32 170))
      (drng_reset_for_testing drng_zero) after_reset

-- The hardware generator of an x86 build refuses.
refuses : Software IsUnused (some (randombytes_drng_fill x86 counting 1))
refuses buf len d unused =
    let call = (x86_never counting 0 len buf d unused.0 unused.1).2 in
    (if d.catastrophic_failure == 0 then without_hardware d else d, still_unused d unused, call)
  where
    still_unused :
        (d : Drng)
        → IsUnused d
        → IsUnused (if d.catastrophic_failure == 0 then without_hardware d else d)
    still_unused d unused = ground arith

abbrev started : Generator
started = record { randombytes_call_count = 99; randombytes_initialized = 0; drng = drng_zero }

abbrev answers : List Answer
answers = interrupted ∷ bytes (replicate 10 77) ∷ interrupted ∷ bytes (replicate 30 78) ∷ []

randombytes_safe-Software_example :
    let result =
      randombytes_safe
        (some (randombytes_drng_fill x86 counting 1))
        (posix true char_device answers)
        (at 100 (replicate 32 170))
        24
        started in
    ((length (supply answers) < 24) × (ends answers ≡ false) × (result ≡ none))
    ⊎ ((r : Random) × (result ≡ some r)
        × (((24 ≤ length (supply answers))
              × (r.status ≡ success)
              × (r.buf ≡ at 100 (take 24 (supply answers) ++ drop 24 (replicate 32 170))))
            ⊎ ((length (supply answers) < 24) × (ends answers ≡ true) × (r.status ≡ rng_failure)))
        × IsUnused r.generator.drng
        × (r.generator.randombytes_initialized ≢ 0)
        × (r.generator.randombytes_call_count ≡ u64 (99 + 1)))
randombytes_safe-Software_example =
    randombytes_safe-Software IsUnused (some (randombytes_drng_fill x86 counting 1)) char_device
      answers 100 24 (replicate 32 170) started refuses (refl, inl refl) refl (omega arith)
