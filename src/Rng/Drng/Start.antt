-- ===== src/Rng/Drng/Start.antt =====
-- src/drivers/rng/drng.c: `drng_init`, the power-up self-test that it runs, and `drng_fill`, which
-- the self-test calls and which calls `drng_init` in its turn. `none` is a call that has not
-- returned when the fuel ends: the fuel counts the calls of `drng_init` inside each other, and the
-- reads of its waiting loop. One thread runs.
use tweetnacl_modular.Base.{
  ℕ, zero, suc, ◌==◌, if◌then◌else◌, Bool, true, false, not, ◌&&◌, Option, none, some, replicate,
}
use tweetnacl_modular.Base.Int.{ℤ}
use tweetnacl_modular.Status.{success, self_test_failed}
use tweetnacl_modular.Memory.{Ptr, at, contents}
use tweetnacl_modular.Secretbox.{is_ok}
use tweetnacl_modular.Rng.Drng.{
  RngImpl, rng_none, rng_rdseed, rng_rdrand, rng_arm_rndr, rng_bcrypt, rng_urandom, Drng, Target,
  x86, arm, other, Hardware, arm_rndr, drng_set_initialized, Fill, word_for, fill_chosen,
}
use tweetnacl_modular.Rng.Drng.Health.{is_stuck}

abbrev pub is_none_impl : RngImpl → Bool
is_none_impl rng_none = true
is_none_impl rng_rdseed = false
is_none_impl rng_rdrand = false
is_none_impl rng_arm_rndr = false
is_none_impl rng_bcrypt = false
is_none_impl rng_urandom = false

-- `drng_fill`, over `drng_init`.
unfoldable pub drng_fill_by :
    Target → Hardware → (Drng → Option Drng) → Ptr → ℕ → Drng → Option Fill
unfolding fill_chosen
drng_fill_by target hardware init buf len s =
    if is_none_impl s.rng_impl
    then elim (init s) [
      | none ↦ none
      | some t ↦ some (fill_chosen target hardware t.rng_impl buf len t)
    ]
    else some (fill_chosen target hardware s.rng_impl buf len s)

-- `val1 == val2 && val1 != 0` fails the test; the second word is asked if the first was given.
unfoldable pub compare_words : Drng → Option ℕ × ℕ → (ℕ → Option ℕ × ℕ) → Bool × Drng
compare_words s (none, n) ask = (false, record s { asked = n })
compare_words s (some val1, n) ask =
    let (second, n') = ask n in
    elim second [
      | none ↦ (false, record s { asked = n' })
      | some val2 ↦ (not (val1 == val2 && not (val1 == 0)), record s { asked = n' })
    ]

-- Test 1: two words that must differ, unless they are 0. The flag tells that it passes.
unfoldable pub two_words : Target → Hardware → RngImpl → Drng → Bool × Drng
unfolding word_for compare_words
two_words x86 hardware impl s =
    compare_words s (word_for hardware impl s.asked) (word_for hardware impl)
two_words arm hardware impl s = (true, s)
two_words other hardware impl s = (true, s)

-- Test 2: 64 bytes that are not all 0 and not all the same.
unfoldable pub drng_power_up_selftest :
    Target → Hardware → (Drng → Option Drng) → RngImpl → Drng → Option (ℤ × Drng)
unfolding two_words drng_fill_by is_stuck
drng_power_up_selftest target hardware init impl s =
    let first = two_words target hardware impl s in
    if first.0
    then elim (drng_fill_by target hardware init (at 0 (replicate 64 0)) 64 first.1) [
      | none ↦ none
      | some f ↦
          if is_ok f.status
          then some (if is_stuck (contents f.buf) then self_test_failed else success, f.drng)
          else some (self_test_failed, f.drng)
    ]
    else some (self_test_failed, first.1)

-- The hardware that `drng_init` takes: none on x86, and RNDR on ARM if it answers once.
unfoldable pub chosen_impl : Target → Hardware → Drng → RngImpl × Drng
chosen_impl x86 hardware s = (rng_none, s)
chosen_impl arm hardware s = elim (hardware arm_rndr s.asked) [
  | none ↦ (rng_none, record s { asked = suc s.asked })
  | some t ↦ (rng_arm_rndr, record s { asked = suc s.asked })
]
chosen_impl other hardware s = (rng_none, s)

-- The stores at the end of `drng_init`.
unfoldable pub finish_init : RngImpl → Drng → Drng
unfolding drng_set_initialized
finish_init chosen s = record (drng_set_initialized (record s { rng_impl = chosen })) {
  drng_init_state = 2;
}

-- The self-test of the chosen hardware, and what it settles.
unfoldable pub settle : Target → Hardware → (Drng → Option Drng) → RngImpl → Drng → Option Drng
unfolding drng_power_up_selftest finish_init
settle target hardware init chosen s =
    if is_none_impl chosen
    then some (finish_init rng_none s)
    else elim (drng_power_up_selftest target hardware init chosen s) [
      | none ↦ none
      | some (result, t) ↦ some (
          if is_ok result
          then finish_init chosen (record t { power_up_selftest_passed = 1 })
          else finish_init rng_none (record t { power_up_selftest_passed = 0 }))
    ]

-- The `while (1)` loop, which reads the state until it is 2, with the reads left.
unfoldable pub wait_for_init : ℕ → Drng → Option Drng
wait_for_init zero s = none
wait_for_init (suc reads) s =
    let rest = wait_for_init reads s in if s.drng_init_state == 2 then some s else rest

unfoldable pub drng_init : Target → Hardware → ℕ → Drng → Option Drng
unfolding settle chosen_impl wait_for_init
drng_init target hardware zero s = none
drng_init target hardware (suc fuel) s =
    if not (s.initialized == 0)
    then some s
    else if not (s.drng_init_state == 0)
    then wait_for_init (suc fuel) s
    else let c = chosen_impl target hardware (record s { drng_init_state = 1 }) in
      settle target hardware (drng_init target hardware fuel) c.0 c.1

unfoldable pub drng_fill : Target → Hardware → ℕ → Ptr → ℕ → Drng → Option Fill
unfolding drng_fill_by drng_init
drng_fill target hardware fuel buf len s =
    drng_fill_by target hardware (drng_init target hardware fuel) buf len s
