-- ===== src/Rng/Drng/Api.antt =====
-- src/drivers/rng/drng.c: the functions that other files call.
use tweetnacl_modular.Base.{
  ℕ, ◌==◌, ltb, ◌%◌, if◌then◌else◌, Bool, true, not, ◌&&◌, Option, none, some, replicate,
}
use tweetnacl_modular.Base.Int.{failed}
use tweetnacl_modular.Memory.{Ptr, at, contents}
use tweetnacl_modular.Secretbox.{is_ok}
use tweetnacl_modular.Rng.Drng.{
  RngImpl, rng_none, rng_rdseed, rng_rdrand, rng_arm_rndr, rng_bcrypt, rng_urandom, Drng, Target,
  Hardware, Fill, drng_reset_state,
}
use tweetnacl_modular.Rng.Drng.Health.{drng_continuous_health_test}
use tweetnacl_modular.Rng.Drng.Start.{is_none_impl, drng_init, drng_fill}

-- The first lines of most of them: `drng_init` if there is no implementation yet.
unfoldable pub ensure_init : Target → Hardware → ℕ → Drng → Option Drng
unfolding drng_init
ensure_init target hardware fuel s =
    if is_none_impl s.rng_impl then drng_init target hardware fuel s else some s

unfoldable pub randombytes_drng_available : Target → Hardware → ℕ → Drng → Option (ℕ × Drng)
unfolding ensure_init
randombytes_drng_available target hardware fuel s = elim (ensure_init target hardware fuel s) [
  | none ↦ none
  | some t ↦ some (if is_none_impl t.rng_impl then 0 else 1, t)
]

-- DRNG_HAS_RDRAND is 1, and DRNG_HAS_RDSEED is 2.
abbrev pub support_flag : RngImpl → ℕ
support_flag rng_none = 0
support_flag rng_rdseed = 2
support_flag rng_rdrand = 1
support_flag rng_arm_rndr = 0
support_flag rng_bcrypt = 0
support_flag rng_urandom = 0

unfoldable pub drng_get_drng_support : Target → Hardware → ℕ → Drng → Option (ℕ × Drng)
unfolding ensure_init
drng_get_drng_support target hardware fuel s = elim (ensure_init target hardware fuel s) [
  | none ↦ none
  | some t ↦ some (support_flag t.rng_impl, t)
]

-- The health test before every hundredth fill. `some` of a failure is the early return.
unfoldable pub periodic_health : Target → Hardware → ℕ → Drng → Option (Bool × Drng)
unfolding drng_fill drng_continuous_health_test
periodic_health target hardware fuel s =
    if s.health_test_count % 100 == 0 && ltb 0 s.health_test_count
    then elim (drng_fill target hardware fuel (at 0 (replicate 32 0)) 32 s) [
      | none ↦ none
      | some f ↦
          if not (is_ok f.status)
          then some (true, f.drng)
          else let tested = drng_continuous_health_test (contents f.buf) f.drng in
            some (is_ok tested.0, tested.1)
    ]
    else some (true, s)

-- `_randombytes_drng_fill`
unfoldable pub randombytes_drng_fill : Target → Hardware → ℕ → Ptr → ℕ → Drng → Option Fill
unfolding ensure_init periodic_health drng_fill
randombytes_drng_fill target hardware fuel buf len s =
    if not (s.catastrophic_failure == 0)
    then some (record { status = failed; buf = buf; drng = s })
    else elim (ensure_init target hardware fuel s) [
      | none ↦ none
      | some t ↦
          if is_none_impl t.rng_impl
          then some (record { status = failed; buf = buf; drng = t })
          else elim (periodic_health target hardware fuel t) [
            | none ↦ none
            | some (healthy, u) ↦
                if healthy
                then drng_fill target hardware fuel buf len u
                else some (record { status = failed; buf = buf; drng = u })
          ]
    ]

unfoldable pub drng_is_initialized_public : Drng → ℕ
drng_is_initialized_public s = s.initialized

unfoldable pub drng_get_power_up_selftest_status : Drng → ℕ
drng_get_power_up_selftest_status s = s.power_up_selftest_passed

unfoldable pub drng_get_total_bytes_generated : Drng → ℕ
drng_get_total_bytes_generated s = s.total_bytes_generated

unfoldable pub drng_reset_for_testing : Drng → Drng
unfolding drng_reset_state
drng_reset_for_testing s = record (drng_reset_state s) { rng_impl = rng_none }
