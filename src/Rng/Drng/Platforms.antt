-- ===== src/Rng/Drng/Platforms.antt =====
-- `drng_init` on each processor: x86 never has hardware, and ARM with RNDR never gets past the
-- self-test.
use tweetnacl_modular.Base.{
  ℕ, zero, suc, ◌≡◌, ◌⊎◌, inl, inr, refl, arith, ◌∙◌, none, some, true, ap, ◌&&◌, Bool-cases, ◌==◌,
  if◌then◌else◌,
}
use tweetnacl_modular.Base.Int.{failed}
use tweetnacl_modular.Memory.{Ptr}
use tweetnacl_modular.Rng.Drng.{
  RngImpl, Target, rng_none, rng_arm_rndr, Drng, x86, arm, Hardware, arm_rndr, drng_set_initialized,
}
use tweetnacl_modular.Rng.Drng.Start.{
  is_none_impl, drng_init, wait_for_init, settle, chosen_impl, finish_init, drng_power_up_selftest,
  two_words, drng_fill_by, drng_fill,
}
use tweetnacl_modular.Rng.Drng.Api.{
  ensure_init, randombytes_drng_available, randombytes_drng_fill, drng_get_drng_support,
}

wait_for_init_forever :
    (reads : ℕ) (s : Drng) → s.drng_init_state ≡ 1 → wait_for_init reads s ≡ none
unfolding wait_for_init
wait_for_init_forever zero s e = refl
wait_for_init_forever (suc reads) s e = ground (arith, wait_for_init_forever reads s e)

-- What `drng_init` leaves on x86: it settles that there is no hardware, once.
abbrev pub without_hardware : Drng → Drng
without_hardware s =
    if s.initialized == 0 && s.drng_init_state == 0
    then record s { rng_impl = rng_none; initialized = 1; drng_init_state = 2 }
    else s

-- No initialization is under way.
abbrev pub IsIdle : Drng → Type 0
IsIdle s = (s.drng_init_state ≡ 0) ⊎ (s.drng_init_state ≡ 2)

drng_init_x86 :
    (hardware : Hardware) (fuel : ℕ) (s : Drng)
    → IsIdle s
    → drng_init x86 hardware (suc fuel) s ≡ some (without_hardware s)
unfolding drng_init settle chosen_impl finish_init drng_set_initialized wait_for_init
drng_init_x86 hardware fuel s (inl start) = ground arith
drng_init_x86 hardware fuel s (inr done) = ground arith

without_hardware-none :
    (s : Drng) → s.rng_impl ≡ rng_none → (without_hardware s).rng_impl ≡ rng_none
without_hardware-none s e = ground arith

ensure_init_x86 :
    (hardware : Hardware) (fuel : ℕ) (s : Drng)
    → s.rng_impl ≡ rng_none
    → IsIdle s
    → ensure_init x86 hardware (suc fuel) s ≡ some (without_hardware s)
unfolding ensure_init
ensure_init_x86 hardware fuel s e idle =
    let here : is_none_impl s.rng_impl ≡ true = ap is_none_impl e in
    rw here (drng_init_x86 hardware fuel s idle)

-- On x86, in a state with no implementation where no initialization is under way, every call of the
-- generator returns with one unit of fuel, and none finds the hardware: it is not available, it has
-- no feature flag, and `_randombytes_drng_fill` returns -1 and leaves the buffer, whatever the
-- hardware answers.
pub x86_never :
    (hardware : Hardware) (fuel len : ℕ) (buf : Ptr) (s : Drng)
    → s.rng_impl ≡ rng_none
    → IsIdle s
    → (randombytes_drng_available x86 hardware (suc fuel) s ≡ some (0, without_hardware s))
      × (drng_get_drng_support x86 hardware (suc fuel) s ≡ some (0, without_hardware s))
      × (randombytes_drng_fill x86 hardware (suc fuel) buf len s
          ≡ some (record {
            status = failed;
            buf = buf;
            drng = if s.catastrophic_failure == 0 then without_hardware s else s;
          }))
unfolding randombytes_drng_available drng_get_drng_support randombytes_drng_fill
x86_never hardware fuel len buf s e idle =
    let t = without_hardware s in
    let start = ensure_init_x86 hardware fuel s e idle in
    let still = without_hardware-none s e in
    let here : is_none_impl t.rng_impl ≡ true = ap is_none_impl still in
    (
      rw (randombytes_drng_available, start, here) refl,
      rw (drng_get_drng_support, start, still) refl,
      elim (Bool-cases (s.catastrophic_failure == 0)) [
        | inl sound ↦ rw (randombytes_drng_fill, sound, start, here) refl
        | inr broken ↦ rw (randombytes_drng_fill, broken) refl
      ],
    )

-- The fill inside the self-test waits for the initialization that it is part of.
arm_selftest_waits :
    (hardware : Hardware) (fuel : ℕ) (s : Drng)
    → s.rng_impl ≡ rng_none
    → drng_init arm hardware fuel s ≡ none
    → drng_power_up_selftest arm hardware (drng_init arm hardware fuel) rng_arm_rndr s ≡ none
unfolding drng_power_up_selftest two_words drng_fill_by
arm_selftest_waits hardware fuel s e never =
    let here : is_none_impl s.rng_impl ≡ true = ap is_none_impl e in rw (here, never) refl

drng_init_arm_waits :
    (hardware : Hardware) (fuel : ℕ) (s : Drng)
    → s.initialized ≡ 0
    → s.drng_init_state ≡ 1
    → drng_init arm hardware fuel s ≡ none
unfolding drng_init
drng_init_arm_waits hardware zero s e h = refl
drng_init_arm_waits hardware (suc fuel) s e h = ground (arith, wait_for_init_forever (suc fuel) s h)

pub drng_init-begin :
    (target : Target) (hardware : Hardware) (fuel : ℕ) (s : Drng)
    → s.initialized ≡ 0
    → s.drng_init_state ≡ 0
    → drng_init target hardware (suc fuel) s ≡ (
        let c = chosen_impl target hardware (record s { drng_init_state = 1 }) in
        settle target hardware (drng_init target hardware fuel) c.0 c.1)
unfolding drng_init
drng_init-begin target hardware fuel s i b =
    let fresh : (s.initialized == 0) ≡ true = ground arith in
    let first : (s.drng_init_state == 0) ≡ true = ground arith in rw (fresh, first) refl

pub drng_init_arm :
    (hardware : Hardware) (fuel v : ℕ) (s : Drng)
    → s.rng_impl ≡ rng_none
    → s.initialized ≡ 0
    → s.drng_init_state ≡ 0
    → hardware arm_rndr s.asked ≡ some v
    → drng_init arm hardware fuel s ≡ none
unfolding chosen_impl settle
drng_init_arm hardware zero v s e i b a = unfold drng_init in refl
drng_init_arm hardware (suc fuel) v s e i b a =
    let t : Drng = record s { drng_init_state = 1; asked = suc s.asked } in
    let inner = drng_init_arm_waits hardware fuel t i refl in
    let test = arm_selftest_waits hardware fuel t e inner in
    let chosen : chosen_impl arm hardware (record s { drng_init_state = 1 }) ≡ (rng_arm_rndr, t) =
      rw (chosen_impl, a) refl in
    let settled : settle arm hardware (drng_init arm hardware fuel) rng_arm_rndr t ≡ none =
      rw (settle, test) refl in
    drng_init-begin arm hardware fuel s i b
    ∙ ap (λ (c : RngImpl × Drng). settle arm hardware (drng_init arm hardware fuel) c.0 c.1) chosen
    ∙ settled

-- On ARM with RNDR, in a state that is not initialized and where no initialization was begun, if
-- RNDR answers once, then `drng_init` has not returned after any amount of fuel: its self-test calls
-- `drng_fill`, which calls `drng_init` again, and that waits for the first call to finish. So the
-- first `drng_fill` of the program does not return either.
pub arm_never_returns :
    (hardware : Hardware) (fuel v len : ℕ) (buf : Ptr) (s : Drng)
    → s.rng_impl ≡ rng_none
    → s.initialized ≡ 0
    → s.drng_init_state ≡ 0
    → hardware arm_rndr s.asked ≡ some v
    → (drng_init arm hardware fuel s ≡ none) × (drng_fill arm hardware fuel buf len s ≡ none)
unfolding drng_fill drng_fill_by
arm_never_returns hardware fuel v len buf s e i b a =
    let here : is_none_impl s.rng_impl ≡ true = ap is_none_impl e in
    let never = drng_init_arm hardware fuel v s e i b a in (never, rw (here, never) refl)
