-- ===== src/Rng/Drng/Lifecycle.antt =====
-- The calls of drng.c that other files make, as steps of its state, one after the other.
use tweetnacl_modular.Base.{
  ℕ, zero, suc, ◌≡◌, ◌⊎◌, ◌∙◌, inl, inr, refl, sym, ap, arith, Option, none, some, true, Bool-cases,
  Option-cases, ◌==◌, if◌then◌else◌,
}
use mathlib.Core.Path.{subst}
use tweetnacl_modular.Base.Int.{failed}
use tweetnacl_modular.Memory.{Ptr}
use tweetnacl_modular.Rng.Drng.{
  RngImpl, rng_none, Drng, drng_zero, Target, x86, arm, other, Hardware, arm_rndr, Fill,
  drng_set_initialized, drng_reset_state,
}
use tweetnacl_modular.Rng.Drng.Start.{
  is_none_impl, drng_init, wait_for_init, settle, chosen_impl, finish_init,
}
use tweetnacl_modular.Rng.Drng.Api.{
  ensure_init, randombytes_drng_available, randombytes_drng_fill, drng_get_drng_support,
  support_flag, drng_reset_for_testing,
}
use tweetnacl_modular.Rng.Drng.Platforms.{IsIdle, drng_init_arm, drng_init-begin}

-- A call that returned.
pub data Step (target : Target) (hardware : Hardware) (s t : Drng) : Type 0 where
  available :
      (fuel answer : ℕ)
      → randombytes_drng_available target hardware fuel s ≡ some (answer, t)
      → Step target hardware s t
  support :
      (fuel answer : ℕ)
      → drng_get_drng_support target hardware fuel s ≡ some (answer, t)
      → Step target hardware s t
  fill :
      (fuel len : ℕ) (buf : Ptr) (f : Fill)
      → randombytes_drng_fill target hardware fuel buf len s ≡ some f
      → t ≡ f.drng
      → Step target hardware s t
  reset : t ≡ drng_reset_for_testing s → Step target hardware s t

pub data Reach (target : Target) (hardware : Hardware) (s : Drng) : Drng → Type 0 where
  here : Reach target hardware s s
  next :
      {t u : Drng}
      → Reach target hardware s t
      → Step target hardware t u
      → Reach target hardware s u

-- No hardware is used, and no initialization is under way.
abbrev pub IsUnused : Drng → Type 0
IsUnused s = (s.rng_impl ≡ rng_none) × IsIdle s

settle-none :
    (target : Target) (hardware : Hardware) (init : Drng → Option Drng) (s : Drng)
    → settle target hardware init rng_none s ≡ some (finish_init rng_none s)
unfolding settle
settle-none target hardware init s = refl

finish_init-IsUnused : (s : Drng) → IsUnused (finish_init rng_none s)
unfolding finish_init drng_set_initialized
finish_init-IsUnused s = (refl, inr refl)

wait_for_init-same : (reads : ℕ) (s t : Drng) → wait_for_init reads s ≡ some t → s ≡ t
unfolding wait_for_init
wait_for_init-same zero s t e = absurd (cc)
wait_for_init-same (suc reads) s t e = elim (Bool-cases (s.drng_init_state == 2)) [
  | inl done ↦ let back : some s ≡ some t = rw (← e) (rw done refl) in cc
  | inr wait ↦ wait_for_init-same reads s t (sym (rw wait refl) ∙ e)
]

some_inj {ℓ} : {A : Type ℓ} (s t : A) → some s ≡ some t → s ≡ t
some_inj s t e = cc

-- Where no hardware is chosen, the stores at the end are all that is left to do.
begun-IsUnused :
    (target : Target) (hardware : Hardware) (fuel : ℕ) (s u t : Drng)
    → s.initialized ≡ 0
    → s.drng_init_state ≡ 0
    → chosen_impl target hardware (record s { drng_init_state = 1 }) ≡ (rng_none, u)
    → drng_init target hardware (suc fuel) s ≡ some t
    → IsUnused t
begun-IsUnused target hardware fuel s u t i b chosen e =
    let ends : some (finish_init rng_none u) ≡ some t =
      sym (
        drng_init-begin target hardware fuel s i b
        ∙ ap
            (λ (c : RngImpl × Drng).
              settle target hardware (drng_init target hardware fuel) c.0 c.1)
            chosen
        ∙ settle-none target hardware (drng_init target hardware fuel) u)
      ∙ e in
    subst IsUnused (some_inj (finish_init rng_none u) t ends) (finish_init-IsUnused u)

drng_init-first :
    (target : Target) (hardware : Hardware) (fuel : ℕ) (s t : Drng)
    → s.rng_impl ≡ rng_none
    → s.initialized ≡ 0
    → s.drng_init_state ≡ 0
    → drng_init target hardware (suc fuel) s ≡ some t
    → IsUnused t
unfolding chosen_impl
drng_init-first x86 hardware fuel s t e i b r =
    begun-IsUnused x86 hardware fuel s (record s { drng_init_state = 1 }) t i b refl r
drng_init-first other hardware fuel s t e i b r =
    begun-IsUnused other hardware fuel s (record s { drng_init_state = 1 }) t i b refl r
drng_init-first arm hardware fuel s t e i b r = elim (Option-cases (hardware arm_rndr s.asked)) [
  | inl fails ↦
      begun-IsUnused arm hardware fuel s (record s { drng_init_state = 1; asked = suc s.asked }) t i
        b (rw (chosen_impl, fails) refl) r
  | inr (v, answers) ↦
      let never = drng_init_arm hardware (suc fuel) v s e i b answers in
      let clash : none ≡ some t = sym never ∙ r in absurd (cc)
]

drng_init-IsUnused :
    (target : Target) (hardware : Hardware) (fuel : ℕ) (s t : Drng)
    → IsUnused s
    → drng_init target hardware fuel s ≡ some t
    → IsUnused t
unfolding drng_init
drng_init-IsUnused target hardware zero s t u r = absurd (cc)
drng_init-IsUnused target hardware (suc fuel) s t (e, idle) r =
    elim (Bool-cases (s.initialized == 0)) [
      | inr old ↦ subst IsUnused (some_inj s t (sym (rw old refl) ∙ r)) (e, idle)
      | inl new ↦ elim idle [
        | inl start ↦ drng_init-first target hardware fuel s t e (ground arith) start r
        | inr done ↦
            let back : drng_init target hardware (suc fuel) s ≡ wait_for_init (suc fuel) s =
              ground arith in
            subst IsUnused (wait_for_init-same (suc fuel) s t (sym back ∙ r)) (e, inr done)
      ]
    ]

ensure_init-IsUnused :
    (target : Target) (hardware : Hardware) (fuel : ℕ) (s t : Drng)
    → IsUnused s
    → ensure_init target hardware fuel s ≡ some t
    → IsUnused t
unfolding ensure_init
ensure_init-IsUnused target hardware fuel s t u r =
    let here : is_none_impl s.rng_impl ≡ true = ap is_none_impl u.0 in
    drng_init-IsUnused target hardware fuel s t u (sym (rw here refl) ∙ r)

fill-IsUnused :
    (target : Target) (hardware : Hardware) (fuel len : ℕ) (buf : Ptr) (s : Drng) (f : Fill)
    → IsUnused s
    → randombytes_drng_fill target hardware fuel buf len s ≡ some f
    → (f.status ≡ failed) × (f.buf ≡ buf) × IsUnused f.drng
unfolding randombytes_drng_fill
fill-IsUnused target hardware fuel len buf s f u r =
    elim (Bool-cases (s.catastrophic_failure == 0)) [
      | inr broken ↦
          let same : some (record { status = failed; buf = buf; drng = s }) ≡ some f =
            sym (rw (randombytes_drng_fill, broken) refl) ∙ r in
          subst (λ (g : Fill). (g.status ≡ failed) × (g.buf ≡ buf) × IsUnused g.drng)
            (some_inj (record { status = failed; buf = buf; drng = s }) f same) (refl, refl, u)
      | inl sound ↦ elim (Option-cases (ensure_init target hardware fuel s)) [
        | inl waits ↦
            let clash : none ≡ some f = sym (rw (randombytes_drng_fill, sound, waits) refl) ∙ r in
            absurd (cc)
        | inr (t, e) ↦
            let v = ensure_init-IsUnused target hardware fuel s t u e in
            let here : is_none_impl t.rng_impl ≡ true = ap is_none_impl v.0 in
            let same : some (record { status = failed; buf = buf; drng = t }) ≡ some f =
              sym (rw (randombytes_drng_fill, sound, e, here) refl) ∙ r in
            subst (λ (g : Fill). (g.status ≡ failed) × (g.buf ≡ buf) × IsUnused g.drng)
              (some_inj (record { status = failed; buf = buf; drng = t }) f same) (refl, refl, v)
      ]
    ]

-- A call whose state is that of `ensure_init`.
after_init-IsUnused :
    (target : Target) (hardware : Hardware) (fuel answer : ℕ) (read : Drng → ℕ) (s t : Drng)
    → IsUnused s
    → (elim (ensure_init target hardware fuel s) as (λ o. Option (ℕ × Drng)) [
      | none ↦ none
      | some v ↦ some (read v, v)
    ])
      ≡ some (answer, t)
    → IsUnused t
after_init-IsUnused target hardware fuel answer read s t u r =
    elim (Option-cases (ensure_init target hardware fuel s)) [
      | inl waits ↦
          let clash : ◌≡◌ {A = Option (ℕ × Drng)} none (some (answer, t)) =
            sym (rw waits refl) ∙ r in
          absurd (cc)
      | inr (v, e) ↦
          let same : some (read v, v) ≡ some (answer, t) = sym (rw e refl) ∙ r in
          subst IsUnused (ap (λ (p : ℕ × Drng). p.1) (some_inj (read v, v) (answer, t) same))
            (ensure_init-IsUnused target hardware fuel s v u e)
    ]

Step-IsUnused :
    (target : Target) (hardware : Hardware) (s t : Drng)
    → Step target hardware s t
    → IsUnused s
    → IsUnused t
unfolding randombytes_drng_available drng_get_drng_support drng_reset_for_testing drng_reset_state
Step-IsUnused target hardware s t (available fuel answer r) u =
    after_init-IsUnused target hardware fuel answer (λ v. if is_none_impl v.rng_impl then 0 else 1)
      s t u r
Step-IsUnused target hardware s t (support fuel answer r) u =
    after_init-IsUnused target hardware fuel answer (λ v. support_flag v.rng_impl) s t u r
Step-IsUnused target hardware s t (fill fuel len buf f r e) u =
    rw e (fill-IsUnused target hardware fuel len buf s f u r).2
Step-IsUnused target hardware s t (reset e) u = rw e (refl, u.1)

Reach-IsUnused :
    {target : Target} {hardware : Hardware} {t : Drng}
    → Reach target hardware drng_zero t
    → IsUnused t
Reach-IsUnused here = (refl, inl refl)
Reach-IsUnused (next {t = t} {u = u} r st) = Step-IsUnused _ _ t u st (Reach-IsUnused r)

-- Whatever the processor and its hardware, in every state that calls of the file reach from the
-- start of the program: no implementation is chosen and no initialization is under way; and
-- `_randombytes_drng_fill` has not returned when its fuel ends, or it returns -1 and leaves its
-- buffer. So no random byte comes from the hardware.
pub hardware_never_used :
    (target : Target) (hardware : Hardware) (fuel len : ℕ) (buf : Ptr) (t : Drng)
    → Reach target hardware drng_zero t
    → (t.rng_impl ≡ rng_none)
      × IsIdle t
      × ((randombytes_drng_fill target hardware fuel buf len t ≡ none)
          ⊎ ((f : Fill) × (randombytes_drng_fill target hardware fuel buf len t ≡ some f)
              × (f.status ≡ failed)
              × (f.buf ≡ buf)))
hardware_never_used target hardware fuel len buf t r =
    let u = Reach-IsUnused r in
    (
      u.0,
      u.1,
      elim (Option-cases (randombytes_drng_fill target hardware fuel buf len t)) [
        | inl waits ↦ inl waits
        | inr (f, e) ↦
            let out = fill-IsUnused target hardware fuel len buf t f u e in inr (f, e, out.0, out.1)
      ],
    )
