-- ===== src/Pqc/Generator.antt =====
-- The generator of src/drivers/rng/randombytes.c behind the interface of the wrappers: a build
-- without the hardware generator, on POSIX.
use tweetnacl_modular.Base.{
  ℕ, ◌<◌, ◌≡◌, ◌⊎◌, inl, inr, refl, ap, false, true, List, [], ◌∷◌, Option, none, some, Bool-cases,
  length, ◌++◌, drop, take, length-take, arith,
}
use tweetnacl_modular.Memory.{Ptr, at, is_null}
use tweetnacl_modular.Secretbox.{is_ok}
use tweetnacl_modular.Status.{success, invalid_param, rng_failure}
use tweetnacl_modular.Rng.Randombytes.{
  Answer, bytes, char_device, posix, Generator, Random, randombytes_safe,
}
use tweetnacl_modular.Rng.Randombytes.Device.{supply, ends, ends-end}
use tweetnacl_modular.Rng.Randombytes.Safe.{randombytes_safe-Software}
use tweetnacl_modular.Rng.Source.{RandomSource, Made}

-- The static variables, and what the system will answer to each call.
abbrev pub System : Type 0
System = Generator × List (List Answer)

-- The file ends behind the answers to a call, so that it does not wait.
abbrev answers_now : List (List Answer) → List Answer
answers_now [] = bytes [] ∷ []
answers_now (answers ∷ later) = answers ++ bytes [] ∷ []

answers_now-ends : (calls : List (List Answer)) → ends (answers_now calls) ≡ true
answers_now-ends [] = ends-end []
answers_now-ends (answers ∷ later) = ends-end answers

abbrev answers_later : List (List Answer) → List (List Answer)
answers_later [] = []
answers_later (answers ∷ later) = later

-- `none` does not arise: without the hardware, a call whose answers end returns.
abbrev settled : Ptr → System → Option Random → Made System
settled buf s none = record { status = rng_failure; buf = buf; state = s }
settled buf s (some r) = record {
  status = r.status;
  buf = r.buf;
  state = (r.generator, answers_later s.1);
}

abbrev pub system_random : Ptr → ℕ → System → Made System
system_random buf len s =
    settled buf s (randombytes_safe none (posix true char_device (answers_now s.1)) buf len s.0)

pub system_random-empty : (buf : Ptr) (s : System) → (system_random buf 0 s).status ≡ invalid_param
unfolding randombytes_safe
system_random-empty buf s = elim (Bool-cases (is_null buf)) [
  | inl nulls ↦ rw nulls refl
  | inr there ↦ rw there refl
]

pub system_random-fills :
    (p len : ℕ) (old : List ℕ) (s : System)
    → 0 < len
    → ((system_random (at p old) len s).status ≡ success)
        × ((bs : List ℕ) × (length bs ≡ len)
            × ((system_random (at p old) len s).buf ≡ at p (bs ++ drop len old)))
      ⊎ (is_ok (system_random (at p old) len s).status ≡ false)
system_random-fills p len old s h =
    elim (randombytes_safe-Software (λ _. Unit {0}) none char_device (answers_now s.1) p len old s.0
      tt tt refl h) [
        | inl (short, open_end, e) ↦ let closed = answers_now-ends s.1 in absurd (cc)
        | inr (r, e, inl (enough, good, w), unit, ready, count) ↦ rw e (
            inl (
              good,
              (
                take len (supply (answers_now s.1)),
                omega (arith, length-take len (supply (answers_now s.1))),
                w,
              ),
            ))
        | inr (r, e, inr (short, end, bad), unit, ready, count) ↦ rw e (inr (ap is_ok bad))
      ]

abbrev pub generator_source : RandomSource
generator_source = record {
  State = System;
  randombytes_safe = system_random;
  empty_fails = system_random-empty;
  fills = system_random-fills;
}
