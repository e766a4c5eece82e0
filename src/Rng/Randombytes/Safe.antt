-- ===== src/Rng/Randombytes/Safe.antt =====
-- `randombytes_safe` where the hardware refuses, or the build has none: what it returns, and
-- when.
use tweetnacl_modular.Base.{
  ℕ, ◌+◌, ◌≤◌, ◌<◌, ◌≡◌, ◌≢◌, ◌⊎◌, ◌∙◌, inl, inr, refl, ap, arith, none, some, true, false, Bool,
  Option, take, Bool-cases, ◌==◌, ◌%◌, List, [], ◌++◌, length, drop, replicate,
}
use tweetnacl_modular.Base.Int.{ℤ, failed}
use tweetnacl_modular.Word.{u64}
use tweetnacl_modular.Status.{success, rng_failure, catastrophic_failure_code}
use tweetnacl_modular.Memory.{Ptr, at}
use tweetnacl_modular.Secretbox.{is_ok}
use tweetnacl_modular.Rng.Drng.{Drng}
use tweetnacl_modular.Rng.Randombytes.{
  Answer, FileKind, Os, posix, Generator, Random, DrngFill, randombytes_init,
  randombytes_selftest_quick, periodic_selftest, asked_random, generate, randombytes_safe, ask_os,
  is_trusted,
}
use tweetnacl_modular.Rng.Randombytes.Device.{supply, ends, Asked, read_loop-Asked}

-- From the states of `I`, the hardware always returns -1 and leaves the buffer, in a state of `I`.
abbrev pub Software : (Drng → Type 0) → DrngFill → Type 0
Software I none = Unit {0}
Software I (some fill) =
    (buf : Ptr) (len : ℕ) (d : Drng)
    → I d
    → (d' : Drng) × I d'
      × (fill buf len d ≡ some (record { status = failed; buf = buf; drng = d' }))

-- Initialized, with `n` calls counted, and the hardware in a state of `I`.
abbrev Ready : (Drng → Type 0) → ℕ → Generator → Type 0
Ready I n g = I g.drng × (g.randombytes_initialized ≢ 0) × (g.randombytes_call_count ≡ n)

module _ (I : Drng → Type 0) where
  init-Ready :
      (drng_fill : DrngFill) (g : Generator)
      → Software I drng_fill
      → I g.drng
      → (g' : Generator) × (randombytes_init drng_fill g ≡ some g')
        × Ready I g.randombytes_call_count g'
  unfolding randombytes_init
  init-Ready none g soft i = elim (Bool-cases (g.randombytes_initialized == 0)) [
    | inl new ↦ rw new (record g { randombytes_initialized = 1 }, refl, (i, λ e. omega arith, refl))
    | inr old ↦ rw old (g, refl, (i, λ e. ground arith, refl))
  ]
  init-Ready (some fill) g soft i = elim (Bool-cases (g.randombytes_initialized == 0)) [
    | inl new ↦
        let (d, k, e) = soft (at 0 (replicate 16 0)) 16 g.drng i in
        rw (new, e)
          (record g { randombytes_initialized = 1; drng = d }, refl, (k, λ e'. omega arith, refl))
    | inr old ↦ rw old (g, refl, (i, λ e. ground arith, refl))
  ]

  quick_fails :
      (drng_fill : DrngFill) (g : Generator)
      → Software I drng_fill
      → I g.drng
      → (ret : ℤ) × (d : Drng) × I d
        × (is_ok ret ≡ false)
        × (randombytes_selftest_quick drng_fill 16 g ≡ some (ret, record g { drng = d }))
  unfolding randombytes_selftest_quick
  quick_fails none g soft i = (catastrophic_failure_code, g.drng, i, refl, refl)
  quick_fails (some fill) g soft i =
      let (d, k, e) = soft (at 0 (replicate 16 0)) 16 g.drng i in
      (rng_failure, d, k, refl, rw e refl)

  periodic-Ready :
      (drng_fill : DrngFill) (n : ℕ) (g : Generator)
      → Software I drng_fill
      → Ready I n g
      → (g' : Generator) × (periodic_selftest drng_fill n g ≡ some g') × Ready I n g'
  unfolding periodic_selftest
  periodic-Ready drng_fill n g soft r = elim (Bool-cases (n % 100 == 0)) [
    | inr plain ↦ rw plain (g, refl, r)
    | inl due ↦
        let (ret, d, k, bad, e) = quick_fails drng_fill g soft r.0 in
        let again =
          init-Ready drng_fill (record g { randombytes_initialized = 0; drng = d }) soft k in
        rw (due, e, bad) (again.0, again.1, (again.2.0, again.2.1, again.2.2 ∙ r.2))
  ]

  -- What a call of the system leaves in a whole result.
  abbrev Result : List ℕ → Bool → ℕ → ℕ → List ℕ → ℕ → Option Random → Type 0
  Result given ended len p old n result =
      ((length given < len) × (ended ≡ false) × (result ≡ none))
      ⊎ ((r : Random) × (result ≡ some r)
          × (((len ≤ length given)
                × (r.status ≡ success)
                × (r.buf ≡ at p (take len given ++ drop len old)))
              ⊎ ((length given < len) × (ended ≡ true) × (r.status ≡ rng_failure)))
          × Ready I n r.generator)

  asked_random-Result :
      (given : List ℕ) (ended : Bool) (len p n : ℕ) (old : List ℕ) (g : Generator)
      (asked : Option (ℤ × List ℕ))
      → Asked given ended len old asked
      → Ready I n g
      → Result given ended len p old n (asked_random asked (at p old) g)
  unfolding asked_random
  asked_random-Result given ended len p n old g asked (inl (enough, e)) ready =
      rw e (inr (_, refl, inl (enough, refl, refl), ready))
  asked_random-Result given ended len p n old g asked (inr (inl (short, end, (buf, e)))) ready =
      rw e (inr (_, refl, inr (short, end, refl), ready))
  asked_random-Result given ended len p n old g asked (inr (inr (short, open_end, e))) ready =
      rw e (inl (short, open_end, refl))

  generate-Result :
      (drng_fill : DrngFill) (os : Os) (given : List ℕ) (ended : Bool) (len p n : ℕ) (old : List ℕ)
      (g : Generator)
      → Software I drng_fill
      → Asked given ended len old (ask_os os len old)
      → Ready I n g
      → Result given ended len p old n (generate drng_fill os (at p old) len g)
  unfolding generate
  generate-Result none os given ended len p n old g soft asked ready =
      asked_random-Result given ended len p n old g (ask_os os len old) asked ready
  generate-Result (some fill) os given ended len p n old g soft asked ready =
      let (d, k, e) = soft (at p old) len g.drng ready.0 in
      rw e (
        asked_random-Result given ended len p n old (record g { drng = d }) (ask_os os len old)
          asked (k, ready.1, ready.2))

-- Where the build has no hardware generator, or one that refuses from the states of `I`, take a call
-- of `randombytes_safe` for `len` bytes, not 0, with a buffer that is not NULL, on POSIX with a
-- /dev/urandom that opens and is not some other kind of file. It has not returned exactly if the
-- answers to `read` so far give fewer than `len` bytes and none of them is a failure or the end of
-- the file: interruptions alone keep it waiting. Else it returns: with 0 and the first `len` of the
-- bytes that `read` gave in front of the buffer, the rest as it was, if there are `len` before a
-- failure or the end; with the failure of the generator if not. The periodic self-test, which fails
-- there every hundredth call, changes nothing of this. After the return the call is counted at 64
-- bits, and the generator is initialized.
pub randombytes_safe-Software :
    (I : Drng → Type 0) (drng_fill : DrngFill) (kind : FileKind) (answers : List Answer) (p len : ℕ)
    (old : List ℕ) (g : Generator)
    → Software I drng_fill
    → I g.drng
    → is_trusted kind ≡ true
    → 0 < len
    → let result = randombytes_safe drng_fill (posix true kind answers) (at p old) len g in
      ((length (supply answers) < len) × (ends answers ≡ false) × (result ≡ none))
      ⊎ ((r : Random) × (result ≡ some r)
          × (((len ≤ length (supply answers))
                × (r.status ≡ success)
                × (r.buf ≡ at p (take len (supply answers) ++ drop len old)))
              ⊎ ((length (supply answers) < len)
                  × (ends answers ≡ true)
                  × (r.status ≡ rng_failure)))
          × I r.generator.drng
          × (r.generator.randombytes_initialized ≢ 0)
          × (r.generator.randombytes_call_count ≡ u64 (g.randombytes_call_count + 1)))
unfolding randombytes_safe ask_os
randombytes_safe-Software I drng_fill kind answers p len old g soft i trusted h =
    let os = posix true kind answers in
    let (g1, e1, r1) = init-Ready I drng_fill g soft i in
    let n = u64 (g1.randombytes_call_count + 1) in
    let same : n ≡ u64 (g.randombytes_call_count + 1) = ap (λ c. u64 (c + 1)) r1.2 in
    let counted = record g1 { randombytes_call_count = n } in
    let (g2, e2, r2) = periodic-Ready I drng_fill n counted soft (r1.0, r1.1, refl) in
    let asked : Asked (supply answers) (ends answers) len old (ask_os os len old) =
      rw trusted (read_loop-Asked len old answers [] (omega arith)) in
    let size : (len == 0) ≡ false = ground arith in
    rw (size, e1, e2)
      (elim (generate-Result I drng_fill os (supply answers) (ends answers) len p n old g2 soft
        asked r2) [
          | inl waits ↦ inl waits
          | inr (r, e3, cases, ready) ↦ inr (r, e3, cases, ready.0, ready.1, ready.2 ∙ same)
        ])
