-- ===== src/Rng/Drng/Filled.antt =====
-- `drng_fill` writes what the hardware gives, or marks the failure of the hardware.
use tweetnacl_modular.Base.{
  ℕ, zero, suc, ◌+◌, ◌-◌, ◌*◌, ◌/◌, ◌≤◌, ◌≡◌, ◌⊎◌, inl, inr, refl, ap, sym, arith, Bool, true,
  false, Option, none, some, Option-cases, List, [], ◌++◌, length, take, drop, leb, ltb,
  if◌then◌else◌, ltb→lt, ltb→le, take-append, drop-append, drop-drop, append_assoc, length-append,
  length-take,
}
use tweetnacl_modular.Base.Int.{ok, failed}
use tweetnacl_modular.Memory.{Ptr, at, write_at}
use tweetnacl_modular.Memory.Secure.{safe_memcpy}
use tweetnacl_modular.Bytes.Value.{le_bytes, length-le_bytes}
use tweetnacl_modular.Word.{u64}
use tweetnacl_modular.Rng.Drng.{
  RngImpl, rng_none, rng_rdseed, rng_rdrand, rng_arm_rndr, rng_bcrypt, rng_urandom, Instruction,
  rdseed64_step, rdrand64_step, retry, rdrand64_retry, rdseed64_retry, Drng, Target, x86, arm,
  other, Hardware, arm_rndr, rdrand32_step, Fill, drng_mark_failure, store_value, fill_words,
  then_fill, fill_x86, fill_arm, fill_target, fill_chosen, count_fill, word_for, once,
}
use tweetnacl_modular.Rng.Drng.Retry.{retry-Retried}
use tweetnacl_modular.Rng.Drng.Start.{is_none_impl, drng_fill, drng_fill_by}

abbrev with_asked : ℕ → Drng → Drng
with_asked n s = record s { asked = n }

-- The state as it was, but for the count of instructions.
abbrev pub Asked : Drng → Drng → Type 0
Asked s t = t ≡ record s { asked = t.asked }

-- The bytes of an instruction's value.
abbrev pub width : Instruction → ℕ
width rdseed64_step = 8
width rdrand64_step = 8
width rdrand32_step = 4
width arm_rndr = 8

-- Bytes that the hardware gave, when it had been asked `n` instructions and then up to the index:
-- the front bytes of the values of some of those instructions, in the order in which they were asked;
-- the last instruction is the last that is used.
pub data Drew (hardware : Hardware) (n : ℕ) : ℕ → List ℕ → Type 0 where
  none_yet : Drew hardware n n []
  then_value :
      {m : ℕ} {bs : List ℕ} (i : Instruction) (j v count : ℕ)
      → Drew hardware n m bs
      → m ≤ j
      → hardware i j ≡ some v
      → count ≤ width i
      → Drew hardware n (suc j) (bs ++ take count (le_bytes (width i) v))

-- The buffer whose first `k` bytes the hardware gave, and was asked `m` instructions by then.
abbrev pub Wrote : Hardware → ℕ → ℕ → ℕ → List ℕ → ℕ → Ptr → Type 0
Wrote hardware n m p old k buf =
    (bs : List ℕ) × (length bs ≡ k) × Drew hardware n m bs × (buf ≡ at p (bs ++ drop k old))

-- The last instruction of `m` failed.
abbrev pub Failed : Hardware → ℕ → ℕ → Type 0
Failed hardware n m = (i : Instruction) × (j : ℕ) × (n ≤ j) × (hardware i j ≡ none) × (m ≡ suc j)

-- A value for which the hardware was asked, from `n` instructions on.
abbrev pub Answered : Hardware → ℕ → ℕ → Option ℕ × ℕ → Type 0
Answered hardware size n (some v, m) =
    (i : Instruction) × (j : ℕ) × (n ≤ j) × (hardware i j ≡ some v) × (m ≡ suc j) × (size ≡ width i)
Answered hardware size n (none, m) = Failed hardware n m

once-Answered :
    (hardware : Hardware) (i : Instruction) (n : ℕ)
    → Answered hardware (width i) n (once hardware i n)
once-Answered hardware i n = elim (Option-cases (hardware i n)) [
  | inl e ↦ rw e (i, n, omega arith, e, refl)
  | inr (v, e) ↦ rw e (i, n, omega arith, e, refl, refl)
]

retry-Answered :
    (hardware : Hardware) (i : Instruction) (rounds n : ℕ)
    → Answered hardware (width i) n (retry hardware (suc rounds) i n)
retry-Answered hardware i rounds n = elim (retry-Retried hardware i (suc rounds) n) [
  | inl (k, v, h, failures, found, r) ↦ rw r (i, n + k, omega arith, found, omega arith, refl)
  | inr (failures, r) ↦
      rw r (i, n + rounds, omega arith, failures rounds (omega arith), omega arith)
]

word_for-Answered :
    (hardware : Hardware) (impl : RngImpl) (n : ℕ)
    → Answered hardware 8 n (word_for hardware impl n)
unfolding word_for rdrand64_retry rdseed64_retry
word_for-Answered hardware rng_rdseed n = retry-Answered hardware rdseed64_step 10 n
word_for-Answered hardware rng_none n = retry-Answered hardware rdrand64_step 10 n
word_for-Answered hardware rng_rdrand n = retry-Answered hardware rdrand64_step 10 n
word_for-Answered hardware rng_arm_rndr n = retry-Answered hardware rdrand64_step 10 n
word_for-Answered hardware rng_bcrypt n = retry-Answered hardware rdrand64_step 10 n
word_for-Answered hardware rng_urandom n = retry-Answered hardware rdrand64_step 10 n

-- `k` bytes are written; or the call fails with the hardware and the failure is marked.
abbrev pub Outcome : Hardware → ℕ → List ℕ → Drng → ℕ → Fill → Type 0
Outcome hardware p old s k f =
    ((f.status ≡ ok) × Wrote hardware s.asked f.drng.asked p old k f.buf × Asked s f.drng)
    ⊎ ((f.status ≡ failed)
        × Failed hardware s.asked f.drng.asked
        × (f.drng ≡ drng_mark_failure (record s { asked = f.drng.asked })))

module _ (hardware : Hardware) (p len : ℕ) (old : List ℕ) (room : len ≤ length old) (s : Drng) where
  -- The buffer after one copy.
  copy_lem :
      (size count offset v : ℕ) (bs : List ℕ)
      → length bs ≡ offset
      → count ≤ size
      → offset + count ≤ len
      → take offset (bs ++ drop offset old)
          ++ write_at 0 (take count (le_bytes size v)) (drop offset (bs ++ drop offset old))
        ≡ (bs ++ take count (le_bytes size v)) ++ drop (offset + count) old
  copy_lem size count offset v bs n small fits =
      let new = take count (le_bytes size v) in
      let width : 0 + length new ≡ count =
        omega (arith, length-take count (le_bytes size v), length-le_bytes size v) in
      rw
        (
          take-append offset bs (drop offset old) (sym n),
          drop-append offset bs (drop offset old) (sym n),
          width,
          drop-drop count offset (offset + count) old refl,
        )
        (sym (append_assoc bs new (drop (offset + count) old)))

  Drew-le : (n m : ℕ) (bs : List ℕ) → Drew hardware n m bs → n ≤ m
  Drew-le n m bs none_yet = omega arith
  Drew-le n m bs (then_value {m = k} {bs = cs} i j v count d h e w) =
      let ih = Drew-le n k cs d in omega (arith, ih, h)

  store_value-Outcome :
      (size count offset : ℕ) (r : Option ℕ × ℕ) (buf : Ptr) (t : Drng)
      → count ≤ size
      → offset + count ≤ len
      → Wrote hardware s.asked t.asked p old offset buf
      → Asked s t
      → Answered hardware size t.asked r
      → Outcome hardware p old s (offset + count) (store_value size count offset len r buf t)
  unfolding store_value safe_memcpy drng_mark_failure
  store_value-Outcome size count offset (none, n) buf t small fits (bs, e, d, b) a (i, j, h, f, m) =
      let after = Drew-le s.asked t.asked bs d in
      inr (
        refl,
        (i, j, omega (arith, after, h), f, m),
        ap (λ u. drng_mark_failure (with_asked n u)) a,
      )
  store_value-Outcome size count offset (some v, n) buf t small fits (bs, e, d, b) a
        (i, j, h, f, m, w) =
      let enough : ltb (len - offset) count ≡ false = ground arith in
      let new = take count (le_bytes (width i) v) in
      rw (b, enough, m, w)
        (inl (
          refl,
          (
            bs ++ new,
            omega (
              arith,
              length-append bs new,
              length-take count (le_bytes (width i) v),
              length-le_bytes (width i) v,
            ),
            then_value i j v count d h f (omega (arith, w)),
            ap (at p) (copy_lem (width i) count offset v bs e (omega (arith, w)) fits),
          ),
          ap (with_asked (suc j)) a,
        ))

  then_fill-Outcome :
      (j k : ℕ) (f : Fill) (rest : Ptr → Drng → Fill)
      → Outcome hardware p old s j f
      → ((buf : Ptr) (t : Drng)
          → Wrote hardware s.asked t.asked p old j buf
          → Asked s t
          → Outcome hardware p old s k (rest buf t))
      → Outcome hardware p old s k (then_fill f rest)
  unfolding then_fill
  then_fill-Outcome j k f rest (inl (e, w, a)) h = rw e (h f.buf f.drng w a)
  then_fill-Outcome j k f rest (inr (e, last, m)) h = rw e (inr (refl, last, m))

  fill_words-then :
      (ask : ℕ → Option ℕ × ℕ) (rounds offset : ℕ) (buf : Ptr) (t : Drng)
      → fill_words ask (suc rounds) offset len buf t
        ≡ then_fill
            (store_value 8 8 offset len (ask t.asked) buf t)
            (λ b u. fill_words ask rounds (offset + 8) len b u)
  unfolding fill_words then_fill
  fill_words-then ask rounds offset buf t = refl

  fill_words-Outcome :
      (ask : ℕ → Option ℕ × ℕ) (rounds offset last : ℕ) (buf : Ptr) (t : Drng)
      → ((n : ℕ) → Answered hardware 8 n (ask n))
      → offset + 8 * rounds ≡ last
      → last ≤ len
      → Wrote hardware s.asked t.asked p old offset buf
      → Asked s t
      → Outcome hardware p old s last (fill_words ask rounds offset len buf t)
  fill_words-Outcome ask zero offset last buf t answers e h w a =
      let same : offset ≡ last = omega arith in unfold fill_words in rw (← same) (inl (refl, w, a))
  fill_words-Outcome ask (suc rounds) offset last buf t answers e h w a =
      rw (fill_words-then ask rounds offset buf t) (
        then_fill-Outcome (offset + 8) last (store_value 8 8 offset len (ask t.asked) buf t)
          (λ b u. fill_words ask rounds (offset + 8) len b u)
          (store_value-Outcome 8 8 offset (ask t.asked) buf t (omega arith) (omega arith) w a
            (answers t.asked))
          (λ b u w' a'.
            fill_words-Outcome ask rounds (offset + 8) last b u answers (omega arith) h w' a'))

  -- A part that is done only under a test.
  optional-Outcome :
      (test : Bool) (size count offset last : ℕ) (r : Option ℕ × ℕ) (buf : Ptr) (t : Drng)
      → (test ≡ true → (count ≤ size) × (offset + count ≡ last))
      → (test ≡ false → offset ≡ last)
      → last ≤ len
      → Wrote hardware s.asked t.asked p old offset buf
      → Asked s t
      → Answered hardware size t.asked r
      → Outcome hardware p old s last (
          if test
          then store_value size count offset len r buf t
          else record { status = ok; buf = buf; drng = t })
  optional-Outcome true size count offset last r buf t yes_case no_case fits w a answered =
      let same = (yes_case refl).1 in
      rw (← same)
        (store_value-Outcome size count offset r buf t (yes_case refl).0 (omega arith) w a answered)
  optional-Outcome false size count offset last r buf t yes_case no_case fits w a answered =
      let same = no_case refl in rw (← same) (inl (refl, w, a))

  fill_arm-Outcome : Outcome hardware p old s len (fill_arm hardware (at p old) len s)
  unfolding fill_arm
  fill_arm-Outcome =
      let offset = 8 * (len / 8) in
      then_fill-Outcome offset len
        (fill_words (once hardware arm_rndr) (len / 8) 0 len (at p old) s)
        (λ b t.
          if ltb offset len
          then store_value 8 (len - offset) offset len (once hardware arm_rndr t.asked) b t
          else record { status = ok; buf = b; drng = t })
        (fill_words-Outcome (once hardware arm_rndr) (len / 8) 0 offset (at p old) s
          (λ n. once-Answered hardware arm_rndr n) (omega arith) (omega arith)
          ([], refl, none_yet, refl) refl)
        (λ b t w a.
          optional-Outcome (ltb offset len) 8 (len - offset) offset len
            (once hardware arm_rndr t.asked) b t (λ h. ground (arith, ltb→lt offset len))
            (λ h. ground (arith, ltb→le offset len)) (omega arith) w a
            (once-Answered hardware arm_rndr t.asked))

  fill_x86-Outcome :
      (impl : RngImpl) → Outcome hardware p old s len (fill_x86 hardware impl (at p old) len s)
  unfolding fill_x86
  fill_x86-Outcome impl =
      let offset = 8 * (len / 8) in
      let offset' : ℕ = if leb (offset + 4) len then offset + 4 else offset in
      let step = λ (t : Drng). once hardware rdrand32_step t.asked in
      let third : Ptr → Drng → Fill = λ b t.
        if ltb offset' len
        then store_value 4 (len - offset') offset' len (step t) b t
        else record { status = ok; buf = b; drng = t } in
      let second : Ptr → Drng → Fill = λ b t.
        if leb (offset + 4) len
        then store_value 4 4 offset len (step t) b t
        else record { status = ok; buf = b; drng = t } in
      then_fill-Outcome offset len
        (fill_words (word_for hardware impl) (len / 8) 0 len (at p old) s)
        (λ b t. then_fill (second b t) third)
        (fill_words-Outcome (word_for hardware impl) (len / 8) 0 offset (at p old) s
          (λ n. word_for-Answered hardware impl n) (omega arith) (omega arith)
          ([], refl, none_yet, refl) refl)
        (λ b t w a.
          then_fill-Outcome offset' len (second b t) third
            (optional-Outcome (leb (offset + 4) len) 4 4 offset offset' (step t) b t
              (λ h. ground arith) (λ h. ground arith) (ground arith) w a
              (once-Answered hardware rdrand32_step t.asked))
            (λ b' t' w' a'.
              optional-Outcome (ltb offset' len) 4 (len - offset') offset' len (step t') b' t'
                (λ h. ground arith) (λ h. ground arith) (omega arith) w' a'
                (once-Answered hardware rdrand32_step t'.asked)))

abbrev pub has_rng : Target → Bool
has_rng x86 = true
has_rng arm = true
has_rng other = false

fill_target-Outcome :
    (p len : ℕ) (old : List ℕ) (s : Drng) (target : Target) (hardware : Hardware) (impl : RngImpl)
    → len ≤ length old
    → has_rng target ≡ true
    → Outcome hardware p old s len (fill_target target hardware impl (at p old) len s)
unfolding fill_target
fill_target-Outcome p len old s x86 hardware impl room h =
    fill_x86-Outcome hardware p len old room s impl
fill_target-Outcome p len old s arm hardware impl room h =
    fill_arm-Outcome hardware p len old room s
fill_target-Outcome p len old s other hardware impl room h = absurd (cc)

-- With a buffer of at least `len` bytes, on x86 or on ARM with RNDR, and with an implementation
-- chosen, `drng_fill` returns. It returns 0 with `len` bytes that the hardware gave in front of the
-- buffer, the front bytes of the values of instructions that this call asked, in their order, and
-- the rest as it was; and counts one more fill and `len` more bytes, at 64 bits. Or it returns -1:
-- then the last instruction that it asked has failed, and the state is marked with the failure.
-- Nothing else of the state changes but the count of instructions.
pub drng_fill_cases :
    (p len fuel : ℕ) (old : List ℕ) (s : Drng) (target : Target) (hardware : Hardware)
    → len ≤ length old
    → has_rng target ≡ true
    → is_none_impl s.rng_impl ≡ false
    → (f : Fill) × (drng_fill target hardware fuel (at p old) len s ≡ some f)
      × (((f.status ≡ ok)
            × Wrote hardware s.asked f.drng.asked p old len f.buf
            × (f.drng ≡ record s {
              asked = f.drng.asked;
              total_bytes_generated = u64 (s.total_bytes_generated + len);
              health_test_count = u64 (s.health_test_count + 1);
            }))
          ⊎ ((f.status ≡ failed)
              × Failed hardware s.asked f.drng.asked
              × (f.drng ≡ record s {
                asked = f.drng.asked;
                catastrophic_failure = 1;
                power_up_selftest_passed = 0;
              })))
unfolding drng_fill drng_fill_by fill_chosen count_fill drng_mark_failure
drng_fill_cases p len fuel old s target hardware room h chosen =
    let f = fill_target target hardware s.rng_impl (at p old) len s in
    rw chosen (
      fill_chosen target hardware s.rng_impl (at p old) len s,
      refl,
      elim (fill_target-Outcome p len old s target hardware s.rng_impl room h) [
        | inl (e, w, a) ↦ rw e (inl (refl, w, ap (λ t. count_fill len t) a))
        | inr (e, last, m) ↦ rw e (inr (e, last, m))
      ],
    )
