-- ===== src/Rng/Drng.antt =====
-- src/drivers/rng/drng.c: the state of the hardware generator, the instructions that it asks with
-- their retries, and `drng_fill` without its first lines, which call `drng_init`.
pub mod Health
pub mod Start
pub mod Api
pub mod Filled
pub mod Lifecycle
pub mod Runs
pub mod Platforms
pub mod Retry
use tweetnacl_modular.Base.{
  ℕ, zero, suc, ◌+◌, ◌-◌, ◌*◌, ◌/◌, ◌%◌, ◌==◌, leb, ltb, if◌then◌else◌, Bool, Option, none, some,
  List, ◌++◌, take,
}
use tweetnacl_modular.Base.Int.{ℤ, ok, failed}
use tweetnacl_modular.Word.{u64}
use tweetnacl_modular.Memory.{Ptr, at, contents, advance, Call}
use tweetnacl_modular.Memory.Secure.{safe_memcpy}
use tweetnacl_modular.Bytes.Value.{le_bytes}
use tweetnacl_modular.Secretbox.{refill, is_ok}

pub data RngImpl : Type 0 where
  rng_none : RngImpl
  rng_rdseed : RngImpl
  rng_rdrand : RngImpl
  rng_arm_rndr : RngImpl
  rng_bcrypt : RngImpl
  rng_urandom : RngImpl

-- The file's static variables: `rng_impl`, the fields of `drng_state`, `drng_init_state`. `asked`
-- counts the instructions that the hardware was given.
pub record Drng : Type 0 where
  pub rng_impl : RngImpl
  pub initialized : ℕ
  pub power_up_selftest_passed : ℕ
  pub health_test_count : ℕ
  pub last_health_test_result : ℤ
  pub total_bytes_generated : ℕ
  pub catastrophic_failure : ℕ
  pub drng_init_state : ℕ
  pub asked : ℕ

-- What the program starts with.
abbrev pub drng_zero : Drng
drng_zero = record {
  rng_impl = rng_none;
  initialized = 0;
  power_up_selftest_passed = 0;
  health_test_count = 0;
  last_health_test_result = ok;
  total_bytes_generated = 0;
  catastrophic_failure = 0;
  drng_init_state = 0;
  asked = 0;
}

-- The build: x86, ARM with RNDR, or another processor.
pub data Target : Type 0 where
  x86 : Target
  arm : Target
  other : Target

pub data Instruction : Type 0 where
  rdseed64_step : Instruction
  rdrand64_step : Instruction
  rdrand32_step : Instruction
  arm_rndr : Instruction

-- The answer to the instruction that is asked as the n-th: a value, or the failure flag.
abbrev pub Hardware : Type 0
Hardware = Instruction → ℕ → Option ℕ

abbrev pub rdrand_retries : ℕ
rdrand_retries = 10

unfoldable pub drng_set_initialized : Drng → Drng
drng_set_initialized s = record s { initialized = 1 }

unfoldable pub drng_mark_failure : Drng → Drng
drng_mark_failure s = record s { catastrophic_failure = 1; power_up_selftest_passed = 0 }

unfoldable pub drng_reset_state : Drng → Drng
drng_reset_state s = record s {
  initialized = 0;
  power_up_selftest_passed = 0;
  health_test_count = 0;
  total_bytes_generated = 0;
}

-- A call's return, its buffer and the state after it.
pub record Fill : Type 0 where
  pub status : ℤ
  pub buf : Ptr
  pub drng : Drng

module _ (hardware : Hardware) where
  -- The `while` loop of the retry helpers, with the rounds left; the value, and the count of the
  -- instructions asked after it.
  unfoldable pub retry : ℕ → Instruction → ℕ → Option ℕ × ℕ
  retry zero i n = (none, n)
  retry (suc rounds) i n = elim (hardware i n) [
    | some v ↦ (some v, suc n)
    | none ↦ retry rounds i (suc n)
  ]

  unfoldable pub rdrand64_retry : ℕ → Option ℕ × ℕ
  unfolding retry
  rdrand64_retry n = retry (suc rdrand_retries) rdrand64_step n

  unfoldable pub rdseed64_retry : ℕ → Option ℕ × ℕ
  unfolding retry
  rdseed64_retry n = retry (suc rdrand_retries) rdseed64_step n

  -- `(impl == RNG_RDSEED) ? rdseed64_retry(&val) : rdrand64_retry(&val)`
  unfoldable pub word_for : RngImpl → ℕ → Option ℕ × ℕ
  unfolding rdrand64_retry rdseed64_retry
  word_for rng_rdseed n = rdseed64_retry n
  word_for rng_none n = rdrand64_retry n
  word_for rng_rdrand n = rdrand64_retry n
  word_for rng_arm_rndr n = rdrand64_retry n
  word_for rng_bcrypt n = rdrand64_retry n
  word_for rng_urandom n = rdrand64_retry n

-- What a round does with the hardware's answer: a failure is marked and returned; a value of `size`
-- bytes is copied to `buf + offset`, its first `count` bytes.
unfoldable pub store_value : ℕ → ℕ → ℕ → ℕ → Option ℕ × ℕ → Ptr → Drng → Fill
unfolding drng_mark_failure
store_value size count offset len (none, n) buf s = record {
  status = failed;
  buf = buf;
  drng = drng_mark_failure (record s { asked = n });
}
store_value size count offset len (some v, n) buf s =
    let copied = safe_memcpy (advance offset buf) (len - offset) (at 0 (le_bytes size v)) count in
    record {
      status = if is_ok copied.status then ok else failed;
      buf = refill buf (take offset (contents buf) ++ copied.out);
      drng = record s { asked = n };
    }

-- The `while (offset + 8 <= len)` loop, with the rounds left, over the way to ask for a word.
unfoldable pub fill_words : (ℕ → Option ℕ × ℕ) → ℕ → ℕ → ℕ → Ptr → Drng → Fill
unfolding store_value
fill_words ask zero offset len buf s = record { status = ok; buf = buf; drng = s }
fill_words ask (suc rounds) offset len buf s =
    let f = store_value 8 8 offset len (ask s.asked) buf s in
    let rest = fill_words ask rounds (offset + 8) len f.buf f.drng in
    if is_ok f.status then rest else f

-- What follows a part of the function that may have returned.
unfoldable pub then_fill : Fill → (Ptr → Drng → Fill) → Fill
then_fill f rest = if is_ok f.status then rest f.buf f.drng else f

-- One instruction, with no retry.
abbrev pub once : Hardware → Instruction → ℕ → Option ℕ × ℕ
once hardware i n = (hardware i n, suc n)

unfoldable pub fill_x86 : Hardware → RngImpl → Ptr → ℕ → Drng → Fill
unfolding fill_words store_value then_fill word_for
fill_x86 hardware impl buf len s =
    let offset = 8 * (len / 8) in
    then_fill (fill_words (word_for hardware impl) (len / 8) 0 len buf s) (λ b t.
      then_fill
        (if leb (offset + 4) len
          then store_value 4 4 offset len (once hardware rdrand32_step t.asked) b t
          else record { status = ok; buf = b; drng = t })
        (λ b' t'.
          let offset' = if leb (offset + 4) len then offset + 4 else offset in
          if ltb offset' len
          then store_value 4 (len - offset') offset' len (once hardware rdrand32_step t'.asked) b'
              t'
          else record { status = ok; buf = b'; drng = t' }))

unfoldable pub fill_arm : Hardware → Ptr → ℕ → Drng → Fill
unfolding fill_words store_value then_fill
fill_arm hardware buf len s =
    let offset = 8 * (len / 8) in
    then_fill (fill_words (once hardware arm_rndr) (len / 8) 0 len buf s) (λ b t.
      if ltb offset len
      then store_value 8 (len - offset) offset len (once hardware arm_rndr t.asked) b t
      else record { status = ok; buf = b; drng = t })

unfoldable pub fill_target : Target → Hardware → RngImpl → Ptr → ℕ → Drng → Fill
unfolding fill_x86 fill_arm
fill_target x86 hardware impl buf len s = fill_x86 hardware impl buf len s
fill_target arm hardware impl buf len s = fill_arm hardware buf len s
fill_target other hardware impl buf len s = record { status = failed; buf = buf; drng = s }

-- The statistics, which wrap at 64 bits.
unfoldable pub count_fill : ℕ → Drng → Drng
count_fill len s = record s {
  total_bytes_generated = u64 (s.total_bytes_generated + len);
  health_test_count = u64 (s.health_test_count + 1);
}

-- `drng_fill` from the choice of `impl` on.
unfoldable pub fill_chosen : Target → Hardware → RngImpl → Ptr → ℕ → Drng → Fill
unfolding fill_target count_fill
fill_chosen target hardware impl buf len s =
    let f = fill_target target hardware impl buf len s in
    if is_ok f.status then record f { drng = count_fill len f.drng } else f
