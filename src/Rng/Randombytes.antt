-- ===== src/Rng/Randombytes.antt =====
-- src/drivers/rng/randombytes.c, over the generator of the hardware, which the build may leave out,
-- and over the operating system: /dev/urandom of POSIX, or the CNG provider of Windows.
pub mod Device
pub mod Safe
use tweetnacl_modular.Base.{
  ℕ, zero, suc, ◌+◌, ◌-◌, ◌==◌, ltb, ◌%◌, if◌then◌else◌, Bool, true, false, ◌||◌, not, Option, none,
  some, List, [], ◌∷◌, ◌++◌, take, length, replicate,
}
use tweetnacl_modular.Base.Int.{ℤ, ok}
use tweetnacl_modular.Word.{u64}
use tweetnacl_modular.Status.{
  success, invalid_param, buffer_too_small, rng_failure, catastrophic_failure_code,
}
use tweetnacl_modular.Memory.{Ptr, at, is_null, contents, write_at}
use tweetnacl_modular.Secretbox.{refill, is_ok}
use tweetnacl_modular.Rng.Drng.{Fill, Drng}
use tweetnacl_modular.Rng.Drng.Health.{is_stuck}

-- What a `read` returns: bytes (none of them is the end of the file), EINTR, or another error.
pub data Answer : Type 0 where
  bytes : List ℕ → Answer
  interrupted : Answer
  read_error : Answer

pub data FileKind : Type 0 where
  unknown_file : FileKind
  char_device : FileKind
  other_file : FileKind

-- One call's view of the operating system: whether `open` succeeds, what `fstat` tells, and the
-- answers to `read` that have come so far; or the statuses of the two CNG calls.
pub data Os : Type 0 where
  posix : Bool → FileKind → List Answer → Os
  windows : ℕ → ℕ → List ℕ → Os

-- The static variables of the file, and those of drng.c.
pub record Generator : Type 0 where
  pub randombytes_call_count : ℕ
  pub randombytes_initialized : ℕ
  pub drng : Drng

pub record Random : Type 0 where
  pub status : ℤ
  pub buf : Ptr
  pub generator : Generator

-- `_randombytes_drng_fill` where the build has WITH_DRNG.
abbrev pub DrngFill : Type 0
DrngFill = Option (Ptr → ℕ → Drng → Option Fill)

unfoldable pub randombytes_init : DrngFill → Generator → Option Generator
randombytes_init drng_fill g =
    if not (g.randombytes_initialized == 0) then some g else elim drng_fill [
      | none ↦ some (record g { randombytes_initialized = 1 })
      | some fill ↦ elim (fill (at 0 (replicate 16 0)) 16 g.drng) [
        | none ↦ none
        | some f ↦ some (record g { randombytes_initialized = 1; drng = f.drng })
      ]
    ]

-- The buffer's length is always 16, and it is cleared first.
unfoldable pub randombytes_selftest_quick : DrngFill → ℕ → Generator → Option (ℤ × Generator)
unfolding is_stuck
randombytes_selftest_quick drng_fill len g =
    if ltb len 16 then some (buffer_too_small, g) else elim drng_fill [
      | none ↦ some (if is_stuck (replicate 16 0) then catastrophic_failure_code else success, g)
      | some fill ↦ elim (fill (at 0 (replicate len 0)) 16 g.drng) [
        | none ↦ none
        | some f ↦ some (
          if is_ok f.status
              then if is_stuck (take 16 (contents f.buf))
                then catastrophic_failure_code
                else success
              else rng_failure,
          record g { drng = f.drng },
        )
      ]
    ]

-- The `while (total_read < len)` loop, over the answers that came. `none` is a loop that still waits
-- for an answer. A `read` gives at most what is asked.
unfoldable pub read_loop : List Answer → ℕ → ℕ → List ℕ → Option (ℤ × List ℕ)
read_loop [] len total_read buf = if ltb total_read len then none else some (success, buf)
read_loop (bytes bs ∷ answers) len total_read buf =
    let new = take (len - total_read) bs in
    let rest = read_loop answers len (total_read + length new) (write_at total_read new buf) in
    if ltb total_read len
    then if length new == 0 then some (rng_failure, buf) else rest
    else some (success, buf)
read_loop (interrupted ∷ answers) len total_read buf =
    let rest = read_loop answers len total_read buf in
    if ltb total_read len then rest else some (success, buf)
read_loop (read_error ∷ answers) len total_read buf =
    some (if ltb total_read len then rng_failure else success, buf)

abbrev pub is_trusted : FileKind → Bool
is_trusted unknown_file = true
is_trusted char_device = true
is_trusted other_file = false

-- The part that asks the operating system.
unfoldable pub ask_os : Os → ℕ → List ℕ → Option (ℤ × List ℕ)
unfolding read_loop
ask_os (posix opens kind answers) len buf =
    if opens
    then if is_trusted kind then read_loop answers len 0 buf else some (rng_failure, buf)
    else some (rng_failure, buf)
ask_os (windows open_status random_status bs) len buf = some (
    if open_status == 0
    then (if random_status == 0 then success else rng_failure, write_at 0 (take len bs) buf)
    else (rng_failure, buf))

-- The self-test of every hundredth call; a failure starts the generator anew, and no more.
unfoldable pub periodic_selftest : DrngFill → ℕ → Generator → Option Generator
unfolding randombytes_init randombytes_selftest_quick
periodic_selftest drng_fill call_count g =
    if call_count % 100 == 0
    then elim (randombytes_selftest_quick drng_fill 16 g) [
      | none ↦ none
      | some (ret, g') ↦
          if is_ok ret
          then some g'
          else randombytes_init drng_fill (record g' { randombytes_initialized = 0 })
    ]
    else some g

-- The end of the function: the hardware first, if the build has it, and then the system.
unfoldable pub asked_random : Option (ℤ × List ℕ) → Ptr → Generator → Option Random
asked_random none buf g = none
asked_random (some asked) buf g =
    some (record { status = asked.0; buf = refill buf asked.1; generator = g })

unfoldable pub generate : DrngFill → Os → Ptr → ℕ → Generator → Option Random
unfolding ask_os asked_random
generate none os buf len g = asked_random (ask_os os len (contents buf)) buf g
generate (some fill) os buf len g = elim (fill buf len g.drng) [
  | none ↦ none
  | some f ↦
      let g' = record g { drng = f.drng } in
      if is_ok f.status
      then some (record { status = success; buf = f.buf; generator = g' })
      else asked_random (ask_os os len (contents f.buf)) f.buf g'
]

unfoldable pub randombytes_safe : DrngFill → Os → Ptr → ℕ → Generator → Option Random
unfolding randombytes_init periodic_selftest generate
randombytes_safe drng_fill os buf len g =
    if is_null buf || len == 0
    then some (record { status = invalid_param; buf = buf; generator = g })
    else elim (randombytes_init drng_fill g) [
      | none ↦ none
      | some g1 ↦
          let call_count = u64 (g1.randombytes_call_count + 1) in
          elim (periodic_selftest drng_fill call_count
            (record g1 { randombytes_call_count = call_count })) [
              | none ↦ none
              | some g2 ↦ generate drng_fill os buf len g2
            ]
    ]

-- The old entry point, which drops the status.
unfoldable pub randombytes : DrngFill → Os → Ptr → ℕ → Generator → Option (Ptr × Generator)
unfolding randombytes_safe
randombytes drng_fill os buf len g = elim (randombytes_safe drng_fill os buf len g) [
  | none ↦ none
  | some r ↦ some (r.buf, r.generator)
]
