-- ===== src/Rng/Source.antt =====
-- What the callers of `randombytes_safe` rely on: an interface, which the generator of
-- src/drivers/rng/randombytes.c fills (Pqc.Generator).
use tweetnacl_modular.Base.{ℕ, ◌<◌, ◌≡◌, ◌⊎◌, List, ◌++◌, length, drop, false}
use tweetnacl_modular.Base.Int.{ℤ}
use tweetnacl_modular.Memory.{Ptr, at}
use tweetnacl_modular.Secretbox.{is_ok}
use tweetnacl_modular.Status.{success, invalid_param}

-- A call's return, its buffer and the generator's state after it.
pub record Made (State : Type 0) : Type 0 where
  pub status : ℤ
  pub buf : Ptr
  pub state : State

pub record RandomSource : Type 1 where
  pub State : Type 0
  pub randombytes_safe : Ptr → ℕ → State → Made State
  -- No bytes are refused.
  pub empty_fails : (buf : Ptr) (s : State) → (randombytes_safe buf 0 s).status ≡ invalid_param
  -- A success fills the buffer; a failure is told.
  pub fills :
      (p len : ℕ) (old : List ℕ) (s : State)
      → 0 < len
      → ((randombytes_safe (at p old) len s).status ≡ success)
          × ((bs : List ℕ) × (length bs ≡ len)
              × ((randombytes_safe (at p old) len s).buf ≡ at p (bs ++ drop len old)))
        ⊎ (is_ok (randombytes_safe (at p old) len s).status ≡ false)
