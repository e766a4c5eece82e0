-- ===== src/Tests/Keys.antt =====
-- A pair of keys from the generator of the library, with a system that gives its bytes.
use tweetnacl_modular.Base.{ℕ, ◌≡◌, ◌⊎◌, List, [], ◌∷◌, ◌++◌, length, drop, false}
use tweetnacl_modular.Base.Int.{ok, failed}
use tweetnacl_modular.Memory.{at, write_at}
use tweetnacl_modular.Secretbox.{is_ok}
use tweetnacl_modular.Status.{success}
use tweetnacl_modular.Rng.Drng.{drng_zero}
use tweetnacl_modular.Rng.Randombytes.{bytes}
use tweetnacl_modular.Pqc.Generator.{System, system_random, generator_source}
use tweetnacl_modular.Keypair.{nacl_keypair_validate, nacl_keypair_generate_validated}
use tweetnacl_modular.Keypair.Valid.{public_of}
use tweetnacl_modular.Keypair.Generated.{nacl_keypair_generate_validated_cases}
use tweetnacl_modular.Tests.Data.{blank, key}

abbrev device : System
device = (
  record { randombytes_call_count = 0; randombytes_initialized = 0; drng = drng_zero },
  (bytes key ∷ []) ∷ [],
)

nacl_keypair_generate_validated_cases_example :
    let made = system_random (at 200 blank) 32 device in
    let r = nacl_keypair_generate_validated generator_source (at 100 blank) (at 200 blank) device in
    ((made.status ≡ success)
      × ((bs : List ℕ) × (length bs ≡ 32)
          × (let secret = bs ++ drop 32 blank in
              (made.buf ≡ at 200 secret)
              × (r ≡ record {
                status = ok;
                y = at 100 (write_at 0 (public_of secret) blank);
                x = at 200 secret;
                state = made.state;
              })
              × (nacl_keypair_validate r.y r.x ≡ ok))))
    ⊎ ((is_ok made.status ≡ false)
        × (r ≡ record { status = failed; y = at 100 blank; x = made.buf; state = made.state }))
nacl_keypair_generate_validated_cases_example =
    nacl_keypair_generate_validated_cases generator_source 100 200 blank blank device
