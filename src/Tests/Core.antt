-- ===== src/Tests/Core.antt =====
-- The utilities and the choice of an implementation.
use tweetnacl_modular.Base.{ℕ, ◌^◌, ◌≡◌, ◌⊎◌, refl, arith, min, max, none, some, List, [], ◌∷◌}
use tweetnacl_modular.Base.Int.{pos, negsuc, ok, failed}
use tweetnacl_modular.Base.Int.{◌*ℤ◌}
use tweetnacl_modular.Utils.Product.{safe_mul_int_cases}
use tweetnacl_modular.Utils.{safe_mul_int, constant_time_min, constant_time_max}
use tweetnacl_modular.Utils.Checked.{IsInt}
use tweetnacl_modular.Utils.Branchless.{constant_time_far}
use tweetnacl_modular.Dispatch.{Impl, nacl_select_implementation}
use tweetnacl_modular.Dispatch.Choice.{IsBest, nacl_select_implementation-IsBest}

safe_mul_int_cases_example :
    (IsInt (negsuc 65535 *ℤ pos 32768)
      × (safe_mul_int (negsuc 65535) (pos 32768) (some (pos 7))
          ≡ (ok, some (negsuc 65535 *ℤ pos 32768))))
    ⊎ ((IsInt (negsuc 65535 *ℤ pos 32768) → ⊥)
        × (safe_mul_int (negsuc 65535) (pos 32768) (some (pos 7)) ≡ (failed, some (pos 7))))
safe_mul_int_cases_example = safe_mul_int_cases (negsuc 65535) (pos 32768) (pos 7)

constant_time_far_example :
    (constant_time_min (2 ^ 63) 0 ≡ max (2 ^ 63) 0)
    × (constant_time_max (2 ^ 63) 0 ≡ min (2 ^ 63) 0)
constant_time_far_example = constant_time_far (2 ^ 63) 0 (omega arith) (omega arith) (omega arith)

-- "hi" and what follows its NUL.
abbrev greeting : List ℕ
greeting = 104 ∷ 105 ∷ 0 ∷ 99 ∷ []

abbrev software : Impl
software = record { name = 115 ∷ []; priority = 0; cpu_features_required = 0 }

abbrev vector : Impl
vector = record { name = 118 ∷ []; priority = 10; cpu_features_required = 1 }

nacl_select_implementation-IsBest_example :
    (impl : Impl) × IsBest 1 (software ∷ vector ∷ []) impl
    × (nacl_select_implementation 1 software (vector ∷ []) none ≡ (ok, some impl))
    × (nacl_select_implementation 0 software (vector ∷ []) (some impl) ≡ (ok, some impl))
nacl_select_implementation-IsBest_example =
    nacl_select_implementation-IsBest 1 0 software (vector ∷ []) refl
