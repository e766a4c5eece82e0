-- ===== src/Dispatch.antt =====
-- src/core/dispatch.c: the choice of an implementation at run time. The table is an argument,
-- since its entries depend on the build; so are the features that the processor reports. The
-- pointer `current_impl` is the state.
pub mod Choice
use tweetnacl_modular.Base.{
  ℕ, bit_and, Bool, true, false, ◌&&◌, ltb, ◌==◌, if◌then◌else◌, Option, none, some, List, [], ◌∷◌,
  length, map,
}
use tweetnacl_modular.Base.Int.{ℤ, ok, failed}

-- The fields of `nacl_impl_t` that the choice reads; a name is its characters.
pub record Impl : Type 0 where
  pub name : List ℕ
  pub priority : ℕ
  pub cpu_features_required : ℕ

-- `strcmp(a, b) == 0`
abbrev pub same_name : List ℕ → List ℕ → Bool
same_name [] [] = true
same_name [] (b ∷ bs) = false
same_name (a ∷ rest) [] = false
same_name (a ∷ rest) (b ∷ bs) = a == b && same_name rest bs

abbrev pub is_supported : ℕ → Impl → Bool
is_supported features impl =
    bit_and features impl.cpu_features_required == impl.cpu_features_required

-- The `for` loop, from the entries left.
unfoldable pub best_of : ℕ → Impl → List Impl → Impl
best_of features best [] = best
best_of features best (impl ∷ table) =
    best_of features
      (if is_supported features impl && ltb best.priority impl.priority then impl else best) table

-- The table is its first entry, which always exists, and the others.
unfoldable pub nacl_select_implementation : ℕ → Impl → List Impl → Option Impl → ℤ × Option Impl
nacl_select_implementation features first others (some current) = (ok, some current)
nacl_select_implementation features first others none =
    (ok, some (best_of features first (first ∷ others)))

unfoldable pub nacl_set_implementation : List ℕ → List Impl → Option Impl → ℤ × Option Impl
nacl_set_implementation name [] current = (failed, current)
nacl_set_implementation name (impl ∷ table) current =
    let rest = nacl_set_implementation name table current in
    if same_name impl.name name then (ok, some impl) else rest

unfoldable pub nacl_list_implementations : List Impl → List (List ℕ) × ℕ
nacl_list_implementations table = (map (λ impl. impl.name) table, length table)
