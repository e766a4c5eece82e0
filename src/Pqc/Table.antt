-- ===== src/Pqc/Table.antt =====
-- Facts about the table of parameters.
use tweetnacl_modular.Base.{ℕ, zero, suc, ◌+◌, ◌^◌, ◌<◌, ◌≡◌, ◌⊎◌, arith, some, List, [], ◌∷◌, All}
use mathlib.Core.Path.{subst}
use tweetnacl_modular.Base.Int.{ℤ, pos, negsuc}
use tweetnacl_modular.Pqc.Params.{PqcParams, pqc_params_table, get_elem?, params_of}

some_value {ℓ} : {A : Type ℓ} (y x : A) → some y ≡ some x → y ≡ x
some_value y x e = cc

All-get_elem? {ℓ κ} :
    {A : Type ℓ} (P : A → Type κ) (xs : List A) (i : ℕ) (x : A)
    → All P xs
    → get_elem? xs i ≡ some x
    → P x
All-get_elem? P [] i x h e = absurd (cc)
All-get_elem? P (y ∷ xs) zero x h e = subst P (some_value y x e) h.0
All-get_elem? P (y ∷ xs) (suc i) x h e = All-get_elem? P xs i x h.1 e

-- Keys and secrets are not empty, and an algorithm is either for keys or for signatures.
abbrev pub IsEntry : PqcParams → Type 0
IsEntry params =
    (0 < params.public_key_size)
    × (0 < params.secret_key_size)
    × (0 < params.shared_secret_size)
    × (((0 < params.ciphertext_size) × (params.signature_size ≡ 0))
        ⊎ ((params.ciphertext_size ≡ 0) × (0 < params.signature_size)))
    × (32 + params.ciphertext_size < 2 ^ 64)

table-IsEntry : All IsEntry pqc_params_table
table-IsEntry = ground arith

pub params_of-IsEntry :
    (algo : ℤ) (params : PqcParams) → params_of algo ≡ some params → IsEntry params
unfolding params_of
params_of-IsEntry (pos i) params e = All-get_elem? IsEntry pqc_params_table i params table-IsEntry e
params_of-IsEntry (negsuc i) params e = absurd (cc)
