-- ===== src/Tests/Words.antt =====
-- Loads, stores and comparisons of a few bytes.
use tweetnacl_modular.Base.{◌≡◌, ◌≢◌, ◌⊎◌, arith, take}
use tweetnacl_modular.Base.Int.{ok, failed}
use tweetnacl_modular.Verify.{vn}
use tweetnacl_modular.Verify.Equal.{vn_lem}
use tweetnacl_modular.Tests.Data.{key, blank, key-IsBytes, blank-IsBytes}

vn_lem_example :
    ((take 16 key ≡ take 16 blank) × (vn key blank 16 ≡ ok))
    ⊎ ((take 16 key ≢ take 16 blank) × (vn key blank 16 ≡ failed))
vn_lem_example = vn_lem 16 key blank key-IsBytes blank-IsBytes (omega arith) (omega arith)
