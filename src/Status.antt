-- ===== src/Status.antt =====
-- The error codes of include/core/error.h that the models return, as the `int` they are.
use tweetnacl_modular.Base.Int.{ℤ, pos, negsuc}

abbrev pub success : ℤ
success = pos 0

abbrev pub invalid_param : ℤ
invalid_param = negsuc 0

abbrev pub buffer_too_small : ℤ
buffer_too_small = negsuc 1

abbrev pub self_test_failed : ℤ
self_test_failed = negsuc 3

abbrev pub rng_failure : ℤ
rng_failure = negsuc 4

abbrev pub catastrophic_failure_code : ℤ
catastrophic_failure_code = negsuc 12
