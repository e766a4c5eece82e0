-- ===== src/Tests/Curve.antt =====
-- The field, boxes between two parties, and signatures on concrete buffers.
use tweetnacl_modular.Base.{
  ℕ, ◌-◌, ◌*◌, ◌/◌, ◌^◌, ◌≤◌, ◌<◌, ◌≡◌, ◌≢◌, All, ◌⊎◌, refl, arith, none, some, List, [], ◌∷◌, ◌++◌,
  take, drop, replicate, get_or,
}
use tweetnacl_modular.Base.Int.{pos, negsuc, ok, failed, ◌+ℤ◌, ◌*ℤ◌}
use tweetnacl_modular.Memory.{at, write_at}
use tweetnacl_modular.Bytes.Value.{le_value}
use tweetnacl_modular.Utils.{size_max}
use tweetnacl_modular.Curve25519.{
  Gf, gf_of, add_rows, fold_38, sel25519, mul_gf, unpack25519, d_constant, x_constant,
}
use tweetnacl_modular.Curve25519.Value.{gf_value, Congruent}
use tweetnacl_modular.Curve25519.Range.{Within}
use tweetnacl_modular.Curve25519.Product.{mul_gf_value}
use tweetnacl_modular.Curve25519.Select.{sel25519_lem}
use tweetnacl_modular.Curve25519.Unpack.{unpack25519_value}
use tweetnacl_modular.Curve25519.Ladder.{clamp_scalar, scalarmult_bytes}
use tweetnacl_modular.Box.{crypto_box, crypto_box_open}
use tweetnacl_modular.Box.Shared.{crypto_box_round}
use tweetnacl_modular.Ed25519.{Point, unpackneg}
use tweetnacl_modular.Ed25519.Sign.{filled_with, crypto_sign_open}
use tweetnacl_modular.Bytes.{IsBytes}
use tweetnacl_modular.Ed25519.Sign.Reference.{checked_half}
use tweetnacl_modular.Ed25519.Sign.Opened.{crypto_sign_open_cases}
use tweetnacl_modular.Tests.Data.{
  key, nonce, message, blank, key-IsBytes, message-IsBytes, blank-IsBytes,
}

x_constant-Within : All (Within (2 ^ 26)) x_constant
x_constant-Within = ground arith

d_constant-Within : All (Within (2 ^ 26)) d_constant
d_constant-Within = ground arith

mul_gf_value_example :
    let zeros = gf_of (replicate 31 0) in
    let t = add_rows x_constant d_constant zeros in
    ((rows : ℕ) → All (Within (2 ^ 56)) (add_rows (take rows x_constant) d_constant zeros))
    × All (Within (2 ^ 62)) (fold_38 (take 16 t) (drop 16 t))
    × Congruent
        (gf_value x_constant *ℤ gf_value d_constant)
        (gf_value (mul_gf x_constant d_constant))
mul_gf_value_example =
    mul_gf_value x_constant d_constant refl refl x_constant-Within d_constant-Within

abbrev below_zero : Gf
below_zero = negsuc 4 ∷ pos 7 ∷ negsuc 65535 ∷ []

abbrev above_zero : Gf
above_zero = pos 1 ∷ pos 2 ∷ pos 65535 ∷ []

sel25519_lem_example :
    (sel25519 below_zero above_zero 0 ≡ (below_zero, above_zero))
    × (sel25519 below_zero above_zero 1 ≡ (above_zero, below_zero))
sel25519_lem_example = sel25519_lem below_zero above_zero refl (ground arith) (ground arith)

unpack25519_value_example :
    pos (le_value key) ≡ gf_value (unpack25519 key) +ℤ pos (2 ^ 255 * (get_or key 31 0 / 2 ^ 7))
unpack25519_value_example = unpack25519_value key refl key-IsBytes

-- The same scalar but for bits that clamping clears.
abbrev other_key : List ℕ
other_key = 8 ∷ drop 1 key

same_scalar : clamp_scalar key ≡ clamp_scalar other_key
unfolding clamp_scalar
same_scalar = refl

agreement : scalarmult_bytes key nonce ≡ scalarmult_bytes other_key nonce
unfolding scalarmult_bytes
agreement = rw same_scalar refl

crypto_box_round_example :
    let box =
      crypto_box (at 100 blank) (at 200 message) 40 (at 300 nonce) (at 400 nonce) (at 500 key) in
    (box.status ≡ ok)
    × (crypto_box_open
          (at 600 blank)
          (at 100 box.out)
          40
          (at 300 nonce)
          (at 400 nonce)
          (at 500 other_key)
        ≡ record { status = ok; out = write_at 0 (take 40 message) blank })
crypto_box_round_example =
    crypto_box_round 40 message nonce key nonce other_key nonce 100 200 600 300 400 500 blank blank
      agreement (omega arith) (omega arith) (omega arith) refl message-IsBytes (λ e. omega arith)
      (λ e. omega arith) blank-IsBytes

abbrev signed : List ℕ
signed = key ++ (key ++ (1 ∷ 2 ∷ 3 ∷ []))

signed-IsBytes : IsBytes signed
signed-IsBytes = ground arith

crypto_sign_open_cases_example :
    let r = crypto_sign_open (at 100 blank) (some 9) (at 200 signed) 67 (at 300 key) in
    (((67 < 64) ⊎ (size_max - 64 < 67) ⊎ (unpackneg key ≡ none))
      × (r ≡ record { status = failed; out = blank; mlen = some 9 }))
    ⊎ ((q : Point) × (unpackneg key ≡ some q)
        × (64 ≤ 67)
        × (67 ≤ size_max - 64)
        × (let text = take (67 - 64) (drop 64 signed) in
            let t = checked_half q (take 32 signed) (take 32 (drop 32 signed)) (take 32 key) text in
            let filled = filled_with blank signed 67 key in
            ((take 32 signed ≡ t)
              × (r ≡ record { status = ok; out = write_at 0 text filled; mlen = some (67 - 64) }))
            ⊎ ((take 32 signed ≢ t)
                × (r ≡ record {
                  status = failed;
                  out = write_at 0 (replicate (67 - 64) 0) filled;
                  mlen = some 0;
                }))))
crypto_sign_open_cases_example =
    crypto_sign_open_cases 100 200 300 67 9 blank signed key (λ e. omega arith) (omega arith)
      (omega arith) blank-IsBytes signed-IsBytes key-IsBytes

-- Room for a signature and eight bytes.
abbrev room : List ℕ
room = replicate 80 0

abbrev secret_key : List ℕ
secret_key = key ++ key
