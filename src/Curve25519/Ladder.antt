-- ===== src/Curve25519/Ladder.antt =====
-- src/tweetnacl/tweetnacl.c: `crypto_scalarmult` and `crypto_scalarmult_base`.
use tweetnacl_modular.Base.{
  ℕ, zero, suc, ◌/◌, ◌%◌, bit_and, bit_or, ◌||◌, if◌then◌else◌, List, [], ◌∷◌, ◌++◌, get_or, set,
  take, replicate,
}
use tweetnacl_modular.Base.Int.{ok, failed}
use tweetnacl_modular.Word.{◌>>◌}
use tweetnacl_modular.Memory.{Ptr, at, is_null, contents, write_at, Call}
use tweetnacl_modular.Curve25519.{
  Gf, gf0, gf1, gf_121665, sel25519, add_gf, sub_gf, mul_gf, square_gf, inv25519, pack25519,
  unpack25519,
}

-- `FOR(i, 31) z[i] = n[i]; z[31] = (n[31] & 127) | 64; z[0] &= 248`
unfoldable pub clamp_scalar : List ℕ → List ℕ
clamp_scalar n =
    let z = take 31 n ++ bit_or (bit_and (get_or n 31 0) 127) 64 ∷ [] in
    set z 0 (bit_and (get_or z 0 0) 248)

-- `(z[i >> 3] >> (i & 7)) & 1`
unfoldable pub scalar_bit : List ℕ → ℕ → ℕ
scalar_bit z i = bit_and (get_or z (i / 8) 0 >> (i % 8)) 1

-- The four field elements that a round carries over.
pub record Rung : Type 0 where
  pub a : Gf
  pub b : Gf
  pub c : Gf
  pub d : Gf

-- The arithmetic of a round between its exchanges, on the point's `x`.
unfoldable pub step_rung : Gf → Rung → Rung
step_rung x s =
    let e1 = add_gf s.a s.c in
    let a1 = sub_gf s.a s.c in
    let c1 = add_gf s.b s.d in
    let b1 = sub_gf s.b s.d in
    let d1 = square_gf e1 in
    let f1 = square_gf a1 in
    let a2 = mul_gf c1 a1 in
    let c2 = mul_gf b1 e1 in
    let e2 = add_gf a2 c2 in
    let a3 = sub_gf a2 c2 in
    let b2 = square_gf a3 in
    let c3 = sub_gf d1 f1 in
    let a4 = mul_gf c3 gf_121665 in
    let a5 = add_gf a4 d1 in
    let c4 = mul_gf c3 a5 in
    let a6 = mul_gf d1 f1 in
    let d2 = mul_gf b2 x in let b3 = square_gf e2 in record { a = a6; b = b3; c = c4; d = d2 }

unfoldable pub exchange : ℕ → Rung → Rung
exchange r s =
    let ab = sel25519 s.a s.b r in
    let cd = sel25519 s.c s.d r in record { a = ab.0; b = ab.1; c = cd.0; d = cd.1 }

-- The loop runs down from bit `i`.
unfoldable pub ladder : List ℕ → Gf → ℕ → Rung → Rung
unfolding step_rung exchange scalar_bit
ladder z x zero s = s
ladder z x (suc i) s =
    let r = scalar_bit z i in ladder z x i (exchange r (step_rung x (exchange r s)))

-- The bytes that `crypto_scalarmult` computes.
unfoldable pub scalarmult_bytes : List ℕ → List ℕ → List ℕ
scalarmult_bytes n p =
    let x = unpack25519 p in
    let s = ladder (clamp_scalar n) x 255 (record { a = gf1; b = x; c = gf0; d = gf1 }) in
    pack25519 (mul_gf s.a (inv25519 s.c))

unfoldable pub crypto_scalarmult : Ptr → Ptr → Ptr → Call
unfolding scalarmult_bytes
crypto_scalarmult q n p =
    if is_null q || (is_null n || is_null p)
    then record { status = failed; out = contents q }
    else record {
      status = ok;
      out = write_at 0 (scalarmult_bytes (contents n) (contents p)) (contents q);
    }

-- `_9`
abbrev pub base_point : List ℕ
base_point = 9 ∷ replicate 31 0

unfoldable pub crypto_scalarmult_base : Ptr → Ptr → Call
unfolding crypto_scalarmult
crypto_scalarmult_base q n =
    if is_null q || is_null n
    then record { status = failed; out = contents q }
    else crypto_scalarmult q n (at 0 base_point)
