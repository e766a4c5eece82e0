-- ===== src/Ed25519.antt =====
-- Ed25519 of src/tweetnacl/tweetnacl.c: points of the curve in four coordinates. The arithmetic of
-- the scalars is in Scalar, the signatures in Sign.
pub mod Packed
pub mod Reduced
pub mod Scalar
pub mod Sign
pub mod Fips
use tweetnacl_modular.Base.{
  ℕ, zero, suc, ◌+◌, ◌*◌, ◌/◌, ◌==◌, bit_xor, Bool, not, if◌then◌else◌, Option, none, some, List,
  get_or, set,
}
use tweetnacl_modular.Word.{u8, ◌<<◌, ◌>>◌}
use tweetnacl_modular.Secretbox.{is_ok}
use tweetnacl_modular.Curve25519.{
  Gf, gf0, gf1, d_constant, d2_constant, x_constant, y_constant, i_constant, sel25519, add_gf,
  sub_gf, mul_gf, square_gf, inv25519, pow2523, pack25519, unpack25519, par25519, neq25519,
}
use tweetnacl_modular.Curve25519.Ladder.{scalar_bit}

-- `gf p[4]`
pub record Point : Type 0 where
  pub p0 : Gf
  pub p1 : Gf
  pub p2 : Gf
  pub p3 : Gf

-- `add`, the sum that it stores in its first argument.
unfoldable pub add_points : Point → Point → Point
add_points p q =
    let a = mul_gf (sub_gf p.p1 p.p0) (sub_gf q.p1 q.p0) in
    let b = mul_gf (add_gf p.p0 p.p1) (add_gf q.p0 q.p1) in
    let c = mul_gf (mul_gf p.p3 q.p3) d2_constant in
    let d' = mul_gf p.p2 q.p2 in
    let d = add_gf d' d' in
    let e = sub_gf b a in
    let f = sub_gf d c in
    let g = add_gf d c in
    let h = add_gf b a in
    record { p0 = mul_gf e f; p1 = mul_gf h g; p2 = mul_gf g f; p3 = mul_gf e h }

unfoldable pub cswap : Point → Point → ℕ → Point × Point
cswap p q b =
    let s0 = sel25519 p.p0 q.p0 b in
    let s1 = sel25519 p.p1 q.p1 b in
    let s2 = sel25519 p.p2 q.p2 b in
    let s3 = sel25519 p.p3 q.p3 b in
    (
      record { p0 = s0.0; p1 = s1.0; p2 = s2.0; p3 = s3.0 },
      record { p0 = s0.1; p1 = s1.1; p2 = s2.1; p3 = s3.1 },
    )

-- The point's y, with the parity of its x in the top bit.
unfoldable pub pack : Point → List ℕ
pack p =
    let zi = inv25519 p.p2 in
    let tx = mul_gf p.p0 zi in
    let ty = mul_gf p.p1 zi in
    let r = pack25519 ty in set r 31 (bit_xor (get_or r 31 0) (u8 (par25519 tx << 7)))

-- The loop of `scalarmult`, down from bit `i`.
unfoldable pub scalarmult_loop : List ℕ → ℕ → Point × Point → Point
unfolding cswap add_points
scalarmult_loop s zero (p, q) = p
scalarmult_loop s (suc i) (p, q) =
    let b = scalar_bit s i in
    let (p1, q1) = cswap p q b in
    scalarmult_loop s i (cswap (add_points p1 p1) (add_points q1 p1) b)

unfoldable pub scalarmult : Point → List ℕ → Point
unfolding scalarmult_loop
scalarmult q s = scalarmult_loop s 256 (record { p0 = gf0; p1 = gf1; p2 = gf1; p3 = gf0 }, q)

unfoldable pub scalarbase : List ℕ → Point
unfolding scalarmult
scalarbase s =
    scalarmult
      (record { p0 = x_constant; p1 = y_constant; p2 = gf1; p3 = mul_gf x_constant y_constant }) s

-- The square root that `unpackneg` tries, from `num` and `den`.
unfoldable pub root_candidate : Gf → Gf → Gf
root_candidate num den =
    let den2 = square_gf den in
    let den4 = square_gf den2 in
    let den6 = mul_gf den4 den2 in
    let t = pow2523 (mul_gf (mul_gf den6 num) den) in
    mul_gf (mul_gf (mul_gf (mul_gf t num) den) den) den

-- The negative of the point of 32 bytes, or `none` if there is no such point.
unfoldable pub unpackneg : List ℕ → Option Point
unfolding root_candidate
unpackneg p =
    let r1 = unpack25519 p in
    let square = square_gf r1 in
    let num = sub_gf square gf1 in
    let den = add_gf gf1 (mul_gf square d_constant) in
    let root = root_candidate num den in
    let chk = mul_gf (square_gf root) den in
    let r0 = if is_ok (neq25519 chk num) then root else mul_gf root i_constant in
    let chk' = mul_gf (square_gf r0) den in
    let r0' = if par25519 r0 == (get_or p 31 0 >> 7) then sub_gf gf0 r0 else r0 in
    if is_ok (neq25519 chk' num)
    then some (record { p0 = r0'; p1 = r1; p2 = gf1; p3 = mul_gf r0' r1 })
    else none
