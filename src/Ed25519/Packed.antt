-- ===== src/Ed25519/Packed.antt =====
-- A packed point is 32 bytes, and a multiplication reads 32.
use tweetnacl_modular.Base.{
  ℕ, zero, suc, ◌*◌, ◌^◌, ◌<◌, ◌≡◌, ap, ◌∙◌, arith, List, [], ◌∷◌, length, set, get_or, length-set,
  All-get_or, ◌≤◌, ◌/◌, ◌%◌, take, bit_and, refl,
}
use tweetnacl_modular.Bits.{bit_xor-lt}
use tweetnacl_modular.Bytes.{IsBytes}
use tweetnacl_modular.Curve25519.{mul_gf, pack25519, inv25519}
use tweetnacl_modular.Curve25519.Lengths.{length-mul_gf, length-pack25519, pack25519-IsBytes}
use tweetnacl_modular.Word.{◌>>◌}
use tweetnacl_modular.Curve25519.Ladder.{scalar_bit}
use tweetnacl_modular.Ed25519.{Point, pack, scalarmult_loop, scalarmult, scalarbase}

set-IsBytes : (xs : List ℕ) (i v : ℕ) → v < 2 ^ 8 → IsBytes xs → IsBytes (set xs i v)
set-IsBytes [] i v h hx = hx
set-IsBytes (x ∷ xs) zero v h hx = (h, hx.1)
set-IsBytes (x ∷ xs) (suc i) v h hx = (hx.0, set-IsBytes xs i v h hx.1)

pub length-pack : (p : Point) → length (pack p) ≡ 32
unfolding pack
length-pack p =
    let ty = mul_gf p.p1 (inv25519 p.p2) in
    length-set (pack25519 ty) 31 _
    ∙ length-pack25519 ty
    ∙ ap (λ k. 2 * k) (length-mul_gf p.p1 (inv25519 p.p2))

pub pack-IsBytes : (p : Point) → IsBytes (pack p)
unfolding pack
pack-IsBytes p =
    let r = pack25519 (mul_gf p.p1 (inv25519 p.p2)) in
    let bytes = pack25519-IsBytes (mul_gf p.p1 (inv25519 p.p2)) in
    set-IsBytes r 31 _
      (bit_xor-lt 8 (get_or r 31 0) _ (All-get_or (λ b. b < 2 ^ 8) r 31 0 (omega arith) bytes)
        (omega arith))
      bytes

pub get_or-take : (n i d : ℕ) (xs : List ℕ) → i < n → get_or (take n xs) i d ≡ get_or xs i d
get_or-take zero i d xs h = absurd (omega arith)
get_or-take (suc n) i d [] h = refl
get_or-take (suc n) zero d (x ∷ xs) h = refl
get_or-take (suc n) (suc i) d (x ∷ xs) h = get_or-take n i d xs (omega arith)

-- A multiplication reads the first 32 bytes of its scalar.
scalarmult_loop-take :
    (s : List ℕ) (i : ℕ) (pq : Point × Point)
    → i ≤ 256
    → scalarmult_loop s i pq ≡ scalarmult_loop (take 32 s) i pq
unfolding scalarmult_loop scalar_bit
scalarmult_loop-take s zero (p, q) h = refl
scalarmult_loop-take s (suc i) (p, q) h =
    let bit : scalar_bit (take 32 s) i ≡ scalar_bit s i =
      ap (λ b. bit_and (b >> (i % 8)) 1) (get_or-take 32 (i / 8) 0 s (omega arith)) in
    rw bit (scalarmult_loop-take s i _ (omega arith))

pub scalarbase-take : (s : List ℕ) → scalarbase s ≡ scalarbase (take 32 s)
unfolding scalarbase scalarmult
scalarbase-take s = scalarmult_loop-take s 256 _ (omega arith)
