-- ===== src/Ed25519/Scalar.antt =====
-- src/tweetnacl/tweetnacl.c: `modL` and `reduce`, which take a number to the base 256 modulo the
-- order of the base point.
use tweetnacl_modular.Base.{
  ℕ, zero, suc, ◌+◌, List, [], ◌∷◌, ◌++◌, get_or, set, take, drop, replicate,
}
use tweetnacl_modular.Base.Int.{ℤ, pos, ◌+ℤ◌, ◌-ℤ◌, ◌*ℤ◌}
use tweetnacl_modular.Base.Signed.{shr_ℤ, low_ℤ, shl_ℤ}
use tweetnacl_modular.Curve25519.{gf_of}

-- `L`
abbrev pub l_bytes : List ℕ
l_bytes =
    0xed
      ∷ 0xd3
      ∷ 0xf5
      ∷ 0x5c
      ∷ 0x1a
      ∷ 0x63
      ∷ 0x12
      ∷ 0x58
      ∷ 0xd6
      ∷ 0x9c
      ∷ 0xf7
      ∷ 0xa2
      ∷ 0xde
      ∷ 0xf9
      ∷ 0xde
      ∷ 0x14
      ∷ replicate 15 0
    ++ 0x10 ∷ []

-- The inner loop with the rounds left, the bytes of L left, `x[i]`, the carry, and `x` from `x[j]`
-- on; the last carry is added behind it.
unfoldable pub take_off_multiple : ℕ → List ℕ → ℤ → ℤ → List ℤ → List ℤ
take_off_multiple n ls xi carry [] = []
take_off_multiple zero ls xi carry (x ∷ xs) = (x +ℤ carry) ∷ xs
take_off_multiple (suc n) ls xi carry (x ∷ xs) =
    let v = x +ℤ (carry -ℤ (pos 16 *ℤ xi) *ℤ pos (get_or ls 0 0)) in
    let c = shr_ℤ (v +ℤ pos 128) 8 in (v -ℤ shl_ℤ c 8) ∷ take_off_multiple n (drop 1 ls) xi c xs

-- The outer loop: with `k` rounds left, `i` is `k + 31`.
unfoldable pub take_off_top : ℕ → List ℤ → List ℤ
unfolding take_off_multiple
take_off_top zero x = x
take_off_top (suc k) x =
    let xi = get_or x (k + 32) (pos 0) in
    take_off_top k
      (set (take k x ++ take_off_multiple 20 l_bytes xi (pos 0) (drop k x)) (k + 32) (pos 0))

-- `FOR(j, 32)`: the quotient's multiple of L is taken off, and each limb brought to a byte; the
-- limbs, and the carry.
unfoldable pub take_off_quotient : ℤ → ℤ → List ℕ → List ℤ → List ℤ × ℤ
take_off_quotient q carry [] x = ([], carry)
take_off_quotient q carry (l ∷ ls) [] = ([], carry)
take_off_quotient q carry (l ∷ ls) (x ∷ xs) =
    let v = x +ℤ (carry -ℤ q *ℤ pos l) in
    let rest = take_off_quotient q (shr_ℤ v 8) ls xs in (pos (low_ℤ v 8) ∷ rest.0, rest.1)

-- `FOR(j, 32) x[j] -= carry * L[j]`
unfoldable pub take_off_carry : ℤ → List ℕ → List ℤ → List ℤ
take_off_carry carry [] x = []
take_off_carry carry (l ∷ ls) [] = []
take_off_carry carry (l ∷ ls) (x ∷ xs) = (x -ℤ carry *ℤ pos l) ∷ take_off_carry carry ls xs

-- The last loop: `x[i + 1] += x[i] >> 8; r[i] = x[i] & 255`, with what `x[i]` was raised by.
unfoldable pub normal_bytes : ℤ → List ℤ → List ℕ
normal_bytes carry [] = []
normal_bytes carry (x ∷ xs) = let v = x +ℤ carry in low_ℤ v 8 ∷ normal_bytes (shr_ℤ v 8) xs

unfoldable pub mod_l : List ℤ → List ℕ
unfolding take_off_top take_off_quotient take_off_carry normal_bytes
mod_l x =
    let y = take_off_top 32 x in
    let run = take_off_quotient (shr_ℤ (get_or y 31 (pos 0)) 4) (pos 0) l_bytes y in
    normal_bytes (pos 0) (take_off_carry run.1 l_bytes run.0)

-- The 64 bytes after the call: the upper ones are 0.
unfoldable pub reduce : List ℕ → List ℕ
unfolding mod_l
reduce r = mod_l (gf_of (take 64 r)) ++ replicate 32 0
