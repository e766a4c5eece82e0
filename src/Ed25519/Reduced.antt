-- ===== src/Ed25519/Reduced.antt =====
-- `mod_l` gives 32 bytes.
use tweetnacl_modular.Base.{
  ℕ, zero, suc, ◌+◌, ◌≤◌, ◌≡◌, refl, ap, ◌∙◌, arith, List, [], ◌∷◌, ◌++◌, length, take, drop, min,
  set, get_or, length-set, length-append, length-take, length-drop,
}
use tweetnacl_modular.Base.Int.{ℤ, pos, ◌+ℤ◌, ◌-ℤ◌, ◌*ℤ◌}
use tweetnacl_modular.Base.Signed.{shr_ℤ}
use tweetnacl_modular.Ed25519.Scalar.{
  l_bytes, take_off_multiple, take_off_top, take_off_quotient, take_off_carry, normal_bytes, mod_l,
}

length-take_off_multiple :
    (x : List ℤ) (n : ℕ) (ls : List ℕ) (xi carry : ℤ)
    → length (take_off_multiple n ls xi carry x) ≡ length x
unfolding take_off_multiple
length-take_off_multiple [] n ls xi carry = refl
length-take_off_multiple (x ∷ xs) zero ls xi carry = refl
length-take_off_multiple (x ∷ xs) (suc n) ls xi carry =
    ap suc (length-take_off_multiple xs n (drop 1 ls) xi _)

length-take_off_top : (k : ℕ) (x : List ℤ) → length (take_off_top k x) ≡ length x
unfolding take_off_top
length-take_off_top zero x = refl
length-take_off_top (suc k) x =
    let xi = get_or x (k + 32) (pos 0) in
    let low = take k x in
    let high = take_off_multiple 20 l_bytes xi (pos 0) (drop k x) in
    let size : length (low ++ high) ≡ length x = omega (
      arith,
      length-append low high,
      length-take k x,
      length-drop k x,
      length-take_off_multiple (drop k x) 20 l_bytes xi (pos 0),
    ) in
    length-take_off_top k (set (low ++ high) (k + 32) (pos 0))
    ∙ length-set (low ++ high) (k + 32) (pos 0)
    ∙ size

length-take_off_quotient :
    (ls : List ℕ) (x : List ℤ) (q carry : ℤ)
    → length (take_off_quotient q carry ls x).0 ≡ min (length ls) (length x)
unfolding take_off_quotient
length-take_off_quotient [] x q carry = omega arith
length-take_off_quotient (l ∷ ls) [] q carry = omega arith
length-take_off_quotient (l ∷ ls) (x ∷ xs) q carry =
    omega (arith, length-take_off_quotient ls xs q (shr_ℤ (x +ℤ (carry -ℤ q *ℤ pos l)) 8))

length-take_off_carry :
    (ls : List ℕ) (x : List ℤ) (c : ℤ) → length (take_off_carry c ls x) ≡ min (length ls) (length x)
unfolding take_off_carry
length-take_off_carry [] x c = omega arith
length-take_off_carry (l ∷ ls) [] c = omega arith
length-take_off_carry (l ∷ ls) (x ∷ xs) c = omega (arith, length-take_off_carry ls xs c)

length-normal_bytes : (x : List ℤ) (c : ℤ) → length (normal_bytes c x) ≡ length x
unfolding normal_bytes
length-normal_bytes [] c = refl
length-normal_bytes (x ∷ xs) c = ap suc (length-normal_bytes xs _)

pub length-mod_l : (x : List ℤ) → 32 ≤ length x → length (mod_l x) ≡ 32
unfolding mod_l
length-mod_l x h =
    let y = take_off_top 32 x in
    let q = shr_ℤ (get_or y 31 (pos 0)) 4 in
    let run = take_off_quotient q (pos 0) l_bytes y in
    let width : length l_bytes ≡ 32 = refl in
    omega (
      arith,
      length-normal_bytes (take_off_carry run.1 l_bytes run.0) (pos 0),
      length-take_off_carry l_bytes run.0 run.1,
      length-take_off_quotient l_bytes y q (pos 0),
      length-take_off_top 32 x,
      width,
    )
