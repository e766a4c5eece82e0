-- ===== src/Curve25519/Lengths.antt =====
-- A product of field elements has 16 limbs, and a packed one 32 bytes.
use tweetnacl_modular.Base.{
  ℕ, suc, ◌-◌, ◌*◌, ◌^◌, ◌<◌, ◌≡◌, refl, ap, ◌∙◌, arith, List, [], ◌∷◌, length, take, drop,
  replicate, length-take, min,
}
use tweetnacl_modular.Base.Int.{ℤ, pos, negsuc}
use tweetnacl_modular.Base.Signed.{low_ℤ, shr_ℤ}
use tweetnacl_modular.Bytes.{IsBytes}
use tweetnacl_modular.Curve25519.{
  Gf, gf_of, carry_limbs, add_first, car25519, sel25519, subtract_p, reduce_once, limb_bytes,
  pack25519, add_row, keep_first, add_rows, fold_38, mul_gf, p_limbs,
}

pub length-carry_limbs : (o : Gf) (c : ℤ) → length (carry_limbs c o).0 ≡ length o
unfolding carry_limbs
length-carry_limbs [] c = refl
length-carry_limbs (x ∷ xs) c = ap suc (length-carry_limbs xs _)

length-add_first : (c : ℤ) (o : Gf) → length (add_first c o) ≡ length o
length-add_first c [] = refl
length-add_first c (x ∷ xs) = refl

pub length-car25519 : (o : Gf) → length (car25519 o) ≡ length o
unfolding car25519
length-car25519 o = length-add_first _ _ ∙ length-carry_limbs o (pos 0)

pub length-add_row : (a : ℤ) (b t : Gf) → length (add_row a b t) ≡ length t
unfolding add_row
length-add_row a [] t = refl
length-add_row a (b ∷ bs) [] = refl
length-add_row a (b ∷ bs) (t ∷ ts) = ap suc (length-add_row a bs ts)

length-keep_first :
    (t u : Gf) (f : Gf → Gf)
    → length t ≡ length u
    → ((ts : Gf) → length (f ts) ≡ length ts)
    → length (keep_first t f) ≡ length u
length-keep_first [] u f e h = e
length-keep_first (t ∷ ts) u f e h = ap suc (h ts) ∙ e

pub length-add_rows : (a b t : Gf) → length (add_rows a b t) ≡ length t
unfolding add_rows
length-add_rows [] b t = refl
length-add_rows (a ∷ later) b t =
    length-keep_first (add_row a b t) t (λ ts. add_rows later b ts) (length-add_row a b t)
      (λ ts. length-add_rows later b ts)

pub length-fold_38 : (t h : Gf) → length (fold_38 t h) ≡ length t
unfolding fold_38
length-fold_38 [] h = refl
length-fold_38 (t ∷ ts) [] = refl
length-fold_38 (t ∷ ts) (h ∷ hs) = ap suc (length-fold_38 ts hs)

pub length-mul_gf : (a b : Gf) → length (mul_gf a b) ≡ 16
unfolding mul_gf
length-mul_gf a b =
    let t = add_rows a b (gf_of (replicate 31 0)) in
    length-car25519 (car25519 (fold_38 (take 16 t) (drop 16 t)))
    ∙ length-car25519 (fold_38 (take 16 t) (drop 16 t))
    ∙ length-fold_38 (take 16 t) (drop 16 t)
    ∙ length-take 16 t
    ∙ ap (min 16) (length-add_rows a b (gf_of (replicate 31 0)))

length-sel25519 : (p q : Gf) (b : ℕ) → length (sel25519 p q b).0 ≡ min (length p) (length q)
unfolding sel25519
length-sel25519 [] q b = omega arith
length-sel25519 (p ∷ ps) [] b = omega arith
length-sel25519 (p ∷ ps) (q ∷ qs) b = omega (arith, length-sel25519 ps qs b)

length-subtract_p : (t : Gf) (ps : List ℕ) (b : ℕ) → length (subtract_p t ps b).0 ≡ length t
unfolding subtract_p
length-subtract_p [] ps b = refl
length-subtract_p (t ∷ ts) ps b = ap suc (length-subtract_p ts (drop 1 ps) _)

length-reduce_once : (t : Gf) → length (reduce_once t) ≡ length t
unfolding reduce_once
length-reduce_once t = omega (
  arith,
  length-sel25519 t (subtract_p t p_limbs 0).0 (1 - (subtract_p t p_limbs 0).1),
  length-subtract_p t p_limbs 0,
)

length-limb_bytes : (t : Gf) → length (limb_bytes t) ≡ 2 * length t
unfolding limb_bytes
length-limb_bytes [] = refl
length-limb_bytes (t ∷ ts) = omega (arith, length-limb_bytes ts)

pub length-pack25519 : (n : Gf) → length (pack25519 n) ≡ 2 * length n
unfolding pack25519
length-pack25519 n =
    let c1 = car25519 n in
    let c2 = car25519 c1 in
    let c3 = car25519 c2 in
    length-limb_bytes (reduce_once (reduce_once c3))
    ∙ ap (λ k. 2 * k)
        (length-reduce_once (reduce_once c3)
          ∙ length-reduce_once c3
          ∙ length-car25519 c2
          ∙ length-car25519 c1
          ∙ length-car25519 n)

low_ℤ-lt : (z : ℤ) → low_ℤ z 8 < 2 ^ 8
unfolding low_ℤ
low_ℤ-lt (pos n) = omega arith
low_ℤ-lt (negsuc n) = omega arith

limb_bytes-IsBytes : (t : Gf) → IsBytes (limb_bytes t)
unfolding limb_bytes
limb_bytes-IsBytes [] = tt
limb_bytes-IsBytes (t ∷ ts) = (low_ℤ-lt t, (low_ℤ-lt (shr_ℤ t 8), limb_bytes-IsBytes ts))

pub pack25519-IsBytes : (n : Gf) → IsBytes (pack25519 n)
unfolding pack25519
pack25519-IsBytes n = limb_bytes-IsBytes _
