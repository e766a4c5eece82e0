-- ===== src/Curve25519/Product.antt =====
-- `M` multiplies, modulo twice the prime.
use tweetnacl_modular.Base.{
  ℕ, zero, suc, ◌+◌, ◌≤◌, ◌<◌, ◌^◌, All, ◌≡◌, refl, sym, ap, ◌∙◌, arith, [], ◌∷◌, length, take,
  drop, replicate, length-take, length-drop,
}
use tweetnacl_modular.Base.Int.{ℤ, pos, pos_part, neg_part, ◌+ℤ◌, ◌*ℤ◌, eq_of_parts}
use tweetnacl_modular.Base.Ring.{*ℤ-+ℤ, +ℤ-*ℤ, *ℤ-scaled, *ℤ_assoc, *ℤ-zero, *ℤ_comm, ring_laws}
use tweetnacl_modular.Curve25519.{
  Gf, gf_of, car25519, add_row, keep_first, add_rows, fold_38, mul_gf,
}
use tweetnacl_modular.Curve25519.Lengths.{
  length-add_rows, length-fold_38, length-car25519, length-add_row,
}
use tweetnacl_modular.Curve25519.Range.{Within, product-Within}
use tweetnacl_modular.Curve25519.Value.{
  gf_value, raise, raise_16, car25519_value, Congruent, Congruent-trans,
}

add_row_value :
    (a : ℤ) (b t : Gf)
    → length b ≤ length t
    → gf_value (add_row a b t) ≡ gf_value t +ℤ a *ℤ gf_value b
unfolding add_row gf_value
add_row_value a [] t h =
    let nothing = *ℤ-zero a in
    eq_of_parts _ _ (omega (ring_laws, ap pos_part nothing, ap neg_part nothing))
add_row_value a (b ∷ bs) [] h = absurd (omega arith)
add_row_value a (b ∷ bs) (t ∷ ts) h =
    let ih = add_row_value a bs ts (omega arith) in
    let split : a *ℤ (b +ℤ pos 65536 *ℤ gf_value bs) ≡ a *ℤ b +ℤ pos 65536 *ℤ (a *ℤ gf_value bs) =
      *ℤ-+ℤ a b (pos 65536 *ℤ gf_value bs)
      ∙ ap (λ t. a *ℤ b +ℤ t) (*ℤ-scaled a (pos 65536) (gf_value bs)) in
    eq_of_parts _ _
      (omega (ring_laws, ap pos_part ih, ap neg_part ih, ap pos_part split, ap neg_part split))

-- A step on the limbs from the next on counts 2^16-fold.
keep_first_value :
    (u : Gf) (z : ℤ) (f : Gf → Gf)
    → 0 < length u
    → ((us : Gf) → suc (length us) ≡ length u → gf_value (f us) ≡ gf_value us +ℤ z)
    → gf_value (keep_first u f) ≡ gf_value u +ℤ pos 65536 *ℤ z
unfolding gf_value
keep_first_value [] z f h step = absurd (omega arith)
keep_first_value (u ∷ us) z f h step =
    let rest = step us refl in
    eq_of_parts _ _ (omega (ring_laws, ap pos_part rest, ap neg_part rest))

value-cons : (x : ℤ) (xs : Gf) → gf_value (x ∷ xs) ≡ x +ℤ pos 65536 *ℤ gf_value xs
unfolding gf_value
value-cons x xs = refl

add_rows_value :
    (a b t : Gf)
    → 0 < length b
    → length a + length b ≤ suc (length t)
    → gf_value (add_rows a b t) ≡ gf_value t +ℤ gf_value a *ℤ gf_value b
unfolding add_rows
add_rows_value [] b t some_limbs h =
    let nothing : gf_value [] *ℤ gf_value b ≡ pos 0 =
      unfold gf_value in *ℤ_comm (pos 0) (gf_value b) ∙ *ℤ-zero (gf_value b) in
    eq_of_parts _ _ (omega (ring_laws, ap pos_part nothing, ap neg_part nothing))
add_rows_value (a ∷ later) b t some_limbs h =
    let z = gf_value later *ℤ gf_value b in
    let u = add_row a b t in
    let row = add_row_value a b t (omega arith) in
    let size = length-add_row a b t in
    let rest =
      keep_first_value u z (λ ts. add_rows later b ts) (omega (arith, size))
        (λ ts e. add_rows_value later b ts some_limbs (omega (arith, size))) in
    let split : (a +ℤ pos 65536 *ℤ gf_value later) *ℤ gf_value b
        ≡ a *ℤ gf_value b +ℤ pos 65536 *ℤ z =
      +ℤ-*ℤ a (pos 65536 *ℤ gf_value later) (gf_value b)
      ∙ ap (λ t. a *ℤ gf_value b +ℤ t) (sym (*ℤ_assoc (pos 65536) (gf_value later) (gf_value b))) in
    rw (value-cons a later) (
      eq_of_parts _ _ (
        omega (
          ring_laws,
          ap pos_part rest,
          ap neg_part rest,
          ap pos_part row,
          ap neg_part row,
          ap pos_part split,
          ap neg_part split,
        )))

fold_38_value :
    (t h : Gf) → length h ≤ length t → gf_value (fold_38 t h) ≡ gf_value t +ℤ pos 38 *ℤ gf_value h
unfolding fold_38 gf_value
fold_38_value [] [] e = omega ring_laws
fold_38_value [] (h ∷ hs) e = absurd (omega arith)
fold_38_value (t ∷ ts) [] e = omega ring_laws
fold_38_value (t ∷ ts) (h ∷ hs) e =
    let ih = fold_38_value ts hs (omega arith) in
    eq_of_parts _ _ (omega (ring_laws, ap pos_part ih, ap neg_part ih))

split_value :
    (n : ℕ) (t : Gf)
    → n ≤ length t
    → gf_value t ≡ gf_value (take n t) +ℤ raise n (gf_value (drop n t))
unfolding gf_value raise
split_value zero t h = omega ring_laws
split_value (suc n) [] h = absurd (omega arith)
split_value (suc n) (t ∷ ts) h =
    let ih = split_value n ts (omega arith) in
    eq_of_parts _ _ (omega (ring_laws, ap pos_part ih, ap neg_part ih))

zero_value : gf_value (gf_of (replicate 31 0)) ≡ pos 0
unfolding gf_value ◌+ℤ◌ ◌*ℤ◌
zero_value = refl

-- For two field elements of 16 limbs, each from -2^26 to 2^26: the 31 sums of `M` are between -2^56
-- and 2^56 after each number of rows, and the 16 that are folded between -2^62 and 2^62, so that 64
-- bits hold them; and `M` gives limbs whose number is the product of theirs modulo 2^256 - 38, twice the prime of the field.
pub mul_gf_value :
    (a b : Gf)
    → length a ≡ 16
    → length b ≡ 16
    → All (Within (2 ^ 26)) a
    → All (Within (2 ^ 26)) b
    → let zeros = gf_of (replicate 31 0) in
      let t = add_rows a b zeros in
      ((rows : ℕ) → All (Within (2 ^ 56)) (add_rows (take rows a) b zeros))
      × All (Within (2 ^ 62)) (fold_38 (take 16 t) (drop 16 t))
      × Congruent (gf_value a *ℤ gf_value b) (gf_value (mul_gf a b))
unfolding mul_gf
mul_gf_value a b na nb ha hb =
    let zeros = gf_of (replicate 31 0) in
    let t = add_rows a b zeros in
    let long : length t ≡ 31 = length-add_rows a b zeros in
    let low = take 16 t in
    let high = drop 16 t in
    let size : length low ≡ 16 = omega (arith, length-take 16 t) in
    let folded = fold_38 low high in
    let fold = fold_38_value low high (omega (arith, length-drop 16 t)) in
    let parts : gf_value t ≡ gf_value low +ℤ raise 16 (gf_value high) =
      split_value 16 t (omega arith) in
    let raised = raise_16 (gf_value high) in
    let product = add_rows_value a b zeros (omega arith) (omega arith) in
    let first : Congruent (gf_value a *ℤ gf_value b) (gf_value folded) = (
      gf_value high,
      eq_of_parts _ _ (
          omega (
            ring_laws,
            ap pos_part fold,
            ap neg_part fold,
            ap pos_part parts,
            ap neg_part parts,
            ap pos_part raised,
            ap neg_part raised,
            ap pos_part product,
            ap neg_part product,
            ap pos_part zero_value,
            ap neg_part zero_value,
          )),
    ) in
    let count : length folded ≡ 16 = length-fold_38 low high ∙ size in
    let second = car25519_value folded count in
    let third = car25519_value (car25519 folded) (length-car25519 folded ∙ count) in
    let range = product-Within a b na ha hb in
    (
      range.0,
      range.1,
      Congruent-trans _ (gf_value folded) _ first
          (Congruent-trans _ (gf_value (car25519 folded)) _ second third),
    )
