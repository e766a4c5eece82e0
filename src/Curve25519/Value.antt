-- ===== src/Curve25519/Value.antt =====
-- The number that the limbs of a field element stand for, and what the operations make of it.
use tweetnacl_modular.Base.{ℕ, zero, suc, ◌-◌, ◌^◌, ◌≡◌, ◌≢◌, refl, ap, ◌∙◌, arith, [], ◌∷◌, length}
use tweetnacl_modular.Base.Int.{ℤ, pos, pos_part, neg_part, ◌+ℤ◌, ◌-ℤ◌, ◌*ℤ◌, eq_of_parts}
use tweetnacl_modular.Base.Ring.{ring_laws}
use tweetnacl_modular.Base.Signed.{shr_ℤ, shl_ℤ}
use tweetnacl_modular.Curve25519.{Gf, carry_limbs, add_first, car25519, add_gf, sub_gf}
use tweetnacl_modular.Curve25519.Lengths.{length-carry_limbs}

-- The limbs to the base 2^16.
unfoldable pub gf_value : Gf → ℤ
gf_value [] = pos 0
gf_value (x ∷ xs) = x +ℤ pos 65536 *ℤ gf_value xs

-- `z` times the base to the power `n`.
unfoldable pub raise : ℕ → ℤ → ℤ
raise zero z = z
raise (suc n) z = pos 65536 *ℤ raise n z

carry_limbs_value :
    (o : Gf) (c : ℤ)
    → gf_value o +ℤ c ≡ gf_value (carry_limbs c o).0 +ℤ raise (length o) (carry_limbs c o).1
unfolding carry_limbs gf_value raise shl_ℤ
carry_limbs_value [] c = refl
carry_limbs_value (x ∷ xs) c =
    let raised = (x +ℤ c) +ℤ pos 65536 in
    let k = shr_ℤ raised 16 in
    let run = carry_limbs (k -ℤ pos 1) xs in
    let ih = carry_limbs_value xs (k -ℤ pos 1) in omega (ring_laws, ap pos_part ih, ap neg_part ih)

-- 2^256 - 38 is twice the prime 2^255 - 19: what agrees modulo the one agrees modulo the other.
abbrev pub double_p : ℕ
double_p = 2 ^ 256 - 38

abbrev pub Congruent : ℤ → ℤ → Type 0
Congruent a b = (k : ℤ) × (a ≡ b +ℤ pos double_p *ℤ k)

pub Congruent-refl : (a : ℤ) → Congruent a a
Congruent-refl a = (pos 0, omega ring_laws)

pub Congruent-trans : (a b c : ℤ) → Congruent a b → Congruent b c → Congruent a c
Congruent-trans a b c (k, e) (l, f) = (
  k +ℤ l,
  eq_of_parts a (c +ℤ pos double_p *ℤ (k +ℤ l))
      (omega (ring_laws, ap pos_part e, ap neg_part e, ap pos_part f, ap neg_part f)),
)

pub raise_16 : (z : ℤ) → raise 16 z ≡ pos (2 ^ 256) *ℤ z
unfolding raise
raise_16 z = omega ring_laws

gf_value-add_first : (o : Gf) (c : ℤ) → 0 ≢ length o → gf_value (add_first c o) ≡ gf_value o +ℤ c
unfolding gf_value
gf_value-add_first [] c h = absurd (h refl)
gf_value-add_first (x ∷ xs) c h = omega ring_laws

pub car25519_value : (o : Gf) → length o ≡ 16 → Congruent (gf_value o) (gf_value (car25519 o))
unfolding car25519
car25519_value o n =
    let run = carry_limbs (pos 0) o in
    let c = run.1 +ℤ pos 37 *ℤ run.1 in
    let carried = carry_limbs_value o (pos 0) in
    let last : raise (length o) run.1 ≡ pos (2 ^ 256) *ℤ run.1 =
      ap (λ k. raise k run.1) n ∙ raise_16 run.1 in
    let first = gf_value-add_first run.0 c (λ e. omega (arith, length-carry_limbs o (pos 0))) in
    (
      run.1,
      eq_of_parts (gf_value o) (gf_value (car25519 o) +ℤ pos double_p *ℤ run.1) (
          omega (
            ring_laws,
            ap pos_part carried,
            ap neg_part carried,
            ap pos_part last,
            ap neg_part last,
            ap pos_part first,
            ap neg_part first,
          )),
    )

pub add_gf_value :
    (a b : Gf) → length a ≡ length b → gf_value (add_gf a b) ≡ gf_value a +ℤ gf_value b
unfolding add_gf gf_value
add_gf_value [] [] e = omega ring_laws
add_gf_value [] (y ∷ b) e = absurd (omega arith)
add_gf_value (x ∷ a) [] e = absurd (omega arith)
add_gf_value (x ∷ a) (y ∷ b) e =
    let ih = add_gf_value a b (omega arith) in
    eq_of_parts _ _ (omega (ring_laws, ap pos_part ih, ap neg_part ih))

pub sub_gf_value :
    (a b : Gf) → length a ≡ length b → gf_value (sub_gf a b) ≡ gf_value a -ℤ gf_value b
unfolding sub_gf gf_value
sub_gf_value [] [] e = omega ring_laws
sub_gf_value [] (y ∷ b) e = absurd (omega arith)
sub_gf_value (x ∷ a) [] e = absurd (omega arith)
sub_gf_value (x ∷ a) (y ∷ b) e =
    let ih = sub_gf_value a b (omega arith) in
    eq_of_parts _ _ (omega (ring_laws, ap pos_part ih, ap neg_part ih))
