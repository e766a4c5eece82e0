-- ===== src/Poly/Freeze.antt =====
-- The last reduction, `freeze`, gives the remainder itself.
use tweetnacl_modular.Base.{
  ℕ, ◌+◌, ◌-◌, ◌%◌, ◌^◌, ◌<◌, ◌≤◌, ◌≡◌, refl, ap, ap₂, sym, ◌∙◌, arith, bit_xor, List, [], ◌∷◌,
  length, All-get_or, All-take, take, get_or, length-take, inl, inr, le-or-lt,
}
use tweetnacl_modular.Bits.{bit_xor-lt, bit_xor_swap, mask-bit_and, zero-bit_and, bit_xor-zero}
use tweetnacl_modular.Word.{sub32, ◌>>◌}
use tweetnacl_modular.Bytes.{IsBytes}
use tweetnacl_modular.Bytes.Value.{le_value, le_value-lt}
use tweetnacl_modular.Poly.{add1305, minusp, select_digits, freeze}
use tweetnacl_modular.Poly.Carry.{add1305_value, add1305-IsBytes, length-add1305}
use tweetnacl_modular.Poly.Product.{prime}
use tweetnacl_modular.Poly.Squeeze.{split_last, IsReduced}

-- A clear mask keeps the second number, a set one takes the first.
select_digits-keep : (g h : List ℕ) → length g ≡ length h → select_digits 0 g h ≡ h
unfolding select_digits
select_digits-keep [] [] e = refl
select_digits-keep [] (b ∷ h) e = absurd (omega arith)
select_digits-keep (a ∷ g) [] e = absurd (omega arith)
select_digits-keep (a ∷ g) (b ∷ h) e =
    ap₂ ◌∷◌ (rw (zero-bit_and (bit_xor a b)) (bit_xor-zero b))
      (select_digits-keep g h (omega arith))

select_digits-take :
    (g h : List ℕ)
    → IsBytes g
    → IsBytes h
    → length g ≡ length h
    → select_digits (2 ^ 32 - 1) g h ≡ g
unfolding select_digits
select_digits-take [] [] hg hh e = refl
select_digits-take [] (b ∷ h) hg hh e = absurd (omega arith)
select_digits-take (a ∷ g) [] hg hh e = absurd (omega arith)
select_digits-take (a ∷ g) (b ∷ h) hg hh e =
    let byte = bit_xor-lt 8 a b hg.0 hh.0 in
    ap₂ ◌∷◌ (rw (mask-bit_and 32 (bit_xor a b) (omega arith)) (bit_xor_swap a b))
      (select_digits-take g h hg.1 hh.1 (omega arith))

minusp-IsBytes : IsBytes minusp
minusp-IsBytes = ground arith

-- The digits of the last reduction.
pub record IsFrozen (g : List ℕ) (result : List ℕ) : Type 0 where
  pub digits : IsBytes result
  pub count : length result ≡ 17
  pub value : le_value result ≡ le_value g % prime

module _ (g : List ℕ) (v : IsReduced g) where
  abbrev less : List ℕ
  less = add1305 g minusp

  count_less : length less ≡ 17
  count_less = length-add1305 g minusp v.count ∙ v.count

  less-IsBytes : IsBytes less
  less-IsBytes = add1305-IsBytes g minusp

  value_less : le_value less ≡ (le_value g + (2 ^ 136 - prime)) % 2 ^ 136
  value_less =
      add1305_value g minusp v.digits minusp-IsBytes v.count
      ∙ ap (λ n. (le_value g + (2 ^ 136 - prime)) % 256 ^ n) v.count

  low_less : le_value (take 16 less) < 256 ^ 16
  low_less =
      rw (length-take 16 less, count_less) at
        (le_value-lt (take 16 less) (All-take (λ b. b < 2 ^ 8) 16 less less-IsBytes))

  freeze-IsFrozen_above : prime ≤ le_value g → IsFrozen g (freeze g)
  freeze-IsFrozen_above above =
      let last : get_or less 16 0 ≡ 0 =
        omega (arith, v.small, value_less, split_last 16 less count_less) in
      let result : freeze g ≡ less =
        unfold freeze in rw last (select_digits-keep g less (v.count ∙ sym count_less)) in
      rw result (record {
        digits = less-IsBytes;
        count = count_less;
        value = omega (arith, v.small, value_less);
      })

  freeze-IsFrozen_below : le_value g < prime → IsFrozen g (freeze g)
  freeze-IsFrozen_below below =
      let last : sub32 0 (get_or less 16 0 >> 7) ≡ 2 ^ 32 - 1 = omega (
        arith,
        value_less,
        split_last 16 less count_less,
        low_less,
        All-get_or (λ b. b < 2 ^ 8) less 16 0 (omega arith) less-IsBytes,
      ) in
      let result : freeze g ≡ g =
        unfold freeze in
        rw last (select_digits-take g less v.digits less-IsBytes (v.count ∙ sym count_less)) in
      rw result (record { digits = v.digits; count = v.count; value = omega arith })

-- On 17 bytes with a value below 2 ^ 130 + 2 ^ 30, `freeze` gives 17 bytes with the remainder of
-- that value modulo 2 ^ 130 - 5.
pub freeze_lem : (g : List ℕ) → IsReduced g → IsFrozen g (freeze g)
freeze_lem g v = elim (le-or-lt prime (le_value g)) [
  | inl above ↦ freeze-IsFrozen_above g v above
  | inr below ↦ freeze-IsFrozen_below g v below
]
