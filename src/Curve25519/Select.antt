-- ===== src/Curve25519/Select.antt =====
-- `sel25519` exchanges two field elements or leaves them, by its bit.
use tweetnacl_modular.Base.{
  ℕ, ◌^◌, ◌<◌, ◌≡◌, refl, ap, ap₂, ◌∙◌, arith, [], ◌∷◌, length, All, bit_xor,
}
use tweetnacl_modular.Base.Int.{ℤ, pos, negsuc}
use tweetnacl_modular.Base.Signed.{low_ℤ, word_ℤ, signed64}
use tweetnacl_modular.Bits.{
  mask-bit_and, zero-bit_and, bit_xor-zero, bit_xor_swap, bit_xor_comm, bit_xor-lt,
}
use tweetnacl_modular.Curve25519.{Gf, select_limbs, sel25519}

-- A limb fits an `i64`.
abbrev pub IsI64 : ℤ → Type 0
IsI64 (pos n) = n < 2 ^ 63
IsI64 (negsuc n) = n < 2 ^ 63

word_ℤ-lt : (z : ℤ) → word_ℤ z < 2 ^ 64
unfolding word_ℤ low_ℤ
word_ℤ-lt (pos n) = omega arith
word_ℤ-lt (negsuc n) = omega arith

pub signed64-word_ℤ : (z : ℤ) → IsI64 z → signed64 (word_ℤ z) ≡ z
unfolding word_ℤ low_ℤ signed64
signed64-word_ℤ (pos n) h = ground arith
signed64-word_ℤ (negsuc n) h = ground arith

select_limbs_same : (p q : ℤ) → IsI64 p → IsI64 q → select_limbs 0 p q ≡ (p, q)
unfolding select_limbs
select_limbs_same p q hp hq =
    rw
      (
        zero-bit_and (bit_xor (word_ℤ p) (word_ℤ q)),
        bit_xor-zero (word_ℤ p),
        bit_xor-zero (word_ℤ q),
        signed64-word_ℤ p hp,
        signed64-word_ℤ q hq,
      )
      refl

select_limbs_swap : (p q : ℤ) → IsI64 p → IsI64 q → select_limbs 1 p q ≡ (q, p)
unfolding select_limbs
select_limbs_swap p q hp hq =
    let a = word_ℤ p in
    let b = word_ℤ q in
    rw
      (
        mask-bit_and 64 (bit_xor a b) (bit_xor-lt 64 a b (word_ℤ-lt p) (word_ℤ-lt q)),
        bit_xor_swap a b,
        ap (bit_xor a) (bit_xor_comm a b) ∙ bit_xor_swap b a,
        signed64-word_ℤ p hp,
        signed64-word_ℤ q hq,
      )
      refl

abbrev join : ℤ × ℤ → Gf × Gf → Gf × Gf
join one rest = (one.0 ∷ rest.0, one.1 ∷ rest.1)

sel25519-cons :
    (x y : ℤ) (p q : Gf) (b : ℕ)
    → sel25519 (x ∷ p) (y ∷ q) b ≡ join (select_limbs b x y) (sel25519 p q b)
unfolding sel25519
sel25519-cons x y p q b = refl

-- For two field elements of as many limbs, each an integer of 64 bits, `sel25519` leaves them as
-- they are if its bit is 0, and exchanges them if it is 1.
pub sel25519_lem :
    (p q : Gf)
    → length p ≡ length q
    → All IsI64 p
    → All IsI64 q
    → (sel25519 p q 0 ≡ (p, q)) × (sel25519 p q 1 ≡ (q, p))
sel25519_lem [] [] e hp hq = unfold sel25519 in (refl, refl)
sel25519_lem [] (y ∷ q) e hp hq = absurd (omega arith)
sel25519_lem (x ∷ p) [] e hp hq = absurd (omega arith)
sel25519_lem (x ∷ p) (y ∷ q) e hp hq =
    let ih = sel25519_lem p q (omega arith) hp.1 hq.1 in
    (
      sel25519-cons x y p q 0 ∙ ap₂ join (select_limbs_same x y hp.0 hq.0) ih.0,
      sel25519-cons x y p q 1 ∙ ap₂ join (select_limbs_swap x y hp.0 hq.0) ih.1,
    )
