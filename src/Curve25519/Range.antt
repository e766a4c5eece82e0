-- ===== src/Curve25519/Range.antt =====
-- What `M` adds up stays in 64 bits, for limbs of 26 bits.
use native.Mathlib.Nat.{mul-le-mul}
use tweetnacl_modular.Base.{
  ℕ, suc, ◌+◌, ◌*◌, ◌≤◌, ◌≡◌, arith, [], ◌∷◌, length, All, All-take, All-drop, take_all,
  length-take, take, drop, replicate, ◌^◌,
}
use tweetnacl_modular.Base.Int.{ℤ, pos, negsuc, pos_part, neg_part, ◌+ℤ◌, ◌*ℤ◌}
use tweetnacl_modular.Curve25519.{Gf, add_row, keep_first, add_rows, fold_38, gf_of}

-- An integer from `-b` to `b`.
abbrev pub Within : ℕ → ℤ → Type 0
Within b z = (pos_part z ≤ b) × (neg_part z ≤ b)

product_le : (a b c d : ℕ) → a ≤ c → b ≤ d → a * b ≤ c * d
product_le a b c d h h' = mul-le-mul {n₁ = a} {m₁ = b} {n₂ = c} {m₂ = d} h h'

+ℤ-Within : (b c : ℕ) (x y : ℤ) → Within b x → Within c y → Within (b + c) (x +ℤ y)
unfolding ◌+ℤ◌
+ℤ-Within b c x y h h' = ground arith

*ℤ-Within : (b c : ℕ) (x y : ℤ) → Within b x → Within c y → Within (b * c) (x *ℤ y)
unfolding ◌*ℤ◌
*ℤ-Within b c (pos x) (pos y) h h' =
    let l = product_le x y b c (omega (arith, h.0)) (omega (arith, h'.0)) in ground arith
*ℤ-Within b c (pos x) (negsuc y) h h' =
    let l = product_le x (suc y) b c (omega (arith, h.0)) (omega (arith, h'.1)) in ground arith
*ℤ-Within b c (negsuc x) (pos y) h h' =
    let l = product_le (suc x) y b c (omega (arith, h.1)) (omega (arith, h'.0)) in ground arith
*ℤ-Within b c (negsuc x) (negsuc y) h h' =
    let l = product_le (suc x) (suc y) b c (omega (arith, h.1)) (omega (arith, h'.1)) in
    ground arith

Within-le : (b c : ℕ) (z : ℤ) → b ≤ c → Within b z → Within c z
Within-le b c z l h = (omega (arith, h.0), omega (arith, h.1))

All-Within-le : (b c : ℕ) (zs : Gf) → b ≤ c → All (Within b) zs → All (Within c) zs
All-Within-le b c [] l h = h
All-Within-le b c (z ∷ zs) l h = (Within-le b c z l h.0, All-Within-le b c zs l h.1)

add_row-Within :
    (c k m : ℕ) (a : ℤ) (b t : Gf)
    → Within c a
    → All (Within k) b
    → All (Within m) t
    → All (Within (m + c * k)) (add_row a b t)
unfolding add_row
add_row-Within c k m a [] [] ha hb ht = ht
add_row-Within c k m a [] (t ∷ ts) ha hb ht =
    (Within-le m (m + c * k) t (omega arith) ht.0, add_row-Within c k m a [] ts ha hb ht.1)
add_row-Within c k m a (b ∷ bs) [] ha hb ht = ht
add_row-Within c k m a (b ∷ bs) (t ∷ ts) ha hb ht = (
  +ℤ-Within m (c * k) t (a *ℤ b) ht.0 (*ℤ-Within c k a b ha hb.0),
  add_row-Within c k m a bs ts ha hb.1 ht.1,
)

keep_first-Within :
    (b c : ℕ) (t : Gf) (f : Gf → Gf)
    → b ≤ c
    → All (Within b) t
    → ((us : Gf) → All (Within b) us → All (Within c) (f us))
    → All (Within c) (keep_first t f)
keep_first-Within b c [] f l h rest = h
keep_first-Within b c (t ∷ ts) f l h rest = (Within-le b c t l h.0, rest ts h.1)

add_rows-Within :
    (c k m : ℕ) (a b t : Gf)
    → All (Within c) a
    → All (Within k) b
    → All (Within m) t
    → All (Within (m + length a * (c * k))) (add_rows a b t)
unfolding add_rows
add_rows-Within c k m [] b t ha hb ht = All-Within-le m (m + 0 * (c * k)) t (omega arith) ht
add_rows-Within c k m (a ∷ later) b t ha hb ht =
    keep_first-Within (m + c * k) (m + suc (length later) * (c * k)) (add_row a b t)
      (λ ts. add_rows later b ts) (omega arith) (add_row-Within c k m a b t ha.0 hb ht)
      (λ us hu.
        All-Within-le (m + c * k + length later * (c * k)) (m + suc (length later) * (c * k))
          (add_rows later b us) (omega arith)
          (add_rows-Within c k (m + c * k) later b us ha.1 hb hu))

fold_38-Within :
    (m : ℕ) (t h : Gf)
    → All (Within m) t
    → All (Within m) h
    → All (Within (m + 38 * m)) (fold_38 t h)
unfolding fold_38
fold_38-Within m [] h ht hh = ht
fold_38-Within m (t ∷ ts) [] ht hh = All-Within-le m (m + 38 * m) (t ∷ ts) (omega arith) ht
fold_38-Within m (t ∷ ts) (h ∷ hs) ht hh = (
  +ℤ-Within m (38 * m) t (pos 38 *ℤ h) ht.0
      (*ℤ-Within 38 m (pos 38) h (omega arith, omega arith) hh.0),
  fold_38-Within m ts hs ht.1 hh.1,
)

-- The 31 sums after each number of rows, and the 16 that are folded, for limbs of 26 bits.
pub product-Within :
    (a b : Gf)
    → length a ≡ 16
    → All (Within (2 ^ 26)) a
    → All (Within (2 ^ 26)) b
    → let zeros = gf_of (replicate 31 0) in
      let t = add_rows a b zeros in
      ((rows : ℕ) → All (Within (2 ^ 56)) (add_rows (take rows a) b zeros))
      × All (Within (2 ^ 62)) (fold_38 (take 16 t) (drop 16 t))
product-Within a b size ha hb =
    let zeros : Gf = gf_of (replicate 31 0) in
    let none_set : All (Within 0) zeros = ground arith in
    let t = add_rows a b zeros in
    let sums : (rows : ℕ) → All (Within (2 ^ 56)) (add_rows (take rows a) b zeros) = λ rows.
      let later = take rows a in
      All-Within-le (0 + length later * (2 ^ 26 * 2 ^ 26)) (2 ^ 56) (add_rows later b zeros)
        (omega (arith, length-take rows a))
        (add_rows-Within (2 ^ 26) (2 ^ 26) 0 later b zeros (All-take (Within (2 ^ 26)) rows a ha) hb
          none_set) in
    let whole : All (Within (2 ^ 56)) t = rw (← take_all 16 a (omega (arith, size))) (sums 16) in
    let low = All-take (Within (2 ^ 56)) 16 t whole in
    let high = All-drop (Within (2 ^ 56)) 16 t whole in
    (
      sums,
      All-Within-le (2 ^ 56 + 38 * 2 ^ 56) (2 ^ 62) (fold_38 (take 16 t) (drop 16 t)) (omega arith)
          (fold_38-Within (2 ^ 56) (take 16 t) (drop 16 t) low high),
    )
