-- ===== src/Poly/Absorb.antt =====
-- The loop over the blocks of a message evaluates the polynomial of Poly1305.
use tweetnacl_modular.Base.{
  ℕ, zero, suc, ◌+◌, ◌-◌, ◌*◌, ◌/◌, ◌%◌, ◌^◌, ◌<◌, ◌≤◌, ◌≡◌, refl, ap, sym, ◌∙◌, arith, List, [],
  ◌∷◌, length, All-append, All-take, All-drop, All-replicate, take, drop, replicate, take-take,
  take_all, drop-take, inl, inr, le-or-lt, length-take, length-append, length-replicate,
  length-drop, ◌==◌, true, false, lt→ltb, le→ltb, ==_iff,
}
use native.Mathlib.Nat.{pow-le-pow_right, mod-mod, eq-zero-or-pos}
use tweetnacl_modular.Base.Mod.{mod-mul_congr, add-mod_congr}
use tweetnacl_modular.Bytes.{IsBytes}
use tweetnacl_modular.Bytes.Value.{le_value, le_value-lt, le_value-append, le_value-zeros}
use tweetnacl_modular.Poly.{add1305, product, squeeze, block_digits, absorb}
use tweetnacl_modular.Poly.Carry.{add1305_value, add1305-IsBytes, length-add1305}
use tweetnacl_modular.Poly.Product.{prime, product_bound, product_value, length-product}
use tweetnacl_modular.Poly.Squeeze.{IsReduced, squeeze_lem}
use tweetnacl_modular.Poly.Reference.{block_value, accumulate}

-- A block's digits are 17 bytes.
record IsBlock (value : ℕ) (digits : List ℕ) : Type 0 where
  bytes : IsBytes digits
  count : length digits ≡ 17
  worth : le_value digits ≡ value

block_digits-IsBlock :
    (m : List ℕ) (n : ℕ)
    → IsBytes m
    → n ≤ length m
    → 0 < n
    → IsBlock (block_value (take n m)) (block_digits m n)
unfolding block_digits block_value
block_digits-IsBlock m n hm fits some_left = elim (le-or-lt 16 n) [
  | inl whole ↦
      rw (le→ltb n 16 whole, take-take 16 n m whole)
        (record {
          bytes =
              All-append (λ b. b < 2 ^ 8) (take 16 m) _ (All-take (λ b. b < 2 ^ 8) 16 m hm)
                (omega arith, tt);
          count = omega (arith, length-append (take 16 m) (1 ∷ []), length-take 16 m);
          worth = refl;
        })
  | inr partial ↦
      rw (lt→ltb n 16 partial, take_all 16 (take n m) (omega (arith, length-take n m)))
        (record {
          bytes =
              All-append (λ b. b < 2 ^ 8) (take n m) _ (All-take (λ b. b < 2 ^ 8) n m hm)
                (omega arith, All-replicate (λ b. b < 2 ^ 8) (16 - n) 0 (omega arith));
          count = omega (
            arith,
            length-append (take n m) (1 ∷ replicate (16 - n) 0),
            length-take n m,
            length-replicate {A = ℕ} (16 - n) 0,
          );
          worth =
              le_value-append (take n m) (1 ∷ replicate (16 - n) 0)
              ∙ ap (λ t. le_value (take n m) + 256 ^ length (take n m) * (1 + 256 * t))
                  (le_value-zeros (16 - n))
              ∙ sym (le_value-append (take n m) (1 ∷ []));
        })
]

block_value-le : (m : List ℕ) → IsBytes m → block_value m ≤ 2 * 2 ^ 128
unfolding block_value
block_value-le m hm =
    let below = le_value-lt (take 16 m) (All-take (λ b. b < 2 ^ 8) 16 m hm) in
    let power =
      pow-le-pow_right {n = 256} (omega arith) {i = length (take 16 m)} {j = 16}
        (omega (arith, length-take 16 m)) in
    omega (arith, le_value-append (take 16 m) (1 ∷ []), below, power)

-- One block: add it, multiply by `r`, reduce.
step_lem :
    (h r block : List ℕ) (acc value : ℕ)
    → IsReduced h
    → IsBytes r
    → length r ≡ 17
    → IsBlock value block
    → value ≤ 2 * 2 ^ 128
    → le_value h % prime ≡ acc % prime
    → IsReduced (squeeze (product (add1305 h block) r))
      × (le_value (squeeze (product (add1305 h block) r)) % prime
          ≡ ((acc + value) * le_value r % prime) % prime)
step_lem h r block acc value v hr lr b small agrees =
    let sum = add1305 h block in
    let sum_bytes = add1305-IsBytes h block in
    let count : length sum ≡ 17 = length-add1305 h block (v.count ∙ sym b.count) ∙ v.count in
    let total : le_value sum ≡ le_value h + value = omega (
      arith,
      add1305_value h block v.digits b.bytes (v.count ∙ sym b.count)
          ∙ ap (λ n. (le_value h + le_value block) % 256 ^ n) v.count,
      b.worth,
      v.small,
    ) in
    let reduced =
      squeeze_lem (product sum r) (product_bound r hr sum sum_bytes (omega arith))
        (length-product sum r) in
    (
      reduced.0,
      reduced.1
          ∙ product_value r hr sum sum_bytes count lr
          ∙ ap (λ t. t * le_value r % prime) total
          ∙ mod-mul_congr prime (le_value r) (le_value h + value) (acc + value)
              (add-mod_congr prime (le_value h) acc value value agrees refl)
          ∙ sym (mod-mod ((acc + value) * le_value r) prime),
    )

accumulate_next :
    (n : ℕ) (m : List ℕ) (r acc : ℕ)
    → 0 < n
    → accumulate ((n + 15) / 16) (take n m) r acc
      ≡ accumulate
          ((n - 16 + 15) / 16)
          (take (n - 16) (drop 16 m))
          r
          ((acc + block_value (take n m)) * r % prime)
accumulate_next n m r acc some_left =
    let blocks : (n + 15) / 16 ≡ suc ((n - 16 + 15) / 16) = omega arith in
    let next = (acc + block_value (take n m)) * r % prime in
    ap (λ b. accumulate b (take n m) r acc) blocks
    ∙ unfold accumulate in
      ap (λ t. accumulate ((n - 16 + 15) / 16) t r next) (drop-take 16 n (n - 16) m refl)

-- `absorb` with enough fuel evaluates the polynomial of the first `n` bytes.
pub absorb_lem :
    (fuel : ℕ) (m : List ℕ) (n : ℕ) (r h : List ℕ) (acc : ℕ)
    → n ≤ 16 * fuel
    → n ≤ length m
    → IsBytes m
    → IsBytes r
    → length r ≡ 17
    → IsReduced h
    → le_value h % prime ≡ acc % prime
    → IsReduced (absorb fuel m n r h)
      × (le_value (absorb fuel m n r h) % prime
          ≡ accumulate ((n + 15) / 16) (take n m) (le_value r) acc % prime)
unfolding absorb accumulate
absorb_lem zero m n r h acc enough fits hm hr lr v agrees =
    let blocks : (n + 15) / 16 ≡ 0 = omega arith in rw blocks (v, agrees)
absorb_lem (suc fuel) m n r h acc enough fits hm hr lr v agrees = elim (eq-zero-or-pos n) [
  | inl none_left ↦
      let blocks : (n + 15) / 16 ≡ 0 = omega arith in
      let stop : (n == 0) ≡ true = (==_iff n 0).1 none_left in rw (blocks, stop) (v, agrees)
  | inr some_left ↦
      let go : (n == 0) ≡ false = ground arith in
      let value = block_value (take n m) in
      let hm' = All-take (λ b. b < 2 ^ 8) n m hm in
      let step =
        step_lem h r (block_digits m n) acc value v hr lr
          (block_digits-IsBlock m n hm fits some_left) (block_value-le (take n m) hm') agrees in
      rw (accumulate_next n m (le_value r) acc some_left, go)
        (absorb_lem fuel (drop 16 m) (n - 16) r _ ((acc + value) * le_value r % prime) (omega arith)
          (omega (arith, length-drop 16 m)) (All-drop (λ b. b < 2 ^ 8) 16 m hm) hr lr step.0 step.1)
]
