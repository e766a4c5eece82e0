-- ===== src/Poly/Tag.antt =====
-- `tag` computes Poly1305.
use tweetnacl_modular.Base.{
  ℕ, zero, suc, ◌+◌, ◌*◌, ◌/◌, ◌%◌, ◌^◌, ◌<◌, ◌≤◌, ◌≡◌, refl, ap, ap₂, sym, ◌∙◌, arith, bit_and,
  List, [], ◌∷◌, ◌++◌, length, All-append, All-take, All-drop, take, drop, replicate, take-take,
  drop-take, length-take, length-append, length-drop,
}
use native.Mathlib.Nat.{mod-eq_of_lt}
use tweetnacl_modular.Bytes.{IsBytes}
use tweetnacl_modular.Bytes.Value.{
  le_value, le_value-append, le_value-take, le_bytes, eq-le_bytes, length-le_bytes,
  le_bytes-IsBytes,
}
use tweetnacl_modular.Poly.{add1305, clamp, absorb, freeze, tag}
use tweetnacl_modular.Poly.Carry.{add1305_value, add1305-IsBytes, length-add1305}
use tweetnacl_modular.Poly.Product.{prime}
use tweetnacl_modular.Poly.Squeeze.{IsReduced}
use tweetnacl_modular.Poly.Freeze.{freeze_lem}
use tweetnacl_modular.Poly.Reference.{block_value, accumulate, poly1305, clamp_mask}
use tweetnacl_modular.Poly.Clamp.{clamp_value, clamp-IsBytes, length-clamp}
use tweetnacl_modular.Poly.Absorb.{absorb_lem}

accumulate-lt :
    (blocks : ℕ) (m : List ℕ) (r acc : ℕ) → acc < prime → accumulate blocks m r acc < prime
unfolding accumulate
accumulate-lt zero m r acc h = h
accumulate-lt (suc blocks) m r acc h =
    accumulate-lt blocks (drop 16 m) r ((acc + block_value m) * r % prime) (omega arith)

zeros-IsReduced : IsReduced (replicate 17 0)
zeros-IsReduced = record { digits = ground arith; count = refl; small = omega arith }

module _ (m : List ℕ) (n : ℕ) (k : List ℕ) (hm : IsBytes m) (fits : n ≤ length m) (hk : IsBytes k)
    (long : 32 ≤ length k) where
  abbrev half : List ℕ
  half = take 16 (drop 16 k)

  half-IsBytes : IsBytes half
  half-IsBytes = All-take (λ b. b < 2 ^ 8) 16 (drop 16 k) (All-drop (λ b. b < 2 ^ 8) 16 k hk)

  count_half : length half ≡ 16
  count_half = omega (arith, length-take 16 (drop 16 k), length-drop 16 k)

  abbrev mixed : List ℕ
  mixed = absorb (n / 16 + 1) m n (clamp k) (replicate 17 0)

  abbrev total : ℕ
  total = accumulate ((n + 15) / 16) (take n m) (bit_and (le_value (take 16 k)) clamp_mask) 0

  mixed_lem : IsReduced mixed × (le_value mixed % prime ≡ total)
  mixed_lem =
      let short : 16 ≤ length k = omega arith in
      let done =
        absorb_lem (n / 16 + 1) m n (clamp k) (replicate 17 0) 0 (omega arith) fits hm
          (clamp-IsBytes k hk short) (length-clamp k hk short) zeros-IsReduced refl in
      (
        done.0,
        done.1
            ∙ mod-eq_of_lt
                (accumulate-lt ((n + 15) / 16) (take n m) (le_value (clamp k)) 0 (omega arith))
            ∙ ap (λ r. accumulate ((n + 15) / 16) (take n m) r 0) (clamp_value k hk short),
      )

  -- `tag` is Poly1305 of the first `n` bytes of the message, whatever the message's length.
  pub tag-poly1305 : tag m n k ≡ poly1305 (take n m) k
  unfolding tag poly1305
  tag-poly1305 =
      let v = freeze_lem mixed mixed_lem.0 in
      let last = half ++ 0 ∷ [] in
      let last_bytes = All-append (λ b. b < 2 ^ 8) half (0 ∷ []) half-IsBytes (omega arith, tt) in
      let same : length (freeze mixed) ≡ length last =
        v.count ∙ omega (arith, length-append half (0 ∷ []), count_half) in
      let sum = add1305 (freeze mixed) last in
      let sum_bytes = add1305-IsBytes (freeze mixed) last in
      let count : length sum ≡ 17 = length-add1305 (freeze mixed) last same ∙ v.count in
      let worth : le_value sum ≡ (total + le_value half) % 256 ^ 17 =
        add1305_value (freeze mixed) last v.digits last_bytes same
        ∙ ap₂ (λ a b. (le_value (freeze mixed) + a) % 256 ^ b)
            (le_value-append half (0 ∷ []) ∙ omega arith) v.count
        ∙ ap (λ a. (a + le_value half) % 256 ^ 17) (v.value ∙ mixed_lem.1) in
      let len : length (take n m) ≡ n = omega (arith, length-take n m) in
      rw len (
        eq-le_bytes 16 (total + le_value half) (take 16 sum)
          (All-take (λ b. b < 2 ^ 8) 16 sum sum_bytes) (omega (arith, length-take 16 sum))
          (le_value-take 16 sum sum_bytes (omega arith) ∙ omega (arith, worth)))

pub length-poly1305 : (m k : List ℕ) → length (poly1305 m k) ≡ 16
unfolding poly1305
length-poly1305 m k = length-le_bytes 16 _

pub poly1305-IsBytes : (m k : List ℕ) → IsBytes (poly1305 m k)
unfolding poly1305
poly1305-IsBytes m k = le_bytes-IsBytes 16 _

-- Only the first 32 bytes of a key count.
pub poly1305-take : (m k : List ℕ) → poly1305 m k ≡ poly1305 m (take 32 k)
unfolding poly1305
poly1305-take m k =
    let low : take 16 k ≡ take 16 (take 32 k) = sym (take-take 16 32 k (omega arith)) in
    let high : take 16 (drop 16 k) ≡ take 16 (drop 16 (take 32 k)) =
      sym (ap (take 16) (drop-take 16 32 16 k refl) ∙ take-take 16 16 (drop 16 k) (omega arith)) in
    ap₂
      (λ a b.
        le_bytes 16
          (accumulate ((length m + 15) / 16) m (bit_and (le_value a) clamp_mask) 0 + le_value b))
      low high
