-- ===== src/Stream/Keystream.antt =====
-- The cipher's loop is the message combined with one long keystream, block by block.
use tweetnacl_modular.Base.{
  ℕ, zero, suc, ◌+◌, ◌-◌, ◌*◌, ◌<◌, ◌≤◌, ◌≡◌, inl, inr, refl, ap, ap₂, sym, ◌∙◌, arith, List, [],
  ◌∷◌, ◌++◌, length, drop, get_or, bit_xor, Bool-cases, leb, leb→le, ◌==◌, ==_iff,
}
use tweetnacl_modular.Memory.{Ptr, null, at, advance}
use tweetnacl_modular.Salsa.{sigma}
use tweetnacl_modular.Salsa.Reference.{salsa20, sums}
use tweetnacl_modular.Bytes.{st32}
use tweetnacl_modular.Salsa.Output.{crypto_core_salsa20-salsa20}
use tweetnacl_modular.Stream.{source, xor_bytes, stream_loop}
use tweetnacl_modular.Stream.Counter.{increment-le_bytes}
use tweetnacl_modular.Bytes.Value.{le_bytes}

-- `count` blocks of the Salsa20 keystream from block number `j` on.
unfoldable pub keystream : ℕ → List ℕ → ℕ → List ℕ → List ℕ
keystream zero nonce j k = []
keystream (suc count) nonce j k =
    salsa20 (nonce ++ le_bytes 8 j) k sigma ++ keystream count nonce (j + 1) k

pub length-salsa20 : (inp k c : List ℕ) → length (salsa20 inp k c) ≡ 64
unfolding salsa20 sums st32
length-salsa20 inp k c = refl

-- What the loop reads `i` bytes on from `m` and `x` is what it reads from there on.
pub xor_bytes-suc :
    (n i : ℕ) (m : Ptr) (x : List ℕ)
    → xor_bytes n (suc i) m x ≡ xor_bytes n i (advance 1 m) (drop 1 x)
unfolding xor_bytes
xor_bytes-suc zero i m x = refl
xor_bytes-suc (suc n) i null [] = ap (◌∷◌ (bit_xor 0 0)) (xor_bytes-suc n (suc i) null [])
xor_bytes-suc (suc n) i null (a ∷ x) =
    ap (◌∷◌ (bit_xor 0 (get_or x i 0))) (xor_bytes-suc n (suc i) null (a ∷ x))
xor_bytes-suc (suc n) i (at p []) [] = ap (◌∷◌ (bit_xor 0 0)) (xor_bytes-suc n (suc i) (at p []) [])
xor_bytes-suc (suc n) i (at p []) (a ∷ x) =
    ap (◌∷◌ (bit_xor 0 (get_or x i 0))) (xor_bytes-suc n (suc i) (at p []) (a ∷ x))
xor_bytes-suc (suc n) i (at p (b ∷ m)) [] =
    ap (◌∷◌ (bit_xor (get_or m i 0) 0)) (xor_bytes-suc n (suc i) (at p (b ∷ m)) [])
xor_bytes-suc (suc n) i (at p (b ∷ m)) (a ∷ x) =
    ap (◌∷◌ (bit_xor (get_or m i 0) (get_or x i 0)))
      (xor_bytes-suc n (suc i) (at p (b ∷ m)) (a ∷ x))

advance-suc : (n : ℕ) (m : Ptr) → advance n (advance 1 m) ≡ advance (suc n) m
advance-suc n null = refl
advance-suc n (at p []) = ap₂ at (omega arith) (empty n)
  where
    empty : (n : ℕ) → drop {A = ℕ} n [] ≡ []
    empty zero = refl
    empty (suc n) = refl
advance-suc n (at p (b ∷ bs)) = ap (λ q. at q (drop n bs)) (omega arith)

-- A whole block and what follows it are one pass over the joined keystream.
xor_bytes_join :
    (n q : ℕ) (m : Ptr) (x y : List ℕ)
    → length x ≡ n
    → xor_bytes n 0 m x ++ xor_bytes q 0 (advance n m) y ≡ xor_bytes (n + q) 0 m (x ++ y)
unfolding xor_bytes
xor_bytes_join zero q null [] y h =
    let e : q ≡ 0 + q = omega arith in ap (λ t. xor_bytes t 0 null y) e
xor_bytes_join zero q (at p bs) [] y h =
    let e : q ≡ 0 + q = omega arith in
    let e' : p + 0 ≡ p = omega arith in ap₂ (λ t r. xor_bytes t 0 (at r bs) y) e e'
xor_bytes_join zero q m (a ∷ x) y h = absurd (omega arith)
xor_bytes_join (suc n) q m [] y h = absurd (omega arith)
xor_bytes_join (suc n) q m (a ∷ x) y h =
    ap₂ (λ s t. (bit_xor (source m 0) a ∷ s) ++ xor_bytes q 0 t y) (xor_bytes-suc n 0 m (a ∷ x))
      (sym (advance-suc n m))
    ∙ ap (◌∷◌ (bit_xor (source m 0) a)) (
        xor_bytes_join n q (advance 1 m) x y (omega arith)
        ∙ sym (xor_bytes-suc (n + q) 0 m (a ∷ x ++ y)))
    ∙ (let e : suc (n + q) ≡ suc n + q = omega arith in ap (λ t. xor_bytes t 0 m (a ∷ x ++ y)) e)

-- A pass reads no more of the keystream than it has rounds.
xor_bytes_prefix :
    (n : ℕ) (m : Ptr) (x y : List ℕ) → n ≤ length x → xor_bytes n 0 m x ≡ xor_bytes n 0 m (x ++ y)
unfolding xor_bytes
xor_bytes_prefix zero m x y h = refl
xor_bytes_prefix (suc n) m [] y h = absurd (omega arith)
xor_bytes_prefix (suc n) m (a ∷ x) y h = ap (◌∷◌ (bit_xor (source m 0) a)) (
    xor_bytes-suc n 0 m (a ∷ x)
    ∙ xor_bytes_prefix n (advance 1 m) x y (omega arith)
    ∙ sym (xor_bytes-suc n 0 m (a ∷ x ++ y)))

-- With fuel for more than `b` bytes, the loop that starts on a nonce of 8 bytes and block number
-- `j` combines `b` bytes with the keystream from that block on.
pub stream_loop-keystream :
    (fuel b : ℕ) (m : Ptr) (nonce k : List ℕ) (j : ℕ)
    → length nonce ≡ 8
    → b < 64 * fuel
    → stream_loop fuel b m (nonce ++ le_bytes 8 j) k ≡ xor_bytes b 0 m (keystream fuel nonce j k)
unfolding stream_loop keystream xor_bytes
stream_loop-keystream zero b m nonce k j h f = absurd (omega arith)
stream_loop-keystream (suc fuel) b m nonce k j h f =
    let z = nonce ++ le_bytes 8 j in
    let block = salsa20 z k sigma in
    let later = keystream fuel nonce (j + 1) k in
    let len = length-salsa20 z k sigma in
    rw (crypto_core_salsa20-salsa20 z k sigma) (elim (Bool-cases (leb 64 b)) [
      | inl full ↦ rw full (
          let whole : 64 + (b - 64) ≡ b = omega (arith, leb→le 64 b full) in
          ap (λ t. xor_bytes 64 0 m block ++ stream_loop fuel (b - 64) (advance 64 m) t k)
            (increment-le_bytes nonce j h)
          ∙ ap (◌++◌ (xor_bytes 64 0 m block))
              (stream_loop-keystream fuel (b - 64) (advance 64 m) nonce k (j + 1) h (omega arith))
          ∙ xor_bytes_join 64 (b - 64) m block later len
          ∙ ap (λ t. xor_bytes t 0 m (block ++ later)) whole)
      | inr short ↦ rw short (elim (Bool-cases (b == 0)) [
        | inl none_left ↦ rw none_left (rw ((==_iff b 0).0 none_left) refl)
        | inr some_left ↦ rw some_left (xor_bytes_prefix b m block later (ground (arith, len)))
      ])
    ])
