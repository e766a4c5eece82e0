-- ===== src/Sha512/Padding.antt =====
-- `crypto_hash` pads as FIPS 180-4 does, and hashes the padded message.
use tweetnacl_modular.Base.{
  ℕ, zero, suc, ◌+◌, ◌-◌, ◌*◌, ◌/◌, ◌%◌, ◌^◌, ◌≤◌, ◌<◌, ◌≡◌, refl, ap, ap₂, sym, ◌∙◌, arith, List,
  [], ◌∷◌, ◌++◌, length, All-drop, All-take, All-append, All-replicate, take, drop, set, replicate,
  length-take, length-append, length-replicate, take-append, append_assoc,
}
use tweetnacl_modular.Memory.{write_at}
use native.Mathlib.Nat.{mod-eq_of_lt}
use tweetnacl_modular.Bytes.Value.{scale_suc}
use tweetnacl_modular.Bytes.{IsBytes, ts64}
use tweetnacl_modular.Bytes.Big.{ts64-IsBytes, length-ts64}
use tweetnacl_modular.Word.{u8, u64, ◌<<◌, ◌>>◌}
use tweetnacl_modular.Sha512.{last_blocks, last_size}
use tweetnacl_modular.Sha512.Reference.{be_bytes}

set-append : (xs ys : List ℕ) (i x v : ℕ) → i ≡ length xs → set (xs ++ x ∷ ys) i v ≡ xs ++ v ∷ ys
set-append [] ys zero x v e = refl
set-append [] ys (suc i) x v e = absurd (omega arith)
set-append (a ∷ xs) ys zero x v e = absurd (omega arith)
set-append (a ∷ xs) ys (suc i) x v e = ap (◌∷◌ a) (set-append xs ys i x v (omega arith))

set-IsBytes : (xs : List ℕ) (i v : ℕ) → IsBytes xs → v < 2 ^ 8 → IsBytes (set xs i v)
set-IsBytes [] i v h hv = h
set-IsBytes (x ∷ xs) zero v h hv = (hv, h.1)
set-IsBytes (x ∷ xs) (suc i) v h hv = (h.0, set-IsBytes xs i v h.1 hv)

pub last_blocks-IsBytes : (m : List ℕ) (n : ℕ) → IsBytes m → IsBytes (last_blocks m n)
unfolding last_blocks
last_blocks-IsBytes m n h =
    let left = n % 128 in
    let x = set (take left m ++ replicate (256 - left) 0) left 128 in
    let x' = set x (last_size left - 9) (u8 (n >> 61)) in
    let hx =
      set-IsBytes (take left m ++ replicate (256 - left) 0) left 128
        (All-append (λ b. b < 2 ^ 8) (take left m) (replicate (256 - left) 0)
          (All-take (λ b. b < 2 ^ 8) left m h)
          (All-replicate (λ b. b < 2 ^ 8) (256 - left) 0 (omega arith)))
        (omega arith) in
    let hx' = set-IsBytes x (last_size left - 9) (u8 (n >> 61)) hx (omega arith) in
    let bits = ts64 (u64 (n << 3)) in
    All-append (λ b. b < 2 ^ 8) (take (last_size left - 8) x') _
      (All-take (λ b. b < 2 ^ 8) (last_size left - 8) x' hx')
      (All-append (λ b. b < 2 ^ 8) bits _ (ts64-IsBytes (u64 (n << 3)))
        (All-drop (λ b. b < 2 ^ 8) (last_size left - 8 + length bits) x' hx'))

-- Zeros around a place.
pub replicate_split :
    (n a b : ℕ) → n ≡ a + suc b → replicate {A = ℕ} n 0 ≡ replicate a 0 ++ 0 ∷ replicate b 0
replicate_split n zero b e = let same : n ≡ suc b = omega arith in ap (λ t. replicate t 0) same
replicate_split zero (suc a) b e = absurd (omega arith)
replicate_split (suc n) (suc a) b e = ap (◌∷◌ 0) (replicate_split n a b (omega arith))

-- A multiple of the width does not show in the low bytes.
be_bytes-add : (n v c : ℕ) → be_bytes n (v + 256 ^ n * c) ≡ be_bytes n v
unfolding be_bytes
be_bytes-add zero v c = refl
be_bytes-add (suc n) v c =
    let high : (v + 256 ^ suc n * c) / 256 ≡ v / 256 + 256 ^ n * c = omega (arith, scale_suc n c) in
    let low : (v + 256 ^ suc n * c) % 256 ≡ v % 256 = omega (arith, scale_suc n c) in
    ap₂ (λ a b. a ++ b ∷ []) (ap (be_bytes n) high ∙ be_bytes-add n (v / 256) c) low

be_bytes-small : (x : ℕ) → x < 256 → be_bytes 8 x ≡ replicate 7 0 ++ x ∷ []
unfolding be_bytes
be_bytes-small x h =
    let high : x / 256 ≡ 0 = omega arith in
    ap₂ (λ a b. be_bytes 7 a ++ b ∷ []) high (mod-eq_of_lt h)

halves :
    (v : ℕ)
    → be_bytes 16 v ≡ be_bytes 8 (v / 256 / 256 / 256 / 256 / 256 / 256 / 256 / 256) ++ be_bytes 8 v
unfolding be_bytes
halves v = refl

ts64-be_bytes : (v : ℕ) → ts64 v ≡ be_bytes 8 v
unfolding ts64 be_bytes
ts64-be_bytes v = refl

-- The sixteen bytes of a number that is not much wider than a word.
be_bytes-split :
    (v : ℕ) → v < 2 ^ 67 → be_bytes 16 v ≡ replicate 7 0 ++ v / 2 ^ 64 ∷ ts64 (v % 2 ^ 64)
be_bytes-split v h =
    let high : v / 256 / 256 / 256 / 256 / 256 / 256 / 256 / 256 ≡ v / 2 ^ 64 = omega arith in
    let low : v ≡ v % 2 ^ 64 + 256 ^ 8 * (v / 2 ^ 64) = omega arith in
    halves v
    ∙ ap₂ ◌++◌ (ap (be_bytes 8) high ∙ be_bytes-small (v / 2 ^ 64) (omega arith)) (
        ap (be_bytes 8) low
        ∙ be_bytes-add 8 (v % 2 ^ 64) (v / 2 ^ 64)
        ∙ sym (ts64-be_bytes (v % 2 ^ 64)))

-- What the source writes behind the bytes left over.
unfoldable pub tail_of : ℕ → ℕ → List ℕ
tail_of zeros n = 128 ∷ (replicate zeros 0 ++ be_bytes 16 (8 * n))

replicate-add : (a b : ℕ) → replicate {A = ℕ} (a + b) 0 ≡ replicate a 0 ++ replicate b 0
replicate-add zero b = let e : 0 + b ≡ b = omega arith in ap (λ t. replicate t 0) e
replicate-add (suc a) b =
    let e : suc a + b ≡ suc (a + b) = omega arith in
    ap (λ t. replicate t 0) e ∙ ap (◌∷◌ 0) (replicate-add a b)

-- The local array, up to the length that is hashed, with `z` zeros after the mark.
module _ (m : List ℕ) (n z : ℕ) (wide : n < 2 ^ 64) (there : n % 128 ≤ length m)
    (fill : n % 128 + 17 + z ≡ last_size (n % 128)) (fits : last_size (n % 128) ≤ 256) where
  abbrev left : ℕ
  left = n % 128

  abbrev over : List ℕ
  over = take left m

  abbrev high : ℕ
  high = u8 (n >> 61)

  abbrev after : ℕ
  after = 264 - last_size left

  abbrev front : List ℕ
  front = over ++ 128 ∷ replicate (z + 7) 0

  length-over : length over ≡ left
  length-over = omega (arith, length-take left m)

  length-front : length front ≡ left + z + 8
  length-front = omega (
    arith,
    length-append over (128 ∷ replicate (z + 7) 0),
    length-replicate {A = ℕ} (z + 7) 0,
    length-over,
  )

  marked : set (over ++ replicate (256 - left) 0) left 128 ≡ front ++ 0 ∷ replicate after 0
  marked =
      ap (λ t. set (over ++ t) left 128) (replicate_split (256 - left) 0 (255 - left) (omega arith))
      ∙ set-append over (replicate (255 - left) 0) left 0 128 (sym length-over)
      ∙ ap (λ t. over ++ 128 ∷ t) (replicate_split (255 - left) (z + 7) after (omega arith))
      ∙ sym (append_assoc over (128 ∷ replicate (z + 7) 0) (0 ∷ replicate after 0))

  topped :
      set (front ++ 0 ∷ replicate after 0) (last_size left - 9) high
      ≡ front ++ high ∷ replicate after 0
  topped =
      set-append front (replicate after 0) (last_size left - 9) 0 high (omega (arith, length-front))

  -- The bytes before the last eight.
  taken : take (last_size left - 8) (front ++ high ∷ replicate after 0) ≡ front ++ high ∷ []
  taken =
      ap (take (last_size left - 8)) (sym (append_assoc front (high ∷ []) (replicate after 0)))
      ∙ take-append (last_size left - 8) (front ++ high ∷ []) (replicate after 0)
          (omega (arith, length-append front (high ∷ []), length-front))

  sized : (front ++ high ∷ []) ++ ts64 (u64 (n << 3)) ≡ over ++ tail_of z n
  unfolding tail_of
  sized =
      let top : 8 * n / 2 ^ 64 ≡ high = omega arith in
      let low : 8 * n % 2 ^ 64 ≡ u64 (n << 3) = omega arith in
      let bits = ts64 (u64 (n << 3)) in
      let size : be_bytes 16 (8 * n) ≡ replicate 7 0 ++ high ∷ bits =
        be_bytes-split (8 * n) (omega arith) ∙ ap₂ (λ a b. replicate 7 0 ++ a ∷ ts64 b) top low in
      append_assoc front (high ∷ []) bits
      ∙ append_assoc over (128 ∷ replicate (z + 7) 0) (high ∷ bits)
      ∙ ap (λ t. over ++ 128 ∷ t)
          (ap (λ t. t ++ high ∷ bits) (replicate-add z 7)
            ∙ append_assoc (replicate z 0) (replicate 7 0) (high ∷ bits)
            ∙ ap (λ t. replicate z 0 ++ t) (sym size))

  pub filled : take (last_size left) (last_blocks m n) ≡ over ++ tail_of z n
  unfolding last_blocks
  filled =
      let bits = ts64 (u64 (n << 3)) in
      let d = last_size left - 8 + length bits in
      let x = front ++ high ∷ replicate after 0 in
      ap
        (λ t.
          take (last_size left)
            (write_at (last_size left - 8) bits (set t (last_size left - 9) high)))
        marked
      ∙ ap (λ t. take (last_size left) (write_at (last_size left - 8) bits t)) topped
      ∙ ap (λ t. take (last_size left) (t ++ (bits ++ drop d x))) taken
      ∙ ap (take (last_size left)) (sym (append_assoc (front ++ high ∷ []) bits (drop d x)))
      ∙ take-append (last_size left) ((front ++ high ∷ []) ++ bits) (drop d x) (
          omega (
            arith,
            length-append (front ++ high ∷ []) bits,
            length-append front (high ∷ []),
            length-front,
            length-ts64 (u64 (n << 3)),
          ))
      ∙ sized

length-be_bytes : (v : ℕ) → length (be_bytes 16 v) ≡ 16
unfolding be_bytes
length-be_bytes v = refl

pub length-tail_of : (zeros n : ℕ) → length (tail_of zeros n) ≡ zeros + 17
unfolding tail_of
length-tail_of zeros n = omega (
  arith,
  length-append (replicate zeros 0) (be_bytes 16 (8 * n)),
  length-replicate {A = ℕ} zeros 0,
  length-be_bytes (8 * n),
)
