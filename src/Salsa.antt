-- ===== src/Salsa.antt =====
-- The Salsa20 and HSalsa20 cores: `core`, `crypto_core_salsa20` and `crypto_core_hsalsa20` of
-- src/tweetnacl/tweetnacl.c. The output pointer becomes the bytes that are written to it.
pub mod Reference
pub mod Rounds
pub mod Output
use tweetnacl_modular.Base.{
  ℕ, ◌+◌, ◌*◌, ◌%◌, ◌^◌, bit_xor, Bool, true, false, List, [], ◌∷◌, ◌++◌, get_or, set, drop, take,
  length, replicate, if◌then◌else◌,
}
use tweetnacl_modular.Base.Loops.{for_up}
use tweetnacl_modular.Word.{u32, sub32, l32}
use tweetnacl_modular.Bytes.{ld32, st32}
use tweetnacl_modular.Memory.{write_at}

abbrev pub word : List ℕ → ℕ → ℕ
word x i = get_or x i 0

-- The four updates of `t` in the inner loop, in their order.
unfoldable pub quarter : ℕ → ℕ → ℕ → ℕ → List ℕ
quarter a b c d =
    let t = a ∷ b ∷ c ∷ d ∷ [] in
    let t1 = set t 1 (bit_xor (word t 1) (l32 (u32 (word t 0 + word t 3)) 7)) in
    let t2 = set t1 2 (bit_xor (word t1 2) (l32 (u32 (word t1 1 + word t1 0)) 9)) in
    let t3 = set t2 3 (bit_xor (word t2 3) (l32 (u32 (word t2 2 + word t2 1)) 13)) in
    set t3 0 (bit_xor (word t3 0) (l32 (u32 (word t3 3 + word t3 2)) 18))

-- One pass of the loop on `j`: read a column of `x`, and write it rotated into a row of `w`.
unfoldable pub column : List ℕ → ℕ → List ℕ → List ℕ
unfolding for_up
column x j w =
    let from = λ (m : ℕ). word x ((5 * j + 4 * m) % 16) in
    let t = quarter (from 0) (from 1) (from 2) (from 3) in
    for_up 4 0 (λ m w'. set w' (4 * j + (j + m) % 4) (word t m)) w

-- One of the twenty rounds.
unfoldable pub round : List ℕ → List ℕ
unfolding for_up column
round x = for_up 4 0 (column x) (replicate 16 0)

unfoldable pub rounds : List ℕ → List ℕ
unfolding for_up
rounds x = for_up 20 0 (λ i s. round s) x

-- The input state, from the constant, the key and the input block.
unfoldable pub load_state : List ℕ → List ℕ → List ℕ → List ℕ
unfolding for_up
load_state inp k c =
    for_up 4 0
      (λ i x.
        set
          (set (set (set x (5 * i) (ld32 (drop (4 * i) c))) (1 + i) (ld32 (drop (4 * i) k))) (6 + i)
            (ld32 (drop (4 * i) inp)))
          (11 + i) (ld32 (drop (16 + 4 * i) k)))
      (replicate 16 0)

-- `x[i] += y[i]`
unfoldable pub add_words : List ℕ → List ℕ → List ℕ
unfolding for_up
add_words x y = for_up 16 0 (λ i s. set s i (u32 (word s i + word y i))) x

-- The branch `h`: the constant and the input are taken off again,
unfoldable pub take_off : List ℕ → List ℕ → List ℕ → List ℕ
unfolding for_up
take_off x inp c =
    for_up 4 0
      (λ i s.
        set (set s (5 * i) (sub32 (word s (5 * i)) (ld32 (drop (4 * i) c)))) (6 + i)
          (sub32 (word s (6 + i)) (ld32 (drop (4 * i) inp))))
      x

-- and eight words are stored.
unfoldable pub store_eight : List ℕ → List ℕ
unfolding for_up
store_eight x =
    for_up 4 0
      (λ i out.
        write_at (16 + 4 * i) (st32 (word x (6 + i)))
          (write_at (4 * i) (st32 (word x (5 * i))) out))
      (replicate 32 0)

-- The other branch: all sixteen sums are stored.
unfoldable pub store_sums : List ℕ → List ℕ → List ℕ
unfolding for_up
store_sums x y =
    for_up 16 0 (λ i out. write_at (4 * i) (st32 (u32 (word x i + word y i))) out) (replicate 64 0)

unfoldable pub core : List ℕ → List ℕ → List ℕ → Bool → List ℕ
core inp k c h =
    let y = load_state inp k c in
    let x = rounds y in if h then store_eight (take_off (add_words x y) inp c) else store_sums x y

unfoldable pub crypto_core_salsa20 : List ℕ → List ℕ → List ℕ → List ℕ
crypto_core_salsa20 inp k c = core inp k c false

unfoldable pub crypto_core_hsalsa20 : List ℕ → List ℕ → List ℕ → List ℕ
crypto_core_hsalsa20 inp k c = core inp k c true

-- "expand 32-byte k"
abbrev pub sigma : List ℕ
sigma = 101 ∷ 120 ∷ 112 ∷ 97 ∷ 110 ∷ 100 ∷ 32 ∷ 51 ∷ 50 ∷ 45 ∷ 98 ∷ 121 ∷ 116 ∷ 101 ∷ 32 ∷ 107 ∷ []
