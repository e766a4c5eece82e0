-- ===== src/Salsa/Reference.antt =====
-- The Salsa20 specification of D. J. Bernstein, on a matrix of sixteen words: quarterround,
-- columnround, rowround and doubleround, with rotation as arithmetic.
use tweetnacl_modular.Base.{
  ℕ, zero, suc, ◌+◌, ◌-◌, ◌*◌, ◌/◌, ◌%◌, ◌^◌, bit_xor, List, [], ◌∷◌, ◌++◌, get_or, map, drop,
}
use tweetnacl_modular.Bytes.{st32, ld32}

abbrev at_index : List ℕ → ℕ → ℕ
at_index x i = get_or x i 0

unfoldable pub rotl : ℕ → ℕ → ℕ
rotl s c = s * 2 ^ c % 2 ^ 32 + s / 2 ^ (32 - c)

abbrev sum32 : ℕ → ℕ → ℕ
sum32 x y = (x + y) % 2 ^ 32

unfoldable pub quarterround : ℕ → ℕ → ℕ → ℕ → List ℕ
quarterround y0 y1 y2 y3 =
    let z1 = bit_xor y1 (rotl (sum32 y0 y3) 7) in
    let z2 = bit_xor y2 (rotl (sum32 z1 y0) 9) in
    let z3 = bit_xor y3 (rotl (sum32 z2 z1) 13) in
    let z0 = bit_xor y0 (rotl (sum32 z3 z2) 18) in z0 ∷ z1 ∷ z2 ∷ z3 ∷ []

unfoldable pub columnround : List ℕ → List ℕ
columnround x =
    let p = quarterround (at_index x 0) (at_index x 4) (at_index x 8) (at_index x 12) in
    let q = quarterround (at_index x 5) (at_index x 9) (at_index x 13) (at_index x 1) in
    let r = quarterround (at_index x 10) (at_index x 14) (at_index x 2) (at_index x 6) in
    let s = quarterround (at_index x 15) (at_index x 3) (at_index x 7) (at_index x 11) in
    at_index p 0
    ∷ at_index q 3
    ∷ at_index r 2
    ∷ at_index s 1
    ∷ at_index p 1
    ∷ at_index q 0
    ∷ at_index r 3
    ∷ at_index s 2
    ∷ at_index p 2
    ∷ at_index q 1
    ∷ at_index r 0
    ∷ at_index s 3
    ∷ at_index p 3
    ∷ at_index q 2
    ∷ at_index r 1
    ∷ at_index s 0
    ∷ []

unfoldable pub rowround : List ℕ → List ℕ
rowround y =
    let p = quarterround (at_index y 0) (at_index y 1) (at_index y 2) (at_index y 3) in
    let q = quarterround (at_index y 5) (at_index y 6) (at_index y 7) (at_index y 4) in
    let r = quarterround (at_index y 10) (at_index y 11) (at_index y 8) (at_index y 9) in
    let s = quarterround (at_index y 15) (at_index y 12) (at_index y 13) (at_index y 14) in
    at_index p 0
    ∷ at_index p 1
    ∷ at_index p 2
    ∷ at_index p 3
    ∷ at_index q 3
    ∷ at_index q 0
    ∷ at_index q 1
    ∷ at_index q 2
    ∷ at_index r 2
    ∷ at_index r 3
    ∷ at_index r 0
    ∷ at_index r 1
    ∷ at_index s 1
    ∷ at_index s 2
    ∷ at_index s 3
    ∷ at_index s 0
    ∷ []

unfoldable pub doublerounds : ℕ → List ℕ → List ℕ
doublerounds zero x = x
doublerounds (suc n) x = doublerounds n (rowround (columnround x))

-- The words of `ys` from the low address on.
abbrev pub words_bytes : List ℕ → List ℕ
words_bytes [] = []
words_bytes (w ∷ ws) = st32 w ++ words_bytes ws

-- The sixteen sums of two matrices.
unfoldable pub sums : List ℕ → List ℕ → List ℕ
sums x y = map (λ i. sum32 (at_index x i) (at_index y i)) indices
  where
    indices : List ℕ
    indices = 0 ∷ 1 ∷ 2 ∷ 3 ∷ 4 ∷ 5 ∷ 6 ∷ 7 ∷ 8 ∷ 9 ∷ 10 ∷ 11 ∷ 12 ∷ 13 ∷ 14 ∷ 15 ∷ []

-- The matrix of a constant `c`, a key `k` and an input block `inp`, row by row.
unfoldable pub matrix : List ℕ → List ℕ → List ℕ → List ℕ
matrix inp k c =
    ld32 c
    ∷ ld32 k
    ∷ ld32 (drop 4 k)
    ∷ ld32 (drop 8 k)
    ∷ ld32 (drop 12 k)
    ∷ ld32 (drop 4 c)
    ∷ ld32 inp
    ∷ ld32 (drop 4 inp)
    ∷ ld32 (drop 8 inp)
    ∷ ld32 (drop 12 inp)
    ∷ ld32 (drop 8 c)
    ∷ ld32 (drop 16 k)
    ∷ ld32 (drop 20 k)
    ∷ ld32 (drop 24 k)
    ∷ ld32 (drop 28 k)
    ∷ ld32 (drop 12 c)
    ∷ []

-- Salsa20: ten double rounds, added to the input.
unfoldable pub salsa20 : List ℕ → List ℕ → List ℕ → List ℕ
salsa20 inp k c = let s = matrix inp k c in words_bytes (sums (doublerounds 10 s) s)

-- HSalsa20: the diagonal and the input words after ten double rounds.
unfoldable pub hsalsa20 : List ℕ → List ℕ → List ℕ → List ℕ
hsalsa20 inp k c =
    let z = doublerounds 10 (matrix inp k c) in
    words_bytes (
      at_index z 0
      ∷ at_index z 5
      ∷ at_index z 10
      ∷ at_index z 15
      ∷ at_index z 6
      ∷ at_index z 7
      ∷ at_index z 8
      ∷ at_index z 9
      ∷ [])
