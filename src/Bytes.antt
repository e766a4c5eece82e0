-- ===== src/Bytes.antt =====
-- Loads and stores of words in memory: `ld32`, `dl64`, `st32` and `ts64` of
-- src/tweetnacl/tweetnacl.c. A pointer is the list of the bytes from it on; a store gives
-- the bytes that it writes.
pub mod Value
pub mod Little
pub mod Big
use tweetnacl_modular.Base.{
  ℕ, zero, suc, ◌%◌, ◌*◌, ◌/◌, ◌^◌, ◌<◌, bit_or, List, [], ◌∷◌, get_or, All,
}
use tweetnacl_modular.Word.{u8, u32, u64, ◌<<◌, ◌>>◌}

-- Every element is a `u8`.
abbrev pub IsBytes : List ℕ → Type 0
IsBytes = All (λ b. b < 2 ^ 8)

-- `(u << 8) | b` at 32 bits.
abbrev pub push32 : ℕ → ℕ → ℕ
push32 u b = bit_or (u32 (u << 8)) b

unfoldable pub ld32 : List ℕ → ℕ
ld32 x = push32 (push32 (push32 (get_or x 3 0) (get_or x 2 0)) (get_or x 1 0)) (get_or x 0 0)

-- The loop of `dl64` with the bytes left to read.
unfoldable pub dl64_loop : ℕ → ℕ → List ℕ → ℕ
dl64_loop zero u x = u
dl64_loop (suc n) u x = dl64_loop n (bit_or (u64 (u << 8)) (get_or x 0 0)) (rest x)
  where
    rest : List ℕ → List ℕ
    rest [] = []
    rest (b ∷ bs) = bs

unfoldable pub dl64 : List ℕ → ℕ
unfolding dl64_loop
dl64 x = dl64_loop 8 0 x

-- The loop of `st32`: the low byte first, with the rounds left.
pub st32_loop : ℕ → ℕ → List ℕ
st32_loop zero u = []
st32_loop (suc n) u = u8 u ∷ st32_loop n (u >> 8)

unfoldable pub st32 : ℕ → List ℕ
unfolding st32_loop
st32 u = st32_loop 4 u

-- The loop of `ts64` runs from `x[7]` down to `x[0]`; `written` holds the bytes above.
pub ts64_loop : ℕ → ℕ → List ℕ → List ℕ
ts64_loop zero u written = written
ts64_loop (suc n) u written = ts64_loop n (u >> 8) (u8 u ∷ written)

unfoldable pub ts64 : ℕ → List ℕ
unfolding ts64_loop
ts64 u = ts64_loop 8 u []
