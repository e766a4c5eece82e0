-- ===== src/Word.antt =====
-- Unsigned machine words as numbers: the wrap of `uint8_t`, `uint32_t` and `uint64_t`, the shifts
-- and the rotations `L32` of src/tweetnacl/tweetnacl.c and `R`.
pub mod Rotate
use tweetnacl_modular.Base.{ℕ, ◌+◌, ◌-◌, ◌*◌, ◌/◌, ◌%◌, ◌^◌, bit_and, bit_or}

abbrev pub u8 : ℕ → ℕ
u8 x = x % 2 ^ 8

abbrev pub u32 : ℕ → ℕ
u32 x = x % 2 ^ 32

abbrev pub u64 : ℕ → ℕ
u64 x = x % 2 ^ 64

infixl 75 ◌<<◌ ◌>>◌
abbrev pub ◌<<◌ : ℕ → ℕ → ℕ
x << k = x * 2 ^ k

abbrev pub ◌>>◌ : ℕ → ℕ → ℕ
x >> k = x / 2 ^ k

-- `-x` on a `uint32_t` and on a `uint64_t`, and the difference; `-` on numbers stops at 0.
abbrev pub sub32 : ℕ → ℕ → ℕ
sub32 x y = u32 (x + (2 ^ 32 - u32 y))

abbrev pub sub64 : ℕ → ℕ → ℕ
sub64 x y = u64 (x + (2 ^ 64 - u64 y))

-- `~x` at 64 bits.
abbrev pub not64 : ℕ → ℕ
not64 x = 2 ^ 64 - 1 - x

-- L32: `(x << c) | ((x & 0xffffffff) >> (32 - c))`.
unfoldable pub l32 : ℕ → ℕ → ℕ
l32 x c = bit_or (u32 (x << c)) (bit_and x 0xffffffff >> (32 - c))

-- R: `(x >> c) | (x << (64 - c))`.
unfoldable pub r64 : ℕ → ℕ → ℕ
r64 x c = bit_or (x >> c) (u64 (x << (64 - c)))
