-- ===== src/Sha512/Truncated.antt =====
-- src/drivers/crypto/fips/fips1804_sha512.c: SHA-512/256 and SHA-512/224. The functions of a word,
-- the constants and the loads and stores are those of Sha512, which this file repeats.
pub mod Collision
use tweetnacl_modular.Base.{
  ℕ, zero, suc, ◌+◌, ◌-◌, ◌/◌, ◌%◌, ◌==◌, ltb, if◌then◌else◌, List, [], ◌∷◌, ◌++◌, set, take, drop,
  replicate,
}
use tweetnacl_modular.Base.Int.{ok}
use tweetnacl_modular.Word.{u64}
use tweetnacl_modular.Memory.{Ptr, contents, write_at, Call}
use tweetnacl_modular.Sha512.{
  entry, ch, maj, big_sigma0, big_sigma1, load_words, extend, add_state, store_words, last_blocks,
  last_size,
}
use tweetnacl_modular.Sha512.Constants.{round_constants}

abbrev pub iv_sha512_256 : List ℕ
iv_sha512_256 =
    0x22 ∷ 0x31 ∷ 0x85 ∷ 0x46 ∷ 0x96 ∷ 0x36 ∷ 0x79 ∷ 0x91 ∷ 0xc1 ∷ 0x05 ∷ 0x9e ∷ 0xd6 ∷ 0xd8 ∷ 0xe6
    ∷ 0x6f ∷ 0x55 ∷ 0x13 ∷ 0xb0 ∷ 0x1c ∷ 0x7e ∷ 0x12 ∷ 0xa8 ∷ 0x84 ∷ 0xe8 ∷ 0x91 ∷ 0xa2 ∷ 0x9c
    ∷ 0x6b ∷ 0x27 ∷ 0x22 ∷ 0x0a ∷ 0x83 ∷ 0x16 ∷ 0x82 ∷ 0x34 ∷ 0x16 ∷ 0x8a ∷ 0x70 ∷ 0x59 ∷ 0x97
    ∷ 0x88 ∷ 0x35 ∷ 0x75 ∷ 0x5e ∷ 0x41 ∷ 0x88 ∷ 0x09 ∷ 0xa1 ∷ 0xc8 ∷ 0x66 ∷ 0x6d ∷ 0x49 ∷ 0xef
    ∷ 0x48 ∷ 0x44 ∷ 0xa3 ∷ 0xe2 ∷ 0x50 ∷ 0xe2 ∷ 0x9b ∷ 0x6b ∷ 0x6f ∷ 0x98 ∷ 0x2d ∷ []

abbrev pub iv_sha512_224 : List ℕ
iv_sha512_224 =
    0x8c ∷ 0x3d ∷ 0x37 ∷ 0xc8 ∷ 0x19 ∷ 0x54 ∷ 0x4d ∷ 0xa2 ∷ 0x73 ∷ 0xfa ∷ 0xa8 ∷ 0xa2 ∷ 0xc5 ∷ 0x62
    ∷ 0x10 ∷ 0x4f ∷ 0xf4 ∷ 0x3c ∷ 0x2c ∷ 0x95 ∷ 0x91 ∷ 0x70 ∷ 0x39 ∷ 0x19 ∷ 0xb6 ∷ 0x20 ∷ 0x75
    ∷ 0x6b ∷ 0x8e ∷ 0xd7 ∷ 0x52 ∷ 0x34 ∷ 0x8e ∷ 0xc5 ∷ 0xb9 ∷ 0x84 ∷ 0xb2 ∷ 0x59 ∷ 0x0c ∷ 0x04
    ∷ 0x1c ∷ 0xd8 ∷ 0xb7 ∷ 0x68 ∷ 0xba ∷ 0x26 ∷ 0xc8 ∷ 0x59 ∷ 0xe7 ∷ 0x5d ∷ 0x95 ∷ 0x8f ∷ 0x5f
    ∷ 0x58 ∷ 0xbc ∷ 0x3d ∷ 0x6b ∷ 0xba ∷ 0x4a ∷ 0x92 ∷ 0x1d ∷ 0xc8 ∷ 0xc1 ∷ 0x34 ∷ []

-- `a` is a copy of `z` with two words changed; the next `z` is `a` one place on.
unfoldable pub step_copy : ℕ → ℕ → List ℕ → List ℕ × List ℕ
step_copy k w z =
    let t =
      u64 (entry z 7 + big_sigma1 (entry z 4) + ch (entry z 4) (entry z 5) (entry z 6) + k + w) in
    let a7 = u64 (t + big_sigma0 (entry z 0) + maj (entry z 0) (entry z 1) (entry z 2)) in
    let a = set (set z 7 a7) 3 (u64 (entry z 3 + t)) in (a, entry a 7 ∷ take 7 a)

-- The rounds left come first, then `i`, then `a` and `z`.
unfoldable pub step_copies : ℕ → ℕ → List ℕ × List ℕ → List ℕ → List ℕ × List ℕ
unfolding step_copy
step_copies zero i s w = s
step_copies (suc n) i s w =
    step_copies n (suc i) (step_copy (entry round_constants i) (entry w (i % 16)) s.1)
      (if i % 16 == 15 then extend w else w)

-- `a[i] += z[i]; z[i] = a[i]` ends a block.
unfoldable pub copied_block : List ℕ → List ℕ → List ℕ
unfolding step_copies
copied_block z m = let s = step_copies 80 0 (z, z) (load_words 16 m) in add_state s.0 s.1

-- The `while` loop, with fuel for the blocks to come.
unfoldable pub copied_loop : ℕ → ℕ → List ℕ → List ℕ → List ℕ
copied_loop zero n m z = z
copied_loop (suc fuel) n m z =
    let rest = copied_loop fuel (n - 128) (drop 128 m) (copied_block z m) in
    if ltb n 128 then z else rest

-- What is left in `x`.
unfoldable pub sha512_blocks : List ℕ → List ℕ → ℕ → List ℕ → List ℕ
sha512_blocks x m n iv = write_at 0 (store_words (copied_loop (n / 128) n m (load_words 8 iv))) x

-- Both calls of `sha512_blocks` start from `iv`.
unfoldable pub hash_with_iv : Ptr → List ℕ → ℕ → List ℕ → ℕ → Call
hash_with_iv out m n iv outlen =
    let left = n % 128 in
    let h = sha512_blocks (replicate 64 0) m n iv in
    let x = last_blocks (drop (n - left) m) n in
    let h' = sha512_blocks h x (last_size left) iv in
    record { status = ok; out = write_at 0 (take outlen h') (contents out) }

unfoldable pub crypto_hash_sha512_256 : Ptr → List ℕ → ℕ → Call
crypto_hash_sha512_256 out m n = hash_with_iv out m n iv_sha512_256 32

unfoldable pub crypto_hash_sha512_224 : Ptr → List ℕ → ℕ → Call
crypto_hash_sha512_224 out m n = hash_with_iv out m n iv_sha512_224 28
