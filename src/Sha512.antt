-- ===== src/Sha512.antt =====
-- SHA-512: `crypto_hashblocks` and `crypto_hash` of src/tweetnacl/tweetnacl.c. Pointers to memory
-- that is only read are the bytes from them on; `m` may be NULL. On a NULL `x` the source loads
-- from it before its test; the model gives what the test returns.
pub mod Constants
pub mod Reference
pub mod Schedule
pub mod Blocks
pub mod Padding
pub mod Hash
pub mod Truncated
use tweetnacl_modular.Base.{
  ℕ, zero, suc, ◌+◌, ◌-◌, ◌*◌, ◌/◌, ◌%◌, ◌^◌, bit_and, bit_xor, ◌&&◌, ◌||◌, ltb, ◌==◌,
  if◌then◌else◌, List, [], ◌∷◌, ◌++◌, get_or, set, take, drop, replicate,
}
use tweetnacl_modular.Base.Int.{ℤ, pos, ok, failed}
use tweetnacl_modular.Base.Loops.{for_up}
use tweetnacl_modular.Word.{u8, u64, not64, r64, ◌<<◌, ◌>>◌}
use tweetnacl_modular.Memory.{Ptr, at, is_null, contents, write_at, Call}
use tweetnacl_modular.Bytes.{dl64, ts64}
use tweetnacl_modular.Sha512.Constants.{round_constants, iv}

abbrev pub entry : List ℕ → ℕ → ℕ
entry x i = get_or x i 0

unfoldable pub ch : ℕ → ℕ → ℕ → ℕ
ch x y z = bit_xor (bit_and x y) (bit_and (not64 x) z)

unfoldable pub maj : ℕ → ℕ → ℕ → ℕ
maj x y z = bit_xor (bit_xor (bit_and x y) (bit_and x z)) (bit_and y z)

unfoldable pub big_sigma0 : ℕ → ℕ
big_sigma0 x = bit_xor (bit_xor (r64 x 28) (r64 x 34)) (r64 x 39)

unfoldable pub big_sigma1 : ℕ → ℕ
big_sigma1 x = bit_xor (bit_xor (r64 x 14) (r64 x 18)) (r64 x 41)

unfoldable pub sigma0 : ℕ → ℕ
sigma0 x = bit_xor (bit_xor (r64 x 1) (r64 x 8)) (x >> 7)

unfoldable pub sigma1 : ℕ → ℕ
sigma1 x = bit_xor (bit_xor (r64 x 19) (r64 x 61)) (x >> 6)

-- `count` words, loaded one after the other.
unfoldable pub load_words : ℕ → List ℕ → List ℕ
load_words zero m = []
load_words (suc count) m = dl64 m ∷ load_words count (drop 8 m)

-- `b` is `a` with two words changed, and becomes the next `a` one place on.
unfoldable pub hash_round : List ℕ → ℕ → ℕ → List ℕ
hash_round a k w =
    let t =
      u64 (entry a 7 + big_sigma1 (entry a 4) + ch (entry a 4) (entry a 5) (entry a 6) + k + w) in
    let b7 = u64 (t + big_sigma0 (entry a 0) + maj (entry a 0) (entry a 1) (entry a 2)) in
    let b = set (set a 7 b7) 3 (u64 (entry a 3 + t)) in entry b 7 ∷ take 7 b

-- `w[j] += w[(j + 9) % 16] + sigma0(w[(j + 1) % 16]) + sigma1(w[(j + 14) % 16])`
abbrev pub extend_word : ℕ → List ℕ → List ℕ
extend_word j w = set w j (
    u64 (
      entry w j
      + entry w ((j + 9) % 16)
      + sigma0 (entry w ((j + 1) % 16))
      + sigma1 (entry w ((j + 14) % 16))))

-- The loop that replaces the sixteen words of `w`, in place.
unfoldable pub extend : List ℕ → List ℕ
unfolding for_up
extend w = for_up 16 0 extend_word w

-- The rounds left come first, then `i`.
unfoldable pub hash_rounds : ℕ → ℕ → List ℕ → List ℕ → List ℕ
hash_rounds zero i a w = a
hash_rounds (suc n) i a w =
    hash_rounds n (suc i) (hash_round a (entry round_constants i) (entry w (i % 16)))
      (if i % 16 == 15 then extend w else w)

-- `a[i] += z[i]`
unfoldable pub add_state : List ℕ → List ℕ → List ℕ
add_state [] z = []
add_state (a ∷ rest) [] = []
add_state (a ∷ rest) (z ∷ zs) = u64 (a + z) ∷ add_state rest zs

unfoldable pub hash_block : List ℕ → List ℕ → List ℕ
hash_block z m = add_state (hash_rounds 80 0 z (load_words 16 m)) z

-- The `while` loop, with fuel for the blocks to come: `a` and `z` agree between two blocks.
unfoldable pub hash_loop : ℕ → ℕ → List ℕ → List ℕ → List ℕ
hash_loop zero n m z = z
hash_loop (suc fuel) n m z =
    let rest = hash_loop fuel (n - 128) (drop 128 m) (hash_block z m) in
    if ltb n 128 then z else rest

unfoldable pub store_words : List ℕ → List ℕ
store_words [] = []
store_words (w ∷ ws) = ts64 w ++ store_words ws

-- What is left in the 64 bytes `x`, when neither pointer is NULL.
unfoldable pub hashed : List ℕ → List ℕ → ℕ → List ℕ
hashed x m n = store_words (hash_loop (n / 128) n m (load_words 8 x))

unfoldable pub crypto_hashblocks : Ptr → Ptr → ℕ → Call
crypto_hashblocks x m n =
    if is_null x || is_null m then record { status = failed; out = contents x } else record {
      status = pos (n % 128);
      out = write_at 0 (hashed (contents x) (contents m) n) (contents x);
    }

-- `256 - 128 * (n < 112)`
abbrev pub last_size : ℕ → ℕ
last_size left = 256 - 128 * (if ltb left 112 then 1 else 0)

-- The local array `x`: the bytes left over, a 128, zeros, and the number of bits.
unfoldable pub last_blocks : List ℕ → ℕ → List ℕ
last_blocks m b =
    let left = b % 128 in
    let x = set (take left m ++ replicate (256 - left) 0) left 128 in
    let x' = set x (last_size left - 9) (u8 (b >> 61)) in
    write_at (last_size left - 8) (ts64 (u64 (b << 3))) x'

unfoldable pub crypto_hash : Ptr → Ptr → ℕ → Call
crypto_hash out m n =
    if is_null out
    then record { status = failed; out = contents out }
    else if is_null m && ltb 0 n
    then record { status = failed; out = contents out }
    else let left = n % 128 in
      let h = (crypto_hashblocks (at 0 iv) m n).out in
      let x = last_blocks (drop (n - left) (contents m)) n in
      let h' = (crypto_hashblocks (at 0 h) (at 100 x) (last_size left)).out in
      record { status = ok; out = write_at 0 (take 64 h') (contents out) }
