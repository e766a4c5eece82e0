-- ===== src/Stream.antt =====
-- The stream cipher: `crypto_stream_salsa20_xor`, `crypto_stream_salsa20`, `crypto_stream` and
-- `crypto_stream_xor` of src/tweetnacl/tweetnacl.c. A call gives its status and what it
-- leaves in `c`.
pub mod Counter
pub mod Keystream
pub mod Cipher
use tweetnacl_modular.Base.{
  ℕ, zero, suc, ◌+◌, ◌-◌, ◌*◌, ◌/◌, ◌%◌, ◌^◌, bit_xor, Bool, true, false, not, ◌&&◌, ◌||◌, leb, ltb,
  ◌==◌, if◌then◌else◌, List, [], ◌∷◌, ◌++◌, get_or, set, take, drop, replicate,
}
use tweetnacl_modular.Base.Int.{ok, failed}
use tweetnacl_modular.Base.Loops.{for_up}
use tweetnacl_modular.Word.{u8, u32, ◌>>◌}
use tweetnacl_modular.Memory.{Ptr, null, at, is_null, same, contents, advance, write_at, Call}
use tweetnacl_modular.Salsa.{crypto_core_salsa20, crypto_core_hsalsa20, sigma}

-- `m ? m[i] : 0`
abbrev pub source : Ptr → ℕ → ℕ
source null i = 0
source (at a bs) i = get_or bs i 0

-- `c[i] = (m ? m[i] : 0) ^ x[i]`, with the rounds left and the index.
unfoldable pub xor_bytes : ℕ → ℕ → Ptr → List ℕ → List ℕ
xor_bytes zero i m x = []
xor_bytes (suc n) i m x = bit_xor (source m i) (get_or x i 0) ∷ xor_bytes n (suc i) m x

-- The block `z` before the loop: the nonce, then a counter of 0.
unfoldable pub start_block : List ℕ → List ℕ
unfolding for_up
start_block n = for_up 8 0 (λ i z. set z i (get_or n i 0)) (replicate 16 0)

-- `u += (u32)z[i]; z[i] = u; u >>= 8;` for the bytes left.
unfoldable pub carry_bytes : ℕ → List ℕ → List ℕ
carry_bytes u [] = []
carry_bytes u (b ∷ bs) = u8 (u32 (u + b)) ∷ carry_bytes (u32 (u + b) >> 8) bs

-- The counter in the bytes 8 to 15 goes up by one.
unfoldable pub increment : List ℕ → List ℕ
increment z = take 8 z ++ carry_bytes 1 (drop 8 z)

-- The `while` loop and the partial block after it: the bytes written from `c` on. The fuel is a
-- bound on the blocks to come.
unfoldable pub stream_loop : ℕ → ℕ → Ptr → List ℕ → List ℕ → List ℕ
stream_loop zero b m z k = []
stream_loop (suc fuel) b m z k =
    let rest = stream_loop fuel (b - 64) (advance 64 m) (increment z) k in
    if leb 64 b
    then xor_bytes 64 0 m (crypto_core_salsa20 z k sigma) ++ rest
    else if b == 0
    then []
    else xor_bytes b 0 m (crypto_core_salsa20 z k sigma)

-- 256 MiB
abbrev pub max_message : ℕ
max_message = 256 * 1024 * 1024

unfoldable pub crypto_stream_salsa20_xor : Ptr → Ptr → ℕ → Ptr → Ptr → Call
crypto_stream_salsa20_xor c m b n k =
    if b == 0
    then record { status = ok; out = contents c }
    else if ltb max_message b
    then record { status = failed; out = contents c }
    else if is_null c || (is_null n || is_null k)
    then record { status = failed; out = contents c }
    else if not (is_null m) && same m c
    then record { status = failed; out = contents c }
    else record {
      status = ok;
      out =
          write_at 0 (stream_loop (b / 64 + 1) b m (start_block (contents n)) (contents k))
            (contents c);
    }

unfoldable pub crypto_stream_salsa20 : Ptr → ℕ → Ptr → Ptr → Call
crypto_stream_salsa20 c d n k = crypto_stream_salsa20_xor c null d n k

-- The key that HSalsa20 derives from the first 16 bytes of the nonce; it lies in a local array.
unfoldable pub subkey : Ptr → Ptr → Ptr
subkey n k = at 0 (crypto_core_hsalsa20 (contents n) (contents k) sigma)

unfoldable pub crypto_stream : Ptr → ℕ → Ptr → Ptr → Call
crypto_stream c d n k = crypto_stream_salsa20 c d (advance 16 n) (subkey n k)

unfoldable pub crypto_stream_xor : Ptr → Ptr → ℕ → Ptr → Ptr → Call
crypto_stream_xor c m d n k = crypto_stream_salsa20_xor c m d (advance 16 n) (subkey n k)
