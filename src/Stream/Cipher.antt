-- ===== src/Stream/Cipher.antt =====
-- `crypto_stream_salsa20_xor` combines the message with the keystream of its nonce and key, and
-- undoes itself.
use tweetnacl_modular.Base.{
  ℕ, zero, suc, ◌+◌, ◌/◌, ◌<◌, ◌≤◌, ◌≡◌, ◌≢◌, ◌⊎◌, refl, ap, ap₂, sym, ◌∙◌, arith, true, false, not,
  ◌&&◌, ◌||◌, ◌==◌, ==_iff, List, [], ◌∷◌, ◌++◌, length, take, drop, get_or, bit_xor, take-append,
  le→ltb, Bool-cases, inl, inr,
}
use tweetnacl_modular.Base.Int.{ok, failed}
use tweetnacl_modular.Bits.{bit_xor_cancel}
use tweetnacl_modular.Memory.{Ptr, at, is_null, same, contents, write_at}
use tweetnacl_modular.Stream.{
  xor_bytes, start_block, stream_loop, max_message, crypto_stream_salsa20_xor, crypto_stream_xor,
  subkey,
}
use tweetnacl_modular.Salsa.{crypto_core_hsalsa20, sigma}
use tweetnacl_modular.Bytes.Value.{le_bytes}
use tweetnacl_modular.Stream.Keystream.{keystream, stream_loop-keystream, xor_bytes-suc}

-- The first eight bytes of a nonce.
abbrev pub nonce_of : List ℕ → List ℕ
nonce_of n =
    get_or n 0 0
    ∷ get_or n 1 0
    ∷ get_or n 2 0
    ∷ get_or n 3 0
    ∷ get_or n 4 0
    ∷ get_or n 5 0
    ∷ get_or n 6 0
    ∷ get_or n 7 0
    ∷ []

start_block-nonce_of : (n : List ℕ) → start_block n ≡ nonce_of n ++ le_bytes 8 0
unfolding start_block le_bytes
start_block-nonce_of n = refl

-- The bytes that a nonce and a key combine with a message of `b` bytes.
unfoldable pub pad : ℕ → List ℕ → List ℕ → List ℕ
pad b n k = keystream (b / 64 + 1) (nonce_of n) 0 k

-- The arguments that the function works on.
pub record IsUsable (c m : Ptr) (b : ℕ) (n k : Ptr) : Type 0 where
  pub short : b ≤ max_message
  pub c_there : is_null c ≡ false
  pub n_there : is_null n ≡ false
  pub k_there : is_null k ≡ false
  pub apart : (not (is_null m) && same m c) ≡ false

pub length-xor_bytes : (n i : ℕ) (m : Ptr) (x : List ℕ) → length (xor_bytes n i m x) ≡ n
unfolding xor_bytes
length-xor_bytes zero i m x = refl
length-xor_bytes (suc n) i m x = ap suc (length-xor_bytes n (suc i) m x)

loop-pad :
    (b : ℕ) (m : Ptr) (n k : List ℕ)
    → stream_loop (b / 64 + 1) b m (start_block n) k ≡ xor_bytes b 0 m (pad b n k)
unfolding pad
loop-pad b m n k =
    rw (start_block-nonce_of n)
      (stream_loop-keystream (b / 64 + 1) b m (nonce_of n) k 0 refl (omega arith))

no_rounds : (b : ℕ) → b ≡ 0 → (m : Ptr) (x : List ℕ) → xor_bytes b 0 m x ≡ []
unfolding xor_bytes
no_rounds b e m x = rw e refl

-- On usable arguments the function returns 0, and the first `b` bytes of `c` become the message
-- (or zeros, for a NULL message) combined with the keystream of the Salsa20 specification; the
-- rest of `c` stays.
pub crypto_stream_salsa20_xor-pad :
    (c m : Ptr) (b : ℕ) (n k : Ptr)
    → IsUsable c m b n k
    → crypto_stream_salsa20_xor c m b n k ≡ record {
      status = ok;
      out = write_at 0 (xor_bytes b 0 m (pad b (contents n) (contents k))) (contents c);
    }
unfolding crypto_stream_salsa20_xor
crypto_stream_salsa20_xor-pad c m b n k u = elim (Bool-cases (b == 0)) [
  | inl none_left ↦ rw none_left (
      ap (λ t. record { status = ok; out = write_at 0 t (contents c) })
        (sym (no_rounds b ((==_iff b 0).0 none_left) m _)))
  | inr some_left ↦
      rw (some_left, le→ltb max_message b u.short, u.c_there, u.n_there, u.k_there, u.apart)
        (ap (λ t. record { status = ok; out = write_at 0 t (contents c) })
          (loop-pad b m (contents n) (contents k)))
]

-- Combining twice with the same keystream gives the message back.
pub xor_bytes_twice :
    (b p q : ℕ) (msg r x : List ℕ)
    → b ≤ length msg
    → xor_bytes b 0 (at p (xor_bytes b 0 (at q msg) x ++ r)) x ≡ take b msg
unfolding xor_bytes
xor_bytes_twice zero p q msg r x h = refl
xor_bytes_twice (suc b) p q [] r x h = absurd (omega arith)
xor_bytes_twice (suc b) p q (a ∷ msg) r x h =
    let head = get_or x 0 0 in
    let tail = xor_bytes b 1 (at q (a ∷ msg)) x in
    ap₂ ◌∷◌ (bit_xor_cancel a head) (
      xor_bytes-suc b 0 (at p (bit_xor a head ∷ tail ++ r)) x
      ∙ ap (λ t. xor_bytes b 0 (at (p + 1) (t ++ r)) (drop 1 x))
          (xor_bytes-suc b 0 (at q (a ∷ msg)) x)
      ∙ xor_bytes_twice b (p + 1) (q + 1) msg r (drop 1 x) (omega arith))

-- What a call wrote, read back.
pub take-write_at : (b : ℕ) (new old : List ℕ) → length new ≡ b → take b (write_at 0 new old) ≡ new
take-write_at b new old h = take-append b new _ (sym h)

-- A call on NULL, on more than 256 MiB or on a message that is the output buffer returns -1 and
-- leaves the output alone, if there is anything to do.
pub crypto_stream_salsa20_xor_rejects :
    (c m : Ptr) (b : ℕ) (n k : Ptr)
    → b ≢ 0
    → (max_message < b)
      ⊎ ((is_null c || (is_null n || is_null k)) || (not (is_null m) && same m c) ≡ true)
    → crypto_stream_salsa20_xor c m b n k ≡ record { status = failed; out = contents c }
unfolding crypto_stream_salsa20_xor
crypto_stream_salsa20_xor_rejects c m b n k work why = ground arith

-- The keystream of `crypto_stream_xor`: the rest of the nonce, under the derived key.
unfoldable pub xpad : ℕ → List ℕ → List ℕ → List ℕ
xpad b n k = pad b (drop 16 n) (crypto_core_hsalsa20 n k sigma)

pub crypto_stream_xor-xpad :
    (pc pm pn pk b : ℕ) (buf msg n k : List ℕ)
    → pm ≢ pc
    → b ≤ max_message
    → crypto_stream_xor (at pc buf) (at pm msg) b (at pn n) (at pk k)
      ≡ record { status = ok; out = write_at 0 (xor_bytes b 0 (at pm msg) (xpad b n k)) buf }
unfolding crypto_stream_xor subkey xpad
crypto_stream_xor-xpad pc pm pn pk b buf msg n k apart short =
    crypto_stream_salsa20_xor-pad (at pc buf) (at pm msg) b (at (pn + 16) (drop 16 n))
      (at 0 (crypto_core_hsalsa20 n k sigma))
      (record {
        short = short;
        c_there = refl;
        n_there = refl;
        k_there = refl;
        apart = ground arith;
      })

-- `crypto_stream_xor` on its own output, with the same nonce and key, gives back the first `b`
-- bytes of the message, whatever the buffers held, and both calls return 0, if `b` is at most
-- 256 MiB and no larger than the message, and each output buffer is not the input buffer.
pub crypto_stream_xor_twice :
    (pc pm pd pn pk b : ℕ) (buf msg buf2 n k : List ℕ)
    → pm ≢ pc
    → pc ≢ pd
    → b ≤ max_message
    → b ≤ length msg
    → let first = crypto_stream_xor (at pc buf) (at pm msg) b (at pn n) (at pk k) in
      let second = crypto_stream_xor (at pd buf2) (at pc first.out) b (at pn n) (at pk k) in
      (first.status ≡ ok) × (second.status ≡ ok) × (take b second.out ≡ take b msg)
crypto_stream_xor_twice pc pm pd pn pk b buf msg buf2 n k apart apart' short fits =
    rw
      (
        crypto_stream_xor-xpad pc pm pn pk b buf msg n k apart short,
        crypto_stream_xor-xpad pd pc pn pk b buf2
            (write_at 0 (xor_bytes b 0 (at pm msg) (xpad b n k)) buf) n k apart' short,
      )
      (
        refl,
        refl,
        take-write_at b _ buf2 (length-xor_bytes b 0 _ _)
            ∙ xor_bytes_twice b pc pm msg _ (xpad b n k) fits,
      )
