-- ===== src/Sha512/Truncated/Collision.antt =====
-- What the truncated hashes do not read.
use tweetnacl_modular.Base.{
  ℕ, zero, suc, ◌+◌, ◌-◌, ◌*◌, ◌/◌, ◌%◌, ◌==◌, ◌≡◌, refl, sym, ap, ◌∙◌, arith, min, List, [], ◌∷◌,
  ◌++◌, length, length-append, length-set, length-take, take, drop, drop_all, append-nil, replicate,
  set, if◌then◌else◌,
}
use tweetnacl_modular.Base.Int.{ok}
use tweetnacl_modular.Memory.{Ptr, contents, write_at}
use tweetnacl_modular.Word.{u8, u64, ◌<<◌, ◌>>◌}
use tweetnacl_modular.Bytes.{ts64}
use tweetnacl_modular.Bytes.Big.{length-ts64}
use tweetnacl_modular.Sha512.{
  entry, load_words, add_state, store_words, extend, last_blocks, last_size,
}
use tweetnacl_modular.Sha512.Constants.{round_constants}
use tweetnacl_modular.Sha512.Truncated.{
  step_copy, step_copies, copied_block, copied_loop, sha512_blocks, hash_with_iv, iv_sha512_256,
  iv_sha512_224, crypto_hash_sha512_256, crypto_hash_sha512_224,
}

length-load_words : (n : ℕ) (m : List ℕ) → length (load_words n m) ≡ n
unfolding load_words
length-load_words zero m = refl
length-load_words (suc n) m = ap suc (length-load_words n (drop 8 m))

length-store_words : (z : List ℕ) → length (store_words z) ≡ 8 * length z
unfolding store_words
length-store_words [] = refl
length-store_words (w ∷ ws) =
    omega (arith, length-append (ts64 w) (store_words ws), length-ts64 w, length-store_words ws)

length-add_state : (a z : List ℕ) → length (add_state a z) ≡ min (length a) (length z)
unfolding add_state
length-add_state [] z = omega arith
length-add_state (a ∷ rest) [] = omega arith
length-add_state (a ∷ rest) (z ∷ zs) = omega (arith, length-add_state rest zs)

-- Both states of a round have eight words.
IsPair : List ℕ × List ℕ → Type 0
IsPair s = (length s.0 ≡ 8) × (length s.1 ≡ 8)

step_copy-IsPair : (k w : ℕ) (z : List ℕ) → length z ≡ 8 → IsPair (step_copy k w z)
unfolding step_copy IsPair
step_copy-IsPair k w z e =
    let a = (step_copy k w z).0 in
    let size : length a ≡ 8 = length-set (set z 7 _) 3 _ ∙ length-set z 7 _ ∙ e in
    (size, omega (arith, size, length-take 7 a))

step_copies-IsPair :
    (n i : ℕ) (s : List ℕ × List ℕ) (w : List ℕ) → IsPair s → IsPair (step_copies n i s w)
unfolding step_copies IsPair
step_copies-IsPair zero i s w h = h
step_copies-IsPair (suc n) i s w h =
    step_copies-IsPair n (suc i) (step_copy (entry round_constants i) (entry w (i % 16)) s.1)
      (if i % 16 == 15 then extend w else w)
      (step_copy-IsPair (entry round_constants i) (entry w (i % 16)) s.1 h.1)

length-copied_block : (z m : List ℕ) → length z ≡ 8 → length (copied_block z m) ≡ 8
unfolding copied_block IsPair
length-copied_block z m e =
    let s = step_copies 80 0 (z, z) (load_words 16 m) in
    let h = step_copies-IsPair 80 0 (z, z) (load_words 16 m) (e, e) in
    omega (arith, length-add_state s.0 s.1, h.0, h.1)

length-copied_loop :
    (fuel n : ℕ) (m z : List ℕ) → length z ≡ 8 → length (copied_loop fuel n m z) ≡ 8
unfolding copied_loop
length-copied_loop zero n m z e = e
length-copied_loop (suc fuel) n m z e =
    let rest =
      length-copied_loop fuel (n - 128) (drop 128 m) (copied_block z m)
        (length-copied_block z m e) in
    ground arith

-- The words that `sha512_blocks` stores.
digest : List ℕ → ℕ → List ℕ → List ℕ
digest m n start = store_words (copied_loop (n / 128) n m (load_words 8 start))

length-digest : (m : List ℕ) (n : ℕ) (start : List ℕ) → length (digest m n start) ≡ 64
unfolding digest
length-digest m n start =
    length-store_words (copied_loop (n / 128) n m (load_words 8 start))
    ∙ ap (λ k. 8 * k)
        (length-copied_loop (n / 128) n m (load_words 8 start) (length-load_words 8 start))

-- They fill the buffer, so that nothing is left of what was there.
sha512_blocks-digest :
    (x m : List ℕ) (n : ℕ) (start : List ℕ)
    → length x ≡ 64
    → sha512_blocks x m n start ≡ digest m n start
unfolding sha512_blocks digest
sha512_blocks-digest x m n start e =
    let new = digest m n start in
    let all : drop (0 + length new) x ≡ [] =
      drop_all (0 + length new) x (omega (arith, e, length-digest m n start)) in
    ap (λ t. new ++ t) all ∙ append-nil new

last_blocks-take :
    (m m' : List ℕ) (b : ℕ)
    → take (b % 128) m ≡ take (b % 128) m'
    → last_blocks m b ≡ last_blocks m' b
unfolding last_blocks
last_blocks-take m m' b e =
    let left = b % 128 in
    ap
      (λ t.
        write_at (last_size left - 8) (ts64 (u64 (b << 3)))
          (set (set (t ++ replicate (256 - left) 0) left 128) (last_size left - 9) (u8 (b >> 61))))
      e

-- The first call of `sha512_blocks` has no part in the result.
hash_with_iv-digest :
    (out : Ptr) (m : List ℕ) (n : ℕ) (start : List ℕ) (outlen : ℕ)
    → hash_with_iv out m n start outlen ≡ record {
      status = ok;
      out =
          write_at 0
            (take outlen
              (digest (last_blocks (drop (n - n % 128) m) n) (last_size (n % 128)) start))
            (contents out);
    }
unfolding hash_with_iv
hash_with_iv-digest out m n start outlen =
    let h = sha512_blocks (replicate 64 0) m n start in
    let x = last_blocks (drop (n - n % 128) m) n in
    let size : length h ≡ 64 =
      ap length (sha512_blocks-digest (replicate 64 0) m n start refl) ∙ length-digest m n start in
    ap (λ t. record { status = ok; out = write_at 0 (take outlen t) (contents out) })
      (sha512_blocks-digest h x (last_size (n % 128)) start size)

hash_with_iv-tail :
    (out : Ptr) (m m' : List ℕ) (n : ℕ) (start : List ℕ) (outlen : ℕ)
    → take (n % 128) (drop (n - n % 128) m) ≡ take (n % 128) (drop (n - n % 128) m')
    → hash_with_iv out m n start outlen ≡ hash_with_iv out m' n start outlen
hash_with_iv-tail out m m' n start outlen e =
    hash_with_iv-digest out m n start outlen
    ∙ ap
        (λ x. record {
          status = ok;
          out = write_at 0 (take outlen (digest x (last_size (n % 128)) start)) (contents out);
        })
        (last_blocks-take (drop (n - n % 128) m) (drop (n - n % 128) m') n e)
    ∙ sym (hash_with_iv-digest out m' n start outlen)

-- Two messages of `n` bytes whose last `n % 128` bytes agree have the same SHA-512/256 and the same
-- SHA-512/224 by these functions: the whole blocks before them have no part in the result.
pub crypto_hash_sha512_collide :
    (out : Ptr) (m m' : List ℕ) (n : ℕ)
    → take (n % 128) (drop (n - n % 128) m) ≡ take (n % 128) (drop (n - n % 128) m')
    → (crypto_hash_sha512_256 out m n ≡ crypto_hash_sha512_256 out m' n)
      × (crypto_hash_sha512_224 out m n ≡ crypto_hash_sha512_224 out m' n)
unfolding crypto_hash_sha512_256 crypto_hash_sha512_224
crypto_hash_sha512_collide out m m' n e = (
  hash_with_iv-tail out m m' n iv_sha512_256 32 e,
  hash_with_iv-tail out m m' n iv_sha512_224 28 e,
)
