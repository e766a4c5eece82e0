-- ===== src/Sha512/Hash.antt =====
-- `crypto_hash` computes SHA-512.
use tweetnacl_modular.Base.{
  ℕ, ◌+◌, ◌-◌, ◌*◌, ◌/◌, ◌%◌, ◌^◌, ◌≤◌, ◌<◌, ◌≡◌, inl, inr, refl, ap, ap₂, sym, ◌∙◌, arith, List,
  ◌∷◌, ◌++◌, length, All-drop, take, drop, replicate, le→ltb, lt→ltb, le-or-lt, if◌then◌else◌,
  length-drop, length-take, length-append, take_all, drop-append_le, append-nil, take-append-drop,
  drop-take, drop_all,
}
use tweetnacl_modular.Base.Int.{ok}
use tweetnacl_modular.Memory.{at, write_at}
use tweetnacl_modular.Bytes.{IsBytes}
use tweetnacl_modular.Sha512.{
  last_blocks, last_size, hashed, hash_loop, load_words, store_words, crypto_hashblocks,
  crypto_hash,
}
use tweetnacl_modular.Sha512.Constants.{iv}
use tweetnacl_modular.Sha512.Reference.{
  padded, be_bytes, sha_blocks, words_of, digest_bytes, sha512,
}
use tweetnacl_modular.Sha512.Blocks.{
  IsState, load_words-words_of, hash_loop-sha_blocks, sha_blocks-IsState, sha_blocks-append,
  sha_blocks-add, load_words-store_words, store_words-digest_bytes, length-digest_bytes,
}
use tweetnacl_modular.Sha512.Padding.{tail_of, length-tail_of, filled, last_blocks-IsBytes}

iv-IsBytes : IsBytes iv
iv-IsBytes = ground arith

start-IsState : IsState (words_of 8 iv)
unfolding words_of
start-IsState = (refl, ground arith)

pub length-sha512 : (m : List ℕ) → length (sha512 m) ≡ 64
unfolding sha512
length-sha512 m =
    let state =
      sha_blocks-IsState ((length m + 17 + 127) / 128) (padded m) (words_of 8 iv) start-IsState in
    length-digest_bytes _ ∙ ap (λ k. 8 * k) state.0

length-store_words : (z : List ℕ) → IsState z → length (store_words z) ≡ 64
length-store_words z h =
    ap length (store_words-digest_bytes z) ∙ length-digest_bytes z ∙ omega (arith, h.0)

-- A call on a state that is stored hashes the whole blocks, and writes over it.
hashblocks_lem :
    (a b : ℕ) (x m z : List ℕ) (n : ℕ)
    → load_words 8 x ≡ z
    → IsState z
    → length x ≡ 64
    → n ≤ length m
    → IsBytes m
    → (crypto_hashblocks (at a x) (at b m) n).out ≡ store_words (sha_blocks (n / 128) m z)
unfolding crypto_hashblocks hashed
hashblocks_lem a b x m z n loaded state size fits hm =
    let new = store_words (sha_blocks (n / 128) m z) in
    let same : hash_loop (n / 128) n m (load_words 8 x) ≡ sha_blocks (n / 128) m z =
      ap (hash_loop (n / 128) n m) loaded
      ∙ hash_loop-sha_blocks (n / 128) n m z refl fits hm state.0 in
    let wide : length x ≤ 0 + length new = omega (
      arith,
      length-store_words (sha_blocks (n / 128) m z) (sha_blocks-IsState (n / 128) m z state),
    ) in
    ap (λ t. write_at 0 (store_words t) x) same
    ∙ ap (λ t. new ++ t) (drop_all (0 + length new) x wide)
    ∙ append-nil new

-- The zeros of the padding, and the blocks it takes.
record IsFilled (n z : ℕ) : Type 0 where
  fill : n % 128 + 17 + z ≡ last_size (n % 128)
  zeros : z ≡ (128 - (n + 17) % 128) % 128
  blocks : (n + 17 + 127) / 128 ≡ n / 128 + last_size (n % 128) / 128
  most : last_size (n % 128) ≤ 256

filling : (n : ℕ) → IsFilled n (last_size (n % 128) - (n % 128 + 17))
filling n = elim (le-or-lt 112 (n % 128)) [
  | inl late ↦
      let size : last_size (n % 128) ≡ 256 =
        ap (λ b. 256 - 128 * (if b then 1 else 0)) (le→ltb (n % 128) 112 late) in
      record {
        fill = omega (arith, size);
        zeros = omega (arith, size);
        blocks = omega (arith, size);
        most = omega (arith, size);
      }
  | inr early ↦
      let size : last_size (n % 128) ≡ 128 =
        ap (λ b. 256 - 128 * (if b then 1 else 0)) (lt→ltb (n % 128) 112 early) in
      record {
        fill = omega (arith, size);
        zeros = omega (arith, size);
        blocks = omega (arith, size);
        most = omega (arith, size);
      }
]

module _ (m : List ℕ) (n : ℕ) (wide : n < 2 ^ 64) (fits : n ≤ length m) (hm : IsBytes m) where
  abbrev left : ℕ
  left = n % 128

  abbrev tail : List ℕ
  tail = tail_of (last_size left - (left + 17)) n

  abbrev over : List ℕ
  over = drop (n - left) m

  abbrev middle : List ℕ
  middle = sha_blocks (n / 128) m (words_of 8 iv)

  middle-IsState : IsState middle
  middle-IsState = sha_blocks-IsState (n / 128) m (words_of 8 iv) start-IsState

  length-over : left ≤ length over
  length-over = omega (arith, length-drop (n - left) m)

  last_filled : take (last_size left) (last_blocks over n) ≡ take left over ++ tail
  last_filled =
      let v = filling n in
      filled over n (last_size left - (left + 17)) wide length-over v.fill v.most

  length-padding : length (take left over ++ tail) ≡ last_size left
  length-padding =
      let v = filling n in
      omega (
        arith,
        length-append (take left over) tail,
        length-take left over,
        length-over,
        length-tail_of (last_size left - (left + 17)) n,
        v.fill,
      )

  room : last_size left ≤ length (last_blocks over n)
  room = omega (
    arith,
    ap length last_filled,
    length-take (last_size left) (last_blocks over n),
    length-padding,
  )

  -- The second call hashes what is left and the padding.
  last_hashed :
      sha_blocks (last_size left / 128) (last_blocks over n) middle
      ≡ sha_blocks (last_size left / 128) (take left over ++ tail) middle
  last_hashed =
      let x = last_blocks over n in
      ap (λ t. sha_blocks (last_size left / 128) t middle)
        (sym (take-append-drop (last_size left) x))
      ∙ sha_blocks-append (last_size left / 128) (take (last_size left) x) (drop (last_size left) x)
          middle (omega (arith, length-take (last_size left) x, room))
      ∙ ap (λ t. sha_blocks (last_size left / 128) t middle) last_filled

  padded-tail : padded (take n m) ≡ take n m ++ tail
  unfolding padded tail_of
  padded-tail =
      let v = filling n in
      let size : length (take n m) ≡ n = omega (arith, length-take n m) in
      rw size (ap (λ z. take n m ++ (128 ∷ (replicate z 0 ++ be_bytes 16 (8 * n)))) (sym v.zeros))

  -- The specification splits at the whole blocks.
  split_lem :
      sha_blocks ((length (take n m) + 17 + 127) / 128) (padded (take n m)) (words_of 8 iv)
      ≡ sha_blocks (last_size left / 128) (take left over ++ tail) middle
  split_lem =
      let v = filling n in
      let start = words_of 8 iv in
      let size : length (take n m) ≡ n = omega (arith, length-take n m) in
      let whole : 128 * (n / 128) ≤ length (take n m) = omega (arith, size) in
      let first : sha_blocks (n / 128) (take n m ++ tail) start ≡ middle =
        sha_blocks-append (n / 128) (take n m) tail start whole
        ∙ sym (sha_blocks-append (n / 128) (take n m) (drop n m) start whole)
        ∙ ap (λ t. sha_blocks (n / 128) t start) (take-append-drop n m) in
      let rest : drop (n - left) (take n m ++ tail) ≡ take left over ++ tail =
        drop-append_le (n - left) (take n m) tail (omega (arith, size))
        ∙ ap (λ t. t ++ tail) (drop-take (n - left) n left m (omega arith)) in
      ap₂ (λ c t. sha_blocks c t start) (ap (λ l. (l + 17 + 127) / 128) size ∙ v.blocks) padded-tail
      ∙ sha_blocks-add (n / 128) (last_size left / 128) (n - left) (take n m ++ tail) start
          (omega arith)
      ∙ ap₂ (sha_blocks (last_size left / 128)) rest first

  abbrev final : List ℕ
  final = sha_blocks (last_size left / 128) (last_blocks over n) middle

  -- The two calls, one after the other.
  called_first : (pm : ℕ) → (crypto_hashblocks (at 0 iv) (at pm m) n).out ≡ store_words middle
  called_first pm =
      hashblocks_lem 0 pm iv m (words_of 8 iv) n (load_words-words_of 8 iv iv-IsBytes (omega arith))
        start-IsState refl fits hm

  called_last :
      (crypto_hashblocks
        (at 0 (store_words middle))
        (at 100 (last_blocks over n))
        (last_size left)).out
      ≡ store_words final
  called_last =
      hashblocks_lem 0 100 (store_words middle) (last_blocks over n) middle (last_size left)
        (load_words-store_words 8 middle middle-IsState.0 middle-IsState.1) middle-IsState
        (length-store_words middle middle-IsState) room
        (last_blocks-IsBytes over n (All-drop (λ b. b < 2 ^ 8) (n - left) m hm))

  final_lem : take 64 (store_words final) ≡ sha512 (take n m)
  unfolding sha512
  final_lem =
      let state =
        sha_blocks-IsState (last_size left / 128) (last_blocks over n) middle middle-IsState in
      take_all 64 (store_words final) (omega (arith, length-store_words final state))
      ∙ store_words-digest_bytes final
      ∙ ap digest_bytes (last_hashed ∙ sym split_lem)

  -- For a message of `n` bytes, `n` below 2 ^ 64, `crypto_hash` returns 0 and writes the SHA-512
  -- digest of FIPS 180-4 in the first 64 bytes of `out`.
  pub crypto_hash-sha512 :
      (po pm : ℕ) (buf : List ℕ)
      → crypto_hash (at po buf) (at pm m) n
        ≡ record { status = ok; out = write_at 0 (sha512 (take n m)) buf }
  unfolding crypto_hash
  crypto_hash-sha512 po pm buf =
      rw (called_first pm, called_last)
        (ap (λ t. record { status = ok; out = write_at 0 t buf }) final_lem)
