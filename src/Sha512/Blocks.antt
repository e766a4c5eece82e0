-- ===== src/Sha512/Blocks.antt =====
-- The loop of `crypto_hashblocks` is the hash function of FIPS 180-4 on whole blocks.
use tweetnacl_modular.Base.{
  ℕ, zero, suc, ◌+◌, ◌-◌, ◌*◌, ◌/◌, ◌^◌, ◌≤◌, ◌<◌, ◌≡◌, refl, ap, ap₂, ◌∙◌, arith, List, [], ◌∷◌,
  ◌++◌, length, All, All-drop, drop, length-drop, take-append_le, drop-append_le, drop-drop, le→ltb,
}
use tweetnacl_modular.Base.Read.{read_from_all}
use tweetnacl_modular.Bytes.{IsBytes, dl64, dl64_loop, ts64}
use tweetnacl_modular.Bytes.Value.{be_value}
use tweetnacl_modular.Bytes.Big.{dl64-be_value, dl64-ts64}
use tweetnacl_modular.Sha512.{
  entry, load_words, add_state, hash_rounds, hash_block, hash_loop, store_words,
}
use tweetnacl_modular.Sha512.Constants.{round_constants}
use tweetnacl_modular.Sha512.Reference.{
  words_of, sum64, sha_step, sha_steps, sha_block, sha_blocks, slide, be_bytes, digest_bytes,
}
use tweetnacl_modular.Sha512.Schedule.{slides, length-sha_step, hash_rounds-sha_steps}

pub load_words-words_of :
    (n : ℕ) (m : List ℕ) → IsBytes m → 8 * n ≤ length m → load_words n m ≡ words_of n m
unfolding load_words words_of
load_words-words_of zero m h l = refl
load_words-words_of (suc n) m h l = ap₂ ◌∷◌ (dl64-be_value m h (omega arith)) (
    load_words-words_of n (drop 8 m) (All-drop (λ b. b < 2 ^ 8) 8 m h)
      (omega (arith, length-drop 8 m)))

length-words_of : (n : ℕ) (m : List ℕ) → length (words_of n m) ≡ n
unfolding words_of
length-words_of zero m = refl
length-words_of (suc n) m = ap suc (length-words_of n (drop 8 m))

words_of-append :
    (n : ℕ) (xs ys : List ℕ) → 8 * n ≤ length xs → words_of n (xs ++ ys) ≡ words_of n xs
unfolding words_of
words_of-append zero xs ys h = refl
words_of-append (suc n) xs ys h =
    ap₂ (λ a b. be_value a ∷ b) (take-append_le 8 xs ys (omega arith))
      (ap (words_of n) (drop-append_le 8 xs ys (omega arith))
        ∙ words_of-append n (drop 8 xs) ys (omega (arith, length-drop 8 xs)))

length-sha_steps :
    (n t : ℕ) (v window : List ℕ) → length v ≡ 8 → length (sha_steps n t v window) ≡ 8
unfolding sha_steps
length-sha_steps zero t v window e = e
length-sha_steps (suc n) t v window e =
    length-sha_steps n (suc t) (sha_step v (entry round_constants t) (entry window 0))
      (slide window) (length-sha_step v (entry round_constants t) (entry window 0))

added :
    (a0 a1 a2 a3 a4 a5 a6 a7 z0 z1 z2 z3 z4 z5 z6 z7 : ℕ)
    → add_state
        (a0 ∷ a1 ∷ a2 ∷ a3 ∷ a4 ∷ a5 ∷ a6 ∷ a7 ∷ [])
        (z0 ∷ z1 ∷ z2 ∷ z3 ∷ z4 ∷ z5 ∷ z6 ∷ z7 ∷ [])
      ≡ sum64 a0 z0
        ∷ sum64 a1 z1
        ∷ sum64 a2 z2
        ∷ sum64 a3 z3
        ∷ sum64 a4 z4
        ∷ sum64 a5 z5
        ∷ sum64 a6 z6
        ∷ sum64 a7 z7
        ∷ []
unfolding add_state
added a0 a1 a2 a3 a4 a5 a6 a7 z0 z1 z2 z3 z4 z5 z6 z7 = refl

-- One block.
pub hash_block-sha_block :
    (z m : List ℕ) → length z ≡ 8 → IsBytes m → 128 ≤ length m → hash_block z m ≡ sha_block z m
unfolding hash_block sha_block
hash_block-sha_block z m ez hm l =
    let w = sha_steps 80 0 z (words_of 16 m) in
    let same : hash_rounds 80 0 z (load_words 16 m) ≡ w =
      ap (hash_rounds 80 0 z) (load_words-words_of 16 m hm (omega arith))
      ∙ hash_rounds-sha_steps 80 0 z (words_of 16 m) ez (length-words_of 16 m)
      ∙ unfold slides in refl in
    ap (λ t. add_state t z) same
    ∙ ap₂ add_state (read_from_all 8 w (length-sha_steps 80 0 z (words_of 16 m) ez))
        (read_from_all 8 z ez)
    ∙ added _ _ _ _ _ _ _ _ _ _ _ _ _ _ _ _

abbrev pub IsState : List ℕ → Type 0
IsState v = (length v ≡ 8) × All (λ w. w < 2 ^ 64) v

wraps : (a b : ℕ) → sum64 a b < 2 ^ 64
wraps a b = omega arith

pub sha_block-IsState : (v m : List ℕ) → IsState (sha_block v m)
unfolding sha_block
sha_block-IsState v m = (
  refl,
  (
    wraps _ _,
    (wraps _ _, (wraps _ _, (wraps _ _, (wraps _ _, (wraps _ _, (wraps _ _, (wraps _ _, tt))))))),
  ),
)

pub sha_blocks-IsState : (n : ℕ) (m v : List ℕ) → IsState v → IsState (sha_blocks n m v)
unfolding sha_blocks
sha_blocks-IsState zero m v h = h
sha_blocks-IsState (suc n) m v h =
    sha_blocks-IsState n (drop 128 m) (sha_block v m) (sha_block-IsState v m)

-- With fuel for the whole blocks, the loop hashes them all.
pub hash_loop-sha_blocks :
    (fuel n : ℕ) (m z : List ℕ)
    → fuel ≡ n / 128
    → n ≤ length m
    → IsBytes m
    → length z ≡ 8
    → hash_loop fuel n m z ≡ sha_blocks fuel m z
unfolding hash_loop sha_blocks
hash_loop-sha_blocks zero n m z ef l hm ez = refl
hash_loop-sha_blocks (suc fuel) n m z ef l hm ez =
    rw (le→ltb n 128 (omega arith), hash_block-sha_block z m ez hm (omega arith))
      (hash_loop-sha_blocks fuel (n - 128) (drop 128 m) (sha_block z m) (omega arith)
        (omega (arith, length-drop 128 m)) (All-drop (λ b. b < 2 ^ 8) 128 m hm)
        (sha_block-IsState z m).0)

pub sha_blocks-append :
    (n : ℕ) (xs ys v : List ℕ) → 128 * n ≤ length xs → sha_blocks n (xs ++ ys) v ≡ sha_blocks n xs v
unfolding sha_blocks sha_block
sha_blocks-append zero xs ys v h = refl
sha_blocks-append (suc n) xs ys v h =
    rw (words_of-append 16 xs ys (omega arith), drop-append_le 128 xs ys (omega arith))
      (sha_blocks-append n (drop 128 xs) ys _ (omega (arith, length-drop 128 xs)))

pub sha_blocks-add :
    (p q d : ℕ) (m v : List ℕ)
    → d ≡ 128 * p
    → sha_blocks (p + q) m v ≡ sha_blocks q (drop d m) (sha_blocks p m v)
unfolding sha_blocks
sha_blocks-add zero q d m v e =
    let same : 0 + q ≡ q = omega arith in
    let none : 0 ≡ d = omega arith in
    ap (λ t. sha_blocks t m v) same ∙ ap (λ t. sha_blocks q (drop t m) v) none
sha_blocks-add (suc p) q d m v e =
    let same : suc p + q ≡ suc (p + q) = omega arith in
    ap (λ t. sha_blocks t m v) same
    ∙ sha_blocks-add p q (d - 128) (drop 128 m) (sha_block v m) (omega arith)
    ∙ ap (λ t. sha_blocks q t (sha_blocks p (drop 128 m) (sha_block v m)))
        (drop-drop (d - 128) 128 d m (omega arith))

-- Words that are stored and loaded again.
load_stored : (w : ℕ) (rest : List ℕ) → dl64 (ts64 w ++ rest) ≡ dl64 (ts64 w)
unfolding dl64 dl64_loop ts64
load_stored w rest = refl

skip_stored : (w : ℕ) (rest : List ℕ) → drop 8 (ts64 w ++ rest) ≡ rest
unfolding ts64
skip_stored w rest = refl

pub load_words-store_words :
    (n : ℕ) (ws : List ℕ)
    → length ws ≡ n
    → All (λ w. w < 2 ^ 64) ws
    → load_words n (store_words ws) ≡ ws
unfolding load_words store_words
load_words-store_words zero [] e h = refl
load_words-store_words zero (w ∷ ws) e h = absurd (omega arith)
load_words-store_words (suc n) [] e h = absurd (omega arith)
load_words-store_words (suc n) (w ∷ ws) e h =
    ap₂ ◌∷◌ (load_stored w (store_words ws) ∙ dl64-ts64 w h.0) (
      ap (load_words n) (skip_stored w (store_words ws))
      ∙ load_words-store_words n ws (omega arith) h.1)

pub store_words-digest_bytes : (ws : List ℕ) → store_words ws ≡ digest_bytes ws
unfolding store_words digest_bytes ts64 be_bytes
store_words-digest_bytes [] = refl
store_words-digest_bytes (w ∷ ws) = ap (λ t. be_bytes 8 w ++ t) (store_words-digest_bytes ws)

pub length-digest_bytes : (ws : List ℕ) → length (digest_bytes ws) ≡ 8 * length ws
unfolding digest_bytes be_bytes
length-digest_bytes [] = refl
length-digest_bytes (w ∷ ws) = omega (arith, length-digest_bytes ws)
