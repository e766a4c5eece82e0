-- ===== src/Ed25519/Sign/Opened.antt =====
-- `crypto_sign_open`: when it accepts, and what it leaves.
use tweetnacl_modular.Base.{
  ℕ, ◌-◌, ◌^◌, ◌<◌, ◌≤◌, ◌≡◌, ◌≢◌, ◌⊎◌, inl, inr, refl, sym, ap, ap₂, ◌∙◌, arith, List, [], ◌∷◌,
  ◌++◌, ◌+◌, ◌==◌, false, take-append, take_split, append_assoc, length-append, All-append, length,
  take, drop, replicate, map, All-drop, All-take, bit_and, le→ltb, lt→ltb, none, some, length-take,
  length-drop, take_all, le-or-lt, Option-cases,
}
use tweetnacl_modular.Base.Int.{ℤ, ok, failed}
use tweetnacl_modular.Bits.{mask-bit_and, bit_and_comm, bit_and-zero}
use tweetnacl_modular.Bytes.{IsBytes}
use tweetnacl_modular.Memory.{at, write_at}
use tweetnacl_modular.Memory.Writes.{over_second}
use tweetnacl_modular.Sha512.Reference.{sha512}
use tweetnacl_modular.Verify.{crypto_verify_32}
use tweetnacl_modular.Verify.Equal.{vn_lem}
use tweetnacl_modular.Utils.{size_max}
use tweetnacl_modular.Ed25519.{Point, unpackneg, pack, add_points, scalarmult}
use tweetnacl_modular.Ed25519.Scalar.{reduce}
use tweetnacl_modular.Ed25519.Sign.Reference.{checked_half}
use tweetnacl_modular.Ed25519.Sign.Hashed.{hash_local-sha512}
use tweetnacl_modular.Ed25519.Packed.{length-pack, pack-IsBytes, scalarbase-take}
use tweetnacl_modular.Ed25519.Sign.{
  Message, expected_half, filled_with, recover, open_with, crypto_sign_open,
}

keep_all : (xs : List ℕ) → IsBytes xs → map (λ src. bit_and src (255 - 0)) xs ≡ xs
keep_all [] h = refl
keep_all (x ∷ xs) h = ap₂ ◌∷◌ (bit_and_comm x 255 ∙ mask-bit_and 8 x h.0) (keep_all xs h.1)

clear_all : (xs : List ℕ) → map (λ src. bit_and src (255 - 255)) xs ≡ replicate (length xs) 0
clear_all [] = refl
clear_all (x ∷ xs) = ap₂ ◌∷◌ (bit_and-zero x) (clear_all xs)

expected_half-pack :
    (q : Point) (filled : List ℕ) (n : ℕ) (sm : List ℕ)
    → (length (expected_half q filled n sm) ≡ 32) × IsBytes (expected_half q filled n sm)
unfolding expected_half
expected_half-pack q filled n sm = (length-pack _, pack-IsBytes _)

-- The signed message with the key over its second half: its first `n` bytes, and all of it.
filled_parts :
    (n : ℕ) (m sm pk : List ℕ)
    → n ≤ length sm
    → 64 ≤ n
    → 32 ≤ length pk
    → let text = take (n - 64) (drop 64 sm) in
      (take n (filled_with m sm n pk) ≡ take 32 sm ++ (take 32 pk ++ text))
      × (filled_with m sm n pk ≡ take 32 sm ++ (take 32 pk ++ (text ++ drop n m)))
      × (n ≤ length (filled_with m sm n pk))
filled_parts n m sm pk fits long key =
    let r = take 32 sm in
    let s = take 32 (drop 32 sm) in
    let a = take 32 pk in
    let text = take (n - 64) (drop 64 sm) in
    let er : length r ≡ 32 = omega (arith, length-take 32 sm) in
    let es : length s ≡ 32 = omega (arith, length-take 32 (drop 32 sm), length-drop 32 sm) in
    let ea : length a ≡ 32 = omega (arith, length-take 32 pk) in
    let et : length text ≡ n - 64 =
      omega (arith, length-take (n - 64) (drop 64 sm), length-drop 64 sm) in
    let count : length (take n sm) ≡ n = omega (arith, length-take n sm) in
    let split : take n sm ≡ r ++ (s ++ text) =
      take_split 64 (n - 64) n sm (omega arith)
      ∙ ap (λ t. t ++ text) (take_split 32 32 64 sm refl)
      ∙ append_assoc r s text in
    let first : write_at 0 (take n sm) m ≡ r ++ (s ++ (text ++ drop n m)) =
      ap (λ k. take n sm ++ drop (0 + k) m) count
      ∙ ap (λ k. take n sm ++ drop k m) (omega arith)
      ∙ ap (λ t. t ++ drop n m) split
      ∙ append_assoc r (s ++ text) (drop n m)
      ∙ ap (λ t. r ++ t) (append_assoc s text (drop n m)) in
    let all : filled_with m sm n pk ≡ r ++ (a ++ (text ++ drop n m)) =
      ap (λ t. write_at 32 a t) first
      ∙ over_second 32 a r s (text ++ drop n m) (sym er) (ea ∙ sym es) in
    let front = r ++ (a ++ text) in
    let regroup : r ++ (a ++ (text ++ drop n m)) ≡ front ++ drop n m =
      ap (λ t. r ++ t) (sym (append_assoc a text (drop n m)))
      ∙ sym (append_assoc r (a ++ text) (drop n m)) in
    let size : n ≡ length front =
      omega (arith, length-append r (a ++ text), length-append a text, er, ea, et) in
    (
      ap (take n) (all ∙ regroup) ∙ take-append n front (drop n m) size,
      all,
      omega (arith, ap length (all ∙ regroup), length-append front (drop n m), size),
    )

-- What is hashed, and what else the function compares with.
expected_half-checked_half :
    (n : ℕ) (m sm pk : List ℕ) (q : Point)
    → n ≤ length sm
    → 64 ≤ n
    → n ≤ size_max - 64
    → 32 ≤ length pk
    → IsBytes m
    → IsBytes sm
    → IsBytes pk
    → expected_half q (filled_with m sm n pk) n sm
      ≡ checked_half q (take 32 sm) (take 32 (drop 32 sm)) (take 32 pk) (take (n - 64) (drop 64 sm))
unfolding expected_half checked_half
expected_half-checked_half n m sm pk q fits long small key bm bytes bp =
    let filled = filled_with m sm n pk in
    let text = take (n - 64) (drop 64 sm) in
    let hashed = filled_parts n m sm pk fits long key in
    let size : n ≤ length filled = hashed.2 in
    let all = All-append (λ b. b < 2 ^ 8) in
    let whole : IsBytes filled = rw hashed.1 (
      all (take 32 sm) _ (All-take (λ b. b < 2 ^ 8) 32 sm bytes) (
        all (take 32 pk) _ (All-take (λ b. b < 2 ^ 8) 32 pk bp) (
          all text _
            (All-take (λ b. b < 2 ^ 8) (n - 64) (drop 64 sm)
              (All-drop (λ b. b < 2 ^ 8) 64 sm bytes))
            (All-drop (λ b. b < 2 ^ 8) n m bm)))) in
    ap₂ (λ h s. pack (add_points (scalarmult q (reduce h)) s))
      (hash_local-sha512 filled n size (omega arith) whole ∙ ap sha512 hashed.0)
      (scalarbase-take (drop 32 sm))

open_with_cases :
    (n : ℕ) (filled sm : List ℕ) (q : Point)
    → n ≤ length sm
    → 64 ≤ n
    → IsBytes sm
    → let t = expected_half q filled n sm in
      ((take 32 sm ≡ t)
        × (open_with q filled sm n ≡ record {
          status = ok;
          out = write_at 0 (take (n - 64) (drop 64 sm)) filled;
          mlen = some (n - 64);
        }))
      ⊎ ((take 32 sm ≢ t)
          × (open_with q filled sm n ≡ record {
            status = failed;
            out = write_at 0 (replicate (n - 64) 0) filled;
            mlen = some 0;
          }))
unfolding open_with recover crypto_verify_32
open_with_cases n filled sm q fits long bytes =
    let t = expected_half q filled n sm in
    let half = expected_half-pack q filled n sm in
    let whole : take 32 t ≡ t = take_all 32 t (omega (arith, half.0)) in
    let text = take (n - 64) (drop 64 sm) in
    let size : length text ≡ n - 64 =
      omega (arith, length-take (n - 64) (drop 64 sm), length-drop 64 sm) in
    let text_bytes =
      All-take (λ b. b < 2 ^ 8) (n - 64) (drop 64 sm) (All-drop (λ b. b < 2 ^ 8) 64 sm bytes) in
    let opened : ℤ → ℕ → List ℕ → Message =
      λ status count u. record { status = status; out = write_at 0 u filled; mlen = some count } in
    elim (vn_lem 32 sm t bytes half.1 (omega arith) (omega (arith, half.0))) [
      | inl (same, accepts) ↦
          inl (same ∙ whole, rw accepts (ap (opened ok (n - 64)) (keep_all text text_bytes)))
      | inr (differs, rejects) ↦ inr (
        λ e. differs (e ∙ sym whole),
        rw rejects (ap (opened failed 0) (clear_all text ∙ ap (λ k. replicate k 0) size)),
      )
    ]

-- For buffers that are not NULL, an output that is not the signed message's buffer, a key of 32
-- bytes and a signed message of `n` bytes: if `n` is below 64 or above the largest size less 64, or
-- the public key is not a point, `crypto_sign_open` returns -1 and changes nothing. Else let R and S
-- be the first and the second 32 bytes of the signed message, M what follows them, A the key, and t
-- the bytes of SB - hA, where h is the SHA-512 digest of R, A and M, reduced. If R is t, it returns
-- 0, writes M in front of its output, and gives its length. If not, it returns -1, the same bytes of
-- the output are 0, and the length is 0. Behind them the output keeps the copy of the signed message
-- with the key at 32.
pub crypto_sign_open_cases :
    (pm ps pp n old : ℕ) (m sm pk : List ℕ)
    → pm ≢ ps
    → n ≤ length sm
    → 32 ≤ length pk
    → IsBytes m
    → IsBytes sm
    → IsBytes pk
    → let r = crypto_sign_open (at pm m) (some old) (at ps sm) n (at pp pk) in
      (((n < 64) ⊎ (size_max - 64 < n) ⊎ (unpackneg pk ≡ none))
        × (r ≡ record { status = failed; out = m; mlen = some old }))
      ⊎ ((q : Point) × (unpackneg pk ≡ some q)
          × (64 ≤ n)
          × (n ≤ size_max - 64)
          × (let message = take (n - 64) (drop 64 sm) in
              let t = checked_half q (take 32 sm) (take 32 (drop 32 sm)) (take 32 pk) message in
              let filled = filled_with m sm n pk in
              ((take 32 sm ≡ t)
                × (r ≡ record {
                  status = ok;
                  out = write_at 0 message filled;
                  mlen = some (n - 64);
                }))
              ⊎ ((take 32 sm ≢ t)
                  × (r ≡ record {
                    status = failed;
                    out = write_at 0 (replicate (n - 64) 0) filled;
                    mlen = some 0;
                  }))))
unfolding crypto_sign_open
crypto_sign_open_cases pm ps pp n old m sm pk apart fits key bm bytes bp =
    let other : (pm == ps) ≡ false = ground (arith, apart) in
    elim (le-or-lt n (size_max - 64)) [
      | inr large ↦
          inl (inr (inl large), rw (crypto_sign_open, lt→ltb (size_max - 64) n large) refl)
      | inl small ↦ elim (le-or-lt 64 n) [
        | inr short ↦ inl (
          inl short,
          rw (crypto_sign_open, le→ltb (size_max - 64) n small, lt→ltb n 64 short) refl,
        )
        | inl long ↦ elim (Option-cases (unpackneg pk)) [
          | inl no_point ↦ inl (
            inr (inr no_point),
            rw (crypto_sign_open, le→ltb (size_max - 64) n small, le→ltb n 64 long, no_point) refl,
          )
          | inr (q, point) ↦ inr (
            q,
            point,
            long,
            small,
            rw
                (
                  crypto_sign_open,
                  le→ltb (size_max - 64) n small,
                  le→ltb n 64 long,
                  point,
                  other,
                  ← expected_half-checked_half n m sm pk q fits long small key bm bytes bp,
                )
                (open_with_cases n (filled_with m sm n pk) sm q fits long bytes),
          )
        ]
      ]
    ]
