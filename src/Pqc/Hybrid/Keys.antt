-- ===== src/Pqc/Hybrid/Keys.antt =====
-- What `pqc_hybrid_keygen` writes, whatever room its buffers have.
use tweetnacl_modular.Base.{
  ℕ, zero, suc, ◌+◌, ◌≡◌, ◌⊎◌, ◌∙◌, inl, inr, refl, sym, ap, arith, some, false, get_or_ext, List,
  ◌∷◌, ◌++◌, length, take, drop, replicate, length-replicate, take-append, drop-append, drop-drop,
  append_assoc,
}
use tweetnacl_modular.Base.Int.{ℤ}
use tweetnacl_modular.Status.{success}
use tweetnacl_modular.Secretbox.{is_ok}
use tweetnacl_modular.Memory.{Ptr, at, null}
use tweetnacl_modular.Memory.Wipe.{secure_zero_lem}
use tweetnacl_modular.Pqc.Params.{PqcParams, params_of, pqc_success, pqc_rng_failure}
use tweetnacl_modular.Rng.Source.{RandomSource}
use tweetnacl_modular.Pqc.Stub.Mix.{Wrote}
use tweetnacl_modular.Pqc.Stub.Keys.{pqc_keygen_cases}
use tweetnacl_modular.Pqc.Hybrid.{make_hybrid, pqc_hybrid_keygen, behind_32}

-- 32 zeros, the `size` bytes of the generator, which left `made`, and the rest of the buffer.
abbrev pub HybridWrote : ℕ → List ℕ → ℕ → Ptr → Ptr → Type 0
HybridWrote p old size made buf =
    (bs : List ℕ) × (length bs ≡ size)
    × (made ≡ at (p + 32) (bs ++ drop (32 + size) old))
    × (buf ≡ at p (replicate 32 0 ++ (bs ++ drop (32 + size) old)))

replicate_split : (a b d x : ℕ) → d ≡ a + b → replicate d x ≡ replicate a x ++ replicate b x
replicate_split zero b d x e = let same : d ≡ b = omega arith in ap (λ k. replicate k x) same
replicate_split (suc a) b zero x e = absurd (omega arith)
replicate_split (suc a) b (suc d) x e = ap (◌∷◌ x) (replicate_split a b d x (omega arith))

module _ (size : ℕ) (old : List ℕ) where
  zeroed : List ℕ
  zeroed = replicate (32 + size) 0 ++ drop (32 + size) old

  zeroed_split : zeroed ≡ replicate 32 0 ++ (replicate size 0 ++ drop (32 + size) old)
  unfolding zeroed
  zeroed_split =
      ap (λ t. t ++ drop (32 + size) old) (replicate_split 32 size (32 + size) 0 refl)
      ∙ append_assoc (replicate 32 0) (replicate size 0) (drop (32 + size) old)

  take-zeroed : take 32 zeroed ≡ replicate 32 0
  take-zeroed =
      ap (take 32) zeroed_split
      ∙ take-append 32 (replicate 32 0) (replicate size 0 ++ drop (32 + size) old) refl

  drop-zeroed : drop size (drop 32 zeroed) ≡ drop (32 + size) old
  unfolding zeroed
  drop-zeroed =
      drop-drop size 32 (32 + size) zeroed refl
      ∙ drop-append (32 + size) (replicate (32 + size) 0) (drop (32 + size) old)
          (sym (length-replicate {A = ℕ} (32 + size) 0))

  inside-zeroed : drop 32 zeroed ≡ replicate size 0 ++ drop (32 + size) old
  inside-zeroed =
      ap (drop 32) zeroed_split
      ∙ drop-append 32 (replicate 32 0) (replicate size 0 ++ drop (32 + size) old) refl

  -- What a key written behind the first 32 bytes makes of the whole.
  behind-Wrote :
      (p : ℕ) (made key : Ptr)
      → Wrote null 0 (p + 32) (drop 32 zeroed) size made key
      → HybridWrote p old size made (behind_32 (at p zeroed) key)
  behind-Wrote p made key (bs, new, n, w, (size_new, bytes), e) = (
    bs,
    n,
    w ∙ ap (λ t. at (p + 32) (bs ++ t)) drop-zeroed,
    ap (λ (k : Ptr). behind_32 (at p zeroed) k)
          (e
            ∙ ap (λ t. at (p + 32) (t ++ drop size (drop 32 zeroed)))
                (get_or_ext 0 new bs size_new (λ i l. bytes i (omega arith))))
        ∙ ap (λ t. at p (t ++ (bs ++ drop size (drop 32 zeroed)))) take-zeroed
        ∙ ap (λ t. at p (replicate 32 0 ++ (bs ++ t))) drop-zeroed,
  )

-- The pointer behind the first 32 bytes of the buffer that was cleared.
abbrev pub inner : ℕ → ℕ → List ℕ → Ptr
inner p size old = at (p + 32) (replicate size 0 ++ drop (32 + size) old)

inner-zeroed :
    (p size : ℕ) (old : List ℕ) → at (p + 32) (drop 32 (zeroed size old)) ≡ inner p size old
inner-zeroed p size old = ap (at (p + 32)) (inside-zeroed size old)

module _ (R : RandomSource) where
  open R use {State, randombytes_safe}

  -- For an algorithm of the table and pointers that are not NULL, `pqc_hybrid_keygen` never tells
  -- that a buffer is too small, whatever the lengths that the caller passes and the buffers have, and
  -- gives the lengths of the whole keys. It asks the generator for the public key and then for the
  -- secret key, each 32 bytes inside a buffer that holds zeros before it. If both calls succeed, it
  -- returns 0, and each buffer starts with 32 zeros where the key of Curve25519 belongs, and then has
  -- as many bytes of the generator as the key has, past the end of a buffer that is shorter. If one
  -- fails, it returns the failure of the generator.
  pub pqc_hybrid_keygen_cases :
      (algo : ℤ) (params : PqcParams) (p q pk_len sk_len : ℕ) (old_pk old_sk : List ℕ) (s : State)
      → params_of algo ≡ some params
      → let r =
          pqc_hybrid_keygen R algo (at p old_pk) (some pk_len) (at q old_sk) (some sk_len) s in
        let n = params.public_key_size in
        let m = params.secret_key_size in
        let a = randombytes_safe (inner p n old_pk) n s in
        let b = randombytes_safe (inner q m old_sk) m a.state in
        (((a.status ≡ success)
            × (b.status ≡ success)
            × (r.result ≡ pqc_success)
            × HybridWrote p old_pk n a.buf r.public_key
            × HybridWrote q old_sk m b.buf r.secret_key)
          ⊎ (((is_ok a.status ≡ false) ⊎ (is_ok b.status ≡ false)) × (r.result ≡ pqc_rng_failure)))
        × (r.public_key_len ≡ some (32 + n))
        × (r.secret_key_len ≡ some (32 + m))
  unfolding pqc_hybrid_keygen make_hybrid zeroed
  pqc_hybrid_keygen_cases algo params p q pk_len sk_len old_pk old_sk s known =
      let n = params.public_key_size in
      let m = params.secret_key_size in
      let cases =
        pqc_keygen_cases R algo params (p + 32) (q + 32) (drop 32 (zeroed n old_pk))
          (drop 32 (zeroed m old_sk)) n m null 0 s known in
      rw
        (
          ← inner-zeroed p n old_pk,
          ← inner-zeroed q m old_sk,
          pqc_hybrid_keygen,
          known,
          secure_zero_lem p (32 + n) old_pk,
          secure_zero_lem q (32 + m) old_sk,
        )
        (
          elim cases [
            | inl (inl short, e) ↦ absurd (omega arith)
            | inl (inr short, e) ↦ absurd (omega arith)
            | inr (fits, fits', inl (good_a, good_b, good, w, w', e)) ↦ inl (
              good_a,
              good_b,
              good,
              behind-Wrote n old_pk p _ _ w,
              behind-Wrote m old_sk q _ _ w',
            )
            | inr (fits, fits', inr (inl (bad_a, bad, e))) ↦ inr (inl bad_a, bad)
            | inr (fits, fits', inr (inr (good_a, bad_b, bad, e))) ↦ inr (inr bad_b, bad)
          ],
          refl,
          refl,
        )
