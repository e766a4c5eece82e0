-- ===== src/Ed25519/Fips/Overrun.antt =====
-- What the functions that open do for every signed message: no acceptance that is defined.
use tweetnacl_modular.Base.{
  ℕ, ◌-◌, ◌≤◌, ◌<◌, ◌≡◌, ◌⊎◌, inl, inr, refl, arith, List, none, some, le-or-lt, le→ltb, lt→ltb,
  Option-cases, Bool-cases, Option, ltb, ◌&&◌, not, true, false, replicate, if◌then◌else◌,
}
use tweetnacl_modular.Base.Int.{failed}
use tweetnacl_modular.Memory.{at, Ptr, is_null}
use tweetnacl_modular.Secretbox.{is_ok}
use tweetnacl_modular.Utils.{size_max}
use tweetnacl_modular.Ed25519.{Point, unpackneg}
use tweetnacl_modular.Ed25519.Sign.{Message, crypto_sign_open, open_with}
use tweetnacl_modular.Ed25519.Fips.{
  copies_past, ed25519ctx_hash, open_combined, crypto_sign_ed25519ctx_open,
  crypto_sign_ed25519ph_open,
}

module _ (ps pp n : ℕ) (sm pk : List ℕ) where
  -- A length or a key that `crypto_sign_open` refuses.
  large_fails :
      (a : ℕ) (out : List ℕ)
      → size_max - 64 < n
      → (crypto_sign_open (at a out) (some 0) (at ps sm) n (at pp pk)).status ≡ failed
  unfolding crypto_sign_open
  large_fails a out h = rw (crypto_sign_open, lt→ltb (size_max - 64) n h) refl

  no_point_fails :
      (a : ℕ) (out : List ℕ)
      → 64 ≤ n
      → n ≤ size_max - 64
      → unpackneg pk ≡ none
      → (crypto_sign_open (at a out) (some 0) (at ps sm) n (at pp pk)).status ≡ failed
  unfolding crypto_sign_open
  no_point_fails a out h h' e =
      rw (crypto_sign_open, le→ltb (size_max - 64) n h', le→ltb n 64 h, e) refl

  -- A signed message of at most 64 bytes has no message in it.
  short_length :
      (a : ℕ) (out : List ℕ)
      → n ≤ 64
      → (crypto_sign_open (at a out) (some 0) (at ps sm) n (at pp pk)).mlen ≡ some 0
  unfolding crypto_sign_open open_with
  short_length a out h =
      let small = le→ltb (size_max - 64) n (omega arith) in
      let nothing : n - 64 ≡ 0 = omega arith in
      elim (le-or-lt 64 n) [
        | inr short ↦ rw (crypto_sign_open, small, lt→ltb n 64 short) refl
        | inl long ↦ elim (Option-cases (unpackneg pk)) [
          | inl no_point ↦ rw (crypto_sign_open, small, le→ltb n 64 long, no_point) refl
          | inr (q, point) ↦
              rw (crypto_sign_open, small, le→ltb n 64 long, point, nothing) (ground arith)
        ]
      ]

  copied :
      (size : ℕ) (q : Point)
      → unpackneg pk ≡ some q
      → 64 ≤ n
      → n ≤ size_max - 64
      → size < n
      → copies_past size n pk ≡ true
  unfolding copies_past
  copied size q e h h' past =
      rw (copies_past, e, le→ltb (size_max - 64) n h', le→ltb n 64 h, lt→ltb size n past) refl

  no_point_not_copied : (size : ℕ) → unpackneg pk ≡ none → copies_past size n pk ≡ false
  unfolding copies_past
  no_point_not_copied size e = rw (copies_past, e) refl

  large_not_copied : (size : ℕ) → size_max - 64 < n → copies_past size n pk ≡ false
  unfolding copies_past
  large_not_copied size h = elim (Option-cases (unpackneg pk)) [
    | inl e ↦ rw (copies_past, e) refl
    | inr (q, e) ↦ rw (copies_past, e, lt→ltb (size_max - 64) n h) refl
  ]

  short_not_copied : (size : ℕ) → n ≤ size → n ≤ size_max - 64 → copies_past size n pk ≡ false
  unfolding copies_past
  short_not_copied size h h' = elim (Option-cases (unpackneg pk)) [
    | inl e ↦ rw (copies_past, e) refl
    | inr (q, e) ↦ elim (Bool-cases (ltb n 64)) [
      | inl t ↦ rw (copies_past, e, le→ltb (size_max - 64) n h', t) refl
      | inr t ↦ rw (copies_past, e, le→ltb (size_max - 64) n h', t, le→ltb size n h) refl
    ]
  ]

  module _ (pm old : ℕ) (m : List ℕ) where
    -- The return is -1, and the output and its length stay; or else the key is a point, and the
    -- function has written past the end of what it had, and more than `k` bytes were signed.
    abbrev pub Stops : ℕ → Option Message → Type 0
    Stops k r =
        (r ≡ some (record { status = failed; out = m; mlen = some old }))
        ⊎ ((k < n) × (n ≤ size_max - 64) × ((q : Point) × (unpackneg pk ≡ some q)) × (r ≡ none))

    open_combined_fails :
        (block ctx_hash : List ℕ)
        → (crypto_sign_open (at 100 block) (some 0) (at ps sm) n (at pp pk)).status ≡ failed
        → open_combined block (at pm m) old (at ps sm) n (at pp pk) ctx_hash
          ≡ record { status = failed; out = m; mlen = some old }
    unfolding open_combined
    open_combined_fails block ctx_hash e = rw (open_combined, e) refl

    ph_open-Stops :
        Stops 64 (crypto_sign_ed25519ph_open (at pm m) (some old) (at ps sm) n (at pp pk))
    unfolding crypto_sign_ed25519ph_open
    ph_open-Stops =
        let zeros : List ℕ = replicate 64 0 in
        let r = crypto_sign_open (at 0 zeros) (some 0) (at ps sm) n (at pp pk) in
        elim (le-or-lt n 64) [
          | inl short ↦
              let not_past = short_not_copied 64 short (omega arith) in
              let count = short_length 0 zeros short in
              elim (Bool-cases (is_ok r.status)) [
                | inl good ↦ rw (not_past, good, count) (inl refl)
                | inr bad ↦ rw (not_past, bad) (inl refl)
              ]
          | inr long ↦ elim (le-or-lt n (size_max - 64)) [
            | inr large ↦ rw (large_not_copied 64 large, large_fails 0 zeros large) (inl refl)
            | inl small ↦ elim (Option-cases (unpackneg pk)) [
              | inl e ↦
                  rw (no_point_not_copied 64 e, no_point_fails 0 zeros (omega arith) small e)
                    (inl refl)
              | inr (q, e) ↦
                  rw (copied 64 q e (omega arith) small long) (inr (long, small, (q, e), refl))
            ]
          ]
        ]

    ctx_open-Stops :
        (memory : Option (List ℕ)) (ctx : Ptr) (ctx_len : ℕ)
        → Stops 127 (
            crypto_sign_ed25519ctx_open memory
              (at pm m)
              (some old)
              (at ps sm)
              n
              (at pp pk)
              ctx
              ctx_len)
    unfolding crypto_sign_ed25519ctx_open
    ctx_open-Stops memory ctx ctx_len = elim (Bool-cases (not (is_null ctx) && ltb 255 ctx_len)) [
      | inl wrong ↦ rw wrong (inl refl)
      | inr right ↦ elim (le-or-lt 64 n) [
        | inr short ↦ rw (right, lt→ltb n 64 short) (inl refl)
        | inl half ↦ elim (le-or-lt 64 (n - 64)) [
          | inr short ↦ rw (right, le→ltb n 64 half, lt→ltb (n - 64) 64 short) (inl refl)
          | inl long ↦
              rw (right, le→ltb n 64 half, le→ltb (n - 64) 64 long) (with_memory memory half long)
        ]
      ]
    ]
      where
        with_memory :
            (memory : Option (List ℕ))
            → 64 ≤ n
            → 64 ≤ n - 64
            → Stops 127 (elim memory [
              | none ↦ some (record { status = failed; out = m; mlen = some old })
              | some block ↦
                  if copies_past (n - 64) n pk
                  then none
                  else some (
                      open_combined block
                        (at pm m)
                        old
                        (at ps sm)
                        n
                        (at pp pk)
                        (ed25519ctx_hash ctx ctx_len))
            ])
        with_memory none half long = inl refl
        with_memory (some block) half long = elim (le-or-lt n (size_max - 64)) [
          | inr large ↦
              rw
                (
                  large_not_copied (n - 64) large,
                  open_combined_fails block (ed25519ctx_hash ctx ctx_len)
                      (large_fails 100 block large),
                )
                (inl refl)
          | inl small ↦ elim (Option-cases (unpackneg pk)) [
            | inl e ↦
                rw
                  (
                    no_point_not_copied (n - 64) e,
                    open_combined_fails block (ed25519ctx_hash ctx ctx_len)
                        (no_point_fails 100 block half small e),
                  )
                  (inl refl)
            | inr (q, e) ↦
                rw (copied (n - 64) q e half small (omega arith))
                  (inr (omega arith, small, (q, e), refl))
          ]
        ]

    -- For buffers that are not NULL, whatever the block that `malloc` gives and the context:
    -- `crypto_sign_ed25519ph_open` and `crypto_sign_ed25519ctx_open` accept no signed message. Each
    -- returns -1 and leaves its output and its length, or it has copied the signed message past the
    -- end of the array or the block that it passes to `crypto_sign_open`. That happens before the
    -- signature is looked at: for a key that is a point, and a signed message of more than 64 bytes
    -- in the first function, and of 128 or more in the second.
    pub fips_open_never_accepts :
        (memory : Option (List ℕ)) (ctx : Ptr) (ctx_len : ℕ)
        → Stops 64 (crypto_sign_ed25519ph_open (at pm m) (some old) (at ps sm) n (at pp pk))
          × Stops 127 (
              crypto_sign_ed25519ctx_open memory
                (at pm m)
                (some old)
                (at ps sm)
                n
                (at pp pk)
                ctx
                ctx_len)
    fips_open_never_accepts memory ctx ctx_len = (ph_open-Stops, ctx_open-Stops memory ctx ctx_len)
