-- ===== src/Pqc/Stub/Mix.antt =====
-- Mixing a seed into the bytes of the generator.
use tweetnacl_modular.Base.{
  ℕ, zero, suc, ◌+◌, ◌≤◌, ◌<◌, ◌≡◌, inl, inr, ◌∙◌, refl, sym, ap, arith, Bool-cases, ◌==◌, List, [],
  ◌∷◌, ◌++◌, length, drop, bit_xor, get_or, ◌%◌, min, ltb, true, false, if◌then◌else◌, le-or-lt,
  le→ltb, lt→ltb,
}
use native.Mathlib.Nat.{mod-eq_of_lt}
use tweetnacl_modular.Secretbox.{refill}
use tweetnacl_modular.Memory.{Ptr, at, null, contents}
use tweetnacl_modular.Pqc.Stub.{xor_pattern, xor_with}

-- What a key is of the generator's bytes `bs`: each is mixed with the byte of the seed at its index,
-- as far as there is a seed.
abbrev pub mixed_byte : Ptr → ℕ → List ℕ → ℕ → ℕ
mixed_byte null len bs j = get_or bs j 0
mixed_byte (at a seed) len bs j =
    if ltb j len then bit_xor (get_or bs j 0) (get_or seed j 0) else get_or bs j 0

abbrev pub IsMixed : Ptr → ℕ → List ℕ → List ℕ → Type 0
IsMixed seed len bs new =
    (length new ≡ length bs) × ((j : ℕ) → j < length bs → get_or new j 0 ≡ mixed_byte seed len bs j)

-- The pointer to `n` bytes that are the generator's, which left `made`, mixed with the seed, before
-- the rest of what it held.
abbrev pub Wrote : Ptr → ℕ → ℕ → List ℕ → ℕ → Ptr → Ptr → Type 0
Wrote seed len p old n made buf =
    (bs : List ℕ) × (new : List ℕ) × (length bs ≡ n)
    × (made ≡ at p (bs ++ drop n old))
    × IsMixed seed len bs new
    × (buf ≡ at p (new ++ drop n old))

xor_pattern-append :
    (rounds i len : ℕ) (pattern bs rest : List ℕ)
    → rounds ≤ length bs
    → xor_pattern rounds i pattern len (bs ++ rest) ≡ xor_pattern rounds i pattern len bs ++ rest
unfolding xor_pattern
xor_pattern-append zero i len pattern bs rest h = refl
xor_pattern-append (suc rounds) i len pattern [] rest h = absurd (omega arith)
xor_pattern-append (suc rounds) i len pattern (b ∷ bs) rest h =
    ap (◌∷◌ (bit_xor b (get_or pattern (i % len) 0)))
      (xor_pattern-append rounds (suc i) len pattern bs rest (omega arith))

length-xor_pattern :
    (rounds i len : ℕ) (pattern bs : List ℕ)
    → length (xor_pattern rounds i pattern len bs) ≡ length bs
unfolding xor_pattern
length-xor_pattern zero i len pattern bs = refl
length-xor_pattern (suc rounds) i len pattern [] = refl
length-xor_pattern (suc rounds) i len pattern (b ∷ bs) =
    ap suc (length-xor_pattern rounds (suc i) len pattern bs)

-- The bytes of the loop's rounds, and those behind them.
get_or-xor_pattern :
    (rounds i len j : ℕ) (pattern bs : List ℕ)
    → j < length bs
    → get_or (xor_pattern rounds i pattern len bs) j 0 ≡ (
        if ltb j rounds
        then bit_xor (get_or bs j 0) (get_or pattern ((i + j) % len) 0)
        else get_or bs j 0)
unfolding xor_pattern
get_or-xor_pattern zero i len j pattern bs h =
    let none_left : ltb j 0 ≡ false = ground arith in rw none_left refl
get_or-xor_pattern (suc rounds) i len j pattern [] h = absurd (omega arith)
get_or-xor_pattern (suc rounds) i len zero pattern (b ∷ bs) h =
    let first : ltb 0 (suc rounds) ≡ true = ground arith in
    let same : i + 0 ≡ i = omega arith in rw (first, same) refl
get_or-xor_pattern (suc rounds) i len (suc j) pattern (b ∷ bs) h =
    let same : suc i + j ≡ i + suc j = omega arith in
    let later = get_or-xor_pattern rounds (suc i) len j pattern bs (omega arith) in
    elim (le-or-lt rounds j) [
      | inl out ↦
          let far : ltb (suc j) (suc rounds) ≡ false = le→ltb (suc j) (suc rounds) (omega arith) in
          later ∙ rw (far, le→ltb j rounds out) refl
      | inr inside ↦
          let near : ltb (suc j) (suc rounds) ≡ true = lt→ltb (suc j) (suc rounds) (omega arith) in
          later ∙ rw (near, lt→ltb j rounds inside, same) refl
    ]

-- The whole loop over a seed of `len` bytes.
xor_pattern-IsMixed :
    (len a : ℕ) (seed bs : List ℕ)
    → IsMixed (at a seed) len bs (xor_pattern (min (length bs) len) 0 seed len bs)
xor_pattern-IsMixed len a seed bs = (
  length-xor_pattern (min (length bs) len) 0 len seed bs,
  λ j h. get_or-xor_pattern (min (length bs) len) 0 len j seed bs h ∙ elim (le-or-lt len j) [
    | inl out ↦
        let far : ltb j (min (length bs) len) ≡ false = ground arith in
        rw (far, le→ltb j len out) refl
    | inr inside ↦
        let near : ltb j (min (length bs) len) ≡ true = ground arith in
        let start : 0 + j ≡ j = omega arith in
        let same : (0 + j) % len ≡ j = ap (λ k. k % len) start ∙ mod-eq_of_lt inside in
        rw (near, lt→ltb j len inside, same) refl
  ],
)

pub xor_with-Wrote :
    (p n len : ℕ) (old : List ℕ) (seed buf : Ptr)
    → (bs : List ℕ) × (length bs ≡ n) × (buf ≡ at p (bs ++ drop n old))
    → Wrote seed len p old n buf (xor_with seed len (min n len) buf)
unfolding xor_with
xor_with-Wrote p n len old null buf (bs, count, e) = (bs, bs, count, e, (refl, λ j h. refl), e)
xor_with-Wrote p n len old (at a seed) buf (bs, count, e) = elim (Bool-cases (len == 0)) [
  | inl nothing ↦
      let empty : len ≡ 0 = ground arith in
      rw nothing (
        bs,
        bs,
        count,
        e,
        (refl, λ j h. let out : ltb j len ≡ false = ground arith in rw out refl),
        e,
      )
  | inr mixes ↦ rw mixes (
    bs,
    xor_pattern (min (length bs) len) 0 seed len bs,
    count,
    e,
    xor_pattern-IsMixed len a seed bs,
    ap (λ b. refill b (xor_pattern (min n len) 0 seed len (contents b))) e
        ∙ ap (at p) (
            ap (λ k. xor_pattern (min k len) 0 seed len (bs ++ drop n old)) (sym count)
            ∙ xor_pattern-append (min (length bs) len) 0 len seed bs (drop n old) (omega arith)),
  )
]
