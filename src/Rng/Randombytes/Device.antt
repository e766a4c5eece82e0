-- ===== src/Rng/Randombytes/Device.antt =====
-- What the operating system gives: `ask_os` writes the whole buffer or fails.
use tweetnacl_modular.Base.{
  ℕ, ◌+◌, ◌-◌, ◌≤◌, ◌<◌, ◌≡◌, ◌⊎◌, ◌∙◌, inl, inr, refl, sym, ap, arith, true, false, Bool, Option,
  none, some, ◌==◌, List, [], ◌∷◌, ◌++◌, length, take, drop, take-append, take-append_le, take_all,
  suc, drop-append, drop-drop, append_assoc, length-append, length-take, le-or-lt, lt→ltb, le→ltb,
}
use tweetnacl_modular.Base.Int.{ℤ}
use tweetnacl_modular.Status.{success, rng_failure}
use tweetnacl_modular.Memory.{write_at}
use tweetnacl_modular.Rng.Randombytes.{Answer, bytes, interrupted, read_error, read_loop}

-- The bytes that `read` gives before it fails or the file ends.
unfoldable pub supply : List Answer → List ℕ
supply [] = []
supply (bytes [] ∷ answers) = []
supply (bytes (b ∷ bs) ∷ answers) = (b ∷ bs) ++ supply answers
supply (interrupted ∷ answers) = supply answers
supply (read_error ∷ answers) = []

-- Whether the file ends or a `read` fails.
unfoldable pub ends : List Answer → Bool
ends [] = false
ends (bytes [] ∷ answers) = true
ends (bytes (b ∷ bs) ∷ answers) = ends answers
ends (interrupted ∷ answers) = ends answers
ends (read_error ∷ answers) = true

-- The buffer with its first `len` bytes from those that are given, if there are so many; the
-- failure, if they end before; or an answer that is still to come.
abbrev pub Asked : List ℕ → Bool → ℕ → List ℕ → Option (ℤ × List ℕ) → Type 0
Asked given ended len old r =
    ((len ≤ length given) × (r ≡ some (success, take len given ++ drop len old)))
    ⊎ ((length given < len) × (ended ≡ true) × ((buf : List ℕ) × (r ≡ some (rng_failure, buf))))
    ⊎ ((length given < len) × (ended ≡ false) × (r ≡ none))

take_behind : (k : ℕ) (xs ys : List ℕ) → take (length xs + k) (xs ++ ys) ≡ xs ++ take k ys
take_behind k [] ys = let same : 0 + k ≡ k = omega arith in rw same refl
take_behind k (x ∷ xs) ys =
    let same : suc (length xs) + k ≡ suc (length xs + k) = omega arith in
    ap (λ n. take n (x ∷ (xs ++ ys))) same ∙ ap (◌∷◌ x) (take_behind k xs ys)

module _ (len : ℕ) (old : List ℕ) where
  -- A read of some bytes behind those that are there.
  read_more :
      (done : ℕ) (new got : List ℕ)
      → length new ≡ done
      → write_at done got (new ++ drop done old) ≡ (new ++ got) ++ drop (done + length got) old
  read_more done new got n =
      rw
        (
          take-append done new (drop done old) (sym n),
          append_assoc new got (drop (done + length got) old),
        )
        (ap (λ t. new ++ (got ++ t))
          (sym (drop-drop (length got) done (done + length got) (new ++ drop done old) refl)
            ∙ ap (drop (length got)) (drop-append done new (drop done old) (sym n))
            ∙ drop-drop (length got) done (done + length got) old refl))

  -- The buffer is full.
  full-Asked :
      (given new : List ℕ) (ended : Bool)
      → length new ≤ len
      → len ≤ length new
      → Asked (new ++ given) ended len old (some (success, new ++ drop (length new) old))
  full-Asked given new ended h full =
      let same : length new ≡ len = omega arith in
      inl (
        omega (arith, length-append new given),
        ap (λ t. some (success, t))
            (ap (λ k. new ++ drop k old) same
              ∙ ap (λ t. t ++ drop len old) (sym (take-append len new given (sym same)))),
      )

  -- One read of some bytes.
  read_step :
      (b : ℕ) (bs : List ℕ) (answers : List Answer) (new : List ℕ)
      → length new < len
      → let got = take (len - length new) (b ∷ bs) in
        read_loop (bytes (b ∷ bs) ∷ answers) len (length new) (new ++ drop (length new) old)
        ≡ read_loop answers len
            (length (new ++ got))
            ((new ++ got) ++ drop (length (new ++ got)) old)
  unfolding read_loop
  read_step b bs answers new more =
      let got = take (len - length new) (b ∷ bs) in
      let goes : (length got == 0) ≡ false =
        ground (arith, length-take (len - length new) (b ∷ bs)) in
      rw
        (
          lt→ltb (length new) len more,
          goes,
          read_more (length new) new got refl,
          length-append new got,
        )
        refl

  -- A read that fills the buffer leaves the rest of what is given.
  filled :
      (new xs rest : List ℕ)
      → length new ≤ len
      → len ≤ length new + length xs
      → take len ((new ++ take (len - length new) xs) ++ rest) ≡ take len (new ++ (xs ++ rest))
  filled new xs rest h full =
      let k = len - length new in
      let got = take k xs in
      let size : length (new ++ got) ≡ len =
        omega (arith, length-append new got, length-take k xs) in
      let split : len ≡ length new + k = omega arith in
      take-append len (new ++ got) rest (sym size)
      ∙ ap (λ t. new ++ t) (sym (take-append_le k xs rest (omega arith)))
      ∙ sym (ap (λ n. take n (new ++ (xs ++ rest))) split ∙ take_behind k new (xs ++ rest))

  pub read_loop-Asked :
      (answers : List Answer) (new : List ℕ)
      → length new ≤ len
      → Asked
          (new ++ supply answers)
          (ends answers)
          len
          old
          (read_loop answers len (length new) (new ++ drop (length new) old))
  unfolding read_loop supply ends
  read_loop-Asked [] new h = elim (le-or-lt len (length new)) [
    | inl full ↦ rw (le→ltb (length new) len full) (full-Asked [] new false h full)
    | inr more ↦
        rw (lt→ltb (length new) len more)
          (inr (inr (omega (arith, length-append new []), refl, refl)))
  ]
  read_loop-Asked (bytes [] ∷ answers) new h = elim (le-or-lt len (length new)) [
    | inl full ↦ rw (le→ltb (length new) len full) (full-Asked [] new true h full)
    | inr more ↦
        let nothing : List ℕ = [] in
        let none_left : length (take (len - length new) nothing) ≡ 0 =
          omega (arith, length-take (len - length new) nothing) in
        rw (lt→ltb (length new) len more, none_left)
          (inr (inl (omega (arith, length-append new []), refl, (_, refl))))
  ]
  read_loop-Asked (bytes (b ∷ bs) ∷ answers) new h = elim (le-or-lt len (length new)) [
    | inl full ↦
        rw (le→ltb (length new) len full)
          (full-Asked ((b ∷ bs) ++ supply answers) new (ends answers) h full)
    | inr more ↦
        rw (read_step b bs answers new more) (elim (le-or-lt (length (b ∷ bs)) (len - length new)) [
          | inl whole ↦
              let all : take (len - length new) (b ∷ bs) ≡ b ∷ bs =
                take_all (len - length new) (b ∷ bs) whole in
              let assoc = append_assoc new (b ∷ bs) (supply answers) in
              rw (all, ← assoc)
                (read_loop-Asked answers (new ++ (b ∷ bs))
                  (omega (arith, length-append new (b ∷ bs))))
          | inr part ↦
              let got = take (len - length new) (b ∷ bs) in
              let size : length (new ++ got) ≡ len =
                omega (arith, length-append new got, length-take (len - length new) (b ∷ bs)) in
              let more_size = length-append (new ++ got) (supply answers) in
              elim (read_loop-Asked answers (new ++ got) (omega (arith, size))) [
                | inl (enough, e) ↦ inl (
                  omega (
                    arith,
                    length-append new ((b ∷ bs) ++ supply answers),
                    length-append (b ∷ bs) (supply answers),
                  ),
                  e
                      ∙ ap (λ t. some (success, t ++ drop len old))
                          (filled new (b ∷ bs) (supply answers) h (omega arith)),
                )
                | inr (inl (short, end, e)) ↦ absurd (omega (arith, size, more_size))
                | inr (inr (short, end, e)) ↦ absurd (omega (arith, size, more_size))
              ]
        ])
  ]
  read_loop-Asked (interrupted ∷ answers) new h = elim (le-or-lt len (length new)) [
    | inl full ↦
        rw (le→ltb (length new) len full) (full-Asked (supply answers) new (ends answers) h full)
    | inr more ↦ rw (lt→ltb (length new) len more) (read_loop-Asked answers new h)
  ]
  read_loop-Asked (read_error ∷ answers) new h = elim (le-or-lt len (length new)) [
    | inl full ↦ rw (le→ltb (length new) len full) (full-Asked [] new true h full)
    | inr more ↦
        rw (lt→ltb (length new) len more)
          (inr (inl (omega (arith, length-append new []), refl, (_, refl))))
  ]

-- Answers that have an end behind them.
pub ends-end : (answers : List Answer) → ends (answers ++ bytes [] ∷ []) ≡ true
unfolding ends
ends-end [] = refl
ends-end (bytes [] ∷ answers) = refl
ends-end (bytes (b ∷ bs) ∷ answers) = ends-end answers
ends-end (interrupted ∷ answers) = ends-end answers
ends-end (read_error ∷ answers) = refl
