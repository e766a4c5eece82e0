-- ===== src/Sha512/Schedule.antt =====
-- The rounds of `crypto_hashblocks`, with a schedule replaced every sixteen rounds, are the steps
-- of FIPS 180-4.
use tweetnacl_modular.Base.{
  ℕ, zero, suc, ◌+◌, ◌%◌, ◌≤◌, ◌<◌, ◌≡◌, refl, ap, sym, ◌∙◌, arith, List, [], ◌∷◌, ◌++◌, length,
  drop, get_or, length-drop, drop-drop, drop-append_le, append-nil, append_assoc, length-set,
  Bool-cases, ==_iff, if◌then◌else◌, ◌==◌, inl, inr,
}
use tweetnacl_modular.Base.Read.{read_from_all}
use tweetnacl_modular.Base.Loops.{for_up_inv}
use tweetnacl_modular.Word.{u64}
use tweetnacl_modular.Sha512.{entry, extend, extend_word, hash_round, hash_rounds, sigma0, sigma1}
use tweetnacl_modular.Sha512.Constants.{round_constants}
use tweetnacl_modular.Sha512.Reference.{sum64, slide, sha_step, sha_steps}

unfoldable pub slides : ℕ → List ℕ → List ℕ
slides zero w = w
slides (suc k) w = slide (slides k w)

sum_order : (a b c d : ℕ) → u64 (a + b + c + d) ≡ sum64 (sum64 (sum64 d b) c) a
sum_order a b c d = omega arith

extended :
    (w0 w1 w2 w3 w4 w5 w6 w7 w8 w9 wa wb wc wd we wf : ℕ)
    → let w = w0 ∷ w1 ∷ w2 ∷ w3 ∷ w4 ∷ w5 ∷ w6 ∷ w7 ∷ w8 ∷ w9 ∷ wa ∷ wb ∷ wc ∷ wd ∷ we ∷ wf ∷ [] in
      extend w ≡ slides 16 w
unfolding extend slide slides
extended w0 w1 w2 w3 w4 w5 w6 w7 w8 w9 wa wb wc wd we wf = simp sum_order refl

-- Replacing sixteen words in place is sliding sixteen times.
pub extend-slides : (w : List ℕ) → length w ≡ 16 → extend w ≡ slides 16 w
extend-slides w e =
    let whole = read_from_all 16 w e in
    ap extend whole ∙ extended _ _ _ _ _ _ _ _ _ _ _ _ _ _ _ _ ∙ ap (slides 16) (sym whole)

-- What `k` slides leave: the words from `k` on come first.
slides-drop :
    (k : ℕ) (w : List ℕ) → k ≤ length w → (added : List ℕ) × (slides k w ≡ drop k w ++ added)
unfolding slides slide
slides-drop zero w h = ([], sym (append-nil w))
slides-drop (suc k) w h =
    let (added, e) = slides-drop k w (omega arith) in
    let last =
      sum64
        (sum64 (sum64 (sigma1 (entry (slides k w) 14)) (entry (slides k w) 9))
          (sigma0 (entry (slides k w) 1)))
        (entry (slides k w) 0) in
    (
      added ++ last ∷ [],
      ap (λ t. drop 1 t ++ last ∷ []) e
          ∙ ap (λ t. t ++ last ∷ [])
              (drop-append_le 1 (drop k w) added (omega (arith, length-drop k w)))
          ∙ append_assoc (drop 1 (drop k w)) added (last ∷ [])
          ∙ ap (λ t. t ++ (added ++ last ∷ [])) (drop-drop 1 k (suc k) w (omega arith)),
    )

first_of : (xs ys : List ℕ) → 1 ≤ length xs → get_or (xs ++ ys) 0 0 ≡ get_or xs 0 0
first_of [] ys h = absurd (omega arith)
first_of (x ∷ xs) ys h = refl

get_or-drop : (k : ℕ) (xs : List ℕ) → get_or (drop k xs) 0 0 ≡ get_or xs k 0
get_or-drop zero xs = refl
get_or-drop (suc k) [] = refl
get_or-drop (suc k) (x ∷ xs) = get_or-drop k xs

entry-slides : (k : ℕ) (w : List ℕ) → k < length w → entry (slides k w) 0 ≡ entry w k
entry-slides k w h =
    let (added, e) = slides-drop k w (omega arith) in
    ap (λ t. entry t 0) e
    ∙ first_of (drop k w) added (omega (arith, length-drop k w))
    ∙ get_or-drop k w

sum_five : (a b c d e : ℕ) → u64 (a + b + c + d + e) ≡ sum64 (sum64 (sum64 (sum64 a b) c) d) e
sum_five a b c d e = omega arith

sum_three : (t x y : ℕ) → u64 (t + x + y) ≡ sum64 t (sum64 x y)
sum_three t x y = omega arith

rounded :
    (a0 a1 a2 a3 a4 a5 a6 a7 k w : ℕ)
    → let a = a0 ∷ a1 ∷ a2 ∷ a3 ∷ a4 ∷ a5 ∷ a6 ∷ a7 ∷ [] in hash_round a k w ≡ sha_step a k w
unfolding hash_round sha_step
rounded a0 a1 a2 a3 a4 a5 a6 a7 k w = simp (sum_five, sum_three) refl

hash_round-sha_step : (a : List ℕ) (k w : ℕ) → length a ≡ 8 → hash_round a k w ≡ sha_step a k w
hash_round-sha_step a k w e =
    let whole = read_from_all 8 a e in
    ap (λ t. hash_round t k w) whole
    ∙ rounded _ _ _ _ _ _ _ _ k w
    ∙ ap (λ t. sha_step t k w) (sym whole)

pub length-sha_step : (a : List ℕ) (k w : ℕ) → length (sha_step a k w) ≡ 8
unfolding sha_step
length-sha_step a k w = refl

length-extend_word : (j : ℕ) (w : List ℕ) → length (extend_word j w) ≡ length w
length-extend_word j w = length-set w j _

length-extend : (w : List ℕ) → length w ≡ 16 → length (extend w) ≡ 16
unfolding extend
length-extend w e =
    for_up_inv (λ v. length v ≡ 16) extend_word (λ j v h. length-extend_word j v ∙ h) 16 0 w e

-- The schedule of the next round, as a window.
next_window :
    (i : ℕ) (w : List ℕ)
    → length w ≡ 16
    → let w' = if i % 16 == 15 then extend w else w in
      (length w' ≡ 16) × (slides (suc i % 16) w' ≡ slide (slides (i % 16) w))
unfolding slides
next_window i w e = elim (Bool-cases (i % 16 == 15)) [
  | inl last ↦
      let here : i % 16 ≡ 15 = (==_iff (i % 16) 15).0 last in
      let next : suc i % 16 ≡ 0 = omega (arith, here) in
      rw (last, next)
        (length-extend w e, extend-slides w e ∙ ap (λ t. slide (slides t w)) (sym here))
  | inr more ↦ let next : suc i % 16 ≡ suc (i % 16) = ground arith in rw (more, next) (e, refl)
]

-- From any round on, the rounds with the schedule `w` that the code keeps are the steps on the
-- window of the schedule.
pub hash_rounds-sha_steps :
    (n i : ℕ) (a w : List ℕ)
    → length a ≡ 8
    → length w ≡ 16
    → hash_rounds n i a w ≡ sha_steps n i a (slides (i % 16) w)
unfolding hash_rounds sha_steps
hash_rounds-sha_steps zero i a w ea ew = refl
hash_rounds-sha_steps (suc n) i a w ea ew =
    let k = entry round_constants i in
    let (ew', window) = next_window i w ew in
    let one : hash_round a k (entry w (i % 16)) ≡ sha_step a k (entry (slides (i % 16) w) 0) =
      hash_round-sha_step a k (entry w (i % 16)) ea
      ∙ ap (sha_step a k) (sym (entry-slides (i % 16) w (omega (arith, ew)))) in
    rw one (
      hash_rounds-sha_steps n (suc i) (sha_step a k (entry (slides (i % 16) w) 0))
        (if i % 16 == 15 then extend w else w) (length-sha_step a k _) ew'
      ∙ ap (sha_steps n (suc i) (sha_step a k (entry (slides (i % 16) w) 0))) window)
