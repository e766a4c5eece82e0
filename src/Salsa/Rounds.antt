-- ===== src/Salsa/Rounds.antt =====
-- Two of the twenty rounds, which transpose the matrix each, are one double round.
use tweetnacl_modular.Base.{
  ℕ, zero, suc, ◌+◌, ◌*◌, ◌/◌, ◌%◌, ◌^◌, ◌≡◌, refl, ap, ◌∙◌, arith, bit_and, List, length,
}
use tweetnacl_modular.Base.Loops.{for_up}
use tweetnacl_modular.Bits.{bit_or_shifted, bit_and_mask}
use tweetnacl_modular.Word.{u32, l32, ◌<<◌, ◌>>◌}
use tweetnacl_modular.Salsa.{quarter, round, rounds}
use tweetnacl_modular.Salsa.Reference.{rotl, quarterround, columnround, rowround, doublerounds}

l32-rotl_7 : (s : ℕ) → l32 (u32 s) 7 ≡ rotl (u32 s) 7
unfolding l32 rotl
l32-rotl_7 s =
    let high : u32 (u32 s << 7) ≡ u32 s % 2 ^ 25 * 2 ^ 7 = omega arith in
    let low : bit_and (u32 s) 0xffffffff >> 25 ≡ u32 s / 2 ^ 25 =
      omega (arith, bit_and_mask 32 (u32 s)) in
    rw (high, low) (bit_or_shifted 7 (u32 s % 2 ^ 25) (u32 s / 2 ^ 25) (omega arith) ∙ omega arith)

l32-rotl_9 : (s : ℕ) → l32 (u32 s) 9 ≡ rotl (u32 s) 9
unfolding l32 rotl
l32-rotl_9 s =
    let high : u32 (u32 s << 9) ≡ u32 s % 2 ^ 23 * 2 ^ 9 = omega arith in
    let low : bit_and (u32 s) 0xffffffff >> 23 ≡ u32 s / 2 ^ 23 =
      omega (arith, bit_and_mask 32 (u32 s)) in
    rw (high, low) (bit_or_shifted 9 (u32 s % 2 ^ 23) (u32 s / 2 ^ 23) (omega arith) ∙ omega arith)

l32-rotl_13 : (s : ℕ) → l32 (u32 s) 13 ≡ rotl (u32 s) 13
unfolding l32 rotl
l32-rotl_13 s =
    let high : u32 (u32 s << 13) ≡ u32 s % 2 ^ 19 * 2 ^ 13 = omega arith in
    let low : bit_and (u32 s) 0xffffffff >> 19 ≡ u32 s / 2 ^ 19 =
      omega (arith, bit_and_mask 32 (u32 s)) in
    rw (high, low) (bit_or_shifted 13 (u32 s % 2 ^ 19) (u32 s / 2 ^ 19) (omega arith) ∙ omega arith)

l32-rotl_18 : (s : ℕ) → l32 (u32 s) 18 ≡ rotl (u32 s) 18
unfolding l32 rotl
l32-rotl_18 s =
    let high : u32 (u32 s << 18) ≡ u32 s % 2 ^ 14 * 2 ^ 18 = omega arith in
    let low : bit_and (u32 s) 0xffffffff >> 14 ≡ u32 s / 2 ^ 14 =
      omega (arith, bit_and_mask 32 (u32 s)) in
    rw (high, low) (bit_or_shifted 18 (u32 s % 2 ^ 14) (u32 s / 2 ^ 14) (omega arith) ∙ omega arith)

quarter-quarterround : (a b c d : ℕ) → quarter a b c d ≡ quarterround a b c d
unfolding quarter quarterround
quarter-quarterround a b c d = simp (l32-rotl_7, l32-rotl_9, l32-rotl_13, l32-rotl_18)

-- Two rounds of the code, each of which reads columns and writes rows, are one doubleround.
pub round-round : (x : List ℕ) → round (round x) ≡ rowround (columnround x)
unfolding round rowround columnround
round-round x = simp quarter-quarterround

twice : (n : ℕ) (i : ℕ) (x : List ℕ) → for_up (n + n) i (λ j s. round s) x ≡ doublerounds n x
unfolding for_up doublerounds
twice zero i x = refl
twice (suc n) i x =
    let e : suc n + suc n ≡ suc (suc (n + n)) = omega arith in
    ap (λ m. for_up m i (λ j s. round s) x) e
    ∙ ap (for_up (n + n) (suc (suc i)) (λ j s. round s)) (round-round x)
    ∙ twice n (suc (suc i)) (rowround (columnround x))

-- The twenty rounds are ten double rounds of the specification.
pub rounds-doublerounds : (x : List ℕ) → rounds x ≡ doublerounds 10 x
unfolding rounds
rounds-doublerounds x = twice 10 0 x

-- The matrix keeps its sixteen words.
pub length-doublerounds : (n : ℕ) (x : List ℕ) → length x ≡ 16 → length (doublerounds n x) ≡ 16
unfolding doublerounds
length-doublerounds zero x h = h
length-doublerounds (suc n) x h =
    length-doublerounds n (rowround (columnround x)) (unfold rowround in refl)
