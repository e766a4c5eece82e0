-- ===== src/Poly/Carry.antt =====
-- The carry loops keep the number that the digits stand for.
use native.Mathlib.Nat.{pow-suc, one-le-pow, zero-add}
use tweetnacl_modular.Base.{
  ℕ, zero, suc, ◌+◌, ◌*◌, ◌/◌, ◌%◌, ◌^◌, ◌<◌, ◌≤◌, ◌≡◌, refl, ap, ap₂, sym, ◌∙◌, arith, List, [],
  ◌∷◌, length, All, take,
}
use tweetnacl_modular.Base.Mod.{mod_scale}
use tweetnacl_modular.Bits.{bit_and_mask}
use tweetnacl_modular.Word.{u32, ◌>>◌}
use tweetnacl_modular.Bytes.{IsBytes}
use tweetnacl_modular.Bytes.Value.{le_value, scale_suc}
use tweetnacl_modular.Poly.{add1305_loop, add1305, carry_run}

add1305_loop-cons :
    (u a b : ℕ) (h c : List ℕ)
    → u + a + b < 2 ^ 32
    → add1305_loop u (a ∷ h) (b ∷ c) ≡ (u + a + b) % 256 ∷ add1305_loop ((u + a + b) / 256) h c
unfolding add1305_loop
add1305_loop-cons u a b h c fits =
    let e : u32 (u + u32 (a + b)) ≡ u + a + b = omega arith in
    rw (e, bit_and_mask 8 (u + a + b)) refl

add1305_loop_value :
    (u : ℕ) (h c : List ℕ)
    → u ≤ 1
    → IsBytes h
    → IsBytes c
    → length h ≡ length c
    → le_value (add1305_loop u h c) ≡ (u + le_value h + le_value c) % 256 ^ length h
add1305_loop_value u [] [] hu hh hc e = unfold add1305_loop in omega arith
add1305_loop_value u [] (b ∷ c) hu hh hc e = absurd (omega arith)
add1305_loop_value u (a ∷ h) [] hu hh hc e = absurd (omega arith)
add1305_loop_value u (a ∷ h) (b ∷ c) hu hh hc e =
    let s = u + a + b in
    let rest = add1305_loop_value (s / 256) h c (omega arith) hh.1 hc.1 (omega arith) in
    let total : u + le_value (a ∷ h) + le_value (b ∷ c)
        ≡ 256 * (s / 256 + le_value h + le_value c) + s % 256 =
      omega arith in
    let digit =
      mod_scale 256 (256 ^ length h) (s / 256 + le_value h + le_value c) (s % 256) (omega arith)
        (one-le-pow (length h) 256 (omega arith)) in
    let power : 256 ^ length (a ∷ h) ≡ 256 * 256 ^ length h =
      omega (arith, pow-suc 256 (length h)) in
    ap le_value (add1305_loop-cons u a b h c (omega arith))
    ∙ omega (arith, rest, sym digit)
    ∙ ap₂ (λ t m. t % m) (sym total) (sym power)

add1305_loop-IsBytes : (u : ℕ) (h c : List ℕ) → IsBytes (add1305_loop u h c)
unfolding add1305_loop
add1305_loop-IsBytes u [] c = tt
add1305_loop-IsBytes u (a ∷ h) [] = tt
add1305_loop-IsBytes u (a ∷ h) (b ∷ c) = (
  omega (arith, bit_and_mask 8 (u32 (u + u32 (a + b)))),
  add1305_loop-IsBytes (u32 (u + u32 (a + b)) >> 8) h c,
)

length-add1305_loop :
    (u : ℕ) (h c : List ℕ) → length h ≡ length c → length (add1305_loop u h c) ≡ length h
unfolding add1305_loop
length-add1305_loop u [] c e = refl
length-add1305_loop u (a ∷ h) [] e = absurd (omega arith)
length-add1305_loop u (a ∷ h) (b ∷ c) e =
    ap suc (length-add1305_loop (u32 (u + u32 (a + b)) >> 8) h c (omega arith))

pub add1305-IsBytes : (h c : List ℕ) → IsBytes (add1305 h c)
unfolding add1305
add1305-IsBytes h c = add1305_loop-IsBytes 0 h c

pub length-add1305 : (h c : List ℕ) → length h ≡ length c → length (add1305 h c) ≡ length h
unfolding add1305
length-add1305 h c e = length-add1305_loop 0 h c e

-- On two lists of as many bytes, `add1305` adds the numbers, modulo their width.
pub add1305_value :
    (h c : List ℕ)
    → IsBytes h
    → IsBytes c
    → length h ≡ length c
    → le_value (add1305 h c) ≡ (le_value h + le_value c) % 256 ^ length h
unfolding add1305
add1305_value h c hh hc e =
    add1305_loop_value 0 h c (omega arith) hh hc e
    ∙ ap (λ t. (t + le_value c) % 256 ^ length h) (zero-add (le_value h))

-- What a carry pass over the first `n` digits of `h` gives: `n` bytes and what is carried out.
pub record IsCarried (n u bound : ℕ) (h : List ℕ) (result : List ℕ × ℕ) : Type 0 where
  pub value : le_value result.0 + 256 ^ n * result.1 ≡ u + le_value (take n h)
  pub digits : IsBytes result.0
  pub count : length result.0 ≡ n
  pub carry : result.1 ≤ bound

carry_run-cons :
    (n u a : ℕ) (h : List ℕ)
    → u + a < 2 ^ 32
    → carry_run (suc n) u (a ∷ h)
      ≡ ((u + a) % 256 ∷ (carry_run n ((u + a) / 256) h).0, (carry_run n ((u + a) / 256) h).1)
unfolding carry_run
carry_run-cons n u a h fits =
    let e : u32 (u + a) ≡ u + a = omega arith in rw (e, bit_and_mask 8 (u + a)) refl

IsCarried-cons :
    (n u bound a : ℕ) (h : List ℕ) (rest : List ℕ × ℕ)
    → IsCarried n ((u + a) / 256) bound h rest
    → IsCarried (suc n) u bound (a ∷ h) ((u + a) % 256 ∷ rest.0, rest.1)
IsCarried-cons n u bound a h rest v = record {
  value = omega (arith, v.value, scale_suc n rest.1);
  digits = (omega arith, v.digits);
  count = ap suc v.count;
  carry = v.carry;
}

-- A carry pass over `n` digits that are far from the word size loses nothing.
pub carry_run-IsCarried :
    (n u bound : ℕ) (h : List ℕ)
    → All (λ a. a ≤ bound) h
    → u ≤ bound
    → bound < 2 ^ 31
    → n ≤ length h
    → IsCarried n u bound h (carry_run n u h)
carry_run-IsCarried zero u bound h hb hu small hl = record {
  value = unfold carry_run in omega arith;
  digits = unfold carry_run in tt;
  count = unfold carry_run in refl;
  carry = unfold carry_run in hu;
}
carry_run-IsCarried (suc n) u bound [] hb hu small hl = absurd (omega arith)
carry_run-IsCarried (suc n) u bound (a ∷ h) hb hu small hl =
    let below : a ≤ bound = hb.0 in
    rw (carry_run-cons n u a h (omega arith)) (
      IsCarried-cons n u bound a h _
        (carry_run-IsCarried n ((u + a) / 256) bound h hb.1 (omega arith) small (omega arith)))
