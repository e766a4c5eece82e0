-- ===== src/Bytes/Big.antt =====
-- `dl64` and `ts64` read and write a word high byte first.
use tweetnacl_modular.Base.{ℕ, zero, suc, ◌+◌, ◌*◌, ◌^◌, ◌<◌, ◌≤◌, ◌≡◌, refl, ap, arith}
use tweetnacl_modular.Base.{List, [], ◌∷◌, length, take, ◌∙◌, bit_or}
use native.Mathlib.Nat.{le_trans, mul-le-mul_right, mul-le-mul_left, pow-suc, one-le-pow}
use tweetnacl_modular.Bits.{bit_or_shifted}
use tweetnacl_modular.Word.{u64, ◌<<◌}
use tweetnacl_modular.Bytes.{IsBytes, dl64, dl64_loop, ts64}
use tweetnacl_modular.Bytes.Value.{be_value, be_value_from}

push64-add : (u b : ℕ) → u < 2 ^ 56 → b < 2 ^ 8 → bit_or (u64 (u << 8)) b ≡ 256 * u + b
push64-add u b hu hb =
    let e : u64 (u << 8) ≡ u * 2 ^ 8 = omega arith in rw e (bit_or_shifted 8 u b hb ∙ omega arith)

-- There is room for `n` more bytes after `u`.
abbrev HasRoom : ℕ → ℕ → Type 0
HasRoom n u = (u + 1) * 256 ^ n ≤ 2 ^ 64

room_next : (n u b : ℕ) → b < 2 ^ 8 → HasRoom (suc n) u → HasRoom n (256 * u + b)
room_next n u b hb h = le_trans (mul-le-mul_right (256 ^ n) smaller) (rw (← regroup) h)
  where
    smaller : 256 * u + b + 1 ≤ 256 * (u + 1)
    smaller = omega arith

    regroup : (u + 1) * 256 ^ suc n ≡ 256 * (u + 1) * 256 ^ n
    regroup = omega (arith, ap (λ (t : ℕ). (u + 1) * t) (pow-suc 256 n))

room_small : (n u : ℕ) → HasRoom (suc n) u → u < 2 ^ 56
room_small n u h = omega (arith, one-le-pow n 256 (omega arith), pow-suc 256 n, h, grows)
  where
    grows : (u + 1) * 256 ≤ (u + 1) * 256 ^ suc n
    grows = mul-le-mul_left (u + 1) (omega (arith, one-le-pow n 256 (omega arith), pow-suc 256 n))

dl64_loop-be_value :
    (n u : ℕ) (xs : List ℕ)
    → HasRoom n u
    → IsBytes xs
    → n ≤ length xs
    → dl64_loop n u xs ≡ be_value_from u (take n xs)
unfolding dl64_loop
dl64_loop-be_value zero u xs room h l = refl
dl64_loop-be_value (suc n) u [] room h l = absurd (omega arith)
dl64_loop-be_value (suc n) u (b ∷ xs) room h l =
    rw (push64-add u b (room_small n u room) h.0)
      (dl64_loop-be_value n (256 * u + b) xs (room_next n u b h.0 room) h.1 (omega arith))

-- Where eight bytes can be read, `dl64` gives their value, high byte first.
pub dl64-be_value : (x : List ℕ) → IsBytes x → 8 ≤ length x → dl64 x ≡ be_value (take 8 x)
unfolding dl64
dl64-be_value x h l = dl64_loop-be_value 8 0 x (omega arith) h l

pub length-ts64 : (u : ℕ) → length (ts64 u) ≡ 8
unfolding ts64
length-ts64 u = refl

pub ts64-IsBytes : (u : ℕ) → IsBytes (ts64 u)
unfolding ts64
ts64-IsBytes u = omega arith

ts64_value : (u : ℕ) → u < 2 ^ 64 → be_value (take 8 (ts64 u)) ≡ u
unfolding ts64
ts64_value u h = omega arith

-- A 64-bit word that is stored and loaded again is the word.
pub dl64-ts64 : (u : ℕ) → u < 2 ^ 64 → dl64 (ts64 u) ≡ u
dl64-ts64 u h =
    dl64-be_value (ts64 u) (ts64-IsBytes u) (omega (arith, length-ts64 u)) ∙ ts64_value u h
