-- ===== src/Curve25519.antt =====
-- src/tweetnacl/tweetnacl.c: the field of Curve25519. A `gf` is 16 limbs to the base 2^16,
-- each an `i64`, which is an exact integer here; Curve25519.Range says when 64 bits hold it.
pub mod Ladder
pub mod Lengths
pub mod Value
pub mod Select
pub mod Unpack
pub mod Range
pub mod Product
use tweetnacl_modular.Base.{
  ℕ, zero, suc, ◌+◌, ◌-◌, ◌*◌, ◌/◌, ◌%◌, ◌^◌, ◌==◌, bit_and, bit_xor, ltb, Bool, true, false, ◌||◌,
  if◌then◌else◌, List, [], ◌∷◌, ◌++◌, get_or, set, take, drop, replicate, map,
}
use tweetnacl_modular.Base.Int.{ℤ, pos, negsuc, ◌+ℤ◌, ◌-ℤ◌, ◌*ℤ◌}
use tweetnacl_modular.Base.Signed.{shr_ℤ, low_ℤ, shl_ℤ, word_ℤ, signed64}
use tweetnacl_modular.Word.{u8, not64, sub64}
use tweetnacl_modular.Verify.{crypto_verify_32}

abbrev pub Gf : Type 0
Gf = List ℤ

abbrev pub gf_of : List ℕ → Gf
gf_of = map pos

abbrev pub gf0 : Gf
gf0 = gf_of (replicate 16 0)

abbrev pub gf1 : Gf
gf1 = gf_of (1 ∷ replicate 15 0)

-- `_121665`
abbrev pub gf_121665 : Gf
gf_121665 = gf_of (0xDB41 ∷ 1 ∷ replicate 14 0)

abbrev pub d_constant : Gf
d_constant = gf_of (
    0x78a3 ∷ 0x1359 ∷ 0x4dca ∷ 0x75eb ∷ 0xd8ab ∷ 0x4141 ∷ 0x0a4d ∷ 0x0070 ∷ 0xe898 ∷ 0x7779 ∷ 0x4079
    ∷ 0x8cc7 ∷ 0xfe73 ∷ 0x2b6f ∷ 0x6cee ∷ 0x5203 ∷ [])

abbrev pub d2_constant : Gf
d2_constant = gf_of (
    0xf159 ∷ 0x26b2 ∷ 0x9b94 ∷ 0xebd6 ∷ 0xb156 ∷ 0x8283 ∷ 0x149a ∷ 0x00e0 ∷ 0xd130 ∷ 0xeef3 ∷ 0x80f2
    ∷ 0x198e ∷ 0xfce7 ∷ 0x56df ∷ 0xd9dc ∷ 0x2406 ∷ [])

abbrev pub x_constant : Gf
x_constant = gf_of (
    0xd51a ∷ 0x8f25 ∷ 0x2d60 ∷ 0xc956 ∷ 0xa7b2 ∷ 0x9525 ∷ 0xc760 ∷ 0x692c ∷ 0xdc5c ∷ 0xfdd6 ∷ 0xe231
    ∷ 0xc0a4 ∷ 0x53fe ∷ 0xcd6e ∷ 0x36d3 ∷ 0x2169 ∷ [])

abbrev pub y_constant : Gf
y_constant = gf_of (0x6658 ∷ replicate 15 0x6666)

abbrev pub i_constant : Gf
i_constant = gf_of (
    0xa0b0 ∷ 0x4a0e ∷ 0x1b27 ∷ 0xc4ee ∷ 0xe478 ∷ 0xad2f ∷ 0x1806 ∷ 0x2f43 ∷ 0xd7a7 ∷ 0x3dfb ∷ 0x0099
    ∷ 0x2b4d ∷ 0xdf0b ∷ 0x4fc1 ∷ 0x2480 ∷ 0x2b83 ∷ [])

-- A pass over the limbs with the carry that the limb before gave; the last carry is left over. As
-- in C, a limb is raised by 2^16 first, and its carry lowered by 1.
unfoldable pub carry_limbs : ℤ → Gf → Gf × ℤ
carry_limbs carry [] = ([], carry)
carry_limbs carry (o ∷ os) =
    let raised = (o +ℤ carry) +ℤ pos (2 ^ 16) in
    let c = shr_ℤ raised 16 in
    let rest = carry_limbs (c -ℤ pos 1) os in ((raised -ℤ shl_ℤ c 16) ∷ rest.0, rest.1)

abbrev pub add_first : ℤ → Gf → Gf
add_first c [] = []
add_first c (o ∷ os) = (o +ℤ c) ∷ os

-- The carry of limb 15 goes to limb 0, `c - 1 + 37 * (c - 1)`.
unfoldable pub car25519 : Gf → Gf
unfolding carry_limbs shl_ℤ
car25519 o = let run = carry_limbs (pos 0) o in add_first (run.1 +ℤ pos 37 *ℤ run.1) run.0

-- One round of the loop: `c = ~(b - 1)` at 64 bits, and the exchange under that mask.
unfoldable pub select_limbs : ℕ → ℤ → ℤ → ℤ × ℤ
unfolding word_ℤ signed64
select_limbs b p q =
    let t = bit_and (not64 (sub64 b 1)) (bit_xor (word_ℤ p) (word_ℤ q)) in
    (signed64 (bit_xor (word_ℤ p) t), signed64 (bit_xor (word_ℤ q) t))

unfoldable pub sel25519 : Gf → Gf → ℕ → Gf × Gf
unfolding select_limbs
sel25519 [] q b = ([], [])
sel25519 (p ∷ ps) [] b = ([], [])
sel25519 (p ∷ ps) (q ∷ qs) b =
    let one = select_limbs b p q in let rest = sel25519 ps qs b in (one.0 ∷ rest.0, one.1 ∷ rest.1)

abbrev pub is_last : Gf → Bool
is_last [] = true
is_last (x ∷ xs) = false

-- `m = t - p` with borrows: the limbs of t left, the borrow of the limb before, and the limbs of p
-- left. Each limb but the last is masked; the last gives `b`.
unfoldable pub subtract_p : Gf → List ℕ → ℕ → Gf × ℕ
subtract_p [] ps borrow = ([], borrow)
subtract_p (t ∷ ts) ps borrow =
    let m = (t -ℤ pos (get_or ps 0 0)) -ℤ pos borrow in
    let rest = subtract_p ts (drop 1 ps) (low_ℤ (shr_ℤ m 16) 1) in
    ((if is_last ts then m else pos (low_ℤ m 16)) ∷ rest.0, rest.1)

-- The limbs of 2^255 - 19.
abbrev pub p_limbs : List ℕ
p_limbs = 0xffed ∷ replicate 14 0xffff ++ 0x7fff ∷ []

-- A round of `FOR(j, 2)`.
unfoldable pub reduce_once : Gf → Gf
unfolding subtract_p sel25519
reduce_once t = let m = subtract_p t p_limbs 0 in (sel25519 t m.0 (1 - m.1)).0

-- `o[2 * i] = t[i] & 0xff; o[2 * i + 1] = t[i] >> 8`
unfoldable pub limb_bytes : Gf → List ℕ
limb_bytes [] = []
limb_bytes (t ∷ ts) = low_ℤ t 8 ∷ low_ℤ (shr_ℤ t 8) 8 ∷ limb_bytes ts

unfoldable pub pack25519 : Gf → List ℕ
unfolding car25519 reduce_once limb_bytes
pack25519 n = limb_bytes (reduce_once (reduce_once (car25519 (car25519 (car25519 n)))))

unfoldable pub neq25519 : Gf → Gf → ℤ
unfolding pack25519
neq25519 a b = crypto_verify_32 (pack25519 a) (pack25519 b)

unfoldable pub par25519 : Gf → ℕ
unfolding pack25519
par25519 a = bit_and (get_or (pack25519 a) 0 0) 1

-- The loop over pairs of bytes, with the rounds left.
unfoldable pub byte_limbs : ℕ → List ℕ → Gf
byte_limbs zero n = []
byte_limbs (suc rounds) n = pos (get_or n 0 0 + 2 ^ 8 * get_or n 1 0) ∷ byte_limbs rounds (drop 2 n)

-- `o[15] &= 0x7fff`
unfoldable pub unpack25519 : List ℕ → Gf
unfolding byte_limbs
unpack25519 n = let o = byte_limbs 16 n in set o 15 (pos (low_ℤ (get_or o 15 (pos 0)) 15))

-- `A` and `Z`
unfoldable pub add_gf : Gf → Gf → Gf
add_gf [] b = []
add_gf (x ∷ a) [] = []
add_gf (x ∷ a) (y ∷ b) = (x +ℤ y) ∷ add_gf a b

unfoldable pub sub_gf : Gf → Gf → Gf
sub_gf [] b = []
sub_gf (x ∷ a) [] = []
sub_gf (x ∷ a) (y ∷ b) = (x -ℤ y) ∷ sub_gf a b

-- `FOR(j, 16) t[i + j] += a[i] * b[j]`, from `t[i]` on.
unfoldable pub add_row : ℤ → Gf → Gf → Gf
add_row a [] t = t
add_row a (b ∷ bs) [] = []
add_row a (b ∷ bs) (t ∷ ts) = (t +ℤ a *ℤ b) ∷ add_row a bs ts

abbrev pub keep_first : Gf → (Gf → Gf) → Gf
keep_first [] f = []
keep_first (t ∷ ts) f = t ∷ f ts

-- `FOR(i, 16)` over the rows: the limbs of `a` left, and `t` from index i on.
unfoldable pub add_rows : Gf → Gf → Gf → Gf
unfolding add_row
add_rows [] b t = t
add_rows (a ∷ later) b t = keep_first (add_row a b t) (λ ts. add_rows later b ts)

-- `t[i] += 38 * t[i + 16]` for the limbs that have one 16 above.
unfoldable pub fold_38 : Gf → Gf → Gf
fold_38 [] high = []
fold_38 (t ∷ ts) [] = t ∷ ts
fold_38 (t ∷ ts) (h ∷ hs) = (t +ℤ pos 38 *ℤ h) ∷ fold_38 ts hs

-- `M`
unfoldable pub mul_gf : Gf → Gf → Gf
unfolding add_rows fold_38 car25519
mul_gf a b =
    let t = add_rows a b (gf_of (replicate 31 0)) in
    car25519 (car25519 (fold_38 (take 16 t) (drop 16 t)))

-- `S`
unfoldable pub square_gf : Gf → Gf
unfolding mul_gf
square_gf a = mul_gf a a

-- A loop that squares, and multiplies by `i` but at the indices that are left out; it runs down
-- from `a`.
unfoldable pub power_loop : (ℕ → Bool) → Gf → ℕ → Gf → Gf
unfolding square_gf
power_loop skipped i zero c = c
power_loop skipped i (suc a) c =
    power_loop skipped i a (if skipped a then square_gf c else mul_gf (square_gf c) i)

unfoldable pub inv25519 : Gf → Gf
unfolding power_loop
inv25519 i = power_loop (λ a. a == 2 || a == 4) i 254 i

unfoldable pub pow2523 : Gf → Gf
unfolding power_loop
pow2523 i = power_loop (λ a. a == 1) i 251 i
