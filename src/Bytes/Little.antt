-- ===== src/Bytes/Little.antt =====
-- `ld32` and `st32` read and write a word low byte first.
use tweetnacl_modular.Base.{
  ℕ, ◌+◌, ◌*◌, ◌^◌, ◌<◌, ◌≤◌, ◌≡◌, refl, ap, arith, List, [], ◌∷◌, length, take, take_all, sym, ◌∙◌,
}
use tweetnacl_modular.Bits.{bit_or_shifted}
use tweetnacl_modular.Word.{u32, ◌<<◌}
use tweetnacl_modular.Bytes.{IsBytes, push32, ld32, st32}
use tweetnacl_modular.Bytes.Value.{le_value, le_value_inj}

push32-add : (u b : ℕ) → u < 2 ^ 24 → b < 2 ^ 8 → push32 u b ≡ u * 256 + b
push32-add u b hu hb =
    let e : u32 (u << 8) ≡ u * 2 ^ 8 = omega arith in rw e (bit_or_shifted 8 u b hb)

ld32_four :
    (a b c d : ℕ) (xs : List ℕ)
    → a < 256
    → b < 256
    → c < 256
    → d < 256
    → ld32 (a ∷ b ∷ c ∷ d ∷ xs) ≡ a + 256 * (b + 256 * (c + 256 * d))
unfolding ld32
ld32_four a b c d xs ha hb hc hd =
    rw
      (
        push32-add d c (omega arith) hc,
        push32-add (d * 256 + c) b (omega arith) hb,
        push32-add ((d * 256 + c) * 256 + b) a (omega arith) ha,
      )
      (omega arith)

-- Where four bytes can be read, `ld32` gives their value, low byte first.
pub ld32-le_value : (x : List ℕ) → IsBytes x → 4 ≤ length x → ld32 x ≡ le_value (take 4 x)
ld32-le_value (a ∷ b ∷ c ∷ d ∷ xs) h n =
    omega (arith, ld32_four a b c d xs h.0 h.1.0 h.1.1.0 h.1.1.1.0)
ld32-le_value (a ∷ b ∷ c ∷ []) h n = absurd (omega arith)
ld32-le_value (a ∷ b ∷ []) h n = absurd (omega arith)
ld32-le_value (a ∷ []) h n = absurd (omega arith)
ld32-le_value [] h n = absurd (omega arith)

pub ld32-lt : (x : List ℕ) → IsBytes x → 4 ≤ length x → ld32 x < 2 ^ 32
ld32-lt (a ∷ b ∷ c ∷ d ∷ xs) h n = omega (arith, ld32_four a b c d xs h.0 h.1.0 h.1.1.0 h.1.1.1.0)
ld32-lt (a ∷ b ∷ c ∷ []) h n = absurd (omega arith)
ld32-lt (a ∷ b ∷ []) h n = absurd (omega arith)
ld32-lt (a ∷ []) h n = absurd (omega arith)
ld32-lt [] h n = absurd (omega arith)

pub length-st32 : (u : ℕ) → length (st32 u) ≡ 4
unfolding st32
length-st32 u = refl

pub st32-IsBytes : (u : ℕ) → IsBytes (st32 u)
unfolding st32
st32-IsBytes u = omega arith

st32_value : (u : ℕ) → u < 2 ^ 32 → le_value (take 4 (st32 u)) ≡ u
unfolding st32
st32_value u h = omega arith

-- A 32-bit word that is stored and loaded again is the word.
pub ld32-st32 : (u : ℕ) → u < 2 ^ 32 → ld32 (st32 u) ≡ u
ld32-st32 u h =
    ld32-le_value (st32 u) (st32-IsBytes u) (omega (arith, length-st32 u)) ∙ st32_value u h

-- Four bytes that are loaded and stored again are the bytes.
pub st32-ld32 : (x : List ℕ) → IsBytes x → length x ≡ 4 → st32 (ld32 x) ≡ x
st32-ld32 x h n =
    le_value_inj (st32 (ld32 x)) x (st32-IsBytes _) h (length-st32 (ld32 x) ∙ sym n)
      (stored ∙ ld32-le_value x h (omega arith) ∙ ap le_value (take_all 4 x (omega arith)))
  where
    stored : le_value (st32 (ld32 x)) ≡ ld32 x
    stored =
        ap le_value (sym (take_all 4 (st32 (ld32 x)) (omega (arith, length-st32 (ld32 x)))))
        ∙ st32_value (ld32 x) (ld32-lt x h (omega arith))
