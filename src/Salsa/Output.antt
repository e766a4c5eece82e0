-- ===== src/Salsa/Output.antt =====
-- `core` computes Salsa20 and HSalsa20.
use tweetnacl_modular.Base.{
  ℕ, zero, suc, ◌+◌, ◌≡◌, refl, ap, ◌∙◌, arith, List, [], ◌∷◌, length, drop, sym,
}
use tweetnacl_modular.Word.{u32, sub32}
use tweetnacl_modular.Bytes.{st32}
use tweetnacl_modular.Salsa.{
  word, load_state, add_words, take_off, store_eight, store_sums, core, crypto_core_salsa20,
  crypto_core_hsalsa20,
}
use tweetnacl_modular.Salsa.Reference.{matrix, sums, words_bytes, doublerounds, salsa20, hsalsa20}
use tweetnacl_modular.Salsa.Rounds.{rounds-doublerounds, length-doublerounds}

load_state-matrix : (inp k c : List ℕ) → load_state inp k c ≡ matrix inp k c
unfolding load_state matrix
load_state-matrix inp k c = refl

store_sums-sums : (x y : List ℕ) → store_sums x y ≡ words_bytes (sums x y)
unfolding store_sums sums st32
store_sums-sums x y = refl

-- `crypto_core_salsa20` writes the 64 bytes of the specification's Salsa20.
pub crypto_core_salsa20-salsa20 : (inp k c : List ℕ) → crypto_core_salsa20 inp k c ≡ salsa20 inp k c
unfolding salsa20 core crypto_core_salsa20
crypto_core_salsa20-salsa20 inp k c =
    rw (load_state-matrix inp k c, rounds-doublerounds (matrix inp k c))
      (store_sums-sums (doublerounds 10 (matrix inp k c)) (matrix inp k c))

sub32-add : (x y : ℕ) → sub32 (u32 (x + y)) y ≡ u32 x
sub32-add x y = omega arith

st32-u32 : (x : ℕ) → st32 (u32 x) ≡ st32 x
unfolding st32
st32-u32 x = ground arith

abbrev eight : List ℕ → List ℕ
eight x =
    word x 0 ∷ word x 5 ∷ word x 10 ∷ word x 15 ∷ word x 6 ∷ word x 7 ∷ word x 8 ∷ word x 9 ∷ []

store_eight-eight : (x : List ℕ) → store_eight x ≡ words_bytes (eight x)
unfolding store_eight st32
store_eight-eight x = refl

-- A list of sixteen words is the list of its entries.
entries : ℕ → List ℕ → List ℕ
entries zero x = []
entries (suc n) x = word x 0 ∷ entries n (drop 1 x)

entries_all : (n : ℕ) (x : List ℕ) → length x ≡ n → x ≡ entries n x
unfolding entries
entries_all zero [] h = refl
entries_all zero (a ∷ x) h = absurd (omega arith)
entries_all (suc n) [] h = absurd (omega arith)
entries_all (suc n) (a ∷ x) h = ap (◌∷◌ a) (entries_all n x (omega arith))

-- Taking the constant and the input off the sums gives the words back, modulo the word size.
taken_off :
    (x inp k c : List ℕ)
    → words_bytes (eight (take_off (add_words (entries 16 x) (matrix inp k c)) inp c))
      ≡ words_bytes (eight (entries 16 x))
unfolding take_off add_words matrix entries
taken_off x inp k c = simp (sub32-add, st32-u32)

-- `crypto_core_hsalsa20` writes the 32 bytes of HSalsa20.
pub crypto_core_hsalsa20-hsalsa20 :
    (inp k c : List ℕ) → crypto_core_hsalsa20 inp k c ≡ hsalsa20 inp k c
unfolding hsalsa20 core crypto_core_hsalsa20
crypto_core_hsalsa20-hsalsa20 inp k c =
    let z = doublerounds 10 (matrix inp k c) in
    let whole = entries_all 16 z (length-doublerounds 10 _ (unfold matrix in refl)) in
    rw (load_state-matrix inp k c, rounds-doublerounds (matrix inp k c))
      (store_eight-eight _
        ∙ ap (λ t. words_bytes (eight (take_off (add_words t (matrix inp k c)) inp c))) whole
        ∙ taken_off z inp k c
        ∙ ap (λ t. words_bytes (eight t)) (sym whole))
