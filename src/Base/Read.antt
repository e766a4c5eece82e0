-- ===== src/Base/Read.antt =====
-- A list as its elements, read one by one.
use Prim.Native.Nat.{ℕ, zero, suc, ◌≤◌}
use mathlib.Core.Path.{◌≡◌, refl, sym, ap, ◌∙◌}
use mathlib.Core.List.{List, [], ◌∷◌}
use native.Mathlib.Omega.{arith}
use tweetnacl_modular.Base.Lists.{length, take, get_or}
use tweetnacl_modular.Base.Slices.{take_all}

-- `n` elements from index `i` on, read one by one.
abbrev pub read_from : ℕ → ℕ → List ℕ → List ℕ
read_from zero i xs = []
read_from (suc n) i xs = get_or xs i 0 ∷ read_from n (suc i) xs

read_from-cons : (n i x : ℕ) (xs : List ℕ) → read_from n (suc i) (x ∷ xs) ≡ read_from n i xs
read_from-cons zero i x xs = refl
read_from-cons (suc n) i x xs = ap (◌∷◌ (get_or xs i 0)) (read_from-cons n (suc i) x xs)

pub take-read_from : (n : ℕ) (xs : List ℕ) → n ≤ length xs → take n xs ≡ read_from n 0 xs
take-read_from zero xs h = refl
take-read_from (suc n) [] h = absurd (omega arith)
take-read_from (suc n) (x ∷ xs) h =
    ap (◌∷◌ x) (take-read_from n xs (omega arith) ∙ sym (read_from-cons n 0 x xs))

pub read_from_all : (n : ℕ) (xs : List ℕ) → length xs ≡ n → xs ≡ read_from n 0 xs
read_from_all n xs e = sym (take_all n xs (omega arith)) ∙ take-read_from n xs (omega arith)
