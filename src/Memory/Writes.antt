-- ===== src/Memory/Writes.antt =====
-- Writes over parts of a buffer.
use tweetnacl_modular.Base.{
  ℕ, ◌+◌, ◌≡◌, refl, sym, ap, ◌∙◌, arith, List, ◌++◌, length, drop, drop_all, append-nil,
  take-append, drop-append, drop-drop,
}
use tweetnacl_modular.Memory.{write_at}

pub written-whole : (new old : List ℕ) → length old ≡ length new → write_at 0 new old ≡ new
written-whole new old e =
    ap (λ t. new ++ t) (drop_all (0 + length new) old (omega (arith, e))) ∙ append-nil new

-- A write over the first of two parts, and over the second.
pub over_first :
    (new a rest : List ℕ) → length new ≡ length a → write_at 0 new (a ++ rest) ≡ new ++ rest
over_first new a rest e = ap (λ t. new ++ t) (drop-append (0 + length new) a rest (omega arith))

pub over_second :
    (k : ℕ) (new a b rest : List ℕ)
    → k ≡ length a
    → length new ≡ length b
    → write_at k new (a ++ (b ++ rest)) ≡ a ++ (new ++ rest)
over_second k new a b rest ea eb =
    ap (λ t. t ++ (new ++ drop (k + length new) (a ++ (b ++ rest))))
      (take-append k a (b ++ rest) ea)
    ∙ ap (λ t. a ++ (new ++ t))
        (sym (drop-drop (length new) k (k + length new) (a ++ (b ++ rest)) refl)
          ∙ ap (drop (length new)) (drop-append k a (b ++ rest) ea)
          ∙ drop-append (length new) b rest eb)
