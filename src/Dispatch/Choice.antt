-- ===== src/Dispatch/Choice.antt =====
-- The implementation that is chosen is the best that the processor supports.
use tweetnacl_modular.Base.{
  ℕ, ◌≤◌, ◌<◌, ◌≡◌, ◌⊎◌, inl, inr, refl, ap, ap₂, sym, ◌∙◌, arith, Bool, true, false, ◌&&◌, ltb,
  ltb→lt, ltb→le, ◌==◌, ==_iff, Bool-cases, Option, none, some, List, [], ◌∷◌, All, bit_and,
}
use tweetnacl_modular.Base.Int.{ok, failed}
use tweetnacl_modular.Bits.{bit_and-zero}
use tweetnacl_modular.Dispatch.{
  Impl, same_name, is_supported, best_of, nacl_select_implementation, nacl_set_implementation,
}

abbrev pub IsOneOf : Impl → List Impl → Type 0
IsOneOf impl [] = ⊥
IsOneOf impl (x ∷ table) = (impl ≡ x) ⊎ IsOneOf impl table

-- What the choice among a table promises.
pub record IsBest (features : ℕ) (table : List Impl) (impl : Impl) : Type 0 where
  pub in_table : IsOneOf impl table
  pub supported : is_supported features impl ≡ true
  pub highest : All (λ x. is_supported features x ≡ true → x.priority ≤ impl.priority) table

-- The loop keeps the best so far, and never goes down.
record IsKept (features : ℕ) (best : Impl) (table : List Impl) (impl : Impl) : Type 0 where
  from : (impl ≡ best) ⊎ IsOneOf impl table
  works : is_supported features impl ≡ true
  rises : best.priority ≤ impl.priority
  beats : All (λ x. is_supported features x ≡ true → x.priority ≤ impl.priority) table

better :
    (features : ℕ) (best impl : Impl) (table : List Impl) (result : Impl)
    → IsKept features impl table result
    → best.priority ≤ impl.priority
    → IsKept features best (impl ∷ table) result
better features best impl table result v up = record {
  from = inr v.from;
  works = v.works;
  rises = omega (arith, up, v.rises);
  beats = (λ s. v.rises, v.beats);
}

worse :
    (features : ℕ) (best impl : Impl) (table : List Impl) (result : Impl)
    → IsKept features best table result
    → (is_supported features impl ≡ true → impl.priority ≤ best.priority)
    → IsKept features best (impl ∷ table) result
worse features best impl table result v low = record {
  from = elim v.from [ inl e ↦ inl e | inr i ↦ inr (inr i) ];
  works = v.works;
  rises = v.rises;
  beats = (λ s. omega (arith, low s, v.rises), v.beats);
}

and_true : (a b : Bool) → (a && b) ≡ true → (a ≡ true) × (b ≡ true)
and_true true b h = (refl, h)
and_true false b h = absurd (ground arith)

and_false : (a b : Bool) → (a && b) ≡ false → a ≡ true → b ≡ false
and_false true b h t = h
and_false false b h t = absurd (ground arith)

best_of-IsKept :
    (features : ℕ) (best : Impl) (table : List Impl)
    → is_supported features best ≡ true
    → IsKept features best table (best_of features best table)
unfolding best_of
best_of-IsKept features best [] works = record {
  from = inl refl;
  works = works;
  rises = omega arith;
  beats = tt;
}
best_of-IsKept features best (impl ∷ table) works =
    elim (Bool-cases (is_supported features impl && ltb best.priority impl.priority)) [
      | inl take ↦
          let (fine, up) =
            and_true (is_supported features impl) (ltb best.priority impl.priority) take in
          let more : best.priority < impl.priority = ltb→lt best.priority impl.priority up in
          rw take (
            better features best impl table (best_of features impl table)
              (best_of-IsKept features impl table fine) (omega (arith, more)))
      | inr leave ↦ rw leave (
          worse features best impl table (best_of features best table)
            (best_of-IsKept features best table works)
            (λ s.
              ltb→le best.priority impl.priority
                (and_false (is_supported features impl) (ltb best.priority impl.priority) leave s)))
    ]

-- With a first entry that needs no feature, and nothing chosen before,
-- `nacl_select_implementation` returns 0 and chooses an entry of the table that the processor
-- supports, of the highest priority among those; a second call changes nothing.
pub nacl_select_implementation-IsBest :
    (features later : ℕ) (first : Impl) (others : List Impl)
    → first.cpu_features_required ≡ 0
    → (impl : Impl) × IsBest features (first ∷ others) impl
      × (nacl_select_implementation features first others none ≡ (ok, some impl))
      × (nacl_select_implementation later first others (some impl) ≡ (ok, some impl))
unfolding nacl_select_implementation
nacl_select_implementation-IsBest features later first others free =
    let works : is_supported features first ≡ true =
      rw free ((==_iff (bit_and features 0) 0).1 (bit_and-zero features)) in
    let v = best_of-IsKept features first (first ∷ others) works in
    (
      best_of features first (first ∷ others),
      record {
        in_table = elim v.from [ inl e ↦ inl e | inr i ↦ i ];
        supported = v.works;
        highest = v.beats;
      },
      refl,
      refl,
    )

same_name_self : (name : List ℕ) → same_name name name ≡ true
same_name_self [] = refl
same_name_self (c ∷ name) = rw ((==_iff c c).1 refl) (same_name_self name)

eq_of_same_name : (a b : List ℕ) → same_name a b ≡ true → a ≡ b
eq_of_same_name [] [] h = refl
eq_of_same_name [] (d ∷ b) h = absurd (ground arith)
eq_of_same_name (c ∷ a) [] h = absurd (ground arith)
eq_of_same_name (c ∷ a) (d ∷ b) h =
    let (heads, tails) = and_true (c == d) (same_name a b) h in
    ap₂ ◌∷◌ ((==_iff c d).0 heads) (eq_of_same_name a b tails)

-- `nacl_set_implementation` returns 0 and chooses an entry of the table with the name that was
-- asked for, or returns -1 and leaves the choice alone when no entry has that name.
pub nacl_set_implementation_cases :
    (name : List ℕ) (table : List Impl) (current : Option Impl)
    → ((impl : Impl) × IsOneOf impl table
        × (impl.name ≡ name)
        × (nacl_set_implementation name table current ≡ (ok, some impl)))
      ⊎ (All (λ x. x.name ≡ name → ⊥) table
          × (nacl_set_implementation name table current ≡ (failed, current)))
unfolding nacl_set_implementation
nacl_set_implementation_cases name [] current = inr (tt, refl)
nacl_set_implementation_cases name (x ∷ table) current = elim (Bool-cases (same_name x.name name)) [
  | inl found ↦ inl (x, inl refl, eq_of_same_name x.name name found, rw found refl)
  | inr other ↦
      let differs : x.name ≡ name → ⊥ =
        λ e. ground (arith, sym (ap (λ t. same_name t name) e) ∙ other, same_name_self name) in
      elim (nacl_set_implementation_cases name table current) [
        | inl (impl, there, named, e) ↦ inl (impl, inr there, named, rw other e)
        | inr (nowhere, e) ↦ inr ((differs, nowhere), rw other e)
      ]
]
