-- ===== src/Utils/Strings.antt =====
-- `safe_strcpy` and `validate_index`.
use tweetnacl_modular.Base.{
  ℕ, zero, suc, ◌-◌, ◌<◌, ◌≡◌, inl, inr, refl, ap, sym, ◌∙◌, arith, List, [], ◌∷◌, ◌++◌, length,
  take, get_or, ◌==◌, false, if◌then◌else◌, Bool-cases, le→leb, lt→leb, leb,
}
use tweetnacl_modular.Base.Int.{pos}
use tweetnacl_modular.Memory.{at, write_at}
use tweetnacl_modular.Utils.{copy_chars, safe_strcpy}

-- The characters of a string, up to the first NUL.
abbrev pub chars_of : List ℕ → List ℕ
chars_of [] = []
chars_of (c ∷ cs) = if c == 0 then [] else c ∷ chars_of cs

leb-suc : (a b : ℕ) → leb a b ≡ leb (suc a) (suc b)
leb-suc a b = ground arith

-- The loop copies as much of the string as there is room for, and stops at its NUL if it fits.
copy_chars_lem :
    (room : ℕ) (src : List ℕ)
    → ((copy_chars room src).0 ≡ take room (chars_of src))
      × ((get_or (copy_chars room src).1 0 0 == 0) ≡ leb (length (chars_of src)) room)
unfolding copy_chars
copy_chars_lem zero [] = (refl, refl)
copy_chars_lem (suc room) [] = (refl, sym (le→leb 0 (suc room) (omega arith)))
copy_chars_lem zero (c ∷ cs) = elim (Bool-cases (c == 0)) [
  | inl ends ↦ rw ends (refl, refl)
  | inr goes ↦ rw goes (refl, sym (lt→leb (suc (length (chars_of cs))) 0 (omega arith)))
]
copy_chars_lem (suc room) (c ∷ cs) =
    let rest = copy_chars_lem room cs in
    elim (Bool-cases (c == 0)) [
      | inl ends ↦ rw (ends, ends) (refl, sym (le→leb 0 (suc room) (omega arith)))
      | inr goes ↦ rw goes (ap (◌∷◌ c) rest.0, rest.1 ∙ leb-suc (length (chars_of cs)) room)
    ]

-- With room for one byte at least, `safe_strcpy` writes as many characters of the source as fit
-- before a NUL, then the NUL, and returns 0 if the whole string fits and 1 if it is cut.
pub safe_strcpy_lem :
    (pd ps size : ℕ) (dest src : List ℕ)
    → 0 < size
    → safe_strcpy (at pd dest) size (at ps src) ≡ record {
      status = if leb (length (chars_of src)) (size - 1) then pos 0 else pos 1;
      out = write_at 0 (take (size - 1) (chars_of src) ++ 0 ∷ []) dest;
    }
unfolding safe_strcpy
safe_strcpy_lem pd ps size dest src some_room =
    let there : (size == 0) ≡ false = ground arith in
    let copied = copy_chars_lem (size - 1) src in rw (there, copied.0, copied.1) refl
