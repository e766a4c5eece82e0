-- ===== src/Poly/Product.antt =====
-- The digits of `product` stand for the product, modulo 2 ^ 130 - 5.
use native.Mathlib.Nat.{mul_assoc, add-mul, mul_left_comm, mul-le-mul, zero-add}
use tweetnacl_modular.Base.{
  ℕ, zero, suc, ◌+◌, ◌-◌, ◌*◌, ◌%◌, ◌^◌, ◌<◌, ◌≤◌, ◌≡◌, refl, ap, ap₂, sym, ◌∙◌, arith, List, [],
  ◌∷◌, length, All, get_or, leb, if◌then◌else◌, All-get_or, false, true,
}
use tweetnacl_modular.Base.Mod.{mul-mod_congr, add-mod_congr}
use tweetnacl_modular.Word.{u32}
use tweetnacl_modular.Bytes.{IsBytes}
use tweetnacl_modular.Bytes.Value.{le_value}
use tweetnacl_modular.Poly.{coefficient, product_row, product_rows, product}
use tweetnacl_modular.Poly.Digits.{
  digits_value, digits_value_zero, digits_value_linear, digits_value_shift, digits_value_congr,
  digits_value_last, digits_value-le_value,
}

-- 2 ^ 130 - 5
abbrev pub prime : ℕ
prime = 2 ^ 130 - 5

module _ (r : List ℕ) (bytes : IsBytes r) where
  -- The coefficient without the word size, which it never meets.
  coef : ℕ → ℕ → ℕ
  coef i j = if leb j i then get_or r (i - j) 0 else 320 * get_or r (i + 17 - j) 0

  digit-lt : (i : ℕ) → get_or r i 0 < 256
  digit-lt i = All-get_or (λ b. b < 2 ^ 8) r i 0 (omega arith) bytes

  coefficient-coef : (i j : ℕ) → (coefficient r i j ≡ coef i j) × (coef i j ≤ 81600)
  unfolding coefficient coef
  coefficient-coef i j = (
    ground (arith, digit-lt (i + 17 - j), digit-lt (i - j)),
    ground (arith, digit-lt (i + 17 - j), digit-lt (i - j)),
  )

  -- A row's sum, without the word size.
  row : ℕ → ℕ → List ℕ → ℕ
  row i j [] = 0
  row i j (a ∷ h) = a * coef i j + row i (suc j) h

  term-le : (a i j : ℕ) → a < 256 → a * coef i j ≤ 20808000
  term-le a i j h =
      mul-le-mul {n₁ = a} {m₁ = coef i j} {n₂ = 255} {m₂ = 81600} (omega arith)
        (coefficient-coef i j).1

  -- At most 17 terms cannot reach the word size.
  product_row-row :
      (i j acc : ℕ) (h : List ℕ)
      → IsBytes h
      → acc + 20808000 * length h < 2 ^ 32
      → product_row r i j acc h ≡ acc + row i j h
  unfolding product_row row
  product_row-row i j acc [] hh fits = omega arith
  product_row-row i j acc (a ∷ h) hh fits = rw (coefficient-coef i j).0 (
      let small = term-le a i j hh.0 in
      let e : u32 (acc + u32 (a * coef i j)) ≡ acc + a * coef i j = omega (arith, small) in
      rw e (
        product_row-row i (suc j) (acc + a * coef i j) h hh.1 (omega (arith, small)) ∙ omega arith))

  row-le : (i j : ℕ) (h : List ℕ) → IsBytes h → row i j h ≤ 20808000 * length h
  unfolding row
  row-le i j [] hh = omega arith
  row-le i j (a ∷ h) hh = omega (arith, term-le a i j hh.0, row-le i (suc j) h hh.1)

  -- The column of coefficients of one digit of `h`, as a number.
  column_value : ℕ → ℕ → ℕ → ℕ
  column_value n i j = digits_value n i (λ t. coef t j)

  -- The sum over the digits of `h` of the digit times its column.
  columns : ℕ → ℕ → ℕ → List ℕ → ℕ
  columns n i j [] = 0
  columns n i j (a ∷ h) = a * column_value n i j + columns n i (suc j) h

  -- Summing by rows is summing by columns.
  exchange : (n i j : ℕ) (h : List ℕ) → digits_value n i (λ t. row t j h) ≡ columns n i j h
  unfolding row columns column_value
  exchange n i j [] = digits_value_zero n i
  exchange n i j (a ∷ h) =
      digits_value_linear n i a (λ t. coef t j) (λ t. row t (suc j) h)
      ∙ ap (λ t. a * digits_value n i (λ t. coef t j) + t) (exchange n i (suc j) h)

  coef_diagonal : (i j : ℕ) → coef (suc i) (suc j) ≡ coef i j
  unfolding coef
  coef_diagonal i j =
      let e : suc i - suc j ≡ i - j = omega arith in
      let e' : suc i + 17 - suc j ≡ i + 17 - j = omega arith in
      let t : leb (suc j) (suc i) ≡ leb j i = ground arith in rw (e, e', t) refl

  coef_wrapped : (j : ℕ) → j ≤ 16 → coef 0 (suc j) ≡ 320 * get_or r (16 - j) 0
  unfolding coef
  coef_wrapped j h =
      let e : 0 + 17 - suc j ≡ 16 - j = omega arith in
      let t : leb (suc j) 0 ≡ false = ground arith in rw (t, e) refl

  coef_last : (j : ℕ) → j ≤ 16 → coef 16 j ≡ get_or r (16 - j) 0
  unfolding coef
  coef_last j h = let t : leb j 16 ≡ true = ground arith in rw t refl

  -- The next column is the last one times 256, modulo the prime: 256 ^ 17 is 320.
  column_next :
      (j : ℕ) → j ≤ 16 → column_value 17 0 (suc j) % prime ≡ 256 * column_value 17 0 j % prime
  column_next j h = omega (arith, first, last)
    where
      first : column_value 17 0 (suc j) ≡ 320 * get_or r (16 - j) 0 + 256 * column_value 16 0 j
      first =
          unfold column_value digits_value in
          ap₂ (λ s t. s + 256 * t) (coef_wrapped j h)
            (digits_value_shift 16 0 (λ t. coef t (suc j))
              ∙ digits_value_congr 16 0 _ _ (λ t. coef_diagonal t j))

      last : column_value 17 0 j ≡ column_value 16 0 j + 256 ^ 16 * get_or r (16 - j) 0
      last =
          unfold column_value in
          digits_value_last 16 0 (λ t. coef t j)
          ∙ ap (λ t. digits_value 16 0 (λ t. coef t j) + 256 ^ 16 * t) (coef_last j h)

  columns_value :
      (j : ℕ) (h : List ℕ)
      → j + length h ≤ 17
      → columns 17 0 j h % prime ≡ le_value h * column_value 17 0 j % prime
  unfolding columns
  columns_value j [] fits =
      let e : 0 ≡ 0 * column_value 17 0 j = omega arith in ap (λ t. t % prime) e
  columns_value j (a ∷ h) fits =
      let w = column_value 17 0 j in
      add-mod_congr prime (a * w) (a * w) (columns 17 0 (suc j) h) (le_value h * (256 * w)) refl (
        columns_value (suc j) h (omega arith)
        ∙ mul-mod_congr prime (le_value h) (column_value 17 0 (suc j)) (256 * w)
            (column_next j (omega arith)))
      ∙ ap (λ t. t % prime)
          (omega (
            arith,
            add-mul a (256 * le_value h) w,
            mul_assoc 256 (le_value h) w,
            mul_left_comm (le_value h) 256 w,
          ))

  coef_first : (i : ℕ) → coef i 0 ≡ get_or r i 0
  unfolding coef
  coef_first i =
      let t : leb 0 i ≡ true = ground arith in let e : i - 0 ≡ i = omega arith in rw (t, e) refl

  column_first : length r ≡ 17 → column_value 17 0 0 ≡ le_value r
  unfolding column_value
  column_first e =
      digits_value_congr 17 0 (λ t. coef t 0) (λ t. get_or r t 0) coef_first
      ∙ ap (λ n. digits_value n 0 (λ t. get_or r t 0)) (sym e)
      ∙ digits_value-le_value r

  product_rows_value :
      (n i : ℕ) (h : List ℕ)
      → IsBytes h
      → length h ≤ 17
      → le_value (product_rows h r n i) ≡ digits_value n i (λ t. row t 0 h)
  unfolding product_rows digits_value
  product_rows_value zero i h hh l = refl
  product_rows_value (suc n) i h hh l =
      ap₂ (λ s t. s + 256 * t) (product_row-row i 0 0 h hh (omega arith) ∙ zero-add (row i 0 h))
        (product_rows_value n (suc i) h hh l)

  product_rows_bound :
      (n i : ℕ) (h : List ℕ)
      → IsBytes h
      → length h ≤ 17
      → All (λ x. x ≤ 353736000) (product_rows h r n i)
  unfolding product_rows
  product_rows_bound zero i h hh l = tt
  product_rows_bound (suc n) i h hh l = (
    omega (arith, product_row-row i 0 0 h hh (omega arith), row-le i 0 h hh),
    product_rows_bound n (suc i) h hh l,
  )

  -- No digit of the product comes near the word size.
  pub product_bound :
      (h : List ℕ) → IsBytes h → length h ≤ 17 → All (λ x. x ≤ 353736000) (product h r)
  unfolding product
  product_bound h hh l = product_rows_bound 17 0 h hh l

  -- On two numbers of 17 bytes, `product` multiplies modulo 2 ^ 130 - 5.
  pub product_value :
      (h : List ℕ)
      → IsBytes h
      → length h ≡ 17
      → length r ≡ 17
      → le_value (product h r) % prime ≡ le_value h * le_value r % prime
  unfolding product
  product_value h hh l e =
      ap (λ t. t % prime) (product_rows_value 17 0 h hh (omega arith) ∙ exchange 17 0 0 h)
      ∙ columns_value 0 h (omega arith)
      ∙ ap (λ t. le_value h * t % prime) (column_first e)

length-product_rows : (n i : ℕ) (h r : List ℕ) → length (product_rows h r n i) ≡ n
unfolding product_rows
length-product_rows zero i h r = refl
length-product_rows (suc n) i h r = ap suc (length-product_rows n (suc i) h r)

pub length-product : (h r : List ℕ) → length (product h r) ≡ 17
unfolding product
length-product h r = length-product_rows 17 0 h r
