-- ===== src/Utils.antt =====
-- src/core/secure_utils.c: checked arithmetic, branchless selection, range checks and the bounded
-- string copy. A pointer to an integer is an option, and a call gives its status and what the
-- pointer holds after it.
pub mod Checked
pub mod Product
pub mod Branchless
pub mod Strings
use tweetnacl_modular.Base.{
  ℕ, zero, suc, ◌+◌, ◌-◌, ◌*◌, ◌/◌, ◌^◌, bit_and, bit_or, bit_xor, Bool, true, false, not, ◌&&◌,
  ◌||◌, ltb, leb, ◌==◌, if◌then◌else◌, Option, none, some, List, [], ◌∷◌, ◌++◌, get_or, drop,
}
use tweetnacl_modular.Base.Int.{ℤ, pos, negsuc, ◌+ℤ◌, ◌-ℤ◌, ◌*ℤ◌, div_ℤ, ltb_ℤ, ok, failed}
use tweetnacl_modular.Word.{u8, u64, sub64, ◌>>◌}
use tweetnacl_modular.Memory.{Ptr, is_null, contents, write_at, Call}

abbrev pub int_max : ℤ
int_max = pos (2 ^ 31 - 1)

abbrev pub int_min : ℤ
int_min = negsuc (2 ^ 31 - 1)

-- SIZE_MAX of a 64-bit target
abbrev pub size_max : ℕ
size_max = 2 ^ 64 - 1

unfoldable pub safe_add_int : ℤ → ℤ → Option ℤ → ℤ × Option ℤ
safe_add_int a b none = (failed, none)
safe_add_int a b (some old) =
    if ltb_ℤ (pos 0) b && ltb_ℤ (int_max -ℤ b) a || ltb_ℤ b (pos 0) && ltb_ℤ a (int_min -ℤ b)
    then (failed, some old)
    else (ok, some (a +ℤ b))

unfoldable pub safe_sub_int : ℤ → ℤ → Option ℤ → ℤ × Option ℤ
safe_sub_int a b none = (failed, none)
safe_sub_int a b (some old) =
    if ltb_ℤ (pos 0) b && ltb_ℤ a (int_min +ℤ b) || ltb_ℤ b (pos 0) && ltb_ℤ (int_max +ℤ b) a
    then (failed, some old)
    else (ok, some (a -ℤ b))

abbrev pub is_zero : ℤ → Bool
is_zero (pos n) = n == 0
is_zero (negsuc n) = false

-- The tests before the product, by the signs of the factors.
unfoldable pub mul_overflows : ℤ → ℤ → Bool
mul_overflows a b =
    if ltb_ℤ (pos 0) a
    then if ltb_ℤ (pos 0) b then ltb_ℤ (div_ℤ int_max b) a else ltb_ℤ b (div_ℤ int_min a)
    else if ltb_ℤ (pos 0) b
    then ltb_ℤ a (div_ℤ int_min b)
    else not (is_zero a) && ltb_ℤ b (div_ℤ int_max a)

unfoldable pub safe_mul_int : ℤ → ℤ → Option ℤ → ℤ × Option ℤ
safe_mul_int a b none = (failed, none)
safe_mul_int a b (some old) = if mul_overflows a b then (failed, some old) else (ok, some (a *ℤ b))

unfoldable pub safe_add_size : ℕ → ℕ → Option ℕ → ℤ × Option ℕ
safe_add_size a b none = (failed, none)
safe_add_size a b (some old) =
    if ltb (size_max - b) a then (failed, some old) else (ok, some (u64 (a + b)))

unfoldable pub safe_mul_size : ℕ → ℕ → Option ℕ → ℤ × Option ℕ
safe_mul_size a b none = (failed, none)
safe_mul_size a b (some old) =
    if a == 0 || b == 0
    then (ok, some 0)
    else if ltb (size_max / b) a
    then (failed, some old)
    else (ok, some (u64 (a * b)))

-- `(uint8_t)(-(condition != 0))`, then `(if_true & mask) | (if_false & ~mask)` on bytes.
unfoldable pub constant_time_select : ℕ → ℕ → ℕ → ℕ
constant_time_select condition if_true if_false =
    let mask = if condition == 0 then 0 else 255 in
    bit_or (bit_and if_true mask) (bit_and if_false (255 - mask))

-- `(intptr_t)diff >> 63`: the sign of the difference, in every bit.
unfoldable pub sign_mask : ℕ → ℕ
sign_mask diff = if ltb diff (2 ^ 63) then 0 else 2 ^ 64 - 1

unfoldable pub constant_time_min : ℕ → ℕ → ℕ
constant_time_min a b = bit_xor b (bit_and (sign_mask (sub64 a b)) (bit_xor a b))

unfoldable pub constant_time_max : ℕ → ℕ → ℕ
constant_time_max a b = bit_xor a (bit_and (sign_mask (sub64 a b)) (bit_xor a b))

unfoldable pub safe_range_check : ℤ → ℤ → ℤ → ℤ
safe_range_check value min_val max_val =
    if ltb_ℤ max_val min_val
    then failed
    else if ltb_ℤ value min_val || ltb_ℤ max_val value
    then failed
    else ok

unfoldable pub validate_index : ℕ → ℕ → ℤ
validate_index index array_size =
    if array_size == 0 then failed else if leb array_size index then failed else ok

-- The `for` loop, with the room left: the bytes copied, and the bytes of `src` from `src[i]` on.
unfoldable pub copy_chars : ℕ → List ℕ → List ℕ × List ℕ
copy_chars zero src = ([], src)
copy_chars (suc room) src =
    let rest = copy_chars room (drop 1 src) in
    if get_or src 0 0 == 0 then ([], src) else (get_or src 0 0 ∷ rest.0, rest.1)

unfoldable pub safe_strcpy : Ptr → ℕ → Ptr → Call
safe_strcpy dest dest_size src =
    if is_null dest || (is_null src || dest_size == 0)
    then record { status = failed; out = contents dest }
    else let (copied, left) = copy_chars (dest_size - 1) (contents src) in
      record {
        status = if get_or left 0 0 == 0 then pos 0 else pos 1;
        out = write_at 0 (copied ++ 0 ∷ []) (contents dest);
      }
