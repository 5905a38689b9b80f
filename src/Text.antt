-- ===== src/Text.antt =====
-- The texts and small tables of teeio-validator/library/helperlib/utils.c. A text is the list of
-- its bytes without the NUL, and `none` is NULL; a result of -1 is `none` too.
pub mod Hex
pub mod Tables
pub mod Arrays
use Prim.Native.Nat.{bit_and}
use tee_io_validator.Common.{
  ℕ, zero, suc, ◌+◌, ◌-◌, ◌*◌, ◌%◌, Bool, true, false, not, ◌&&◌, ◌||◌, List, [], ◌∷◌, Option, none,
  some, Outcome, returns, asserts, ltb, leb, ◌==◌, if◌then◌else◌,
}

-- `IsValidDigitalChar`
unfoldable pub is_valid_digital_char : ℕ → Bool → Bool
is_valid_digital_char c include_hex =
    (leb 48 c && leb c 57) || (include_hex && ((leb 97 c && leb c 102) || (leb 65 c && leb c 70)))

-- `IsValidDigital` on the whole of a text.
unfoldable pub is_valid_digital : List ℕ → Bool → Bool
is_valid_digital [] include_hex = true
is_valid_digital (c ∷ cs) include_hex =
    let rest = is_valid_digital cs include_hex in
    if is_valid_digital_char c include_hex then rest else false

unfoldable pub is_valid_decimal_string : List ℕ → Bool
is_valid_decimal_string s = is_valid_digital s false

-- `IsValidHexString`: a length of two or less is refused first.
unfoldable pub is_valid_hex_string : List ℕ → Bool
is_valid_hex_string (a ∷ b ∷ c ∷ cs) =
    if a == 48
    then (if (b == 120) || (b == 88) then is_valid_digital (c ∷ cs) true else false)
    else false
is_valid_hex_string _ = false

-- The value of a digit of `strtoul`.
unfoldable pub hex_digit : ℕ → ℕ
hex_digit c = if leb c 57 then c - 48 else (if leb c 70 then c - 55 else c - 87)

-- `strtoul` of the C library with base 0 on a text that `is_valid_hex_string` accepts: the digits
-- after 0x, all of which it reads, with ULONG_MAX where the value is too large.
unfoldable pub strtoul_loop : ℕ → List ℕ → ℕ
strtoul_loop acc [] = acc
strtoul_loop acc (c ∷ cs) =
    let next = acc * 16 + hex_digit c in
    strtoul_loop (if ltb 18446744073709551615 next then 18446744073709551615 else next) cs

unfoldable pub strtoul : List ℕ → ℕ
strtoul (a ∷ b ∷ cs) = strtoul_loop 0 cs
strtoul _ = 0

-- `convert_hex_str_to_uint16` and `convert_hex_str_to_uint8` with a place for the result, which
-- differ in the largest value alone: `none` is false, and then nothing is stored.
unfoldable pub convert_hex_str : ℕ → Option (List ℕ) → Option ℕ
convert_hex_str max none = none
convert_hex_str max (some s) =
    if is_valid_hex_string s then (if ltb max (strtoul s) then none else some (strtoul s)) else none

abbrev pub convert_hex_str_to_uint16 : Option (List ℕ) → Option ℕ
convert_hex_str_to_uint16 = convert_hex_str 65535

abbrev pub convert_hex_str_to_uint8 : Option (List ℕ) → Option ℕ
convert_hex_str_to_uint8 = convert_hex_str 255

-- `find_char_in_str`, from the index `i`.
unfoldable pub find_char_loop : ℕ → List ℕ → ℕ → Option ℕ
find_char_loop i [] c = none
find_char_loop i (x ∷ xs) c =
    let rest = find_char_loop (i + 1) xs c in if x == c then some i else rest

unfoldable pub find_char_in_str : Option (List ℕ) → ℕ → Option ℕ
find_char_in_str none c = none
find_char_in_str (some s) c = find_char_loop 0 s c

-- `calculate_checksum`: the sum is a uint8_t.
unfoldable pub checksum_loop : ℕ → List ℕ → ℕ
checksum_loop sum [] = sum
checksum_loop sum (x ∷ xs) = checksum_loop ((sum + x) % 256) xs

unfoldable pub calculate_checksum : List ℕ → ℕ
calculate_checksum table = checksum_loop 0 table

-- `get_max_from_uint32_array` on the whole of an array.
unfoldable pub max_loop : ℕ → List ℕ → ℕ
max_loop max [] = max
max_loop max (x ∷ xs) = max_loop (if ltb max x then x else max) xs

unfoldable pub get_max_from_uint32_array : List ℕ → Outcome ℕ
get_max_from_uint32_array [] = asserts
get_max_from_uint32_array (x ∷ xs) = returns (max_loop x xs)

-- `is_power_of_two` of a byte; `x - 1` is used only where `x` is not 0.
unfoldable pub is_power_of_two : ℕ → Bool
is_power_of_two x = not (x == 0) && (bit_and x (x - 1) == 0)
