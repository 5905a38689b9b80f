-- ===== src/Text/Arrays.antt =====
-- teeio-validator/library/helperlib/utils.c: the lists of numbers in a text.
pub mod Joined
use tee_io_validator.Common.{
  ℕ, ◌+◌, ◌-◌, ◌*◌, Bool, true, false, List, [], ◌∷◌, Option, none, some, ltb, ◌==◌, if◌then◌else◌,
}
use tee_io_validator.Text.{is_valid_decimal_string}

-- `strtoul` with base 10 on digits, with ULONG_MAX where the value is too large.
unfoldable pub decimal_loop : ℕ → List ℕ → ℕ
decimal_loop acc [] = acc
decimal_loop acc (c ∷ cs) =
    let next = acc * 10 + (c - 48) in
    decimal_loop (if ltb 18446744073709551615 next then 18446744073709551615 else next) cs

-- The tokens that `strtok` finds between commas: the pieces that are not empty.
unfoldable pub add_char : ℕ → List (List ℕ) → List (List ℕ)
add_char c [] = (c ∷ []) ∷ []
add_char c (p ∷ ps) = (c ∷ p) ∷ ps

unfoldable pub pieces : List ℕ → List (List ℕ)
pieces [] = [] ∷ []
pieces (c ∷ cs) = let rest = pieces cs in if c == 44 then [] ∷ rest else add_char c rest

unfoldable pub not_empty : List (List ℕ) → List (List ℕ)
not_empty [] = []
not_empty ([] ∷ ps) = not_empty ps
not_empty ((c ∷ cs) ∷ ps) = (c ∷ cs) ∷ not_empty ps

unfoldable pub tokens : List ℕ → List (List ℕ)
tokens s = not_empty (pieces s)

-- `array` is full; `none` is NULL, which takes no numbers.
unfoldable pub full : Option ℕ → ℕ → Bool
full none count = false
full (some array_size) count = count == array_size

-- The loop over the tokens with `count` and `ret`: the last `ret`, and the numbers in order.
unfoldable pub array_loop : Option ℕ → ℕ → List (List ℕ) → Bool → Bool × List ℕ
array_loop room count [] ret = (ret, [])
array_loop room count (token ∷ ts) ret =
    let rest = array_loop room (count + 1) ts true in
    if is_valid_decimal_string token
    then (if ltb 4294967295 (decimal_loop 0 token)
        then (false, [])
        else (if full room count then (false, []) else (rest.0, decimal_loop 0 token ∷ rest.1)))
    else (false, [])

-- The result is the return value and the numbers that are stored, or counted for NULL; if it is
-- true, their number is `*array_size`.
unfoldable pub get_uint32_array_from_string : Option ℕ → List ℕ → Bool × List ℕ
get_uint32_array_from_string room [] = (false, [])
get_uint32_array_from_string room (c ∷ cs) = array_loop room 0 (tokens (c ∷ cs)) false
