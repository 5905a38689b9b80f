-- ===== src/Ini.antt =====
-- teeio-validator/teeio_validator/ide_test_ini.c: the characters and lines of an ini file. A
-- buffer is the list of its bytes; a name or a value is a text without the NUL.
pub mod Numbers
pub mod Items
pub mod Lines
pub mod Trim
pub mod Values
use tee_io_validator.Common.{
  ℕ, zero, suc, ◌+◌, ◌-◌, Bool, true, false, ◌&&◌, ◌||◌, List, [], ◌∷◌, none, some, ltb, leb, ◌==◌,
  if◌then◌else◌, length, get_elem?, take, drop,
}
use tee_io_validator.Text.{is_valid_digital}

-- `valid_chars`, beside letters and digits.
unfoldable pub is_valid_name_char : ℕ → Bool
is_valid_name_char c =
    (leb 97 c && leb c 122)
    || ((leb 65 c && leb c 90)
        || ((leb 48 c && leb c 57)
            || ((c == 95) || ((c == 58) || ((c == 44) || ((c == 46) || (c == 45)))))))

unfoldable pub is_valid_name : List ℕ → Bool
is_valid_name [] = true
is_valid_name (c ∷ cs) = let rest = is_valid_name cs in if is_valid_name_char c then rest else false

-- A byte of a buffer; the code reads none behind its end.
abbrev pub byte_at : List ℕ → ℕ → ℕ
byte_at buffer i = elim (get_elem? buffer i) [ none ↦ 0 | some c ↦ c ]

abbrev pub digits_at : List ℕ → ℕ → ℕ → Bool
digits_at value start count = is_valid_digital (take count (drop start value)) true

unfoldable pub is_valid_guid : List ℕ → Bool
is_valid_guid value =
    if length value == 36
    then (if (byte_at value 8 == 45)
          && ((byte_at value 13 == 45) && ((byte_at value 18 == 45) && (byte_at value 23 == 45)))
        then digits_at value 0 8
          && (digits_at value 9 4
              && (digits_at value 14 4 && (digits_at value 19 4 && digits_at value 24 12)))
        else false)
    else false

unfoldable pub is_valid_value : List ℕ → Bool
is_valid_value value = is_valid_name value || is_valid_guid value

-- The first line break of a buffer, or its end.
unfoldable pub line_break : List ℕ → ℕ
line_break [] = 0
line_break (c ∷ cs) = let rest = line_break cs in if (c == 0x0D) || (c == 0x0A) then 0 else suc rest

-- `Length` in `ProfileGetLine`, for a buffer that is not empty.
unfoldable pub line_length : List ℕ → ℕ
line_length buffer =
    let at = line_break buffer in
    if leb (length buffer - 1) at
    then length buffer
    else (if byte_at buffer (at + 1) == 0x0A then at + 2 else at + 1)

-- What `ProfileGetLine` stores in `*LineSize`, with success or LIBSPDM_STATUS_BUFFER_TOO_SMALL.
-- The line itself is the first bytes of the buffer.
pub data LineResult : Type 0 where
  got_line : ℕ → LineResult
  buffer_too_small : ℕ → LineResult

unfoldable pub profile_get_line : List ℕ → ℕ → LineResult
profile_get_line buffer line_size =
    if ltb line_size (line_length buffer)
    then buffer_too_small (line_length buffer)
    else got_line (line_length buffer)

abbrev pub is_blank : ℕ → Bool
is_blank c = (c == 0x0D) || ((c == 0x0A) || ((c == 0x20) || (c == 0x09)))

-- How many bytes are left without the blanks at the end, and how many blanks there are in front.
unfoldable pub tail_loop : List ℕ → ℕ → ℕ
tail_loop buffer zero = 0
tail_loop buffer (suc n) =
    let rest = tail_loop buffer n in if is_blank (byte_at buffer n) then rest else suc n

unfoldable pub head_loop : List ℕ → ℕ
head_loop [] = 0
head_loop (c ∷ cs) = let rest = head_loop cs in if is_blank c then suc rest else 0

unfoldable pub profile_trim : List ℕ → List ℕ
profile_trim buffer =
    let kept = take (tail_loop buffer (length buffer)) buffer in drop (head_loop kept) kept
