-- ===== src/Ini/Items.antt =====
-- The sections and entries of teeio-validator/teeio_validator/ide_test_ini.c: how the lines of a
-- file become a list of items, the latest first, and how a value is looked up. Memory that is
-- requested is given; a line that does not fit gets a larger buffer. A use of freed memory is
-- undefined.
pub mod Refine
pub mod Dangling
pub mod Printed
pub mod RoundTrip
use tee_io_validator.Common.{
  ℕ, zero, suc, ◌+◌, Bool, true, false, ◌&&◌, ◌||◌, not, List, [], ◌∷◌, Option, none, some, Outcome,
  returns, asserts, faults, and_then, ◌>>=◌, teeio_assert, ltb, leb, ◌==◌, if◌then◌else◌, length,
  take, drop,
}
use tee_io_validator.Config.{same_text}
use tee_io_validator.Text.{find_char_loop, is_valid_decimal_string, is_valid_hex_string, strtoul}
use tee_io_validator.Ini.{
  is_valid_name, is_valid_value, line_length, LineResult, got_line, buffer_too_small,
  profile_get_line, profile_trim,
}

-- A pointer to a text, which may be NULL or point to memory that has been freed.
pub data Pointer : Type 0 where
  null dangling : Pointer
  at : List ℕ → Pointer

-- SECTION_ITEM; `SecNameLen` is the length of the text at `ptr_section`.
pub record SectionItem : Type 0 where
  pub ptr_section : Pointer
  pub ptr_entry : Pointer
  pub ptr_value : Pointer

-- `strcmp(p, s) == 0`
unfoldable pub strcmp_is_0 : Pointer → List ℕ → Outcome Bool
strcmp_is_0 null s = faults
strcmp_is_0 dangling s = faults
strcmp_is_0 (at t) s = returns (same_text t s)

-- `ProfileGetSection` on a line that starts with '['. The result is the return value and the list.
unfoldable pub add_section : List ℕ → List SectionItem → Bool × List SectionItem
add_section name items =
    if (length name == 0) || not (is_valid_name name)
    then (false, items)
    else (true, record { ptr_section = at name; ptr_entry = null; ptr_value = null } ∷ items)

unfoldable pub profile_get_section : List ℕ → List SectionItem → Bool × List SectionItem
profile_get_section [] items = (false, items)
profile_get_section (c ∷ line) items = elim (find_char_loop 0 line 93) [
  | none ↦ (false, items)
  | some n ↦ if n == 0 then (false, items) else add_section (profile_trim (take n line)) items
]

-- The bytes before a comment.
unfoldable pub before_comment : List ℕ → List ℕ
before_comment [] = []
before_comment (c ∷ cs) =
    let rest = before_comment cs in if (c == 35) || (c == 59) then [] else c ∷ rest

-- The new item is in the list before its value is read. If there is no valid value, the texts of
-- the item are freed and the item stays.
unfoldable pub set_value : List ℕ → List ℕ → List ℕ → List SectionItem → Bool × List SectionItem
set_value section name value items =
    if (length value == 0) || not (is_valid_value value)
    then (false, record { ptr_section = dangling; ptr_entry = dangling; ptr_value = null } ∷ items)
    else (
      true,
      record { ptr_section = at section; ptr_entry = at name; ptr_value = at value } ∷ items,
    )

-- An entry belongs to the section of the latest item, whose text is copied.
unfoldable pub add_entry : List ℕ → List ℕ → List SectionItem → Outcome (Bool × List SectionItem)
add_entry name value [] = returns (true, [])
add_entry name value (item ∷ items) = elim item.ptr_section [
  | null ↦ faults
  | dangling ↦ faults
  | at section ↦ returns (set_value section name value (item ∷ items))
]

unfoldable pub profile_get_entry : List ℕ → List SectionItem → Outcome (Bool × List SectionItem)
profile_get_entry line items = elim (find_char_loop 0 line 61) [
  | none ↦ returns (false, items)
  | some n ↦
      let name = profile_trim (take n line) in
      if (n == 0) || ((length name == 0) || not (is_valid_name name))
      then returns (false, items)
      else add_entry name (profile_trim (before_comment (drop (n + 1) line))) items
]

-- The items and the comments so far.
pub record IniContext : Type 0 where
  pub section_head : List SectionItem
  pub comment_head : List (List ℕ)

-- What is done with a trimmed line: the return value of the function, and the lists. The first
-- byte tells comments by '#' or ';' and sections by '['; a blank line leaves the status 0.
unfoldable pub process_line : List ℕ → IniContext → Outcome (Bool × IniContext)
process_line [] c = returns (false, c)
process_line (first ∷ line) c =
    if (first == 35) || (first == 59)
    then returns (
      true,
      record { section_head = c.section_head; comment_head = (first ∷ line) ∷ c.comment_head },
    )
    else (if first == 91
        then (let (status, items) = profile_get_section (first ∷ line) c.section_head in
            returns (status, record { section_head = items; comment_head = c.comment_head }))
        else (profile_get_entry (first ∷ line) c.section_head >>= λ r.
            returns (r.0, record { section_head = r.1; comment_head = c.comment_head })))

-- The line that is read: its length and the size of the buffer for the next.
unfoldable pub read_line : List ℕ → ℕ → Option (ℕ × ℕ)
read_line source max_line_length = elim (profile_get_line source max_line_length) [
  | got_line n ↦ some (n, max_line_length)
  | buffer_too_small n ↦ elim (profile_get_line (take n source) n) [
    | got_line m ↦ some (m, m)
    | buffer_too_small m ↦ none
  ]
]

-- `PreProcessDataFile`: the loop over the lines, with fuel, and `OpenIniFile` on a buffer that is
-- not empty. A truth value that a function returns becomes a status and back; LIBSPDM_STATUS_SUCCESS
-- is 0, like false. `is_error` is LIBSPDM_STATUS_IS_ERROR of libspdm on the status of a truth value.
module _ (is_error : Bool → Bool) where
  unfoldable pub pre_process_loop :
      ℕ → List ℕ → ℕ → Bool → IniContext → Option (Outcome (Bool × IniContext))
  pre_process_loop zero source max_line_length status c = none
  pre_process_loop (suc fuel) [] max_line_length status c = some (returns (status, c))
  pre_process_loop (suc fuel) (b ∷ bs) max_line_length status c =
      elim (read_line (b ∷ bs) max_line_length) [
        | none ↦ some (returns (true, c))
        | some (n, max') ↦ elim (process_line (profile_trim (take n (b ∷ bs))) c) [
          | asserts ↦ some asserts
          | faults ↦ some faults
          | returns (status', c') ↦ elim (is_error status') [
            | true ↦ some (returns (status', c'))
            | false ↦ pre_process_loop fuel (drop n (b ∷ bs)) max' status' c'
          ]
        ]
      ]

  unfoldable pub opened : Bool × IniContext → Option IniContext
  opened (status, c) = if is_error status then none else some c

  -- An empty buffer, which stands for NULL too, is refused.
  unfoldable pub open_ini_file : ℕ → List ℕ → Option (Outcome (Option IniContext))
  open_ini_file fuel [] = some (returns none)
  open_ini_file fuel (b ∷ bs) =
      and_then
        (pre_process_loop fuel (b ∷ bs) 512 false (record { section_head = []; comment_head = [] }))
        λ r. some (r >>= λ end. returns (opened end))

-- `UpdateGetProfileString`: the value of the first item of the section and the entry.
unfoldable pub update_get_profile_string :
    List SectionItem → List ℕ → List ℕ → Outcome (Option Pointer)
update_get_profile_string [] section entry = returns none
update_get_profile_string (item ∷ items) section entry =
    strcmp_is_0 item.ptr_section section >>= λ in_section. elim in_section [
      | false ↦ update_get_profile_string items section entry
      | true ↦ elim item.ptr_entry [
        | null ↦ update_get_profile_string items section entry
        | dangling ↦ faults
        | at name ↦ elim (same_text name entry) [
          | true ↦ returns (some item.ptr_value)
          | false ↦ update_get_profile_string items section entry
        ]
      ]
    ]

unfoldable pub get_string_from_data_file : IniContext → List ℕ → List ℕ → Outcome (Option Pointer)
get_string_from_data_file c section entry = update_get_profile_string c.section_head section entry

-- `IsValidSection`
unfoldable pub is_valid_section : List SectionItem → List ℕ → Outcome Bool
is_valid_section [] section = returns false
is_valid_section (item ∷ items) section = strcmp_is_0 item.ptr_section section >>= λ in_section.
    elim in_section [
      | false ↦ is_valid_section items section
      | true ↦ elim item.ptr_entry [ null ↦ is_valid_section items section | _ ↦ returns true ]
    ]
