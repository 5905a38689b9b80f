-- ===== src/Tests/Inis.antt =====
-- A small ini file.
use tee_io_validator.Text.{is_valid_digital_char}
use tee_io_validator.Text.Arrays.Joined.{IsNumber, join}
use tee_io_validator.Ini.Numbers.{parse_test_suite_case_entry}
use tee_io_validator.Ini.Numbers.Cases.{Within, parse_test_suite_case_entry-join}
use tee_io_validator.Common.{
  ℕ, ◌-◌, ◌≤◌, ◌<◌, Bool, true, false, List, [], ◌∷◌, none, some, ◌≡◌, ◌⊎◌, refl, arith, returns,
  faults, take, drop, All, and_then, ◌>>=◌,
}
use tee_io_validator.Text.{find_char_loop}
use tee_io_validator.Config.{same_text}
use tee_io_validator.Ini.{
  byte_at, is_blank, line_length, line_break, profile_get_line, tail_loop, head_loop, profile_trim,
  is_valid_value, is_valid_name, is_valid_guid, is_valid_name_char,
}
use tee_io_validator.Ini.Values.{is_valid_value-is_valid_name}
use tee_io_validator.Ini.Trim.{profile_trim-blanks}
use tee_io_validator.Ini.Items.{
  null, at, IniContext, add_section, profile_get_section, before_comment, set_value, add_entry,
  profile_get_entry, process_line, read_line, pre_process_loop, opened, open_ini_file, strcmp_is_0,
  update_get_profile_string, get_string_from_data_file,
}
use tee_io_validator.Ini.Items.Refine.{
  section_line, entry_line, bad_value, classify, classify_section, classify_entry, Profile,
  pointer_of,
}
use tee_io_validator.Ini.Items.Refine.File.{
  lines, say_all, Readable, open_ini_file-get_string_from_data_file,
}
use tee_io_validator.Ini.Items.RoundTrip.{print_file, mean, open_ini_file-print_file}
use tee_io_validator.Ini.Items.Dangling.{process_line-faults}

-- "[a]", and then "x = 1".
abbrev file : List ℕ
file = 91 ∷ 97 ∷ 93 ∷ 10 ∷ 120 ∷ 32 ∷ 61 ∷ 32 ∷ 49 ∷ 10 ∷ []

abbrev no_error : Bool → Bool
no_error b = false

abbrev empty : Profile
empty = record { current = none; value_of = λ s e. none }

looked_up :
    and_then (open_ini_file no_error 20 file) (λ r. some (
      r >>= λ c. elim c [
        | none ↦ faults
        | some c ↦ get_string_from_data_file c (97 ∷ []) (120 ∷ [])
      ]))
    ≡ some (returns (some (at (49 ∷ []))))
unfolding open_ini_file pre_process_loop read_line profile_get_line line_length line_break
    profile_trim tail_loop head_loop process_line profile_get_section profile_get_entry add_section
    add_entry set_value before_comment find_char_loop is_valid_name is_valid_name_char
    is_valid_value opened get_string_from_data_file update_get_profile_string strcmp_is_0 same_text
looked_up = refl

readable : All Readable (lines 20 file)
unfolding line_length line_break profile_trim tail_loop head_loop classify classify_section
    classify_entry before_comment find_char_loop is_valid_name is_valid_name_char is_valid_value
readable = ((λ e. cc), ((λ e. cc), tt))

open_ini_file-get_string_from_data_file_example :
    (c : IniContext) × (open_ini_file no_error 20 file ≡ some (returns (some c)))
    × ((section entry : List ℕ)
        → get_string_from_data_file c section entry
          ≡ returns (pointer_of ((say_all empty (lines 20 file)).value_of section entry)))
open_ini_file-get_string_from_data_file_example =
    open_ini_file-get_string_from_data_file no_error (λ b. refl) 20 file (λ e. absurd cc)
      (omega arith) readable

-- An empty file is not opened.
empty_refused : open_ini_file no_error 20 [] ≡ some (returns none)
unfolding open_ini_file
empty_refused = refl

valid_a : is_valid_name (97 ∷ []) ≡ true
unfolding is_valid_name is_valid_name_char
valid_a = refl

open_ini_file-print_file_example :
    (c : IniContext) × (open_ini_file no_error 20
        (print_file (section_line (97 ∷ []) ∷ entry_line (97 ∷ []) (97 ∷ []) ∷ []))
      ≡ some (returns (some c)))
    × ((section entry : List ℕ)
        → get_string_from_data_file c section entry
          ≡ returns (
              pointer_of (
                (mean empty (section_line (97 ∷ []) ∷ entry_line (97 ∷ []) (97 ∷ []) ∷ [])).value_of
                  section entry)))
open_ini_file-print_file_example =
    open_ini_file-print_file no_error 20
      (section_line (97 ∷ []) ∷ entry_line (97 ∷ []) (97 ∷ []) ∷ []) (λ b. refl) (λ e. absurd cc)
      (omega arith) ((valid_a, omega arith), (((valid_a, omega arith), (valid_a, omega arith)), tt))

-- "x=*" in the section "a".
abbrev bad_line : List ℕ
bad_line = 120 ∷ 61 ∷ 42 ∷ []

abbrev in_a : IniContext
in_a = record {
  section_head = record { ptr_section = at (97 ∷ []); ptr_entry = null; ptr_value = null } ∷ [];
  comment_head = [];
}

bad_line-bad_value : classify bad_line ≡ bad_value
unfolding classify classify_entry profile_trim tail_loop head_loop before_comment find_char_loop
    is_valid_name is_valid_name_char is_valid_value is_valid_guid
bad_line-bad_value = refl

process_line-faults_example :
    (c' : IniContext) × (process_line bad_line in_a ≡ returns (false, c'))
    × ((s e : List ℕ) → get_string_from_data_file c' s e ≡ faults)
    × ((name value : List ℕ) → add_entry name value c'.section_head ≡ faults)
process_line-faults_example = process_line-faults bad_line (97 ∷ []) in_a bad_line-bad_value refl

profile_trim-blanks_example :
    (from : ℕ) × (to : ℕ) × (profile_trim (32 ∷ 97 ∷ 9 ∷ [])
      ≡ drop from (take to (32 ∷ 97 ∷ 9 ∷ [])))
    × (to ≤ 3)
    × ((i : ℕ) → i < from → is_blank (byte_at (32 ∷ 97 ∷ 9 ∷ []) i) ≡ true)
    × ((i : ℕ) → to ≤ i → i < 3 → is_blank (byte_at (32 ∷ 97 ∷ 9 ∷ []) i) ≡ true)
    × ((to ≡ 0)
        ⊎ ((from < to)
            × (is_blank (byte_at (32 ∷ 97 ∷ 9 ∷ []) from) ≡ false)
            × (is_blank (byte_at (32 ∷ 97 ∷ 9 ∷ []) (to - 1)) ≡ false)))
profile_trim-blanks_example = profile_trim-blanks (32 ∷ 97 ∷ 9 ∷ [])

is_valid_value-is_valid_name_example : is_valid_value bad_line ≡ is_valid_name bad_line
is_valid_value-is_valid_name_example = is_valid_value-is_valid_name bad_line

-- [a] b=1,12
abbrev suite : IniContext
suite = record {
  section_head =
      record {
        ptr_section = at (97 ∷ []);
        ptr_entry = at (98 ∷ []);
        ptr_value = at (49 ∷ 44 ∷ 49 ∷ 50 ∷ []);
      }
      ∷ [];
  comment_head = [];
}

numbers_1_12 : All IsNumber ((49 ∷ []) ∷ (49 ∷ 50 ∷ []) ∷ [])
unfolding is_valid_digital_char
numbers_1_12 = (
  (λ e. absurd cc, (refl, tt), omega arith),
  ((λ e. absurd cc, (refl, (refl, tt)), omega arith), tt),
)

entered_1_12 :
    get_string_from_data_file suite (97 ∷ []) (98 ∷ [])
    ≡ returns (some (at (join ((49 ∷ []) ∷ (49 ∷ 50 ∷ []) ∷ []))))
unfolding get_string_from_data_file update_get_profile_string strcmp_is_0 same_text
entered_1_12 = refl

parse_test_suite_case_entry-join_example :
    ((2 ≤ 2)
      × Within 12 (1 ∷ 12 ∷ [])
      × (parse_test_suite_case_entry suite (97 ∷ []) (98 ∷ []) 2 12 ≡ returns (some (1 ∷ 12 ∷ []))))
    ⊎ ((¬ ((2 ≤ 2) × Within 12 (1 ∷ 12 ∷ [])))
        × (parse_test_suite_case_entry suite (97 ∷ []) (98 ∷ []) 2 12 ≡ returns none))
parse_test_suite_case_entry-join_example =
    parse_test_suite_case_entry-join suite (97 ∷ []) (98 ∷ []) (49 ∷ []) ((49 ∷ 50 ∷ []) ∷ [])
      numbers_1_12 entered_1_12 2 12
