-- ===== src/Ini/Numbers.antt =====
-- teeio-validator/teeio_validator/ide_test_ini.c: the numbers in an ini file and the entry of a
-- test suite that lists the test cases of a class. A context that is not there (NULL) is left out.
pub mod Cases
use tee_io_validator.Common.{
  ℕ, Bool, true, false, List, [], ◌∷◌, Option, none, some, Outcome, returns, asserts, faults, ◌>>=◌,
  ltb, ◌==◌, if◌then◌else◌, length,
}
use tee_io_validator.Text.{is_valid_decimal_string, convert_hex_str}
use tee_io_validator.Text.Arrays.{decimal_loop, get_uint32_array_from_string}
use tee_io_validator.Ini.Items.{Pointer, null, dangling, at, IniContext, get_string_from_data_file}

-- `Value` is asserted to be there.
unfoldable pub text_at : Option Pointer → Outcome (Option (List ℕ))
text_at none = returns none
text_at (some null) = asserts
text_at (some dangling) = faults
text_at (some (at value)) = returns (some value)

-- The loop over the identifiers.
unfoldable pub cases_within : ℕ → List ℕ → Bool
cases_within max_case_id [] = true
cases_within max_case_id (case_id ∷ ids) =
    let rest = cases_within max_case_id ids in if ltb max_case_id case_id then false else rest

module _ (c : IniContext) (section entry : List ℕ) where
  unfoldable pub value_at : Outcome (Option (List ℕ))
  value_at = get_string_from_data_file c section entry >>= text_at

  unfoldable pub get_decimal_uint32_from_data_file : Outcome (Option ℕ)
  get_decimal_uint32_from_data_file = value_at >>= λ value. elim value [
    | none ↦ returns none
    | some v ↦ returns (
        if is_valid_decimal_string v
        then (if ltb 4294967295 (decimal_loop 0 v) then none else some (decimal_loop 0 v))
        else none)
  ]

  -- The tests after the lookup are those of a conversion with the largest value UINT32_MAX.
  unfoldable pub get_hex_uint32_from_data_file : Outcome (Option ℕ)
  get_hex_uint32_from_data_file = value_at >>= λ value. elim value [
    | none ↦ returns none
    | some v ↦ returns (convert_hex_str 4294967295 (some v))
  ]

  -- `DataArrayLength` is the room; a length of 0 is refused.
  unfoldable pub get_uint32_array_from_data_file : ℕ → Outcome (Option (List ℕ))
  get_uint32_array_from_data_file room = elim (room == 0) [
    | true ↦ returns none
    | false ↦ value_at >>= λ value. elim value [
      | none ↦ returns none
      | some v ↦
          let (found, numbers) = get_uint32_array_from_string (some room) v in
          returns (if found then some numbers else none)
    ]
  ]

  unfoldable pub get_uint32_array_length_from_data_file : Outcome (Option ℕ)
  get_uint32_array_length_from_data_file = value_at >>= λ value. elim value [
    | none ↦ returns none
    | some v ↦
        let (found, numbers) = get_uint32_array_from_string none v in
        returns (if found then some (length numbers) else none)
  ]

  -- `cases_cnt`: the identifiers that there is room for. The result is the identifiers, or `none`
  -- for false.
  unfoldable pub parse_test_suite_case_entry : ℕ → ℕ → Outcome (Option (List ℕ))
  parse_test_suite_case_entry cases_cnt max_case_id =
      get_uint32_array_length_from_data_file >>= λ counted. elim counted [
        | none ↦ returns none
        | some array_size ↦ elim (ltb cases_cnt array_size) [
          | true ↦ returns none
          | false ↦ get_uint32_array_from_data_file array_size >>= λ ids. elim ids [
            | none ↦ returns none
            | some cases_id ↦
                returns (if cases_within max_case_id cases_id then some cases_id else none)
          ]
        ]
      ]
