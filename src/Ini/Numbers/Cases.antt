-- ===== src/Ini/Numbers/Cases.antt =====
-- The test cases of a class in a test suite.
use mathlib.Core.List.{map}
use tee_io_validator.Common.{
  ℕ, suc, ◌≤◌, true, false, List, [], ◌∷◌, none, some, ◌≡◌, ◌⊎◌, inl, inr, refl, ap, arith, returns,
  >>=-of-returns, All, ltb, ◌==◌, length, Bool-cases,
}
use tee_io_validator.Text.Arrays.Joined.{
  decimal_value, IsNumber, join, get_uint32_array_from_string-join,
}
use tee_io_validator.Ini.Items.{at, IniContext, get_string_from_data_file}
use tee_io_validator.Ini.Numbers.{
  text_at, value_at, get_uint32_array_from_data_file, get_uint32_array_length_from_data_file,
  cases_within, parse_test_suite_case_entry,
}

abbrev pub Within : ℕ → List ℕ → Type 0
Within max_case_id ids = All (λ case_id. case_id ≤ max_case_id) ids

cases_within-Within :
    (max_case_id : ℕ) (ids : List ℕ)
    → (Within max_case_id ids × (cases_within max_case_id ids ≡ true))
      ⊎ ((¬ Within max_case_id ids) × (cases_within max_case_id ids ≡ false))
unfolding cases_within
cases_within-Within max [] = inl (tt, refl)
cases_within-Within max (i ∷ ids) = elim (Bool-cases (ltb max i)) [
  | inl large ↦ inr (λ h. let le = h.0 in absurd (ground arith), rw large refl)
  | inr small ↦ elim (cases_within-Within max ids) [
    | inl (h, e) ↦ inl ((ground arith, h), rw (small, e) refl)
    | inr (h, e) ↦ inr (λ all. h all.1, rw (small, e) refl)
  ]
]

length-values : (ts : List (List ℕ)) → length (map (decimal_value 0) ts) ≡ length ts
length-values [] = refl
length-values (t ∷ ts) = ap suc (length-values ts)

module _ (c : IniContext) (section entry t : List ℕ) (ts : List (List ℕ)) where
  abbrev pub values : List ℕ
  values = map (decimal_value 0) (t ∷ ts)

  module _ (numbers : All IsNumber (t ∷ ts))
      (entered : get_string_from_data_file c section entry
        ≡ returns (some (at (join (t ∷ ts))))) where
    value_at-join : value_at c section entry ≡ returns (some (join (t ∷ ts)))
    unfolding value_at text_at
    value_at-join = >>=-of-returns _ _ entered refl

    counted :
        get_uint32_array_length_from_data_file c section entry ≡ returns (some (length (t ∷ ts)))
    unfolding get_uint32_array_length_from_data_file
    counted =
        let e = get_uint32_array_from_string-join none t ts numbers tt in
        let l = length-values (t ∷ ts) in >>=-of-returns _ _ value_at-join (rw (e, l) refl)

    stored :
        get_uint32_array_from_data_file c section entry (length (t ∷ ts)) ≡ returns (some values)
    unfolding get_uint32_array_from_data_file
    stored =
        let e =
          get_uint32_array_from_string-join (some (length (t ∷ ts))) t ts numbers (omega arith) in
        let room : (length (t ∷ ts) == 0) ≡ false = ground arith in
        rw (get_uint32_array_from_data_file, room) (>>=-of-returns _ _ value_at-join (rw e refl))

    -- An entry with texts of decimal digits, with values of 32 bits, that are joined by commas:
    -- the test cases are the values in order if there is room for them and none is larger than the
    -- largest identifier, and otherwise the entry is refused.
    pub parse_test_suite_case_entry-join :
        (cases_cnt max_case_id : ℕ)
        → ((length (t ∷ ts) ≤ cases_cnt)
            × Within max_case_id values
            × (parse_test_suite_case_entry c section entry cases_cnt max_case_id
                ≡ returns (some values)))
          ⊎ ((¬ ((length (t ∷ ts) ≤ cases_cnt) × Within max_case_id values))
              × (parse_test_suite_case_entry c section entry cases_cnt max_case_id ≡ returns none))
    unfolding parse_test_suite_case_entry
    parse_test_suite_case_entry-join cases_cnt max_case_id =
        elim (Bool-cases (ltb cases_cnt (length (t ∷ ts)))) [
          | inl many ↦ inr (
            λ h. let le = h.0 in absurd (ground arith),
            >>=-of-returns _ _ counted (rw many refl),
          )
          | inr few ↦ elim (cases_within-Within max_case_id values) [
            | inl (h, e) ↦ inl (
              ground arith,
              h,
              >>=-of-returns _ _ counted (rw few (>>=-of-returns _ _ stored (rw e refl))),
            )
            | inr (h, e) ↦ inr (
              λ all. h all.1,
              >>=-of-returns _ _ counted (rw few (>>=-of-returns _ _ stored (rw e refl))),
            )
          ]
        ]
