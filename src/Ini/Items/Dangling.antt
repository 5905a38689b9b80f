-- ===== src/Ini/Items/Dangling.antt =====
-- A bad value leaves an item whose texts have been freed, and what is done with it is undefined.
use tee_io_validator.Common.{
  ℕ, ◌+◌, false, ◌||◌, not, List, [], ◌∷◌, some, ◌≡◌, inl, inr, refl, ◌∙◌, returns, faults, ◌>>=◌,
  ◌==◌, length, take, drop, Bool-cases, Option-cases,
}
use mathlib.Core.Option.{some-injective}
use tee_io_validator.Text.{find_char_loop}
use tee_io_validator.Ini.{is_valid_value, profile_trim}
use tee_io_validator.Ini.Items.{
  null, dangling, at, SectionItem, strcmp_is_0, before_comment, set_value, add_entry,
  profile_get_entry, IniContext, process_line, update_get_profile_string, get_string_from_data_file,
}
use tee_io_validator.Ini.Items.Refine.{
  bad_value, bad_name, classify_section, classify_entry, classify, latest, add_entry-at,
}

abbrev pub freed : SectionItem
freed = record { ptr_section = dangling; ptr_entry = dangling; ptr_value = null }

classify_section-fine : (line : List ℕ) → classify_section line ≡ bad_value → ⊥
unfolding classify_section
classify_section-fine line h = elim (Option-cases (find_char_loop 0 line 93)) [
  | inl e ↦ let h' = rw (classify_section, e) at h in cc
  | inr (n, e) ↦ elim (Bool-cases (n == 0)) [
    | inl empty ↦ let h' = rw (classify_section, e, empty) at h in cc
    | inr some_name ↦ elim (Bool-cases (bad_name (profile_trim (take n line)))) [
      | inl bad ↦ let h' = rw (classify_section, e, some_name, bad) at h in cc
      | inr good ↦ let h' = rw (classify_section, e, some_name, good) at h in cc
    ]
  ]
]

-- An entry with a bad value is one with a good name.
profile_get_entry-freed :
    (line section : List ℕ) (items : List SectionItem)
    → classify_entry line ≡ bad_value
    → latest items ≡ some (at section)
    → profile_get_entry line items ≡ returns (false, freed ∷ items)
unfolding profile_get_entry classify_entry set_value
profile_get_entry-freed line section [] h head = cc
profile_get_entry-freed line section (item ∷ items) h head =
    elim (Option-cases (find_char_loop 0 line 61)) [
      | inl e ↦ let h' = rw (classify_entry, e) at h in cc
      | inr (n, e) ↦
          let name = profile_trim (take n line) in
          let value = profile_trim (before_comment (drop (n + 1) line)) in
          elim (Bool-cases ((n == 0) || bad_name name)) [
            | inl bad ↦ let h' = rw (classify_entry, e, bad) at h in cc
            | inr good ↦ elim (Bool-cases ((length value == 0) || not (is_valid_value value))) [
              | inr fine ↦ let h' = rw (classify_entry, e, good, fine) at h in cc
              | inl bad ↦
                  let added =
                    add_entry-at name value section item items (some-injective _ _ head) in
                  rw (profile_get_entry, e, good) (added ∙ rw (set_value, bad) refl)
            ]
          ]
    ]

-- A line with a valid entry name and a bad value, behind a section: the line fails, but leaves an
-- item in the list. Every lookup of a value and every further entry then uses freed memory.
pub process_line-faults :
    (line section : List ℕ) (c : IniContext)
    → classify line ≡ bad_value
    → latest c.section_head ≡ some (at section)
    → (c' : IniContext) × (process_line line c ≡ returns (false, c'))
      × ((s e : List ℕ) → get_string_from_data_file c' s e ≡ faults)
      × ((name value : List ℕ) → add_entry name value c'.section_head ≡ faults)
unfolding process_line classify get_string_from_data_file update_get_profile_string strcmp_is_0
    add_entry
process_line-faults [] section c h head = cc
process_line-faults (first ∷ line) section c h head =
    elim (Bool-cases ((first == 35) || (first == 59))) [
      | inl comment ↦ let h' = rw (classify, comment) at h in cc
      | inr not_comment ↦ elim (Bool-cases (first == 91)) [
        | inl is_section ↦
            absurd (classify_section-fine line (rw (classify, not_comment, is_section) at h))
        | inr other ↦
            let e =
              profile_get_entry-freed (first ∷ line) section c.section_head
                (rw (classify, not_comment, other) at h) head in
            (
              record { section_head = freed ∷ c.section_head; comment_head = c.comment_head },
              rw (process_line, not_comment, other, e, ◌>>=◌) refl,
              λ s e. refl,
              λ name value. refl,
            )
      ]
    ]
