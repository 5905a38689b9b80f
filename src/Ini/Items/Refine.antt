-- ===== src/Ini/Items/Refine.antt =====
-- The list of items as a profile: the current section, and the value of each entry.
pub mod File
use mathlib.Core.Option.{some-injective}
use tee_io_validator.Common.{
  ℕ, zero, suc, ◌+◌, ◌<◌, Bool, true, false, ◌&&◌, ◌||◌, not, List, [], ◌∷◌, Option, none, some,
  ◌≡◌, ◌≢◌, inl, inr, refl, sym, ap, ◌∙◌, arith, Outcome, returns, faults, ◌>>=◌, >>=-of-returns,
  ◌==◌, if◌then◌else◌, length, take, drop, Bool-cases, Option-cases,
}
use tee_io_validator.Config.{same_text}
use tee_io_validator.Text.{find_char_loop}
use tee_io_validator.Ini.{is_valid_name, is_valid_value, profile_trim}
use tee_io_validator.Ini.Items.{
  Pointer, null, dangling, at, SectionItem, strcmp_is_0, add_section, profile_get_section,
  before_comment, set_value, add_entry, profile_get_entry, IniContext, process_line,
  update_get_profile_string,
}

-- What a line says.
pub data Line : Type 0 where
  nothing bad_value : Line
  section_line : List ℕ → Line
  entry_line : List ℕ → List ℕ → Line

abbrev pub bad_name : List ℕ → Bool
bad_name name = (length name == 0) || not (is_valid_name name)

-- A section between brackets, and an entry and its value around '='. Anything else says nothing.
unfoldable pub classify_section : List ℕ → Line
classify_section line = elim (find_char_loop 0 line 93) [
  | none ↦ nothing
  | some n ↦
      let name = profile_trim (take n line) in
      if n == 0 then nothing else (if bad_name name then nothing else section_line name)
]

unfoldable pub classify_entry : List ℕ → Line
classify_entry line = elim (find_char_loop 0 line 61) [
  | none ↦ nothing
  | some n ↦
      let name = profile_trim (take n line) in
      let value = profile_trim (before_comment (drop (n + 1) line)) in
      if (n == 0) || bad_name name
      then nothing
      else (if (length value == 0) || not (is_valid_value value)
          then bad_value
          else entry_line name value)
]

unfoldable pub classify : List ℕ → Line
classify [] = nothing
classify (first ∷ line) =
    if (first == 35) || (first == 59)
    then nothing
    else (if first == 91 then classify_section line else classify_entry (first ∷ line))

pub record Profile : Type 0 where
  pub current : Option (List ℕ)
  pub value_of : List ℕ → List ℕ → Option (List ℕ)

-- A section becomes the current one; an entry of the current section hides an earlier one of the
-- same name.
abbrev pub enter : Option (List ℕ) → (List ℕ → List ℕ → Option (List ℕ)) → List ℕ → List ℕ → Profile
enter none values name value = record { current = none; value_of = values }
enter (some section) values name value = record {
  current = some section;
  value_of = λ s e. if same_text section s && same_text name e then some value else values s e;
}

unfoldable pub say : Profile → Line → Profile
say p nothing = p
say p bad_value = p
say p (section_line name) = record { current = some name; value_of = p.value_of }
say p (entry_line name value) = enter p.current p.value_of name value

abbrev pub pointer_of : Option (List ℕ) → Option Pointer
pointer_of none = none
pointer_of (some t) = some (at t)

abbrev pub latest : List SectionItem → Option Pointer
latest [] = none
latest (item ∷ items) = some item.ptr_section

-- Every lookup gives the value of the profile, and the latest item is of its current section.
abbrev pub Represents : List SectionItem → Profile → Type 0
Represents items p =
    ((section entry : List ℕ)
      → update_get_profile_string items section entry
        ≡ returns (pointer_of (p.value_of section entry)))
    × (latest items ≡ pointer_of p.current)

section-Represents :
    (items : List SectionItem) (p : Profile) (name : List ℕ)
    → Represents items p
    → Represents
        (record { ptr_section = at name; ptr_entry = null; ptr_value = null } ∷ items)
        (record { current = some name; value_of = p.value_of })
unfolding update_get_profile_string strcmp_is_0
section-Represents items p name (values, current) = (
  λ s e. elim (Bool-cases (same_text name s)) [
    | inl same ↦ rw (update_get_profile_string, strcmp_is_0, ◌>>=◌, same) (values s e)
    | inr other ↦ rw (update_get_profile_string, strcmp_is_0, ◌>>=◌, other) (values s e)
  ],
  refl,
)

entry-value :
    (items : List SectionItem) (section name value s e : List ℕ) (old : Option (List ℕ))
    → update_get_profile_string items s e ≡ returns (pointer_of old)
    → update_get_profile_string
        (record { ptr_section = at section; ptr_entry = at name; ptr_value = at value } ∷ items)
        s
        e
      ≡ returns (pointer_of (if same_text section s && same_text name e then some value else old))
unfolding update_get_profile_string strcmp_is_0
entry-value items section name value s e old h = elim (Bool-cases (same_text section s)) [
  | inr other ↦ rw (update_get_profile_string, strcmp_is_0, ◌>>=◌, other) h
  | inl same ↦ elim (Bool-cases (same_text name e)) [
    | inl same' ↦ rw (update_get_profile_string, strcmp_is_0, ◌>>=◌, same, same') refl
    | inr other ↦ rw (update_get_profile_string, strcmp_is_0, ◌>>=◌, same, other) h
  ]
]

profile_get_section-Represents :
    (c : ℕ) (line : List ℕ) (items : List SectionItem) (p : Profile)
    → Represents items p
    → Represents (profile_get_section (c ∷ line) items).1 (say p (classify_section line))
unfolding profile_get_section classify_section add_section say
profile_get_section-Represents c line items p h = elim (Option-cases (find_char_loop 0 line 93)) [
  | inl none_there ↦ rw (profile_get_section, classify_section, none_there) h
  | inr (n, e) ↦
      let name = profile_trim (take n line) in
      elim (Bool-cases (n == 0)) [
        | inl empty ↦ rw (profile_get_section, classify_section, e, empty) h
        | inr some_name ↦ elim (Bool-cases (bad_name name)) [
          | inl bad ↦ rw (profile_get_section, classify_section, e, some_name, add_section, bad) h
          | inr good ↦
              rw (profile_get_section, classify_section, e, some_name, add_section, good)
                (section-Represents items p name h)
        ]
      ]
]

pub add_entry-at :
    (name value section : List ℕ) (item : SectionItem) (items : List SectionItem)
    → item.ptr_section ≡ at section
    → add_entry name value (item ∷ items) ≡ returns (set_value section name value (item ∷ items))
unfolding add_entry
add_entry-at name value section item items h =
    ap
      (λ q. elim q as (λ _. Outcome (Bool × List SectionItem)) [
        | null ↦ faults
        | dangling ↦ faults
        | at s ↦ returns (set_value s name value (item ∷ items))
      ])
      h

add_entry-Represents :
    (name value : List ℕ) (items : List SectionItem) (current : Option (List ℕ))
    (values : List ℕ → List ℕ → Option (List ℕ))
    → ((length value == 0) || not (is_valid_value value)) ≡ false
    → Represents items (record { current = current; value_of = values })
    → (status : Bool) × (items' : List SectionItem) × (add_entry name value items
        ≡ returns (status, items'))
      × Represents items' (enter current values name value)
unfolding add_entry set_value
add_entry-Represents name value [] none values good h = (true, [], refl, h)
add_entry-Represents name value [] (some section) values good (h, head) = cc
add_entry-Represents name value (item ∷ items) none values good (h, head) = cc
add_entry-Represents name value (item ∷ items) (some section) values good (h, head) =
    let here : item.ptr_section ≡ at section = some-injective _ _ head in
    (
      true,
      record { ptr_section = at section; ptr_entry = at name; ptr_value = at value } ∷ item ∷ items,
      add_entry-at name value section item items here ∙ rw (set_value, good) refl,
      (λ s e. entry-value (item ∷ items) section name value s e (values s e) (h s e), refl),
    )

profile_get_entry-Represents :
    (line : List ℕ) (items : List SectionItem) (p : Profile)
    → classify_entry line ≢ bad_value
    → Represents items p
    → (status : Bool) × (items' : List SectionItem) × (profile_get_entry line items
        ≡ returns (status, items'))
      × Represents items' (say p (classify_entry line))
unfolding profile_get_entry classify_entry say
profile_get_entry-Represents line items p readable h =
    elim (Option-cases (find_char_loop 0 line 61)) [
      | inl none_there ↦
          (false, items, rw (profile_get_entry, none_there) refl, rw (classify_entry, none_there) h)
      | inr (n, e) ↦
          let name = profile_trim (take n line) in
          let value = profile_trim (before_comment (drop (n + 1) line)) in
          elim (Bool-cases ((n == 0) || bad_name name)) [
            | inl bad ↦
                (false, items, rw (profile_get_entry, e, bad) refl, rw (classify_entry, e, bad) h)
            | inr good ↦ elim (Bool-cases ((length value == 0) || not (is_valid_value value))) [
              | inl bad ↦ absurd (readable (rw (classify_entry, e, good, bad) refl))
              | inr fine ↦
                  let (status, items', added, r) =
                    add_entry-Represents name value items p.current p.value_of fine h in
                  (
                    status,
                    items',
                    rw (profile_get_entry, e, good) added,
                    rw (classify_entry, e, good, fine) r,
                  )
            ]
          ]
    ]

-- A line that does not hold a bad value does to the list what it says to the profile.
pub process_line-Represents :
    (line : List ℕ) (c : IniContext) (p : Profile)
    → classify line ≢ bad_value
    → Represents c.section_head p
    → (status : Bool) × (c' : IniContext) × (process_line line c ≡ returns (status, c'))
      × Represents c'.section_head (say p (classify line))
unfolding process_line classify say
process_line-Represents [] c p readable h = (false, c, refl, h)
process_line-Represents (first ∷ line) c p readable h =
    elim (Bool-cases ((first == 35) || (first == 59))) [
      | inl comment ↦ (
        true,
        record { section_head = c.section_head; comment_head = (first ∷ line) ∷ c.comment_head },
        rw (process_line, comment) refl,
        rw (classify, comment) h,
      )
      | inr not_comment ↦ elim (Bool-cases (first == 91)) [
        | inl section ↦ (
          (profile_get_section (first ∷ line) c.section_head).0,
          record {
            section_head = (profile_get_section (first ∷ line) c.section_head).1;
            comment_head = c.comment_head;
          },
          rw (process_line, not_comment, section) refl,
          rw (classify, not_comment, section)
              (profile_get_section-Represents first line c.section_head p h),
        )
        | inr other ↦
            let (status, items', e, r) =
              profile_get_entry-Represents (first ∷ line) c.section_head p
                (λ bad. readable (rw (classify, not_comment, other) bad)) h in
            (
              status,
              record { section_head = items'; comment_head = c.comment_head },
              rw (process_line, not_comment, other, e, ◌>>=◌) refl,
              rw (classify, not_comment, other) r,
            )
      ]
    ]
