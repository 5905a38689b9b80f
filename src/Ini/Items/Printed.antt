-- ===== src/Ini/Items/Printed.antt =====
-- Lines that are printed are read as they were meant.
use mathlib.Core.List.{append-nil}
use tee_io_validator.Common.{
  ℕ, zero, suc, ◌+◌, ◌≤◌, ◌<◌, true, false, ◌||◌, List, [], ◌∷◌, ◌++◌, some, ◌≡◌, ◌≢◌, inl, inr,
  refl, ap, ◌∙◌, arith, ◌==◌, length, drop, All, take-of_le, length-append, take-append-exact,
  drop-append-exact, Bool-cases,
}
use tee_io_validator.Text.{find_char_loop}
use tee_io_validator.Ini.{
  is_valid_name_char, is_valid_name, is_valid_value, byte_at, is_blank, tail_loop, head_loop,
  profile_trim,
}
use tee_io_validator.Ini.Items.{before_comment}
use tee_io_validator.Ini.Items.Refine.{
  section_line, entry_line, bad_name, classify_section, classify_entry, classify,
}

-- Characters that are neither blanks nor control characters.
abbrev pub Plain : List ℕ → Type 0
Plain t = All (λ c. 33 ≤ c) t

-- What a valid character is not.
name_char :
    (c : ℕ) → is_valid_name_char c ≡ true → (44 ≤ c) × (c ≢ 59) × (c ≢ 61) × (c ≢ 91) × (c ≢ 93)
unfolding is_valid_name_char
name_char c h = (ground arith, ground arith, ground arith, ground arith, ground arith)

abbrev pub NameChar : ℕ → Type 0
NameChar c = (44 ≤ c) × (c ≢ 59) × (c ≢ 61) × (c ≢ 91) × (c ≢ 93)

pub name_chars : (t : List ℕ) → is_valid_name t ≡ true → All NameChar t
unfolding is_valid_name
name_chars [] h = tt
name_chars (c ∷ cs) h = elim (Bool-cases (is_valid_name_char c)) [
  | inl good ↦ (name_char c good, name_chars cs (rw (is_valid_name, good) at h))
  | inr bad ↦ let h' = rw (is_valid_name, bad) at h in cc
]

pub name_chars-Plain : (t : List ℕ) → All NameChar t → Plain t
name_chars-Plain [] h = tt
name_chars-Plain (c ∷ cs) (a, b) = (omega (arith, a), name_chars-Plain cs b)

head_loop-Plain : (t : List ℕ) → Plain t → head_loop t ≡ 0
unfolding head_loop
head_loop-Plain [] h = refl
head_loop-Plain (c ∷ cs) (a, b) =
    let e : is_blank c ≡ false = ground arith in rw (head_loop, e) refl

byte_at-last : (t s : List ℕ) (n : ℕ) → Plain t → n < length t → 33 ≤ byte_at (t ++ s) n
byte_at-last [] s n h lt = absurd (omega arith)
byte_at-last (c ∷ cs) s zero (a, b) lt = a
byte_at-last (c ∷ cs) s (suc n) (a, b) lt = byte_at-last cs s n b (omega arith)

tail_loop-Plain : (t s : List ℕ) (n : ℕ) → Plain t → n ≤ length t → tail_loop (t ++ s) n ≡ n
unfolding tail_loop
tail_loop-Plain t s zero h le = refl
tail_loop-Plain t s (suc n) h le =
    let last = byte_at-last t s n h (omega arith) in
    let e : is_blank (byte_at (t ++ s) n) ≡ false = ground (arith, last) in rw (tail_loop, e) refl

pub profile_trim-Plain : (t : List ℕ) → Plain t → profile_trim t ≡ t
unfolding profile_trim
profile_trim-Plain t h =
    let e : t ++ [] ≡ t = append-nil t in
    let n : tail_loop t (length t) ≡ length t =
      rw e at (tail_loop-Plain t [] (length t) h (omega arith)) in
    let kept = take-of_le (length t) t (omega arith) in
    rw (profile_trim, n, kept, head_loop-Plain t h) refl

-- The line break at the end is cut off.
pub profile_trim-line : (t : List ℕ) → Plain t → profile_trim (t ++ 10 ∷ []) ≡ t
unfolding profile_trim tail_loop
profile_trim-line t h =
    let l : length (t ++ 10 ∷ []) ≡ suc (length t) = length-append t (10 ∷ []) ∙ omega arith in
    let blank : is_blank (byte_at (t ++ 10 ∷ []) (length t)) ≡ true = rw (byte_at-end t) refl in
    let n = tail_loop-Plain t (10 ∷ []) (length t) h (omega arith) in
    let kept = take-append-exact t (10 ∷ []) (length t) refl in
    rw (profile_trim, l, tail_loop, blank, n, kept, head_loop-Plain t h) refl
  where
    byte_at-end : (t : List ℕ) → byte_at (t ++ 10 ∷ []) (length t) ≡ 10
    byte_at-end [] = refl
    byte_at-end (c ∷ cs) = byte_at-end cs

find_char_loop-first :
    (i c : ℕ) (t s : List ℕ)
    → All (λ x. x ≢ c) t
    → find_char_loop i (t ++ c ∷ s) c ≡ some (i + length t)
unfolding find_char_loop
find_char_loop-first i c [] s h =
    let e : (c == c) ≡ true = ground arith in rw (find_char_loop, e) (ap some (omega arith))
find_char_loop-first i c (x ∷ xs) s (a, b) =
    let e : (x == c) ≡ false = ground arith in
    rw (find_char_loop, e) (find_char_loop-first (i + 1) c xs s b ∙ ap some (omega arith))

pub All-weaken : (P Q : ℕ → Type 0) → ((c : ℕ) → P c → Q c) → (t : List ℕ) → All P t → All Q t
All-weaken P Q f [] h = tt
All-weaken P Q f (c ∷ cs) (a, b) = (f c a, All-weaken P Q f cs b)

before_comment-name : (t : List ℕ) → All NameChar t → before_comment t ≡ t
unfolding before_comment
before_comment-name [] h = refl
before_comment-name (c ∷ cs) ((low, a, _, _, _), rest) =
    let e : ((c == 35) || (c == 59)) ≡ false = ground arith in
    rw (before_comment, e) (ap (◌∷◌ c) (before_comment-name cs rest))

-- A name that a line can hold.
abbrev pub Name : List ℕ → Type 0
Name t = (is_valid_name t ≡ true) × (0 < length t)

not_bad_name : (t : List ℕ) → Name t → bad_name t ≡ false
not_bad_name t (valid, some_char) =
    let e : (length t == 0) ≡ false = ground arith in rw (e, valid) refl

abbrev pub print_section : List ℕ → List ℕ
print_section name = 91 ∷ name ++ 93 ∷ []

abbrev pub print_entry : List ℕ → List ℕ → List ℕ
print_entry name value = name ++ 61 ∷ value

pub classify-print_section :
    (name : List ℕ) → Name name → classify (print_section name) ≡ section_line name
unfolding classify classify_section
classify-print_section name (valid, some_char) =
    let chars = name_chars name valid in
    let n = length name in
    let found : find_char_loop 0 (name ++ 93 ∷ []) 93 ≡ some n =
      find_char_loop-first 0 93 name [] (All-weaken NameChar (λ x. x ≢ 93) (λ c h. h.4) name chars)
      ∙ ap some (omega arith) in
    let there : (n == 0) ≡ false = ground arith in
    let kept = take-append-exact name (93 ∷ []) n refl in
    let trimmed = profile_trim-Plain name (name_chars-Plain name chars) in
    let good = not_bad_name name (valid, some_char) in
    rw (classify, classify_section, found, there, kept, trimmed, good) refl

classify_entry-print_entry :
    (name value : List ℕ)
    → Name name
    → Name value
    → classify_entry (print_entry name value) ≡ entry_line name value
unfolding classify_entry is_valid_value
classify_entry-print_entry name value (valid, some_char) (valid', some_char') =
    let chars = name_chars name valid in
    let chars' = name_chars value valid' in
    let n = length name in
    let found : find_char_loop 0 (name ++ 61 ∷ value) 61 ≡ some n =
      find_char_loop-first 0 61 name value
        (All-weaken NameChar (λ x. x ≢ 61) (λ c h. h.2) name chars)
      ∙ ap some (omega arith) in
    let there : (n == 0) ≡ false = ground arith in
    let there' : (length value == 0) ≡ false = ground arith in
    let kept = take-append-exact name (61 ∷ value) n refl in
    let rest : drop (n + 1) (name ++ 61 ∷ value) ≡ value =
      drop-append-exact name (61 ∷ value) n 1 refl in
    let no_comment = before_comment-name value chars' in
    let trimmed = profile_trim-Plain name (name_chars-Plain name chars) in
    let trimmed' = profile_trim-Plain value (name_chars-Plain value chars') in
    rw
      (
        classify_entry, found, there, kept, trimmed, there, valid, rest, no_comment, trimmed',
        there', is_valid_value, valid',
      )
      refl

pub classify-print_entry :
    (name value : List ℕ)
    → Name name
    → Name value
    → classify (print_entry name value) ≡ entry_line name value
unfolding classify
classify-print_entry [] value (valid, some_char) h = absurd (omega arith)
classify-print_entry (c ∷ cs) value (valid, some_char) h =
    let ((low, a, b, d, e), chars) = name_chars (c ∷ cs) valid in
    let not_comment : ((c == 35) || (c == 59)) ≡ false = ground arith in
    let not_section : (c == 91) ≡ false = ground arith in
    rw (classify, not_comment, not_section)
      (classify_entry-print_entry (c ∷ cs) value (valid, some_char) h)
