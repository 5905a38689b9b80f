-- ===== src/Ini/Items/RoundTrip.antt =====
-- A file that is printed from sections and entries is read back.
use mathlib.Core.List.{append_assoc}
use tee_io_validator.Common.{
  ℕ, zero, suc, ◌+◌, ◌≤◌, ◌<◌, Bool, false, ◌||◌, List, [], ◌∷◌, ◌++◌, none, some, ◌≡◌, refl, sym,
  ap, ◌∙◌, arith, returns, ◌==◌, length, take, drop, All, All-append, length-append,
  take-append-exact, drop-append-exact, ◌≢◌,
}
use tee_io_validator.Ini.{byte_at, line_break, line_length, profile_trim}
use tee_io_validator.Ini.Lines.{line_length-end, line_length-inside}
use tee_io_validator.Ini.Items.{IniContext, open_ini_file, get_string_from_data_file}
use tee_io_validator.Ini.Items.Refine.{
  Line, nothing, bad_value, section_line, entry_line, classify, Profile, say, pointer_of,
}
use tee_io_validator.Ini.Items.Refine.File.{
  lines, say_all, Readable, open_ini_file-get_string_from_data_file,
}
use tee_io_validator.Ini.Items.Printed.{
  Plain, name_chars, name_chars-Plain, Name, print_section, print_entry, profile_trim-line,
  classify-print_section, classify-print_entry,
}

-- Only sections and entries are printed, each on a line.
abbrev pub print_line : Line → List ℕ
print_line nothing = []
print_line bad_value = []
print_line (section_line name) = print_section name
print_line (entry_line name value) = print_entry name value

abbrev pub print_file : List Line → List ℕ
print_file [] = []
print_file (l ∷ ls) = print_line l ++ 10 ∷ print_file ls

abbrev pub Printable : Line → Type 0
Printable nothing = ⊥
Printable bad_value = ⊥
Printable (section_line name) = Name name
Printable (entry_line name value) = Name name × Name value

abbrev pub mean : Profile → List Line → Profile
mean p [] = p
mean p (l ∷ ls) = mean (say p l) ls

print_line-Plain : (l : Line) → Printable l → Plain (print_line l)
print_line-Plain nothing h = absurd h
print_line-Plain bad_value h = absurd h
print_line-Plain (section_line name) (valid, some_char) = (
  omega arith,
  All-append (λ c. 33 ≤ c) name (93 ∷ []) (name_chars-Plain name (name_chars name valid))
      (omega arith, tt),
)
print_line-Plain (entry_line name value) ((valid, some_char), (valid', some_char')) =
    All-append (λ c. 33 ≤ c) name (61 ∷ value) (name_chars-Plain name (name_chars name valid))
      (omega arith, name_chars-Plain value (name_chars value valid'))

classify-print_line : (l : Line) → Printable l → classify (print_line l) ≡ l
classify-print_line nothing h = absurd h
classify-print_line bad_value h = absurd h
classify-print_line (section_line name) h = classify-print_section name h
classify-print_line (entry_line name value) (h, h') = classify-print_entry name value h h'

line_break-print : (t rest : List ℕ) → Plain t → line_break (t ++ 10 ∷ rest) ≡ length t
unfolding line_break
line_break-print [] rest h = refl
line_break-print (c ∷ cs) rest (a, b) =
    let e : ((c == 0x0D) || (c == 0x0A)) ≡ false = ground arith in
    rw (line_break, e) (ap suc (line_break-print cs rest b))

byte_at-print : (t rest : List ℕ) → byte_at (t ++ 10 ∷ rest) (length t + 1) ≡ byte_at rest 0
byte_at-print [] [] = refl
byte_at-print [] (c ∷ cs) = refl
byte_at-print (x ∷ xs) rest =
    let e : suc (length xs) + 1 ≡ suc (length xs + 1) = omega arith in rw e (byte_at-print xs rest)

line_length-print :
    (t rest : List ℕ) → Plain t → byte_at rest 0 ≢ 10 → line_length (t ++ 10 ∷ rest) ≡ length t + 1
line_length-print t [] h other =
    let l : length (t ++ 10 ∷ []) ≡ length t + 1 = length-append t (10 ∷ []) in
    let b = line_break-print t [] h in line_length-end (t ++ 10 ∷ []) (omega (arith, l, b)) ∙ l
line_length-print t (c ∷ cs) h other =
    let l = length-append t (10 ∷ c ∷ cs) in
    line_length-inside (t ++ 10 ∷ c ∷ cs) (length t) false (line_break-print t (c ∷ cs) h)
      (omega (arith, l)) (rw (byte_at-print t (c ∷ cs)) (ground arith))

-- The next line does not begin with a line break.
next_line : (ls : List Line) → All Printable ls → byte_at (print_file ls) 0 ≢ 10
next_line [] h = λ e. absurd (omega (arith, e))
next_line (l ∷ ls) (h, hs) = first (print_line l) (print_line-Plain l h) (nonempty l h)
  where
    nonempty : (l : Line) → Printable l → 0 < length (print_line l)
    nonempty nothing h = absurd h
    nonempty bad_value h = absurd h
    nonempty (section_line name) h = omega arith
    nonempty (entry_line name value) h = let l = length-append name (61 ∷ value) in omega (arith, l)

    first : (t : List ℕ) → Plain t → 0 < length t → byte_at (t ++ 10 ∷ print_file ls) 0 ≢ 10
    first [] h p = absurd (omega arith)
    first (c ∷ cs) (a, b) p = λ e. absurd (omega (arith, a, e))

lines-cons :
    (fuel : ℕ) (source : List ℕ)
    → 0 < length source
    → lines (suc fuel) source
      ≡ profile_trim (take (line_length source) source)
        ∷ lines fuel (drop (line_length source) source)
lines-cons fuel [] h = absurd (omega arith)
lines-cons fuel (b ∷ bs) h = refl

lines-line :
    (fuel : ℕ) (t rest : List ℕ)
    → Plain t
    → byte_at rest 0 ≢ 10
    → lines (suc fuel) (t ++ 10 ∷ rest) ≡ t ∷ lines fuel rest
lines-line fuel t rest h other =
    let size = length-append t (10 ∷ rest) in
    let n = line_length-print t rest h other in
    let split : t ++ 10 ∷ rest ≡ (t ++ 10 ∷ []) ++ rest = sym (append_assoc t (10 ∷ []) rest) in
    let l : length (t ++ 10 ∷ []) ≡ length t + 1 = length-append t (10 ∷ []) in
    let line : take (length t + 1) (t ++ 10 ∷ rest) ≡ t ++ 10 ∷ [] =
      rw split (take-append-exact (t ++ 10 ∷ []) rest (length t + 1) l) in
    let behind : drop (length t + 1) (t ++ 10 ∷ rest) ≡ rest =
      drop-append-exact t (10 ∷ rest) (length t) 1 refl in
    rw
      (
        lines-cons fuel (t ++ 10 ∷ rest) (omega (arith, size)),
        n,
        line,
        behind,
        profile_trim-line t h,
      )
      refl

say_all-print_file :
    (fuel : ℕ) (p : Profile) (ls : List Line)
    → length (print_file ls) < fuel
    → All Printable ls
    → (say_all p (lines fuel (print_file ls)) ≡ mean p ls)
      × All Readable (lines fuel (print_file ls))
say_all-print_file zero p ls lt h = absurd (omega arith)
say_all-print_file (suc fuel) p [] lt h = (refl, tt)
say_all-print_file (suc fuel) p (l ∷ ls) lt (h, hs) =
    let t = print_line l in
    let size = length-append t (10 ∷ print_file ls) in
    let (same, readable) = say_all-print_file fuel (say p l) ls (omega (arith, size, lt)) hs in
    let e = lines-line fuel t (print_file ls) (print_line-Plain l h) (next_line ls hs) in
    let said = classify-print_line l h in
    let meant : say_all p (t ∷ lines fuel (print_file ls)) ≡ mean p (l ∷ ls) =
      ap (λ k. say_all (say p k) (lines fuel (print_file ls))) said ∙ same in
    rw e (meant, (rw said (not_bad l h), readable))
  where
    not_bad : (l : Line) → Printable l → l ≢ bad_value
    not_bad nothing h = absurd h
    not_bad bad_value h = absurd h
    not_bad (section_line name) h = λ e. cc
    not_bad (entry_line name value) h = λ e. cc

print_file-not_nil : (ls : List Line) → ls ≢ [] → print_file ls ≢ []
print_file-not_nil [] h = absurd (h refl)
print_file-not_nil (l ∷ ls) h = behind (print_line l) (print_file ls)
  where
    behind : (t rest : List ℕ) → t ++ 10 ∷ rest ≢ []
    behind [] rest = λ e. absurd cc
    behind (c ∷ cs) rest = λ e. absurd cc

-- A file that is printed from one or more sections and entries, whose names and values are valid
-- and not empty, is opened on more fuel than it has bytes. Every lookup then gives the value that the
-- sections and entries mean: that of the last such entry in a section of that name, or none. A
-- status that comes from a truth value is not an error.
pub open_ini_file-print_file :
    (is_error : Bool → Bool) (fuel : ℕ) (ls : List Line)
    → ((b : Bool) → is_error b ≡ false)
    → ls ≢ []
    → length (print_file ls) < fuel
    → All Printable ls
    → (c : IniContext) × (open_ini_file is_error fuel (print_file ls) ≡ some (returns (some c)))
      × ((section entry : List ℕ)
          → get_string_from_data_file c section entry
            ≡ returns (
                pointer_of (
                  (mean (record { current = none; value_of = λ s e. none }) ls).value_of section
                    entry)))
open_ini_file-print_file is_error fuel ls never some_line lt h =
    let p : Profile = record { current = none; value_of = λ s e. none } in
    let (same, readable) = say_all-print_file fuel p ls lt h in
    let (c, e, values) =
      open_ini_file-get_string_from_data_file is_error never fuel (print_file ls)
        (print_file-not_nil ls some_line) lt readable in
    (c, e, λ s n. values s n ∙ ap (λ (q : Profile). returns (pointer_of (q.value_of s n))) same)
