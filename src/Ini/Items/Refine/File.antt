-- ===== src/Ini/Items/Refine/File.antt =====
-- An ini file that is opened is looked up like the profile that its lines describe.
use tee_io_validator.Common.{
  ℕ, zero, suc, ◌<◌, Bool, false, List, [], ◌∷◌, none, some, ◌≡◌, ◌≢◌, refl, arith, returns,
  and_then, ◌>>=◌, length, take, drop, All, length-drop,
}
use tee_io_validator.Ini.{line_length, profile_trim}
use tee_io_validator.Ini.Lines.{line_length-le, read_line-line_length}
use tee_io_validator.Ini.Items.{
  IniContext, pre_process_loop, opened, open_ini_file, update_get_profile_string,
  get_string_from_data_file,
}
use tee_io_validator.Ini.Items.Refine.{
  bad_value, classify, Profile, say, pointer_of, Represents, process_line-Represents,
}

-- The trimmed lines of a buffer, at most `fuel` of them; a line has a byte at least.
abbrev pub lines : ℕ → List ℕ → List (List ℕ)
lines zero source = []
lines (suc fuel) [] = []
lines (suc fuel) (b ∷ bs) =
    profile_trim (take (line_length (b ∷ bs)) (b ∷ bs))
    ∷ lines fuel (drop (line_length (b ∷ bs)) (b ∷ bs))

abbrev pub say_all : Profile → List (List ℕ) → Profile
say_all p [] = p
say_all p (l ∷ ls) = say_all (say p (classify l)) ls

abbrev pub Readable : List ℕ → Type 0
Readable line = classify line ≢ bad_value

module _ (is_error : Bool → Bool) (never : (b : Bool) → is_error b ≡ false) where
  pre_process_loop-Represents :
      (fuel : ℕ) (source : List ℕ) (max : ℕ) (status : Bool) (c : IniContext) (p : Profile)
      → length source < fuel
      → All Readable (lines fuel source)
      → Represents c.section_head p
      → (status' : Bool) × (c' : IniContext) × (pre_process_loop is_error fuel source max status c
          ≡ some (returns (status', c')))
        × Represents c'.section_head (say_all p (lines fuel source))
  unfolding pre_process_loop
  pre_process_loop-Represents zero source max status c p lt readable h = absurd (omega arith)
  pre_process_loop-Represents (suc fuel) [] max status c p lt readable h = (status, c, refl, h)
  pre_process_loop-Represents (suc fuel) (b ∷ bs) max status c p lt (first, readable) h =
      let n = line_length (b ∷ bs) in
      let (pos, le) = line_length-le (b ∷ bs) (omega arith) in
      let (max', read) = read_line-line_length (b ∷ bs) max in
      let (status', c', done, r) =
        process_line-Represents (profile_trim (take n (b ∷ bs))) c p first h in
      let shorter = length-drop n (b ∷ bs) in
      let (status'', c'', rest, r') =
        pre_process_loop-Represents fuel (drop n (b ∷ bs)) max' status' c' _
          (omega (arith, lt, pos, shorter)) readable r in
      (status'', c'', rw (pre_process_loop, read, done, never status') rest, r')

  -- For a file that is not empty, of which no line holds a bad value under a valid entry name, and
  -- more fuel than it has bytes: opening it succeeds, with lines that are neither a section nor an
  -- entry passed over, and then every lookup returns the value in the profile that the lines
  -- describe one after the other, or that there is none. A status that comes from a truth value is
  -- not an error.
  pub open_ini_file-get_string_from_data_file :
      (fuel : ℕ) (buffer : List ℕ)
      → buffer ≢ []
      → length buffer < fuel
      → All Readable (lines fuel buffer)
      → (c : IniContext) × (open_ini_file is_error fuel buffer ≡ some (returns (some c)))
        × ((section entry : List ℕ)
            → get_string_from_data_file c section entry
              ≡ returns (
                  pointer_of (
                    (say_all
                        (record { current = none; value_of = λ s e. none })
                        (lines fuel buffer)).value_of
                      section entry)))
  unfolding open_ini_file opened get_string_from_data_file update_get_profile_string
  open_ini_file-get_string_from_data_file fuel [] some_bytes lt readable = absurd (some_bytes refl)
  open_ini_file-get_string_from_data_file fuel (b ∷ bs) some_bytes lt readable =
      let (status, c, e, (values, current)) =
        pre_process_loop-Represents fuel (b ∷ bs) 512 false
          (record { section_head = []; comment_head = [] })
          (record { current = none; value_of = λ s e. none }) lt readable ((λ s e. refl), refl) in
      (c, rw (open_ini_file, e, and_then, ◌>>=◌, opened, never status) refl, values)
