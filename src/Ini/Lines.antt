-- ===== src/Ini/Lines.antt =====
-- How `ProfileGetLine` cuts a buffer into lines, and that a larger buffer for a line that does not
-- fit changes nothing.
use Prim.Native.Nat.{min}
use tee_io_validator.Common.{
  ℕ, zero, suc, ◌+◌, ◌-◌, ◌≤◌, ◌<◌, Bool, true, false, ◌||◌, List, [], ◌∷◌, some, ◌≡◌, inl, inr,
  refl, ap, ◌∙◌, arith, ltb, leb, ◌==◌, if◌then◌else◌, length, take, length-take, take-of_le,
  Bool-cases,
}
use tee_io_validator.Ini.{byte_at, line_break, line_length, profile_get_line}
use tee_io_validator.Ini.Items.{read_line}

line_break-le : (xs : List ℕ) → line_break xs ≤ length xs
unfolding line_break
line_break-le [] = omega arith
line_break-le (c ∷ cs) =
    let ih = line_break-le cs in
    elim (Bool-cases ((c == 0x0D) || (c == 0x0A))) [
      | inl stop ↦ rw (line_break, stop) (omega arith)
      | inr on ↦ rw (line_break, on) (omega (arith, ih))
    ]

line_break-take : (n : ℕ) (xs : List ℕ) → line_break (take n xs) ≡ min n (line_break xs)
unfolding line_break
line_break-take zero xs = omega arith
line_break-take (suc n) [] = omega arith
line_break-take (suc n) (c ∷ cs) =
    let ih = line_break-take n cs in
    elim (Bool-cases ((c == 0x0D) || (c == 0x0A))) [
      | inl stop ↦ rw (line_break, stop) (omega arith)
      | inr on ↦ rw (line_break, on) (omega (arith, ih))
    ]

pub byte_at-take : (n : ℕ) (xs : List ℕ) (i : ℕ) → i < n → byte_at (take n xs) i ≡ byte_at xs i
byte_at-take zero xs i h = absurd (omega arith)
byte_at-take (suc n) [] i h = refl
byte_at-take (suc n) (x ∷ xs) zero h = refl
byte_at-take (suc n) (x ∷ xs) (suc i) h = byte_at-take n xs i (omega arith)

pub line_length-le :
    (xs : List ℕ) → 0 < length xs → (0 < line_length xs) × (line_length xs ≤ length xs)
unfolding line_length
line_length-le xs h = let le = line_break-le xs in (ground (arith, le), ground (arith, le))

-- The two ways to a length: the break is the last byte or behind it, or it is inside.
pub line_length-end : (ys : List ℕ) → length ys - 1 ≤ line_break ys → line_length ys ≡ length ys
unfolding line_length
line_length-end ys h =
    let e : leb (length ys - 1) (line_break ys) ≡ true = ground arith in rw (line_length, e) refl

pub line_length-inside :
    (ys : List ℕ) (at : ℕ) (crlf : Bool)
    → line_break ys ≡ at
    → at < length ys - 1
    → (byte_at ys (at + 1) == 0x0A) ≡ crlf
    → line_length ys ≡ (if crlf then at + 2 else at + 1)
unfolding line_length
line_length-inside ys at crlf b h e =
    let e' : leb (length ys - 1) at ≡ false = ground arith in rw (line_length, b, e', e) refl

line_length-take : (xs : List ℕ) → line_length (take (line_length xs) xs) ≡ line_length xs
line_length-take xs =
    let at = line_break xs in
    elim (Bool-cases (leb (length xs - 1) at)) [
      | inl end ↦
          let n = line_length-end xs (ground arith) in
          ap line_length (take-of_le (line_length xs) xs (omega (arith, n)))
      | inr inside ↦
          let lt : at < length xs - 1 = ground arith in
          elim (Bool-cases (byte_at xs (at + 1) == 0x0A)) [
            | inl lf ↦
                let n = line_length-inside xs at true refl lt lf in
                rw n (
                  line_length-inside (take (at + 2) xs) at true
                    (line_break-take (at + 2) xs ∙ omega arith)
                    (let l = length-take (at + 2) xs in omega (arith, l, lt))
                    (rw (byte_at-take (at + 2) xs (at + 1) (omega arith)) lf))
            | inr other ↦
                let n = line_length-inside xs at false refl lt other in
                let l = length-take (at + 1) xs in
                let b = line_break-take (at + 1) xs in
                rw n
                  (line_length-end (take (at + 1) xs) (omega (arith, l, b)) ∙ l ∙ omega (arith, lt))
          ]
    ]

-- A line is read whole, whatever the size of the buffer.
pub read_line-line_length :
    (source : List ℕ) (max_line_length : ℕ)
    → (max' : ℕ) × (read_line source max_line_length ≡ some (line_length source, max'))
unfolding read_line profile_get_line
read_line-line_length source max =
    let n = line_length source in
    let again = line_length-take source in
    let fits : ltb n n ≡ false = ground arith in
    elim (Bool-cases (ltb max n)) [
      | inr whole ↦ (max, rw (read_line, profile_get_line, whole) refl)
      | inl small ↦ (n, rw (read_line, profile_get_line, small, profile_get_line, again, fits) refl)
    ]
