-- ===== src/Text/Hex.antt =====
-- Which numbers the conversions of Text read.
use mathlib.Core.Option.{some-injective}
use tee_io_validator.Common.{
  ℕ, ◌+◌, ◌*◌, ◌≤◌, ◌<◌, true, false, List, [], ◌∷◌, some, ◌≡◌, ◌↔◌, ◌⊎◌, inl, inr, refl, sym, ap,
  ◌∙◌, arith, All, length, ltb, if◌then◌else◌, Bool-cases,
}
use tee_io_validator.Text.{
  is_valid_digital_char, is_valid_digital, is_valid_hex_string, hex_digit, strtoul_loop, strtoul,
  convert_hex_str,
}

-- The value of digits.
abbrev pub value : ℕ → List ℕ → ℕ
value acc [] = acc
value acc (c ∷ cs) = value (acc * 16 + hex_digit c) cs

value-grows : (acc : ℕ) (cs : List ℕ) → acc ≤ value acc cs
value-grows acc [] = omega arith
value-grows acc (c ∷ cs) = omega (arith, value-grows (acc * 16 + hex_digit c) cs)

abbrev ulong_max : ℕ
ulong_max = 18446744073709551615

abbrev saturated : ℕ → ℕ
saturated n = if ltb ulong_max n then ulong_max else n

-- Saturation is seen only where the value is beyond 64 bits.
strtoul_loop-value :
    (acc : ℕ) (cs : List ℕ) → acc ≤ ulong_max → strtoul_loop acc cs ≡ saturated (value acc cs)
unfolding strtoul_loop
strtoul_loop-value acc [] h = ground arith
strtoul_loop-value acc (c ∷ cs) h =
    let next = acc * 16 + hex_digit c in
    elim (Bool-cases (ltb ulong_max next)) [
      | inl large ↦
          let ih = strtoul_loop-value ulong_max cs (omega arith) in
          let a = value-grows ulong_max cs in
          let b = value-grows next cs in rw (strtoul_loop, large) (ih ∙ ground arith)
      | inr small ↦ rw (strtoul_loop, small) (strtoul_loop-value next cs (ground arith))
    ]

is_valid_digital_iff :
    (cs : List ℕ)
    → (is_valid_digital cs true ≡ true) ↔ All (λ c. is_valid_digital_char c true ≡ true) cs
unfolding is_valid_digital
is_valid_digital_iff [] = (λ h. tt, λ h. refl)
is_valid_digital_iff (c ∷ cs) = elim (Bool-cases (is_valid_digital_char c true)) [
  | inl good ↦ (
    λ h. (good, (is_valid_digital_iff cs).0 (sym (rw good refl) ∙ h)),
    λ h. rw good ((is_valid_digital_iff cs).1 h.1),
  )
  | inr bad ↦ (
    λ h. absurd (let e : false ≡ true = sym (rw bad refl) ∙ h in cc),
    λ h. absurd (let e : is_valid_digital_char c true ≡ true = h.0 in cc),
  )
]

-- `0x` or `0X` and one or more digits.
abbrev pub IsHexText : List ℕ → ℕ → List ℕ → Type 0
IsHexText s x ds =
    (s ≡ 48 ∷ x ∷ ds)
    × ((x ≡ 120) ⊎ (x ≡ 88))
    × (0 < length ds)
    × All (λ c. is_valid_digital_char c true ≡ true) ds

is_valid_hex_string-IsHexText :
    (s : List ℕ) → is_valid_hex_string s ≡ true → (x : ℕ) × (ds : List ℕ) × IsHexText s x ds
unfolding is_valid_hex_string
is_valid_hex_string-IsHexText [] h = absurd cc
is_valid_hex_string-IsHexText (a ∷ []) h = absurd cc
is_valid_hex_string-IsHexText (a ∷ b ∷ []) h = absurd cc
is_valid_hex_string-IsHexText (a ∷ b ∷ c ∷ cs) h =
    let zero_first : a ≡ 48 = ground arith in
    let x_second : (b ≡ 120) ⊎ (b ≡ 88) = ground arith in
    let digits : is_valid_digital (c ∷ cs) true ≡ true = ground arith in
    (
      b,
      c ∷ cs,
      (
        ap (λ n. n ∷ b ∷ c ∷ cs) zero_first,
        x_second,
        omega arith,
        (is_valid_digital_iff (c ∷ cs)).0 digits,
      ),
    )

IsHexText-is_valid_hex_string :
    (x : ℕ) (ds : List ℕ) → IsHexText (48 ∷ x ∷ ds) x ds → is_valid_hex_string (48 ∷ x ∷ ds) ≡ true
unfolding is_valid_hex_string
IsHexText-is_valid_hex_string x [] (e, second, some_digit, digits) = absurd (omega arith)
IsHexText-is_valid_hex_string x (c ∷ cs) (e, second, some_digit, digits) =
    let good : is_valid_digital (c ∷ cs) true ≡ true = (is_valid_digital_iff (c ∷ cs)).1 digits in
    ground arith

strtoul-saturated : (x : ℕ) (ds : List ℕ) → strtoul (48 ∷ x ∷ ds) ≡ saturated (value 0 ds)
unfolding strtoul
strtoul-saturated x ds = strtoul_loop-value 0 ds (omega arith)

-- With a largest value below 64 bits, the conversion gives a number exactly for the texts of
-- `0x` or `0X` and one or more hexadecimal digits that stand for it, and it is at most that value.
pub convert_hex_str_iff :
    (max : ℕ) (s : List ℕ) (n : ℕ)
    → max < 18446744073709551615
    → (convert_hex_str max (some s) ≡ some n)
      ↔ ((x : ℕ) × (ds : List ℕ) × IsHexText s x ds × (value 0 ds ≡ n) × (n ≤ max))
unfolding convert_hex_str
convert_hex_str_iff max s n small = (forward, backward)
  where
    forward :
        convert_hex_str max (some s) ≡ some n
        → (x : ℕ) × (ds : List ℕ) × IsHexText s x ds × (value 0 ds ≡ n) × (n ≤ max)
    forward h =
        let valid : is_valid_hex_string s ≡ true = ground arith in
        let fits : ltb max (strtoul s) ≡ false = ground arith in
        let same : strtoul s ≡ n =
          some-injective _ _ (sym (rw (convert_hex_str, valid, fits) refl) ∙ h) in
        let (x, ds, text) = is_valid_hex_string-IsHexText s valid in
        let number : strtoul s ≡ saturated (value 0 ds) =
          ap strtoul text.0 ∙ strtoul-saturated x ds in
        (x, ds, text, ground arith, ground arith)

    backward :
        (x : ℕ) × (ds : List ℕ) × IsHexText s x ds × (value 0 ds ≡ n) × (n ≤ max)
        → convert_hex_str max (some s) ≡ some n
    backward (x, ds, text, v, le) =
        let valid : is_valid_hex_string s ≡ true =
          rw (text.0) (IsHexText-is_valid_hex_string x ds (refl, text.1, text.2, text.3)) in
        let number : strtoul s ≡ n = ap strtoul text.0 ∙ strtoul-saturated x ds ∙ ground arith in
        let fits : ltb max (strtoul s) ≡ false = ground arith in
        rw (convert_hex_str, valid, fits) (ap some number)
