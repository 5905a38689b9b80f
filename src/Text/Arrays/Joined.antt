-- ===== src/Text/Arrays/Joined.antt =====
-- Numbers that are joined by commas.
use mathlib.Core.List.{map, ◌++◌}
use tee_io_validator.Common.{
  ℕ, suc, ◌+◌, ◌-◌, ◌*◌, ◌≤◌, true, false, List, [], ◌∷◌, Option, none, some, ◌≡◌, ◌≢◌, refl, ap,
  ◌∙◌, arith, All, length, ltb, ◌==◌,
}
use tee_io_validator.Text.{is_valid_digital_char, is_valid_digital, is_valid_decimal_string}
use tee_io_validator.Text.Arrays.{
  decimal_loop, add_char, pieces, not_empty, tokens, full, array_loop, get_uint32_array_from_string,
}

abbrev pub decimal_value : ℕ → List ℕ → ℕ
decimal_value acc [] = acc
decimal_value acc (c ∷ cs) = decimal_value (acc * 10 + (c - 48)) cs

abbrev pub IsDigit : ℕ → Type 0
IsDigit c = is_valid_digital_char c false ≡ true

-- One or more decimal digits, whose value is a uint32_t.
abbrev pub IsNumber : List ℕ → Type 0
IsNumber t = (t ≢ []) × All IsDigit t × (decimal_value 0 t ≤ 4294967295)

abbrev pub join : List (List ℕ) → List ℕ
join [] = []
join (t ∷ []) = t
join (t ∷ u ∷ ts) = t ++ (44 ∷ join (u ∷ ts))

decimal_value-grows : (acc : ℕ) (cs : List ℕ) → acc ≤ decimal_value acc cs
decimal_value-grows acc [] = omega arith
decimal_value-grows acc (c ∷ cs) = omega (arith, decimal_value-grows (acc * 10 + (c - 48)) cs)

decimal_loop-decimal_value :
    (acc : ℕ) (cs : List ℕ)
    → decimal_value acc cs ≤ 4294967295
    → decimal_loop acc cs ≡ decimal_value acc cs
unfolding decimal_loop
decimal_loop-decimal_value acc [] h = refl
decimal_loop-decimal_value acc (c ∷ cs) h =
    let grows = decimal_value-grows (acc * 10 + (c - 48)) cs in
    let small : ltb 18446744073709551615 (acc * 10 + (c - 48)) ≡ false = ground arith in
    rw (decimal_loop, small) (decimal_loop-decimal_value (acc * 10 + (c - 48)) cs h)

digits_valid : (t : List ℕ) → All IsDigit t → is_valid_digital t false ≡ true
unfolding is_valid_digital
digits_valid [] h = refl
digits_valid (c ∷ cs) h = let d = h.0 in rw d (digits_valid cs h.1)

not_comma : (c : ℕ) → IsDigit c → (c == 44) ≡ false
unfolding is_valid_digital_char
not_comma c h = ground arith

pieces-last : (t : List ℕ) → All IsDigit t → pieces t ≡ t ∷ []
unfolding pieces add_char
pieces-last [] h = refl
pieces-last (c ∷ cs) h =
    let e = not_comma c h.0 in let ih = pieces-last cs h.1 in rw (e, ih, add_char) refl

pieces-comma : (t rest : List ℕ) → All IsDigit t → pieces (t ++ (44 ∷ rest)) ≡ t ∷ pieces rest
unfolding pieces add_char
pieces-comma [] rest h = refl
pieces-comma (c ∷ cs) rest h =
    let e = not_comma c h.0 in let ih = pieces-comma cs rest h.1 in rw (e, ih, add_char) refl

pieces-join :
    (t : List ℕ) (ts : List (List ℕ)) → All IsNumber (t ∷ ts) → pieces (join (t ∷ ts)) ≡ t ∷ ts
pieces-join t [] h = pieces-last t (h.0).1
pieces-join t (u ∷ ts) h =
    pieces-comma t (join (u ∷ ts)) (h.0).1 ∙ ap (λ r. t ∷ r) (pieces-join u ts h.1)

not_empty-All : (ts : List (List ℕ)) → All IsNumber ts → not_empty ts ≡ ts
unfolding not_empty
not_empty-All [] h = refl
not_empty-All ([] ∷ ts) h = absurd ((h.0).0 refl)
not_empty-All ((c ∷ cs) ∷ ts) h = ap (λ r. (c ∷ cs) ∷ r) (not_empty-All ts h.1)

abbrev pub Fits : Option ℕ → ℕ → Type 0
Fits none n = Unit
Fits (some array_size) n = n ≤ array_size

not_full :
    (room : Option ℕ) (count more : ℕ) → Fits room (count + suc more) → full room count ≡ false
unfolding full
not_full none count more h = refl
not_full (some array_size) count more h = ground arith

Fits-next :
    (room : Option ℕ) (count more : ℕ) → Fits room (count + suc more) → Fits room (count + 1 + more)
Fits-next none count more h = h
Fits-next (some array_size) count more h = omega arith

Fits-start : (room : Option ℕ) (n : ℕ) → Fits room n → Fits room (0 + n)
Fits-start none n h = h
Fits-start (some array_size) n h = omega arith

join-not_nil : (c : ℕ) (cs : List ℕ) (ts : List (List ℕ)) → join ((c ∷ cs) ∷ ts) ≢ []
join-not_nil c cs [] = λ e. absurd cc
join-not_nil c cs (u ∷ ts) = λ e. absurd cc

array_loop-values :
    (room : Option ℕ) (count : ℕ) (ts : List (List ℕ))
    → All IsNumber ts
    → Fits room (count + length ts)
    → array_loop room count ts true ≡ (true, map (decimal_value 0) ts)
unfolding array_loop is_valid_decimal_string
array_loop-values room count [] h fits = refl
array_loop-values room count (t ∷ ts) h fits =
    let valid : is_valid_decimal_string t ≡ true = digits_valid t (h.0).1 in
    let e = decimal_loop-decimal_value 0 t (h.0).2 in
    let small : ltb 4294967295 (decimal_value 0 t) ≡ false = let le = (h.0).2 in ground arith in
    let space = not_full room count (length ts) fits in
    let ih = array_loop-values room (count + 1) ts h.1 (Fits-next room count (length ts) fits) in
    rw (array_loop, valid, e, small, space, ih) refl

array_loop-found :
    (room : Option ℕ) (count : ℕ) (t : List ℕ) (ts : List (List ℕ))
    → array_loop room count (t ∷ ts) false ≡ array_loop room count (t ∷ ts) true
unfolding array_loop
array_loop-found room count t ts = refl

-- Texts of decimal digits, with values of 32 bits, that are joined by commas are read as their
-- values in order, if the array has room for them or is NULL.
pub get_uint32_array_from_string-join :
    (room : Option ℕ) (t : List ℕ) (ts : List (List ℕ))
    → All IsNumber (t ∷ ts)
    → Fits room (length (t ∷ ts))
    → get_uint32_array_from_string room (join (t ∷ ts)) ≡ (true, map (decimal_value 0) (t ∷ ts))
unfolding get_uint32_array_from_string tokens
get_uint32_array_from_string-join room [] ts h fits = absurd ((h.0).0 refl)
get_uint32_array_from_string-join room (c ∷ cs) ts h fits =
    read (join ((c ∷ cs) ∷ ts)) (join-not_nil c cs ts)
    ∙ ap (λ ps. array_loop room 0 (not_empty ps) false) (pieces-join (c ∷ cs) ts h)
    ∙ ap (λ ps. array_loop room 0 ps false) (not_empty-All ((c ∷ cs) ∷ ts) h)
    ∙ array_loop-found room 0 (c ∷ cs) ts
    ∙ array_loop-values room 0 ((c ∷ cs) ∷ ts) h (Fits-start room (length ((c ∷ cs) ∷ ts)) fits)
  where
    read :
        (s : List ℕ)
        → s ≢ []
        → get_uint32_array_from_string room s ≡ array_loop room 0 (tokens s) false
    read [] nonempty = absurd (nonempty refl)
    read (x ∷ xs) nonempty = refl
