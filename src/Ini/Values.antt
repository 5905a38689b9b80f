-- ===== src/Ini/Values.antt =====
-- Every text of the form of a GUID is a name, so that the test for one decides nothing.
use tee_io_validator.Common.{
  ℕ, zero, suc, ◌+◌, ◌-◌, ◌≤◌, ◌<◌, Bool, true, false, ◌&&◌, List, [], ◌∷◌, ◌≡◌, inl, inr, refl, ap,
  ◌∙◌, arith, ltb, ◌==◌, if◌then◌else◌, length, take, drop, length-take, length-drop, Bool-cases,
}
use tee_io_validator.Text.{is_valid_digital_char, is_valid_digital}
use tee_io_validator.Ini.{
  is_valid_name_char, is_valid_name, byte_at, digits_at, is_valid_guid, is_valid_value,
}
use tee_io_validator.Ini.Lines.{byte_at-take}

digit-is_valid_name_char :
    (c : ℕ) → is_valid_digital_char c true ≡ true → is_valid_name_char c ≡ true
unfolding is_valid_digital_char is_valid_name_char
digit-is_valid_name_char c h = ground arith

digits-names :
    (cs : List ℕ)
    → is_valid_digital cs true ≡ true
    → (i : ℕ) → i < length cs
    → is_valid_name_char (byte_at cs i) ≡ true
unfolding is_valid_digital
digits-names [] h i lt = absurd (omega arith)
digits-names (c ∷ cs) h i lt = elim (Bool-cases (is_valid_digital_char c true)) [
  | inr bad ↦ let h' = rw (is_valid_digital, bad) at h in cc
  | inl good ↦
      let rest = digits-names cs (rw (is_valid_digital, good) at h) in
      at_each i lt (digit-is_valid_name_char c good) rest
]
  where
    at_each :
        (i : ℕ)
        → i < suc (length cs)
        → is_valid_name_char c ≡ true
        → ((j : ℕ) → j < length cs → is_valid_name_char (byte_at cs j) ≡ true)
        → is_valid_name_char (byte_at (c ∷ cs) i) ≡ true
    at_each zero lt here rest = here
    at_each (suc i) lt here rest = rest i (omega arith)

names-is_valid_name :
    (cs : List ℕ)
    → ((i : ℕ) → i < length cs → is_valid_name_char (byte_at cs i) ≡ true)
    → is_valid_name cs ≡ true
unfolding is_valid_name
names-is_valid_name [] h = refl
names-is_valid_name (c ∷ cs) h =
    let first = h zero (omega arith) in
    let rest = names-is_valid_name cs (λ i lt. h (suc i) (omega arith)) in
    rw (is_valid_name, first) rest

byte_at-drop : (n : ℕ) (xs : List ℕ) (i : ℕ) → byte_at (drop n xs) i ≡ byte_at xs (n + i)
byte_at-drop zero xs i = let e : 0 + i ≡ i = omega arith in rw e refl
byte_at-drop (suc n) [] i = refl
byte_at-drop (suc n) (x ∷ xs) i =
    let e : suc n + i ≡ suc (n + i) = omega arith in rw e (byte_at-drop n xs i)

-- A field of digits.
field-names :
    (value : List ℕ) (start count : ℕ)
    → start + count ≤ length value
    → digits_at value start count ≡ true
    → (i : ℕ) → start ≤ i
    → i < start + count
    → is_valid_name_char (byte_at value i) ≡ true
field-names value start count inside h i from to =
    let l = length-take count (drop start value) in
    let l' = length-drop start value in
    let k = i - start in
    let name =
      digits-names (take count (drop start value)) h k (omega (arith, l, l', from, to, inside)) in
    let e : start + k ≡ i = omega (arith, from) in
    let place =
      byte_at-take count (drop start value) k (omega (arith, from, to))
      ∙ byte_at-drop start value k
      ∙ ap (byte_at value) e in
    rw (← place) name

hyphen : (c : ℕ) → (c == 45) ≡ true → is_valid_name_char c ≡ true
unfolding is_valid_name_char
hyphen c h = ground arith

and-both : (a b : Bool) → (a && b) ≡ true → (a ≡ true) × (b ≡ true)
and-both true b h = (refl, h)
and-both false b h = cc

if-both : (a b : Bool) → (if a then b else false) ≡ true → (a ≡ true) × (b ≡ true)
if-both true b h = (refl, h)
if-both false b h = cc

-- One field of `count` places from `start`, and what is behind it.
field_then :
    (P : ℕ → Type 0) (i start count : ℕ)
    → start ≤ i
    → (start ≤ i → i < start + count → P i)
    → (start + count ≤ i → P i)
    → P i
field_then P i start count from here behind = elim (Bool-cases (ltb i (start + count))) [
  | inl inside ↦ here from (ground arith)
  | inr outside ↦ behind (ground arith)
]

hyphen_at :
    (value : List ℕ) (k : ℕ)
    → (byte_at value k == 45) ≡ true
    → (i : ℕ) → k ≤ i
    → i < k + 1
    → is_valid_name_char (byte_at value i) ≡ true
hyphen_at value k h i from to =
    let e : i ≡ k = omega (arith, from, to) in rw e (hyphen (byte_at value k) h)

guid-is_valid_name : (value : List ℕ) → is_valid_guid value ≡ true → is_valid_name value ≡ true
unfolding is_valid_guid
guid-is_valid_name value h =
    let (size, rest) = if-both (length value == 36) _ h in
    let l : length value ≡ 36 = ground arith in
    let (hyphens, digits) = if-both _ _ rest in
    let (h1, hs1) = and-both (byte_at value 8 == 45) _ hyphens in
    let (h2, hs2) = and-both (byte_at value 13 == 45) _ hs1 in
    let (h3, h4) = and-both (byte_at value 18 == 45) _ hs2 in
    let (d1, ds1) = and-both (digits_at value 0 8) _ digits in
    let (d2, ds2) = and-both (digits_at value 9 4) _ ds1 in
    let (d3, ds3) = and-both (digits_at value 14 4) _ ds2 in
    let (d4, d5) = and-both (digits_at value 19 4) _ ds3 in
    let P = λ (i : ℕ). is_valid_name_char (byte_at value i) ≡ true in
    names-is_valid_name value λ i lt.
      field_then P i 0 8 (omega arith) (field-names value 0 8 (omega (arith, l)) d1 i) λ b.
        field_then P i 8 1 b (hyphen_at value 8 h1 i) λ b.
          field_then P i 9 4 b (field-names value 9 4 (omega (arith, l)) d2 i) λ b.
            field_then P i 13 1 b (hyphen_at value 13 h2 i) λ b.
              field_then P i 14 4 b (field-names value 14 4 (omega (arith, l)) d3 i) λ b.
                field_then P i 18 1 b (hyphen_at value 18 h3 i) λ b.
                  field_then P i 19 4 b (field-names value 19 4 (omega (arith, l)) d4 i) λ b.
                    field_then P i 23 1 b (hyphen_at value 23 h4 i) λ b.
                      field_then P i 24 12 b (field-names value 24 12 (omega (arith, l)) d5 i)
                        λ b. absurd (omega (arith, l, lt, b))

-- A value is valid exactly if it is a valid name: the form of a GUID allows no other values.
pub is_valid_value-is_valid_name : (value : List ℕ) → is_valid_value value ≡ is_valid_name value
unfolding is_valid_value
is_valid_value-is_valid_name value = elim (Bool-cases (is_valid_name value)) [
  | inl name ↦ rw (is_valid_value, name) refl
  | inr other ↦ elim (Bool-cases (is_valid_guid value)) [
    | inl guid ↦ let e = guid-is_valid_name value guid in absurd cc
    | inr no_guid ↦ rw (is_valid_value, other, no_guid) refl
  ]
]
