-- ===== src/Device/Bdf.antt =====
-- `is_valid_bdf`, `is_valid_dev_func` and `parse_bdf_string`, on texts like 0001:2a:00.0.
use tee_io_validator.Common.{
  ℕ, ◌+◌, ◌*◌, ◌/◌, ◌%◌, ◌<◌, ◌≤◌, Bool, true, false, ◌&&◌, List, [], ◌∷◌, Option, none, some, ◌≡◌,
  refl, ◌∙◌, arith, ltb, ◌==◌, if◌then◌else◌, length, get_elem?, take, drop,
}
use tee_io_validator.Text.{is_valid_digital_char, is_valid_digital, hex_digit}
use tee_io_validator.Text.Hex.{value}

-- `isxdigit` of a byte of a text; behind the end is the NUL.
abbrev pub isxdigit_at : List ℕ → ℕ → Bool
isxdigit_at s i = elim (get_elem? s i) [ none ↦ false | some c ↦ is_valid_digital_char c true ]

abbrev pub char_at : List ℕ → ℕ → ℕ → Bool
char_at s i c = elim (get_elem? s i) [ none ↦ false | some x ↦ x == c ]

-- BDF_LENGTH is 13 and DF_LENGTH is 5, with the NUL.
unfoldable pub is_valid_bdf : List ℕ → Bool
is_valid_bdf bdf =
    ((length bdf == 12) && (char_at bdf 4 58 && (char_at bdf 7 58 && char_at bdf 10 46)))
    && (isxdigit_at bdf 0
        && (isxdigit_at bdf 1
            && (isxdigit_at bdf 2
                && (isxdigit_at bdf 3
                    && (isxdigit_at bdf 5
                        && (isxdigit_at bdf 6
                            && (isxdigit_at bdf 8
                                && (isxdigit_at bdf 9 && isxdigit_at bdf 11))))))))

unfoldable pub is_valid_dev_func : List ℕ → Bool
is_valid_dev_func df =
    ((length df == 4) && char_at df 2 46)
    && (isxdigit_at df 0 && (isxdigit_at df 1 && isxdigit_at df 3))

-- The segment, bus, device and function.
pub record Bdf : Type 0 where
  pub segment : ℕ
  pub bus : ℕ
  pub device : ℕ
  pub function : ℕ

-- The first byte of a part of the text that is not the NUL it was cut with.
unfoldable pub part : List ℕ → ℕ → ℕ → List ℕ
part bdf start count = take count (drop start bdf)

-- `sscanf(s, "%x", &res)` of the C library gives the new value of `res`, of 32 bits, from the text
-- and the old one.
module _ (sscanf_x : List ℕ → ℕ → ℕ) where
  unfoldable pub parse_bdf_string : List ℕ → Option Bdf
  parse_bdf_string bdf =
      if length bdf == 12
      then (let r1 = sscanf_x (part bdf 0 4) 0 in
          let r2 = sscanf_x (part bdf 5 2) r1 in
          let r3 = sscanf_x (part bdf 8 2) r2 in
          let r4 = sscanf_x (part bdf 11 1) r3 in
          some (record {
            segment = r1 % 65536;
            bus = r2 % 256;
            device = r3 % 256;
            function = r4 % 256;
          }))
      else none

-- A digit as `printf` writes it, and a text of the form %04x:%02x:%02x.%x.
abbrev pub digit : ℕ → ℕ
digit n = if ltb n 10 then n + 48 else n + 87

abbrev pub print_bdf : Bdf → List ℕ
print_bdf b =
    digit (b.segment / 4096)
    ∷ digit (b.segment / 256 % 16)
    ∷ digit (b.segment / 16 % 16)
    ∷ digit (b.segment % 16)
    ∷ 58
    ∷ digit (b.bus / 16)
    ∷ digit (b.bus % 16)
    ∷ 58
    ∷ digit (b.device / 16)
    ∷ digit (b.device % 16)
    ∷ 46
    ∷ digit b.function
    ∷ []

-- What `sscanf` reads from hexadecimal digits.
abbrev pub ReadsDigits : (List ℕ → ℕ → ℕ) → Type 0
ReadsDigits sscanf_x =
    (s : List ℕ) (old : ℕ)
    → 0 < length s
    → length s ≤ 8
    → is_valid_digital s true ≡ true
    → sscanf_x s old ≡ value 0 s

digit-is_valid : (n : ℕ) → n < 16 → is_valid_digital_char (digit n) true ≡ true
unfolding is_valid_digital_char
digit-is_valid n h = ground arith

hex_digit-digit : (n : ℕ) → n < 16 → hex_digit (digit n) ≡ n
unfolding hex_digit
hex_digit-digit n h = ground arith

digits_1 :
    (a : ℕ) → a < 16 → (is_valid_digital (digit a ∷ []) true ≡ true) × (value 0 (digit a ∷ []) ≡ a)
unfolding is_valid_digital
digits_1 a ha =
    (rw (is_valid_digital, digit-is_valid a ha) refl, omega (arith, hex_digit-digit a ha))

digits_2 :
    (a b : ℕ)
    → a < 16
    → b < 16
    → (is_valid_digital (digit a ∷ digit b ∷ []) true ≡ true)
      × (value 0 (digit a ∷ digit b ∷ []) ≡ a * 16 + b)
unfolding is_valid_digital
digits_2 a b ha hb = (
  rw (is_valid_digital, digit-is_valid a ha, digit-is_valid b hb) refl,
  omega (arith, hex_digit-digit a ha, hex_digit-digit b hb),
)

digits_4 :
    (a b c d : ℕ)
    → a < 16
    → b < 16
    → c < 16
    → d < 16
    → (is_valid_digital (digit a ∷ digit b ∷ digit c ∷ digit d ∷ []) true ≡ true)
      × (value 0 (digit a ∷ digit b ∷ digit c ∷ digit d ∷ []) ≡ ((a * 16 + b) * 16 + c) * 16 + d)
unfolding is_valid_digital
digits_4 a b c d ha hb hc hd = (
  rw
      (
        is_valid_digital,
        digit-is_valid a ha,
        digit-is_valid b hb,
        digit-is_valid c hc,
        digit-is_valid d hd,
      )
      refl,
  omega (
    arith,
    hex_digit-digit a ha,
    hex_digit-digit b hb,
    hex_digit-digit c hc,
    hex_digit-digit d hd,
  ),
)

abbrev digits_of_segment : Bdf → List ℕ
digits_of_segment b =
    digit (b.segment / 4096)
    ∷ digit (b.segment / 256 % 16)
    ∷ digit (b.segment / 16 % 16)
    ∷ digit (b.segment % 16)
    ∷ []

-- A segment of sixteen bits, a bus and a device of eight and a function of four that are printed
-- like 0001:2a:00.0 give a text that is valid and is parsed to the same numbers, if sscanf reads
-- hexadecimal digits as the number they stand for.
pub parse_bdf_string-print_bdf :
    (sscanf_x : List ℕ → ℕ → ℕ) (b : Bdf)
    → ReadsDigits sscanf_x
    → b.segment < 65536
    → b.bus < 256
    → b.device < 256
    → b.function < 16
    → (is_valid_bdf (print_bdf b) ≡ true) × (parse_bdf_string sscanf_x (print_bdf b) ≡ some b)
unfolding is_valid_bdf parse_bdf_string part
parse_bdf_string-print_bdf sscanf_x b reads hs hb hd hf =
    let (v1, n1) =
      digits_4 (b.segment / 4096) (b.segment / 256 % 16) (b.segment / 16 % 16) (b.segment % 16)
        (omega arith) (omega arith) (omega arith) (omega arith) in
    let (v2, n2) = digits_2 (b.bus / 16) (b.bus % 16) (omega arith) (omega arith) in
    let (v3, n3) = digits_2 (b.device / 16) (b.device % 16) (omega arith) (omega arith) in
    let (v4, n4) = digits_1 b.function hf in
    let e1 : sscanf_x (digits_of_segment b) 0 ≡ b.segment =
      reads (digits_of_segment b) 0 (omega arith) (omega arith) v1 ∙ n1 ∙ omega arith in
    let e2 : sscanf_x (digit (b.bus / 16) ∷ digit (b.bus % 16) ∷ []) b.segment ≡ b.bus =
      reads (digit (b.bus / 16) ∷ digit (b.bus % 16) ∷ []) b.segment (omega arith) (omega arith) v2
      ∙ n2
      ∙ omega arith in
    let e3 : sscanf_x (digit (b.device / 16) ∷ digit (b.device % 16) ∷ []) b.bus ≡ b.device =
      reads (digit (b.device / 16) ∷ digit (b.device % 16) ∷ []) b.bus (omega arith) (omega arith)
        v3
      ∙ n3
      ∙ omega arith in
    let e4 : sscanf_x (digit b.function ∷ []) b.device ≡ b.function =
      reads (digit b.function ∷ []) b.device (omega arith) (omega arith) v4 ∙ n4 in
    let m1 : b.segment % 65536 ≡ b.segment = omega arith in
    let m2 : b.bus % 256 ≡ b.bus = omega arith in
    let m3 : b.device % 256 ≡ b.device = omega arith in
    let m4 : b.function % 256 ≡ b.function = omega arith in
    (
      rw
          (
            digit-is_valid (b.segment / 4096) (omega arith),
            digit-is_valid (b.segment / 256 % 16) (omega arith),
            digit-is_valid (b.segment / 16 % 16) (omega arith),
            digit-is_valid (b.segment % 16) (omega arith),
            digit-is_valid (b.bus / 16) (omega arith),
            digit-is_valid (b.bus % 16) (omega arith),
            digit-is_valid (b.device / 16) (omega arith),
            digit-is_valid (b.device % 16) (omega arith),
            digit-is_valid b.function hf,
          )
          refl,
      rw (parse_bdf_string, e1, e2, e3, e4, m1, m2, m3, m4) refl,
    )
