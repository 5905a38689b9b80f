-- ===== src/Text/Tables.antt =====
-- Sums, largest values and powers of two in Text.
use tee_io_validator.Common.{
  ℕ, zero, suc, ◌+◌, ◌%◌, ◌≤◌, ◌<◌, List, [], ◌∷◌, some, ◌≡◌, ◌⊎◌, inl, inr, refl, sym, ap, arith,
  returns, All, sum_of, get_elem?, length, ltb, if◌then◌else◌, Bool-cases,
}
use tee_io_validator.Text.{checksum_loop, calculate_checksum, max_loop, get_max_from_uint32_array}

checksum_loop-sum :
    (s : ℕ) (xs : List ℕ) → s < 256 → checksum_loop s xs ≡ (s + sum_of (λ x. x) xs) % 256
unfolding checksum_loop
checksum_loop-sum s [] h = omega arith
checksum_loop-sum s (x ∷ xs) h = omega (arith, checksum_loop-sum ((s + x) % 256) xs (omega arith))

-- The checksum is the sum of all bytes in 8 bits, though the code wraps after each byte.
pub calculate_checksum-sum :
    (table : List ℕ) → calculate_checksum table ≡ sum_of (λ x. x) table % 256
unfolding calculate_checksum
calculate_checksum-sum table = omega (arith, checksum_loop-sum 0 table (omega arith))

max_loop-largest :
    (m : ℕ) (xs : List ℕ)
    → (m ≤ max_loop m xs)
      × All (λ x. x ≤ max_loop m xs) xs
      × ((max_loop m xs ≡ m) ⊎ ((i : ℕ) × (get_elem? xs i ≡ some (max_loop m xs))))
unfolding max_loop
max_loop-largest m [] = (omega arith, tt, inl refl)
max_loop-largest m (x ∷ xs) =
    let larger = if ltb m x then x else m in
    let (a, b, c) = max_loop-largest larger xs in
    (
      ground arith,
      (ground arith, b),
      elim c [
        | inl same ↦ elim (Bool-cases (ltb m x)) [
          | inl greater ↦ inr (zero, ap some (ground arith))
          | inr not_greater ↦ inl (ground arith)
        ]
        | inr (i, e) ↦ inr (suc i, e)
      ],
    )

-- Of an array with an element, the result is one of the elements and none is larger; an empty
-- array fails the assertion.
pub get_max_from_uint32_array-largest :
    (array : List ℕ)
    → 0 < length array
    → (m : ℕ) × (get_max_from_uint32_array array ≡ returns m)
      × All (λ x. x ≤ m) array
      × ((i : ℕ) × (get_elem? array i ≡ some m))
unfolding get_max_from_uint32_array
get_max_from_uint32_array-largest [] h = absurd (omega arith)
get_max_from_uint32_array-largest (x ∷ xs) h =
    let (a, b, c) = max_loop-largest x xs in
    (
      max_loop x xs,
      refl,
      (a, b),
      elim c [ inl same ↦ (zero, ap some (sym same)) | inr (i, e) ↦ (suc i, e) ],
    )
