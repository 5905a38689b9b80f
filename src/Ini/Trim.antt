-- ===== src/Ini/Trim.antt =====
-- `ProfileTrim` takes away exactly the blanks at both ends.
use tee_io_validator.Common.{
  ℕ, zero, suc, ◌-◌, ◌≤◌, ◌<◌, true, false, List, [], ◌∷◌, ◌≡◌, ◌⊎◌, inl, inr, refl, sym, ap, ◌∙◌,
  arith, ltb, ◌==◌, length, take, drop, length-take, Bool-cases,
}
use tee_io_validator.Ini.{byte_at, is_blank, tail_loop, head_loop, profile_trim}
use tee_io_validator.Ini.Lines.{byte_at-take}

tail_loop-at :
    (buffer : List ℕ) (n : ℕ)
    → (tail_loop buffer n ≤ n)
      × ((i : ℕ) → tail_loop buffer n ≤ i → i < n → is_blank (byte_at buffer i) ≡ true)
      × (0 < tail_loop buffer n → is_blank (byte_at buffer (tail_loop buffer n - 1)) ≡ false)
unfolding tail_loop
tail_loop-at buffer zero =
    (omega arith, (λ i a b. absurd (omega arith)), (λ p. absurd (omega arith)))
tail_loop-at buffer (suc n) =
    let (le, blanks, last) = tail_loop-at buffer n in
    elim (Bool-cases (is_blank (byte_at buffer n))) [
      | inr kept ↦
          let e : suc n - 1 ≡ n = omega arith in
          rw (tail_loop, kept)
            (omega arith, (λ i a b. absurd (omega (arith, a, b))), (λ p. rw e kept))
      | inl blank ↦
          rw (tail_loop, blank)
            (
              omega (arith, le),
              (λ i a b. elim (Bool-cases (i == n)) [
                | inl here ↦ let e : i ≡ n = ground arith in rw e blank
                | inr before ↦ blanks i a (ground arith)
              ]),
              last,
            )
    ]

head_loop-at :
    (xs : List ℕ)
    → (head_loop xs ≤ length xs)
      × ((i : ℕ) → i < head_loop xs → is_blank (byte_at xs i) ≡ true)
      × (head_loop xs < length xs → is_blank (byte_at xs (head_loop xs)) ≡ false)
unfolding head_loop
head_loop-at [] = (omega arith, (λ i a. absurd (omega arith)), (λ p. absurd (omega arith)))
head_loop-at (c ∷ cs) =
    let (le, blanks, first) = head_loop-at cs in
    elim (Bool-cases (is_blank c)) [
      | inr kept ↦ rw (head_loop, kept) (omega arith, (λ i a. absurd (omega arith)), (λ p. kept))
      | inl blank ↦
          rw (head_loop, blank)
            (omega (arith, le), more c cs blank blanks, (λ p. first (omega arith)))
    ]
  where
    more :
        (c : ℕ) (cs : List ℕ)
        → is_blank c ≡ true
        → ((i : ℕ) → i < head_loop cs → is_blank (byte_at cs i) ≡ true)
        → (i : ℕ) → i < suc (head_loop cs)
        → is_blank (byte_at (c ∷ cs) i) ≡ true
    more c cs blank blanks zero a = blank
    more c cs blank blanks (suc i) a = blanks i (omega arith)

-- What is left of a buffer is the part from one place to another. All bytes before and behind are
-- blanks, and the part begins and ends with bytes that are not, or there are only blanks and
-- nothing is left.
pub profile_trim-blanks :
    (buffer : List ℕ)
    → (from : ℕ) × (to : ℕ) × (profile_trim buffer ≡ drop from (take to buffer))
      × (to ≤ length buffer)
      × ((i : ℕ) → i < from → is_blank (byte_at buffer i) ≡ true)
      × ((i : ℕ) → to ≤ i → i < length buffer → is_blank (byte_at buffer i) ≡ true)
      × ((to ≡ 0)
          ⊎ ((from < to)
              × (is_blank (byte_at buffer from) ≡ false)
              × (is_blank (byte_at buffer (to - 1)) ≡ false)))
unfolding profile_trim
profile_trim-blanks buffer =
    let to = tail_loop buffer (length buffer) in
    let kept = take to buffer in
    let from = head_loop kept in
    let (le, behind, last) = tail_loop-at buffer (length buffer) in
    let (le', before, first) = head_loop-at kept in
    let size : length kept ≡ to = length-take to buffer ∙ omega (arith, le) in
    let same = byte_at-take to buffer in
    (
      from,
      to,
      refl,
      le,
      λ i a. rw (← same i (omega (arith, a, le', size))) (before i a),
      behind,
      elim (Bool-cases (to == 0)) [
        | inl none_left ↦ inl (ground arith)
        | inr some_left ↦
            let pos : 0 < to = ground arith in
            let end = last pos in
            let lt : from < to = elim (Bool-cases (ltb from to)) [
              | inl less ↦ ground arith
              | inr all ↦
                  let at_end : is_blank (byte_at kept (to - 1)) ≡ true =
                    before (to - 1) (ground (arith, size, le', pos)) in
                  let kept_end =
                    sym at_end ∙ ap (λ c. is_blank c) (same (to - 1) (omega (arith, pos))) ∙ end in
                  absurd cc
            ] in
            inr (lt, rw (← same from lt) (first (omega (arith, lt, size))), end)
      ],
    )
