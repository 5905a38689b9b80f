-- ===== src/Doe/Exchange/Types.antt =====
-- The test of the data object types that a mailbox reports.
use tee_io_validator.Common.{
  ℕ, Bool, true, false, List, [], ◌∷◌, ◌≡◌, ◌≢◌, ◌⊎◌, inl, inr, refl, arith, ◌==◌, All, Bool-cases,
}
use tee_io_validator.Doe.Exchange.{has_type, types_loop}

abbrev pub Contains : List ℕ → ℕ → Type 0
Contains [] t = ⊥
Contains (x ∷ xs) t = (x ≡ t) ⊎ Contains xs t

has_type-Contains :
    (xs : List ℕ) (t : ℕ)
    → ((has_type xs t ≡ true) × Contains xs t) ⊎ ((has_type xs t ≡ false) × (¬ Contains xs t))
unfolding has_type
has_type-Contains [] t = inr (refl, λ h. h)
has_type-Contains (x ∷ xs) t = elim (Bool-cases (x == t)) [
  | inl same ↦ inl (rw same refl, inl (ground arith))
  | inr other ↦ elim (has_type-Contains xs t) [
    | inl (e, h) ↦ inl (rw (other, e) refl, inr h)
    | inr (e, h) ↦
        inr (
          rw (other, e) refl,
          λ c. elim c [ inl same ↦ absurd (ground arith) | inr later ↦ h later ],
        )
  ]
]

pub types_loop-Contains :
    (protocols ts : List ℕ)
    → ((types_loop protocols ts true ≡ true) × All (Contains protocols) ts)
      ⊎ ((types_loop protocols ts true ≡ false) × (¬ All (Contains protocols) ts))
unfolding types_loop
types_loop-Contains protocols [] = inl (refl, tt)
types_loop-Contains protocols (t ∷ ts) = elim (has_type-Contains protocols t) [
  | inr (e, h) ↦ inr (rw e refl, λ all. h all.0)
  | inl (e, h) ↦ elim (types_loop-Contains protocols ts) [
    | inl (e', all) ↦ inl (rw (e, e') refl, (h, all))
    | inr (e', not_all) ↦ inr (rw (e, e') refl, λ all. not_all all.1)
  ]
]

pub types_loop-found :
    (protocols ts : List ℕ) (found : Bool)
    → ts ≢ []
    → types_loop protocols ts found ≡ types_loop protocols ts true
unfolding types_loop
types_loop-found protocols [] found nonempty = absurd (nonempty refl)
types_loop-found protocols (t ∷ ts) found nonempty = refl
