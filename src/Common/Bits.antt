-- ===== src/Common/Bits.antt =====
-- Bits of a byte, by evaluation at every byte.
use Prim.Native.Nat.{ℕ, zero, suc, ◌/◌, ◌%◌, ◌^◌, ◌<◌, bit_or}
use mathlib.Core.Path.{◌≡◌, refl}
use mathlib.Core.Logic.{inl, inr}
use mathlib.Core.Bool.{Bool, true, false}
use native.Mathlib.Omega.{arith}
use tee_io_validator.Common.Tests.{◌==◌, ==_iff, if◌then◌else◌, Bool-cases}

abbrev holds_to : (ℕ → Bool) → ℕ → Bool
holds_to test zero = true
holds_to test (suc top) = let lower = holds_to test top in if test top then lower else false

holds_to-at :
    (test : ℕ → Bool) (top : ℕ) {k : ℕ} → k < top → holds_to test top ≡ true → test k ≡ true
holds_to-at test zero inside h = absurd (omega arith)
holds_to-at test (suc top) {k} inside h = elim (Bool-cases (test top)) [
  | inr fails ↦ absurd (ground arith)
  | inl passes ↦
      let rest : holds_to test top ≡ true = ground arith in
      elim (Bool-cases (k == top)) [
        | inl last ↦ let e : k ≡ top = ground arith in rw e passes
        | inr before ↦ holds_to-at test top (ground arith) rest
      ]
]

-- Setting a bit of a byte.
abbrev set_test : ℕ → ℕ → ℕ → Bool
set_test k i m = bit_or (2 ^ k) m % 256 / 2 ^ i % 2 == (if k == i then 1 else m / 2 ^ i % 2)

set_table : holds_to (λ k. holds_to (λ i. holds_to (set_test k i) 256) 8) 8 ≡ true
set_table = refl

pub bit_or-set :
    (k i m : ℕ)
    → k < 8
    → i < 8
    → m < 256
    → bit_or (2 ^ k) m % 256 / 2 ^ i % 2 ≡ (if k == i then 1 else m / 2 ^ i % 2)
bit_or-set k i m hk hi hm =
    let rows = holds_to-at (λ k. holds_to (λ i. holds_to (set_test k i) 256) 8) 8 hk set_table in
    let row = holds_to-at (λ i. holds_to (set_test k i) 256) 8 hi rows in
    (==_iff _ _).0 (holds_to-at (set_test k i) 256 hm row)
