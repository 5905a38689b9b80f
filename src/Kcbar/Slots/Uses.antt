-- ===== src/Kcbar/Slots/Uses.antt =====
-- Which slots the enabled streams use.
use mathlib.Core.Path.{subst}
use tee_io_validator.Common.{
  ℕ, ◌+◌, ◌*◌, ◌≤◌, ◌<◌, true, false, List, Option, none, some, ◌≡◌, ◌≢◌, ◌⊎◌, inl, inr, sym, ap,
  ◌∙◌, arith, returns, ◌==◌, Bool-cases, returns-injective,
}
use tee_io_validator.Kcbar.{
  mmio_read_reg32, en, pr, npr, cpl, Register, control, tx_ctrl, stream_register,
}
use tee_io_validator.Kcbar.Slots.{selected_key_set}

-- What the registers of a stream say: it is disabled, or it is enabled and its selected key set has
-- the three consecutive slots from `3 * j`.
abbrev pub StreamIs : List ℕ → ℕ → ℕ → Option ℕ → Type 0
StreamIs regs num s none =
    (c : ℕ) × (mmio_read_reg32 regs (stream_register s control) ≡ returns c) × ((en c == 0) ≡ true)
StreamIs regs num s (some j) =
    (c : ℕ) × (tx : ℕ) × (r : Register) × (ks : ℕ) × (mmio_read_reg32 regs
        (stream_register s control)
      ≡ returns c)
    × ((en c == 0) ≡ false)
    × (mmio_read_reg32 regs (stream_register s tx_ctrl) ≡ returns tx)
    × (selected_key_set tx ≡ returns r)
    × (mmio_read_reg32 regs (stream_register s r) ≡ returns ks)
    × (pr ks ≡ j * 3)
    × (npr ks ≡ j * 3 + 1)
    × (cpl ks ≡ j * 3 + 2)
    × (j * 3 + 2 < num)

-- An enabled stream whose selected key set has a slot for one of its sub-streams.
abbrev pub UsesSlot : List ℕ → ℕ → ℕ → Type 0
UsesSlot regs s slot =
    (c : ℕ) × (tx : ℕ) × (r : Register) × (ks : ℕ) × (mmio_read_reg32 regs
        (stream_register s control)
      ≡ returns c)
    × ((en c == 0) ≡ false)
    × (mmio_read_reg32 regs (stream_register s tx_ctrl) ≡ returns tx)
    × (selected_key_set tx ≡ returns r)
    × (mmio_read_reg32 regs (stream_register s r) ≡ returns ks)
    × ((pr ks ≡ slot) ⊎ (npr ks ≡ slot) ⊎ (cpl ks ≡ slot))

module _ (regs : List ℕ) (num s j slot : ℕ) where
  -- A configured stream uses its three slots and no others.
  pub StreamIs-UsesSlot :
      StreamIs regs num s (some j) → (j * 3 ≤ slot) → (slot ≤ j * 3 + 2) → UsesSlot regs s slot
  StreamIs-UsesSlot (c, tx, r, ks, e, on, e2, e3, e4, first, second, third, inside) low high =
      (c, tx, r, ks, e, on, e2, e3, e4, which)
    where
      which : (pr ks ≡ slot) ⊎ (npr ks ≡ slot) ⊎ (cpl ks ≡ slot)
      which = elim (Bool-cases (slot == j * 3)) [
        | inl a ↦ inl (ground arith)
        | inr a ↦ elim (Bool-cases (slot == j * 3 + 1)) [
          | inl b ↦ inr (inl (ground arith))
          | inr b ↦ inr (inr (ground arith))
        ]
      ]

  pub StreamIs-not_UsesSlot :
      (o : Option ℕ)
      → StreamIs regs num s o
      → o ≢ some j
      → j * 3 ≤ slot
      → slot ≤ j * 3 + 2
      → ¬ UsesSlot regs s slot
  StreamIs-not_UsesSlot none (c, e, off) other low high
        (c', tx, r, ks, e', on, rest1, rest2, rest3, rest4) =
      let same : c ≡ c' = returns-injective (sym e ∙ e') in
      let off' : (en c' == 0) ≡ true = subst (λ n. (en n == 0) ≡ true) same off in cc
  StreamIs-not_UsesSlot (some a) h other low high (c', tx', r', ks', e', on', e2', e3', e4', uses) =
      let (c, tx, r, ks, e, on, e2, e3, e4, first, second, third, inside) = h in
      let tx_same : tx ≡ tx' = returns-injective (sym e2 ∙ e2') in
      let r_same : r ≡ r' = returns-injective (sym e3 ∙ ap selected_key_set tx_same ∙ e3') in
      let ks_same : ks ≡ ks' =
        returns-injective
          (sym e4 ∙ ap (λ q. mmio_read_reg32 regs (stream_register s q)) r_same ∙ e4') in
      let apart : a ≢ j = λ same. other (ap some same) in
      let first' : pr ks' ≡ a * 3 = subst (λ n. pr n ≡ a * 3) ks_same first in
      let second' : npr ks' ≡ a * 3 + 1 = subst (λ n. npr n ≡ a * 3 + 1) ks_same second in
      let third' : cpl ks' ≡ a * 3 + 2 = subst (λ n. cpl n ≡ a * 3 + 2) ks_same third in
      elim uses [
        | inl u ↦ outside (a * 3) (sym first' ∙ u) (omega arith) (omega arith) apart
        | inr (inl u) ↦ outside (a * 3 + 1) (sym second' ∙ u) (omega arith) (omega arith) apart
        | inr (inr u) ↦ outside (a * 3 + 2) (sym third' ∙ u) (omega arith) (omega arith) apart
      ]
    where
      outside : (m : ℕ) → m ≡ slot → a * 3 ≤ m → m ≤ a * 3 + 2 → a ≢ j → ⊥
      outside m e l u apart = absurd (apart (omega (arith, low, high)))
