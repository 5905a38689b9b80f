-- ===== src/Kcbar/Slots/Alloc.antt =====
-- Which slots `pcie_ide_alloc_slot_ids` gives.
use Prim.Native.Nat.{bit_or}
use tee_io_validator.Common.{ℕ, ◌/◌, ◌%◌, ◌^◌, ◌<◌, Option, none, some, ◌≡◌}

abbrev marked : ℕ → Option ℕ → ℕ
marked usage_map none = usage_map
marked usage_map (some j) = bit_or (2 ^ j) usage_map % 256

module _ (streams : ℕ → Option ℕ) where
  -- The bits that are set are those of the streams before `i`.
  abbrev Marks : ℕ → ℕ → Type 0
  Marks m i =
      (m < 256)
      × ((j : ℕ) → j < 8 → m / 2 ^ j % 2 ≡ 1 → (s : ℕ) × (s < i) × (streams s ≡ some j))
      × ((j s : ℕ) → j < 8 → s < i → streams s ≡ some j → m / 2 ^ j % 2 ≡ 1)
