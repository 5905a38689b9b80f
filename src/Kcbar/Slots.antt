-- ===== src/Kcbar/Slots.antt =====
-- `pcie_ide_alloc_slot_ids` of teeio-validator/library/pcie_ide_lib/pcie_ide.c. The port is a
-- root port, as every caller passes one.
pub mod Alloc
pub mod Uses
use Prim.Native.Nat.{bit_or}
use tee_io_validator.Common.{
  ℕ, zero, suc, ◌+◌, ◌*◌, ◌/◌, ◌%◌, ◌^◌, Bool, true, false, List, Outcome, returns, asserts, ◌>>=◌,
  teeio_assert, ltb, ◌==◌, if◌then◌else◌,
}
use tee_io_validator.Kcbar.{
  mmio_read_reg32, num_stream_supported, num_tx_key_slots, en, key_set_select, pr, npr, cpl,
  Register, control, tx_ctrl, tx_key_set_0, tx_key_set_1, stream_register,
}

-- `ide_key_set_t`: the slots of the sub-streams of one direction, and both directions.
pub record SlotIds : Type 0 where
  pub pr_slot : ℕ
  pub npr_slot : ℕ
  pub cpl_slot : ℕ

pub record IdeKeySet : Type 0 where
  pub rx : SlotIds
  pub tx : SlotIds

-- `keyset_ptr`.
unfoldable pub selected_key_set : ℕ → Outcome Register
selected_key_set tx =
    if key_set_select tx == 1
    then returns tx_key_set_0
    else (if key_set_select tx == 2 then returns tx_key_set_1 else asserts)

-- The body of the loop over the streams; the map is a uint8_t.
unfoldable pub used_slots : List ℕ → ℕ → ℕ → ℕ → Outcome ℕ
used_slots regs num_key_iv_slots i usage_map =
    mmio_read_reg32 regs (stream_register i control) >>= λ stream_ctrl. elim (en stream_ctrl == 0) [
      | true ↦ returns usage_map
      | false ↦ mmio_read_reg32 regs (stream_register i tx_ctrl) >>= λ tx.
          selected_key_set tx >>= λ r. mmio_read_reg32 regs (stream_register i r) >>= λ keyset.
          teeio_assert (ltb (pr keyset) num_key_iv_slots) >>= λ _.
          teeio_assert (pr keyset % 3 == 0) >>= λ _.
          teeio_assert (ltb (npr keyset) num_key_iv_slots) >>= λ _.
          teeio_assert (ltb (cpl keyset) num_key_iv_slots) >>= λ _.
          returns (bit_or (2 ^ (pr keyset / 3)) usage_map % 256)
    ]

unfoldable pub used_slots_loop : List ℕ → ℕ → ℕ → ℕ → ℕ → Outcome ℕ
used_slots_loop regs num_key_iv_slots zero i usage_map = returns usage_map
used_slots_loop regs num_key_iv_slots (suc left) i usage_map =
    used_slots regs num_key_iv_slots i usage_map >>= λ usage_map'.
    used_slots_loop regs num_key_iv_slots left (i + 1) usage_map'

-- The three consecutive slots from `3 * i`.
abbrev pub slots_from : ℕ → SlotIds
slots_from i = record { pr_slot = i * 3; npr_slot = i * 3 + 1; cpl_slot = i * 3 + 2 }

-- The loop over the slots.
unfoldable pub find_free_slot : ℕ → ℕ → ℕ → IdeKeySet → Bool × IdeKeySet
find_free_slot usage_map zero i k_set = (false, k_set)
find_free_slot usage_map (suc left) i k_set =
    let rest = find_free_slot usage_map left (i + 1) k_set in
    if usage_map / 2 ^ i % 2 == 0
    then (true, record { rx = slots_from i; tx = slots_from i })
    else rest

unfoldable pub pcie_ide_alloc_slot_ids : List ℕ → IdeKeySet → Outcome (Bool × IdeKeySet)
pcie_ide_alloc_slot_ids regs k_set = mmio_read_reg32 regs 0 >>= λ cap.
    let num_key_iv_slots = num_tx_key_slots cap + 1 in
    teeio_assert (num_key_iv_slots % 3 == 0) >>= λ _.
    if ltb 24 num_key_iv_slots
    then returns (false, k_set)
    else (used_slots_loop regs num_key_iv_slots (num_stream_supported cap + 1) 0 0 >>= λ usage_map.
        returns (find_free_slot usage_map (num_key_iv_slots / 3) 0 k_set))
