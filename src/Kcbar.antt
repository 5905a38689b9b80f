-- ===== src/Kcbar.antt =====
-- teeio-validator/library/pcie_ide_lib/intel_rp_pcie.c: the key configuration registers of an
-- Intel root complex, with the register access of library/helperlib/pcie_helper.c and the
-- layouts of include/intel_keyp.h. The mapped region is its dwords; a register keeps what is
-- written, and access outside the region is undefined. Log lines are left out.
pub mod Slots
pub mod Layout
pub mod Switch
use tee_io_validator.Common.{
  ℕ, zero, suc, ◌+◌, ◌-◌, ◌*◌, ◌/◌, ◌%◌, Bool, true, false, not, List, [], ◌∷◌, none, some, Outcome,
  returns, asserts, faults, ◌>>=◌, teeio_assert, ltb, ◌==◌, if◌then◌else◌, length, get_elem?,
  modify,
}

unfoldable pub mmio_read_reg32 : List ℕ → ℕ → Outcome ℕ
mmio_read_reg32 regs at = elim (get_elem? regs at) [ none ↦ faults | some w ↦ returns w ]

unfoldable pub mmio_write_reg32 : List ℕ → ℕ → ℕ → Outcome (List ℕ)
mmio_write_reg32 regs at w =
    if ltb at (length regs) then returns (modify regs at (λ _. w)) else faults

-- A bit field of `size` values at the bit of value `unit`, and an assignment to it.
abbrev pub field : ℕ → ℕ → ℕ → ℕ
field raw unit size = raw / unit % size

abbrev pub set_field : ℕ → ℕ → ℕ → ℕ → ℕ
set_field raw unit size v = raw - field raw unit size * unit + (v % size) * unit

-- INTEL_KEYP_PCIE_STREAM_CAP
abbrev pub num_stream_supported : ℕ → ℕ
num_stream_supported cap = field cap 1 256

abbrev pub num_tx_key_slots : ℕ → ℕ
num_tx_key_slots cap = field cap 1024 1024

abbrev pub num_rx_key_slots : ℕ → ℕ
num_rx_key_slots cap = field cap 1048576 1024

-- INTEL_KEYP_STREAM_CONTROL and INTEL_KEYP_STREAM_TXRX_CONTROL
abbrev pub en : ℕ → ℕ
en control = field control 1 2

abbrev pub key_set_select : ℕ → ℕ
key_set_select control = field control 1 4

-- INTEL_KEYP_STREAM_KEYSET_SLOT_ID
abbrev pub pr : ℕ → ℕ
pr keyset = field keyset 1 1024

abbrev pub npr : ℕ → ℕ
npr keyset = field keyset 1024 1024

abbrev pub cpl : ℕ → ℕ
cpl keyset = field keyset 1048576 1024

-- INTEL_KEYP_STREAM_CONFIG_REG_BLOCK: the places of its registers.
pub data Register : Type 0 where
  control tx_ctrl tx_status rx_ctrl rx_status : Register
  tx_key_set_0 tx_key_set_1 rx_key_set_0 rx_key_set_1 : Register

abbrev pub register_offset : Register → ℕ
register_offset control = 0
register_offset tx_ctrl = 1
register_offset tx_status = 2
register_offset rx_ctrl = 3
register_offset rx_status = 4
register_offset tx_key_set_0 = 5
register_offset tx_key_set_1 = 6
register_offset rx_key_set_0 = 7
register_offset rx_key_set_1 = 8

-- `get_stream_cfg_reg_block`, and a register of the block: the blocks follow the capabilities.
abbrev pub get_stream_cfg_reg_block : ℕ → ℕ
get_stream_cfg_reg_block rp_stream_index = 1 + 9 * rp_stream_index

abbrev pub stream_register : ℕ → Register → ℕ
stream_register rp_stream_index r = get_stream_cfg_reg_block rp_stream_index + register_offset r

-- PCIE_IDE_STREAM_..., PCIE_IDE_SUB_STREAM_...; a call may pass any other value.
pub data Direction : Type 0 where
  stream_rx stream_tx bad_direction : Direction

pub data KeySet : Type 0 where
  ks_0 ks_1 bad_key_set : KeySet

pub data SubStream : Type 0 where
  sub_stream_pr sub_stream_npr sub_stream_cpl bad_sub_stream : SubStream

-- `reg_memcpy_dw` from a slot of that many dwords.
unfoldable pub reg_memcpy_dw : List ℕ → ℕ → List ℕ → Outcome (List ℕ)
reg_memcpy_dw regs dst [] = returns regs
reg_memcpy_dw regs dst (w ∷ ws) =
    mmio_write_reg32 regs dst w >>= λ regs'. reg_memcpy_dw regs' (dst + 1) ws

-- `key_slots[0]` and `iv_slots[0]` of the side of the root port that a direction of the device
-- stands for.
abbrev pub tx_key_slots : ℕ → ℕ
tx_key_slots cap = get_stream_cfg_reg_block (num_stream_supported cap + 1)

abbrev pub tx_iv_slots : ℕ → ℕ
tx_iv_slots cap = tx_key_slots cap + 8 * (num_tx_key_slots cap + 1)

abbrev pub rx_key_slots : ℕ → ℕ
rx_key_slots cap = tx_iv_slots cap + 2 * (num_tx_key_slots cap + 1)

abbrev pub rx_iv_slots : ℕ → ℕ
rx_iv_slots cap = rx_key_slots cap + 8 * (num_rx_key_slots cap + 1)

abbrev pub key_slots : ℕ → Direction → ℕ
key_slots cap stream_rx = tx_key_slots cap
key_slots cap stream_tx = rx_key_slots cap
key_slots cap bad_direction = tx_key_slots cap

abbrev pub iv_slots : ℕ → Direction → ℕ
iv_slots cap stream_rx = tx_iv_slots cap
iv_slots cap stream_tx = rx_iv_slots cap
iv_slots cap bad_direction = tx_iv_slots cap

unfoldable pub kcbar_set_key_slot : List ℕ → Direction → ℕ → List ℕ → List ℕ → Outcome (List ℕ)
kcbar_set_key_slot regs direction slot_id key_val iv_val = mmio_read_reg32 regs 0 >>= λ cap.
    reg_memcpy_dw regs (key_slots cap direction + 8 * slot_id) key_val >>= λ regs'.
    reg_memcpy_dw regs' (iv_slots cap direction + 2 * slot_id) iv_val

-- The key set register of the other side.
unfoldable pub keyset_register : Direction → KeySet → Outcome Register
keyset_register stream_tx ks_0 = returns rx_key_set_0
keyset_register stream_tx _ = returns rx_key_set_1
keyset_register stream_rx ks_0 = returns tx_key_set_0
keyset_register stream_rx _ = returns tx_key_set_1
keyset_register bad_direction _ = asserts

unfoldable pub set_sub_stream : SubStream → ℕ → ℕ → Outcome ℕ
set_sub_stream sub_stream_pr slot_id keyset = returns (set_field keyset 1 1024 slot_id)
set_sub_stream sub_stream_npr slot_id keyset = returns (set_field keyset 1024 1024 slot_id)
set_sub_stream sub_stream_cpl slot_id keyset = returns (set_field keyset 1048576 1024 slot_id)
set_sub_stream bad_sub_stream slot_id keyset = asserts

unfoldable pub cfg_rootport_ide_keys :
    List ℕ → ℕ → Direction → KeySet → SubStream → ℕ → List ℕ → List ℕ → Outcome (List ℕ)
cfg_rootport_ide_keys regs rp_stream_index direction select sub_stream slot_id key_val iv_val =
    kcbar_set_key_slot regs direction slot_id key_val iv_val >>= λ regs'.
    keyset_register direction select >>= λ r.
    mmio_read_reg32 regs' (stream_register rp_stream_index r) >>= λ keyset.
    set_sub_stream sub_stream slot_id keyset >>= λ keyset'.
    mmio_write_reg32 regs' (stream_register rp_stream_index r) keyset'

unfoldable pub is_rp_ide_stream_enabled_in_kcbar : List ℕ → ℕ → Outcome Bool
is_rp_ide_stream_enabled_in_kcbar regs rp_stream_index =
    mmio_read_reg32 regs (stream_register rp_stream_index control) >>= λ stream_ctrl.
    returns (en stream_ctrl == 1)

-- A register is read, changed and written.
unfoldable pub update_register : List ℕ → ℕ → (ℕ → ℕ) → Outcome (List ℕ)
update_register regs at f = mmio_read_reg32 regs at >>= λ w. mmio_write_reg32 regs at (f w)

unfoldable pub set_rc_tx_ide_key_set : List ℕ → ℕ → KeySet → Outcome (List ℕ)
set_rc_tx_ide_key_set regs rp_stream_index ks_0 =
    update_register regs (stream_register rp_stream_index tx_ctrl) (λ w. set_field w 1 4 1)
set_rc_tx_ide_key_set regs rp_stream_index ks_1 =
    update_register regs (stream_register rp_stream_index tx_ctrl) (λ w. set_field w 1 4 2)
set_rc_tx_ide_key_set regs rp_stream_index bad_key_set =
    mmio_read_reg32 regs (stream_register rp_stream_index tx_ctrl) >>= λ w. asserts

-- `prime_key_set_0` and `prime_key_set_1`, after the assertion on `key_set_select`.
unfoldable pub prime_bits : KeySet → Outcome ℕ
prime_bits ks_0 = returns 256
prime_bits ks_1 = returns 65536
prime_bits bad_key_set = asserts

unfoldable pub prime_registers : Direction → Register × Register
prime_registers stream_rx = (tx_ctrl, tx_status)
prime_registers _ = (rx_ctrl, rx_status)

-- The ready bits that are read at the end are only logged.
unfoldable pub prime_rc_ide_keys : List ℕ → ℕ → Direction → KeySet → Outcome (List ℕ)
prime_rc_ide_keys regs rp_stream_index direction select =
    let (ctrl, status) = prime_registers direction in
    prime_bits select >>= λ unit.
    update_register regs (stream_register rp_stream_index ctrl) (λ w. set_field w unit 2 1)
    >>= λ regs'.
        mmio_read_reg32 regs' (stream_register rp_stream_index status) >>= λ data32. returns regs'

unfoldable pub initialize_kcbar_registers : List ℕ → ℕ → ℕ → Outcome (List ℕ)
initialize_kcbar_registers regs stream_id rp_stream_index =
    mmio_write_reg32 regs (stream_register rp_stream_index tx_ctrl) 0 >>= λ r1.
    mmio_write_reg32 r1 (stream_register rp_stream_index rx_ctrl) 0 >>= λ r2.
    mmio_write_reg32 r2 (stream_register rp_stream_index tx_key_set_0) 0 >>= λ r3.
    mmio_write_reg32 r3 (stream_register rp_stream_index tx_key_set_1) 0 >>= λ r4.
    mmio_write_reg32 r4 (stream_register rp_stream_index rx_key_set_0) 0 >>= λ r5.
    mmio_write_reg32 r5 (stream_register rp_stream_index rx_key_set_1) 0 >>= λ r6.
    mmio_write_reg32 r6 (stream_register rp_stream_index control)
      (set_field 0 16777216 256 stream_id)

unfoldable pub enable_ide_stream_in_kcbar : List ℕ → ℕ → Bool → Outcome (List ℕ)
enable_ide_stream_in_kcbar regs rp_stream_index enable =
    update_register regs (stream_register rp_stream_index control)
      (λ w. set_field w 1 2 (if enable then 1 else 0))
