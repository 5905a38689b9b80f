-- ===== src/Ecap.antt =====
-- teeio-validator/library/pcie_ide_lib/pcie_ide.c: the IDE extended capability of a port, its
-- link and selective stream register blocks, and their registers (layouts in include/pcie.h).
-- The configuration space is a function from an offset, a multiple of four, to the dword there;
-- a register keeps what is written. The offset of a capability has twelve bits and there are at
-- most 264 blocks of at most 200 bytes, so that no sum of offsets leaves 32 bits. The file
-- descriptor is open (`fd > 0`), and log lines are left out.
pub mod Search
pub mod Offsets
pub mod Registers
pub mod Assoc
use tee_io_validator.Common.{
  ℕ, zero, suc, ◌+◌, ◌-◌, ◌*◌, ◌/◌, ◌%◌, Bool, true, false, not, ◌&&◌, List, Outcome, returns,
  asserts, ◌>>=◌, ◌>>◌, teeio_assert, ltb, leb, ◌==◌, if◌then◌else◌,
}
use tee_io_validator.Kcbar.{
  field, set_field, initialize_kcbar_registers, enable_ide_stream_in_kcbar,
}

unfoldable pub device_pci_write_32 : (ℕ → ℕ) → ℕ → ℕ → ℕ → ℕ
device_pci_write_32 space at value i = if i == at then value else space i

-- TEST_IDE_TYPE
pub data IdeType : Type 0 where
  sel_ide lnk_ide na_ide : IdeType

-- IDE_TEST_TOPOLOGY_TYPE; `topology_type_num` stands for any other value.
pub data TopologyType : Type 0 where
  topology_sel_ide topology_link_ide topology_sel_link_ide topology_type_num : TopologyType

-- PCIE_IDE_CAP: the number of link blocks less one, and of selective blocks less one.
abbrev pub lnk_ide_supported : ℕ → Bool
lnk_ide_supported cap = field cap 1 2 == 1

abbrev pub sel_ide_supported : ℕ → Bool
sel_ide_supported cap = field cap 2 2 == 1

abbrev pub num_lnk_ide : ℕ → ℕ
num_lnk_ide cap = field cap 8192 8

abbrev pub num_sel_ide : ℕ → ℕ
num_sel_ide cap = field cap 65536 256

-- `num_lnk_ide` and `num_sel_ide` as the functions of the code compute them from the fields.
abbrev pub lnk_blocks : ℕ → ℕ
lnk_blocks cap = if lnk_ide_supported cap then num_lnk_ide cap + 1 else 0

abbrev pub sel_blocks : ℕ → ℕ
sel_blocks cap = if sel_ide_supported cap then num_sel_ide cap + 1 else 0

-- PCIE_SEL_IDE_STREAM_CAP
abbrev pub num_addr_assoc_reg_blocks : ℕ → ℕ
num_addr_assoc_reg_blocks cap = field cap 1 16

-- PCIE_LNK_IDE_STREAM_CTRL and PCIE_SEL_IDE_STREAM_CTRL
abbrev pub enabled : ℕ → ℕ
enabled ctrl = field ctrl 1 2

abbrev pub stream_id_of : ℕ → ℕ
stream_id_of ctrl = field ctrl 16777216 256

-- The loop over the selective blocks before `ide_id`.
unfoldable pub block_loop : (ℕ → ℕ) → ℕ → ℕ → Outcome ℕ
block_loop space zero offset = returns offset
block_loop space (suc left) offset =
    let blocks = num_addr_assoc_reg_blocks (space offset) in
    teeio_assert (blocks == 1) >> block_loop space left (offset + 20 + 12 * blocks)

unfoldable pub get_ide_reg_block_offset : (ℕ → ℕ) → IdeType → ℕ → ℕ → Outcome ℕ
get_ide_reg_block_offset space lnk_ide ide_id ecap =
    let ide_cap = space (ecap + 4) in
    teeio_assert (ltb ide_id (lnk_blocks ide_cap))
    >> (teeio_assert (lnk_ide_supported ide_cap) >> returns (ecap + 12 + 8 * ide_id))
get_ide_reg_block_offset space _ ide_id ecap =
    let ide_cap = space (ecap + 4) in
    let lnk = lnk_blocks ide_cap in
    teeio_assert (sel_ide_supported ide_cap)
    >> (teeio_assert (leb lnk ide_id && leb ide_id (num_sel_ide ide_cap + lnk))
        >> block_loop space (ide_id - lnk) (ecap + 12 + 8 * lnk))

-- A selective block has its capability register before the control register.
abbrev pub ctrl_in_block : IdeType → ℕ
ctrl_in_block sel_ide = 4
ctrl_in_block lnk_ide = 0
ctrl_in_block na_ide = 0

unfoldable pub ctrl_offset : (ℕ → ℕ) → IdeType → ℕ → ℕ → Outcome ℕ
ctrl_offset space ide_type ide_id ecap =
    get_ide_reg_block_offset space ide_type ide_id ecap >>= λ offset.
    returns (offset + ctrl_in_block ide_type)

-- Reads the control register, changes it and writes it.
unfoldable pub update_ctrl : (ℕ → ℕ) → IdeType → ℕ → ℕ → (ℕ → ℕ) → Outcome (ℕ → ℕ)
update_ctrl space ide_type ide_id ecap change = ctrl_offset space ide_type ide_id ecap >>= λ at.
    returns (device_pci_write_32 space at (change (space at)))

unfoldable pub set_pcrc_in_ecap : (ℕ → ℕ) → IdeType → ℕ → ℕ → Bool → Outcome (ℕ → ℕ)
set_pcrc_in_ecap space ide_type ide_id ecap enable =
    update_ctrl space ide_type ide_id ecap (λ w. set_field w 256 2 (if enable then 1 else 0))

unfoldable pub set_sel_ide_for_cfg_req_in_ecap : (ℕ → ℕ) → IdeType → ℕ → ℕ → Bool → Outcome (ℕ → ℕ)
set_sel_ide_for_cfg_req_in_ecap space ide_type ide_id ecap enable =
    update_ctrl space ide_type ide_id ecap (λ w. set_field w 512 2 (if enable then 1 else 0))

unfoldable pub enable_ide_stream_in_ecap : (ℕ → ℕ) → ℕ → IdeType → ℕ → Bool → Outcome (ℕ → ℕ)
enable_ide_stream_in_ecap space ecap ide_type ide_id enable =
    update_ctrl space ide_type ide_id ecap (λ w. set_field w 1 2 (if enable then 1 else 0))

unfoldable pub read_ide_stream_ctrl_in_ecap : (ℕ → ℕ) → IdeType → ℕ → ℕ → Outcome ℕ
read_ide_stream_ctrl_in_ecap space ide_type ide_id ecap =
    ctrl_offset space ide_type ide_id ecap >>= λ at. returns (space at)

unfoldable pub read_ide_stream_status_in_ecap : (ℕ → ℕ) → IdeType → ℕ → ℕ → Outcome ℕ
read_ide_stream_status_in_ecap space ide_type ide_id ecap =
    get_ide_reg_block_offset space ide_type ide_id ecap >>= λ offset.
    returns (space (offset + 4 + ctrl_in_block ide_type))

unfoldable pub read_stream_status_in_rp_ecap : (ℕ → ℕ) → ℕ → IdeType → ℕ → Outcome ℕ
read_stream_status_in_rp_ecap space ecap ide_type ide_id =
    get_ide_reg_block_offset space ide_type ide_id ecap >>= λ offset. elim ide_type [
      | sel_ide ↦ returns (space (offset + 8))
      | lnk_ide ↦ returns (space (offset + 4))
      | na_ide ↦ asserts
    ]

unfoldable pub is_ide_enabled : (ℕ → ℕ) → IdeType → ℕ → ℕ → Outcome Bool
is_ide_enabled space ide_type ide_id ecap =
    ctrl_offset space ide_type ide_id ecap >>= λ at. returns (enabled (space at) == 1)

unfoldable pub enable_rootport_ide_stream :
    (ℕ → ℕ) → ℕ → IdeType → ℕ → List ℕ → ℕ → Bool → Outcome ((ℕ → ℕ) × List ℕ)
enable_rootport_ide_stream space ecap ide_type ide_id kcbar rp_stream_index enable =
    enable_ide_stream_in_kcbar kcbar rp_stream_index enable >>= λ kcbar'.
    enable_ide_stream_in_ecap space ecap ide_type ide_id enable >>= λ space'.
    returns (space', kcbar')

-- PCIE_SEL_IDE_RID_ASSOC_REG_BLOCK and PCIE_SEL_IDE_ADDR_ASSOC_REG_BLOCK.
pub record RidAssoc : Type 0 where
  pub rid_assoc_1 : ℕ
  pub rid_assoc_2 : ℕ

pub record AddrAssoc : Type 0 where
  pub addr_assoc_1 : ℕ
  pub addr_assoc_2 : ℕ
  pub addr_assoc_3 : ℕ

-- The registers after the status of a selective block.
unfoldable pub write_assoc : IdeType → (ℕ → ℕ) → ℕ → RidAssoc → AddrAssoc → ℕ → ℕ
write_assoc lnk_ide space ctrl rid addr = space
write_assoc na_ide space ctrl rid addr = space
write_assoc sel_ide space ctrl rid addr =
    let s1 = device_pci_write_32 space (ctrl + 8) rid.rid_assoc_1 in
    let s2 = device_pci_write_32 s1 (ctrl + 12) rid.rid_assoc_2 in
    let s3 = device_pci_write_32 s2 (ctrl + 16) addr.addr_assoc_1 in
    let s4 = device_pci_write_32 s3 (ctrl + 20) addr.addr_assoc_2 in
    device_pci_write_32 s4 (ctrl + 24) addr.addr_assoc_3

unfoldable pub setup_ide_ecap_regs :
    (ℕ → ℕ) → IdeType → ℕ → ℕ → ℕ → RidAssoc → AddrAssoc → Outcome (ℕ → ℕ)
setup_ide_ecap_regs space ide_type ide_id ecap stream_ctrl_reg rid addr =
    ctrl_offset space ide_type ide_id ecap >>= λ at.
    returns (device_pci_write_32 (write_assoc ide_type space at rid addr) at stream_ctrl_reg)

-- The kind of stream of a topology; the others are not implemented.
unfoldable pub ide_type_of : TopologyType → Outcome IdeType
ide_type_of topology_sel_ide = returns sel_ide
ide_type_of topology_link_ide = returns lnk_ide
ide_type_of _ = asserts

-- `ide_common_test_port_context_t`, of which these functions use the parts that follow; the
-- pointers to the configuration space and the registers are arguments of the functions.
pub record PortContext : Type 0 where
  pub ecap_offset : ℕ
  pub ide_cap : ℕ
  pub ide_id : ℕ
  pub rid_assoc_reg_block : RidAssoc
  pub addr_assoc_reg_block : AddrAssoc

unfoldable pub reset_ecap : (ℕ → ℕ) → PortContext → IdeType → ℕ → Outcome (ℕ → ℕ)
reset_ecap space p ide_type stream_id =
    setup_ide_ecap_regs space ide_type p.ide_id p.ecap_offset (set_field 0 16777216 256 stream_id)
      p.rid_assoc_reg_block p.addr_assoc_reg_block

unfoldable pub reset_ide_registers :
    (ℕ → ℕ) → List ℕ → PortContext → TopologyType → ℕ → ℕ → Bool → Outcome ((ℕ → ℕ) × List ℕ)
reset_ide_registers space kcbar p top_type stream_id rp_stream_index reset_kcbar =
    ide_type_of top_type >>= λ ide_type.
    (if reset_kcbar
      then initialize_kcbar_registers kcbar stream_id rp_stream_index
      else returns kcbar)
    >>= λ kcbar'. reset_ecap space p ide_type stream_id >>= λ space'. returns (space', kcbar')
