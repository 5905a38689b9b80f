-- ===== src/Ecap/Assoc.antt =====
-- teeio-validator/library/pcie_ide_lib/pcie_ide.c: flit mode and segment of a port, and the
-- requester and address association registers of a selective stream.
use tee_io_validator.Common.{
  ℕ, ◌+◌, ◌-◌, ◌*◌, ◌/◌, ◌%◌, ◌<◌, Bool, true, false, ◌&&◌, Option, some, ◌≡◌, arith, and_then,
  ◌==◌, if◌then◌else◌,
}
use tee_io_validator.Kcbar.{field, set_field}
use tee_io_validator.Caps.{
  get_cap_offset, get_extended_cap_offset, pcie_capability_id, pci_device3_ext_capability_id,
}
use tee_io_validator.Ecap.{RidAssoc, AddrAssoc}

-- At an even offset; the lower half of a dword comes first.
unfoldable pub device_pci_read_16 : (ℕ → ℕ) → ℕ → ℕ
device_pci_read_16 space offset =
    if offset % 4 == 2 then space (offset - 2) / 65536 % 65536 else space offset % 65536

-- The walks of the capability lists have fuel, as in Caps; `none` says that it did not suffice.
unfoldable pub pcie_check_flit_mode_enabled : ℕ → (ℕ → ℕ) → Option Bool
pcie_check_flit_mode_enabled fuel space =
    and_then (get_cap_offset space fuel pcie_capability_id) λ offset.
      let pcie_cap = device_pci_read_16 space (offset + 0x02) in
      let pcie_link_status2 = device_pci_read_16 space (offset + 0x32) in
      some ((field pcie_cap 32768 2 == 1) && (field pcie_link_status2 1024 2 == 1))

unfoldable pub pcie_check_segment_captured : ℕ → (ℕ → ℕ) → Option Bool
pcie_check_segment_captured fuel space =
    and_then (get_extended_cap_offset space fuel pci_device3_ext_capability_id) λ ecap_offset.
      some (if ecap_offset == 0 then true else field (space (ecap_offset + 0x0C)) 8 2 == 1)

-- PCIE_SEL_IDE_RID_ASSOC_1 and PCIE_SEL_IDE_RID_ASSOC_2
abbrev pub rid_limit : ℕ → ℕ
rid_limit rid_assoc_1 = field rid_assoc_1 256 65536

abbrev pub rid_valid : ℕ → ℕ
rid_valid rid_assoc_2 = field rid_assoc_2 1 2

abbrev pub rid_base : ℕ → ℕ
rid_base rid_assoc_2 = field rid_assoc_2 256 65536

abbrev pub segment_base : ℕ → ℕ
segment_base rid_assoc_2 = field rid_assoc_2 16777216 256

-- The numbers of the code have 16 bits, and the segment is cut to eight; the block is not NULL.
unfoldable pub populate_rid_assoc_reg_block : ℕ → ℕ → ℕ → ℕ → RidAssoc
populate_rid_assoc_reg_block segment bus device func =
    let base = (bus * 256 + device) % 65536 in
    let limit = (base + func + 1) % 65536 in
    record {
      rid_assoc_1 = set_field 0 256 65536 limit;
      rid_assoc_2 = set_field (set_field (set_field 0 256 65536 base) 1 2 1) 16777216 256 segment;
    }

-- PCIE_SEL_IDE_ADDR_ASSOC_1
abbrev pub addr_valid : ℕ → ℕ
addr_valid addr_assoc_1 = field addr_assoc_1 1 2

abbrev pub mem_base_lower : ℕ → ℕ
mem_base_lower addr_assoc_1 = field addr_assoc_1 256 4096

abbrev pub mem_limit_lower : ℕ → ℕ
mem_limit_lower addr_assoc_1 = field addr_assoc_1 1048576 4096

-- With the configuration space of the port that is opened.
unfoldable pub check_use_prefetchable : (ℕ → ℕ) → Bool
check_use_prefetchable space = (field (space 0x10) 2 4 == 2) && (field (space 0x10) 8 2 == 1)

unfoldable pub populate_addr_assoc_reg_block : (ℕ → ℕ) → Bool → AddrAssoc
populate_addr_assoc_reg_block space use_prefetch_memory =
    let data32 = space (if use_prefetch_memory then 0x24 else 0x20) in
    let memory_base = field data32 16 4096 in
    let memory_limit = field data32 1048576 4096 in
    record {
      addr_assoc_1 =
          set_field (set_field (set_field 0 256 4096 memory_base) 1048576 4096 memory_limit) 1 2 1;
      addr_assoc_2 = if use_prefetch_memory then space 0x2c else 0;
      addr_assoc_3 = if use_prefetch_memory then space 0x28 else 0;
    }

-- For numbers of a bus and of a device and function in eight bits, and a segment in sixteen: the
-- registers are valid, the range starts at the number of bus and device, and ends one after the
-- function unless that passes sixteen bits; of the segment the lower eight bits are kept.
pub populate_rid_assoc_reg_block-fields :
    (segment bus device func : ℕ)
    → bus < 256
    → device < 256
    → func < 256
    → (rid_valid (populate_rid_assoc_reg_block segment bus device func).rid_assoc_2 ≡ 1)
      × (rid_base (populate_rid_assoc_reg_block segment bus device func).rid_assoc_2
          ≡ bus * 256 + device)
      × (rid_limit (populate_rid_assoc_reg_block segment bus device func).rid_assoc_1
          ≡ (bus * 256 + device + func + 1) % 65536)
      × (segment_base (populate_rid_assoc_reg_block segment bus device func).rid_assoc_2
          ≡ segment % 256)
unfolding populate_rid_assoc_reg_block
populate_rid_assoc_reg_block-fields segment bus device func hb hd hf =
    (omega arith, omega arith, omega arith, omega arith)

-- The memory range that a bridge forwards, in units of one megabyte: base and limit of the
-- register are the upper twelve bits of the 16-bit halves of the dword that is read.
pub populate_addr_assoc_reg_block-fields :
    (space : ℕ → ℕ) (use_prefetch : Bool)
    → (addr_valid (populate_addr_assoc_reg_block space use_prefetch).addr_assoc_1 ≡ 1)
      × (mem_base_lower (populate_addr_assoc_reg_block space use_prefetch).addr_assoc_1
          ≡ device_pci_read_16 space (if use_prefetch then 0x24 else 0x20) / 16)
      × (mem_limit_lower (populate_addr_assoc_reg_block space use_prefetch).addr_assoc_1
          ≡ device_pci_read_16 space (if use_prefetch then 0x26 else 0x22) / 16)
unfolding populate_addr_assoc_reg_block device_pci_read_16
populate_addr_assoc_reg_block-fields space true = (omega arith, omega arith, omega arith)
populate_addr_assoc_reg_block-fields space false = (omega arith, omega arith, omega arith)
