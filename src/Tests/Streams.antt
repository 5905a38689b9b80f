-- ===== src/Tests/Streams.antt =====
-- A root port with one link block and two selective blocks, of which the last is not enabled.
use tee_io_validator.Common.{
  ℕ, zero, suc, ◌+◌, ◌*◌, ◌/◌, ◌%◌, ◌<◌, Bool, true, false, List, [], ◌∷◌, some, ◌≡◌, ◌≢◌, ◌↔◌, ◌⊎◌,
  refl, arith, returns, ◌>>=◌, ◌==◌, if◌then◌else◌, get_elem?,
}
use tee_io_validator.Kcbar.Switch.{
  prime_rp_ide_key_set, set_rp_ide_key_set_select, prime_0, prime_1,
  set_rp_ide_key_set_select-prime_rp_ide_key_set,
}
use tee_io_validator.Kcbar.{
  mmio_read_reg32, stream_rx, ks_1, key_set_select, field, is_rp_ide_stream_enabled_in_kcbar,
}
use tee_io_validator.Ecap.{
  sel_ide, lnk_ide, topology_sel_ide, PortContext, RidAssoc, AddrAssoc, ctrl_offset,
  get_ide_reg_block_offset, block_loop, ide_type_of, enabled, stream_id_of, is_ide_enabled,
  enable_ide_stream_in_ecap, set_pcrc_in_ecap, set_sel_ide_for_cfg_req_in_ecap,
  read_ide_stream_ctrl_in_ecap, setup_ide_ecap_regs, reset_ide_registers,
}
use tee_io_validator.Ecap.Offsets.{OneAssociation}
use tee_io_validator.Ecap.Search.{
  used_stream_loop, used_link_loop, used_sel_loop, used_in_ecap, FreeStream,
  find_free_rp_stream_index_and_ide_id, check_stream_id_used_in_rootport,
}
use tee_io_validator.Ecap.Search.Find.{
  FoundFree, Searchable, find_free_rp_stream_index_and_ide_id-least,
}
use tee_io_validator.Ecap.Search.Used.{
  Some, stream_uses, BlockUses, check_stream_id_used_in_rootport_iff,
}
use tee_io_validator.Ecap.Registers.Enable.{
  enable_ide_stream_in_ecap-is_ide_enabled, read_ide_stream_ctrl_in_ecap-bits,
}
use tee_io_validator.Ecap.Registers.Reset.{setup_ide_ecap_regs-Writes, reset_ide_registers-stops}
use tee_io_validator.Ecap.Assoc.{
  populate_rid_assoc_reg_block, populate_rid_assoc_reg_block-fields, rid_valid, rid_base, rid_limit,
  segment_base, populate_addr_assoc_reg_block, populate_addr_assoc_reg_block-fields, addr_valid,
  mem_base_lower, mem_limit_lower, device_pci_read_16,
}

abbrev space : ℕ → ℕ
space i =
    if i == 260
    then 65539
    else (if i == 268
        then 117440513
        else (if i == 276 then 1 else (if i == 280 then 83886081 else (if i == 308 then 1 else 0))))

abbrev kcbar : List ℕ
kcbar = 0 ∷ 0 ∷ 0 ∷ 0 ∷ 0 ∷ 0 ∷ 0 ∷ 0 ∷ 0 ∷ 0 ∷ []

abbrev rid : RidAssoc
rid = record { rid_assoc_1 = 7; rid_assoc_2 = 8 }

abbrev addr : AddrAssoc
addr = record { addr_assoc_1 = 9; addr_assoc_2 = 10; addr_assoc_3 = 11 }

abbrev port : PortContext
port = record {
  ecap_offset = 256;
  ide_cap = 65539;
  ide_id = 2;
  rid_assoc_reg_block = rid;
  addr_assoc_reg_block = addr;
}

one_association : OneAssociation space 276 2
one_association zero lt = refl
one_association (suc zero) lt = refl
one_association (suc (suc k)) lt = absurd (omega arith)

searchable : Searchable space port sel_ide
searchable = (refl, omega arith, λ n. one_association)

at_312 : ctrl_offset space sel_ide 2 256 ≡ returns 312
unfolding ctrl_offset get_ide_reg_block_offset block_loop
at_312 = refl

selective : ide_type_of topology_sel_ide ≡ returns sel_ide
unfolding ide_type_of
selective = refl

find_free_rp_stream_index_and_ide_id-least_example :
    (r : FreeStream) × (find_free_rp_stream_index_and_ide_id space kcbar port topology_sel_ide true
      ≡ returns r)
    × FoundFree space kcbar port sel_ide true 0 r
find_free_rp_stream_index_and_ide_id-least_example =
    find_free_rp_stream_index_and_ide_id-least space kcbar port topology_sel_ide sel_ide true 0
      selective searchable (λ h. (refl, omega arith))

check_stream_id_used_in_rootport_iff_example :
    (b : Bool) × (check_stream_id_used_in_rootport space kcbar 5 port ≡ returns b)
    × ((b ≡ true) ↔ (
        Some 1 (stream_uses kcbar 5)
        ⊎ (BlockUses space 5 256 lnk_ide ⊎ BlockUses space 5 256 sel_ide)))
check_stream_id_used_in_rootport_iff_example =
    check_stream_id_used_in_rootport_iff space kcbar 5 0 port (refl, omega arith) (omega arith)
      one_association

used_5 : check_stream_id_used_in_rootport space kcbar 5 port ≡ returns true
unfolding check_stream_id_used_in_rootport used_stream_loop used_link_loop used_sel_loop
    used_in_ecap mmio_read_reg32
used_5 = refl

enable_ide_stream_in_ecap-is_ide_enabled_example :
    (space' : ℕ → ℕ) × (enable_ide_stream_in_ecap space 256 sel_ide 2 true ≡ returns space')
    × (is_ide_enabled space' sel_ide 2 256 ≡ returns true)
    × (ctrl_offset space' sel_ide 2 256 ≡ returns 312)
    × (space' 312 / 2 ≡ 0)
    × ((i : ℕ) → 312 ≢ i → space' i ≡ space i)
enable_ide_stream_in_ecap-is_ide_enabled_example =
    enable_ide_stream_in_ecap-is_ide_enabled space 256 sel_ide 2 312 true at_312

read_ide_stream_ctrl_in_ecap-bits_example :
    (space' : ℕ → ℕ) × (w : ℕ) × ((set_pcrc_in_ecap space sel_ide 2 256 true >>= λ s1.
    set_sel_ide_for_cfg_req_in_ecap s1 sel_ide 2 256 false >>= λ s2.
    enable_ide_stream_in_ecap s2 256 sel_ide 2 true)
      ≡ returns space')
    × (read_ide_stream_ctrl_in_ecap space' sel_ide 2 256 ≡ returns w)
    × (field w 256 2 ≡ 1)
    × (field w 512 2 ≡ 0)
    × (enabled w ≡ 1)
    × (w / 1024 ≡ 0)
    × (w % 256 / 2 ≡ 0)
read_ide_stream_ctrl_in_ecap-bits_example =
    read_ide_stream_ctrl_in_ecap-bits space 256 sel_ide 2 312 true false true at_312

setup_ide_ecap_regs-Writes_example :
    (space' : ℕ → ℕ) × (setup_ide_ecap_regs space sel_ide 2 256 3 rid addr ≡ returns space')
    × (read_ide_stream_ctrl_in_ecap space' sel_ide 2 256 ≡ returns 3)
    × (space' 320 ≡ 7)
    × (space' 324 ≡ 8)
    × (space' 328 ≡ 9)
    × (space' 332 ≡ 10)
    × (space' 336 ≡ 11)
    × ((i : ℕ) → 312 ≢ i → (i < 320) ⊎ (336 < i) → space' i ≡ space i)
setup_ide_ecap_regs-Writes_example = setup_ide_ecap_regs-Writes space 2 256 312 3 rid addr at_312

reset_ide_registers-stops_example :
    (space' : ℕ → ℕ) × (kcbar' : List ℕ) × (reset_ide_registers space kcbar port topology_sel_ide 5
        0 true
      ≡ returns (space', kcbar'))
    × (is_ide_enabled space' sel_ide 2 256 ≡ returns false)
    × (is_rp_ide_stream_enabled_in_kcbar kcbar' 0 ≡ returns false)
    × (stream_id_of (space' 312) ≡ 5)
reset_ide_registers-stops_example =
    reset_ide_registers-stops space kcbar port topology_sel_ide sel_ide 5 0 312 selective at_312
      (omega arith)

populate_rid_assoc_reg_block-fields_example :
    (rid_valid (populate_rid_assoc_reg_block 1 42 0 0).rid_assoc_2 ≡ 1)
    × (rid_base (populate_rid_assoc_reg_block 1 42 0 0).rid_assoc_2 ≡ 10752)
    × (rid_limit (populate_rid_assoc_reg_block 1 42 0 0).rid_assoc_1 ≡ 10753)
    × (segment_base (populate_rid_assoc_reg_block 1 42 0 0).rid_assoc_2 ≡ 1)
populate_rid_assoc_reg_block-fields_example =
    populate_rid_assoc_reg_block-fields 1 42 0 0 (omega arith) (omega arith) (omega arith)

populate_addr_assoc_reg_block-fields_example :
    (addr_valid (populate_addr_assoc_reg_block space false).addr_assoc_1 ≡ 1)
    × (mem_base_lower (populate_addr_assoc_reg_block space false).addr_assoc_1
        ≡ device_pci_read_16 space 32 / 16)
    × (mem_limit_lower (populate_addr_assoc_reg_block space false).addr_assoc_1
        ≡ device_pci_read_16 space 34 / 16)
populate_addr_assoc_reg_block-fields_example = populate_addr_assoc_reg_block-fields space false

set_rp_ide_key_set_select-prime_rp_ide_key_set_example :
    (regs' : List ℕ) × (w : ℕ) × ((prime_rp_ide_key_set kcbar 0 stream_rx ks_1 >>= λ r.
    set_rp_ide_key_set_select r 0 ks_1)
      ≡ returns regs')
    × (get_elem? regs' 2 ≡ some w)
    × (prime_0 w + 2 * prime_1 w ≡ 2)
    × (key_set_select w ≡ 2)
    × ((i : ℕ) → 2 ≢ i → get_elem? regs' i ≡ get_elem? kcbar i)
set_rp_ide_key_set_select-prime_rp_ide_key_set_example =
    set_rp_ide_key_set_select-prime_rp_ide_key_set kcbar 0 ks_1 (λ e. cc) (omega arith)
