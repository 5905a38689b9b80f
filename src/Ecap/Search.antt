-- ===== src/Ecap/Search.antt =====
-- The searches of teeio-validator/library/pcie_ide_lib/pcie_ide.c for a free stream register
-- block and a free stream of the root complex, and for a stream identifier in use.
pub mod Free
pub mod Find
pub mod Used
use tee_io_validator.Common.{
  ℕ, zero, suc, ◌+◌, ◌*◌, ◌%◌, Bool, true, false, ◌&&◌, ◌||◌, List, Option, none, some, Outcome,
  returns, asserts, ◌>>=◌, ◌==◌, if◌then◌else◌, ltb,
}
use tee_io_validator.Kcbar.{
  field, mmio_read_reg32, num_stream_supported, en, control, stream_register,
}
use tee_io_validator.Ecap.{
  TopologyType, topology_sel_ide, topology_link_ide, topology_sel_link_ide, topology_type_num,
  PortContext, lnk_ide_supported, sel_ide_supported, lnk_blocks, sel_blocks,
  num_addr_assoc_reg_blocks, enabled, stream_id_of,
}

-- The loops over the link and the selective blocks, with `left` rounds to go; `*ide_id` has
-- eight bits.
unfoldable pub free_link_loop : (ℕ → ℕ) → ℕ → ℕ → ℕ → Option ℕ
free_link_loop space zero i offset = none
free_link_loop space (suc left) i offset =
    let rest = free_link_loop space left (i + 1) (offset + 8) in
    if enabled (space offset) == 0 then some (i % 256) else rest

unfoldable pub free_sel_loop : (ℕ → ℕ) → ℕ → ℕ → ℕ → Option ℕ
free_sel_loop space zero i offset = none
free_sel_loop space (suc left) i offset =
    let blocks = num_addr_assoc_reg_blocks (space offset) in
    let rest = free_sel_loop space left (i + 1) (offset + 12 + (8 + blocks * 12)) in
    if enabled (space (offset + 4)) == 0 then some (i % 256) else rest

-- The walk for a topology, with the number of blocks of `ide_cap`.
unfoldable pub free_block : (ℕ → ℕ) → PortContext → TopologyType → Outcome (Option ℕ)
free_block space p topology_sel_link_ide = asserts
free_block space p topology_link_ide = returns (
    if lnk_ide_supported p.ide_cap
    then free_link_loop space (lnk_blocks p.ide_cap) 0 (p.ecap_offset + 12)
    else none)
free_block space p _ = returns (
    if sel_ide_supported p.ide_cap
    then free_sel_loop space (sel_blocks p.ide_cap) (lnk_blocks p.ide_cap)
        (p.ecap_offset + 12 + lnk_blocks p.ide_cap * 8)
    else none)

-- The loop over the streams of the root complex.
unfoldable pub free_stream_loop : List ℕ → ℕ → ℕ → Outcome (Option ℕ)
free_stream_loop kcbar zero i = returns none
free_stream_loop kcbar (suc left) i =
    mmio_read_reg32 kcbar (stream_register i control) >>= λ stream_ctrl.
    elim (en stream_ctrl == 0) [
      | true ↦ returns (some (i % 256))
      | false ↦ free_stream_loop kcbar left (i + 1)
    ]

-- The returned truth value, and what is stored in `*rp_stream_index` and `*ide_id`, if anything.
pub record FreeStream : Type 0 where
  pub found : Bool
  pub rp_stream_index : Option ℕ
  pub ide_id : Option ℕ

unfoldable pub find_free_rp_stream_index : List ℕ → ℕ → Outcome FreeStream
find_free_rp_stream_index kcbar id = mmio_read_reg32 kcbar 0 >>= λ capabilities.
    free_stream_loop kcbar (num_stream_supported capabilities + 1) 0 >>= λ index.
    returns (elim index as (λ _. FreeStream) [
      | none ↦ record { found = false; rp_stream_index = none; ide_id = some id }
      | some i ↦ record { found = true; rp_stream_index = some i; ide_id = some id }
    ])

unfoldable pub find_free_rp_stream_index_and_ide_id :
    (ℕ → ℕ) → List ℕ → PortContext → TopologyType → Bool → Outcome FreeStream
find_free_rp_stream_index_and_ide_id space kcbar p top_type rp_or_dev =
    free_block space p top_type >>= λ block. elim block [
      | none ↦ returns (record { found = false; rp_stream_index = none; ide_id = none })
      | some id ↦ elim rp_or_dev [
        | true ↦ find_free_rp_stream_index kcbar id
        | false ↦ returns (record { found = true; rp_stream_index = none; ide_id = some id })
      ]
    ]

-- `check_stream_id_used_in_rootport`: the test on a control register, and the three walks. The
-- offset of the selective walk is four less where there is no link block, as in the code.
unfoldable pub used_stream_loop : List ℕ → ℕ → ℕ → ℕ → Outcome Bool
used_stream_loop kcbar stream_id zero i = returns false
used_stream_loop kcbar stream_id (suc left) i =
    mmio_read_reg32 kcbar (stream_register i control) >>= λ ctrl.
    elim ((en ctrl == 1) && (stream_id_of ctrl == stream_id)) [
      | true ↦ returns true
      | false ↦ used_stream_loop kcbar stream_id left (i + 1)
    ]

abbrev pub uses : ℕ → ℕ → Bool
uses stream_id ctrl = (enabled ctrl == 1) && (stream_id_of ctrl == stream_id)

unfoldable pub used_link_loop : (ℕ → ℕ) → ℕ → ℕ → ℕ → Bool
used_link_loop space stream_id zero offset = false
used_link_loop space stream_id (suc left) offset =
    let rest = used_link_loop space stream_id left (offset + 8) in
    if uses stream_id (space offset) then true else rest

unfoldable pub used_sel_loop : (ℕ → ℕ) → ℕ → ℕ → ℕ → Bool
used_sel_loop space stream_id zero offset = false
used_sel_loop space stream_id (suc left) offset =
    let blocks = num_addr_assoc_reg_blocks (space offset) in
    let rest = used_sel_loop space stream_id left (offset + (20 + blocks * 12)) in
    if uses stream_id (space (offset + 4)) then true else rest

unfoldable pub used_in_ecap : (ℕ → ℕ) → ℕ → ℕ → Bool
used_in_ecap space stream_id ecap =
    let ide_cap = space (ecap + 4) in
    let lnk = lnk_blocks ide_cap in
    let links = if ltb 0 lnk then ecap + 12 else ecap + 8 in
    if used_link_loop space stream_id lnk links
    then true
    else used_sel_loop space stream_id (sel_blocks ide_cap) (links + lnk * 8)

unfoldable pub check_stream_id_used_in_rootport : (ℕ → ℕ) → List ℕ → ℕ → PortContext → Outcome Bool
check_stream_id_used_in_rootport space kcbar stream_id p = mmio_read_reg32 kcbar 0 >>= λ cap.
    used_stream_loop kcbar stream_id (num_stream_supported cap + 1) 0 >>= λ in_kcbar.
    returns (if in_kcbar then true else used_in_ecap space stream_id p.ecap_offset)
