-- ===== src/Ecap/Registers/Reset.antt =====
-- `setup_ide_ecap_regs`, and `reset_ide_registers`, which stops a stream on both sides.
use tee_io_validator.Common.{
  ℕ, ◌+◌, ◌%◌, ◌<◌, true, false, List, ◌≡◌, ◌≢◌, ◌⊎◌, inl, refl, ap, ◌∙◌, arith, Outcome, returns,
  ◌>>=◌, >>=-of-returns, ◌==◌, length, some, get_elem?,
}
use tee_io_validator.Kcbar.{
  mmio_write_reg32, set_field, en, stream_register, control, rx_key_set_1,
  initialize_kcbar_registers, is_rp_ide_stream_enabled_in_kcbar,
}
use tee_io_validator.Kcbar.Layout.{mmio_write_reg32-inside, mmio_read_reg32-get_elem?}
use tee_io_validator.Ecap.{
  device_pci_write_32, IdeType, sel_ide, lnk_ide, na_ide, stream_id_of, ctrl_offset, RidAssoc,
  AddrAssoc, write_assoc, setup_ide_ecap_regs, PortContext, TopologyType, ide_type_of, reset_ecap,
  reset_ide_registers, is_ide_enabled, read_ide_stream_ctrl_in_ecap,
}
use tee_io_validator.Ecap.Registers.{
  device_pci_write_32-here, device_pci_write_32-other, ctrl_offset-before,
}

-- The association registers are behind the control register.
write_assoc-outside :
    (space : ℕ → ℕ) (at : ℕ) (rid : RidAssoc) (addr : AddrAssoc) (i : ℕ)
    → (i < at + 8) ⊎ (at + 24 < i)
    → write_assoc sel_ide space at rid addr i ≡ space i
unfolding write_assoc
write_assoc-outside space at rid addr i h =
    device_pci_write_32-other _ (at + 24) _ i (ground arith)
    ∙ device_pci_write_32-other _ (at + 20) _ i (ground arith)
    ∙ device_pci_write_32-other _ (at + 16) _ i (ground arith)
    ∙ device_pci_write_32-other _ (at + 12) _ i (ground arith)
    ∙ device_pci_write_32-other space (at + 8) _ i (ground arith)

write_assoc-before :
    (space : ℕ → ℕ) (t : IdeType) (at : ℕ) (rid : RidAssoc) (addr : AddrAssoc) (i : ℕ)
    → i < at + 8
    → write_assoc t space at rid addr i ≡ space i
unfolding write_assoc
write_assoc-before space lnk_ide at rid addr i h = refl
write_assoc-before space na_ide at rid addr i h = refl
write_assoc-before space sel_ide at rid addr i h = write_assoc-outside space at rid addr i (inl h)

-- Setting up a block whose control register is found: the register then has its value, and is
-- still found.
pub setup_ide_ecap_regs-ctrl :
    (space : ℕ → ℕ) (t : IdeType) (ide_id ecap at ctrl : ℕ) (rid : RidAssoc) (addr : AddrAssoc)
    → ctrl_offset space t ide_id ecap ≡ returns at
    → (space' : ℕ → ℕ) × (setup_ide_ecap_regs space t ide_id ecap ctrl rid addr ≡ returns space')
      × (ctrl_offset space' t ide_id ecap ≡ returns at)
      × (space' at ≡ ctrl)
unfolding setup_ide_ecap_regs
setup_ide_ecap_regs-ctrl space t id ecap at ctrl rid addr h =
    let written = write_assoc t space at rid addr in
    (
      device_pci_write_32 written at ctrl,
      rw (setup_ide_ecap_regs, h, ◌>>=◌) refl,
      ctrl_offset-before space _ t id ecap at h (λ i lt.
          device_pci_write_32-other written at ctrl i (ground arith)
          ∙ write_assoc-before space t at rid addr i (omega arith)),
      device_pci_write_32-here written at ctrl,
    )

write_assoc-values :
    (space : ℕ → ℕ) (at : ℕ) (rid : RidAssoc) (addr : AddrAssoc)
    → (write_assoc sel_ide space at rid addr (at + 8) ≡ rid.rid_assoc_1)
      × (write_assoc sel_ide space at rid addr (at + 12) ≡ rid.rid_assoc_2)
      × (write_assoc sel_ide space at rid addr (at + 16) ≡ addr.addr_assoc_1)
      × (write_assoc sel_ide space at rid addr (at + 20) ≡ addr.addr_assoc_2)
      × (write_assoc sel_ide space at rid addr (at + 24) ≡ addr.addr_assoc_3)
unfolding write_assoc device_pci_write_32
write_assoc-values space at rid addr =
    (ground arith, ground arith, ground arith, ground arith, ground arith)

-- Setting up a selective block whose control register is found at an offset returns. The control
-- register and the two requester and three address association registers then have the values
-- that were passed, and every other register is as before.
pub setup_ide_ecap_regs-Writes :
    (space : ℕ → ℕ) (ide_id ecap at ctrl : ℕ) (rid : RidAssoc) (addr : AddrAssoc)
    → ctrl_offset space sel_ide ide_id ecap ≡ returns at
    → (space' : ℕ → ℕ) × (setup_ide_ecap_regs space sel_ide ide_id ecap ctrl rid addr
        ≡ returns space')
      × (read_ide_stream_ctrl_in_ecap space' sel_ide ide_id ecap ≡ returns ctrl)
      × (space' (at + 8) ≡ rid.rid_assoc_1)
      × (space' (at + 12) ≡ rid.rid_assoc_2)
      × (space' (at + 16) ≡ addr.addr_assoc_1)
      × (space' (at + 20) ≡ addr.addr_assoc_2)
      × (space' (at + 24) ≡ addr.addr_assoc_3)
      × ((i : ℕ) → at ≢ i → (i < at + 8) ⊎ (at + 24 < i) → space' i ≡ space i)
unfolding setup_ide_ecap_regs read_ide_stream_ctrl_in_ecap
setup_ide_ecap_regs-Writes space id ecap at ctrl rid addr h =
    let written = write_assoc sel_ide space at rid addr in
    let (v1, v2, v3, v4, v5) = write_assoc-values space at rid addr in
    let keeps = device_pci_write_32-other written at ctrl in
    (
      device_pci_write_32 written at ctrl,
      rw (setup_ide_ecap_regs, h, ◌>>=◌) refl,
      rw
          (
            read_ide_stream_ctrl_in_ecap,
            ctrl_offset-before space _ sel_ide id ecap at h (λ i lt.
                keeps i (ground arith)
                ∙ write_assoc-before space sel_ide at rid addr i (omega arith)),
            ◌>>=◌,
          )
          (ap returns (device_pci_write_32-here written at ctrl)),
      keeps (at + 8) (ground arith) ∙ v1,
      keeps (at + 12) (ground arith) ∙ v2,
      keeps (at + 16) (ground arith) ∙ v3,
      keeps (at + 20) (ground arith) ∙ v4,
      keeps (at + 24) (ground arith) ∙ v5,
      λ i other o. keeps i other ∙ write_assoc-outside space at rid addr i o,
    )

-- A write inside the registers, and what follows it.
write_then :
    (regs : List ℕ) (at w : ℕ) (f : List ℕ → Outcome (List ℕ)) (P : List ℕ → Type 0)
    → at < length regs
    → ((r : List ℕ) → length r ≡ length regs → (r' : List ℕ) × (f r ≡ returns r') × P r')
    → (r' : List ℕ) × ((mmio_write_reg32 regs at w >>= f) ≡ returns r') × P r'
write_then regs at w f P inside next =
    let (r, e, l, here, other) = mmio_write_reg32-inside regs at w inside in
    let (r', e', p) = next r l in (r', >>=-of-returns (mmio_write_reg32 regs at w) f e e', p)

initialize_kcbar_registers-control :
    (kcbar : List ℕ) (stream_id index : ℕ)
    → stream_register index rx_key_set_1 < length kcbar
    → (kcbar' : List ℕ) × (initialize_kcbar_registers kcbar stream_id index ≡ returns kcbar')
      × (get_elem? kcbar' (stream_register index control)
          ≡ some (set_field 0 16777216 256 stream_id))
unfolding initialize_kcbar_registers
initialize_kcbar_registers-control kcbar sid index inside =
    let at = stream_register index control in
    let w = set_field 0 16777216 256 sid in
    let P = λ (r : List ℕ). get_elem? r at ≡ some w in
    write_then kcbar _ 0 _ P (omega arith) λ r1 l1. write_then r1 _ 0 _ P (omega arith) λ r2 l2.
      write_then r2 _ 0 _ P (omega arith) λ r3 l3. write_then r3 _ 0 _ P (omega arith) λ r4 l4.
        write_then r4 _ 0 _ P (omega arith) λ r5 l5. write_then r5 _ 0 _ P (omega arith) λ r6 l6.
          let (r7, e7, l7, here, other) = mmio_write_reg32-inside r6 at w (omega arith) in
          (r7, e7, here)

disabled : (sid : ℕ) → (en (set_field 0 16777216 256 sid) == 1) ≡ false
disabled sid = let e : en (set_field 0 16777216 256 sid) ≡ 0 = omega arith in ground arith

-- For a port of a selective or link topology whose block is found, and a stream whose registers
-- are mapped, resetting the registers of both sides returns. The stream is then enabled neither in
-- the configuration space nor in the root complex, and the control register has the stream
-- identifier, of eight bits.
pub reset_ide_registers-stops :
    (space : ℕ → ℕ) (kcbar : List ℕ) (p : PortContext) (top : TopologyType) (t : IdeType)
    (stream_id index at : ℕ)
    → ide_type_of top ≡ returns t
    → ctrl_offset space t p.ide_id p.ecap_offset ≡ returns at
    → stream_register index rx_key_set_1 < length kcbar
    → (space' : ℕ → ℕ) × (kcbar' : List ℕ) × (reset_ide_registers space kcbar p top stream_id index
          true
        ≡ returns (space', kcbar'))
      × (is_ide_enabled space' t p.ide_id p.ecap_offset ≡ returns false)
      × (is_rp_ide_stream_enabled_in_kcbar kcbar' index ≡ returns false)
      × (stream_id_of (space' at) ≡ stream_id % 256)
unfolding reset_ide_registers reset_ecap is_ide_enabled is_rp_ide_stream_enabled_in_kcbar
reset_ide_registers-stops space kcbar p top t sid index at et h inside =
    let ctrl = set_field 0 16777216 256 sid in
    let (kcbar', ek, here) = initialize_kcbar_registers-control kcbar sid index inside in
    let (space', es, still, value) =
      setup_ide_ecap_regs-ctrl space t p.ide_id p.ecap_offset at ctrl p.rid_assoc_reg_block
        p.addr_assoc_reg_block h in
    (
      space',
      kcbar',
      rw (reset_ide_registers, et, ◌>>=◌, ek, ◌>>=◌, reset_ecap, es, ◌>>=◌) refl,
      rw (is_ide_enabled, still, ◌>>=◌, value) (ap returns (disabled sid)),
      rw (is_rp_ide_stream_enabled_in_kcbar, mmio_read_reg32-get_elem? kcbar' _ ctrl here, ◌>>=◌)
          (ap returns (disabled sid)),
      rw value (omega arith),
    )
