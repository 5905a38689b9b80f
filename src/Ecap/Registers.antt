-- ===== src/Ecap/Registers.antt =====
-- The registers of a block in the configuration space: what the operations of Ecap write, what
-- they leave, and that the block is still found where it was.
pub mod Enable
pub mod Reset
use tee_io_validator.Common.{
  ℕ, ◌+◌, ◌≤◌, ◌<◌, Bool, true, false, ◌≡◌, ◌≢◌, refl, ap, ◌∙◌, arith, Outcome, returns, ◌>>=◌,
  ◌==◌, if◌then◌else◌, >>=-eq-returns,
}
use tee_io_validator.Ecap.{
  device_pci_write_32, IdeType, sel_ide, lnk_ide, na_ide, get_ide_reg_block_offset, ctrl_in_block,
  ctrl_offset, update_ctrl,
}
use tee_io_validator.Ecap.Offsets.{get_ide_reg_block_offset-before}

pub device_pci_write_32-here : (space : ℕ → ℕ) (at w : ℕ) → device_pci_write_32 space at w at ≡ w
unfolding device_pci_write_32
device_pci_write_32-here space at w =
    let e : (at == at) ≡ true = ground arith in rw (device_pci_write_32, e) refl

pub device_pci_write_32-other :
    (space : ℕ → ℕ) (at w i : ℕ) → at ≢ i → device_pci_write_32 space at w i ≡ space i
unfolding device_pci_write_32
device_pci_write_32-other space at w i other =
    let e : (i == at) ≡ false = ground arith in rw (device_pci_write_32, e) refl

-- A change from the control register on does not move it.
pub ctrl_offset-before :
    (space space' : ℕ → ℕ) (t : IdeType) (ide_id ecap at : ℕ)
    → ctrl_offset space t ide_id ecap ≡ returns at
    → ((i : ℕ) → i < at → space' i ≡ space i)
    → ctrl_offset space' t ide_id ecap ≡ returns at
unfolding ctrl_offset
ctrl_offset-before space space' t id ecap at h same =
    let (off, e, r) = >>=-eq-returns (get_ide_reg_block_offset space t id ecap) _ h in
    let (le, before) = get_ide_reg_block_offset-before space space' t id ecap off e in
    let sum : off + ctrl_in_block t ≡ at = ground (arith, r) in
    rw (ctrl_offset, before (λ i lt. same i (omega (arith, sum))), ◌>>=◌) r

-- What a change of the control register leaves.
pub update_ctrl-at :
    (space : ℕ → ℕ) (t : IdeType) (ide_id ecap at : ℕ) (change : ℕ → ℕ)
    → ctrl_offset space t ide_id ecap ≡ returns at
    → (space' : ℕ → ℕ) × (update_ctrl space t ide_id ecap change ≡ returns space')
      × (ctrl_offset space' t ide_id ecap ≡ returns at)
      × (space' at ≡ change (space at))
      × ((i : ℕ) → at ≢ i → space' i ≡ space i)
unfolding update_ctrl
update_ctrl-at space t id ecap at change h =
    let w = change (space at) in
    let other = device_pci_write_32-other space at w in
    (
      device_pci_write_32 space at w,
      rw (update_ctrl, h, ◌>>=◌) refl,
      ctrl_offset-before space _ t id ecap at h (λ i lt. other i (ground arith)),
      device_pci_write_32-here space at w,
      other,
    )
