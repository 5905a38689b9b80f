-- ===== src/Kcbar/Layout/Enable.antt =====
-- Enabling a stream and asking whether it is enabled.
use tee_io_validator.Common.{
  ℕ, ◌<◌, ◌/◌, Bool, true, false, List, some, ◌≡◌, ◌≢◌, ap, arith, returns, ◌>>=◌, ◌==◌,
  if◌then◌else◌, length, get_elem?,
}
use tee_io_validator.Kcbar.{
  set_field, en, control, stream_register, update_register, is_rp_ide_stream_enabled_in_kcbar,
  enable_ide_stream_in_kcbar,
}
use tee_io_validator.Kcbar.Layout.{
  mmio_write_reg32-inside, get_elem?-inside, mmio_read_reg32-get_elem?,
}

enable_bit : (w : ℕ) (b : Bool) → (en (set_field w 1 2 (if b then 1 else 0)) == 1) ≡ b
enable_bit w true = let e : en (set_field w 1 2 1) ≡ 1 = omega arith in ground arith
enable_bit w false = let e : en (set_field w 1 2 0) ≡ 0 = omega arith in ground arith

keeps_rest : (w : ℕ) (b : Bool) → set_field w 1 2 (if b then 1 else 0) / 2 ≡ w / 2
keeps_rest w true = omega arith
keeps_rest w false = omega arith

-- For a control register that is mapped, setting the enable bit of a stream returns. The bit then
-- reads as it was set, and the other bits of the register and all other registers are as before.
pub enable_ide_stream_in_kcbar-is_rp_ide_stream_enabled_in_kcbar :
    (regs : List ℕ) (index : ℕ) (enable : Bool)
    → stream_register index control < length regs
    → (regs' : List ℕ) × (old : ℕ) × (new : ℕ) × (enable_ide_stream_in_kcbar regs index enable
        ≡ returns regs')
      × (is_rp_ide_stream_enabled_in_kcbar regs' index ≡ returns enable)
      × (get_elem? regs (stream_register index control) ≡ some old)
      × (get_elem? regs' (stream_register index control) ≡ some new)
      × (new / 2 ≡ old / 2)
      × ((i : ℕ) → stream_register index control ≢ i → get_elem? regs' i ≡ get_elem? regs i)
unfolding enable_ide_stream_in_kcbar is_rp_ide_stream_enabled_in_kcbar update_register
enable_ide_stream_in_kcbar-is_rp_ide_stream_enabled_in_kcbar regs index enable inside =
    let at = stream_register index control in
    let (old, e) = get_elem?-inside regs at inside in
    let new = set_field old 1 2 (if enable then 1 else 0) in
    let (regs', wrote, l, here, other) = mmio_write_reg32-inside regs at new inside in
    (
      regs',
      old,
      new,
      rw
          (
            enable_ide_stream_in_kcbar,
            update_register,
            mmio_read_reg32-get_elem? regs at old e,
            ◌>>=◌,
          )
          wrote,
      rw (is_rp_ide_stream_enabled_in_kcbar, mmio_read_reg32-get_elem? regs' at new here, ◌>>=◌)
          (ap returns (enable_bit old enable)),
      e,
      here,
      keeps_rest old enable,
      other,
    )
