-- ===== src/Kcbar/Switch.antt =====
-- `prime_rp_ide_key_set` and `set_rp_ide_key_set_select` of
-- teeio-validator/library/pcie_ide_lib/pcie_ide.c: the switch of a stream to one of its key sets.
use tee_io_validator.Common.{
  ℕ, ◌+◌, ◌*◌, ◌<◌, List, some, ◌≡◌, ◌≢◌, refl, ◌∙◌, arith, Outcome, returns, asserts, ◌>>=◌,
  >>=-of-returns, length, get_elem?,
}
use tee_io_validator.Kcbar.{
  mmio_read_reg32, mmio_write_reg32, field, set_field, key_set_select, tx_ctrl, tx_status,
  stream_register, Direction, stream_rx, KeySet, ks_0, ks_1, bad_key_set, prime_registers,
}
use tee_io_validator.Kcbar.Layout.{
  get_elem?-inside, mmio_write_reg32-inside, mmio_read_reg32-get_elem?,
}

-- `prime_key_set_0` and `prime_key_set_1` are set to opposite values.
unfoldable pub primed : KeySet → ℕ → Outcome ℕ
primed ks_0 w = returns (set_field (set_field w 256 2 1) 65536 2 0)
primed ks_1 w = returns (set_field (set_field w 256 2 0) 65536 2 1)
primed bad_key_set w = asserts

-- The ready bits that are read at the end are only logged.
unfoldable pub prime_rp_ide_key_set : List ℕ → ℕ → Direction → KeySet → Outcome (List ℕ)
prime_rp_ide_key_set regs rp_stream_index direction select =
    let (ctrl, status) = prime_registers direction in
    primed select 0 >>= λ _. mmio_read_reg32 regs (stream_register rp_stream_index ctrl) >>= λ w.
    primed select w >>= λ w'.
    mmio_write_reg32 regs (stream_register rp_stream_index ctrl) w' >>= λ regs'.
    mmio_read_reg32 regs' (stream_register rp_stream_index ctrl) >>= λ _.
    mmio_read_reg32 regs' (stream_register rp_stream_index status) >>= λ _. returns regs'

unfoldable pub set_rp_ide_key_set_select : List ℕ → ℕ → KeySet → Outcome (List ℕ)
set_rp_ide_key_set_select regs rp_stream_index select =
    mmio_read_reg32 regs (stream_register rp_stream_index tx_ctrl) >>= λ w. elim select [
      | ks_0 ↦ mmio_write_reg32 regs (stream_register rp_stream_index tx_ctrl) (set_field w 1 4 1)
      | ks_1 ↦ mmio_write_reg32 regs (stream_register rp_stream_index tx_ctrl) (set_field w 1 4 2)
      | bad_key_set ↦ asserts
    ]

-- The number of a key set, and its bits in the control register.
abbrev pub selected : KeySet → ℕ
selected ks_0 = 1
selected ks_1 = 2
selected bad_key_set = 0

abbrev pub prime_0 : ℕ → ℕ
prime_0 w = field w 256 2

abbrev pub prime_1 : ℕ → ℕ
prime_1 w = field w 65536 2

primed-fields :
    (select : KeySet) (w : ℕ)
    → select ≢ bad_key_set
    → (w' : ℕ) × (primed select w ≡ returns w')
      × (prime_0 w' + 2 * prime_1 w' ≡ selected select)
      × (key_set_select w' ≡ key_set_select w)
unfolding primed
primed-fields ks_0 w h = (
  set_field (set_field w 256 2 1) 65536 2 0,
  refl,
  (let a : prime_0 (set_field (set_field w 256 2 1) 65536 2 0) ≡ 1 = omega arith in
      let b : prime_1 (set_field (set_field w 256 2 1) 65536 2 0) ≡ 0 = omega arith in omega arith),
  omega arith,
)
primed-fields ks_1 w h = (
  set_field (set_field w 256 2 0) 65536 2 1,
  refl,
  (let a : prime_0 (set_field (set_field w 256 2 0) 65536 2 1) ≡ 0 = omega arith in
      let b : prime_1 (set_field (set_field w 256 2 0) 65536 2 1) ≡ 1 = omega arith in omega arith),
  omega arith,
)
primed-fields bad_key_set w h = absurd (h refl)

prime_tx :
    (regs : List ℕ) (index : ℕ) (select : KeySet)
    → select ≢ bad_key_set
    → stream_register index tx_status < length regs
    → (r : List ℕ) × (w : ℕ) × (prime_rp_ide_key_set regs index stream_rx select ≡ returns r)
      × (length r ≡ length regs)
      × (get_elem? r (stream_register index tx_ctrl) ≡ some w)
      × (prime_0 w + 2 * prime_1 w ≡ selected select)
      × ((i : ℕ) → stream_register index tx_ctrl ≢ i → get_elem? r i ≡ get_elem? regs i)
unfolding prime_rp_ide_key_set prime_registers
prime_tx regs index select good inside =
    let at = stream_register index tx_ctrl in
    let (w, ew) = get_elem?-inside regs at (omega (arith, inside)) in
    let (w0, e0, _, _) = primed-fields select 0 good in
    let (w1, e1, bits, _) = primed-fields select w good in
    let (r, er, l, here, other) = mmio_write_reg32-inside regs at w1 (omega (arith, inside)) in
    let (status, es) =
      get_elem?-inside r (stream_register index tx_status) (omega (arith, inside, l)) in
    (
      r,
      w1,
      >>=-of-returns (primed select 0) _ e0 (
          >>=-of-returns (mmio_read_reg32 regs at) _ (mmio_read_reg32-get_elem? regs at w ew) (
            >>=-of-returns (primed select w) _ e1 (
              >>=-of-returns (mmio_write_reg32 regs at w1) _ er (
                >>=-of-returns (mmio_read_reg32 r at) _ (mmio_read_reg32-get_elem? r at w1 here) (
                  >>=-of-returns (mmio_read_reg32 r (stream_register index tx_status)) _
                    (mmio_read_reg32-get_elem? r _ status es) refl))))),
      l,
      here,
      bits,
      other,
    )

select_tx :
    (regs : List ℕ) (index : ℕ) (select : KeySet) (w : ℕ)
    → select ≢ bad_key_set
    → stream_register index tx_ctrl < length regs
    → get_elem? regs (stream_register index tx_ctrl) ≡ some w
    → (r : List ℕ) × (set_rp_ide_key_set_select regs index select ≡ returns r)
      × (get_elem? r (stream_register index tx_ctrl) ≡ some (set_field w 1 4 (selected select)))
      × ((i : ℕ) → stream_register index tx_ctrl ≢ i → get_elem? r i ≡ get_elem? regs i)
unfolding set_rp_ide_key_set_select
select_tx regs index bad_key_set w good inside e = absurd (good refl)
select_tx regs index ks_0 w good inside e =
    let at = stream_register index tx_ctrl in
    let (r, er, l, here, other) = mmio_write_reg32-inside regs at (set_field w 1 4 1) inside in
    (
      r,
      >>=-of-returns (mmio_read_reg32 regs at) _ (mmio_read_reg32-get_elem? regs at w e) er,
      here,
      other,
    )
select_tx regs index ks_1 w good inside e =
    let at = stream_register index tx_ctrl in
    let (r, er, l, here, other) = mmio_write_reg32-inside regs at (set_field w 1 4 2) inside in
    (
      r,
      >>=-of-returns (mmio_read_reg32 regs at) _ (mmio_read_reg32-get_elem? regs at w e) er,
      here,
      other,
    )

selected-fields :
    (select : KeySet) (w : ℕ)
    → select ≢ bad_key_set
    → (key_set_select (set_field w 1 4 (selected select)) ≡ selected select)
      × (prime_0 (set_field w 1 4 (selected select))
            + 2 * prime_1 (set_field w 1 4 (selected select))
          ≡ prime_0 w + 2 * prime_1 w)
selected-fields ks_0 w h = (omega arith, omega arith)
selected-fields ks_1 w h = (omega arith, omega arith)
selected-fields bad_key_set w h = absurd (h refl)

-- Priming the transmitting side of a stream with a key set, which the root port does for the
-- receiving direction of the device, and then selecting the same key set, for registers that are
-- mapped: both return. Of the two prime bits exactly that of the key set is then set, the key set
-- is selected, and no register other than the control register is changed.
pub set_rp_ide_key_set_select-prime_rp_ide_key_set :
    (regs : List ℕ) (index : ℕ) (select : KeySet)
    → select ≢ bad_key_set
    → stream_register index tx_status < length regs
    → (regs' : List ℕ) × (w : ℕ) × ((prime_rp_ide_key_set regs index stream_rx select >>= λ r.
          set_rp_ide_key_set_select r index select)
        ≡ returns regs')
      × (get_elem? regs' (stream_register index tx_ctrl) ≡ some w)
      × (prime_0 w + 2 * prime_1 w ≡ selected select)
      × (key_set_select w ≡ selected select)
      × ((i : ℕ) → stream_register index tx_ctrl ≢ i → get_elem? regs' i ≡ get_elem? regs i)
set_rp_ide_key_set_select-prime_rp_ide_key_set regs index select good inside =
    let (r1, w1, e1, l1, here1, bits, other1) = prime_tx regs index select good inside in
    let (r2, e2, here2, other2) =
      select_tx r1 index select w1 good (omega (arith, inside, l1)) here1 in
    let (sel, kept) = selected-fields select w1 good in
    (
      r2,
      set_field w1 1 4 (selected select),
      >>=-of-returns (prime_rp_ide_key_set regs index stream_rx select) _ e1 e2,
      here2,
      kept ∙ bits,
      sel,
      λ i o. other2 i o ∙ other1 i o,
    )
