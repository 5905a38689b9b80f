-- ===== src/Kcbar/Layout.antt =====
-- What `cfg_rootport_ide_keys` writes into the registers of the root complex, and what it leaves.
pub mod Program
pub mod Enable
use tee_io_validator.Common.{
  ℕ, zero, suc, ◌+◌, ◌-◌, ◌*◌, ◌/◌, ◌%◌, ◌≤◌, ◌<◌, Bool, true, false, List, [], ◌∷◌, Option, none,
  some, ◌≡◌, ◌≢◌, ◌⊎◌, inl, inr, refl, sym, ap, ◌∙◌, arith, Outcome, returns, ◌>>=◌, ltb, ◌==◌,
  if◌then◌else◌, length, get_elem?, modify, length-modify, get_elem?-modify, Bool-cases,
  Option-cases,
}
use tee_io_validator.Kcbar.{
  mmio_read_reg32, mmio_write_reg32, field, set_field, num_stream_supported, num_tx_key_slots,
  num_rx_key_slots, pr, npr, cpl, Register, register_offset, control, tx_ctrl, tx_status, rx_ctrl,
  rx_status, tx_key_set_0, tx_key_set_1, rx_key_set_0, rx_key_set_1, stream_register, Direction,
  stream_rx, stream_tx, bad_direction, KeySet, ks_0, ks_1, bad_key_set, SubStream, sub_stream_pr,
  sub_stream_npr, sub_stream_cpl, bad_sub_stream, reg_memcpy_dw, tx_key_slots, rx_key_slots,
  tx_iv_slots, rx_iv_slots, key_slots, iv_slots, kcbar_set_key_slot, keyset_register,
  set_sub_stream, cfg_rootport_ide_keys,
}

pub get_elem?-inside : (xs : List ℕ) (i : ℕ) → i < length xs → (x : ℕ) × (get_elem? xs i ≡ some x)
get_elem?-inside [] i h = absurd (omega arith)
get_elem?-inside (x ∷ xs) zero h = (x, refl)
get_elem?-inside (x ∷ xs) (suc i) h = get_elem?-inside xs i (omega arith)

get_elem?-modify-other :
    (xs : List ℕ) (i j : ℕ) (f : ℕ → ℕ) → i ≢ j → get_elem? (modify xs i f) j ≡ get_elem? xs j
get_elem?-modify-other [] i j f h = refl
get_elem?-modify-other (x ∷ xs) zero zero f h = absurd (h refl)
get_elem?-modify-other (x ∷ xs) zero (suc j) f h = refl
get_elem?-modify-other (x ∷ xs) (suc i) zero f h = refl
get_elem?-modify-other (x ∷ xs) (suc i) (suc j) f h =
    get_elem?-modify-other xs i j f (λ e. h (ap suc e))

-- Outside of `size` dwords from `at`.
abbrev pub Outside : ℕ → ℕ → ℕ → Type 0
Outside at size i = (i < at) ⊎ (at + size ≤ i)

pub mmio_write_reg32-inside :
    (regs : List ℕ) (at w : ℕ)
    → at < length regs
    → (regs' : List ℕ) × (mmio_write_reg32 regs at w ≡ returns regs')
      × (length regs' ≡ length regs)
      × (get_elem? regs' at ≡ some w)
      × ((i : ℕ) → at ≢ i → get_elem? regs' i ≡ get_elem? regs i)
unfolding mmio_write_reg32
mmio_write_reg32-inside regs at w h =
    let (x, e) = get_elem?-inside regs at h in
    let inside : ltb at (length regs) ≡ true = ground arith in
    (
      modify regs at (λ _. w),
      rw (mmio_write_reg32, inside) refl,
      length-modify regs at (λ _. w),
      get_elem?-modify regs at (λ _. w) e,
      λ i o. get_elem?-modify-other regs at i (λ _. w) o,
    )

reg_memcpy_dw-inside :
    (regs : List ℕ) (at : ℕ) (ws : List ℕ)
    → at + length ws ≤ length regs
    → (regs' : List ℕ) × (reg_memcpy_dw regs at ws ≡ returns regs')
      × (length regs' ≡ length regs)
      × ((k : ℕ) → k < length ws → get_elem? regs' (at + k) ≡ get_elem? ws k)
      × ((i : ℕ) → Outside at (length ws) i → get_elem? regs' i ≡ get_elem? regs i)
unfolding reg_memcpy_dw
reg_memcpy_dw-inside regs at [] h = (regs, refl, refl, λ k lt. absurd (omega arith), λ i o. refl)
reg_memcpy_dw-inside regs at (w ∷ ws) h =
    let (r1, e1, l1, here, other) = mmio_write_reg32-inside regs at w (omega arith) in
    let (r2, e2, l2, values, frame) = reg_memcpy_dw-inside r1 (at + 1) ws (omega arith) in
    (
      r2,
      rw (e1, ◌>>=◌) e2,
      l2 ∙ l1,
      λ k lt. value r1 r2 here values frame k lt,
      λ i o. frame i (ground arith) ∙ other i (ground arith),
    )
  where
    value :
        (r1 r2 : List ℕ)
        → get_elem? r1 at ≡ some w
        → ((k : ℕ) → k < length ws → get_elem? r2 (at + 1 + k) ≡ get_elem? ws k)
        → ((i : ℕ) → Outside (at + 1) (length ws) i → get_elem? r2 i ≡ get_elem? r1 i)
        → (k : ℕ) → k < suc (length ws)
        → get_elem? r2 (at + k) ≡ get_elem? (w ∷ ws) k
    value r1 r2 here values frame zero lt =
        let z : at + 0 ≡ at = omega arith in rw z (frame at (inl (omega arith)) ∙ here)
    value r1 r2 here values frame (suc k) lt =
        let z : at + suc k ≡ at + 1 + k = omega arith in rw z (values k (omega arith))

pub mmio_read_reg32-get_elem? :
    (regs : List ℕ) (at w : ℕ) → get_elem? regs at ≡ some w → mmio_read_reg32 regs at ≡ returns w
unfolding mmio_read_reg32
mmio_read_reg32-get_elem? regs at w e = rw (mmio_read_reg32, e) refl

-- The slot of a sub-stream in a key set register.
abbrev pub sub_slot : SubStream → ℕ → ℕ
sub_slot sub_stream_pr keyset = pr keyset
sub_slot sub_stream_npr keyset = npr keyset
sub_slot sub_stream_cpl keyset = cpl keyset
sub_slot bad_sub_stream keyset = 0

-- An assignment to the field of a sub-stream.
abbrev pub sub_unit : SubStream → ℕ
sub_unit sub_stream_pr = 1
sub_unit sub_stream_npr = 1024
sub_unit sub_stream_cpl = 1048576
sub_unit bad_sub_stream = 1

pub set_slot :
    (sub : SubStream) (v w : ℕ)
    → sub ≢ bad_sub_stream
    → sub_slot sub (set_field w (sub_unit sub) 1024 v) ≡ v % 1024
set_slot sub_stream_pr v w h = omega arith
set_slot sub_stream_npr v w h = omega arith
set_slot sub_stream_cpl v w h = omega arith
set_slot bad_sub_stream v w h = absurd (h refl)

pub set_slot-other :
    (sub other : SubStream) (v w : ℕ)
    → other ≢ sub
    → sub ≢ bad_sub_stream
    → sub_slot other (set_field w (sub_unit sub) 1024 v) ≡ sub_slot other w
set_slot-other sub_stream_pr sub_stream_pr v w o h = absurd (o refl)
set_slot-other sub_stream_npr sub_stream_npr v w o h = absurd (o refl)
set_slot-other sub_stream_cpl sub_stream_cpl v w o h = absurd (o refl)
set_slot-other bad_sub_stream other v w o h = absurd (h refl)
set_slot-other sub bad_sub_stream v w o h = refl
set_slot-other sub_stream_pr sub_stream_npr v w o h = omega arith
set_slot-other sub_stream_pr sub_stream_cpl v w o h = omega arith
set_slot-other sub_stream_npr sub_stream_pr v w o h = omega arith
set_slot-other sub_stream_npr sub_stream_cpl v w o h = omega arith
set_slot-other sub_stream_cpl sub_stream_pr v w o h = omega arith
set_slot-other sub_stream_cpl sub_stream_npr v w o h = omega arith

pub set_sub_stream-set :
    (sub : SubStream) (v w : ℕ)
    → sub ≢ bad_sub_stream
    → set_sub_stream sub v w ≡ returns (set_field w (sub_unit sub) 1024 v)
unfolding set_sub_stream
set_sub_stream-set sub_stream_pr v w h = refl
set_sub_stream-set sub_stream_npr v w h = refl
set_sub_stream-set sub_stream_cpl v w h = refl
set_sub_stream-set bad_sub_stream v w h = absurd (h refl)

pub keyset_register-returns :
    (d : Direction) (k : KeySet)
    → d ≢ bad_direction
    → (r : Register) × (keyset_register d k ≡ returns r)
unfolding keyset_register
keyset_register-returns stream_tx ks_0 h = (rx_key_set_0, refl)
keyset_register-returns stream_tx ks_1 h = (rx_key_set_1, refl)
keyset_register-returns stream_tx bad_key_set h = (rx_key_set_1, refl)
keyset_register-returns stream_rx ks_0 h = (tx_key_set_0, refl)
keyset_register-returns stream_rx ks_1 h = (tx_key_set_1, refl)
keyset_register-returns stream_rx bad_key_set h = (tx_key_set_1, refl)
keyset_register-returns bad_direction k h = absurd (h refl)

-- How many slots the side has that a direction of the device stands for.
abbrev pub slots_of : ℕ → Direction → ℕ
slots_of cap stream_tx = num_rx_key_slots cap + 1
slots_of cap _ = num_tx_key_slots cap + 1

-- The end of the registers.
abbrev pub region_size : ℕ → ℕ
region_size cap = rx_iv_slots cap + 2 * (num_rx_key_slots cap + 1)

pub slots-inside :
    (cap : ℕ) (d : Direction) (slot : ℕ)
    → slot < slots_of cap d
    → (tx_key_slots cap ≤ key_slots cap d + 8 * slot)
      × (key_slots cap d + 8 * slot + 8 ≤ iv_slots cap d + 2 * slot)
      × (iv_slots cap d + 2 * slot + 2 ≤ region_size cap)
slots-inside capabilities stream_tx slot h = (omega arith, omega arith, omega arith)
slots-inside capabilities stream_rx slot h = (omega arith, omega arith, omega arith)
slots-inside capabilities bad_direction slot h = (omega arith, omega arith, omega arith)

pub register-inside :
    (cap index : ℕ) (r : Register)
    → index ≤ num_stream_supported cap
    → (0 < stream_register index r) × (stream_register index r < tx_key_slots cap)
register-inside capabilities index r h = (omega arith, grind arith)

-- One slot is written: the key and the IV are in it and the other registers are as they were.
abbrev pub SlotWritten : List ℕ → List ℕ → ℕ → ℕ → List ℕ → List ℕ → Type 0
SlotWritten regs regs' key_at iv_at key iv =
    (length regs' ≡ length regs)
    × ((k : ℕ) → k < length key → get_elem? regs' (key_at + k) ≡ get_elem? key k)
    × ((k : ℕ) → k < length iv → get_elem? regs' (iv_at + k) ≡ get_elem? iv k)
    × ((i : ℕ)
        → Outside key_at (length key) i
        → Outside iv_at (length iv) i
        → get_elem? regs' i ≡ get_elem? regs i)

pub kcbar_set_key_slot-SlotWritten :
    (regs : List ℕ) (cap : ℕ) (d : Direction) (slot : ℕ) (key iv : List ℕ)
    → mmio_read_reg32 regs 0 ≡ returns cap
    → region_size cap ≤ length regs
    → slot < slots_of cap d
    → length key ≡ 8
    → length iv ≡ 2
    → (regs' : List ℕ) × (kcbar_set_key_slot regs d slot key iv ≡ returns regs')
      × SlotWritten regs regs' (key_slots cap d + 8 * slot) (iv_slots cap d + 2 * slot) key iv
unfolding kcbar_set_key_slot
kcbar_set_key_slot-SlotWritten regs capabilities d slot key iv e size exists key_size iv_size =
    let key_at = key_slots capabilities d + 8 * slot in
    let iv_at = iv_slots capabilities d + 2 * slot in
    let (low, apart, end) = slots-inside capabilities d slot exists in
    let (r1, e1, l1, values1, frame1) = reg_memcpy_dw-inside regs key_at key (omega arith) in
    let (r2, e2, l2, values2, frame2) = reg_memcpy_dw-inside r1 iv_at iv (omega arith) in
    (
      r2,
      rw (kcbar_set_key_slot, e, ◌>>=◌) (rw (e1, ◌>>=◌) e2),
      (
        l2 ∙ l1,
        λ k lt. frame2 (key_at + k) (inl (omega arith)) ∙ values1 k lt,
        values2,
        λ i a b. frame2 i b ∙ frame1 i a,
      ),
    )
