-- ===== src/Kcbar/Layout/Program.antt =====
-- The whole of `cfg_rootport_ide_keys`.
use mathlib.Core.Path.{subst}
use tee_io_validator.Common.{
  ℕ, ◌+◌, ◌*◌, ◌%◌, ◌≤◌, ◌<◌, List, some, ◌≡◌, ◌≢◌, inl, ◌∙◌, arith, sym, returns, ◌>>=◌, length,
  get_elem?,
}
use tee_io_validator.Kcbar.{
  mmio_read_reg32, num_stream_supported, Register, stream_register, Direction, bad_direction,
  KeySet, SubStream, bad_sub_stream, key_slots, iv_slots, keyset_register, set_field,
  cfg_rootport_ide_keys,
}
use tee_io_validator.Kcbar.Layout.{
  Outside, sub_slot, slots_of, region_size, kcbar_set_key_slot-SlotWritten, slots-inside,
  register-inside, keyset_register-returns, set_sub_stream-set, set_slot, set_slot-other, sub_unit,
  mmio_write_reg32-inside, get_elem?-inside, mmio_read_reg32-get_elem?,
}

-- What a call has done: the slot holds the key and the IV, the key set register `r` of the other
-- side holds the slot in the field of the sub-stream, its other fields are as before, and so is
-- every other register.
abbrev pub Programs : List ℕ → ℕ → ℕ → Direction → KeySet → SubStream → ℕ → List ℕ → List ℕ → Type 0
Programs regs cap index d k sub slot key iv =
    (r : Register) × (old : ℕ) × (new : ℕ) × (regs' : List ℕ) × (keyset_register d k ≡ returns r)
    × (get_elem? regs (stream_register index r) ≡ some old)
    × (cfg_rootport_ide_keys regs index d k sub slot key iv ≡ returns regs')
    × ((i : ℕ) → i < 8 → get_elem? regs' (key_slots cap d + 8 * slot + i) ≡ get_elem? key i)
    × ((i : ℕ) → i < 2 → get_elem? regs' (iv_slots cap d + 2 * slot + i) ≡ get_elem? iv i)
    × (get_elem? regs' (stream_register index r) ≡ some new)
    × (sub_slot sub new ≡ slot % 1024)
    × ((other : SubStream) → other ≢ sub → sub_slot other new ≡ sub_slot other old)
    × ((i : ℕ)
        → Outside (key_slots cap d + 8 * slot) 8 i
        → Outside (iv_slots cap d + 2 * slot) 2 i
        → stream_register index r ≢ i
        → get_elem? regs' i ≡ get_elem? regs i)

-- For a stream and a slot that exist and registers that are mapped whole, the call returns. The
-- slot then holds the key and the IV, the key set register of the other side holds the slot in
-- the field of the sub-stream and the other fields are as before, and so is every other register.
pub cfg_rootport_ide_keys-Programs :
    (regs : List ℕ) (cap index : ℕ) (d : Direction) (k : KeySet) (sub : SubStream) (slot : ℕ)
    (key iv : List ℕ)
    → mmio_read_reg32 regs 0 ≡ returns cap
    → region_size cap ≤ length regs
    → index ≤ num_stream_supported cap
    → d ≢ bad_direction
    → sub ≢ bad_sub_stream
    → slot < slots_of cap d
    → length key ≡ 8
    → length iv ≡ 2
    → Programs regs cap index d k sub slot key iv
unfolding cfg_rootport_ide_keys
cfg_rootport_ide_keys-Programs regs capabilities index d k sub slot key iv e size stream dir sub_ok
      exists key_size iv_size =
    let key_at = key_slots capabilities d + 8 * slot in
    let iv_at = iv_slots capabilities d + 2 * slot in
    let (low, apart, end) = slots-inside capabilities d slot exists in
    let (r, er) = keyset_register-returns d k dir in
    let at = stream_register index r in
    let (above, below) = register-inside capabilities index r stream in
    let (r1, e1, written) =
      kcbar_set_key_slot-SlotWritten regs capabilities d slot key iv e size exists key_size
        iv_size in
    let (l1, keys, ivs, frame) = written in
    let (old, eo) = get_elem?-inside regs at (omega arith) in
    let before_key : Outside key_at (length key) at = inl (omega arith) in
    let before_iv : Outside iv_at (length iv) at = inl (omega arith) in
    let kept : get_elem? r1 at ≡ some old = frame at before_key before_iv ∙ eo in
    let new = set_field old (sub_unit sub) 1024 slot in
    let (r2, e2, l2, here, other) = mmio_write_reg32-inside r1 at new (omega arith) in
    (
      r,
      old,
      new,
      r2,
      er,
      eo,
      rw (cfg_rootport_ide_keys, e1, ◌>>=◌)
          (rw (er, ◌>>=◌)
            (rw (mmio_read_reg32-get_elem? r1 at old kept, ◌>>=◌)
              (rw (set_sub_stream-set sub slot old sub_ok, ◌>>=◌) e2))),
      λ i lt. other (key_at + i) (λ same. absurd (omega arith)) ∙ keys i (omega arith),
      λ i lt. other (iv_at + i) (λ same. absurd (omega arith)) ∙ ivs i (omega arith),
      here,
      set_slot sub slot old sub_ok,
      λ o ne. set_slot-other sub o slot old ne sub_ok,
      λ i a b ne.
          other i ne
          ∙ frame i (subst (λ n. Outside key_at n i) (sym key_size) a)
              (subst (λ n. Outside iv_at n i) (sym iv_size) b),
    )
