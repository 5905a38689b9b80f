-- ===== src/Ecap/Registers/Enable.antt =====
-- The bits of the control register of a block: set, read back, and the others kept.
use tee_io_validator.Common.{
  ℕ, ◌/◌, ◌%◌, ◌<◌, Bool, true, false, ◌≡◌, ◌≢◌, refl, ap, arith, returns, ◌>>=◌, ◌==◌,
  if◌then◌else◌,
}
use tee_io_validator.Kcbar.{field, set_field}
use tee_io_validator.Ecap.{
  IdeType, enabled, ctrl_offset, enable_ide_stream_in_ecap, is_ide_enabled, set_pcrc_in_ecap,
  set_sel_ide_for_cfg_req_in_ecap, read_ide_stream_ctrl_in_ecap,
}
use tee_io_validator.Ecap.Registers.{update_ctrl-at}

enabled_bit : (w : ℕ) (b : Bool) → (enabled (set_field w 1 2 (if b then 1 else 0)) == 1) ≡ b
enabled_bit w true = let e : enabled (set_field w 1 2 1) ≡ 1 = omega arith in ground arith
enabled_bit w false = let e : enabled (set_field w 1 2 0) ≡ 0 = omega arith in ground arith

keeps_rest : (w : ℕ) (b : Bool) → set_field w 1 2 (if b then 1 else 0) / 2 ≡ w / 2
keeps_rest w true = omega arith
keeps_rest w false = omega arith

-- For a block whose control register is found at an offset, setting the enable bit returns. The
-- bit is then read back as it was set, the other bits of the control register and all other
-- registers of the configuration space are as before, and the register is still found there.
pub enable_ide_stream_in_ecap-is_ide_enabled :
    (space : ℕ → ℕ) (ecap : ℕ) (t : IdeType) (ide_id at : ℕ) (enable : Bool)
    → ctrl_offset space t ide_id ecap ≡ returns at
    → (space' : ℕ → ℕ) × (enable_ide_stream_in_ecap space ecap t ide_id enable ≡ returns space')
      × (is_ide_enabled space' t ide_id ecap ≡ returns enable)
      × (ctrl_offset space' t ide_id ecap ≡ returns at)
      × (space' at / 2 ≡ space at / 2)
      × ((i : ℕ) → at ≢ i → space' i ≡ space i)
unfolding enable_ide_stream_in_ecap is_ide_enabled
enable_ide_stream_in_ecap-is_ide_enabled space ecap t id at enable h =
    let (space', e, still, here, other) = update_ctrl-at space t id ecap at _ h in
    (
      space',
      e,
      rw (is_ide_enabled, still, ◌>>=◌, here) (ap returns (enabled_bit (space at) enable)),
      still,
      rw here (keeps_rest (space at) enable),
      other,
    )

abbrev bit : Bool → ℕ
bit b = if b then 1 else 0

bit-small : (b : Bool) → bit b < 2
bit-small true = omega arith
bit-small false = omega arith

-- Three changes of a register one after the other, at bits 8, 9 and 0.
three_bits :
    (w w1 w2 w3 a b c : ℕ)
    → a < 2
    → b < 2
    → c < 2
    → w1 ≡ set_field w 256 2 a
    → w2 ≡ set_field w1 512 2 b
    → w3 ≡ set_field w2 1 2 c
    → (field w3 256 2 ≡ a)
      × (field w3 512 2 ≡ b)
      × (enabled w3 ≡ c)
      × (w3 / 1024 ≡ w / 1024)
      × (w3 % 256 / 2 ≡ w % 256 / 2)
three_bits w w1 w2 w3 a b c ha hb hc e1 e2 e3 =
    let p1 : field w1 256 2 ≡ a = omega arith in
    let p2 : w1 / 512 ≡ w / 512 = omega arith in
    let p3 : w1 % 256 ≡ w % 256 = omega arith in
    let c1 : field w2 512 2 ≡ b = omega arith in
    let c2 : w2 / 1024 ≡ w1 / 1024 = omega arith in
    let c3 : w2 % 512 ≡ w1 % 512 = omega arith in
    let b1 : enabled w3 ≡ c = omega arith in
    let b2 : w3 / 2 ≡ w2 / 2 = omega arith in
    (omega arith, omega arith, b1, omega arith, omega arith)

-- For a block whose control register is found at an offset, setting the PCRC bit, then the bit for
-- configuration requests and then the enable bit returns, and the control register then reads with
-- the three bits as they were set and all others as before.
pub read_ide_stream_ctrl_in_ecap-bits :
    (space : ℕ → ℕ) (ecap : ℕ) (t : IdeType) (ide_id at : ℕ) (pcrc cfg enable : Bool)
    → ctrl_offset space t ide_id ecap ≡ returns at
    → (space' : ℕ → ℕ) × (w : ℕ) × ((set_pcrc_in_ecap space t ide_id ecap pcrc >>= λ s1.
          set_sel_ide_for_cfg_req_in_ecap s1 t ide_id ecap cfg >>= λ s2.
          enable_ide_stream_in_ecap s2 ecap t ide_id enable)
        ≡ returns space')
      × (read_ide_stream_ctrl_in_ecap space' t ide_id ecap ≡ returns w)
      × (field w 256 2 ≡ bit pcrc)
      × (field w 512 2 ≡ bit cfg)
      × (enabled w ≡ bit enable)
      × (w / 1024 ≡ space at / 1024)
      × (w % 256 / 2 ≡ space at % 256 / 2)
unfolding set_pcrc_in_ecap set_sel_ide_for_cfg_req_in_ecap enable_ide_stream_in_ecap
    read_ide_stream_ctrl_in_ecap
read_ide_stream_ctrl_in_ecap-bits space ecap t id at pcrc cfg enable h =
    let (s1, e1, h1, v1, _) =
      update_ctrl-at space t id ecap at (λ w. set_field w 256 2 (bit pcrc)) h in
    let (s2, e2, h2, v2, _) =
      update_ctrl-at s1 t id ecap at (λ w. set_field w 512 2 (bit cfg)) h1 in
    let (s3, e3, h3, v3, _) =
      update_ctrl-at s2 t id ecap at (λ w. set_field w 1 2 (bit enable)) h2 in
    let (b1, b2, b3, b4, b5) =
      three_bits (space at) (s1 at) (s2 at) (s3 at) (bit pcrc) (bit cfg) (bit enable)
        (bit-small pcrc) (bit-small cfg) (bit-small enable) v1 v2 v3 in
    (
      s3,
      s3 at,
      rw (e1, ◌>>=◌, e2, ◌>>=◌) e3,
      rw (read_ide_stream_ctrl_in_ecap, h3, ◌>>=◌) refl,
      b1,
      b2,
      b3,
      b4,
      b5,
    )
