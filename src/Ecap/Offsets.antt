-- ===== src/Ecap/Offsets.antt =====
-- Where the register blocks of the IDE capability lie, and that the walk to a block reads only
-- what lies before it.
use tee_io_validator.Common.{
  ℕ, zero, suc, ◌+◌, ◌-◌, ◌*◌, ◌≤◌, ◌<◌, true, ◌&&◌, ◌≡◌, ◌≢◌, inl, inr, refl, ap, arith, returns,
  ◌>>=◌, ◌>>◌, teeio_assert, ltb, leb, ◌==◌, Bool-cases, teeio_assert-eq-returns,
  teeio_assert-holds,
}
use tee_io_validator.Ecap.{
  IdeType, sel_ide, lnk_ide, na_ide, lnk_ide_supported, sel_ide_supported, num_sel_ide, lnk_blocks,
  sel_blocks, num_addr_assoc_reg_blocks, block_loop, get_ide_reg_block_offset,
}

-- The number of identifiers of a kind, the first of them, and the offset of the first block and
-- the size of a block.
abbrev pub blocks_of : IdeType → ℕ → ℕ
blocks_of lnk_ide cap = lnk_blocks cap
blocks_of sel_ide cap = sel_blocks cap
blocks_of na_ide cap = sel_blocks cap

abbrev pub first_id : IdeType → ℕ → ℕ
first_id lnk_ide cap = 0
first_id sel_ide cap = lnk_blocks cap
first_id na_ide cap = lnk_blocks cap

abbrev pub block_size : IdeType → ℕ
block_size lnk_ide = 8
block_size sel_ide = 32
block_size na_ide = 32

-- Each of `n` selective blocks from `base` has one address association.
abbrev pub OneAssociation : (ℕ → ℕ) → ℕ → ℕ → Type 0
OneAssociation space base n =
    (k : ℕ) → k < n → num_addr_assoc_reg_blocks (space (base + 32 * k)) ≡ 1

abbrev pub sel_base : (ℕ → ℕ) → ℕ → ℕ
sel_base space ecap = ecap + 12 + 8 * lnk_blocks (space (ecap + 4))

abbrev pub first_block : IdeType → (ℕ → ℕ) → ℕ → ℕ
first_block lnk_ide space ecap = ecap + 12
first_block sel_ide space ecap = sel_base space ecap
first_block na_ide space ecap = sel_base space ecap

pub block_loop-at :
    (space : ℕ → ℕ) (k base : ℕ)
    → OneAssociation space base k
    → block_loop space k base ≡ returns (base + 32 * k)
unfolding block_loop
block_loop-at space zero base h = ap returns (omega arith)
block_loop-at space (suc k) base h =
    let here : base + 32 * 0 ≡ base = omega arith in
    let one : num_addr_assoc_reg_blocks (space base) ≡ 1 = rw (← here) (h 0 (omega arith)) in
    let next : OneAssociation space (base + 32) k = λ j lt.
      let e : base + 32 + 32 * j ≡ base + 32 * (j + 1) = omega arith in
      rw e (h (j + 1) (omega arith)) in
    let rest = block_loop-at space k (base + 32) next in
    let e : base + 20 + 12 * 1 ≡ base + 32 = omega arith in
    rw (block_loop, one, teeio_assert, ◌>>◌, ◌>>=◌, e, rest) (ap returns (omega arith))

-- What a block loop reads lies before its result.
block_loop-before :
    (space space' : ℕ → ℕ) (k base off : ℕ)
    → block_loop space k base ≡ returns off
    → (base ≤ off)
      × (((i : ℕ) → i < off → space' i ≡ space i) → block_loop space' k base ≡ returns off)
unfolding block_loop
block_loop-before space space' zero base off h = (ground arith, λ same. h)
block_loop-before space space' (suc k) base off h =
    let blocks = num_addr_assoc_reg_blocks (space base) in
    let (one, h') = teeio_assert-eq-returns (blocks == 1) _ h in
    let (le, rest) = block_loop-before space space' k (base + 20 + 12 * blocks) off h' in
    (
      omega (arith, le),
      λ same.
          let e : space' base ≡ space base = same base (omega (arith, le)) in
          rw (block_loop, e) (teeio_assert-holds one (rest same)),
    )

sel_block-at :
    (space : ℕ → ℕ) (ecap k : ℕ)
    → k < sel_blocks (space (ecap + 4))
    → OneAssociation space (sel_base space ecap) k
    → get_ide_reg_block_offset space sel_ide (lnk_blocks (space (ecap + 4)) + k) ecap
      ≡ returns (sel_base space ecap + 32 * k)
unfolding get_ide_reg_block_offset
sel_block-at space ecap k lt h =
    let cap = space (ecap + 4) in
    let lnk = lnk_blocks cap in
    let e : lnk + k - lnk ≡ k = omega arith in
    let walk = block_loop-at space k (sel_base space ecap) h in
    elim (Bool-cases (sel_ide_supported cap)) [
      | inr none_there ↦ absurd (ground arith)
      | inl there ↦
          let above : leb lnk (lnk + k) ≡ true = ground arith in
          let below : leb (lnk + k) (num_sel_ide cap + lnk) ≡ true = ground arith in
          let inside : (leb lnk (lnk + k) && leb (lnk + k) (num_sel_ide cap + lnk)) ≡ true =
            rw (above, below) refl in
          rw e (teeio_assert-holds there (teeio_assert-holds inside walk))
    ]

-- The offset of a block that exists.
pub get_ide_reg_block_offset-at :
    (space : ℕ → ℕ) (ecap k : ℕ) (t : IdeType)
    → k < blocks_of t (space (ecap + 4))
    → (t ≢ lnk_ide → OneAssociation space (sel_base space ecap) k)
    → get_ide_reg_block_offset space t (first_id t (space (ecap + 4)) + k) ecap
      ≡ returns (first_block t space ecap + block_size t * k)
unfolding get_ide_reg_block_offset
get_ide_reg_block_offset-at space ecap k lnk_ide lt h =
    let cap = space (ecap + 4) in
    let e : 0 + k ≡ k = omega arith in
    elim (Bool-cases (lnk_ide_supported cap)) [
      | inr none_there ↦ absurd (ground arith)
      | inl there ↦ rw e (teeio_assert-holds (ground arith) (teeio_assert-holds there refl))
    ]
get_ide_reg_block_offset-at space ecap k na_ide lt h = sel_block-at space ecap k lt (h (λ e. cc))
get_ide_reg_block_offset-at space ecap k sel_ide lt h = sel_block-at space ecap k lt (h (λ e. cc))

sel_block-before :
    (space space' : ℕ → ℕ) (ide_id ecap off : ℕ)
    → get_ide_reg_block_offset space sel_ide ide_id ecap ≡ returns off
    → (ecap + 12 ≤ off)
      × (((i : ℕ) → i < off → space' i ≡ space i)
          → get_ide_reg_block_offset space' sel_ide ide_id ecap ≡ returns off)
unfolding get_ide_reg_block_offset
sel_block-before space space' id ecap off h =
    let cap = space (ecap + 4) in
    let lnk = lnk_blocks cap in
    let (a, h1) = teeio_assert-eq-returns (sel_ide_supported cap) _ h in
    let (b, h2) = teeio_assert-eq-returns (leb lnk id && leb id (num_sel_ide cap + lnk)) _ h1 in
    let (le, walk) = block_loop-before space space' (id - lnk) (sel_base space ecap) off h2 in
    (
      omega (arith, le),
      λ same.
          let c : space' (ecap + 4) ≡ cap = same (ecap + 4) (omega (arith, le)) in
          rw (get_ide_reg_block_offset, c)
            (teeio_assert-holds a (teeio_assert-holds b (walk same))),
    )

-- The walk to a block reads only what lies before it.
pub get_ide_reg_block_offset-before :
    (space space' : ℕ → ℕ) (t : IdeType) (ide_id ecap off : ℕ)
    → get_ide_reg_block_offset space t ide_id ecap ≡ returns off
    → (ecap + 12 ≤ off)
      × (((i : ℕ) → i < off → space' i ≡ space i)
          → get_ide_reg_block_offset space' t ide_id ecap ≡ returns off)
unfolding get_ide_reg_block_offset
get_ide_reg_block_offset-before space space' lnk_ide id ecap off h =
    let cap = space (ecap + 4) in
    let (a, h1) = teeio_assert-eq-returns (ltb id (lnk_blocks cap)) _ h in
    let (b, h2) = teeio_assert-eq-returns (lnk_ide_supported cap) _ h1 in
    let e : ecap + 12 + 8 * id ≡ off = ground (arith, h2) in
    (
      omega arith,
      λ same.
          let c : space' (ecap + 4) ≡ cap = same (ecap + 4) (omega arith) in
          rw (get_ide_reg_block_offset, c) h,
    )
get_ide_reg_block_offset-before space space' na_ide id ecap off h =
    sel_block-before space space' id ecap off h
get_ide_reg_block_offset-before space space' sel_ide id ecap off h =
    sel_block-before space space' id ecap off h
