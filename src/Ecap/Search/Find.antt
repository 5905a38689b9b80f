-- ===== src/Ecap/Search/Find.antt =====
-- `find_free_rp_stream_index_and_ide_id` finds the first block, and for a root port the first
-- stream of the root complex, that are not enabled.
use tee_io_validator.Common.{
  ℕ, ◌+◌, ◌-◌, ◌*◌, ◌≤◌, ◌<◌, Bool, true, false, List, Option, none, some, ◌≡◌, ◌≢◌, refl, arith,
  Outcome, returns, ◌>>=◌, ◌==◌, if◌then◌else◌, length, >>=-of-returns, ◌&&◌, ◌||◌, not, get_elem?,
}
use tee_io_validator.Kcbar.{
  num_stream_supported, control, stream_register, mmio_read_reg32,
  is_rp_ide_stream_enabled_in_kcbar,
}
use tee_io_validator.Kcbar.Layout.{mmio_read_reg32-get_elem?}
use tee_io_validator.Ecap.{
  IdeType, sel_ide, lnk_ide, na_ide, TopologyType, topology_sel_ide, topology_link_ide,
  topology_sel_link_ide, topology_type_num, PortContext, lnk_ide_supported, sel_ide_supported,
  lnk_blocks, sel_blocks, enabled, ide_type_of, ctrl_in_block, ctrl_offset, is_ide_enabled,
}
use tee_io_validator.Ecap.Offsets.{
  blocks_of, first_id, block_size, first_block, OneAssociation, sel_base,
  get_ide_reg_block_offset-at,
}
use tee_io_validator.Ecap.Search.Free.{
  Least, free_link_loop-Least, free_sel_loop-Least, free_stream_loop-Least,
}
use tee_io_validator.Ecap.Search.{
  free_link_loop, free_sel_loop, free_block, free_stream_loop, FreeStream,
  find_free_rp_stream_index, find_free_rp_stream_index_and_ide_id,
}

-- What the searches test is what `is_ide_enabled` returns.
is_ide_enabled-at :
    (space : ℕ → ℕ) (ecap k : ℕ) (t : IdeType)
    → k < blocks_of t (space (ecap + 4))
    → (t ≢ lnk_ide → OneAssociation space (sel_base space ecap) k)
    → is_ide_enabled space t (first_id t (space (ecap + 4)) + k) ecap
      ≡ returns
          (enabled (space (first_block t space ecap + block_size t * k + ctrl_in_block t)) == 1)
unfolding is_ide_enabled ctrl_offset
is_ide_enabled-at space ecap k t lt one =
    rw (is_ide_enabled, ctrl_offset, get_ide_reg_block_offset-at space ecap k t lt one, ◌>>=◌) refl

-- What the port context and the configuration space of the port are at a search: the capability
-- was read from it, identifiers fit into eight bits, and selective blocks have one association.
abbrev pub Searchable : (ℕ → ℕ) → PortContext → IdeType → Type 0
Searchable space p t =
    (p.ide_cap ≡ space (p.ecap_offset + 4))
    × (first_id t p.ide_cap + blocks_of t p.ide_cap ≤ 256)
    × (t ≢ lnk_ide
        → OneAssociation space (first_block t space p.ecap_offset) (blocks_of t p.ide_cap))

abbrev pub FreeBlock : (ℕ → ℕ) → PortContext → IdeType → Option ℕ → Type 0
FreeBlock space p t o =
    Least (λ id. is_ide_enabled space t id p.ecap_offset) (first_id t p.ide_cap)
      (blocks_of t p.ide_cap) o

Least-if :
    (test : ℕ → Outcome Bool) (start n : ℕ) (b : Bool) (o : Option ℕ)
    → (b ≡ false → n ≡ 0)
    → Least test start n o
    → Least test start n (if b then o else none)
Least-if test start n true o none_left h = h
Least-if test start n false o none_left h = λ k lt. absurd (omega (arith, none_left refl))

free_links-Least :
    (space : ℕ → ℕ) (ecap : ℕ)
    → Least
        (λ id. is_ide_enabled space lnk_ide id ecap)
        0
        (lnk_blocks (space (ecap + 4)))
        (free_link_loop space (lnk_blocks (space (ecap + 4))) 0 (ecap + 12))
free_links-Least space ecap =
    free_link_loop-Least space (λ id. is_ide_enabled space lnk_ide id ecap)
      (lnk_blocks (space (ecap + 4))) 0 (ecap + 12) (ground arith)
      (λ k lt.
        let e : ecap + 12 + 8 * k + 0 ≡ ecap + 12 + 8 * k = omega arith in
        rw (← e) (is_ide_enabled-at space ecap k lnk_ide lt (λ n. absurd (n refl))))

free_sels-Least :
    (space : ℕ → ℕ) (ecap : ℕ)
    → lnk_blocks (space (ecap + 4)) + sel_blocks (space (ecap + 4)) ≤ 256
    → OneAssociation space (sel_base space ecap) (sel_blocks (space (ecap + 4)))
    → Least
        (λ id. is_ide_enabled space sel_ide id ecap)
        (lnk_blocks (space (ecap + 4)))
        (sel_blocks (space (ecap + 4)))
        (free_sel_loop space
          (sel_blocks (space (ecap + 4)))
          (lnk_blocks (space (ecap + 4)))
          (ecap + 12 + lnk_blocks (space (ecap + 4)) * 8))
free_sels-Least space ecap small one =
    let here = space (ecap + 4) in
    let base : ecap + 12 + lnk_blocks here * 8 ≡ sel_base space ecap = omega arith in
    rw base (
      free_sel_loop-Least space (λ id. is_ide_enabled space sel_ide id ecap) (sel_blocks here)
        (lnk_blocks here) (sel_base space ecap) small one
        (λ k lt.
          is_ide_enabled-at space ecap k sel_ide lt (λ _ j lt'. one j (omega (arith, lt, lt')))))

free_block-Least :
    (space : ℕ → ℕ) (p : PortContext) (top : TopologyType) (t : IdeType)
    → ide_type_of top ≡ returns t
    → Searchable space p t
    → (o : Option ℕ) × (free_block space p top ≡ returns o) × FreeBlock space p t o
unfolding free_block ide_type_of
free_block-Least space p topology_sel_link_ide t h s = cc
free_block-Least space p topology_type_num t h s = cc
free_block-Least space p topology_link_ide na_ide h s = cc
free_block-Least space p topology_link_ide sel_ide h s = cc
free_block-Least space p topology_sel_ide na_ide h s = cc
free_block-Least space p topology_sel_ide lnk_ide h s = cc
free_block-Least space p topology_link_ide lnk_ide h (e, small, one) =
    let found = free_links-Least space p.ecap_offset in
    let all =
      Least-if (λ id. is_ide_enabled space lnk_ide id p.ecap_offset) 0
        (lnk_blocks (space (p.ecap_offset + 4))) (lnk_ide_supported (space (p.ecap_offset + 4))) _
        (λ n. ground arith) found in
    rw e (_, refl, all)
free_block-Least space p topology_sel_ide sel_ide h (e, small, one) =
    let found = free_sels-Least space p.ecap_offset (rw e at small) (rw e at (one (λ q. cc))) in
    let all =
      Least-if (λ id. is_ide_enabled space sel_ide id p.ecap_offset)
        (lnk_blocks (space (p.ecap_offset + 4))) (sel_blocks (space (p.ecap_offset + 4)))
        (sel_ide_supported (space (p.ecap_offset + 4))) _ (λ n. ground arith) found in
    rw e (_, refl, all)

abbrev pub is_some : Option ℕ → Bool
is_some none = false
is_some (some x) = true

-- The capabilities of the root complex and all its streams are mapped.
abbrev pub StreamsMapped : List ℕ → ℕ → Type 0
StreamsMapped kcbar cap =
    (get_elem? kcbar 0 ≡ some cap)
    × (stream_register (num_stream_supported cap) control < length kcbar)

-- What a search has found, for an endpoint or a root port.
abbrev pub FoundFree : (ℕ → ℕ) → List ℕ → PortContext → IdeType → Bool → ℕ → FreeStream → Type 0
FoundFree space kcbar p t rp_or_dev cap r =
    FreeBlock space p t r.ide_id
    × (r.found ≡ (is_some r.ide_id && (not rp_or_dev || is_some r.rp_stream_index)))
    × (rp_or_dev ≡ true
        → is_some r.ide_id ≡ true
        → Least (is_rp_ide_stream_enabled_in_kcbar kcbar) 0 (num_stream_supported cap + 1)
            r.rp_stream_index)

find_free_rp_stream_index-Least :
    (kcbar : List ℕ) (id cap : ℕ)
    → StreamsMapped kcbar cap
    → (o : Option ℕ) × (find_free_rp_stream_index kcbar id
        ≡ returns (record { found = is_some o; rp_stream_index = o; ide_id = some id }))
      × Least (is_rp_ide_stream_enabled_in_kcbar kcbar) 0 (num_stream_supported cap + 1) o
unfolding find_free_rp_stream_index
find_free_rp_stream_index-Least kcbar id cap (read, inside) =
    let n = num_stream_supported cap in
    let last : 0 + (n + 1) - 1 ≡ n = omega arith in
    let (o, e, least) =
      free_stream_loop-Least kcbar (n + 1) 0 (omega arith) (λ p. rw last inside) in
    (
      o,
      >>=-of-returns (mmio_read_reg32 kcbar 0) _ (mmio_read_reg32-get_elem? kcbar 0 cap read)
          (>>=-of-returns (free_stream_loop kcbar (n + 1) 0) _ e (outcome o)),
      least,
    )
  where
    outcome :
        (o : Option ℕ)
        → returns (elim o as (λ _. FreeStream) [
          | none ↦ record { found = false; rp_stream_index = none; ide_id = some id }
          | some i ↦ record { found = true; rp_stream_index = some i; ide_id = some id }
        ])
          ≡ returns (record { found = is_some o; rp_stream_index = o; ide_id = some id })
    outcome none = refl
    outcome (some i) = refl

-- What the search for a block leaves to do.
from_block :
    (space : ℕ → ℕ) (kcbar : List ℕ) (p : PortContext) (t : IdeType) (rp_or_dev : Bool) (cap : ℕ)
    (o : Option ℕ)
    → (rp_or_dev ≡ true → StreamsMapped kcbar cap)
    → FreeBlock space p t o
    → (r : FreeStream) × (elim o as (λ _. Outcome FreeStream) [
      | none ↦ returns (record { found = false; rp_stream_index = none; ide_id = none })
      | some id ↦ elim rp_or_dev as (λ _. Outcome FreeStream) [
        | true ↦ find_free_rp_stream_index kcbar id
        | false ↦ returns (record { found = true; rp_stream_index = none; ide_id = some id })
      ]
    ]
        ≡ returns r)
      × FoundFree space kcbar p t rp_or_dev cap r
from_block space kcbar p t rp_or_dev cap none mapped least = (
  record { found = false; rp_stream_index = none; ide_id = none },
  refl,
  (least, refl, λ a b. cc),
)
from_block space kcbar p t false cap (some id) mapped least = (
  record { found = true; rp_stream_index = none; ide_id = some id },
  refl,
  (least, refl, λ a b. cc),
)
from_block space kcbar p t true cap (some id) mapped least =
    let (index, e, streams) = find_free_rp_stream_index-Least kcbar id cap (mapped refl) in
    (
      record { found = is_some index; rp_stream_index = index; ide_id = some id },
      e,
      (least, refl, λ a b. streams),
    )

-- The search for a topology of selective or link streams returns. The identifier that it stores,
-- if any, is that of the first block of its kind that is not enabled by `is_ide_enabled`, and
-- where it stores none all blocks of the kind are enabled. For a root port and a stored identifier,
-- the index that it stores is in the same way the first stream of the root complex that is not
-- enabled, if any is not. It succeeds if it has stored the identifier and, for a root port, the
-- index. The capability was read from the configuration space, selective blocks have one address
-- association each, identifiers fit into eight bits, and for a root port its streams are mapped.
pub find_free_rp_stream_index_and_ide_id-least :
    (space : ℕ → ℕ) (kcbar : List ℕ) (p : PortContext) (top : TopologyType) (t : IdeType)
    (rp_or_dev : Bool) (cap : ℕ)
    → ide_type_of top ≡ returns t
    → Searchable space p t
    → (rp_or_dev ≡ true → StreamsMapped kcbar cap)
    → (r : FreeStream) × (find_free_rp_stream_index_and_ide_id space kcbar p top rp_or_dev
        ≡ returns r)
      × FoundFree space kcbar p t rp_or_dev cap r
unfolding find_free_rp_stream_index_and_ide_id
find_free_rp_stream_index_and_ide_id-least space kcbar p top t rp_or_dev cap h s mapped =
    let (o, e, least) = free_block-Least space p top t h s in
    let (r, er, found) = from_block space kcbar p t rp_or_dev cap o mapped least in
    (r, >>=-of-returns (free_block space p top) _ e er, found)
