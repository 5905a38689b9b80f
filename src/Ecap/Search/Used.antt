-- ===== src/Ecap/Search/Used.antt =====
-- `check_stream_id_used_in_rootport`: a stream identifier is reported as used exactly if an
-- enabled stream or block has it.
use tee_io_validator.Common.{
  ℕ, zero, suc, ◌+◌, ◌*◌, ◌<◌, Bool, true, false, ◌&&◌, List, none, some, ◌≡◌, ◌≢◌, ◌⊎◌, ◌↔◌, inl,
  inr, refl, sym, ◌∙◌, arith, returns, ◌>>=◌, >>=-of-returns, returns-injective, ltb, ◌==◌,
  if◌then◌else◌, length, get_elem?, Bool-cases,
}
use tee_io_validator.Kcbar.{num_stream_supported, en, control, stream_register, mmio_read_reg32}
use tee_io_validator.Kcbar.Layout.{get_elem?-inside, mmio_read_reg32-get_elem?}
use tee_io_validator.Ecap.{
  IdeType, sel_ide, lnk_ide, PortContext, lnk_blocks, sel_blocks, stream_id_of, ctrl_in_block,
  ctrl_offset, num_addr_assoc_reg_blocks, read_ide_stream_ctrl_in_ecap,
}
use tee_io_validator.Ecap.Offsets.{
  blocks_of, first_id, block_size, first_block, OneAssociation, sel_base,
  get_ide_reg_block_offset-at,
}
use tee_io_validator.Ecap.Search.{
  uses, used_stream_loop, used_link_loop, used_sel_loop, used_in_ecap,
  check_stream_id_used_in_rootport,
}
use tee_io_validator.Ecap.Search.Find.{StreamsMapped}

-- A test holds of a number below `n`.
abbrev pub Some : ℕ → (ℕ → Bool) → Type 0
Some n test = (k : ℕ) × (k < n) × (test k ≡ true)

Some-round :
    (n : ℕ) (test : ℕ → Bool) (first rest : Bool)
    → test 0 ≡ first
    → ((rest ≡ true) ↔ Some n (λ k. test (suc k)))
    → (((if first then true else rest) ≡ true) ↔ Some (suc n) test)
Some-round n test true rest e (there, back) = ((λ h. (0, omega arith, e)), (λ s. refl))
Some-round n test false rest e (there, back) = (
  (λ h. let (k, lt, t) = there h in (suc k, omega arith, t)),
  (λ (k, lt, t). back (earlier k lt t)),
)
  where
    earlier : (k : ℕ) → k < suc n → test k ≡ true → Some n (λ k. test (suc k))
    earlier zero lt t = cc
    earlier (suc k) lt t = (k, omega arith, t)

either :
    {P Q : Type 0} (a b : Bool)
    → ((a ≡ true) ↔ P)
    → ((b ≡ true) ↔ Q)
    → ((if a then true else b) ≡ true) ↔ (P ⊎ Q)
either true b (p, p') (q, q') = ((λ h. inl (p refl)), (λ s. refl))
either false b (p, p') (q, q') = (
  (λ h. inr (q h)),
  (λ s. elim s [ inl x ↦ absurd (let e : false ≡ true = p' x in cc) | inr y ↦ q' y ]),
)

nothing : (test : ℕ → Bool) → (false ≡ true) ↔ Some 0 test
nothing test = ((λ h. cc), (λ (k, lt, t). absurd (omega arith)))

used_link_loop_iff :
    (space : ℕ → ℕ) (sid : ℕ) (test : ℕ → Bool) (n offset : ℕ)
    → ((k : ℕ) → k < n → test k ≡ uses sid (space (offset + 8 * k)))
    → (used_link_loop space sid n offset ≡ true) ↔ Some n test
unfolding used_link_loop
used_link_loop_iff space sid test zero offset h = nothing test
used_link_loop_iff space sid test (suc n) offset h =
    let e : offset + 8 * 0 ≡ offset = omega arith in
    let next : (k : ℕ) → offset + 8 + 8 * k ≡ offset + 8 * suc k = λ k. omega arith in
    Some-round n test (uses sid (space offset)) _ (rw e at (h 0 (omega arith))) (
      used_link_loop_iff space sid (λ k. test (suc k)) n (offset + 8)
        (λ k lt. rw (next k) (h (suc k) (omega arith))))

used_sel_loop_iff :
    (space : ℕ → ℕ) (sid : ℕ) (test : ℕ → Bool) (n offset : ℕ)
    → OneAssociation space offset n
    → ((k : ℕ) → k < n → test k ≡ uses sid (space (offset + 32 * k + 4)))
    → (used_sel_loop space sid n offset ≡ true) ↔ Some n test
unfolding used_sel_loop
used_sel_loop_iff space sid test zero offset one h = nothing test
used_sel_loop_iff space sid test (suc n) offset one h =
    let e : offset + 32 * 0 ≡ offset = omega arith in
    let next : (k : ℕ) → offset + 32 + 32 * k ≡ offset + 32 * suc k = λ k. omega arith in
    let blocks : num_addr_assoc_reg_blocks (space offset) ≡ 1 = rw e at (one 0 (omega arith)) in
    let size : offset + (20 + 1 * 12) ≡ offset + 32 = omega arith in
    rw (used_sel_loop, blocks, size)
      (Some-round n test (uses sid (space (offset + 4))) _ (rw e at (h 0 (omega arith))) (
        used_sel_loop_iff space sid (λ k. test (suc k)) n (offset + 32)
          (λ k lt. rw (next k) (one (suc k) (omega arith)))
          (λ k lt. rw (next k) (h (suc k) (omega arith)))))

-- A stream of the root complex is enabled with an identifier; none is outside of the registers.
abbrev pub stream_uses : List ℕ → ℕ → ℕ → Bool
stream_uses kcbar sid i = elim (get_elem? kcbar (stream_register i control)) [
  | none ↦ false
  | some ctrl ↦ (en ctrl == 1) && (stream_id_of ctrl == sid)
]

used_stream_loop_iff :
    (kcbar : List ℕ) (sid : ℕ) (test : ℕ → Bool) (n i : ℕ)
    → ((k : ℕ) → k < n → stream_register (i + k) control < length kcbar)
    → ((k : ℕ) → k < n → test k ≡ stream_uses kcbar sid (i + k))
    → (b : Bool) × (used_stream_loop kcbar sid n i ≡ returns b) × ((b ≡ true) ↔ Some n test)
unfolding used_stream_loop
used_stream_loop_iff kcbar sid test zero i inside h = (false, refl, nothing test)
used_stream_loop_iff kcbar sid test (suc n) i inside h =
    let e : i + 0 ≡ i = omega arith in
    let next : (k : ℕ) → i + 1 + k ≡ i + suc k = λ k. omega arith in
    let (w, ew) =
      get_elem?-inside kcbar (stream_register i control) (rw e at (inside 0 (omega arith))) in
    let read = mmio_read_reg32-get_elem? kcbar _ w ew in
    let test_w = (en w == 1) && (stream_id_of w == sid) in
    let first : test 0 ≡ test_w = rw e at (h 0 (omega arith)) ∙ rw (stream_uses, ew) refl in
    let (b, eb, ih) =
      used_stream_loop_iff kcbar sid (λ k. test (suc k)) n (i + 1)
        (λ k lt. rw (next k) (inside (suc k) (omega arith)))
        (λ k lt. rw (next k) (h (suc k) (omega arith))) in
    (
      if test_w then true else b,
      rw (used_stream_loop, read, ◌>>=◌)
          (elim (Bool-cases test_w) [ inl used ↦ rw used refl | inr unused ↦ rw unused eb ]),
      Some-round n test test_w b first ih,
    )

-- A block of a kind has the identifier and is enabled, by its control register.
abbrev pub BlockUses : (ℕ → ℕ) → ℕ → ℕ → IdeType → Type 0
BlockUses space sid ecap t =
    (k : ℕ) × (w : ℕ) × (k < blocks_of t (space (ecap + 4)))
    × (read_ide_stream_ctrl_in_ecap space t (first_id t (space (ecap + 4)) + k) ecap ≡ returns w)
    × (uses sid w ≡ true)

abbrev ctrl_at : (ℕ → ℕ) → ℕ → IdeType → ℕ → ℕ
ctrl_at space ecap t k = space (first_block t space ecap + block_size t * k + ctrl_in_block t)

read_ide_stream_ctrl_in_ecap-at :
    (space : ℕ → ℕ) (ecap k : ℕ) (t : IdeType)
    → k < blocks_of t (space (ecap + 4))
    → (t ≢ lnk_ide → OneAssociation space (sel_base space ecap) k)
    → read_ide_stream_ctrl_in_ecap space t (first_id t (space (ecap + 4)) + k) ecap
      ≡ returns (ctrl_at space ecap t k)
unfolding read_ide_stream_ctrl_in_ecap ctrl_offset
read_ide_stream_ctrl_in_ecap-at space ecap k t lt one =
    rw
      (
        read_ide_stream_ctrl_in_ecap,
        ctrl_offset,
        get_ide_reg_block_offset-at space ecap k t lt one,
        ◌>>=◌,
      )
      refl

Some-BlockUses_iff :
    (space : ℕ → ℕ) (sid ecap : ℕ) (t : IdeType)
    → (t ≢ lnk_ide → OneAssociation space (sel_base space ecap) (blocks_of t (space (ecap + 4))))
    → Some (blocks_of t (space (ecap + 4))) (λ k. uses sid (ctrl_at space ecap t k))
      ↔ BlockUses space sid ecap t
Some-BlockUses_iff space sid ecap t one =
    let read = λ (k : ℕ) (lt : k < blocks_of t (space (ecap + 4))).
      read_ide_stream_ctrl_in_ecap-at space ecap k t lt
        (λ n j lt'. one n j (omega (arith, lt, lt'))) in
    (
      (λ (k, lt, u). (k, ctrl_at space ecap t k, lt, read k lt, u)),
      (λ (k, w, lt, r, u).
          let e : ctrl_at space ecap t k ≡ w = returns-injective (sym (read k lt) ∙ r) in
          (k, lt, rw e u)),
    )

used_in_ecap_iff :
    (space : ℕ → ℕ) (sid ecap : ℕ)
    → 0 < lnk_blocks (space (ecap + 4))
    → OneAssociation space (sel_base space ecap) (sel_blocks (space (ecap + 4)))
    → (used_in_ecap space sid ecap ≡ true)
      ↔ (BlockUses space sid ecap lnk_ide ⊎ BlockUses space sid ecap sel_ide)
unfolding used_in_ecap
used_in_ecap_iff space sid ecap some_link one =
    let lnk = lnk_blocks (space (ecap + 4)) in
    let sel = sel_blocks (space (ecap + 4)) in
    let links : (if ltb 0 lnk then ecap + 12 else ecap + 8) ≡ ecap + 12 = ground arith in
    let base : ecap + 12 + lnk * 8 ≡ sel_base space ecap = omega arith in
    let (l1, l2) =
      used_link_loop_iff space sid (λ k. uses sid (ctrl_at space ecap lnk_ide k)) lnk (ecap + 12)
        (λ k lt. let e : ecap + 12 + 8 * k + 0 ≡ ecap + 12 + 8 * k = omega arith in rw e refl) in
    let (s1, s2) =
      used_sel_loop_iff space sid (λ k. uses sid (ctrl_at space ecap sel_ide k)) sel
        (sel_base space ecap) one (λ k lt. refl) in
    let (bl1, bl2) = Some-BlockUses_iff space sid ecap lnk_ide (λ n. absurd (n refl)) in
    let (bs1, bs2) = Some-BlockUses_iff space sid ecap sel_ide (λ n. one) in
    rw (used_in_ecap, links, base)
      (either _ _ (λ h. bl1 (l1 h), λ h. l2 (bl2 h)) (λ h. bs1 (s1 h), λ h. s2 (bs2 h)))

-- A stream identifier is reported as used exactly if a stream of the root complex or a link or
-- selective block of the port is enabled with it. The streams are mapped, the port has link
-- blocks, and each selective block has one address association.
pub check_stream_id_used_in_rootport_iff :
    (space : ℕ → ℕ) (kcbar : List ℕ) (sid cap : ℕ) (p : PortContext)
    → StreamsMapped kcbar cap
    → 0 < lnk_blocks (space (p.ecap_offset + 4))
    → OneAssociation space (sel_base space p.ecap_offset) (sel_blocks (space (p.ecap_offset + 4)))
    → (b : Bool) × (check_stream_id_used_in_rootport space kcbar sid p ≡ returns b)
      × ((b ≡ true) ↔ (
          Some (num_stream_supported cap + 1) (stream_uses kcbar sid)
          ⊎ (BlockUses space sid p.ecap_offset lnk_ide
              ⊎ BlockUses space sid p.ecap_offset sel_ide)))
unfolding check_stream_id_used_in_rootport
check_stream_id_used_in_rootport_iff space kcbar sid cap p (read, inside) some_link one =
    let (in_kcbar, e, streams) =
      used_stream_loop_iff kcbar sid (stream_uses kcbar sid) (num_stream_supported cap + 1) 0
        (λ k lt. omega (arith, inside)) (λ k lt. let e : 0 + k ≡ k = omega arith in rw e refl) in
    let blocks = used_in_ecap_iff space sid p.ecap_offset some_link one in
    (
      if in_kcbar then true else used_in_ecap space sid p.ecap_offset,
      >>=-of-returns (mmio_read_reg32 kcbar 0) _ (mmio_read_reg32-get_elem? kcbar 0 cap read)
          (>>=-of-returns _ _ e refl),
      either in_kcbar _ streams blocks,
    )
