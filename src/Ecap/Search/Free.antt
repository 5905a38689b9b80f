-- ===== src/Ecap/Search/Free.antt =====
-- What the searches for a free block and a free stream find: the first that is not enabled.
use tee_io_validator.Common.{
  ℕ, zero, suc, ◌+◌, ◌-◌, ◌*◌, ◌%◌, ◌≤◌, ◌<◌, Bool, true, false, List, Option, none, some, ◌≡◌, inl,
  inr, refl, ap, ◌∙◌, arith, Outcome, returns, ◌>>=◌, ◌==◌, if◌then◌else◌, length, Bool-cases,
}
use tee_io_validator.Kcbar.{field, en, control, stream_register, is_rp_ide_stream_enabled_in_kcbar}
use tee_io_validator.Kcbar.Layout.{get_elem?-inside, mmio_read_reg32-get_elem?}
use tee_io_validator.Ecap.{enabled, num_addr_assoc_reg_blocks}
use tee_io_validator.Ecap.Offsets.{OneAssociation}
use tee_io_validator.Ecap.Search.{free_link_loop, free_sel_loop, free_stream_loop}

-- Of the `n` numbers from `start`, the first on which a test returns false; or the test returns
-- true on all.
abbrev pub Least : (ℕ → Outcome Bool) → ℕ → ℕ → Option ℕ → Type 0
Least test start n none = (k : ℕ) → k < n → test (start + k) ≡ returns true
Least test start n (some found) =
    (k : ℕ) × (k < n)
    × (found ≡ start + k)
    × (test found ≡ returns false)
    × ((j : ℕ) → j < k → test (start + j) ≡ returns true)

later :
    (test : ℕ → Outcome Bool) (start n : ℕ)
    → test start ≡ returns true
    → ((k : ℕ) → k < n → test (start + 1 + k) ≡ returns true)
    → (k : ℕ) → k < suc n
    → test (start + k) ≡ returns true
later test start n first rest zero lt = let e : start + 0 ≡ start = omega arith in rw e first
later test start n first rest (suc k) lt =
    let e : start + suc k ≡ start + 1 + k = omega arith in rw e (rest k (omega arith))

Least-later :
    (test : ℕ → Outcome Bool) (start n : ℕ) (o : Option ℕ)
    → test start ≡ returns true
    → Least test (start + 1) n o
    → Least test start (suc n) o
Least-later test start n none first rest = later test start n first rest
Least-later test start n (some found) first (k, lt, e, off, before) =
    (k + 1, omega arith, omega arith, off, λ j lt'. later test start k first before j (omega arith))

Least-first :
    (test : ℕ → Outcome Bool) (start n : ℕ)
    → test start ≡ returns false
    → Least test start (suc n) (some start)
Least-first test start n off = (0, omega arith, omega arith, off, λ j lt. absurd (omega arith))

-- A bit that is tested for 0 by the search and for 1 by `is_ide_enabled`.
bit_off : (w : ℕ) → (field w 1 2 == 0) ≡ true → (field w 1 2 == 1) ≡ false
bit_off w h = ground arith

bit_on : (w : ℕ) → (field w 1 2 == 0) ≡ false → (field w 1 2 == 1) ≡ true
bit_on w h = ground arith

-- A round of a search, with the test of the round and what the other rounds find.
Least-round :
    (test : ℕ → Outcome Bool) (start n w : ℕ) (rest : Option ℕ)
    → start < 256
    → test start ≡ returns (field w 1 2 == 1)
    → Least test (start + 1) n rest
    → Least test start (suc n) (if field w 1 2 == 0 then some (start % 256) else rest)
Least-round test start n w rest small e ih =
    let whole : start % 256 ≡ start = omega arith in
    elim (Bool-cases (field w 1 2 == 0)) [
      | inl off ↦ rw (off, whole) (Least-first test start n (e ∙ ap returns (bit_off w off)))
      | inr on ↦ rw on (Least-later test start n rest (e ∙ ap returns (bit_on w on)) ih)
    ]

pub free_link_loop-Least :
    (space : ℕ → ℕ) (test : ℕ → Outcome Bool) (n i offset : ℕ)
    → i + n ≤ 256
    → ((k : ℕ) → k < n → test (i + k) ≡ returns (enabled (space (offset + 8 * k)) == 1))
    → Least test i n (free_link_loop space n i offset)
unfolding free_link_loop
free_link_loop-Least space test zero i offset small tests = λ k lt. absurd (omega arith)
free_link_loop-Least space test (suc n) i offset small tests =
    let ih = free_link_loop-Least space test n (i + 1) (offset + 8) (omega arith) (λ k lt.
      let e : i + 1 + k ≡ i + (k + 1) = omega arith in
      let e' : offset + 8 + 8 * k ≡ offset + 8 * (k + 1) = omega arith in
      rw (e, e') (tests (k + 1) (omega arith))) in
    let e : i + 0 ≡ i = omega arith in
    let e' : offset + 8 * 0 ≡ offset = omega arith in
    let first : test i ≡ returns (enabled (space offset) == 1) =
      rw (← e, ← e') (tests 0 (omega arith)) in
    Least-round test i n (space offset) _ (omega arith) first ih

pub free_sel_loop-Least :
    (space : ℕ → ℕ) (test : ℕ → Outcome Bool) (n i offset : ℕ)
    → i + n ≤ 256
    → OneAssociation space offset n
    → ((k : ℕ) → k < n → test (i + k) ≡ returns (enabled (space (offset + 32 * k + 4)) == 1))
    → Least test i n (free_sel_loop space n i offset)
unfolding free_sel_loop
free_sel_loop-Least space test zero i offset small one tests = λ k lt. absurd (omega arith)
free_sel_loop-Least space test (suc n) i offset small one tests =
    let next : (k : ℕ) → offset + 32 + 32 * k ≡ offset + 32 * (k + 1) = λ k. omega arith in
    let ih =
      free_sel_loop-Least space test n (i + 1) (offset + 32) (omega arith)
        (λ k lt. rw (next k) (one (k + 1) (omega arith)))
        (λ k lt.
          let e : i + 1 + k ≡ i + (k + 1) = omega arith in
          rw (e, next k) (tests (k + 1) (omega arith))) in
    let e : i + 0 ≡ i = omega arith in
    let e' : offset + 32 * 0 ≡ offset = omega arith in
    let first : test i ≡ returns (enabled (space (offset + 4)) == 1) =
      rw (← e, ← e') (tests 0 (omega arith)) in
    let blocks : num_addr_assoc_reg_blocks (space offset) ≡ 1 = rw (← e') (one 0 (omega arith)) in
    let size : offset + 12 + (8 + 1 * 12) ≡ offset + 32 = omega arith in
    rw (free_sel_loop, blocks, size)
      (Least-round test i n (space (offset + 4)) _ (omega arith) first ih)

pub free_stream_loop-Least :
    (kcbar : List ℕ) (n i : ℕ)
    → i + n ≤ 256
    → (0 < n → stream_register (i + n - 1) control < length kcbar)
    → (o : Option ℕ) × (free_stream_loop kcbar n i ≡ returns o)
      × Least (is_rp_ide_stream_enabled_in_kcbar kcbar) i n o
unfolding free_stream_loop is_rp_ide_stream_enabled_in_kcbar
free_stream_loop-Least kcbar zero i small inside = (none, refl, λ k lt. absurd (omega arith))
free_stream_loop-Least kcbar (suc n) i small inside =
    let last = inside (omega arith) in
    let (w, e) = get_elem?-inside kcbar (stream_register i control) (omega (arith, last)) in
    let read = mmio_read_reg32-get_elem? kcbar _ w e in
    let test : is_rp_ide_stream_enabled_in_kcbar kcbar i ≡ returns (en w == 1) =
      rw (is_rp_ide_stream_enabled_in_kcbar, read, ◌>>=◌) refl in
    let (o, eo, ih) =
      free_stream_loop-Least kcbar n (i + 1) (omega arith)
        (λ p. let e : i + 1 + n - 1 ≡ i + suc n - 1 = omega arith in rw e last) in
    let round =
      Least-round (is_rp_ide_stream_enabled_in_kcbar kcbar) i n w o (omega arith) test ih in
    (
      if en w == 0 then some (i % 256) else o,
      rw (free_stream_loop, read, ◌>>=◌)
          (elim (Bool-cases (en w == 0)) [ inl off ↦ rw off refl | inr on ↦ rw on eo ]),
      round,
    )
