-- ===== src/Caps/Walk.antt =====
-- What the walks of Caps find on a list that ends, and that one that does not end keeps them.
use mathlib.Core.Path.{subst}
use mathlib.Core.List.{append_assoc}
use tee_io_validator.Common.{
  ℕ, zero, suc, ◌+◌, ◌≤◌, ◌<◌, true, false, List, [], ◌∷◌, ◌++◌, none, some, ◌≡◌, inl, inr, refl,
  sym, ap, ◌∙◌, arith, returns, ltb, ◌==◌, if◌then◌else◌, length, length-append, modify, drop,
  Bool-cases,
}
use tee_io_validator.Caps.{
  in_list, ext_id_of, next_ext_of, pci_doe_ext_capability_id, ext_cap_loop, supported_ext_id,
  get_extended_cap_offset, store_doe, doe_loop, get_doe_extended_cap_offset,
}

modify-end :
    (xs ys : List ℕ) (y w : ℕ) → modify (xs ++ y ∷ ys) (length xs) (λ _. w) ≡ (xs ++ w ∷ []) ++ ys
modify-end [] ys y w = refl
modify-end (x ∷ xs) ys y w = ap (◌∷◌ x) (modify-end xs ys y w)

first_of : (xs : List ℕ) → 0 < length xs → (y : ℕ) × (ys : List ℕ) × (xs ≡ y ∷ ys)
first_of [] h = absurd (omega arith)
first_of (y ∷ ys) h = (y, ys, refl)

store_doe-at :
    (found room : List ℕ) (y size w : ℕ)
    → length found < size
    → store_doe (some (found ++ y ∷ room)) size (length found) w
      ≡ returns (some ((found ++ w ∷ []) ++ room))
unfolding store_doe
store_doe-at found room y size w h =
    let inside : ltb (length found) size ≡ true = ground arith in
    let fits : ltb (length found) (length (found ++ y ∷ room)) ≡ true =
      rw (length-append found (y ∷ room)) (ground arith) in
    rw (store_doe, inside, fits, modify-end found room y w) refl

module _ (read_32 : ℕ → ℕ) where
  -- The extended capabilities from `walker` are at these offsets, and then the list ends.
  abbrev pub Chain : ℕ → List ℕ → Type 0
  Chain walker [] = in_list 0x1000 walker ≡ false
  Chain walker (c ∷ cs) =
      (c ≡ walker) × (in_list 0x1000 walker ≡ true) × Chain (next_ext_of (read_32 walker)) cs

  -- The first capability of a list with an identifier, or 0.
  abbrev pub first_with : ℕ → List ℕ → ℕ
  first_with ext_id [] = 0
  first_with ext_id (c ∷ cs) =
      let rest = first_with ext_id cs in if ext_id_of (read_32 c) == ext_id then c else rest

  -- All capabilities of a list with an identifier.
  abbrev pub all_with : ℕ → List ℕ → List ℕ
  all_with ext_id [] = []
  all_with ext_id (c ∷ cs) =
      let rest = all_with ext_id cs in if ext_id_of (read_32 c) == ext_id then c ∷ rest else rest

  ext_cap_loop-first_with :
      (fuel ext_id walker : ℕ) (cs : List ℕ)
      → Chain walker cs
      → length cs < fuel
      → ext_cap_loop read_32 fuel ext_id walker ≡ some (first_with ext_id cs)
  unfolding ext_cap_loop
  ext_cap_loop-first_with zero ext_id walker cs h lt = absurd (omega arith)
  ext_cap_loop-first_with (suc fuel) ext_id walker [] h lt = rw (ext_cap_loop, h) refl
  ext_cap_loop-first_with (suc fuel) ext_id walker (c ∷ cs) (e, inside, h) lt =
      let ih = ext_cap_loop-first_with fuel ext_id _ cs h (omega arith) in
      elim (Bool-cases (ext_id_of (read_32 walker) == ext_id)) [
        | inl found ↦ rw (e, ext_cap_loop, inside, found) refl
        | inr other ↦ rw (e, ext_cap_loop, inside, other) ih
      ]

  -- On a list of capabilities that ends, with more fuel than the list is long, the walk ends at the
  -- first capability with a supported identifier, or with 0 where there is none or it is not
  -- supported.
  pub get_extended_cap_offset-first_with :
      (fuel ext_id : ℕ) (cs : List ℕ)
      → Chain 0x100 cs
      → length cs < fuel
      → get_extended_cap_offset read_32 fuel ext_id
        ≡ some (if supported_ext_id ext_id then first_with ext_id cs else 0)
  unfolding get_extended_cap_offset
  get_extended_cap_offset-first_with fuel ext_id cs h lt =
      elim (Bool-cases (supported_ext_id ext_id)) [
        | inl known ↦ rw known (ext_cap_loop-first_with fuel ext_id 0x100 cs h lt)
        | inr unknown ↦ rw unknown refl
      ]

  -- A capability that is its own successor, and has another identifier.
  abbrev pub Stuck : ℕ → ℕ → Type 0
  Stuck ext_id walker =
      (in_list 0x1000 walker ≡ true)
      × ((ext_id_of (read_32 walker) == ext_id) ≡ false)
      × (next_ext_of (read_32 walker) ≡ walker)

  ext_cap_loop-Stuck :
      (fuel ext_id walker : ℕ)
      → Stuck ext_id walker
      → ext_cap_loop read_32 fuel ext_id walker ≡ none
  unfolding ext_cap_loop
  ext_cap_loop-Stuck zero ext_id walker h = refl
  ext_cap_loop-Stuck (suc fuel) ext_id walker (inside, other, next) =
      rw (ext_cap_loop, inside, other, next)
        (ext_cap_loop-Stuck fuel ext_id walker (inside, other, next))

  -- No fuel suffices for a device whose first extended capability is its own successor, when
  -- another supported one is asked for: the walk of the code does not end.
  pub get_extended_cap_offset-endless :
      (fuel ext_id : ℕ)
      → supported_ext_id ext_id ≡ true
      → Stuck ext_id 0x100
      → get_extended_cap_offset read_32 fuel ext_id ≡ none
  unfolding get_extended_cap_offset
  get_extended_cap_offset-endless fuel ext_id known h =
      rw known (ext_cap_loop-Stuck fuel ext_id 0x100 h)

  -- The array with the capabilities found, and what was behind them.
  doe_loop-all_with :
      (fuel size walker : ℕ) (found room cs : List ℕ)
      → Chain walker cs
      → length cs < fuel
      → length found + length room ≡ size
      → length found + length (all_with pci_doe_ext_capability_id cs) ≤ size
      → doe_loop read_32 fuel (some (found ++ room)) size (length found) walker ≡ (
          let does = all_with pci_doe_ext_capability_id cs in
          some (
            returns (
              ltb 0 (length found + length does),
              some (found ++ (does ++ drop (length does) room)),
              length found + length does,
            )))
  unfolding doe_loop
  doe_loop-all_with zero size walker found room cs h lt l fits = absurd (omega arith)
  doe_loop-all_with (suc fuel) size walker found room [] h lt l fits =
      let z : length found + 0 ≡ length found = omega arith in rw (doe_loop, h, z) refl
  doe_loop-all_with (suc fuel) size walker found room (c ∷ cs) (e, inside, h) lt l fits =
      elim (Bool-cases (ext_id_of (read_32 walker) == pci_doe_ext_capability_id)) [
        | inl doe ↦
            let short : length found + suc (length (all_with pci_doe_ext_capability_id cs)) ≤ size =
              let one : all_with pci_doe_ext_capability_id (c ∷ cs)
                  ≡ c ∷ all_with pci_doe_ext_capability_id cs =
                rw (e, doe) refl in
              subst (λ xs. length found + length xs ≤ size) one fits in
            let (y, room', er) = first_of room (omega arith) in
            let one_more : length found + 1 ≡ length (found ++ walker ∷ []) =
              sym (length-append found (walker ∷ [])) in
            let shorter : length room ≡ suc (length room') = ap length er in
            let ih =
              doe_loop-all_with fuel size (next_ext_of (read_32 walker)) (found ++ walker ∷ [])
                room' cs h (omega arith) (omega arith) (omega arith) in
            let does = all_with pci_doe_ext_capability_id cs in
            let count : length (found ++ walker ∷ []) + length does
                ≡ length found + suc (length does) =
              omega arith in
            let rest = does ++ drop (length does) room' in
            rw (e, doe_loop, inside, doe)
              (rw er (
                rw (store_doe-at found room' y size walker (omega arith))
                  (rw one_more (ih ∙ rw (count, append_assoc found (walker ∷ []) rest) refl))))
        | inr other ↦
            let short : length found + length (all_with pci_doe_ext_capability_id cs) ≤ size =
              let one : all_with pci_doe_ext_capability_id (c ∷ cs)
                  ≡ all_with pci_doe_ext_capability_id cs =
                rw (e, other) refl in
              subst (λ xs. length found + length xs ≤ size) one fits in
            rw (e, doe_loop, inside, other)
              (doe_loop-all_with fuel size (next_ext_of (read_32 walker)) found room cs h
                (omega arith) l short)
      ]

  -- On such a list, an array that is as long as `*size` says and has room for all DOE
  -- capabilities has them at its front afterwards, in the order of the list; the rest of it is
  -- as before, `*size` is their number, and the result says whether there is one.
  pub get_doe_extended_cap_offset-all_with :
      (fuel : ℕ) (offsets cs : List ℕ)
      → Chain 0x100 cs
      → length cs < fuel
      → length (all_with pci_doe_ext_capability_id cs) ≤ length offsets
      → get_doe_extended_cap_offset read_32 fuel (some offsets) (length offsets) ≡ (
          let does = all_with pci_doe_ext_capability_id cs in
          some
            (returns (ltb 0 (length does), some (does ++ drop (length does) offsets), length does)))
  unfolding get_doe_extended_cap_offset
  get_doe_extended_cap_offset-all_with fuel offsets cs h lt fits =
      let does = all_with pci_doe_ext_capability_id cs in
      let z : 0 + length does ≡ length does = omega arith in
      doe_loop-all_with fuel (length offsets) 0x100 [] offsets cs h lt (omega arith) (omega arith)
      ∙ rw z refl
