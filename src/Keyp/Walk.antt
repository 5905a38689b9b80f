-- ===== src/Keyp/Walk.antt =====
-- What the search of the KEYP table finds.
pub mod Units
use tee_io_validator.Common.{
  ℕ, zero, suc, ◌+◌, ◌*◌, ◌/◌, ◌%◌, ◌≤◌, ◌<◌, Bool, true, false, ◌&&◌, List, Option, none, some,
  ◌≡◌, ◌⊎◌, inl, inr, refl, sym, arith, Outcome, returns, asserts, faults, ◌>>=◌, leb, ◌==◌,
  Bool-cases,
}
use tee_io_validator.Keyp.{
  Wanted, buffer_size, byte_of, word_of, field_at, port_matches, ports_loop,
}

module _ (table : List ℕ) where
  pub field_at-cases :
      (read : ℕ → ℕ) (width i : ℕ)
      → ((field_at table read width i ≡ returns (read i)) × (i + width ≤ buffer_size))
        ⊎ ((field_at table read width i ≡ faults) × (buffer_size < i + width))
  unfolding field_at
  field_at-cases read width i = elim (Bool-cases (leb (i + width) buffer_size)) [
    | inl inside ↦ inl (rw inside refl, ground arith)
    | inr outside ↦ inr (rw outside refl, ground arith)
  ]

  module _ (w : Wanted) where
    abbrev pub Matches : ℕ → Type 0
    Matches i =
        (word_of table i ≡ w.segment)
        × (byte_of table (i + 2) ≡ w.bus)
        × (byte_of table (i + 3) / 8 ≡ w.device)
        × (byte_of table (i + 3) % 8 ≡ w.function)

    abbrev MatchTold : ℕ → Outcome Bool → Type 0
    MatchTold i (returns true) = Matches i
    MatchTold i (returns false) = ¬ Matches i
    MatchTold i asserts = ⊥
    MatchTold i faults = buffer_size < i + 4

    last_byte :
        (i : ℕ)
        → word_of table i ≡ w.segment
        → byte_of table (i + 2) ≡ w.bus
        → MatchTold i (
            returns (
              (byte_of table (i + 3) / 8 == w.device) && (byte_of table (i + 3) % 8 == w.function)))
    last_byte i segment bus = elim (Bool-cases (byte_of table (i + 3) / 8 == w.device)) [
      | inr other ↦ rw other (λ h. let same = h.2 in absurd (ground arith))
      | inl device ↦ elim (Bool-cases (byte_of table (i + 3) % 8 == w.function)) [
        | inr other ↦ rw (device, other) (λ h. let same = h.3 in absurd (ground arith))
        | inl function ↦ rw (device, function) (segment, bus, ground arith, ground arith)
      ]
    ]

    port_matches-MatchTold : (i : ℕ) → MatchTold i (port_matches table w i)
    unfolding port_matches
    port_matches-MatchTold i = elim (field_at-cases (word_of table) 2 i) [
      | inr (e, far) ↦ rw (port_matches, e, ◌>>=◌) (omega arith)
      | inl (e, near) ↦ elim (Bool-cases (word_of table i == w.segment)) [
        | inr other ↦
            rw (port_matches, e, ◌>>=◌, other) (λ h. let same = h.0 in absurd (ground arith))
        | inl segment ↦ elim (field_at-cases (byte_of table) 1 (i + 2)) [
          | inr (e1, far) ↦ rw (port_matches, e, ◌>>=◌, segment, e1, ◌>>=◌) (omega arith)
          | inl (e1, near1) ↦ elim (Bool-cases (byte_of table (i + 2) == w.bus)) [
            | inr other ↦
                rw (port_matches, e, ◌>>=◌, segment, e1, ◌>>=◌, other)
                  (λ h. let same = h.1 in absurd (ground arith))
            | inl bus ↦ elim (field_at-cases (byte_of table) 1 (i + 3)) [
              | inr (e2, far) ↦
                  rw (port_matches, e, ◌>>=◌, segment, e1, ◌>>=◌, bus, e2, ◌>>=◌) (omega arith)
              | inl (e2, near2) ↦
                  rw (port_matches, e, ◌>>=◌, segment, e1, ◌>>=◌, bus, e2, ◌>>=◌)
                    (last_byte i (ground arith) (ground arith))
            ]
          ]
        ]
      ]
    ]

    abbrev pub PortsTold : ℕ → ℕ → Outcome Bool → Type 0
    PortsTold left i (returns true) = (k : ℕ) × (k < left) × Matches (i + k * 4)
    PortsTold left i (returns false) = (k : ℕ) → k < left → ¬ Matches (i + k * 4)
    PortsTold left i asserts = ⊥
    PortsTold left i faults = buffer_size < i + left * 4

    at_next : (i k : ℕ) → Matches (i + 4 + k * 4) → Matches (i + suc k * 4)
    at_next i k h = let e : i + suc k * 4 ≡ i + 4 + k * 4 = omega arith in rw e h

    at_this : (i : ℕ) → Matches i → Matches (i + 0 * 4)
    at_this i h = let e : i + 0 * 4 ≡ i = omega arith in rw e h

    not_first :
        (i left : ℕ)
        → (¬ Matches i)
        → ((k : ℕ) → k < left → ¬ Matches (i + 4 + k * 4))
        → (k : ℕ) → k < suc left
        → ¬ Matches (i + k * 4)
    not_first i left this rest zero h m = let e : i + 0 * 4 ≡ i = omega arith in this (rw (sym e) m)
    not_first i left this rest (suc k) h m =
        let e : i + suc k * 4 ≡ i + 4 + k * 4 = omega arith in rest k (omega arith) (rw (sym e) m)

    on_later :
        (left i : ℕ) (m : Outcome Bool)
        → (¬ Matches i)
        → PortsTold left (i + 4) m
        → PortsTold (suc left) i m
    on_later left i (returns true) this (k, h, m) = (suc k, omega arith, at_next i k m)
    on_later left i (returns false) this h = not_first i left this h
    on_later left i asserts this h = h
    on_later left i faults this h = omega arith

    on_match :
        (left i : ℕ) (m rest : Outcome Bool)
        → MatchTold i m
        → PortsTold left (i + 4) rest
        → PortsTold (suc left) i (m >>= λ found. elim found [ true ↦ returns true | false ↦ rest ])
    on_match left i (returns true) rest this h = (0, omega arith, at_this i this)
    on_match left i (returns false) rest this h = on_later left i rest this h
    on_match left i asserts rest this h = this
    on_match left i faults rest this h = omega arith

    pub ports_loop-PortsTold : (left i : ℕ) → PortsTold left i (ports_loop table w left i)
    unfolding ports_loop
    ports_loop-PortsTold zero i = λ k h. absurd (omega arith)
    ports_loop-PortsTold (suc left) i =
        on_match left i (port_matches table w i) (ports_loop table w left (i + 4))
          (port_matches-MatchTold i) (ports_loop-PortsTold left (i + 4))
