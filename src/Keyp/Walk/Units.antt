-- ===== src/Keyp/Walk/Units.antt =====
-- The walk over the units of the KEYP table.
use tee_io_validator.Common.{
  ℕ, zero, suc, ◌+◌, ◌-◌, ◌*◌, ◌≤◌, ◌<◌, Bool, true, false, List, Option, none, some, ◌≡◌, ◌≢◌, ◌⊎◌,
  inl, inr, refl, arith, Outcome, returns, asserts, faults, ◌>>=◌, ltb, leb, ◌==◌, length,
  Bool-cases,
}
use tee_io_validator.Keyp.{
  Wanted, buffer_size, unit_header, byte_of, word_of, long_of, field_at, unit_step, units_loop,
}
use tee_io_validator.Keyp.Walk.{field_at-cases, Matches, PortsTold, ports_loop-PortsTold}

module _ (table : List ℕ) where
  -- The units from an offset on, each a length behind the one before it.
  pub data From : ℕ → ℕ → Type 0 where
    here : {start : ℕ} → From start start
    later :
        {start offset : ℕ}
        → start < length table
        → From (start + word_of table (start + 2)) offset
        → From start offset

  pub From-le : {start offset : ℕ} → From start offset → start ≤ offset
  From-le here = omega arith
  From-le (later h from) = let further = From-le from in omega arith

  module _ (w : Wanted) where
    -- The unit is of the protocol and one of its root ports matches; its register address.
    abbrev pub Lists : ℕ → ℕ → Type 0
    Lists offset address =
        (byte_of table (offset + 4) ≡ w.keyp_protocol)
        × ((k : ℕ) × (k < byte_of table (offset + 6))
            × Matches table w (offset + unit_header + k * 4))
        × (address ≡ long_of table (offset + 8))

    -- Reading the unit leaves the buffer.
    abbrev pub Overruns : ℕ → Type 0
    Overruns offset = buffer_size < offset + unit_header + byte_of table (offset + 6) * 4

    abbrev UnitTold : ℕ → Outcome (ℕ ⊎ ℕ) → Type 0
    UnitTold offset (returns (inl address)) = Lists offset address
    UnitTold offset (returns (inr next)) =
        (next ≡ offset + word_of table (offset + 2))
        × (next ≤ length table)
        × ((address : ℕ) → ¬ Lists offset address)
    UnitTold offset asserts = length table < offset + word_of table (offset + 2)
    UnitTold offset faults = Overruns offset

    after_ports :
        (offset : ℕ) (m : Outcome Bool)
        → byte_of table (offset + 4) ≡ w.keyp_protocol
        → offset + word_of table (offset + 2) ≤ length table
        → PortsTold table w (byte_of table (offset + 6)) (offset + unit_header) m
        → UnitTold offset (
            m >>= λ found. elim found [
              | true ↦
                  field_at table (long_of table) 8 (offset + 8) >>= λ address. returns (inl address)
              | false ↦ returns (inr (offset + word_of table (offset + 2)))
            ])
    after_ports offset (returns true) protocol inside port =
        elim (field_at-cases table (long_of table) 8 (offset + 8)) [
          | inl (e, near) ↦ rw (e, ◌>>=◌) (protocol, port, refl)
          | inr (e, far) ↦ rw (e, ◌>>=◌) (omega arith)
        ]
    after_ports offset (returns false) protocol inside none_of =
        (refl, inside, λ address h. none_of (h.1).0 (h.1).1 (h.1).2)
    after_ports offset asserts protocol inside h = absurd h
    after_ports offset faults protocol inside h = h

    unit_step-UnitTold : (offset : ℕ) → UnitTold offset (unit_step table w offset)
    unfolding unit_step
    unit_step-UnitTold offset = elim (field_at-cases table (word_of table) 2 (offset + 2)) [
      | inr (e, far) ↦ rw (unit_step, e, ◌>>=◌) (omega arith)
      | inl (e, near) ↦
          elim (Bool-cases (leb (offset + word_of table (offset + 2)) (length table))) [
            | inr beyond ↦ rw (unit_step, e, ◌>>=◌, beyond) (ground arith)
            | inl inside ↦ elim (field_at-cases table (byte_of table) 1 (offset + 4)) [
              | inr (e1, far) ↦ rw (unit_step, e, ◌>>=◌, inside, e1) (omega arith)
              | inl (e1, near1) ↦
                  elim (Bool-cases (byte_of table (offset + 4) == w.keyp_protocol)) [
                    | inr other ↦
                        rw (unit_step, e, ◌>>=◌, inside, e1, other)
                          (refl, ground arith, λ address h. let same = h.0 in absurd (ground arith))
                    | inl protocol ↦ elim (field_at-cases table (byte_of table) 1 (offset + 6)) [
                      | inr (e2, far) ↦
                          rw (unit_step, e, ◌>>=◌, inside, e1, protocol, e2) (omega arith)
                      | inl (e2, near2) ↦
                          rw (unit_step, e, ◌>>=◌, inside, e1, protocol, e2)
                            (after_ports offset _ (ground arith) (ground arith) (
                              ports_loop-PortsTold table w (byte_of table (offset + 6))
                                (offset + unit_header)))
                    ]
                  ]
            ]
          ]
    ]

    -- What a search from an offset tells: an address is the one of a unit that lists the port; no
    -- address means that no unit lists it; an assertion, that a unit is longer than what is left
    -- of the table; and an undefined read, that the ports of a unit are beyond the buffer.
    abbrev pub SearchTold : ℕ → Outcome (Option ℕ) → Type 0
    SearchTold start (returns (some address)) =
        (offset : ℕ) × From start offset × (offset < length table) × Lists offset address
    SearchTold start (returns none) =
        (offset address : ℕ) → From start offset → offset < length table → ¬ Lists offset address
    SearchTold start asserts =
        (offset : ℕ) × From start offset
        × (offset < length table)
        × (length table < offset + word_of table (offset + 2))
    SearchTold start faults =
        (offset : ℕ) × From start offset × (offset < length table) × Overruns offset

    Searched : ℕ → Option (Outcome (Option ℕ)) → Type 0
    Searched start m = (r : Outcome (Option ℕ)) × (m ≡ some r) × SearchTold start r

    none_later :
        (start : ℕ)
        → ((address : ℕ) → ¬ Lists start address)
        → SearchTold (start + word_of table (start + 2)) (returns none)
        → SearchTold start (returns none)
    none_later start this rest offset address here inside = this address
    none_later start this rest offset address (later h from) inside =
        rest offset address from inside

    SearchTold-later :
        (start : ℕ) (r : Outcome (Option ℕ))
        → start < length table
        → ((address : ℕ) → ¬ Lists start address)
        → SearchTold (start + word_of table (start + 2)) r
        → SearchTold start r
    SearchTold-later start (returns (some address)) inside this (offset, from, there, rest) =
        (offset, later inside from, there, rest)
    SearchTold-later start (returns none) inside this rest = none_later start this rest
    SearchTold-later start asserts inside this (offset, from, there, rest) =
        (offset, later inside from, there, rest)
    SearchTold-later start faults inside this (offset, from, there, rest) =
        (offset, later inside from, there, rest)

    on_unit :
        (fuel start : ℕ) (m : Outcome (ℕ ⊎ ℕ))
        → start < length table
        → UnitTold start m
        → Searched
            (start + word_of table (start + 2))
            (units_loop table w fuel (start + word_of table (start + 2)))
        → Searched start (elim m [
          | returns r ↦ elim r [
            | inl address ↦ some (returns (some address))
            | inr next ↦ units_loop table w fuel next
          ]
          | asserts ↦ some asserts
          | faults ↦ some faults
        ])
    unfolding Searched
    on_unit fuel start (returns (inl address)) inside told rest =
        (returns (some address), refl, (start, here, inside, told))
    on_unit fuel start (returns (inr next)) inside (e, fits, this) (r, e', h) =
        (r, rw e e', SearchTold-later start r inside this h)
    on_unit fuel start asserts inside told rest = (asserts, refl, (start, here, inside, told))
    on_unit fuel start faults inside told rest = (faults, refl, (start, here, inside, told))

    -- Where no unit of the walk has a length of 0, the search ends, on more fuel than the table has
    -- bytes from its start on. An address it gives is the register address of a unit of the walk
    -- that is of the protocol and lists the port; where it gives none, no unit of the walk is so;
    -- an assertion fails only where a unit is longer than the rest of the table, and a read is
    -- undefined only where the ports of a unit leave the buffer.
    pub units_loop-SearchTold :
        (fuel start : ℕ)
        → ((offset : ℕ)
            → From start offset
            → offset < length table
            → word_of table (offset + 2) ≢ 0)
        → length table - start < fuel
        → (r : Outcome (Option ℕ)) × (units_loop table w fuel start ≡ some r) × SearchTold start r
    unfolding units_loop Searched on_unit
    units_loop-SearchTold zero start lengths enough = absurd (omega arith)
    units_loop-SearchTold (suc fuel) start lengths enough =
        elim (Bool-cases (ltb start (length table))) [
          | inr past ↦ (
            returns none,
            rw (units_loop, past) refl,
            λ offset address from near. let beyond = From-le from in absurd (ground arith),
          )
          | inl inside ↦
              let within : start < length table = ground arith in
              let moves = lengths start here within in
              rw (units_loop, inside)
                (on_unit fuel start (unit_step table w start) within (unit_step-UnitTold start) (
                  units_loop-SearchTold fuel (start + word_of table (start + 2))
                    (λ offset from h. lengths offset (later within from) h) (omega arith)))
        ]
