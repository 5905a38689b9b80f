-- ===== src/Keyp/Parse.antt =====
-- What `parse_keyp_table` returns.
use mathlib.Core.Path.{subst}
use tee_io_validator.Common.{
  ℕ, ◌+◌, ◌<◌, Bool, true, false, List, Option, none, some, ◌≡◌, ◌≢◌, ◌⊎◌, inl, inr, refl, arith,
  Outcome, returns, asserts, faults, ◌>>=◌, leb, ◌==◌, length, Bool-cases, Option-cases,
}
use tee_io_validator.Text.{calculate_checksum}
use tee_io_validator.Keyp.{
  Wanted, buffer_size, keyp_header, word_of, signature_ok, map_found, parse_keyp_table,
}
use tee_io_validator.Keyp.Walk.Units.{From, Lists, Overruns, SearchTold, units_loop-SearchTold}

module _ {M : Type 0} (map_kcbar_addr : ℕ → Option M) (w : Wanted) (table : List ℕ) where
  -- A unit of the table that lists the port, with its register address.
  abbrev pub Listed : ℕ → Type 0
  Listed address =
      (offset : ℕ) × From table keyp_header offset
      × (offset < length table)
      × Lists table w offset address

  -- Registers are mapped from the address of such a unit, in a table with the signature and a
  -- checksum of 0. False is returned for another table, where no unit lists the port, or for an
  -- address of 0. An assertion fails for a table or a unit that is too long, and where the mapping
  -- fails.
  abbrev pub ParseTold : Outcome (Bool × Option M) → Type 0
  ParseTold (returns (true, some mapped)) =
      (signature_ok table ≡ true)
      × (calculate_checksum table ≡ 0)
      × (address : ℕ) × Listed address
      × (address ≢ 0)
      × (map_kcbar_addr address ≡ some mapped)
  ParseTold (returns (true, none)) = ⊥
  ParseTold (returns (false, some mapped)) = ⊥
  ParseTold (returns (false, none)) =
      (signature_ok table ≡ false)
      ⊎ (calculate_checksum table ≢ 0)
      ⊎ ((address : ℕ) → ¬ Listed address)
      ⊎ Listed 0
  ParseTold asserts =
      (buffer_size < length table)
      ⊎ ((offset : ℕ) × From table keyp_header offset
          × (offset < length table)
          × (length table < offset + word_of table (offset + 2)))
      ⊎ ((address : ℕ) × Listed address × (map_kcbar_addr address ≡ none))
  ParseTold faults =
      (offset : ℕ) × From table keyp_header offset
      × (offset < length table)
      × Overruns table w offset

  after_search :
      (r : Outcome (Option ℕ))
      → signature_ok table ≡ true
      → calculate_checksum table ≡ 0
      → SearchTold table w keyp_header r
      → ParseTold (map_found map_kcbar_addr r)
  unfolding map_found
  after_search (returns none) signature checksum told =
      inr (inr (inl (λ address h. told h.0 address h.1 h.2 h.3)))
  after_search (returns (some address)) signature checksum told = elim (Bool-cases (address == 0)) [
    | inl null ↦
        let e : address ≡ 0 = ground arith in
        let said : map_found map_kcbar_addr (returns (some address)) ≡ returns (false, none) =
          rw (map_found, ◌>>=◌, null) refl in
        rw said (inr (inr (inr (subst Listed e told))))
    | inr somewhere ↦
        let nonzero : address ≢ 0 = ground arith in
        elim (Option-cases (map_kcbar_addr address)) [
          | inl nothing ↦
              let said : map_found map_kcbar_addr (returns (some address)) ≡ asserts =
                rw (map_found, ◌>>=◌, somewhere, nothing) refl in
              rw said (inr (inr (address, told, nothing)))
          | inr (mapped, e) ↦
              let said : map_found map_kcbar_addr (returns (some address))
                  ≡ returns (true, some mapped) =
                rw (map_found, ◌>>=◌, somewhere, e) refl in
              rw said (signature, checksum, address, told, nonzero, e)
        ]
  ]
  after_search asserts signature checksum told = inr (inl told)
  after_search faults signature checksum told = told

  -- For a root port, and a table that can be read and has no unit of length 0: on more fuel than
  -- the table has bytes, the parsing ends. It maps the registers of a unit that lists the port, if
  -- the signature and the checksum are right and the address is not 0; otherwise it returns false,
  -- or an assertion fails because the table or a unit is too long or the mapping failed, or the
  -- ports of a unit are beyond the buffer.
  pub parse_keyp_table-ParseTold :
      (fuel : ℕ)
      → ((offset : ℕ)
          → From table keyp_header offset
          → offset < length table
          → word_of table (offset + 2) ≢ 0)
      → length table < fuel
      → (r : Outcome (Bool × Option M)) × (parse_keyp_table map_kcbar_addr w fuel true (some table)
          ≡ some r)
        × ParseTold r
  unfolding parse_keyp_table
  parse_keyp_table-ParseTold fuel lengths enough =
      elim (Bool-cases (leb (length table) buffer_size)) [
        | inr long ↦ (asserts, rw (parse_keyp_table, long) refl, inl (ground arith))
        | inl fits ↦ elim (Bool-cases (signature_ok table)) [
          | inr unsigned ↦
              (returns (false, none), rw (parse_keyp_table, fits, unsigned) refl, inl unsigned)
          | inl signed ↦ elim (Bool-cases (calculate_checksum table == 0)) [
            | inr wrong ↦ (
              returns (false, none),
              rw (parse_keyp_table, fits, signed, wrong) refl,
              inr (inl (ground arith)),
            )
            | inl right ↦
                let (found, e, told) =
                  units_loop-SearchTold table w fuel keyp_header lengths (omega arith) in
                (
                  map_found map_kcbar_addr found,
                  rw (parse_keyp_table, fits, signed, right, e) refl,
                  after_search found signed (ground arith) told,
                )
          ]
        ]
      ]
