-- ===== src/Keyp.antt =====
-- teeio-validator/library/pcie_ide_lib/intel_rp_pcie.c: the search of the KEYP table for the root
-- port, whose layout is in include/intel_keyp.h. The table is the list of its bytes. What maps the
-- registers is a parameter, since it asks the operating system.
pub mod Walk
pub mod Parse
use tee_io_validator.Common.{
  ℕ, zero, suc, ◌+◌, ◌*◌, ◌/◌, ◌%◌, Bool, true, false, not, ◌&&◌, List, [], ◌∷◌, Option, none, some,
  ◌⊎◌, inl, inr, Outcome, returns, asserts, faults, ◌>>=◌, teeio_assert, ltb, leb, ◌==◌,
  if◌then◌else◌, length, get_elem?,
}
use tee_io_validator.Text.{calculate_checksum}

-- What is searched for: the protocol and the address of the port.
pub record Wanted : Type 0 where
  pub keyp_protocol : ℕ
  pub segment : ℕ
  pub bus : ℕ
  pub device : ℕ
  pub function : ℕ

abbrev pub or_0 : Option ℕ → ℕ
or_0 none = 0
or_0 (some x) = x

-- sizeof(buffer), sizeof(INTEL_KEYP_ACPI) and sizeof(INTEL_KEYP_KEY_CONFIGURATION_UNIT)
abbrev pub buffer_size : ℕ
buffer_size = 4096

abbrev pub keyp_header : ℕ
keyp_header = 40

abbrev pub unit_header : ℕ
unit_header = 16

module _ (table : List ℕ) where
  -- The buffer is zero behind the table.
  unfoldable pub byte_of : ℕ → ℕ
  byte_of i = or_0 (get_elem? table i)

  unfoldable pub word_of : ℕ → ℕ
  word_of i = byte_of i + 256 * byte_of (i + 1)

  unfoldable pub long_of : ℕ → ℕ
  long_of i =
      word_of i + 65536 * (word_of (i + 2) + 65536 * (word_of (i + 4) + 65536 * word_of (i + 6)))

  -- A field of some bytes in the buffer; what is behind it is undefined.
  unfoldable pub field_at : (ℕ → ℕ) → ℕ → ℕ → Outcome ℕ
  field_at read width i = if leb (i + width) buffer_size then returns (read i) else faults

  module _ (w : Wanted) where
    -- The comparison of a root port information, field by field.
    unfoldable pub port_matches : ℕ → Outcome Bool
    port_matches i = field_at word_of 2 i >>= λ segment. elim (segment == w.segment) [
      | false ↦ returns false
      | true ↦ field_at byte_of 1 (i + 2) >>= λ bus. elim (bus == w.bus) [
        | false ↦ returns false
        | true ↦ field_at byte_of 1 (i + 3) >>= λ bits.
            returns ((bits / 8 == w.device) && (bits % 8 == w.function))
      ]
    ]

    -- The loop over the root ports of a unit, with `left` to come.
    unfoldable pub ports_loop : ℕ → ℕ → Outcome Bool
    ports_loop zero i = returns false
    ports_loop (suc left) i = port_matches i >>= λ found. elim found [
      | true ↦ returns true
      | false ↦ ports_loop left (i + 4)
    ]

    -- The body of the loop over the units: the address that is found, or the next offset.
    unfoldable pub unit_step : ℕ → Outcome (ℕ ⊎ ℕ)
    unit_step offset = field_at word_of 2 (offset + 2) >>= λ unit_length.
        teeio_assert (leb (offset + unit_length) (length table)) >>= λ _.
        field_at byte_of 1 (offset + 4) >>= λ protocol. elim (protocol == w.keyp_protocol) [
          | false ↦ returns (inr (offset + unit_length))
          | true ↦ field_at byte_of 1 (offset + 6) >>= λ count.
              ports_loop count (offset + unit_header) >>= λ found. elim found [
                | true ↦ field_at long_of 8 (offset + 8) >>= λ address. returns (inl address)
                | false ↦ returns (inr (offset + unit_length))
              ]
        ]

    -- `none` is an unfinished loop.
    unfoldable pub units_loop : ℕ → ℕ → Option (Outcome (Option ℕ))
    units_loop zero offset = none
    units_loop (suc fuel) offset = elim (ltb offset (length table)) [
      | false ↦ some (returns none)
      | true ↦ elim (unit_step offset) [
        | returns r ↦ elim r [
          | inl address ↦ some (returns (some address))
          | inr next ↦ units_loop fuel next
        ]
        | asserts ↦ some asserts
        | faults ↦ some faults
      ]
    ]

unfoldable pub signature_ok : List ℕ → Bool
unfolding byte_of
signature_ok table =
    (byte_of table 0 == 75)
    && (byte_of table 1 == 69)
    && (byte_of table 2 == 89)
    && (byte_of table 3 == 80)

module _ {M : Type 0} (map_kcbar_addr : ℕ → Option M) where
  -- What follows the loop.
  unfoldable pub map_found : Outcome (Option ℕ) → Outcome (Bool × Option M)
  map_found found = found >>= λ address. elim address [
    | none ↦ returns (false, none)
    | some a ↦ elim (a == 0) [
      | true ↦ returns (false, none)
      | false ↦ elim (map_kcbar_addr a) [
        | none ↦ asserts
        | some mapped ↦ returns (true, some mapped)
      ]
    ]
  ]

  module _ (w : Wanted) where
    -- `file`: the table, or `none` where it cannot be opened. The result is what is returned, and
    -- `mapped_kcbar_addr`.
    unfoldable pub parse_keyp_table :
        ℕ → Bool → Option (List ℕ) → Option (Outcome (Bool × Option M))
    parse_keyp_table fuel false file = some asserts
    parse_keyp_table fuel true none = some (returns (false, none))
    parse_keyp_table fuel true (some table) = elim (leb (length table) buffer_size) [
      | false ↦ some asserts
      | true ↦ elim (signature_ok table && (calculate_checksum table == 0)) [
        | false ↦ some (returns (false, none))
        | true ↦ elim (units_loop table w fuel keyp_header) [
          | none ↦ none
          | some found ↦ some (map_found found)
        ]
      ]
    ]
