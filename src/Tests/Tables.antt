-- ===== src/Tests/Tables.antt =====
-- A table of two devices, and a text that names one.
use tee_io_validator.Common.{
  ℕ, ◌+◌, ◌≤◌, ◌<◌, Bool, true, List, [], ◌∷◌, Option, none, some, ◌≡◌, ◌≢◌, refl, arith, Outcome,
  returns, length,
}
use tee_io_validator.Text.Hex.{value}
use tee_io_validator.Text.{calculate_checksum, checksum_loop}
use tee_io_validator.Keyp.{
  Wanted, byte_of, word_of, long_of, field_at, port_matches, ports_loop, unit_step, units_loop,
  signature_ok, map_found, parse_keyp_table,
}
use tee_io_validator.Keyp.Walk.Units.{From, here, later, From-le}
use tee_io_validator.Keyp.Parse.{ParseTold, parse_keyp_table-ParseTold}
use tee_io_validator.Device.{
  Slot, set_deivce_info, unset_device_info, get_device_info_by_fd, get_loop,
}
use tee_io_validator.Device.Table.{Clean, set_deivce_info-get_device_info_by_fd}
use tee_io_validator.Device.Bdf.{
  Bdf, is_valid_bdf, parse_bdf_string, print_bdf, parse_bdf_string-print_bdf,
}

-- The first slot is in use.
abbrev devices : List Slot
devices = record { fd = 3; device_name = 104 ∷ [] } ∷ record { fd = 0; device_name = [] } ∷ []

absent : get_device_info_by_fd devices 5 ≡ returns none
unfolding get_device_info_by_fd get_loop
absent = refl

room : get_loop devices 0 ≢ none
unfolding get_loop
room = λ e. cc

set_deivce_info-get_device_info_by_fd_example :
    (devices' : List Slot) × (devices'' : List Slot) × (set_deivce_info devices 5 (some (100 ∷ []))
      ≡ returns (true, devices'))
    × (unset_device_info devices' 5 ≡ returns (true, devices''))
    × (length devices' ≡ 2)
    × Clean devices'
    × (get_device_info_by_fd devices' 5
        ≡ returns (some (record { fd = 5; device_name = 100 ∷ [] })))
    × (get_device_info_by_fd devices'' 5 ≡ returns none)
    × ((other : ℕ)
        → 0 < other
        → other ≢ 5
        → (get_device_info_by_fd devices' other ≡ get_device_info_by_fd devices other)
          × (get_device_info_by_fd devices'' other ≡ get_device_info_by_fd devices other))
set_deivce_info-get_device_info_by_fd_example =
    set_deivce_info-get_device_info_by_fd devices 5 (100 ∷ []) (omega arith) (omega arith)
      ((λ h. absurd (omega (arith, h))), ((λ h. refl), tt)) absent room

abbrev port_2a : Bdf
port_2a = record { segment = 1; bus = 42; device = 0; function = 0 }

abbrev read_digits : List ℕ → ℕ → ℕ
read_digits s old = value 0 s

parse_bdf_string-print_bdf_example :
    (is_valid_bdf (print_bdf port_2a) ≡ true)
    × (parse_bdf_string read_digits (print_bdf port_2a) ≡ some port_2a)
parse_bdf_string-print_bdf_example =
    parse_bdf_string-print_bdf read_digits port_2a (λ s old a b c. refl) (omega arith) (omega arith)
      (omega arith) (omega arith)

-- A KEYP table with one unit, of protocol 1, for the port 2:3.1, with the registers at 0x1000.
abbrev keyp : List ℕ
keyp =
    75 ∷ 69 ∷ 89 ∷ 80 ∷ 60 ∷ 0 ∷ 0 ∷ 0 ∷ 1 ∷ 73 ∷ 0 ∷ 0 ∷ 0 ∷ 0 ∷ 0 ∷ 0 ∷ 0 ∷ 0 ∷ 0 ∷ 0 ∷ 0 ∷ 0 ∷ 0
    ∷ 0 ∷ 0 ∷ 0 ∷ 0 ∷ 0 ∷ 0 ∷ 0 ∷ 0 ∷ 0 ∷ 0 ∷ 0 ∷ 0 ∷ 0 ∷ 0 ∷ 0 ∷ 0 ∷ 0 ∷ 0 ∷ 0 ∷ 20 ∷ 0 ∷ 1 ∷ 0 ∷ 1
    ∷ 0 ∷ 0 ∷ 16 ∷ 0 ∷ 0 ∷ 0 ∷ 0 ∷ 0 ∷ 0 ∷ 0 ∷ 0 ∷ 2 ∷ 25 ∷ []

abbrev port_3_1 : Wanted
port_3_1 = record { keyp_protocol = 1; segment = 0; bus = 2; device = 3; function = 1 }

keyp_lengths :
    (offset : ℕ) → From keyp 40 offset → offset < length keyp → word_of keyp (offset + 2) ≢ 0
unfolding word_of byte_of
keyp_lengths offset here near = λ e. absurd (omega arith)
keyp_lengths offset (later inside from) near =
    let beyond : 60 ≤ offset = From-le keyp from in absurd (omega arith)

parse_keyp_table-ParseTold_example :
    (r : Outcome (Bool × Option ℕ)) × (parse_keyp_table (λ a. some a) port_3_1 100 true (some keyp)
      ≡ some r)
    × ParseTold (λ a. some a) port_3_1 keyp r
parse_keyp_table-ParseTold_example =
    parse_keyp_table-ParseTold (λ a. some a) port_3_1 keyp 100 keyp_lengths (omega arith)

keyp_maps :
    parse_keyp_table (λ a. some a) port_3_1 100 true (some keyp)
    ≡ some (returns (true, some 0x1000))
unfolding parse_keyp_table signature_ok byte_of word_of long_of field_at port_matches ports_loop
    unit_step units_loop map_found calculate_checksum checksum_loop
keyp_maps = refl
