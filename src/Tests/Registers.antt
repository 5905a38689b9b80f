-- ===== src/Tests/Registers.antt =====
-- Registers, keys, texts and configurations of small size.
use mathlib.Core.List.{map, reverse}
use tee_io_validator.Common.{
  ◌/◌, ℕ, zero, suc, ◌+◌, ◌*◌, ◌≤◌, true, false, List, [], ◌∷◌, Option, none, some, ◌≡◌, ◌≢◌, ◌↔◌,
  refl, arith, returns, get_elem?,
}
use tee_io_validator.Keys.{Dword, pcie_construct_rp_keys, cxl_construct_rp_keys}
use tee_io_validator.Keys.Order.{
  reverted, bytes, pcie_construct_rp_keys-reverse, cxl_construct_rp_keys-reverse,
}
use tee_io_validator.Kcbar.Layout.Enable.{
  enable_ide_stream_in_kcbar-is_rp_ide_stream_enabled_in_kcbar,
}
use tee_io_validator.Kcbar.{
  enable_ide_stream_in_kcbar, is_rp_ide_stream_enabled_in_kcbar, mmio_read_reg32, stream_rx, ks_0,
  sub_stream_npr,
}
use tee_io_validator.Kcbar.Slots.{IdeKeySet}
use tee_io_validator.Kcbar.Layout.Program.{Programs, cfg_rootport_ide_keys-Programs}
use tee_io_validator.Text.{convert_hex_str}
use tee_io_validator.Text.Hex.{IsHexText, value, convert_hex_str_iff}
use tee_io_validator.Config.{
  IdePort, IdeTestConfig, get_port_by_id, get_port_by_name, is_valid_port, get_port_id_from_name,
  find_first, same_text,
}
use tee_io_validator.Config.Names.{get_port_id_from_name-get_port_by_id}

abbrev first_dword : Dword
first_dword = record { byte_0 = 1; byte_1 = 2; byte_2 = 3; byte_3 = 4 }

abbrev last_dword : Dword
last_dword = record { byte_0 = 5; byte_1 = 6; byte_2 = 7; byte_3 = 8 }

abbrev key : List Dword
key = first_dword ∷ last_dword ∷ []

pcie_construct_rp_keys-reverse_example :
    pcie_construct_rp_keys (some key) 8 (some (last_dword ∷ last_dword ∷ [])) 8
    ≡ returns (true, last_dword ∷ first_dword ∷ [])
pcie_construct_rp_keys-reverse_example =
    pcie_construct_rp_keys-reverse key (last_dword ∷ last_dword ∷ []) (λ e. absurd (omega arith))
      refl

cxl_construct_rp_keys-reverse_example :
    (out : List Dword) × (cxl_construct_rp_keys (some key) 8 (some (last_dword ∷ last_dword ∷ [])) 8
      ≡ returns (true, out))
    × (out ≡ map reverted key)
    × (bytes (reverse out) ≡ 8 ∷ 7 ∷ 6 ∷ 5 ∷ 4 ∷ 3 ∷ 2 ∷ 1 ∷ [])
cxl_construct_rp_keys-reverse_example =
    cxl_construct_rp_keys-reverse key (last_dword ∷ last_dword ∷ []) (λ e. absurd (omega arith))
      refl

-- Six slots on each side and two streams, the first of which uses the slots 0, 1 and 2.
abbrev two_streams : ℕ
two_streams = 1 + 5 * 1024 + 5 * 1048576

abbrev registers : List ℕ
registers =
    two_streams
    ∷ 1
    ∷ 1
    ∷ 0
    ∷ 0
    ∷ 0
    ∷ (1024 + 2 * 1048576)
    ∷ 0
    ∷ 0
    ∷ 0
    ∷ 0
    ∷ 0
    ∷ 0
    ∷ 0
    ∷ 0
    ∷ 0
    ∷ 0
    ∷ 0
    ∷ 0
    ∷ []

abbrev no_slots : IdeKeySet
no_slots = record {
  rx = record { pr_slot = 0; npr_slot = 0; cpl_slot = 0 };
  tx = record { pr_slot = 0; npr_slot = 0; cpl_slot = 0 };
}

abbrev streams : ℕ → Option ℕ
streams s = elim s [ zero ↦ some 0 | suc n ↦ none ]

-- One stream and one slot on each side.
abbrev small_registers : List ℕ
small_registers =
    0 ∷ 0 ∷ 0 ∷ 0 ∷ 0 ∷ 0 ∷ 7 ∷ 0 ∷ 0 ∷ 0 ∷ 0 ∷ 0 ∷ 0 ∷ 0 ∷ 0 ∷ 0 ∷ 0 ∷ 0 ∷ 0 ∷ 0 ∷ 0 ∷ 0 ∷ 0 ∷ 0
    ∷ 0 ∷ 0 ∷ 0 ∷ 0 ∷ 0 ∷ 0 ∷ []

abbrev key_words : List ℕ
key_words = 1 ∷ 2 ∷ 3 ∷ 4 ∷ 5 ∷ 6 ∷ 7 ∷ 8 ∷ []

cfg_rootport_ide_keys-Programs_example :
    Programs small_registers 0 0 stream_rx ks_0 sub_stream_npr 0 key_words (9 ∷ 10 ∷ [])
unfolding mmio_read_reg32
cfg_rootport_ide_keys-Programs_example =
    cfg_rootport_ide_keys-Programs small_registers 0 0 stream_rx ks_0 sub_stream_npr 0 key_words
      (9 ∷ 10 ∷ []) refl (omega arith) (omega arith) (λ e. cc) (λ e. cc) (omega arith) refl refl

enable_ide_stream_in_kcbar-is_rp_ide_stream_enabled_in_kcbar_example :
    (regs' : List ℕ) × (old : ℕ) × (new : ℕ) × (enable_ide_stream_in_kcbar small_registers 0 true
      ≡ returns regs')
    × (is_rp_ide_stream_enabled_in_kcbar regs' 0 ≡ returns true)
    × (get_elem? small_registers 1 ≡ some old)
    × (get_elem? regs' 1 ≡ some new)
    × (new / 2 ≡ old / 2)
    × ((i : ℕ) → 1 ≢ i → get_elem? regs' i ≡ get_elem? small_registers i)
enable_ide_stream_in_kcbar-is_rp_ide_stream_enabled_in_kcbar_example =
    enable_ide_stream_in_kcbar-is_rp_ide_stream_enabled_in_kcbar small_registers 0 true
      (omega arith)

-- "0x1F"
convert_hex_str_iff_example : (convert_hex_str 255 (some (48 ∷ 120 ∷ 49 ∷ 70 ∷ [])) ≡ some 31) ↔ (
    (x : ℕ) × (ds : List ℕ) × IsHexText (48 ∷ 120 ∷ 49 ∷ 70 ∷ []) x ds
    × (value 0 ds ≡ 31)
    × (31 ≤ 255))
convert_hex_str_iff_example = convert_hex_str_iff 255 (48 ∷ 120 ∷ 49 ∷ 70 ∷ []) 31 (omega arith)

abbrev two_ports : IdeTestConfig
two_ports = record {
  ports_config =
      record { id = 1; enabled = false; port_name = 97 ∷ [] }
      ∷ record { id = 2; enabled = true; port_name = 98 ∷ [] }
      ∷ [];
  switches_config = [];
  topologies = [];
  configurations = [];
}

get_port_id_from_name-get_port_by_id_example :
    (p : IdePort) × (get_port_by_id (some two_ports) 2 ≡ some p)
    × (get_port_by_name (some two_ports) (some (98 ∷ [])) ≡ some p)
    × (is_valid_port (some two_ports.ports_config) (some (98 ∷ [])) ≡ true)
    × (p.enabled ≡ true)
    × (p.id ≡ 2)
    × (p.port_name ≡ 98 ∷ [])
unfolding get_port_id_from_name find_first same_text
get_port_id_from_name-get_port_by_id_example =
    get_port_id_from_name-get_port_by_id two_ports (98 ∷ []) 2
      (((λ e. absurd (omega arith)), tt), (tt, tt)) refl (λ e. absurd (omega arith))
