-- ===== src/Caps.antt =====
-- The walks of the capability lists of a device in
-- teeio-validator/library/pcie_ide_lib/pcie_ide.c. The configuration space is a function from an
-- offset to the dword there, which nothing changes during a walk. The walks of the code have no
-- bound; here they are given fuel, and `none` says that it did not suffice.
pub mod Walk
use tee_io_validator.Common.{
  ℕ, zero, suc, ◌+◌, ◌/◌, ◌%◌, Bool, true, false, not, ◌&&◌, ◌||◌, List, Option, none, some,
  Outcome, returns, asserts, faults, ltb, ◌==◌, if◌then◌else◌, length, modify,
}

-- `while (walker < limit && walker != 0)`.
abbrev pub in_list : ℕ → ℕ → Bool
in_list limit walker = ltb walker limit && not (walker == 0)

-- PCIE_CAP_LIST
abbrev pub cap_id_of : ℕ → ℕ
cap_id_of header = header % 256

abbrev pub next_cap_of : ℕ → ℕ
next_cap_of header = header / 256 % 256

-- PCIE_CAP_ID
abbrev pub ext_id_of : ℕ → ℕ
ext_id_of header = header % 65536

abbrev pub next_ext_of : ℕ → ℕ
next_ext_of header = header / 1048576 % 4096

abbrev pub pcie_capability_id : ℕ
pcie_capability_id = 0x10

abbrev pub pci_doe_ext_capability_id : ℕ
pci_doe_ext_capability_id = 0x2E

abbrev pub pci_ide_ext_capability_id : ℕ
pci_ide_ext_capability_id = 0x30

abbrev pub pci_aer_ext_capability_id : ℕ
pci_aer_ext_capability_id = 0x01

abbrev pub pci_device3_ext_capability_id : ℕ
pci_device3_ext_capability_id = 0x2F

abbrev pub supported_ext_id : ℕ → Bool
supported_ext_id ext_id =
    (ext_id == pci_doe_ext_capability_id)
    || ((ext_id == pci_ide_ext_capability_id)
        || ((ext_id == pci_aer_ext_capability_id) || (ext_id == pci_device3_ext_capability_id)))

-- The array `doe_offsets`, `none` for NULL, and its size in `*size`. A write outside of the
-- array itself is undefined.
unfoldable pub store_doe : Option (List ℕ) → ℕ → ℕ → ℕ → Outcome (Option (List ℕ))
store_doe none size cnt walker = returns none
store_doe (some offsets) size cnt walker =
    if ltb cnt size
    then (if ltb cnt (length offsets)
        then returns (some (modify offsets cnt (λ _. walker)))
        else faults)
    else asserts

module _ (read_32 : ℕ → ℕ) where
  unfoldable pub cap_loop : ℕ → ℕ → ℕ → Option ℕ
  cap_loop zero cap_id walker = none
  cap_loop (suc fuel) cap_id walker =
      let rest = cap_loop fuel cap_id (next_cap_of (read_32 walker)) in
      if in_list 0x100 walker
      then (if cap_id_of (read_32 walker) == cap_id then some walker else rest)
      else some 0

  unfoldable pub get_cap_offset : ℕ → ℕ → Option ℕ
  get_cap_offset fuel cap_id =
      if cap_id == pcie_capability_id then cap_loop fuel cap_id (read_32 0x34 % 256) else some 0

  unfoldable pub ext_cap_loop : ℕ → ℕ → ℕ → Option ℕ
  ext_cap_loop zero ext_id walker = none
  ext_cap_loop (suc fuel) ext_id walker =
      let rest = ext_cap_loop fuel ext_id (next_ext_of (read_32 walker)) in
      if in_list 0x1000 walker
      then (if ext_id_of (read_32 walker) == ext_id then some walker else rest)
      else some 0

  unfoldable pub get_extended_cap_offset : ℕ → ℕ → Option ℕ
  get_extended_cap_offset fuel ext_id =
      if supported_ext_id ext_id then ext_cap_loop fuel ext_id 0x100 else some 0

  -- The result is the return value, the array and `*size`.
  unfoldable pub doe_loop :
      ℕ → Option (List ℕ) → ℕ → ℕ → ℕ → Option (Outcome (Bool × Option (List ℕ) × ℕ))
  doe_loop zero offsets size cnt walker = none
  doe_loop (suc fuel) offsets size cnt walker =
      let next = next_ext_of (read_32 walker) in
      elim (in_list 0x1000 walker) [
        | false ↦ some (returns (ltb 0 cnt, offsets, cnt))
        | true ↦ elim (ext_id_of (read_32 walker) == pci_doe_ext_capability_id) [
          | false ↦ doe_loop fuel offsets size cnt next
          | true ↦ elim (store_doe offsets size cnt walker) [
            | returns offsets' ↦ doe_loop fuel offsets' size (cnt + 1) next
            | asserts ↦ some asserts
            | faults ↦ some faults
          ]
        ]
      ]

  unfoldable pub get_doe_extended_cap_offset :
      ℕ → Option (List ℕ) → ℕ → Option (Outcome (Bool × Option (List ℕ) × ℕ))
  get_doe_extended_cap_offset fuel offsets size = doe_loop fuel offsets size 0 0x100
