-- ===== src/Device.antt =====
-- teeio-validator/library/helperlib/pcie_helper.c: the table of open devices, and the texts that
-- name a device by segment, bus, device and function. A text is the list of its bytes without the
-- NUL. A file descriptor below 0 is treated like 0.
pub mod Table
pub mod Bdf
use tee_io_validator.Common.{
  ℕ, zero, suc, ◌+◌, ◌*◌, ◌%◌, Bool, true, false, ◌&&◌, ◌||◌, not, List, [], ◌∷◌, ◌++◌, Option,
  none, some, Outcome, returns, asserts, ◌>>=◌, ◌>>◌, teeio_assert, ltb, ◌==◌, if◌then◌else◌,
  length, get_elem?, take, drop,
}
use tee_io_validator.Config.{same_text}
use tee_io_validator.Text.{is_valid_digital_char}

-- IDE_TEST_DEVICES_INFO; a slot with `fd` 0 is empty.
pub record Slot : Type 0 where
  pub fd : ℕ
  pub device_name : List ℕ

-- `strncpy` of a text without its NUL.
abbrev pub strncpy : List ℕ → List ℕ → List ℕ
strncpy dst src = src ++ drop (length src) dst

unfoldable pub set_loop : List Slot → ℕ → List ℕ → Outcome (Bool × List Slot)
set_loop [] fd name = returns (false, [])
set_loop (s ∷ ss) fd name = elim (s.fd == fd) [
  | true ↦ teeio_assert (same_text s.device_name name) >> returns (true, s ∷ ss)
  | false ↦ elim (s.fd == 0) [
    | true ↦ returns (true, record { fd = fd; device_name = strncpy s.device_name name } ∷ ss)
    | false ↦ set_loop ss fd name >>= λ r. returns (r.0, s ∷ r.1)
  ]
]

-- MAX_NAME_LENGTH is 128; `none` is NULL.
unfoldable pub set_deivce_info : List Slot → ℕ → Option (List ℕ) → Outcome (Bool × List Slot)
set_deivce_info devices fd none = asserts
set_deivce_info devices fd (some name) =
    if (fd == 0) || ltb 127 (length name) then asserts else set_loop devices fd name

unfoldable pub unset_loop : List Slot → ℕ → List Slot
unset_loop [] fd = []
unset_loop (s ∷ ss) fd =
    let rest = unset_loop ss fd in
    if s.fd == fd then record { fd = 0; device_name = [] } ∷ ss else s ∷ rest

unfoldable pub unset_device_info : List Slot → ℕ → Outcome (Bool × List Slot)
unset_device_info devices fd = if fd == 0 then asserts else returns (true, unset_loop devices fd)

unfoldable pub get_loop : List Slot → ℕ → Option Slot
get_loop [] fd = none
get_loop (s ∷ ss) fd = let rest = get_loop ss fd in if s.fd == fd then some s else rest

unfoldable pub get_device_info_by_fd : List Slot → ℕ → Outcome (Option Slot)
get_device_info_by_fd devices fd = if fd == 0 then asserts else returns (get_loop devices fd)
