-- ===== src/Doe.antt =====
-- teeio-validator/library/spdmlib/pci_doe.c: the mailbox of a PCIe data object exchange.
-- The device is behind its configuration registers: reading, writing and waiting are parameters
-- on a device state. What libspdm defines comes with them. Writing the packet capture and the
-- log is left out. Each access to a register asserts first that a capability is selected; the offset
-- does not change within a function, so that the assertion stands once in each of the functions that
-- a caller uses, with its first access.
pub mod Send
pub mod Receive
pub mod Exchange
use Prim.Native.Nat.{bit_and, bit_or}
use tee_io_validator.Common.{ℕ, ◌+◌, Bool, not, ◌==◌}

pub record Port (D : Type 0) : Type 0 where
  pub doe_extended_offset : ℕ  -- g_doe_extended_offset
  pub read_32 : ℕ → D → ℕ × D  -- device_pci_read_32 on m_dev_fp
  pub write_32 : ℕ → ℕ → D → D  -- device_pci_write_32
  pub sleep : ℕ → D → D  -- libspdm_sleep
  pub header_size : ℕ  -- sizeof(pci_doe_data_object_header_t)
  pub length_of : ℕ → ℕ  -- data_object_header->length, from the second dword

-- `LIBSPDM_STATUS_...`.
pub data Status : Type 0 where
  success invalid_parameter send_fail receive_fail buffer_too_small : Status

abbrev pub doe_control_offset : ℕ
doe_control_offset = 0x08

abbrev pub doe_control_abort : ℕ
doe_control_abort = 0x00000001

abbrev pub doe_control_go : ℕ
doe_control_go = 0x80000000

abbrev pub doe_status_offset : ℕ
doe_status_offset = 0x0C

abbrev pub doe_status_busy : ℕ
doe_status_busy = 0x00000001

abbrev pub doe_status_error : ℕ
doe_status_error = 0x00000004

abbrev pub doe_status_ready : ℕ
doe_status_ready = 0x80000000

abbrev pub doe_write_data_mailbox_offset : ℕ
doe_write_data_mailbox_offset = 0x10

abbrev pub doe_read_data_mailbox_offset : ℕ
doe_read_data_mailbox_offset = 0x14

-- `~` of the two masks, as 32-bit values.
abbrev pub not_go : ℕ
not_go = 0x7fffffff

abbrev pub not_abort : ℕ
not_abort = 0xfffffffe

module _ {D : Type 0} (p : Port D) where
  unfoldable pub control_read : D → ℕ × D
  control_read = p.read_32 (p.doe_extended_offset + doe_control_offset)

  unfoldable pub control_write : ℕ → D → D
  control_write = p.write_32 (p.doe_extended_offset + doe_control_offset)

  unfoldable pub status_read : D → ℕ × D
  status_read = p.read_32 (p.doe_extended_offset + doe_status_offset)

  unfoldable pub write_mailbox_write : ℕ → D → D
  write_mailbox_write = p.write_32 (p.doe_extended_offset + doe_write_data_mailbox_offset)

  unfoldable pub read_mailbox_read : D → ℕ × D
  read_mailbox_read = p.read_32 (p.doe_extended_offset + doe_read_data_mailbox_offset)

  unfoldable pub read_mailbox_write : ℕ → D → D
  read_mailbox_write = p.write_32 (p.doe_extended_offset + doe_read_data_mailbox_offset)

  -- A test of one bit of the status register, which is read anew.
  unfoldable pub status_bit : ℕ → D → Bool × D
  unfolding status_read
  status_bit mask d = let (status, d') = status_read d in (not (bit_and status mask == 0), d')

  unfoldable pub is_doe_error_asserted : D → Bool × D
  unfolding status_bit
  is_doe_error_asserted = status_bit doe_status_error

  unfoldable pub is_doe_busy_asserted : D → Bool × D
  unfolding status_bit
  is_doe_busy_asserted = status_bit doe_status_busy

  unfoldable pub is_doe_data_object_ready_asserted : D → Bool × D
  unfolding status_bit
  is_doe_data_object_ready_asserted = status_bit doe_status_ready

  unfoldable pub trigger_doe_abort : D → D
  unfolding control_read control_write
  trigger_doe_abort d =
      let (control, d') = control_read d in
      control_write (bit_and (bit_or control doe_control_abort) not_go) d'

  unfoldable pub trigger_doe_go : D → D
  unfolding control_read control_write
  trigger_doe_go d =
      let (control, d') = control_read d in
      control_write (bit_or (bit_and control not_abort) doe_control_go) d'

  -- A set error bit is answered by an abort and a second of waiting.
  unfoldable pub clear_error : D → D
  unfolding trigger_doe_abort
  clear_error d = p.sleep 1000000 (trigger_doe_abort d)
