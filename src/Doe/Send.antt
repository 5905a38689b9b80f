-- ===== src/Doe/Send.antt =====
-- `device_doe_send_message` of teeio-validator/library/spdmlib/pci_doe.c.
pub mod Laws
pub mod Ends
use tee_io_validator.Common.{
  ℕ, zero, suc, ◌+◌, ◌*◌, ◌/◌, ◌%◌, Bool, true, false, not, List, [], ◌∷◌, Option, none, some,
  Outcome, returns, faults, ◌>>=◌, teeio_assert, ◌==◌, if◌then◌else◌, length,
}
use tee_io_validator.Doe.{
  Port, Status, success, invalid_parameter, send_fail, write_mailbox_write, is_doe_error_asserted,
  is_doe_busy_asserted, trigger_doe_go, clear_error,
}

-- PCI_EXPRESS_DOE_MAILBOX_TIMEOUT
abbrev pub doe_mailbox_timeout : ℕ
doe_mailbox_timeout = 300000000

-- The polls that the loop may make; `timeout` 0 stands for the default.
unfoldable pub delay_of : ℕ → ℕ
delay_of timeout = (if timeout == 0 then doe_mailbox_timeout else timeout) / 30 + 1

module _ {D : Type 0} (p : Port D) where
  -- The first `data_object_count` words of the request; a read behind its end is undefined.
  unfoldable pub write_words : ℕ → List ℕ → D → Outcome D
  unfolding write_mailbox_write
  write_words zero words d = returns d
  write_words (suc left) [] d = faults
  write_words (suc left) (word ∷ words) d = write_words left words (write_mailbox_write p word d)

  -- The polling loop, with the value of `delay` at its end: 0 is a timeout.
  unfoldable pub send_loop : ℕ → List ℕ → ℕ → D → Outcome (ℕ × D)
  send_loop data_object_count words zero d = returns (0, d)
  send_loop data_object_count words (suc delay) d =
      let (busy, d1) = is_doe_busy_asserted p d in
      let (error, d2) = is_doe_error_asserted p d1 in
      elim busy [
        | false ↦ write_words data_object_count words d1 >>= λ d'.
            returns (suc delay, trigger_doe_go p d')
        | true ↦ elim error [
          | true ↦ returns (suc delay, d2)
          | false ↦ send_loop data_object_count words delay (p.sleep 30000 d2)
        ]
      ]

  -- The check behind the loop.
  unfoldable pub send_end : ℕ × D → Status × D
  send_end (zero, d) = (send_fail, d)
  send_end (suc delay, d) =
      let (error, d') = is_doe_error_asserted p d in
      if error then (send_fail, clear_error p d') else (success, d')

  unfoldable pub recover_error : D → D
  recover_error d =
      let (error, d') = is_doe_error_asserted p d in if error then clear_error p d' else d'

  -- `request` is the buffer of the message by dwords, or `none` for NULL; the size of the message
  -- in bytes is a multiple of four, or the program asserts. So it does where no DOE capability is
  -- selected.
  unfoldable pub device_doe_send_message : ℕ → Option (List ℕ) → ℕ → D → Outcome (Status × D)
  device_doe_send_message request_size none timeout d = returns (invalid_parameter, d)
  device_doe_send_message request_size (some request) timeout d =
      if request_size == 0
      then returns (invalid_parameter, d)
      else (teeio_assert (request_size % 4 == 0) >>= λ _.
          teeio_assert (not (p.doe_extended_offset == 0)) >>= λ _.
          send_loop (request_size / 4) request (delay_of timeout) (recover_error d) >>= λ r.
          returns (send_end r))
