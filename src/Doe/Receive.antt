-- ===== src/Doe/Receive.antt =====
-- `device_doe_receive_message` of teeio-validator/library/spdmlib/pci_doe.c.
pub mod Laws
pub mod Log
use tee_io_validator.Common.{
  ℕ, zero, suc, ◌+◌, ◌-◌, ◌*◌, ◌/◌, Bool, true, false, not, List, [], ◌∷◌, Option, none, some,
  Outcome, returns, faults, ◌>>=◌, teeio_assert, ltb, ◌==◌, if◌then◌else◌, length, modify,
}
use tee_io_validator.Doe.{
  Port, Status, success, invalid_parameter, receive_fail, buffer_too_small, read_mailbox_read,
  read_mailbox_write, is_doe_error_asserted, is_doe_data_object_ready_asserted, clear_error,
}
use tee_io_validator.Doe.Send.{recover_error}

-- `delay` of the loop: 0x1000000 / 30 + 1.
unfoldable pub receive_delay : ℕ
receive_delay = 0x1000000 / 30 + 1

-- The device, the response buffer by dwords, and `*response_size` in bytes.
pub record Receiver (D : Type 0) : Type 0 where
  pub device : D
  pub buffer : List ℕ
  pub response_size : ℕ

module _ {D : Type 0} (p : Port D) where
  -- `data_object_buffer[index]` is read from the mailbox, and acknowledged by a write. A write
  -- outside the buffer is undefined.
  unfoldable pub read_word : ℕ → Receiver D → Outcome (ℕ × Receiver D)
  unfolding read_mailbox_read read_mailbox_write
  read_word index s =
      let (word, d) = read_mailbox_read p s.device in
      if ltb index (length s.buffer)
      then returns (
        word,
        record s {
          device = read_mailbox_write p word d;
          buffer = modify s.buffer index (λ _. word);
        },
      )
      else faults

  -- The loop from `index`, with `left` dwords to come.
  unfoldable pub read_words : ℕ → ℕ → Receiver D → Outcome (Receiver D)
  read_words zero index s = returns s
  read_words (suc left) index s = read_word index s >>= λ r. read_words left (index + 1) r.1

  -- A length field of 0 stands for the longest object.
  abbrev pub data_object_count : ℕ → ℕ
  data_object_count word = if p.length_of word == 0 then 0x40000 else p.length_of word

  -- The branch in which an object is ready: the flag says that it was read whole.
  unfoldable pub read_object : Receiver D → Outcome (Bool × Receiver D)
  read_object s = read_word 0 s >>= λ first. read_word 1 first.1 >>= λ second.
      let count = data_object_count second.0 in
      let s' = record (second.1) { response_size = count * 4 } in
      if ltb s.response_size (count * 4)
      then returns (false, s')
      else (read_words (count - p.header_size / 4) (p.header_size / 4) s' >>= λ s''.
          returns (true, s''))

  -- What follows the loop; `delay` 0 is a timeout.
  unfoldable pub receive_end : ℕ → Receiver D → Status × Receiver D
  receive_end zero s = (receive_fail, s)
  receive_end (suc delay) s =
      let (error, d) = is_doe_error_asserted p s.device in
      if error
      then (receive_fail, record s { device = clear_error p d })
      else (success, record s { device = d })

  unfoldable pub receive_loop : ℕ → Receiver D → Outcome (Status × Receiver D)
  receive_loop zero s = returns (receive_end 0 s)
  receive_loop (suc delay) s =
      let (ready, d1) = is_doe_data_object_ready_asserted p s.device in
      let (error, d2) = is_doe_error_asserted p d1 in
      elim ready [
        | true ↦ read_object (record s { device = d1 }) >>= λ r. elim r.0 [
          | true ↦ returns (receive_end (suc delay) r.1)
          | false ↦ returns (buffer_too_small, r.1)
        ]
        | false ↦ elim error [
          | true ↦ returns (receive_end (suc delay) (record s { device = d2 }))
          | false ↦ receive_loop delay (record s { device = p.sleep 30000 d2 })
        ]
      ]

  -- `response` is `none` for NULL.
  unfoldable pub device_doe_receive_message :
      Option (List ℕ) → ℕ → D → Outcome (Status × Receiver D)
  device_doe_receive_message none response_size d =
      returns (invalid_parameter, record { device = d; buffer = []; response_size = response_size })
  device_doe_receive_message (some buffer) response_size d =
      let s : Receiver D = record { device = d; buffer = buffer; response_size = response_size } in
      if ltb response_size p.header_size
      then returns (buffer_too_small, record s { response_size = p.header_size })
      else (teeio_assert (not (p.doe_extended_offset == 0)) >>= λ _.
          receive_loop receive_delay (record s { device = recover_error p d }))
