-- ===== src/Doe/Receive/Laws.antt =====
-- `device_doe_receive_message` stays inside the response buffer, whatever the device sends.
use tee_io_validator.Common.{
  ℕ, zero, suc, ◌+◌, ◌-◌, ◌*◌, ◌/◌, ◌≤◌, ◌<◌, Bool, true, false, List, some, ◌≡◌, ◌≢◌, inl, inr,
  refl, ◌∙◌, arith, Outcome, returns, asserts, faults, ◌>>=◌, ltb, ◌==◌, if◌then◌else◌, length,
  modify, length-modify, Bool-cases,
}
use tee_io_validator.Doe.{
  Port, Status, success, buffer_too_small, read_mailbox_read, read_mailbox_write,
  is_doe_error_asserted, is_doe_data_object_ready_asserted,
}
use tee_io_validator.Doe.Send.{recover_error}
use tee_io_validator.Doe.Receive.{
  Receiver, receive_delay, read_word, read_words, data_object_count, read_object, receive_end,
  receive_loop, device_doe_receive_message,
}

module _ {D : Type 0} (p : Port D) where
  -- The call returns. The buffer keeps its length; a message that is received has the size that
  -- the caller allowed at most, and one that is refused as too long has more.
  abbrev pub Bounded : ℕ → ℕ → Outcome (Status × Receiver D) → Type 0
  Bounded room size (returns (status, s)) =
      (length s.buffer ≡ room)
      × (status ≡ success → s.response_size ≤ size)
      × (status ≡ buffer_too_small → size < s.response_size)
  Bounded room size asserts = ⊥
  Bounded room size faults = ⊥

  read_word-returns :
      (index : ℕ) (s : Receiver D)
      → index < length s.buffer
      → (w : ℕ) × (s' : Receiver D) × (read_word p index s ≡ returns (w, s'))
        × (length s'.buffer ≡ length s.buffer)
        × (s'.response_size ≡ s.response_size)
  unfolding read_word
  read_word-returns index s h =
      let word = (read_mailbox_read p s.device).0 in
      (
        word,
        record s {
          device = read_mailbox_write p word (read_mailbox_read p s.device).1;
          buffer = modify s.buffer index (λ _. word);
        },
        ground arith,
        length-modify s.buffer index (λ _. word),
        refl,
      )

  read_words-returns :
      (left index : ℕ) (s : Receiver D)
      → index + left ≤ length s.buffer
      → (s' : Receiver D) × (read_words p left index s ≡ returns s')
        × (length s'.buffer ≡ length s.buffer)
        × (s'.response_size ≡ s.response_size)
  unfolding read_words
  read_words-returns zero index s h = (s, refl, refl, refl)
  read_words-returns (suc left) index s h =
      let (w, s1, e, l, z) = read_word-returns index s (omega arith) in
      let (s2, e2, l2, z2) = read_words-returns left (index + 1) s1 (omega arith) in
      (s2, rw (e, ◌>>=◌) e2, l2 ∙ l, z2 ∙ z)

  -- A read object is within the size; one that is not read is beyond it.
  abbrev ObjectBounded : ℕ → ℕ → Outcome (Bool × Receiver D) → Type 0
  ObjectBounded room size (returns (true, s)) = (length s.buffer ≡ room) × (s.response_size ≤ size)
  ObjectBounded room size (returns (false, s)) = (length s.buffer ≡ room) × (size < s.response_size)
  ObjectBounded room size asserts = ⊥
  ObjectBounded room size faults = ⊥

  -- What `read_object` does with the two words of the header.
  object_rest :
      (count room size : ℕ) (s : Receiver D)
      → length s.buffer ≡ room
      → s.response_size ≡ count * 4
      → p.header_size ≤ size
      → size ≤ 4 * room
      → ObjectBounded room size (
          if ltb size (count * 4)
          then returns (false, s)
          else (read_words p (count - p.header_size / 4) (p.header_size / 4) s >>= λ s'.
              returns (true, s')))
  object_rest count room size s l z big fits = elim (Bool-cases (ltb size (count * 4))) [
    | inl long ↦ rw long (l, ground arith)
    | inr short ↦
        let (s', e, l', z') =
          read_words-returns (count - p.header_size / 4) (p.header_size / 4) s (ground arith) in
        rw (short, e, ◌>>=◌) (l' ∙ l, ground arith)
  ]

  module _ (header : 8 ≤ p.header_size) where
    read_object-ObjectBounded :
        (room size : ℕ) (s : Receiver D)
        → length s.buffer ≡ room
        → s.response_size ≡ size
        → p.header_size ≤ size
        → size ≤ 4 * room
        → ObjectBounded room size (read_object p s)
    unfolding read_object read_word-returns
    read_object-ObjectBounded room size s l z big fits =
        let (w1, s1, e1, l1, z1) = read_word-returns 0 s (omega arith) in
        let (w2, s2, e2, l2, z2) = read_word-returns 1 s1 (omega arith) in
        let count = data_object_count p w2 in
        rw (e1, ◌>>=◌)
          (rw (e2, ◌>>=◌)
            (rw z (
              object_rest count room size (record s2 { response_size = count * 4 }) (l2 ∙ l1 ∙ l)
                refl big fits)))

    receive_end-Bounded :
        (room size delay : ℕ) (s : Receiver D)
        → length s.buffer ≡ room
        → s.response_size ≤ size
        → Bounded room size (returns (receive_end p delay s))
    unfolding receive_end
    receive_end-Bounded room size zero s l z = (l, λ e. z, λ e. absurd cc)
    receive_end-Bounded room size (suc delay) s l z =
        elim (Bool-cases (is_doe_error_asserted p s.device).0) [
          | inl x ↦ rw x (l, λ e. z, λ e. absurd cc)
          | inr x ↦ rw x (l, λ e. z, λ e. absurd cc)
        ]

    after_object :
        (room size delay : ℕ) (m : Outcome (Bool × Receiver D))
        → ObjectBounded room size m
        → Bounded room size (
            m >>= λ r. elim r.0 [
              | true ↦ returns (receive_end p (suc delay) r.1)
              | false ↦ returns (buffer_too_small, r.1)
            ])
    after_object room size delay (returns (true, s)) h =
        receive_end-Bounded room size (suc delay) s h.0 h.1
    after_object room size delay (returns (false, s)) h = (h.0, λ e. absurd cc, λ e. h.1)
    after_object room size delay asserts h = h
    after_object room size delay faults h = h

    receive_loop_step :
        (delay : ℕ) (s : Receiver D)
        → receive_loop p (suc delay) s ≡ (
            let (ready, d1) = is_doe_data_object_ready_asserted p s.device in
            let (error, d2) = is_doe_error_asserted p d1 in
            elim ready [
              | true ↦ read_object p (record s { device = d1 }) >>= λ r. elim r.0 [
                | true ↦ returns (receive_end p (suc delay) r.1)
                | false ↦ returns (buffer_too_small, r.1)
              ]
              | false ↦ elim error [
                | true ↦ returns (receive_end p (suc delay) (record s { device = d2 }))
                | false ↦ receive_loop p delay (record s { device = p.sleep 30000 d2 })
              ]
            ])
    unfolding receive_loop
    receive_loop_step delay s = refl

    receive_loop-Bounded :
        (room size delay : ℕ) (s : Receiver D)
        → length s.buffer ≡ room
        → s.response_size ≡ size
        → p.header_size ≤ size
        → size ≤ 4 * room
        → Bounded room size (receive_loop p delay s)
    unfolding receive_loop
    receive_loop-Bounded room size zero s l z big fits =
        receive_end-Bounded room size 0 s l (omega arith)
    receive_loop-Bounded room size (suc delay) s l z big fits =
        let (ready, d1) = is_doe_data_object_ready_asserted p s.device in
        let (error, d2) = is_doe_error_asserted p d1 in
        rw (receive_loop_step delay s) (elim (Bool-cases ready) [
          | inl r ↦ rw r (
              after_object room size delay _
                (read_object-ObjectBounded room size (record s { device = d1 }) l z big fits))
          | inr r ↦ elim (Bool-cases error) [
            | inl x ↦
                rw (r, x)
                  (receive_end-Bounded room size (suc delay) (record s { device = d2 }) l
                    (omega arith))
            | inr x ↦
                rw (r, x)
                  (receive_loop-Bounded room size delay (record s { device = p.sleep 30000 d2 }) l z
                    big fits)
          ]
        ])

    -- With a selected capability, a header of eight bytes or more, and a buffer that holds the
    -- size that is passed, a receive returns, whatever the device sends and whenever: it writes
    -- only inside the buffer, reports success only with a size within the one that was passed,
    -- and `buffer_too_small` only with the larger size that is wanted.
    pub device_doe_receive_message-Bounded :
        (buffer : List ℕ) (response_size : ℕ) (d : D)
        → p.doe_extended_offset ≢ 0
        → response_size ≤ 4 * length buffer
        → Bounded
            (length buffer)
            response_size
            (device_doe_receive_message p (some buffer) response_size d)
    unfolding device_doe_receive_message
    device_doe_receive_message-Bounded buffer size d selected fits =
        elim (Bool-cases (ltb size p.header_size)) [
          | inl small ↦ rw small (refl, λ e. absurd cc, λ e. ground arith)
          | inr enough ↦
              let present : (p.doe_extended_offset == 0) ≡ false = ground arith in
              rw (enough, present)
                (receive_loop-Bounded (length buffer) size receive_delay
                  (record { device = recover_error p d; buffer = buffer; response_size = size })
                  refl refl (ground arith) fits)
        ]
