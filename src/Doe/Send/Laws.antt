-- ===== src/Doe/Send/Laws.antt =====
-- What `device_doe_send_message` writes into the registers of the device.
use mathlib.Core.List.{append_assoc, append-nil}
use Prim.Native.Nat.{bit_and, bit_or}
use tee_io_validator.Common.{
  ℕ, zero, suc, ◌+◌, true, List, [], ◌∷◌, ◌++◌, ◌≡◌, ◌⊎◌, inl, inr, refl, sym, ap, ◌∙◌, arith,
  returns, append, Bool-cases, ◌≤◌, take, length, >>=-of-returns,
}
use tee_io_validator.Doe.{
  Port, Status, success, send_fail, doe_control_offset, doe_control_go, doe_control_abort, not_go,
  doe_write_data_mailbox_offset, not_abort, is_doe_error_asserted, is_doe_busy_asserted,
  trigger_doe_go, clear_error, write_mailbox_write,
}
use tee_io_validator.Doe.Send.{write_words, send_loop, send_end, recover_error}

-- The same device with a record of all register writes, as offset and value.
abbrev pub logged : {D : Type 0} → Port D → Port (D × List (ℕ × ℕ))
logged p = record {
  doe_extended_offset = p.doe_extended_offset;
  read_32 = λ offset s. let (value, d) = p.read_32 offset s.0 in (value, (d, s.1));
  write_32 = λ offset value s. (p.write_32 offset value s.0, append s.1 (offset, value));
  sleep = λ time s. (p.sleep time s.0, s.1);
  header_size = p.header_size;
  length_of = p.length_of;
}

module _ {D : Type 0} (p : Port D) where
  -- The words of a request in the write mailbox, in order.
  abbrev pub mailbox_writes : List ℕ → List (ℕ × ℕ)
  mailbox_writes [] = []
  mailbox_writes (word ∷ words) =
      (p.doe_extended_offset + doe_write_data_mailbox_offset, word) ∷ mailbox_writes words

  -- A write of the control register with the GO bit, over the value `control`.
  abbrev pub go_write : ℕ → ℕ × ℕ
  go_write control = (
    p.doe_extended_offset + doe_control_offset,
    bit_or (bit_and control not_abort) doe_control_go,
  )

  -- `log` goes on from `before` with the whole request and then GO, and nothing else.
  abbrev pub Sent : List ℕ → List (ℕ × ℕ) → List (ℕ × ℕ) → Type 0
  Sent request before log =
      (control : ℕ) × (log ≡ before ++ (mailbox_writes request ++ go_write control ∷ []))

  -- The error bit stays set from one reading of the status to the next, as the PCIe
  -- specification has it until an abort.
  abbrev pub ErrorStays : Type 0
  ErrorStays =
      (d : D)
      → (is_doe_error_asserted p d).0 ≡ true
      → (is_doe_error_asserted p (is_doe_error_asserted p d).1).0 ≡ true

  write_words-log :
      (count : ℕ) (words : List ℕ) (s : D × List (ℕ × ℕ))
      → count ≤ length words
      → (s' : D × List (ℕ × ℕ)) × (write_words (logged p) count words s ≡ returns s')
        × (s'.1 ≡ s.1 ++ mailbox_writes (take count words))
  unfolding write_words
  write_words-log zero words s room = (s, refl, sym (append-nil s.1))
  write_words-log (suc left) [] s room = absurd (omega arith)
  write_words-log (suc left) (word ∷ words) s room =
      let (s', e, l) =
        write_words-log left words (write_mailbox_write (logged p) word s) (omega arith) in
      (s', e, l ∙ append_assoc s.1 _ (mailbox_writes (take left words)))

  trigger_doe_go-log :
      (s : D × List (ℕ × ℕ))
      → (control : ℕ) × ((trigger_doe_go (logged p) s).1 ≡ append s.1 (go_write control))
  unfolding trigger_doe_go
  trigger_doe_go-log s = ((p.read_32 (p.doe_extended_offset + doe_control_offset) s.0).0, refl)

  go-Sent :
      (request : List ℕ) (before : List (ℕ × ℕ)) (s : D × List (ℕ × ℕ))
      → s.1 ≡ before ++ mailbox_writes request
      → Sent request before (trigger_doe_go (logged p) s).1
  go-Sent request before s h =
      let (control, e) = trigger_doe_go-log s in
      (
        control,
        e
            ∙ ap (λ l. append l (go_write control)) h
            ∙ append_assoc before (mailbox_writes request) (go_write control ∷ []),
      )

  busy-log : (s : D × List (ℕ × ℕ)) → (is_doe_busy_asserted (logged p) s).1.1 ≡ s.1
  unfolding is_doe_busy_asserted
  busy-log s = refl

  error-log : (s : D × List (ℕ × ℕ)) → (is_doe_error_asserted (logged p) s).1.1 ≡ s.1
  unfolding is_doe_error_asserted
  error-log s = refl

  logged-ErrorStays :
      ErrorStays
      → (s : D × List (ℕ × ℕ)) → (is_doe_error_asserted (logged p) s).0 ≡ true
      → (is_doe_error_asserted (logged p) (is_doe_error_asserted (logged p) s).1).0 ≡ true
  unfolding is_doe_error_asserted
  logged-ErrorStays stays s e = stays s.0 e

  -- How the loop ends: by a timeout, with the error bit set, or with the request sent.
  abbrev pub LoopEnd : List ℕ → List (ℕ × ℕ) → ℕ × (D × List (ℕ × ℕ)) → Type 0
  LoopEnd request l r =
      (r.0 ≡ 0) ⊎ (((is_doe_error_asserted (logged p) r.1).0 ≡ true) ⊎ Sent request l r.1.1)

  pub send_loop-LoopEnd :
      ErrorStays
      → (count : ℕ) (request : List ℕ) (delay : ℕ) (s : D × List (ℕ × ℕ)) (l : List (ℕ × ℕ))
      → count ≤ length request
      → s.1 ≡ l
      → (r : ℕ × (D × List (ℕ × ℕ))) × (send_loop (logged p) count request delay s ≡ returns r)
        × LoopEnd (take count request) l r
  unfolding send_loop
  send_loop-LoopEnd stays count request zero s l room e = ((0, s), refl, inl refl)
  send_loop-LoopEnd stays count request (suc delay) s l room e =
      let q = logged p in
      let busy = is_doe_busy_asserted q s in
      let error = is_doe_error_asserted q busy.1 in
      elim (Bool-cases busy.0) [
        | inl b ↦ elim (Bool-cases error.0) [
          | inl x ↦ (
            (suc delay, error.1),
            rw (send_loop, b, x) refl,
            inr (inl (logged-ErrorStays stays busy.1 x)),
          )
          | inr x ↦
              let (r, e', h) =
                send_loop-LoopEnd stays count request delay (q.sleep 30000 error.1) l room
                  (error-log busy.1 ∙ busy-log s ∙ e) in
              (r, rw (send_loop, b, x) e', h)
        ]
        | inr b ↦
            let (s', written, log) = write_words-log count request busy.1 room in
            let start : s'.1 ≡ l ++ mailbox_writes (take count request) =
              log ∙ ap (λ k. k ++ mailbox_writes (take count request)) (busy-log s ∙ e) in
            (
              (suc delay, trigger_doe_go q s'),
              rw (send_loop, b) (>>=-of-returns _ _ written refl),
              inr (inr (go-Sent (take count request) l s' start)),
            )
      ]

  -- What `recover_error` writes: nothing, or the abort.
  abbrev pub Recovered : List (ℕ × ℕ) → Type 0
  Recovered l =
      (l ≡ []) ⊎ ((control : ℕ) × (l ≡ (p.doe_extended_offset + doe_control_offset, control) ∷ []))

  aborted :
      (s : D × List (ℕ × ℕ))
      → s.1 ≡ []
      → (control : ℕ) × ((clear_error (logged p) s).1
          ≡ (p.doe_extended_offset + doe_control_offset, control) ∷ [])
  unfolding clear_error
  aborted s e =
      let control =
        bit_and
          (bit_or (p.read_32 (p.doe_extended_offset + doe_control_offset) s.0).0 doe_control_abort)
          not_go in
      (control, ap (λ l. append l (p.doe_extended_offset + doe_control_offset, control)) e)

  recover_error-log : (d : D) → Recovered (recover_error (logged p) (d, [])).1
  unfolding recover_error
  recover_error-log d = elim (Bool-cases (is_doe_error_asserted (logged p) (d, [])).0) [
    | inl e ↦ rw e (inr (aborted (is_doe_error_asserted (logged p) (d, [])).1 (error-log (d, []))))
    | inr e ↦ rw e (inl (error-log (d, [])))
  ]

  -- Where the sending ends: with a failure, or with success and all writes made.
  abbrev pub SendEnd : List ℕ → Status × (D × List (ℕ × ℕ)) → Type 0
  SendEnd request r =
      ((r.0 ≡ success) × (before : List (ℕ × ℕ)) × Recovered before × Sent request before r.1.1)
      ⊎ (r.0 ≡ send_fail)

  pub send_end-SendEnd :
      (request : List ℕ) (d : D) (r : ℕ × (D × List (ℕ × ℕ)))
      → LoopEnd request (recover_error (logged p) (d, [])).1 r
      → SendEnd request (send_end (logged p) r)
  unfolding send_end
  send_end-SendEnd request d (zero, s) h = inr refl
  send_end-SendEnd request d (suc delay, s) h =
      elim (Bool-cases (is_doe_error_asserted (logged p) s).0) [
        | inl dirty ↦ rw dirty (inr refl)
        | inr clean ↦ elim h [
          | inl late ↦ absurd (omega (arith, late))
          | inr (inl dirty) ↦ absurd (cc (dirty, clean))
          | inr (inr (control, log)) ↦ rw clean (
              inl (
                refl,
                (recover_error (logged p) (d, [])).1,
                recover_error-log d,
                (control, error-log s ∙ log),
              ))
        ]
      ]
