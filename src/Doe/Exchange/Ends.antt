-- ===== src/Doe/Exchange/Ends.antt =====
-- How `pci_doe_send_receive_data` ends.
use tee_io_validator.Common.{
  ℕ, ◌≤◌, ◌<◌, List, [], ◌∷◌, ◌++◌, ◌≡◌, ◌⊎◌, inr, refl, ap, ◌∙◌, Outcome, returns, asserts, faults,
  length, Ensures,
}
use tee_io_validator.Doe.{Port, Status, success, send_fail, buffer_too_small}
use tee_io_validator.Doe.Send.Laws.{logged, Recovered, Sent, mailbox_writes, go_write}
use tee_io_validator.Doe.Receive.{Receiver}
use tee_io_validator.Doe.Receive.Laws.{Bounded}
use tee_io_validator.Doe.Receive.Log.{Extends}

module _ {D : Type 0} (p : Port D) where
  -- The record of the writes begins with an abort at most, the words and GO.
  abbrev pub Opens : List ℕ → List (ℕ × ℕ) → Type 0
  Opens words log =
      (before : List (ℕ × ℕ)) × (after : List (ℕ × ℕ)) × (control : ℕ) × Recovered p before
      × (log ≡ before ++ (mailbox_writes p words ++ go_write p control ∷ []) ++ after)

  Sent-Opens :
      (words : List ℕ) (before log log' : List (ℕ × ℕ))
      → Recovered p before
      → Sent p words before log
      → Extends log log'
      → Opens words log'
  Sent-Opens words before log log' recovered (control, e) (after, e') =
      (before, after, control, recovered, e' ∙ ap (λ l. l ++ after) e)

  -- What an exchange returns with a response of some words and a size of some bytes: the request
  -- was not sent, and the response and its size are as they were; or it was sent, the response has
  -- its length, and its size is as the status says.
  abbrev pub Exchanged : List ℕ → List ℕ → ℕ → Status × Receiver (D × List (ℕ × ℕ)) → Type 0
  Exchanged words response size (status, r) =
      ((status ≡ send_fail) × (r.buffer ≡ response) × (r.response_size ≡ size))
      ⊎ (Opens words r.device.1
          × (length r.buffer ≡ length response)
          × (status ≡ success → r.response_size ≤ size)
          × (status ≡ buffer_too_small → size < r.response_size))

  received :
      (words response : List ℕ) (size : ℕ) (before : List (ℕ × ℕ)) (log : List (ℕ × ℕ))
      (m : Outcome (Status × Receiver (D × List (ℕ × ℕ))))
      → Recovered p before
      → Sent p words before log
      → Ensures (λ r. Extends log r.1.device.1) m
      → Bounded (logged p) (length response) size m
      → (r : Status × Receiver (D × List (ℕ × ℕ))) × (m ≡ returns r)
        × Exchanged words response size r
  received words response size before log (returns (status, r)) recovered sent grows bounded = (
    (status, r),
    refl,
    inr (
      Sent-Opens words before log r.device.1 recovered sent grows,
      bounded.0,
      bounded.1,
      bounded.2,
    ),
  )
  received words response size before log asserts recovered sent grows bounded = absurd bounded
  received words response size before log faults recovered sent grows bounded = absurd bounded
