-- ===== src/Report/Safety.antt =====
-- The report stays inside the caller's buffer, whatever the device sends.
use tee_io_validator.Common.{
  inl, inr, Bool-cases, ℕ, zero, suc, ◌+◌, ◌-◌, ◌≤◌, Bool, ◌++◌, Option, none, some, ◌≡◌, ◌≢◌, refl,
  arith, Outcome, returns, asserts, faults, ◌>>=◌, take, drop, length, length-append, length-take,
  length-drop,
}
use tee_io_validator.Results.{Bytes}
use tee_io_validator.Report.{
  Request, Response, Transport, State, Step, done, again, copy_mem, request_of, size_ok, store,
  check_total, received, round, rounds, get_interface_report,
}

-- The buffer has the size that the caller gave, and a report under way fits it.
pub record Fits {D : Type 0} (size : ℕ) (s : State D) : Type 0 where
  pub whole : length s.interface_report ≡ size
  pub capacity : s.interface_report_size ≡ size
  pub inside : s.offset ≢ 0 → s.total_report_length ≤ size

-- A call that does not fault; what it leaves keeps the buffer's length.
abbrev pub StepFits : {D : Type 0} → ℕ → Outcome (Step D) → Type 0
StepFits size (returns (again s)) = Fits size s
StepFits size (returns (done b s)) = length s.interface_report ≡ size
StepFits size asserts = ⊥
StepFits size faults = ⊥

pub copy_mem-fits :
    (buffer : Bytes) (at room : ℕ) (bytes : Bytes)
    → length bytes ≤ room
    → at + length bytes ≤ length buffer
    → copy_mem buffer at room bytes
      ≡ returns (take at buffer ++ (bytes ++ drop (at + length bytes) buffer))
unfolding copy_mem
copy_mem-fits buffer at room bytes h k = ground arith

length_spliced :
    (buffer : Bytes) (at : ℕ) (bytes : Bytes)
    → at + length bytes ≤ length buffer
    → length (take at buffer ++ (bytes ++ drop (at + length bytes) buffer)) ≡ length buffer
length_spliced buffer at bytes h = omega (
  arith,
  length-append (take at buffer) (bytes ++ drop (at + length bytes) buffer),
  length-append bytes (drop (at + length bytes) buffer),
  length-take at buffer,
  length-drop (at + length bytes) buffer,
)

module _ {D : Type 0} (t : Transport D) (function_id case_class case_id : ℕ) where
  store-StepFits :
      (r : Response) (size : ℕ) (s : State D)
      → length s.interface_report ≡ size
      → s.interface_report_size ≡ size
      → s.total_report_length ≤ size
      → s.offset + r.portion_length ≤ size
      → StepFits size (store t function_id case_class case_id r s)
  unfolding store
  store-StepFits r size s whole capacity total fits =
      let bytes = take r.portion_length r.report in
      let short : length bytes ≤ r.portion_length =
        omega (arith, length-take r.portion_length r.report) in
      let room : s.offset + length bytes ≤ length s.interface_report = omega arith in
      ground (
        arith,
        copy_mem-fits s.interface_report s.offset (s.interface_report_size - s.offset) bytes,
        length_spliced s.interface_report s.offset bytes,
      )

  check_total-StepFits :
      (r : Response) (size : ℕ) (s : State D)
      → Fits size s
      → StepFits size (check_total t function_id case_class case_id r s)
  unfolding check_total
  check_total-StepFits r size s f =
      let s' = record s { total_report_length = r.portion_length + r.remainder_length } in
      ground (
        arith,
        λ (h : r.portion_length + r.remainder_length ≤ size)
              (k : s.offset + r.portion_length ≤ size).
            store-StepFits r size s' f.whole f.capacity h k,
        λ (h : s.total_report_length ≤ size) (k : s.offset + r.portion_length ≤ size).
            store-StepFits r size s f.whole f.capacity h k,
      )

  received-StepFits :
      (request : Request) (reply : Option Response) (size : ℕ) (s : State D)
      → Fits size s
      → StepFits size (received t function_id case_class case_id request reply s)
  unfolding received
  received-StepFits request none size s f = f.whole
  received-StepFits request (some r) size s f =
      elim (Bool-cases (size_ok t function_id case_class case_id request r)) [
        | inl e ↦ rw e (
            check_total-StepFits r size _
              (record { whole = f.whole; capacity = f.capacity; inside = f.inside }))
        | inr e ↦ rw e f.whole
      ]

  round-StepFits :
      (size : ℕ) (s : State D)
      → Fits size s
      → StepFits size (round t function_id case_class case_id s)
  unfolding round
  round-StepFits size s f =
      let r = t.send_receive s.device (request_of t function_id case_class case_id s) in
      received-StepFits (request_of t function_id case_class case_id s) r.0 size
        (record s { device = r.1 })
        (record { whole = f.whole; capacity = f.capacity; inside = f.inside })

  -- Neither a fault nor a failed assertion of the program, and a buffer as long as before.
  abbrev pub StaysInside : ℕ → Outcome (Option (Bool × State D)) → Type 0
  StaysInside size (returns none) = Unit
  StaysInside size (returns (some (b, s))) = length s.interface_report ≡ size
  StaysInside size asserts = ⊥
  StaysInside size faults = ⊥

  after_round :
      (fuel size : ℕ) (m : Outcome (Step D))
      → StepFits size m
      → ((s : State D)
          → Fits size s
          → StaysInside size (rounds t function_id case_class case_id fuel s))
      → StaysInside size (
          m >>= λ step. elim step [
            | done b s' ↦ returns (some (b, s'))
            | again s' ↦ rounds t function_id case_class case_id fuel s'
          ])
  after_round fuel size (returns (done b s)) h k = h
  after_round fuel size (returns (again s)) h k = k s h
  after_round fuel size asserts h k = h
  after_round fuel size faults h k = h

  rounds-StaysInside :
      (fuel size : ℕ) (s : State D)
      → Fits size s
      → StaysInside size (rounds t function_id case_class case_id fuel s)
  unfolding rounds
  rounds-StaysInside zero size s f = tt
  rounds-StaysInside (suc fuel) size s f =
      after_round fuel size _ (round-StepFits size s f) (rounds-StaysInside fuel size)

  -- Whatever the device answers and for however many rounds, a call with a buffer of the size
  -- that is passed never writes outside it.
  pub get_interface_report-StaysInside :
      (fuel : ℕ) (interface_report : Bytes) (interface_report_size : ℕ) (device : D)
      → length interface_report ≡ interface_report_size
      → StaysInside interface_report_size (
          get_interface_report t function_id case_class case_id fuel interface_report
            interface_report_size device)
  unfolding get_interface_report
  get_interface_report-StaysInside fuel interface_report size device h =
      rounds-StaysInside fuel size _
        (record { whole = h; capacity = refl; inside = λ ne. absurd (ne refl) })
