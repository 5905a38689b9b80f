-- ===== src/Report/Endless.antt =====
-- A device that sends empty portions: the empty portion is recorded as a failed assertion, but
-- the loop goes on as long as the device announces a remainder.
use tee_io_validator.Common.{
  ℕ, zero, suc, ◌+◌, ◌%◌, ◌≤◌, ◌<◌, true, ◌++◌, Option, none, some, ◌≡◌, refl, arith, returns,
  ◌>>=◌, take, drop, length, ◌^◌, length-take,
}
use tee_io_validator.Results.{Bytes}
use tee_io_validator.Report.{
  note, Request, Response, Transport, State, again, copy_mem, request_of, note_fields, store,
  check_total, received, round, rounds, get_interface_report,
}

-- A reply with a correct size, no bytes, and `rest` bytes announced.
abbrev pub IsEmptyPortion : {D : Type 0} → Transport D → ℕ → Option Response → Type 0
IsEmptyPortion t rest none = ⊥
IsEmptyPortion t rest (some r) =
    (r.response_size ≡ t.header_size) × (r.portion_length ≡ 0) × (r.remainder_length ≡ rest)

module _ {D : Type 0} (t : Transport D) (function_id case_class case_id : ℕ) where
  received_empty :
      (request : Request) (reply : Option Response) (rest : ℕ) (s : State D)
      → IsEmptyPortion t rest reply
      → 0 < rest
      → rest ≤ s.interface_report_size
      → s.offset ≡ 0
      → (s' : State D) × (received t function_id case_class case_id request reply s
          ≡ returns (again s'))
        × (s'.offset ≡ 0)
        × (s'.interface_report_size ≡ s.interface_report_size)
  unfolding received check_total store copy_mem
  received_empty request none rest s e pos fits start = absurd e
  received_empty request (some r) rest s (size, portion, remainder) pos fits start =
      let noted = note t function_id case_class case_id 1 true r.response_size s in
      let s1 = note_fields t function_id case_class case_id r noted in
      let bytes = take r.portion_length r.report in
      let s2 = record s1 {
        total_report_length = r.portion_length + r.remainder_length;
        interface_report =
            take s.offset s.interface_report
            ++ (bytes ++ drop (s.offset + length bytes) s.interface_report);
        offset = (s.offset + r.portion_length) % 2 ^ 16;
        remainder_length = r.remainder_length;
      } in
      (s2, ground (arith, length-take r.portion_length r.report), omega arith, refl)

  -- What the loop does with a device that never sends a byte.
  rounds_empty :
      (rest : ℕ)
      → ((d : D) (request : Request) → IsEmptyPortion t rest (t.send_receive d request).0)
      → 0 < rest
      → (fuel : ℕ) (s : State D) → s.offset ≡ 0
      → rest ≤ s.interface_report_size
      → rounds t function_id case_class case_id fuel s ≡ returns none
  unfolding rounds round
  rounds_empty rest empty pos zero s start fits = refl
  rounds_empty rest empty pos (suc fuel) s start fits =
      let request = request_of t function_id case_class case_id s in
      let r = t.send_receive s.device request in
      let (s', e, start', size') =
        received_empty request r.0 rest (record s { device = r.1 }) (empty s.device request) pos
          fits start in
      rw (e, ◌>>=◌) (rounds_empty rest empty pos fuel s' start' (omega arith))

  -- A device that answers every request with an empty portion and an announced remainder that
  -- fits the buffer keeps the loop going for ever: it has not ended after any number of rounds.
  pub get_interface_report-endless :
      (rest : ℕ) (fuel : ℕ) (interface_report : Bytes) (interface_report_size : ℕ) (device : D)
      → ((d : D) (request : Request) → IsEmptyPortion t rest (t.send_receive d request).0)
      → 0 < rest
      → rest ≤ interface_report_size
      → get_interface_report t function_id case_class case_id fuel interface_report
          interface_report_size device
        ≡ returns none
  unfolding get_interface_report
  get_interface_report-endless rest fuel interface_report size device empty pos fits =
      rounds_empty rest empty pos fuel _ refl fits
