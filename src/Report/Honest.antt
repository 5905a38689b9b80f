-- ===== src/Report/Honest.antt =====
-- A device that answers with the portions of one report: the report arrives whole.
use mathlib.Core.List.{append_assoc}
use Prim.Native.Nat.{min}
use tee_io_validator.Common.{
  Bool-cases, ℕ, zero, suc, ◌+◌, ◌-◌, ◌%◌, ◌^◌, ◌≤◌, ◌<◌, Bool, true, false, ◌++◌, Option, none,
  some, ◌≡◌, ◌≢◌, inl, inr, refl, ap, ◌∙◌, sym, arith, Outcome, returns, asserts, faults, ◌>>=◌,
  take, drop, length, ltb, ◌==◌, if◌then◌else◌, length-take, length-drop, take-add, drop-add,
  take-append-exact, drop-append-exact, take-of_le, length-append, All, All-append,
}
use tee_io_validator.Results.{Bytes, pass, failed}
use tee_io_validator.Runner.{Call, assertion, config_item, group_func}
use tee_io_validator.Report.Safety.{copy_mem-fits}
use tee_io_validator.Report.{
  note, Request, Response, Transport, State, Step, done, again, copy_mem, request_of, size_ok,
  note_fields, store, check_total, received, round, rounds, get_interface_report,
}

-- The reply to `request` with a portion of the report `R`: as many bytes as were asked for and
-- are left, behind a correct header.
abbrev pub IsPortion : {D : Type 0} → Transport D → ℕ → Bytes → Request → Option Response → Type 0
IsPortion t function_id R request none = ⊥
IsPortion t function_id R request (some r) =
    (r.response_size ≡ t.header_size + r.portion_length)
    × (r.version ≡ t.version_10)
    × (r.message_type ≡ t.report_type)
    × (r.function_id ≡ function_id)
    × (r.portion_length ≡ min request.length (length R - request.offset))
    × (r.remainder_length ≡ length R - (request.offset + r.portion_length))
    × (take r.portion_length r.report ≡ take r.portion_length (drop request.offset R))

abbrev pub IsPass : Call → Type 0
IsPass (assertion case_class case_id id type result message) = result ≡ pass
IsPass (config_item id func result) = ⊥
IsPass (group_func func result message) = ⊥

-- One portion is written behind those before it.
spliced :
    (R buffer report : Bytes) (at p : ℕ)
    → at + p ≤ length R
    → take p report ≡ take p (drop at R)
    → let old = take at R ++ drop at buffer in
      let bytes = take p report in
      take at old ++ (bytes ++ drop (at + length bytes) old)
      ≡ take (at + p) R ++ drop (at + p) buffer
spliced R buffer report at p h e =
    let whole : length (take p (drop at R)) ≡ p =
      omega (arith, length-take p (drop at R), length-drop at R) in
    let front : length (take at R) ≡ at = omega (arith, length-take at R) in
    rw
      (
        e,
        whole,
        take-append-exact (take at R) (drop at buffer) at front,
        drop-append-exact (take at R) (drop at buffer) at p front,
        take-add at p R,
        drop-add at p buffer,
      )
      (sym (append_assoc (take at R) (take p (drop at R)) (drop p (drop at buffer))))

module _ {D : Type 0} (t : Transport D) (function_id case_class case_id : ℕ)
    (R buffer : Bytes) where
  -- At the head of the loop: the bytes before `offset` have arrived, and all assertions passed.
  record Inv (s : State D) : Type 0 where
    more : s.offset < length R
    arrived : s.interface_report ≡ take s.offset R ++ drop s.offset buffer
    room : s.interface_report_size ≡ length buffer
    total : s.offset ≢ 0 → s.total_report_length ≡ length R
    remainder : s.offset ≢ 0 → s.remainder_length ≡ length R - s.offset
    passed : All IsPass s.calls

  -- At the end of the function.
  pub record Received (s : State D) : Type 0 where
    pub arrived : s.interface_report ≡ R ++ drop (length R) buffer
    pub size : s.interface_report_size ≡ length R
    pub passed : All IsPass s.calls

  -- A round ends with the report, or makes progress.
  abbrev Progress : ℕ → Outcome (Step D) → Type 0
  Progress offset (returns (done b s)) = (b ≡ true) × Received s
  Progress offset (returns (again s)) = Inv s × (offset < s.offset)
  Progress offset asserts = ⊥
  Progress offset faults = ⊥

  copied :
      (r : Response) (s : State D)
      → s.offset + r.portion_length ≤ length R
      → length R ≤ length buffer
      → s.interface_report ≡ take s.offset R ++ drop s.offset buffer
      → s.interface_report_size ≡ length buffer
      → take r.portion_length r.report ≡ take r.portion_length (drop s.offset R)
      → copy_mem s.interface_report s.offset
          (s.interface_report_size - s.offset)
          (take r.portion_length r.report)
        ≡ returns
            (take (s.offset + r.portion_length) R ++ drop (s.offset + r.portion_length) buffer)
  copied r s fits capacity arrived room e =
      let bytes = take r.portion_length r.report in
      let short : length bytes ≤ r.portion_length =
        omega (arith, length-take r.portion_length r.report) in
      let old : length s.interface_report ≡ length buffer = rw arrived (
        omega (
          arith,
          length-append (take s.offset R) (drop s.offset buffer),
          length-take s.offset R,
          length-drop s.offset buffer,
        )) in
      copy_mem-fits s.interface_report s.offset (s.interface_report_size - s.offset) bytes
        (omega arith) (omega arith)
      ∙ ap returns (rw arrived (spliced R buffer r.report s.offset r.portion_length fits e))

  store-Progress :
      (r : Response) (s : State D)
      → length R < 2 ^ 16
      → length R ≤ length buffer
      → 0 < r.portion_length
      → s.offset + r.portion_length ≤ length R
      → r.remainder_length ≡ length R - (s.offset + r.portion_length)
      → s.interface_report ≡ take s.offset R ++ drop s.offset buffer
      → s.interface_report_size ≡ length buffer
      → s.total_report_length ≡ length R
      → All IsPass s.calls
      → take r.portion_length r.report ≡ take r.portion_length (drop s.offset R)
      → Progress s.offset (store t function_id case_class case_id r s)
  unfolding store
  store-Progress r s small capacity pos fits rest arrived room total passed e =
      rw (copied r s fits capacity arrived room e) (elim (Bool-cases (r.remainder_length == 0)) [
        | inl last ↦
            let all : s.offset + r.portion_length ≡ length R = ground arith in
            rw last (
              refl,
              record {
                arrived =
                    rw all (
                      ap (λ l. l ++ drop (length R) buffer)
                        (take-of_le (length R) R (omega arith)));
                size = total;
                passed = passed;
              },
            )
        | inr more ↦
            let next : (s.offset + r.portion_length) % 2 ^ 16 ≡ s.offset + r.portion_length =
              omega arith in
            rw more (
              record {
                more = ground arith;
                arrived = rw next refl;
                room = room;
                total = λ _. total;
                remainder = λ _. rw next rest;
                passed = passed;
              },
              rw next (omega arith),
            )
      ])

  note-passed :
      (i : ℕ) (res : Bool) (value : ℕ) (s : State D)
      → res ≡ true
      → All IsPass s.calls
      → All IsPass (note t function_id case_class case_id i res value s).calls
  note-passed i res value s e h =
      All-append IsPass s.calls _ h (ap (λ (b : Bool). if b then pass else failed) e, tt)

  note_fields-passed :
      (r : Response) (s : State D)
      → r.version ≡ t.version_10
      → r.message_type ≡ t.report_type
      → r.function_id ≡ function_id
      → 0 < r.portion_length
      → All IsPass s.calls
      → All IsPass (note_fields t function_id case_class case_id r s).calls
  note_fields-passed r s version type function pos h =
      let noted = note t function_id case_class case_id in
      let s2 = noted 2 (r.version == t.version_10) r.version s in
      let s3 = noted 3 (r.message_type == t.report_type) r.message_type s2 in
      let s4 = noted 4 (r.function_id == function_id) r.function_id s3 in
      note-passed 5 _ r.portion_length s4 (ground arith) (
        note-passed 4 _ r.function_id s3 (ground arith) (
          note-passed 3 _ r.message_type s2 (ground arith)
            (note-passed 2 _ r.version s (ground arith) h)))

  check_total-Progress :
      (r : Response) (s : State D)
      → length R < 2 ^ 16
      → length R ≤ length buffer
      → 0 < r.portion_length
      → s.offset + r.portion_length ≤ length R
      → r.remainder_length ≡ length R - (s.offset + r.portion_length)
      → Inv s
      → take r.portion_length r.report ≡ take r.portion_length (drop s.offset R)
      → Progress s.offset (check_total t function_id case_class case_id r s)
  unfolding check_total
  check_total-Progress r s small capacity pos fits rest inv e = elim (Bool-cases (s.offset == 0)) [
    | inl first ↦
        let all : r.portion_length + r.remainder_length ≡ length R = ground arith in
        let s' = record s { total_report_length = r.portion_length + r.remainder_length } in
        let enough : ltb s.interface_report_size (r.portion_length + r.remainder_length) ≡ false =
          ground (arith, inv.room) in
        rw (first, enough)
          (store-Progress r s' small capacity pos fits rest inv.arrived inv.room all inv.passed e)
    | inr later ↦
        let total : s.total_report_length ≡ length R = inv.total (ground arith) in
        let same : (s.total_report_length == s.offset + r.portion_length + r.remainder_length)
            ≡ true =
          ground arith in
        rw (later, same)
          (store-Progress r s small capacity pos fits rest inv.arrived inv.room total inv.passed e)
  ]

  received-Progress :
      (reply : Option Response) (s : State D)
      → length R < 2 ^ 16
      → length R ≤ length buffer
      → 0 < t.portion_len
      → Inv s
      → IsPortion t function_id R (request_of t function_id case_class case_id s) reply
      → Progress s.offset (
          received t function_id case_class case_id
            (request_of t function_id case_class case_id s)
            reply
            s)
  unfolding received
  received-Progress none s small capacity some_bytes inv p = absurd p
  received-Progress (some r) s small capacity some_bytes inv
        (size, version, type, function, portion, rest, bytes) =
      let request = request_of t function_id case_class case_id s in
      let asked : 0 < request.length = elim (Bool-cases (s.offset == 0)) [
        | inl first ↦ rw first some_bytes
        | inr later ↦ rw later (omega (arith, inv.more, inv.remainder (ground arith)))
      ] in
      let pos : 0 < r.portion_length = omega (arith, inv.more) in
      let ok : size_ok t function_id case_class case_id request r ≡ true = ground arith in
      let s1 = note t function_id case_class case_id 1 true r.response_size s in
      let s2 = note_fields t function_id case_class case_id r s1 in
      rw ok (
        check_total-Progress r s2 small capacity pos (omega (arith, inv.more)) rest
          (record {
            more = inv.more;
            arrived = inv.arrived;
            room = inv.room;
            total = inv.total;
            remainder = inv.remainder;
            passed =
                note_fields-passed r s1 version type function pos
                  (note-passed 1 true r.response_size s refl inv.passed);
          })
          bytes)

  -- The call returned true, with the report.
  abbrev pub Succeeds : Outcome (Option (Bool × State D)) → Type 0
  Succeeds (returns none) = ⊥
  Succeeds (returns (some (b, s))) = (b ≡ true) × Received s
  Succeeds asserts = ⊥
  Succeeds faults = ⊥

  after_round :
      (fuel offset : ℕ) (m : Outcome (Step D))
      → Progress offset m
      → ((s : State D)
          → Inv s
          → offset < s.offset
          → Succeeds (rounds t function_id case_class case_id fuel s))
      → Succeeds (
          m >>= λ step. elim step [
            | done b s' ↦ returns (some (b, s'))
            | again s' ↦ rounds t function_id case_class case_id fuel s'
          ])
  after_round fuel offset (returns (done b s)) h k = h
  after_round fuel offset (returns (again s)) h k = k s h.0 h.1
  after_round fuel offset asserts h k = h
  after_round fuel offset faults h k = h

  module _
      (honest : (d : D) (request : Request)
        → IsPortion t function_id R request (t.send_receive d request).0)
      (small : length R < 2 ^ 16) (capacity : length R ≤ length buffer)
      (some_bytes : 0 < t.portion_len) where
    rounds-Succeeds :
        (fuel : ℕ) (s : State D)
        → Inv s
        → length R < fuel + s.offset
        → Succeeds (rounds t function_id case_class case_id fuel s)
    unfolding rounds round
    rounds-Succeeds zero s inv enough = absurd (omega (arith, inv.more))
    rounds-Succeeds (suc fuel) s inv enough =
        let request = request_of t function_id case_class case_id s in
        let r = t.send_receive s.device request in
        let s' = record s { device = r.1 } in
        after_round fuel s.offset _
          (received-Progress r.0 s' small capacity some_bytes
            (record {
              more = inv.more;
              arrived = inv.arrived;
              room = inv.room;
              total = inv.total;
              remainder = inv.remainder;
              passed = inv.passed;
            })
            (honest s.device request))
          (λ s'' inv' further. rounds-Succeeds fuel s'' inv' (omega arith))

    -- From a device that answers with the portions of one report `R`, which is not empty, shorter
    -- than 2 ^ 16 bytes and no longer than the buffer, where a portion may have a byte or more, the
    -- call returns true on more fuel than the report has bytes, with the report at the start of the
    -- buffer, its length as the size, and every assertion passed.
    pub get_interface_report-Succeeds :
        (fuel : ℕ) (device : D)
        → 0 < length R
        → length R < fuel
        → Succeeds (
            get_interface_report t function_id case_class case_id fuel buffer
              (length buffer)
              device)
    unfolding get_interface_report
    get_interface_report-Succeeds fuel device nonempty enough =
        rounds-Succeeds fuel _
          (record {
            more = nonempty;
            arrived = refl;
            room = refl;
            total = λ ne. absurd (ne refl);
            remainder = λ ne. absurd (ne refl);
            passed = tt;
          })
          (omega arith)
