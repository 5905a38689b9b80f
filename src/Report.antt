-- ===== src/Report.antt =====
-- `tdisp_test_get_interface_report` of
-- teeio-validator/library/tdisp_test_lib/test_case/tdisp_test_common.c: reading the TDISP
-- interface report of a device portion by portion.
-- `pci_tdisp_send_receive_data` belongs to libspdm: it is a parameter on a device state, and
-- `none` is an error status. So are the constants of libspdm's headers and the formatted texts.
pub mod Safety
pub mod Honest
pub mod Endless
use Prim.Native.Nat.{min}
use tee_io_validator.Common.{
  ℕ, zero, suc, ◌+◌, ◌-◌, ◌%◌, ◌^◌, Bool, true, false, not, ◌&&◌, List, [], ◌∷◌, ◌++◌, Option, none,
  some, Outcome, returns, faults, ◌>>=◌, ltb, leb, ◌==◌, if◌then◌else◌, append, take, drop, length,
}
use tee_io_validator.Results.{Bytes, TestResult, pass, failed, AssertionType, test}
use tee_io_validator.Runner.{Call, assertion}

pub record Request : Type 0 where
  pub function_id : ℕ
  pub offset : ℕ  -- uint16_t
  pub length : ℕ  -- uint16_t

-- `pci_tdisp_device_interface_report_response_mine_t`, with the size that was received.
pub record Response : Type 0 where
  pub response_size : ℕ
  pub version : ℕ
  pub message_type : ℕ
  pub function_id : ℕ
  pub portion_length : ℕ  -- uint16_t
  pub remainder_length : ℕ  -- uint16_t
  pub report : Bytes

-- What the function takes from libspdm and its headers.
pub record Transport (D : Type 0) : Type 0 where
  pub send_receive : D → Request → Option Response × D
  pub portion_len : ℕ  -- LIBTDISP_INTERFACE_REPORT_PORTION_LEN
  pub header_size : ℕ  -- sizeof(pci_tdisp_device_interface_report_response_t)
  pub version_10 : ℕ
  pub report_type : ℕ  -- PCI_TDISP_DEVICE_INTERFACE_REPORT
  -- mAssertion[i] formatted with a value, and for i = 6 the two messages of the length test.
  pub text : ℕ → ℕ → Bytes

-- The locals of the loop, the caller's buffer and size, what was recorded, and the device.
pub record State (D : Type 0) : Type 0 where
  pub offset : ℕ  -- uint16_t
  pub remainder_length : ℕ  -- uint16_t
  pub total_report_length : ℕ  -- uint32_t
  pub interface_report : Bytes
  pub interface_report_size : ℕ
  pub calls : List Call
  pub device : D

-- A round either ends the function with its value, or goes round the loop once more.
pub data Step (D : Type 0) : Type 0 where
  done : Bool → State D → Step D
  again : State D → Step D

-- A write inside the buffer. A write across its end is undefined.
unfoldable pub copy_mem : Bytes → ℕ → ℕ → Bytes → Outcome Bytes
copy_mem buffer at room bytes =
    if leb (length bytes) room && leb (at + length bytes) (length buffer)
    then returns (take at buffer ++ (bytes ++ drop (at + length bytes) buffer))
    else faults

module _ {D : Type 0} (t : Transport D) (function_id case_class case_id : ℕ) where
  abbrev pub note : ℕ → Bool → ℕ → State D → State D
  note i res value s =
      let result = if res then pass else failed in
      record s {
        calls = append s.calls (assertion case_class case_id i test result (some (t.text i value)));
      }

  abbrev pub request_of : State D → Request
  request_of s = record {
    function_id = function_id;
    offset = s.offset;
    length = if not (s.offset == 0) then min s.remainder_length t.portion_len else t.portion_len;
  }

  -- The size checks of the second assertion.
  abbrev pub size_ok : Request → Response → Bool
  size_ok request r =
      leb t.header_size r.response_size
      && leb r.portion_length request.length
      && r.response_size == t.header_size + r.portion_length

  -- The four assertions whose failure does not end the function.
  abbrev pub note_fields : Response → State D → State D
  note_fields r s = note 5 (not (r.portion_length == 0)) r.portion_length (
      note 4 (r.function_id == function_id) r.function_id (
        note 3 (r.message_type == t.report_type) r.message_type
          (note 2 (r.version == t.version_10) r.version s)))

  -- From `libspdm_copy_mem` to the test of the loop.
  unfoldable pub store : Response → State D → Outcome (Step D)
  unfolding copy_mem
  store r s =
      copy_mem s.interface_report s.offset (s.interface_report_size - s.offset)
        (take r.portion_length r.report)
      >>= λ buffer.
          let s' = record s {
            interface_report = buffer;
            offset = (s.offset + r.portion_length) % 2 ^ 16;
            remainder_length = r.remainder_length;
          } in
          returns (
            if not (r.remainder_length == 0)
            then again s'
            else done true (record s' { interface_report_size = s'.total_report_length }))

  -- The test of the total length: on the first portion it is computed, later it is compared.
  unfoldable pub check_total : Response → State D → Outcome (Step D)
  unfolding store
  check_total r s =
      if s.offset == 0
      then (let total = r.portion_length + r.remainder_length in
          let s' = record s { total_report_length = total } in
          if ltb s.interface_report_size total
          then returns (done false (note 6 false 0 (record s' { interface_report_size = total })))
          else store r s')
      else if not (s.total_report_length == s.offset + r.portion_length + r.remainder_length)
      then returns (done false (note 6 false 1 s))
      else store r s

  unfoldable pub received : Request → Option Response → State D → Outcome (Step D)
  unfolding check_total
  received request none s = returns (done false (note 0 false 0 s))
  received request (some r) s =
      let ok = size_ok request r in
      let s' = note 1 ok r.response_size s in
      if not ok then returns (done false s') else check_total r (note_fields r s')

  unfoldable pub round : State D → Outcome (Step D)
  unfolding received
  round s =
      let request = request_of s in
      let (reply, device) = t.send_receive s.device request in
      received request reply (record s { device = device })

  -- `none`: the loop has not ended after this many rounds.
  unfoldable pub rounds : ℕ → State D → Outcome (Option (Bool × State D))
  unfolding round
  rounds zero s = returns none
  rounds (suc fuel) s = round s >>= λ step. elim step [
    | done b s' ↦ returns (some (b, s'))
    | again s' ↦ rounds fuel s'
  ]

  unfoldable pub get_interface_report : ℕ → Bytes → ℕ → D → Outcome (Option (Bool × State D))
  unfolding rounds
  get_interface_report fuel interface_report interface_report_size device = rounds fuel (record {
    offset = 0;
    remainder_length = 0;
    total_report_length = 0;
    interface_report = interface_report;
    interface_report_size = interface_report_size;
    calls = [];
    device = device;
  })
