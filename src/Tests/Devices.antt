-- ===== src/Tests/Devices.antt =====
-- Devices with short scripts, for the interface report, the DOE mailbox and the capabilities.
use Prim.Native.Nat.{min, compare, Ordering}
use tee_io_validator.Common.{
  ℕ, ◌+◌, ◌-◌, true, false, ◌==◌, List, [], ◌∷◌, Option, none, some, ◌≡◌, refl, arith, returns,
  drop,
}
use tee_io_validator.Results.{Bytes}
use tee_io_validator.Report.{Transport, get_interface_report}
use tee_io_validator.Report.Safety.{StaysInside, get_interface_report-StaysInside}
use tee_io_validator.Report.Honest.{get_interface_report-Succeeds, Succeeds}
use tee_io_validator.Report.Endless.{get_interface_report-endless}
use tee_io_validator.Doe.{
  success, Port, is_doe_error_asserted, is_doe_busy_asserted, status_bit, status_read,
  trigger_doe_abort, write_mailbox_write, trigger_doe_go, control_read, control_write,
}
use tee_io_validator.Doe.Receive.{device_doe_receive_message}
use tee_io_validator.Doe.Receive.Laws.{Bounded, device_doe_receive_message-Bounded}
use tee_io_validator.Doe.Send.{
  device_doe_send_message, recover_error, send_loop, send_end, write_words, delay_of,
}
use tee_io_validator.Doe.Send.Laws.{logged}
use tee_io_validator.Doe.Exchange.{has_type, types_loop, pcie_doe_init_request, init_loop}
use tee_io_validator.Doe.Exchange.Chosen.{Chosen, init_loop-Chosen}
use tee_io_validator.Caps.{get_extended_cap_offset, get_doe_extended_cap_offset}
use tee_io_validator.Caps.Walk.{
  get_extended_cap_offset-first_with, get_extended_cap_offset-endless,
  get_doe_extended_cap_offset-all_with,
}

abbrev report : Bytes
report = 11 ∷ 12 ∷ 13 ∷ []

abbrev portions : Transport ℕ
portions = record {
  send_receive = λ d request.
      let p = min request.length (3 - request.offset) in
      (
        some (record {
          response_size = 10 + p;
          version = 16;
          message_type = 5;
          function_id = 7;
          portion_length = p;
          remainder_length = 3 - (request.offset + p);
          report = drop request.offset report;
        }),
        d,
      );
  portion_len = 2;
  header_size = 10;
  version_10 = 16;
  report_type = 5;
  text = λ i value. [];
}

get_interface_report-StaysInside_example :
    StaysInside portions 7 1 1 2 (get_interface_report portions 7 1 1 5 (0 ∷ 0 ∷ []) 2 0)
get_interface_report-StaysInside_example =
    get_interface_report-StaysInside portions 7 1 1 5 (0 ∷ 0 ∷ []) 2 0 refl

get_interface_report-Succeeds_example :
    Succeeds portions 7 1 1 report
      (0 ∷ 0 ∷ 0 ∷ 0 ∷ [])
      (get_interface_report portions 7 1 1 4 (0 ∷ 0 ∷ 0 ∷ 0 ∷ []) 4 0)
get_interface_report-Succeeds_example =
    get_interface_report-Succeeds portions 7 1 1 report (0 ∷ 0 ∷ 0 ∷ 0 ∷ [])
      (λ d request. (refl, refl, refl, refl, refl, refl, refl)) (omega arith) (omega arith)
      (omega arith) 4 0 (omega arith) (omega arith)

-- The scripted registers of a mailbox: each read takes the next value.
abbrev scripted : Port (List ℕ)
scripted = record {
  doe_extended_offset = 0x200;
  read_32 = λ offset d. elim d [ [] ↦ (0, []) | x ∷ xs ↦ (x, xs) ];
  write_32 = λ offset value d. d;
  sleep = λ time d. d;
  header_size = 8;
  length_of = λ w. w;
}

device_doe_receive_message-Bounded_example : Bounded scripted 3 12 (
    device_doe_receive_message scripted
      (some (0 ∷ 0 ∷ 0 ∷ []))
      12
      (0 ∷ 0x80000000 ∷ 0 ∷ 1 ∷ 3 ∷ 77 ∷ []))
device_doe_receive_message-Bounded_example =
    device_doe_receive_message-Bounded scripted (omega arith) (0 ∷ 0 ∷ 0 ∷ []) 12
      (0 ∷ 0x80000000 ∷ 0 ∷ 1 ∷ 3 ∷ 77 ∷ []) (λ e. absurd (omega arith)) (omega arith)

-- A mailbox that is always idle.
abbrev idle : Port ℕ
idle = record {
  doe_extended_offset = 0x200;
  read_32 = λ offset d. (0, d);
  write_32 = λ offset value d. d;
  sleep = λ time d. d;
  header_size = 8;
  length_of = λ w. w;
}

-- The idle mailbox receives the message, without an abort.
idle_sends :
    device_doe_send_message (logged idle) 12 (some (1 ∷ 3 ∷ 77 ∷ 5 ∷ [])) 30 (0, [])
    ≡ returns (success, (0, (0x210, 1) ∷ (0x210, 3) ∷ (0x210, 77) ∷ (0x208, 0x80000000) ∷ []))
unfolding device_doe_send_message recover_error send_loop send_end write_words delay_of
    is_doe_error_asserted is_doe_busy_asserted status_bit status_read write_mailbox_write
    trigger_doe_go control_read control_write
idle_sends = refl

-- Only the mailbox at 0x200 reports SPDM and secured SPDM.
abbrev discovery : ℕ → Port ℕ → ℕ → Option (List ℕ) × ℕ
discovery version p d = elim (p.doe_extended_offset == 0x200) [
  | true ↦ (some (0 ∷ 1 ∷ 2 ∷ []), d)
  | false ↦ (some (0 ∷ []), d)
]

init_loop-Chosen_example :
    Chosen idle discovery
      (0 ∷ 1 ∷ 2 ∷ [])
      (0x100 ∷ 0x200 ∷ [])
      0
      0
      (init_loop idle discovery (0 ∷ 1 ∷ 2 ∷ []) (0x100 ∷ 0x200 ∷ []) 0 0 0)
init_loop-Chosen_example =
    init_loop-Chosen idle discovery (0 ∷ 1 ∷ 2 ∷ []) (λ e. absurd cc) (0x100 ∷ 0x200 ∷ []) 0 0 0

chosen_second :
    init_loop idle discovery (0 ∷ 1 ∷ 2 ∷ []) (0x100 ∷ 0x200 ∷ []) 0 0 0 ≡ returns (true, 0x200, 0)
unfolding init_loop pcie_doe_init_request types_loop has_type is_doe_error_asserted status_bit
    status_read trigger_doe_abort control_read control_write
chosen_second = refl

-- A device that announces four bytes and never sends one.
abbrev silent : Transport ℕ
silent = record {
  send_receive = λ d request. (
    some (record {
      response_size = 10;
      version = 16;
      message_type = 5;
      function_id = 7;
      portion_length = 0;
      remainder_length = 4;
      report = [];
    }),
    d,
  );
  portion_len = 2;
  header_size = 10;
  version_10 = 16;
  report_type = 5;
  text = λ i value. [];
}

get_interface_report-endless_example :
    get_interface_report silent 7 1 1 100 (0 ∷ 0 ∷ 0 ∷ 0 ∷ []) 4 0 ≡ returns none
get_interface_report-endless_example =
    get_interface_report-endless silent 7 1 1 4 100 (0 ∷ 0 ∷ 0 ∷ 0 ∷ []) 4 0
      (λ d request. (refl, refl, refl)) (omega arith) (omega arith)

-- Extended capabilities at 0x100 (0x2E), 0x140 (0x30) and 0x180 (0x2E).
abbrev config_space : ℕ → ℕ
config_space offset = elim (compare offset 0x140) [
  | Ordering.lt ↦ 0x1400002E
  | Ordering.eq ↦ 0x18000030
  | Ordering.gt ↦ 0x0000002E
]

get_extended_cap_offset-first_with_example :
    get_extended_cap_offset config_space 9 0x30 ≡ some 0x140
get_extended_cap_offset-first_with_example =
    get_extended_cap_offset-first_with config_space 9 0x30 (0x100 ∷ 0x140 ∷ 0x180 ∷ [])
      (refl, refl, (refl, refl, (refl, refl, refl))) (omega arith)

get_doe_extended_cap_offset-all_with_example :
    get_doe_extended_cap_offset config_space 9 (some (0 ∷ 0 ∷ 5 ∷ [])) 3
    ≡ some (returns (true, some (0x100 ∷ 0x180 ∷ 5 ∷ []), 2))
get_doe_extended_cap_offset-all_with_example =
    get_doe_extended_cap_offset-all_with config_space 9 (0 ∷ 0 ∷ 5 ∷ [])
      (0x100 ∷ 0x140 ∷ 0x180 ∷ []) (refl, refl, (refl, refl, (refl, refl, refl))) (omega arith)
      (omega arith)

get_extended_cap_offset-endless_example :
    get_extended_cap_offset (λ offset. 0x1000002E) 50 0x30 ≡ none
get_extended_cap_offset-endless_example =
    get_extended_cap_offset-endless (λ offset. 0x1000002E) 50 0x30 refl (refl, refl, refl)
