-- ===== src/Doe/Exchange.antt =====
-- teeio-validator/library/spdmlib/pci_doe.c: an exchange over the mailbox and the discovery of what
-- it carries, and the choice of a mailbox by `init_pci_doe` of library/pcie_ide_lib/pcie_ide.c.
-- `pci_doe_discovery` and the numbers of the data object types belong to libspdm.
pub mod Ends
pub mod Types
pub mod Chosen
use mathlib.Core.List.{map}
use tee_io_validator.Common.{
  ℕ, zero, suc, ◌+◌, ◌*◌, ◌/◌, ◌%◌, ◌≤◌, Bool, true, false, not, List, [], ◌∷◌, Option, none, some,
  ◌≡◌, ◌≢◌, ◌⊎◌, ◌↔◌, inl, inr, refl, sym, ap, ◌∙◌, arith, Outcome, returns, ◌>>=◌, >>=-of-returns,
  teeio_assert, ltb, leb, ◌==◌, if◌then◌else◌, length, All, Bool-cases,
}
use tee_io_validator.Kcbar.{field}
use tee_io_validator.Doe.{
  Port, Status, success, invalid_parameter, send_fail, receive_fail, buffer_too_small,
  trigger_doe_abort, is_doe_error_asserted,
}
use tee_io_validator.Doe.Send.{
  device_doe_send_message, send_end, send_loop, delay_of, recover_error,
}
use tee_io_validator.Doe.Receive.{Receiver, device_doe_receive_message}

-- LIBSPDM_STATUS_IS_ERROR
abbrev pub is_error : Status → Bool
is_error success = false
is_error _ = true

-- `m_send_receive_buffer` by bytes and `m_send_receive_buffer_acquired`.
pub record SharedBuffer : Type 0 where
  pub buffer : List ℕ
  pub acquired : Bool

-- What the sender's and the receiver's functions do. `same_buffer`: whether the pointer that is
-- handed back is the buffer's.
unfoldable pub acquire_buffer : SharedBuffer → Outcome SharedBuffer
acquire_buffer s = teeio_assert (not s.acquired) >>= λ _.
    returns (record { buffer = map (λ _. 0) s.buffer; acquired = true })

unfoldable pub release_buffer : Bool → SharedBuffer → Outcome SharedBuffer
release_buffer same_buffer s = teeio_assert s.acquired >>= λ _.
    teeio_assert same_buffer >>= λ _. returns (record s { acquired = false })

-- The data object types of a protocol list contain a type, and all types of the table.
unfoldable pub has_type : List ℕ → ℕ → Bool
has_type [] t = false
has_type (x ∷ xs) t = let rest = has_type xs t in if x == t then true else rest

unfoldable pub types_loop : List ℕ → List ℕ → Bool → Bool
types_loop protocols [] found = found
types_loop protocols (t ∷ ts) found =
    let rest = types_loop protocols ts true in if has_type protocols t then rest else false

module _ {D : Type 0} (p : Port D) where
  unfoldable pub pci_doe_send_receive_data :
      ℕ → Option (List ℕ) → List ℕ → ℕ → D → Outcome (Status × Receiver D)
  pci_doe_send_receive_data request_size request response response_size d =
      device_doe_send_message p request_size request 0 d >>= λ sent. elim (is_error sent.0) [
        | true ↦
            returns
              (sent.0, record { device = sent.1; buffer = response; response_size = response_size })
        | false ↦ device_doe_receive_message p (some response) response_size sent.1 >>= λ r.
            returns (if is_error r.0 then r else (success, r.1))
      ]

  -- `discovery`: the data object types that a mailbox reports for a version, or an error.
  module _ (discovery : ℕ → Port D → D → Option (List ℕ) × D) (required : List ℕ) where
    unfoldable pub pcie_doe_init_request : ℕ → D → Bool × D
    pcie_doe_init_request version d =
        let (answer, d') = discovery version p d in
        elim answer [ none ↦ (false, d') | some types ↦ (types_loop types required false, d') ]

-- The mailbox at an offset: `g_doe_extended_offset` is changed.
abbrev pub at_offset : {D : Type 0} → Port D → ℕ → Port D
at_offset p offset = record p { doe_extended_offset = offset }

module _ {D : Type 0} (p : Port D) (discovery : ℕ → Port D → D → Option (List ℕ) × D)
    (required : List ℕ) where
  -- The loop over the offsets, with the version so far: PCIE_DOE_DISCOVERY_VERSION2 from the first
  -- capability of that version on. The result is the return value and the offset that is left. The
  -- register accesses, of which the abort has the first, assert that the offset is not 0.
  unfoldable pub init_loop : List ℕ → ℕ → ℕ → D → Outcome (Bool × ℕ × D)
  init_loop [] version offset d = returns (false, offset, d)
  init_loop (o ∷ os) version offset d =
      let q = at_offset p o in
      let (ecap_id, d1) = p.read_32 o d in
      let version' = if leb 2 (field ecap_id 65536 16) then 2 else version in
      let (error, d2) = is_doe_error_asserted q (p.sleep 1000000 (trigger_doe_abort q d1)) in
      teeio_assert (not (o == 0)) >>= λ _. elim error [
        | true ↦ init_loop os version' o d2
        | false ↦
            let (ready, d3) = pcie_doe_init_request q discovery required version' d2 in
            elim ready [ true ↦ returns (true, o, d3) | false ↦ init_loop os version' o d3 ]
      ]
