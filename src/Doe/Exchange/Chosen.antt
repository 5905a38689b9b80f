-- ===== src/Doe/Exchange/Chosen.antt =====
-- Which mailbox `init_pci_doe` chooses.
use mathlib.Core.Path.{subst}
use Prim.Native.Nat.{bit_and, bit_or}
use tee_io_validator.Common.{
  ℕ, ◌+◌, ◌/◌, ◌%◌, ◌≤◌, ◌<◌, ◌++◌, ap, not, Outcome, returns, asserts, faults, ◌>>=◌, teeio_assert,
  Bool, true, false, List, [], ◌∷◌, Option, some, ◌≡◌, ◌≢◌, ◌⊎◌, inl, inr, refl, sym, ◌∙◌, arith,
  leb, ◌==◌, if◌then◌else◌, All, Bool-cases, Option-cases,
}
use tee_io_validator.Kcbar.{field}
use tee_io_validator.Doe.{Port, is_doe_error_asserted, trigger_doe_abort}
use tee_io_validator.Doe.Exchange.{pcie_doe_init_request, at_offset, init_loop}
use tee_io_validator.Doe.Exchange.Types.{Contains, types_loop-Contains, types_loop-found}

some-injective {ℓ} : {A : Type ℓ} {a b : A} → some a ≡ some b → a ≡ b
some-injective h = cc

module _ {D : Type 0} (p : Port D) (discovery : ℕ → Port D → D → Option (List ℕ) × D)
    (required : List ℕ) where
  -- The registers of a try at an offset, in order: the header of the capability is read; the
  -- control register is read, and written with its abort bit set and its GO bit clear; after a
  -- second the status register is read. The result is the header, the status and the device.
  abbrev pub probe : ℕ → D → ℕ × ℕ × D
  probe o d =
      let (ecap_id, d1) = p.read_32 o d in
      let (control, d2) = p.read_32 (o + 8) d1 in
      let d3 = p.write_32 (o + 8) (bit_and (bit_or control 1) 0x7fffffff) d2 in
      let (status, d4) = p.read_32 (o + 12) (p.sleep 1000000 d3) in (ecap_id, status, d4)

  -- The version from a capability on: 2 if its header has the version 2 or more, and the one
  -- before otherwise.
  abbrev pub Version : ℕ → ℕ → ℕ → Type 0
  Version ecap_id version version' =
      ((2 ≤ ecap_id / 65536 % 16) × (version' ≡ 2))
      ⊎ ((ecap_id / 65536 % 16 < 2) × (version' ≡ version))

  -- The discovery at a mailbox reports all required types.
  abbrev pub Reports : ℕ → ℕ → D → Type 0
  Reports o version d =
      (types : List ℕ) × ((discovery version (at_offset p o) d).0 ≡ some types)
      × All (Contains types) required

  -- In a try the mailbox is ready: its error bit is clear after the abort, and the discovery that
  -- follows with the version reports the types.
  abbrev pub Accepted : ℕ → ℕ → D → ℕ → D → Type 0
  Accepted o version d version' d' =
      let (ecap_id, status, probed) = probe o d in
      (o ≢ 0)
      × Version ecap_id version version'
      × (bit_and status 4 ≡ 0)
      × Reports o version' probed
      × (d' ≡ (discovery version' (at_offset p o) probed).1)

  -- In a try the mailbox is not ready: its error bit is set after the abort, and no discovery is
  -- made; or the bit is clear and the discovery does not report the types.
  abbrev pub Refused : ℕ → ℕ → D → ℕ → D → Type 0
  Refused o version d version' d' =
      let (ecap_id, status, probed) = probe o d in
      (o ≢ 0)
      × Version ecap_id version version'
      × (((bit_and status 4 ≢ 0) × (d' ≡ probed))
          ⊎ ((bit_and status 4 ≡ 0)
              × (¬ Reports o version' probed)
              × (d' ≡ (discovery version' (at_offset p o) probed).1)))

  -- The tries of some offsets, one after the other and all refused.
  pub data Refusals : List ℕ → ℕ → D → ℕ → D → Type 0 where
    no_try : {version : ℕ} {d : D} → Refusals [] version d version d
    next_try :
        {o : ℕ} {os : List ℕ} {version : ℕ} {d : D} {version' : ℕ} {d' : D} {version'' : ℕ}
        {d'' : D}
        → Refused o version d version' d'
        → Refusals os version' d' version'' d''
        → Refusals (o ∷ os) version d version'' d''

  -- How the choice ends: with the first mailbox that is ready, with none, or at an offset of 0.
  abbrev pub Chosen : List ℕ → ℕ → D → Outcome (Bool × ℕ × D) → Type 0
  Chosen os version d (returns (true, o, d'')) =
      (before : List ℕ) × (after : List ℕ) × (version' : ℕ) × (d' : D) × (version'' : ℕ) × (os
        ≡ before ++ o ∷ after)
      × Refusals before version d version' d'
      × Accepted o version' d' version'' d''
  Chosen os version d (returns (false, o, d')) = (version' : ℕ) × Refusals os version d version' d'
  Chosen os version d asserts =
      (before : List ℕ) × (after : List ℕ) × (version' : ℕ) × (d' : D) × (os ≡ before ++ 0 ∷ after)
      × Refusals before version d version' d'
  Chosen os version d faults = ⊥

  pcie_doe_init_request-Reports :
      required ≢ []
      → (o version : ℕ) (d : D)
      → (((pcie_doe_init_request (at_offset p o) discovery required version d).0 ≡ true)
          × Reports o version d)
        ⊎ (((pcie_doe_init_request (at_offset p o) discovery required version d).0 ≡ false)
            × (¬ Reports o version d))
  unfolding pcie_doe_init_request
  pcie_doe_init_request-Reports nonempty o version d =
      let answer = (discovery version (at_offset p o) d).0 in
      elim (Option-cases answer) [
        | inl nothing ↦
            inr (rw (pcie_doe_init_request, nothing) refl, λ h. let said = h.1 in absurd cc)
        | inr (types, something) ↦ elim (types_loop-Contains types required) [
          | inl (e, all) ↦ inl (
            rw (pcie_doe_init_request, something)
                (types_loop-found types required false nonempty ∙ e),
            (types, something, all),
          )
          | inr (e, not_all) ↦ inr (
            rw (pcie_doe_init_request, something)
                (types_loop-found types required false nonempty ∙ e),
            λ h.
                let same : h.0 ≡ types = some-injective (sym h.1 ∙ something) in
                not_all (subst (λ ts. All (Contains ts) required) same h.2),
          )
        ]
      ]

  -- The discovery is made once, and the device is as it leaves it.
  pcie_doe_init_request-device :
      (o version : ℕ) (d : D)
      → (pcie_doe_init_request (at_offset p o) discovery required version d).1
        ≡ (discovery version (at_offset p o) d).1
  unfolding pcie_doe_init_request
  pcie_doe_init_request-device o version d =
      elim (Option-cases (discovery version (at_offset p o) d).0) [
        | inl nothing ↦ rw (pcie_doe_init_request, nothing) refl
        | inr (types, something) ↦ rw (pcie_doe_init_request, something) refl
      ]

  probe-error :
      (o : ℕ) (d : D)
      → let error =
          is_doe_error_asserted
            (at_offset p o)
            (p.sleep 1000000 (trigger_doe_abort (at_offset p o) (p.read_32 o d).1)) in
        (error.0 ≡ not (bit_and (probe o d).1 4 == 0)) × (error.1 ≡ (probe o d).2)
  unfolding is_doe_error_asserted trigger_doe_abort
  probe-error o d = (refl, refl)

  Chosen-next :
      (o : ℕ) (os : List ℕ) (version version' : ℕ) (d d' : D) (m : Outcome (Bool × ℕ × D))
      → Refused o version d version' d'
      → Chosen os version' d' m
      → Chosen (o ∷ os) version d m
  Chosen-next o os version version' d d' (returns (true, c, end)) refused
        (before, after, v1, d1, v2, e, refusals, accepted) =
      (o ∷ before, after, v1, d1, v2, ap (λ l. o ∷ l) e, next_try refused refusals, accepted)
  Chosen-next o os version version' d d' (returns (false, c, end)) refused (v1, refusals) =
      (v1, next_try refused refusals)
  Chosen-next o os version version' d d' asserts refused (before, after, v1, d1, e, refusals) =
      (o ∷ before, after, v1, d1, ap (λ l. o ∷ l) e, next_try refused refusals)
  Chosen-next o os version version' d d' faults refused h = h

  Version-field :
      (ecap_id version : ℕ)
      → Version ecap_id version (if leb 2 (field ecap_id 65536 16) then 2 else version)
  Version-field ecap_id version = elim (Bool-cases (leb 2 (field ecap_id 65536 16))) [
    | inl new ↦ rw new (inl (ground arith, refl))
    | inr old ↦ rw old (inr (ground arith, refl))
  ]

  -- With a type required at least, the choice goes through the offsets in order. It ends with the
  -- first mailbox that is ready: its error bit is clear after an abort and a second of waiting, and
  -- its discovery, with version 2 if a capability up to it has that version or more, reports all
  -- required types; all mailboxes before it were tried in the same way and refused. It fails where
  -- all are refused, and an assertion fails where an offset of 0 is reached.
  pub init_loop-Chosen :
      required ≢ []
      → (os : List ℕ) (version offset : ℕ) (d : D)
      → Chosen os version d (init_loop p discovery required os version offset d)
  unfolding init_loop
  init_loop-Chosen nonempty [] version offset d = (version, no_try)
  init_loop-Chosen nonempty (o ∷ os) version offset d =
      let q = at_offset p o in
      let r = p.read_32 o d in
      let version' = if leb 2 (field r.0 65536 16) then 2 else version in
      let e = is_doe_error_asserted q (p.sleep 1000000 (trigger_doe_abort q r.1)) in
      let (bit, device) = probe-error o d in
      let v : Version (probe o d).0 version version' = Version-field r.0 version in
      elim (Bool-cases (o == 0)) [
        | inl zero ↦
            let at_zero : o ≡ 0 = ground arith in
            rw (init_loop, zero, ◌>>=◌, teeio_assert)
              ([], os, version, d, ap (λ n. n ∷ os) at_zero, no_try)
        | inr nonzero ↦
            let selected : o ≢ 0 = ground arith in
            elim (Bool-cases e.0) [
              | inl dirty ↦
                  let set : bit_and (probe o d).1 4 ≢ 0 = ground arith in
                  rw (init_loop, nonzero, ◌>>=◌, dirty)
                    (Chosen-next o os version version' d e.1 _ (selected, v, inl (set, device))
                      (init_loop-Chosen nonempty os version' o e.1))
              | inr clean ↦
                  let clear : bit_and (probe o d).1 4 ≡ 0 = ground arith in
                  let made =
                    pcie_doe_init_request-device o version' e.1
                    ∙ ap (λ s. (discovery version' q s).1) device in
                  let d' = (pcie_doe_init_request q discovery required version' e.1).1 in
                  elim (pcie_doe_init_request-Reports nonempty o version' e.1) [
                    | inl (ready, reports) ↦
                        rw (init_loop, nonzero, ◌>>=◌, clean, ready)
                          (
                            [],
                            os,
                            version,
                            d,
                            version',
                            refl,
                            no_try,
                            (selected, v, clear, subst (Reports o version') device reports, made),
                          )
                    | inr (unready, silent) ↦
                        rw (init_loop, nonzero, ◌>>=◌, clean, unready)
                          (Chosen-next o os version version' d d' _
                            (
                              selected,
                              v,
                              inr (
                                clear,
                                (λ h. silent (subst (Reports o version') (sym device) h)),
                                made,
                              ),
                            )
                            (init_loop-Chosen nonempty os version' o d'))
                  ]
            ]
      ]
