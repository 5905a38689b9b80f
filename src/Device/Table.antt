-- ===== src/Device/Table.antt =====
-- The table of devices is a map from file descriptors to names.
use mathlib.Core.List.{append-nil, ◌++◌}
use tee_io_validator.Common.{
  returns-injective, ℕ, zero, suc, ◌<◌, true, false, List, [], ◌∷◌, none, some, ◌≡◌, ◌≢◌, inl, inr,
  refl, sym, ap, ◌∙◌, arith, returns, ◌>>=◌, ltb, ◌==◌, length, drop, All, Bool-cases,
}
use tee_io_validator.Device.{
  Slot, strncpy, set_loop, set_deivce_info, unset_loop, unset_device_info, get_loop,
  get_device_info_by_fd,
}

-- An empty slot has no name, so that a new name does not keep the end of an old one.
abbrev pub Clean : List Slot → Type 0
Clean = All (λ s. s.fd ≡ 0 → s.device_name ≡ [])

-- Some slot is empty.
abbrev pub HasRoom : List Slot → Type 0
HasRoom devices = get_loop devices 0 ≢ none

strncpy-nil : (name : List ℕ) → strncpy [] name ≡ name
strncpy-nil name = ap (λ rest. name ++ rest) (drop-nil (length name)) ∙ append-nil name
  where
    drop-nil : (n : ℕ) → drop {A = ℕ} n [] ≡ []
    drop-nil zero = refl
    drop-nil (suc n) = refl

get_loop-here : (s : Slot) (ss : List Slot) (fd : ℕ) → s.fd ≡ fd → get_loop (s ∷ ss) fd ≡ some s
unfolding get_loop
get_loop-here s ss fd h = let e : (s.fd == fd) ≡ true = ground arith in rw (get_loop, e) refl

get_loop-there :
    (s : Slot) (ss : List Slot) (fd : ℕ) → s.fd ≢ fd → get_loop (s ∷ ss) fd ≡ get_loop ss fd
unfolding get_loop
get_loop-there s ss fd h = let e : (s.fd == fd) ≡ false = ground arith in rw (get_loop, e) refl

unset_loop-here :
    (s : Slot) (ss : List Slot) (fd : ℕ)
    → s.fd ≡ fd
    → unset_loop (s ∷ ss) fd ≡ record { fd = 0; device_name = [] } ∷ ss
unfolding unset_loop
unset_loop-here s ss fd h = let e : (s.fd == fd) ≡ true = ground arith in rw (unset_loop, e) refl

unset_loop-there :
    (s : Slot) (ss : List Slot) (fd : ℕ) → s.fd ≢ fd → unset_loop (s ∷ ss) fd ≡ s ∷ unset_loop ss fd
unfolding unset_loop
unset_loop-there s ss fd h = let e : (s.fd == fd) ≡ false = ground arith in rw (unset_loop, e) refl

-- A slot in front of two tables that agree.
get_loop-same :
    (s : Slot) (xs ys : List Slot) (fd : ℕ)
    → get_loop xs fd ≡ get_loop ys fd
    → get_loop (s ∷ xs) fd ≡ get_loop (s ∷ ys) fd
unfolding get_loop
get_loop-same s xs ys fd h = elim (Bool-cases (s.fd == fd)) [
  | inl here ↦ rw (get_loop, here) refl
  | inr there ↦ rw (get_loop, there) h
]

-- What registering and forgetting a device does to the lookups.
abbrev Registered : List Slot → ℕ → List ℕ → List Slot → Type 0
Registered devices fd name devices' =
    (length devices' ≡ length devices)
    × Clean devices'
    × (get_loop devices' fd ≡ some (record { fd = fd; device_name = name }))
    × ((other : ℕ) → 0 < other → other ≢ fd → get_loop devices' other ≡ get_loop devices other)
    × (get_loop (unset_loop devices' fd) fd ≡ none)
    × ((other : ℕ)
        → 0 < other
        → other ≢ fd
        → get_loop (unset_loop devices' fd) other ≡ get_loop devices other)

register_here :
    (s : Slot) (ss : List Slot) (fd : ℕ) (name : List ℕ)
    → 0 < fd
    → s.fd ≡ 0
    → Clean ss
    → get_loop ss fd ≡ none
    → Registered (s ∷ ss) fd name (record { fd = fd; device_name = name } ∷ ss)
register_here s ss fd name pos empty cleans absent =
    let new : Slot = record { fd = fd; device_name = name } in
    let old : Slot = record { fd = 0; device_name = [] } in
    let forgotten = unset_loop-here new ss fd refl in
    (
      refl,
      ((λ h. absurd (omega (arith, h, pos))), cleans),
      get_loop-here new ss fd refl,
      (λ o p d.
          get_loop-there new ss o (λ h. d (sym h))
          ∙ sym (get_loop-there s ss o (λ h. omega (arith, h, p, empty)))),
      ap (λ q. get_loop q fd) forgotten
          ∙ get_loop-there old ss fd (λ h. omega (arith, h, pos))
          ∙ absent,
      (λ o p d.
          ap (λ q. get_loop q o) forgotten
          ∙ get_loop-there old ss o (λ h. omega (arith, h, p))
          ∙ sym (get_loop-there s ss o (λ h. omega (arith, h, p, empty)))),
    )

register_there :
    (s : Slot) (ss ds : List Slot) (fd : ℕ) (name : List ℕ)
    → s.fd ≢ fd
    → (s.fd ≡ 0 → s.device_name ≡ [])
    → Registered ss fd name ds
    → Registered (s ∷ ss) fd name (s ∷ ds)
register_there s ss ds fd name differ clean (l, c, found, others, gone, others') =
    let forgotten = unset_loop-there s ds fd differ in
    (
      ap suc l,
      (clean, c),
      get_loop-there s ds fd differ ∙ found,
      (λ o p d. get_loop-same s ds ss o (others o p d)),
      ap (λ q. get_loop q fd) forgotten ∙ get_loop-there s _ fd differ ∙ gone,
      (λ o p d. ap (λ q. get_loop q o) forgotten ∙ get_loop-same s _ ss o (others' o p d)),
    )

set_loop-Registered :
    (devices : List Slot) (fd : ℕ) (name : List ℕ)
    → 0 < fd
    → Clean devices
    → get_loop devices fd ≡ none
    → HasRoom devices
    → (devices' : List Slot) × (set_loop devices fd name ≡ returns (true, devices'))
      × Registered devices fd name devices'
unfolding set_loop get_loop
set_loop-Registered [] fd name pos clean absent room = absurd (room refl)
set_loop-Registered (s ∷ ss) fd name pos (clean, cleans) absent room =
    elim (Bool-cases (s.fd == fd)) [
      | inl same ↦ let h = rw (get_loop, same) at absent in cc
      | inr differ ↦
          let absent' = rw (get_loop, differ) at absent in
          let apart : s.fd ≢ fd = ground arith in
          elim (Bool-cases (s.fd == 0)) [
            | inl empty ↦
                let zero_fd : s.fd ≡ 0 = ground arith in
                let whole : strncpy s.device_name name ≡ name =
                  ap (λ d. strncpy d name) (clean zero_fd) ∙ strncpy-nil name in
                (
                  record { fd = fd; device_name = name } ∷ ss,
                  rw (set_loop, differ, empty)
                      (ap (λ d. returns (true, record { fd = fd; device_name = d } ∷ ss)) whole),
                  register_here s ss fd name pos zero_fd cleans absent',
                )
            | inr used ↦
                let (ds, e, r) =
                  set_loop-Registered ss fd name pos cleans absent'
                    (λ h. room (rw (get_loop, used) h)) in
                (
                  s ∷ ds,
                  rw (set_loop, differ, used, e, ◌>>=◌) refl,
                  register_there s ss ds fd name apart clean r,
                )
          ]
    ]

-- For a descriptor above 0 that is not in the table, a name that fits and a table with an empty
-- slot: registering the device succeeds, and the descriptor is then found with its name and every
-- other as before. When it is forgotten again it is not found, and every other is found as before.
-- The size of the table is kept, and so is it that empty slots have no name.
pub set_deivce_info-get_device_info_by_fd :
    (devices : List Slot) (fd : ℕ) (name : List ℕ)
    → 0 < fd
    → length name < 128
    → Clean devices
    → get_device_info_by_fd devices fd ≡ returns none
    → HasRoom devices
    → (devices' : List Slot) × (devices'' : List Slot) × (set_deivce_info devices fd (some name)
        ≡ returns (true, devices'))
      × (unset_device_info devices' fd ≡ returns (true, devices''))
      × (length devices' ≡ length devices)
      × Clean devices'
      × (get_device_info_by_fd devices' fd
          ≡ returns (some (record { fd = fd; device_name = name })))
      × (get_device_info_by_fd devices'' fd ≡ returns none)
      × ((other : ℕ)
          → 0 < other
          → other ≢ fd
          → (get_device_info_by_fd devices' other ≡ get_device_info_by_fd devices other)
            × (get_device_info_by_fd devices'' other ≡ get_device_info_by_fd devices other))
unfolding set_deivce_info unset_device_info get_device_info_by_fd
set_deivce_info-get_device_info_by_fd devices fd name pos fits clean absent room =
    let open_fd : (fd == 0) ≡ false = ground arith in
    let short : ltb 127 (length name) ≡ false = ground arith in
    let absent' = returns-injective (rw (get_device_info_by_fd, open_fd) at absent) in
    let (ds, e, (l, c, found, others, gone, others')) =
      set_loop-Registered devices fd name pos clean absent' room in
    (
      ds,
      unset_loop ds fd,
      rw (set_deivce_info, open_fd, short) e,
      rw (unset_device_info, open_fd) refl,
      l,
      c,
      rw (get_device_info_by_fd, open_fd) (ap returns found),
      rw (get_device_info_by_fd, open_fd) (ap returns gone),
      λ o p d.
          let open_o : (o == 0) ≡ false = ground arith in
          (
            rw (get_device_info_by_fd, open_o) (ap returns (others o p d)),
            rw (get_device_info_by_fd, open_o) (ap returns (others' o p d)),
          ),
    )
