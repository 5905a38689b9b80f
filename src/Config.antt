-- ===== src/Config.antt =====
-- teeio-validator/library/helperlib/ide_ini_helper.c: the lookups in the parsed configuration,
-- with the records of include/ide_test.h as far as the lookups read them. An array is the list of
-- the entries that a lookup walks; a name is the list of its bytes, and `none` is NULL. An
-- identifier that is not positive is 0 here, which no lookup finds.
pub mod Names
use tee_io_validator.Common.{
  ℕ, zero, suc, Bool, true, false, not, ◌&&◌, List, [], ◌∷◌, Option, none, some, ◌==◌,
  if◌then◌else◌,
}

pub record IdePort : Type 0 where
  pub id : ℕ
  pub enabled : Bool
  pub port_name : List ℕ

pub record IdeSwitch : Type 0 where
  pub switch_id : ℕ
  pub switch_enabled : Bool
  pub name : List ℕ
  pub ports : List IdePort

-- `IDE_TEST_TOPOLOGY` and `IDE_TEST_CONFIGURATION` by what their lookups read.
pub record Entry : Type 0 where
  pub entry_id : ℕ
  pub entry_enabled : Bool

pub record IdeTestConfig : Type 0 where
  pub ports_config : List IdePort
  pub switches_config : List IdeSwitch
  pub topologies : List Entry
  pub configurations : List Entry

-- `strcmp(a, b) == 0`
unfoldable pub same_text : List ℕ → List ℕ → Bool
same_text [] [] = true
same_text [] (y ∷ ys) = false
same_text (x ∷ xs) [] = false
same_text (x ∷ xs) (y ∷ ys) = let rest = same_text xs ys in if x == y then rest else false

-- The first entry that passes a test.
unfoldable pub find_first {ℓ} : {A : Type ℓ} → (A → Bool) → List A → Option A
find_first p [] = none
find_first p (x ∷ xs) = let rest = find_first p xs in if p x then some x else rest

unfoldable pub get_configuration_by_id : Option IdeTestConfig → ℕ → Option Entry
get_configuration_by_id none id = none
get_configuration_by_id (some config) id =
    if id == 0
    then none
    else find_first (λ e. (e.entry_id == id) && e.entry_enabled) config.configurations

unfoldable pub get_topology_by_id : Option IdeTestConfig → ℕ → Option Entry
get_topology_by_id none id = none
get_topology_by_id (some config) id =
    if id == 0
    then none
    else find_first (λ e. (e.entry_id == id) && e.entry_enabled) config.topologies

unfoldable pub get_port_by_id : Option IdeTestConfig → ℕ → Option IdePort
get_port_by_id none id = none
get_port_by_id (some config) id =
    if id == 0 then none else find_first (λ p. (p.id == id) && p.enabled) config.ports_config

unfoldable pub get_port_by_name : Option IdeTestConfig → Option (List ℕ) → Option IdePort
get_port_by_name none portname = none
get_port_by_name (some config) none = none
get_port_by_name (some config) (some portname) =
    find_first (λ p. same_text p.port_name portname && p.enabled) config.ports_config

unfoldable pub get_switch_by_id : Option IdeTestConfig → ℕ → Option IdeSwitch
get_switch_by_id none switch_id = none
get_switch_by_id (some config) switch_id =
    if switch_id == 0
    then none
    else find_first (λ s. (s.switch_id == switch_id) && s.switch_enabled) config.switches_config

unfoldable pub get_switch_by_name : Option IdeTestConfig → Option (List ℕ) → Option IdeSwitch
get_switch_by_name none name = none
get_switch_by_name (some config) none = none
get_switch_by_name (some config) (some name) =
    find_first (λ s. same_text s.name name && s.switch_enabled) config.switches_config

unfoldable pub get_port_from_switch_by_id : Option IdeSwitch → ℕ → Option IdePort
get_port_from_switch_by_id none port_id = none
get_port_from_switch_by_id (some sw) port_id =
    if port_id == 0 then none else find_first (λ p. p.enabled && (p.id == port_id)) sw.ports

unfoldable pub get_port_from_switch_by_name : Option IdeSwitch → Option (List ℕ) → Option IdePort
get_port_from_switch_by_name none name = none
get_port_from_switch_by_name (some sw) none = none
get_port_from_switch_by_name (some sw) (some name) =
    find_first (λ p. p.enabled && same_text p.port_name name) sw.ports

-- These two stop at the first port of the name, enabled or not; INVALID_PORT_ID is 0.
unfoldable pub is_valid_port : Option (List IdePort) → Option (List ℕ) → Bool
is_valid_port none port = false
is_valid_port (some ports) none = false
is_valid_port (some ports) (some port) = elim (find_first (λ p. same_text p.port_name port) ports) [
  | none ↦ false
  | some p ↦ p.enabled
]

unfoldable pub get_port_id_from_name : Option (List IdePort) → Option (List ℕ) → ℕ
get_port_id_from_name none port = 0
get_port_id_from_name (some ports) none = 0
get_port_id_from_name (some ports) (some port) =
    elim (find_first (λ p. same_text p.port_name port) ports) [
      | none ↦ 0
      | some p ↦ if p.enabled then p.id else 0
    ]
