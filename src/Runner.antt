-- ===== src/Runner.antt =====
-- teeio-validator/teeio_validator/ide_test.c: running test suites, groups and cases.
-- The functions of the test libraries are called through pointers. A callback is modelled as a
-- function of the environment (devices, sessions, all that the program does not model here) and
-- of the context that it is given; it returns what it records through the functions of
-- `teeio_common.c`, the new environment, the new `action` of the case context, and its answer.
pub mod Case
pub mod Group
pub mod Suite
pub mod Tally
pub mod Statics
pub mod Returns
use tee_io_validator.Common.{
  ℕ, Bool, true, false, List, [], ◌∷◌, Option, none, some, Outcome, returns, asserts, faults, ◌>>=◌,
}
use tee_io_validator.Results.{Bytes, TestResult, AssertionType, ConfigFunc, GroupFunc, Results}
use tee_io_validator.Results.Record.{record_assertion_result, record_group_result}
use tee_io_validator.Results.Items.{record_config_item_result}

pub data Action : Type 0 where
  run skip : Action

-- One call of a recording function, with its arguments.
pub data Call : Type 0 where
  assertion : ℕ → ℕ → ℕ → AssertionType → TestResult → Option Bytes → Call
  config_item : ℕ → ConfigFunc → TestResult → Call
  group_func : GroupFunc → TestResult → Option Bytes → Call

-- What the contexts show to a callback: `case_context->action`, `group_context->config_id`, and
-- whether `config_context->group_context` is set.
pub record Context : Type 0 where
  pub action : Action
  pub config_id : ℕ
  pub attached : Bool

pub record Reply (E : Type 0) : Type 0 where
  pub calls : List Call
  pub env : E
  pub action : Action
  pub answer : Bool

abbrev pub Callback : Type 0 → Type 0
Callback E = E → Context → Reply E

-- `ide_run_test_config_item_t`: a NULL function pointer is `none`.
pub record ConfigItem (E : Type 0) : Type 0 where
  pub support_func : Option (Callback E)
  pub enable_func : Option (Callback E)
  pub disable_func : Option (Callback E)
  pub check_func : Option (Callback E)

-- `ide_run_test_config_t`.
pub record Config (E : Type 0) : Type 0 where
  pub config_id : ℕ
  pub name : Bytes
  pub config_item : List (ConfigItem E)

-- `ide_run_test_case_t`, with the `action` of its context.
pub record TestCase (E : Type 0) : Type 0 where
  pub class : Bytes
  pub name : Bytes
  pub class_id : ℕ
  pub case_id : ℕ
  pub config_check_required : Bool
  pub setup_func : Option (Callback E)
  pub run_func : Option (Callback E)
  pub teardown_func : Option (Callback E)
  pub action : Action

-- `ide_run_test_group_t`.
pub record TestGroup (E : Type 0) : Type 0 where
  pub name : Bytes
  pub test_case : List (TestCase E)
  pub setup_func : Option (Callback E)
  pub teardown_func : Option (Callback E)

pub record World (E : Type 0) : Type 0 where
  pub env : E
  pub context : Context
  pub results : Results

unfoldable pub perform_call : Call → Results → Outcome Results
perform_call (assertion case_class case_id id type result message) s =
    record_assertion_result case_class case_id id type result message s
perform_call (config_item id func result) s =
    record_config_item_result id func result s >>= λ r. returns r.1
perform_call (group_func func result message) s =
    record_group_result func result message s >>= λ r. returns r.1

unfoldable pub perform : List Call → Results → Outcome Results
unfolding perform_call
perform [] s = returns s
perform (c ∷ cs) s = perform_call c s >>= perform cs

unfoldable pub call : {E : Type 0} → Callback E → World E → Outcome (Bool × World E)
call f w =
    let reply = f w.env w.context in
    perform reply.calls w.results >>= λ s. returns (
      reply.answer,
      record w {
        env = reply.env;
        context = record (w.context) { action = reply.action };
        results = s;
      },
    )

-- A call through a pointer that is not tested: NULL is undefined.
unfoldable pub call_unchecked :
    {E : Type 0} → Option (Callback E) → World E → Outcome (Bool × World E)
unfolding call
call_unchecked none w = faults
call_unchecked (some f) w = call f w

-- A call after `TEEIO_ASSERT` of the pointer.
unfoldable pub call_asserted :
    {E : Type 0} → Option (Callback E) → World E → Outcome (Bool × World E)
unfolding call
call_asserted none w = asserts
call_asserted (some f) w = call f w

-- The body that `do_run_test_config_support`, `_enable`, `_disable` and `_check` share. It reads
-- the first item before any test.
unfoldable pub run_items :
    {E : Type 0}
    → (ConfigItem E → Option (Callback E))
    → List (ConfigItem E)
    → World E
    → Outcome (Bool × World E)
unfolding call_asserted
run_items func [] w = faults
run_items func (item ∷ []) w = call_asserted (func item) w
run_items func (item ∷ next ∷ rest) w = call_asserted (func item) w >>= λ r. elim r.0 [
  | true ↦ run_items func (next ∷ rest) r.1
  | false ↦ returns (false, r.1)
]

unfoldable pub do_run_test_config_support :
    {E : Type 0} → Config E → World E → Outcome (Bool × World E)
unfolding run_items
do_run_test_config_support config = run_items (λ item. item.support_func) config.config_item

unfoldable pub do_run_test_config_enable :
    {E : Type 0} → Config E → World E → Outcome (Bool × World E)
unfolding run_items
do_run_test_config_enable config = run_items (λ item. item.enable_func) config.config_item

unfoldable pub do_run_test_config_disable :
    {E : Type 0} → Config E → World E → Outcome (Bool × World E)
unfolding run_items
do_run_test_config_disable config = run_items (λ item. item.disable_func) config.config_item

unfoldable pub do_run_test_config_check :
    {E : Type 0} → Config E → World E → Outcome (Bool × World E)
unfolding run_items
do_run_test_config_check config = run_items (λ item. item.check_func) config.config_item
