-- ===== src/Runner/Group.antt =====
-- `do_run_test_group` and `alloc_run_test_case_result` of
-- teeio-validator/teeio_validator/ide_test.c.
use tee_io_validator.Common.{
  Bool, true, false, List, [], ◌∷◌, Option, none, some, Outcome, returns, faults, ◌>>=◌, append,
  length, and_then, get_elem?,
}
use tee_io_validator.Results.{CaseResult, GroupResult, Results}
use tee_io_validator.Results.Record.{on_group}
use tee_io_validator.Runner.{Config, TestCase, TestGroup, World, call_asserted, call_unchecked}
use tee_io_validator.Runner.Case.{do_run_test_case, set_action}

-- The case result after `malloc`, `memset` and the copies.
abbrev pub new_case_result : {E : Type 0} → TestCase E → CaseResult
new_case_result test_case = record {
  class = test_case.class;
  name = test_case.name;
  class_id = test_case.class_id;
  case_id = test_case.case_id;
  total_passed = 0;
  total_failed = 0;
  config_item_result = [];
  assertion_result = [];
}

-- `*g_current_group_result`, where the path leads to one.
unfoldable pub read_group : Results → Option GroupResult
read_group s = and_then s.current_config λ i.
    and_then (get_elem? s.configs i) λ c. and_then s.current_group λ j. get_elem? c.group_result j

-- The result is put at the end of the group's, and becomes the current one.
unfoldable pub alloc_run_test_case_result : {E : Type 0} → TestCase E → Results → Outcome Results
unfolding on_group read_group
alloc_run_test_case_result test_case s = elim (read_group s) [
  | none ↦ faults
  | some g ↦
      on_group (λ h. record h { case_result = append h.case_result (new_case_result test_case) }) s
      >>= λ s'. returns (record s' { current_case = some (length g.case_result) })
]

abbrev pub clear_case : {E : Type 0} → World E → World E
clear_case w = record w { results = record (w.results) { current_case = none } }

-- One round of the loop over the cases: `action` is that of the case's own context.
unfoldable pub case_round :
    {E : Type 0} → Bool → Config E → TestCase E → World E → Outcome (World E)
unfolding alloc_run_test_case_result
case_round group_setup_result config test_case w =
    alloc_run_test_case_result test_case w.results >>= λ s.
    let w' = set_action test_case.action (record w { results = s }) in
    elim group_setup_result [
      | true ↦ do_run_test_case test_case config w' >>= λ w''. returns (clear_case w'')
      | false ↦ returns (clear_case w')
    ]

unfoldable pub case_loop :
    {E : Type 0} → Bool → Config E → List (TestCase E) → World E → Outcome (World E)
unfolding case_round
case_loop group_setup_result config [] w = returns w
case_loop group_setup_result config (test_case ∷ rest) w =
    case_round group_setup_result config test_case w >>= case_loop group_setup_result config rest

abbrev pub set_attached : {E : Type 0} → Bool → World E → World E
set_attached b w = record w { context = record (w.context) { attached = b } }

-- The teardown of the group, only after a setup that succeeded.
unfoldable pub group_teardown : {E : Type 0} → Bool → TestGroup E → World E → Outcome (World E)
group_teardown true group w = call_unchecked group.teardown_func w >>= λ r. returns r.1
group_teardown false group w = returns w

-- What follows the test that the group has a case.
unfoldable pub group_body : {E : Type 0} → TestGroup E → Config E → World E → Outcome (World E)
unfolding case_loop group_teardown
group_body group config w = call_asserted group.setup_func w >>= λ r.
    case_loop r.0 config group.test_case r.1 >>= λ w'.
    group_teardown r.0 group w' >>= λ w''. returns (set_attached false w'')

unfoldable pub do_run_test_group :
    {E : Type 0} → TestGroup E → Config E → World E → Outcome (World E)
unfolding group_body
do_run_test_group group config w =
    let context = record (w.context) { config_id = config.config_id; attached = true } in
    let w' = record w { context = context } in
    elim group.test_case [ [] ↦ returns w' | _ ∷ _ ↦ group_body group config w' ]
