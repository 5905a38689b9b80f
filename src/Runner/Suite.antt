-- ===== src/Runner/Suite.antt =====
-- `do_run_test_suite`, the allocation of configuration and group results, and
-- `test_suite_cases_statics` of teeio-validator/teeio_validator/ide_test.c.
use tee_io_validator.Common.{
  ℕ, ◌+◌, List, [], ◌∷◌, Option, none, some, Outcome, returns, faults, ◌>>=◌, append, length,
  and_then, get_elem?,
}
use tee_io_validator.Results.{not_tested, ConfigResult, GroupResult, Results}
use tee_io_validator.Results.Record.{on_config}
use tee_io_validator.Runner.{Config, TestGroup, World}
use tee_io_validator.Runner.Group.{do_run_test_group}

abbrev pub new_config_result : {E : Type 0} → Config E → ConfigResult
new_config_result config = record {
  name = config.name;
  config_id = config.config_id;
  total_passed = 0;
  total_failed = 0;
  group_result = [];
}

-- `alloc_run_test_config_result` with `append_config_result`, and the assignment of the global.
unfoldable pub alloc_run_test_config_result : {E : Type 0} → Config E → Results → Results
alloc_run_test_config_result config s = record s {
  configs = append s.configs (new_config_result config);
  current_config = some (length s.configs);
}

abbrev pub new_group_result : {E : Type 0} → TestGroup E → GroupResult
new_group_result group = record {
  name = group.name;
  total_passed = 0;
  total_failed = 0;
  func_results = λ _. record { result = not_tested; extra_data = [] };
  case_result = [];
}

-- `*g_current_config_result`.
unfoldable pub read_config : Results → Option ConfigResult
read_config s = and_then s.current_config (get_elem? s.configs)

unfoldable pub alloc_run_test_group_result : {E : Type 0} → TestGroup E → Results → Outcome Results
unfolding on_config read_config
alloc_run_test_group_result group s = elim (read_config s) [
  | none ↦ faults
  | some c ↦
      on_config (λ d. record d { group_result = append d.group_result (new_group_result group) }) s
      >>= λ s'. returns (record s' { current_group = some (length c.group_result) })
]

abbrev pub clear_group : {E : Type 0} → World E → World E
clear_group w = record w { results = record (w.results) { current_group = none } }

abbrev pub clear_config : {E : Type 0} → World E → World E
clear_config w = record w { results = record (w.results) { current_config = none } }

unfoldable pub group_round : {E : Type 0} → Config E → TestGroup E → World E → Outcome (World E)
unfolding alloc_run_test_group_result
group_round config group w = alloc_run_test_group_result group w.results >>= λ s.
    do_run_test_group group config (record w { results = s }) >>= λ w'. returns (clear_group w')

unfoldable pub group_loop :
    {E : Type 0} → Config E → List (TestGroup E) → World E → Outcome (World E)
unfolding group_round
group_loop config [] w = returns w
group_loop config (group ∷ rest) w = group_round config group w >>= group_loop config rest

-- The outer loop. `run_test_group` is set before it and only moved by the inner one, so that
-- after the first configuration no group is left.
unfoldable pub config_loop :
    {E : Type 0} → List (Config E) → List (TestGroup E) → World E → Outcome (World E)
unfolding group_loop alloc_run_test_config_result
config_loop [] groups w = returns w
config_loop (config ∷ rest) groups w =
    group_loop config groups (record w { results = alloc_run_test_config_result config w.results })
    >>= λ w'. config_loop rest [] (clear_config w')

unfoldable pub do_run_test_suite :
    {E : Type 0} → List (Config E) → List (TestGroup E) → World E → Outcome (World E)
unfolding config_loop
do_run_test_suite = config_loop

-- The totals over the configurations of a suite, with the counters `passed` and `failed`.
unfoldable pub test_suite_cases_statics : ℕ → ℕ → List ConfigResult → ℕ × ℕ
test_suite_cases_statics passed failed [] = (passed, failed)
test_suite_cases_statics passed failed (c ∷ rest) =
    test_suite_cases_statics (passed + c.total_passed) (failed + c.total_failed) rest
