-- ===== src/Tests/Records.antt =====
-- A suite of one case, and what it records.
use tee_io_validator.Common.{ℕ, true, false, [], ◌∷◌, none, some, ◌≡◌, inl, refl, returns}
use tee_io_validator.Results.{
  not_tested, pass, failed, test, CaseResult, GroupResult, ConfigResult, Results, support_func,
  enable_func,
}
use tee_io_validator.Results.Record.{
  on_config, on_group, on_case, read_case, add_totals, new_assertion, record_assertion_result,
  test_case_result,
}
use tee_io_validator.Results.Items.{
  record_item, item_result, UniqueIds, new_item, item_result-record_item, record_item-UniqueIds,
}
use tee_io_validator.Results.Tally.{IsTallied}
use tee_io_validator.Results.Tally.Recorded.{record_assertion_result-records}
use tee_io_validator.Results.Tally.Verdict.{printed_result, test_case_result-eq-printed_result}
use tee_io_validator.Runner.{
  run, Callback, ConfigItem, Config, TestCase, TestGroup, World, assertion, perform_call, perform,
  call, call_asserted, call_unchecked, run_items, do_run_test_config_support,
  do_run_test_config_enable, do_run_test_config_disable, do_run_test_config_check,
}
use tee_io_validator.Runner.Case.{
  setup_step, optional_step, check_step, body_step, done_step, do_run_test_case,
}
use tee_io_validator.Runner.Group.{
  read_group, alloc_run_test_case_result, case_round, case_loop, group_teardown, group_body,
  do_run_test_group,
}
use tee_io_validator.Runner.Suite.{
  alloc_run_test_config_result, read_config, alloc_run_test_group_result, group_round, group_loop,
  config_loop, do_run_test_suite, test_suite_cases_statics,
}
use tee_io_validator.Runner.Statics.{all_passed, all_failed}
use tee_io_validator.Runner.Returns.Suite.{Idle, do_run_test_suite-returns}

abbrev one_case : CaseResult
one_case = record {
  class = [];
  name = [];
  class_id = 1;
  case_id = 2;
  total_passed = 1;
  total_failed = 0;
  config_item_result = [];
  assertion_result = new_assertion 1 2 3 test pass none ∷ [];
}

abbrev one_group : GroupResult
one_group = record {
  name = [];
  total_passed = 1;
  total_failed = 0;
  func_results = λ _. record { result = not_tested; extra_data = [] };
  case_result = one_case ∷ [];
}

abbrev one_config : ConfigResult
one_config = record {
  name = [];
  config_id = 4;
  total_passed = 1;
  total_failed = 0;
  group_result = one_group ∷ [];
}

abbrev one_result : Results
one_result = record {
  configs = one_config ∷ [];
  current_config = some 0;
  current_group = some 0;
  current_case = some 0;
}

record_assertion_result-records_example :
    (s' : Results) × (r' : CaseResult) × (record_assertion_result 1 2 4 test failed none one_result
      ≡ returns s')
    × IsTallied s'
    × (read_case s' ≡ some r')
    × (r'.assertion_result
        ≡ new_assertion 1 2 3 test pass none ∷ new_assertion 1 2 4 test failed none ∷ [])
    × (r'.class_id ≡ 1)
    × (r'.case_id ≡ 2)
unfolding read_case
record_assertion_result-records_example =
    record_assertion_result-records 1 2 4 test failed none one_result one_case
      ((((((refl, refl), tt), refl, refl), tt), refl, refl), tt) refl refl

test_case_result-eq-printed_result_example :
    test_case_result 1 2 one_result ≡ returns (printed_result one_case)
unfolding read_case
test_case_result-eq-printed_result_example =
    test_case_result-eq-printed_result 1 2 one_result {k = 0} {r = one_case} refl refl refl
      (refl, refl) (inl refl, tt)

item_result-record_item_example :
    item_result 5 enable_func (record_item 5 support_func pass (new_item 5 ∷ [])) ≡ not_tested
item_result-record_item_example =
    item_result-record_item 5 5 support_func enable_func pass (new_item 5 ∷ [])

record_item-UniqueIds_example : UniqueIds (record_item 6 support_func pass (new_item 5 ∷ []))
record_item-UniqueIds_example = record_item-UniqueIds 6 support_func pass (new_item 5 ∷ []) (tt, tt)

-- Callbacks that only succeed, and one that records an assertion.
abbrev succeeds : Callback ℕ
succeeds env context = record { calls = []; env = env; action = run; answer = true }

abbrev asserting : Callback ℕ
asserting env context = record {
  calls = assertion 1 2 3 test pass none ∷ [];
  env = env;
  action = run;
  answer = true;
}

abbrev item : ConfigItem ℕ
item = record {
  support_func = some succeeds;
  enable_func = some succeeds;
  disable_func = some succeeds;
  check_func = some succeeds;
}

abbrev config : Config ℕ
config = record { config_id = 4; name = []; config_item = item ∷ [] }

abbrev test_case : TestCase ℕ
test_case = record {
  class = [];
  name = [];
  class_id = 1;
  case_id = 2;
  config_check_required = true;
  setup_func = none;
  run_func = some asserting;
  teardown_func = none;
  action = run;
}

abbrev group : TestGroup ℕ
group = record {
  name = [];
  test_case = test_case ∷ [];
  setup_func = some succeeds;
  teardown_func = some succeeds;
}

abbrev start : World ℕ
start = record {
  env = 0;
  context = record { action = run; config_id = 0; attached = false };
  results = record {
    configs = [];
    current_config = none;
    current_group = none;
    current_case = none;
  };
}

abbrev finish : World ℕ
finish = record {
  env = 0;
  context = record { action = run; config_id = 4; attached = false };
  results = record {
    configs = one_config ∷ [];
    current_config = none;
    current_group = none;
    current_case = none;
  };
}

do_run_test_suite_finishes : do_run_test_suite (config ∷ []) (group ∷ []) start ≡ returns finish
unfolding do_run_test_suite config_loop group_loop group_round alloc_run_test_config_result
    read_config alloc_run_test_group_result do_run_test_group group_body group_teardown case_loop
    case_round alloc_run_test_case_result read_group do_run_test_case done_step body_step check_step
    optional_step setup_step do_run_test_config_support do_run_test_config_enable
    do_run_test_config_disable do_run_test_config_check run_items call_unchecked call_asserted call
    perform perform_call record_assertion_result add_totals read_case on_case on_group on_config
do_run_test_suite_finishes = refl

do_run_test_suite-returns_example :
    (w' : World ℕ) × (do_run_test_suite (config ∷ []) (group ∷ []) start ≡ returns w')
    × Idle w'.results
    × (test_suite_cases_statics 0 0 w'.results.configs
        ≡ (all_passed w'.results.configs, all_failed w'.results.configs))
do_run_test_suite-returns_example =
    do_run_test_suite-returns (config ∷ []) (group ∷ []) start
      (
        (
          (
            λ env context. tt,
            λ env context. tt,
            (
              (
                (
                  λ e. absurd cc,
                  (λ env context. tt, tt),
                  (λ env context. tt, tt),
                  (λ env context. tt, tt),
                  (λ env context. tt, tt),
                ),
                (tt, λ env context. ((refl, refl), tt), tt),
              ),
              tt,
            ),
          ),
          tt,
        ),
        tt,
      )
      ([], refl) refl
