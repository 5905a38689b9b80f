-- ===== src/Runner/Statics.antt =====
-- `test_suite_cases_statics` of teeio-validator/teeio_validator/ide_test.c after a run.
use tee_io_validator.Common.{
  ℕ, ◌+◌, List, [], ◌∷◌, ◌≡◌, refl, arith, returns, All, sum_of, ◌∙◌, Ensures-returns,
}
use tee_io_validator.Results.{CaseResult, GroupResult, ConfigResult}
use tee_io_validator.Results.Tally.{
  IsTallied, CaseTallied, GroupTallied, ConfigTallied, case_passed, case_failed, group_passed,
  group_failed, is_pass, is_failed,
}
use tee_io_validator.Runner.{Config, TestGroup, World}
use tee_io_validator.Runner.Suite.{do_run_test_suite, test_suite_cases_statics}
use tee_io_validator.Runner.Tally.{Tallied}
use tee_io_validator.Runner.Tally.Suite.{config_loop-Tallied}

-- The assertions below a configuration that passed or failed, counted one by one.
abbrev pub all_passed : List ConfigResult → ℕ
all_passed =
    sum_of λ c.
      sum_of (λ g. sum_of (λ r. sum_of is_pass r.assertion_result) g.case_result) c.group_result

abbrev pub all_failed : List ConfigResult → ℕ
all_failed = sum_of λ c.
    sum_of (λ g. sum_of (λ r. sum_of is_failed r.assertion_result) g.case_result) c.group_result

cases_counted :
    (rs : List CaseResult)
    → All CaseTallied rs
    → (sum_of case_passed rs ≡ sum_of (λ r. sum_of is_pass r.assertion_result) rs)
      × (sum_of case_failed rs ≡ sum_of (λ r. sum_of is_failed r.assertion_result) rs)
cases_counted [] t = (refl, refl)
cases_counted (r ∷ rs) t = omega (arith, cases_counted rs t.1, t.0)

groups_counted :
    (gs : List GroupResult)
    → All GroupTallied gs
    → (sum_of group_passed gs
        ≡ sum_of (λ g. sum_of (λ r. sum_of is_pass r.assertion_result) g.case_result) gs)
      × (sum_of group_failed gs
          ≡ sum_of (λ g. sum_of (λ r. sum_of is_failed r.assertion_result) g.case_result) gs)
groups_counted [] t = (refl, refl)
groups_counted (g ∷ gs) t = omega (arith, groups_counted gs t.1, cases_counted g.case_result t.0.0)

test_suite_cases_statics-eq :
    (cs : List ConfigResult) (p f : ℕ)
    → All ConfigTallied cs
    → test_suite_cases_statics p f cs ≡ (p + all_passed cs, f + all_failed cs)
unfolding test_suite_cases_statics
test_suite_cases_statics-eq [] p f t = ground arith
test_suite_cases_statics-eq (c ∷ cs) p f t =
    let ih = test_suite_cases_statics-eq cs (p + c.total_passed) (f + c.total_failed) t.1 in
    let counted = groups_counted c.group_result t.0.0 in
    let passed : p + c.total_passed + all_passed cs ≡ p + all_passed (c ∷ cs) =
      omega (arith, counted, t.0.1) in
    let failed : f + c.total_failed + all_failed cs ≡ f + all_failed (c ∷ cs) =
      omega (arith, counted, t.0.2) in
    ih ∙ (λ i. (passed i, failed i))

-- After a run that returns and began with no results, `test_suite_cases_statics` reports the
-- number of assertions that were recorded as passed and as failed, in every case of the suite.
pub do_run_test_suite-statics :
    {E : Type 0} (configs : List (Config E)) (groups : List (TestGroup E)) (w : World E)
    {w' : World E}
    → w.results.configs ≡ []
    → do_run_test_suite configs groups w ≡ returns w'
    → test_suite_cases_statics 0 0 w'.results.configs
      ≡ (all_passed w'.results.configs, all_failed w'.results.configs)
unfolding do_run_test_suite
do_run_test_suite-statics configs groups w {w'} fresh done =
    let tallied : IsTallied w.results = rw fresh tt in
    test_suite_cases_statics-eq w'.results.configs 0 0
      (Ensures-returns Tallied _ done (config_loop-Tallied configs groups w tallied))
    ∙ ground arith
