-- ===== src/Results/Tally/Verdict.antt =====
-- `teeio_test_case_result` against the counters from which `print_test_results` of
-- teeio-validator/teeio_validator/ide_test.c derives the printed result of a case.
use tee_io_validator.Common.{
  ℕ, ◌+◌, true, ◌&&◌, List, [], ◌∷◌, some, ◌≡◌, ◌⊎◌, refl, arith, ltb, ◌==◌, if◌then◌else◌, All,
  sum_of, returns,
}
use tee_io_validator.Results.{
  TestResult, not_tested, pass, failed, test, AssertionResult, CaseResult, Results,
}
use tee_io_validator.Results.Record.{count_tests, test_case_result, read_case, same_case}
use tee_io_validator.Results.Tally.{is_pass, is_failed, CaseTallied}

-- The printed result of a case: from its two counters.
unfoldable pub printed_result : CaseResult → TestResult
printed_result r =
    if r.total_failed == 0 && (r.total_passed == 0)
    then not_tested
    else if r.total_failed == 0 && ltb 0 r.total_passed
    then pass
    else failed

-- Only assertions of the type `test` carry a result, as every caller in the program has it:
-- separators are recorded log not tested.
abbrev pub OnlyTests : List AssertionResult → Type 0
OnlyTests = All (λ a. (a.type ≡ test) ⊎ (a.result ≡ not_tested))

abbrev test_pass : AssertionResult → ℕ
test_pass a = elim a.type [ test ↦ is_pass a | _ ↦ 0 ]

abbrev test_failed : AssertionResult → ℕ
test_failed a = elim a.type [ test ↦ is_failed a | _ ↦ 0 ]

count_tests-eq-sums :
    (log : List AssertionResult) (p f : ℕ)
    → count_tests p f log ≡ (p + sum_of test_pass log, f + sum_of test_failed log)
unfolding count_tests
count_tests-eq-sums [] p f = ground arith
count_tests-eq-sums (a ∷ log) p f = ground (
  arith,
  count_tests-eq-sums log p f,
  count_tests-eq-sums log (p + 1) f,
  count_tests-eq-sums log p (f + 1),
)

sums_of_OnlyTests :
    (log : List AssertionResult)
    → OnlyTests log
    → (sum_of test_pass log ≡ sum_of is_pass log) × (sum_of test_failed log ≡ sum_of is_failed log)
sums_of_OnlyTests [] h = (refl, refl)
sums_of_OnlyTests (a ∷ log) h = ground (arith, sums_of_OnlyTests log h.1)

-- For a case whose counters are tallied and whose results all stand in test assertions, the
-- result of `teeio_test_case_result` is the one that is printed.
pub test_case_result-eq-printed_result :
    (case_class case_id : ℕ) (s : Results) {k : ℕ} {r : CaseResult}
    → s.current_case ≡ some k
    → read_case s ≡ some r
    → same_case case_class case_id r ≡ true
    → CaseTallied r
    → OnlyTests r.assertion_result
    → test_case_result case_class case_id s ≡ returns (printed_result r)
unfolding test_case_result printed_result
test_case_result-eq-printed_result case_class case_id s {k} {r} now found same tallied only =
    ground
      (arith, count_tests-eq-sums r.assertion_result 0 0, sums_of_OnlyTests r.assertion_result only)
