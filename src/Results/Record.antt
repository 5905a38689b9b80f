-- ===== src/Results/Record.antt =====
-- `teeio_record_assertion_result`, `teeio_test_case_result` and `teeio_record_group_result` of
-- teeio-validator/library/helperlib/teeio_common.c. Messages come already formatted.
use tee_io_validator.Common.{
  ℕ, ◌+◌, ◌-◌, Bool, true, false, not, ◌&&◌, ◌||◌, List, [], ◌∷◌, Option, none, some, ltb, ◌==◌,
  if◌then◌else◌, get_elem?, modify, append, take, Outcome, returns, asserts, faults, ◌>>=◌,
  and_then,
}
use tee_io_validator.Results.{
  Bytes, TestResult, not_tested, pass, failed, AssertionType, test, GroupFunc, setup_func,
  teardown_func, AssertionResult, CaseResult, GroupFuncResult, GroupResult, ConfigResult, Results,
}

abbrev pub max_line_length : ℕ
max_line_length = 512

-- `vsnprintf` into a buffer of `max_line_length` bytes that was cleared; NULL writes nothing.
abbrev pub extra_data_of : Option Bytes → Bytes → Bytes
extra_data_of none old = old
extra_data_of (some message) old = take (max_line_length - 1) message

-- A change of `*g_current_config_result`, and so on down the path.
unfoldable pub on_config : (ConfigResult → ConfigResult) → Results → Outcome Results
on_config f s = elim s.current_config [
  | none ↦ faults
  | some i ↦ returns (record s { configs = modify s.configs i f })
]

unfoldable pub on_group : (GroupResult → GroupResult) → Results → Outcome Results
unfolding on_config
on_group f s = elim s.current_group [
  | none ↦ faults
  | some j ↦ on_config (λ c. record c { group_result = modify c.group_result j f }) s
]

unfoldable pub on_case : (CaseResult → CaseResult) → Results → Outcome Results
unfolding on_group
on_case f s = elim s.current_case [
  | none ↦ faults
  | some k ↦ on_group (λ g. record g { case_result = modify g.case_result k f }) s
]

-- `*g_current_case_result`, where the path leads to one.
unfoldable pub read_case : Results → Option CaseResult
read_case s = and_then s.current_config λ i. and_then (get_elem? s.configs i) λ c.
    and_then s.current_group λ j.
      and_then (get_elem? c.group_result j)
        λ g. and_then s.current_case λ k. get_elem? g.case_result k

-- The check with which both functions on the current case begin: NULL, or another case's ids.
abbrev pub same_case : ℕ → ℕ → CaseResult → Bool
same_case case_class case_id r = not (not (r.class_id == case_class) || not (r.case_id == case_id))

abbrev pub config_add : TestResult → ConfigResult → ConfigResult
config_add not_tested c = c
config_add pass c = record c { total_passed = c.total_passed + 1 }
config_add failed c = record c { total_failed = c.total_failed + 1 }

abbrev pub group_add : TestResult → GroupResult → GroupResult
group_add not_tested g = g
group_add pass g = record g { total_passed = g.total_passed + 1 }
group_add failed g = record g { total_failed = g.total_failed + 1 }

abbrev pub case_add : TestResult → CaseResult → CaseResult
case_add not_tested r = r
case_add pass r = record r { total_passed = r.total_passed + 1 }
case_add failed r = record r { total_failed = r.total_failed + 1 }

-- The three counters are increased in this order; a skipped assertion increases none.
unfoldable pub add_totals : TestResult → Results → Outcome Results
unfolding on_config on_group on_case
add_totals not_tested s = returns s
add_totals result s = do
  s' ← on_config (config_add result) s
  s'' ← on_group (group_add result) s'
  on_case (case_add result) s''

abbrev pub new_assertion : ℕ → ℕ → ℕ → AssertionType → TestResult → Option Bytes → AssertionResult
new_assertion case_class case_id assertion_id type result message = record {
  type = type;
  class_id = case_class;
  case_id = case_id;
  assertion_id = assertion_id;
  result = result;
  extra_data = extra_data_of message [];
}

abbrev pub push_assertion : AssertionResult → CaseResult → CaseResult
push_assertion ar r = record r { assertion_result = append r.assertion_result ar }

unfoldable pub record_assertion_result :
    ℕ → ℕ → ℕ → AssertionType → TestResult → Option Bytes → Results → Outcome Results
record_assertion_result case_class case_id assertion_id type result message s =
    elim s.current_case [
      | none ↦ asserts
      | some k ↦ elim (read_case s) [
        | none ↦ faults
        | some r ↦
            if not (same_case case_class case_id r)
            then asserts
            else on_case
                (push_assertion (new_assertion case_class case_id assertion_id type result message))
                s
              >>= λ s'. add_totals result s'
      ]
    ]

-- The loop of `teeio_test_case_result` over the assertions, with its counters `pass` and `failed`.
unfoldable pub count_tests : ℕ → ℕ → List AssertionResult → ℕ × ℕ
count_tests p f [] = (p, f)
count_tests p f (a ∷ rest) = elim a.type [
  | test ↦ elim a.result [
    | pass ↦ count_tests (p + 1) f rest
    | failed ↦ count_tests p (f + 1) rest
    | not_tested ↦ count_tests p f rest
  ]
  | _ ↦ count_tests p f rest
]

abbrev pub result_of_counts : ℕ × ℕ → TestResult
result_of_counts c =
    if ltb 0 c.1 then failed else if ltb 0 c.0 && (c.1 == 0) then pass else not_tested

unfoldable pub test_case_result : ℕ → ℕ → Results → Outcome TestResult
test_case_result case_class case_id s = elim s.current_case [
  | none ↦ returns not_tested
  | some k ↦ elim (read_case s) [
    | none ↦ faults
    | some r ↦
        if not (same_case case_class case_id r)
        then asserts
        else returns (result_of_counts (count_tests 0 0 r.assertion_result))
  ]
]

abbrev pub group_func_eq : GroupFunc → GroupFunc → Bool
group_func_eq setup_func setup_func = true
group_func_eq teardown_func teardown_func = true
group_func_eq _ _ = false

abbrev pub put_group_func :
    GroupFunc
    → TestResult
    → Option Bytes
    → (GroupFunc → GroupFuncResult)
    → GroupFunc
    → GroupFuncResult
put_group_func func result message old f =
    if group_func_eq func f
    then record { result = result; extra_data = extra_data_of message (old func).extra_data }
    else old f

-- The `bool` says whether a group is current. `func` is one of the two functions, so the test
-- of its bound always passes.
unfoldable pub record_group_result :
    GroupFunc → TestResult → Option Bytes → Results → Outcome (Bool × Results)
unfolding on_group
record_group_result func result message s = elim s.current_group [
  | none ↦ returns (false, s)
  | some j ↦
      on_group (λ g. record g { func_results = put_group_func func result message g.func_results })
        s
      >>= λ s'. returns (true, s')
]
