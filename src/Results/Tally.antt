-- ===== src/Results/Tally.antt =====
-- The counters of `teeio_record_assertion_result` agree with the assertions that were recorded.
pub mod Route
pub mod Verdict
pub mod Recorded
use mathlib.Core.Path.{subst}
use tee_io_validator.Common.{
  ℕ, suc, ◌+◌, Bool, true, false, List, [], ◌∷◌, ◌++◌, Option, none, some, ◌≡◌, refl, arith,
  get_elem?, modify, append, All, sum_of, sum_of-modify, sum_of-append, All-modify, All-get_elem?,
  get_elem?-modify, Outcome, returns,
}
use tee_io_validator.Results.{
  Bytes, TestResult, not_tested, pass, failed, AssertionType, AssertionResult, CaseResult,
  GroupResult, ConfigResult, Results,
}
use tee_io_validator.Results.Record.{
  record_assertion_result, config_add, group_add, case_add, push_assertion, new_assertion,
}
use Route.{
  Reached, route_of, config_step, group_step, case_step, record_assertion_result-step,
  record_assertion_result-guard, at,
}

-- 1 where the assertion has the result, and 0 elsewhere.
abbrev pub is_pass : AssertionResult → ℕ
is_pass a = elim a.result [ pass ↦ 1 | _ ↦ 0 ]

abbrev pub is_failed : AssertionResult → ℕ
is_failed a = elim a.result [ failed ↦ 1 | _ ↦ 0 ]

abbrev pub CaseTallied : CaseResult → Type 0
CaseTallied r =
    (r.total_passed ≡ sum_of is_pass r.assertion_result)
    × (r.total_failed ≡ sum_of is_failed r.assertion_result)

abbrev pub case_passed : CaseResult → ℕ
case_passed r = r.total_passed

abbrev pub case_failed : CaseResult → ℕ
case_failed r = r.total_failed

abbrev pub GroupTallied : GroupResult → Type 0
GroupTallied g =
    All CaseTallied g.case_result
    × (g.total_passed ≡ sum_of case_passed g.case_result)
    × (g.total_failed ≡ sum_of case_failed g.case_result)

abbrev pub group_passed : GroupResult → ℕ
group_passed g = g.total_passed

abbrev pub group_failed : GroupResult → ℕ
group_failed g = g.total_failed

abbrev pub ConfigTallied : ConfigResult → Type 0
ConfigTallied c =
    All GroupTallied c.group_result
    × (c.total_passed ≡ sum_of group_passed c.group_result)
    × (c.total_failed ≡ sum_of group_failed c.group_result)

abbrev pub IsTallied : Results → Type 0
IsTallied s = All ConfigTallied s.configs

case_step-CaseTallied :
    (result : TestResult) (ar : AssertionResult) (r : CaseResult)
    → ar.result ≡ result
    → CaseTallied r
    → CaseTallied (case_step result ar r)
case_step-CaseTallied not_tested ar r e t = ground (
  arith,
  sum_of-append is_pass r.assertion_result (ar ∷ []),
  sum_of-append is_failed r.assertion_result (ar ∷ []),
)
case_step-CaseTallied pass ar r e t = ground (
  arith,
  sum_of-append is_pass r.assertion_result (ar ∷ []),
  sum_of-append is_failed r.assertion_result (ar ∷ []),
)
case_step-CaseTallied failed ar r e t = ground (
  arith,
  sum_of-append is_pass r.assertion_result (ar ∷ []),
  sum_of-append is_failed r.assertion_result (ar ∷ []),
)

case_step_counts :
    (result : TestResult) (ar : AssertionResult) (r : CaseResult)
    → (case_passed (case_step result ar r)
        ≡ case_passed r + is_pass (record ar { result = result }))
      × (case_failed (case_step result ar r)
          ≡ case_failed r + is_failed (record ar { result = result }))
case_step_counts not_tested ar r = omega arith
case_step_counts pass ar r = omega arith
case_step_counts failed ar r = omega arith

group_step_counts :
    (result : TestResult) (ar : AssertionResult) (k : ℕ) (g : GroupResult)
    → (group_passed (group_step result ar k g)
        ≡ group_passed g + is_pass (record ar { result = result }))
      × (group_failed (group_step result ar k g)
          ≡ group_failed g + is_failed (record ar { result = result }))
group_step_counts not_tested ar k g = omega arith
group_step_counts pass ar k g = omega arith
group_step_counts failed ar k g = omega arith

config_step_counts :
    (result : TestResult) (ar : AssertionResult) (j k : ℕ) (c : ConfigResult)
    → ((config_step result ar j k c).total_passed
        ≡ c.total_passed + is_pass (record ar { result = result }))
      × ((config_step result ar j k c).total_failed
          ≡ c.total_failed + is_failed (record ar { result = result }))
config_step_counts not_tested ar j k c = omega arith
config_step_counts pass ar j k c = omega arith
config_step_counts failed ar j k c = omega arith

group_step_cases :
    (result : TestResult) (ar : AssertionResult) (k : ℕ) (g : GroupResult)
    → (group_step result ar k g).case_result ≡ modify g.case_result k (case_step result ar)
group_step_cases result ar k g = refl

group_step-GroupTallied :
    (result : TestResult) (ar : AssertionResult) (k : ℕ) (g : GroupResult) {r : CaseResult}
    → ar.result ≡ result
    → get_elem? g.case_result k ≡ some r
    → GroupTallied g
    → GroupTallied (group_step result ar k g)
group_step-GroupTallied result ar k g {r} e found (cases, passed, failures) =
    let step = case_step result ar in
    (
      All-modify CaseTallied g.case_result k step (λ x _ t. case_step-CaseTallied result ar x e t)
          cases,
      omega (
        arith,
        sum_of-modify case_passed g.case_result k step found,
        case_step_counts result ar r,
        group_step_counts result ar k g,
      ),
      omega (
        arith,
        sum_of-modify case_failed g.case_result k step found,
        case_step_counts result ar r,
        group_step_counts result ar k g,
      ),
    )

config_step-ConfigTallied :
    (result : TestResult) (ar : AssertionResult) (j k : ℕ) (c : ConfigResult) {g : GroupResult}
    {r : CaseResult}
    → ar.result ≡ result
    → get_elem? c.group_result j ≡ some g
    → get_elem? g.case_result k ≡ some r
    → ConfigTallied c
    → ConfigTallied (config_step result ar j k c)
config_step-ConfigTallied result ar j k c {g} {r} e found inside (groups, passed, failures) =
    let step = group_step result ar k in
    (
      All-modify GroupTallied c.group_result j step
          (λ x h t. group_step-GroupTallied result ar k x {r = r} e (cc) t) groups,
      omega (
        arith,
        sum_of-modify group_passed c.group_result j step found,
        group_step_counts result ar k g,
        config_step_counts result ar j k c,
      ),
      omega (
        arith,
        sum_of-modify group_failed c.group_result j step found,
        group_step_counts result ar k g,
        config_step_counts result ar j k c,
      ),
    )

-- Recording an assertion keeps every counter equal to what was recorded below it, if it returns.
pub record_assertion_result-IsTallied :
    (case_class case_id assertion_id : ℕ) (type : AssertionType) (result : TestResult)
    (message : Option Bytes) (s : Results) {s' : Results}
    → IsTallied s
    → record_assertion_result case_class case_id assertion_id type result message s ≡ returns s'
    → IsTallied s'
record_assertion_result-IsTallied case_class case_id assertion_id type result message s {s'} t h =
    let (r, found, same) =
      record_assertion_result-guard case_class case_id assertion_id type result message s h in
    let p = route_of s found in
    let ar = new_assertion case_class case_id assertion_id type result message in
    let s'' = at (modify s.configs p.i (config_step result ar p.j p.k)) p.i p.j p.k in
    let e : s'' ≡ s' = cc (
      record_assertion_result-step case_class case_id assertion_id type result message s p found
        same) in
    subst IsTallied e (
      All-modify ConfigTallied s.configs p.i (config_step result ar p.j p.k)
        (λ c at_c tc.
          config_step-ConfigTallied result ar p.j p.k c {g = p.group} refl
            (cc (p.get_config, p.get_group)) p.get_case tc)
        t)
