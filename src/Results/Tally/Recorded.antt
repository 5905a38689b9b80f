-- ===== src/Results/Tally/Recorded.antt =====
-- What one call of `teeio_record_assertion_result` does to the current case.
use tee_io_validator.Common.{
  ℕ, true, List, Option, some, ◌≡◌, refl, returns, get_elem?, get_elem?-modify, append, modify,
}
use tee_io_validator.Results.{
  Bytes, TestResult, not_tested, pass, failed, AssertionType, AssertionResult, CaseResult,
  GroupResult, ConfigResult, Results,
}
use tee_io_validator.Results.Record.{record_assertion_result, read_case, same_case, new_assertion}
use tee_io_validator.Results.Tally.{IsTallied, record_assertion_result-IsTallied}
use tee_io_validator.Results.Tally.Route.{
  route_of, config_step, group_step, case_step, record_assertion_result-step, at,
}

pub read_case-at :
    (configs : List ConfigResult) (i j k : ℕ) {c : ConfigResult} {g : GroupResult} {r : CaseResult}
    → get_elem? configs i ≡ some c
    → get_elem? c.group_result j ≡ some g
    → get_elem? g.case_result k ≡ some r
    → read_case (at configs i j k) ≡ some r
unfolding read_case
read_case-at configs i j k a b e = rw (read_case, a) (rw b e)

pub case_step-log :
    (result : TestResult) (ar : AssertionResult) (r : CaseResult)
    → ((case_step result ar r).assertion_result ≡ append r.assertion_result ar)
      × ((case_step result ar r).class_id ≡ r.class_id)
      × ((case_step result ar r).case_id ≡ r.case_id)
case_step-log not_tested ar r = (refl, refl, refl)
case_step-log pass ar r = (refl, refl, refl)
case_step-log failed ar r = (refl, refl, refl)

-- With tallied counters and a current case of the ids that are passed, recording an assertion
-- returns. The assertion is then the last of the same case, which keeps its ids and stays the
-- current one, and every counter is equal to what was recorded below it.
pub record_assertion_result-records :
    (case_class case_id assertion_id : ℕ) (type : AssertionType) (result : TestResult)
    (message : Option Bytes) (s : Results) (r : CaseResult)
    → IsTallied s
    → read_case s ≡ some r
    → same_case case_class case_id r ≡ true
    → (s' : Results) × (r' : CaseResult) × (record_assertion_result case_class case_id assertion_id
          type result message s
        ≡ returns s')
      × IsTallied s'
      × (read_case s' ≡ some r')
      × (r'.assertion_result
          ≡ append r.assertion_result
              (new_assertion case_class case_id assertion_id type result message))
      × (r'.class_id ≡ r.class_id)
      × (r'.case_id ≡ r.case_id)
record_assertion_result-records case_class case_id assertion_id type result message s r t found
      same =
    let p = route_of s found in
    let ar = new_assertion case_class case_id assertion_id type result message in
    let e =
      record_assertion_result-step case_class case_id assertion_id type result message s p found
        same in
    let (log, class, id) = case_step-log result ar r in
    (
      at (modify s.configs p.i (config_step result ar p.j p.k)) p.i p.j p.k,
      case_step result ar r,
      e,
      record_assertion_result-IsTallied case_class case_id assertion_id type result message s t e,
      read_case-at _ p.i p.j p.k
          (get_elem?-modify s.configs p.i (config_step result ar p.j p.k) p.get_config)
          (get_elem?-modify p.config.group_result p.j (group_step result ar p.k) p.get_group)
          (get_elem?-modify p.group.case_result p.k (case_step result ar) p.get_case),
      log,
      class,
      id,
    )
