-- ===== src/Results/Tally/Route.antt =====
-- The path of the three globals, and `record_assertion_result` as one change along it.
use tee_io_validator.Common.{
  List, and_then-eq-some, ℕ, true, Option, some, ◌≡◌, refl, ap, ◌∙◌, arith, get_elem?, modify,
  modify-modify, returns, ◌>>=◌,
}
use tee_io_validator.Results.{
  Bytes, TestResult, not_tested, pass, failed, AssertionType, AssertionResult, CaseResult,
  GroupResult, ConfigResult, Results,
}
use tee_io_validator.Results.Record.{
  on_case, read_case, same_case, record_assertion_result, add_totals, config_add, group_add,
  case_add, push_assertion, new_assertion,
}

abbrev pub at : List ConfigResult → ℕ → ℕ → ℕ → Results
at configs i j k = record {
  configs = configs;
  current_config = some i;
  current_group = some j;
  current_case = some k;
}

-- The globals lead to the case result `r`.
pub record Reached (s : Results) (r : CaseResult) : Type 0 where
  pub i : ℕ
  pub j : ℕ
  pub k : ℕ
  pub config : ConfigResult
  pub group : GroupResult
  pub at_case : s.current_case ≡ some k
  pub whole : s ≡ at s.configs i j k
  pub get_config : get_elem? s.configs i ≡ some config
  pub get_group : get_elem? config.group_result j ≡ some group
  pub get_case : get_elem? group.case_result k ≡ some r

pub route_of : (s : Results) {r : CaseResult} → read_case s ≡ some r → Reached s r
unfolding read_case
route_of s h =
    let (i, at_i, h) = and_then-eq-some _ _ h in
    let (config, get_config, h) = and_then-eq-some _ _ h in
    let (j, at_j, h) = and_then-eq-some _ _ h in
    let (group, get_group, h) = and_then-eq-some _ _ h in
    let (k, at_k, get_case) = and_then-eq-some _ _ h in
    record {
      i = i;
      j = j;
      k = k;
      config = config;
      group = group;
      at_case = at_k;
      whole = λ n. record {
        configs = s.configs;
        current_config = at_i n;
        current_group = at_j n;
        current_case = at_k n;
      };
      get_config = get_config;
      get_group = get_group;
      get_case = get_case;
    }

abbrev pub case_step : TestResult → AssertionResult → CaseResult → CaseResult
case_step result ar r = case_add result (push_assertion ar r)

abbrev pub group_step : TestResult → AssertionResult → ℕ → GroupResult → GroupResult
group_step result ar k g =
    let g' = group_add result g in
    record g' { case_result = modify g.case_result k (case_step result ar) }

abbrev pub config_step : TestResult → AssertionResult → ℕ → ℕ → ConfigResult → ConfigResult
config_step result ar j k c =
    let c' = config_add result c in
    record c' { group_result = modify c.group_result j (group_step result ar k) }

steps :
    (result : TestResult) (ar : AssertionResult) (xs : List ConfigResult) (i j k : ℕ)
    → (on_case (push_assertion ar) (at xs i j k) >>= λ s'. add_totals result s')
      ≡ returns (at (modify xs i (config_step result ar j k)) i j k)
unfolding add_totals
steps not_tested ar xs i j k = refl
steps pass ar xs i j k = simp modify-modify
steps failed ar xs i j k = simp modify-modify

record_assertion_result-enters :
    (case_class case_id assertion_id : ℕ) (type : AssertionType) (result : TestResult)
    (message : Option Bytes) (s : Results) {k : ℕ} {r : CaseResult}
    → s.current_case ≡ some k
    → read_case s ≡ some r
    → same_case case_class case_id r ≡ true
    → record_assertion_result case_class case_id assertion_id type result message s ≡ (
        on_case
          (push_assertion (new_assertion case_class case_id assertion_id type result message))
          s
        >>= λ s'. add_totals result s')
unfolding record_assertion_result
record_assertion_result-enters case_class case_id assertion_id type result message s now found
      same =
    ground arith

-- The change that a recorded assertion makes.
pub record_assertion_result-step :
    (case_class case_id assertion_id : ℕ) (type : AssertionType) (result : TestResult)
    (message : Option Bytes) (s : Results) {r : CaseResult} (p : Reached s r)
    → read_case s ≡ some r
    → same_case case_class case_id r ≡ true
    → record_assertion_result case_class case_id assertion_id type result message s
      ≡ returns (
          at
            (modify s.configs p.i (
              config_step result
                (new_assertion case_class case_id assertion_id type result message)
                p.j
                p.k))
            p.i
            p.j
            p.k)
record_assertion_result-step case_class case_id assertion_id type result message s p found same =
    let ar = new_assertion case_class case_id assertion_id type result message in
    record_assertion_result-enters case_class case_id assertion_id type result message s p.at_case
      found same
    ∙ ap (λ z. on_case (push_assertion ar) z >>= λ s'. add_totals result s') p.whole
    ∙ steps result ar s.configs p.i p.j p.k

-- Nothing is returned unless the current case exists and has the ids.
pub record_assertion_result-guard :
    (case_class case_id assertion_id : ℕ) (type : AssertionType) (result : TestResult)
    (message : Option Bytes) (s : Results) {s' : Results}
    → record_assertion_result case_class case_id assertion_id type result message s ≡ returns s'
    → (r : CaseResult) × (read_case s ≡ some r) × (same_case case_class case_id r ≡ true)
unfolding record_assertion_result
record_assertion_result-guard case_class case_id assertion_id type result message s h = ground arith
