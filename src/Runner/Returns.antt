-- ===== src/Runner/Returns.antt =====
-- Calls of callbacks that record only for the current case: they return, and the globals still
-- lead to that case.
pub mod Case
pub mod Group
pub mod Suite
use mathlib.Core.Path.{subst, sym}
use tee_io_validator.Common.{
  ℕ, true, List, [], ◌∷◌, Option, none, some, ◌≡◌, refl, get_elem?, modify, get_elem?-modify, All,
  Outcome, returns, asserts, faults, ◌>>=◌, and_then,
}
use tee_io_validator.Results.{CaseResult, GroupResult, ConfigResult, Results}
use tee_io_validator.Results.Record.{
  on_config, on_group, on_case, read_case, same_case, record_assertion_result, record_group_result,
  put_group_func, new_assertion,
}
use tee_io_validator.Results.Items.{record_item, record_config_item_result}
use tee_io_validator.Results.Tally.Route.{
  at, Reached, config_step, group_step, case_step, record_assertion_result-step,
}
use tee_io_validator.Results.Tally.Recorded.{case_step-log, read_case-at}
use tee_io_validator.Runner.{
  Call, assertion, config_item, group_func, Callback, World, perform_call, perform, call,
}

-- The call returns, with a value for which `P` holds.
abbrev pub Returns {ℓ} : {A : Type ℓ} → (A → Type 0) → Outcome A → Type 0
Returns P (returns a) = P a
Returns P asserts = ⊥
Returns P faults = ⊥

pub Returns->>= {ℓ κ} :
    {A : Type ℓ} {B : Type κ} (Q : A → Type 0) (P : B → Type 0) (m : Outcome A) (f : A → Outcome B)
    → Returns Q m
    → ((a : A) → Q a → Returns P (f a))
    → Returns P (m >>= f)
Returns->>= Q P (returns a) f h k = k a h
Returns->>= Q P asserts f h k = h
Returns->>= Q P faults f h k = h

-- The path leads to a case with the ids.
abbrev pub Here : ℕ → ℕ → ℕ → ℕ → ℕ → List ConfigResult → Type 0
Here class_id case_id i j k configs =
    (c : ConfigResult) × (g : GroupResult) × (r : CaseResult) × (get_elem? configs i ≡ some c)
    × (get_elem? c.group_result j ≡ some g)
    × (get_elem? g.case_result k ≡ some r)
    × (same_case class_id case_id r ≡ true)

abbrev pub AtCase : ℕ → ℕ → ℕ → ℕ → ℕ → Results → Type 0
AtCase class_id case_id i j k s =
    (configs : List ConfigResult) × (s ≡ at configs i j k) × Here class_id case_id i j k configs

-- Assertions are recorded with the ids of the case.
abbrev pub ForCase : ℕ → ℕ → Call → Type 0
ForCase class_id case_id (assertion c n id type result message) = (c ≡ class_id) × (n ≡ case_id)
ForCase class_id case_id (config_item id func result) = Unit
ForCase class_id case_id (group_func func result message) = Unit

module _ (class_id case_id i j k : ℕ) where
  perform_call-AtCase :
      (c : Call) (configs : List ConfigResult)
      → ForCase class_id case_id c
      → Here class_id case_id i j k configs
      → Returns (AtCase class_id case_id i j k) (perform_call c (at configs i j k))
  unfolding perform_call record_config_item_result record_group_result on_case
  perform_call-AtCase (assertion a n id type result message) configs (ea, en)
        (c, g, r, at_c, at_g, at_r, same) =
      let ar = new_assertion a n id type result message in
      let p : Reached (at configs i j k) r = record {
        i = i;
        j = j;
        k = k;
        config = c;
        group = g;
        at_case = refl;
        whole = refl;
        get_config = at_c;
        get_group = at_g;
        get_case = at_r;
      } in
      let same' : same_case a n r ≡ true = rw (ea, en) same in
      let (log, class, number) = case_step-log result ar r in
      let kept : same_case class_id case_id (case_step result ar r) ≡ true =
        rw (class, number) same in
      rw
        (record_assertion_result-step a n id type result message (at configs i j k) p
          (read_case-at configs i j k at_c at_g at_r) same')
        (
          modify configs i (config_step result ar j k),
          refl,
          (
            config_step result ar j k c,
            group_step result ar k g,
            case_step result ar r,
            get_elem?-modify configs i (config_step result ar j k) at_c,
            get_elem?-modify c.group_result j (group_step result ar k) at_g,
            get_elem?-modify g.case_result k (case_step result ar) at_r,
            kept,
          ),
        )
  perform_call-AtCase (config_item id func result) configs f (c, g, r, at_c, at_g, at_r, same) =
      let step_case = λ (x : CaseResult). record x {
        config_item_result = record_item id func result x.config_item_result;
      } in
      let step_group =
        λ (x : GroupResult). record x { case_result = modify x.case_result k step_case } in
      let step_config =
        λ (x : ConfigResult). record x { group_result = modify x.group_result j step_group } in
      (
        modify configs i step_config,
        refl,
        (
          step_config c,
          step_group g,
          step_case r,
          get_elem?-modify configs i step_config at_c,
          get_elem?-modify c.group_result j step_group at_g,
          get_elem?-modify g.case_result k step_case at_r,
          same,
        ),
      )
  perform_call-AtCase (group_func func result message) configs f (c, g, r, at_c, at_g, at_r, same) =
      let step_group = λ (x : GroupResult). record x {
        func_results = put_group_func func result message x.func_results;
      } in
      let step_config =
        λ (x : ConfigResult). record x { group_result = modify x.group_result j step_group } in
      (
        modify configs i step_config,
        refl,
        (
          step_config c,
          step_group g,
          r,
          get_elem?-modify configs i step_config at_c,
          get_elem?-modify c.group_result j step_group at_g,
          at_r,
          same,
        ),
      )

  perform-AtCase :
      (calls : List Call) (s : Results)
      → All (ForCase class_id case_id) calls
      → AtCase class_id case_id i j k s
      → Returns (AtCase class_id case_id i j k) (perform calls s)
  unfolding perform
  perform-AtCase [] s f h = h
  perform-AtCase (c ∷ cs) s (f, fs) (configs, e, here) =
      Returns->>= (AtCase class_id case_id i j k) (AtCase class_id case_id i j k) (perform_call c s)
        (perform cs)
        (subst (λ x. Returns (AtCase class_id case_id i j k) (perform_call c x)) (sym e)
          (perform_call-AtCase c configs f here))
        (λ s' h. perform-AtCase cs s' fs h)

  abbrev pub WorldAt : {E : Type 0} → World E → Type 0
  WorldAt w = AtCase class_id case_id i j k w.results

  pub call-WorldAt :
      {E : Type 0} (f : Callback E) (w : World E)
      → All (ForCase class_id case_id) (f w.env w.context).calls
      → WorldAt w
      → Returns (λ r. WorldAt r.1) (call f w)
  unfolding call
  call-WorldAt f w fits h =
      Returns->>= (AtCase class_id case_id i j k) (λ r. WorldAt r.1)
        (perform (f w.env w.context).calls w.results) _
        (perform-AtCase (f w.env w.context).calls w.results fits h) (λ s h'. h')
