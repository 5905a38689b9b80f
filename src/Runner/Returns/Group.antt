-- ===== src/Runner/Returns/Group.antt =====
-- `do_run_test_group` and `do_run_test_suite` with callbacks that exist, of which those of the
-- groups and configurations record no assertion and those of a case only its own: they return.
use tee_io_validator.Common.{
  ℕ, Bool, true, false, List, [], ◌∷◌, Option, none, some, ◌≡◌, refl, ap, arith, get_elem?,
  get_elem?-modify, get_elem?-append, modify, append, length, All, returns, ◌>>=◌,
}
use tee_io_validator.Results.{GroupResult, ConfigResult, Results}
use tee_io_validator.Results.Record.{on_group, record_group_result, put_group_func, same_case}
use tee_io_validator.Results.Items.{record_config_item_result}
use tee_io_validator.Runner.{
  Call, assertion, config_item, group_func, Context, Callback, Config, TestCase, TestGroup, World,
  perform_call, perform, call, call_asserted, call_unchecked,
}
use tee_io_validator.Runner.Case.{do_run_test_case, set_action}
use tee_io_validator.Runner.Group.{
  new_case_result, read_group, alloc_run_test_case_result, clear_case, case_round, case_loop,
  group_teardown,
}
use tee_io_validator.Runner.Returns.{Returns, Returns->>=, AtCase, WorldAt}
use tee_io_validator.Runner.Returns.Case.{ConfigFits, CaseFits, do_run_test_case-At}

abbrev pub at_group : List ConfigResult → ℕ → ℕ → Results
at_group configs i j = record {
  configs = configs;
  current_config = some i;
  current_group = some j;
  current_case = none;
}

abbrev pub AtGroup : ℕ → ℕ → Results → Type 0
AtGroup i j s =
    (configs : List ConfigResult) × (c : ConfigResult) × (g : GroupResult) × (s
      ≡ at_group configs i j)
    × (get_elem? configs i ≡ some c)
    × (get_elem? c.group_result j ≡ some g)

abbrev pub NoAssertion : Call → Type 0
NoAssertion (assertion c n id type result message) = ⊥
NoAssertion (config_item id func result) = Unit
NoAssertion (group_func func result message) = Unit

abbrev pub Quiet : {E : Type 0} → Option (Callback E) → Type 0
Quiet none = ⊥
Quiet {E} (some f) = (env : E) (context : Context) → All NoAssertion (f env context).calls

module _ (i j : ℕ) where
  perform_call-AtGroup :
      (c : Call) (s : Results)
      → NoAssertion c
      → AtGroup i j s
      → Returns (AtGroup i j) (perform_call c s)
  unfolding perform_call record_config_item_result record_group_result on_group
  perform_call-AtGroup (assertion a n id type result message) s f h = absurd f
  perform_call-AtGroup (config_item id func result) s f (configs, c, g, e, at_c, at_g) =
      rw e (configs, c, g, refl, at_c, at_g)
  perform_call-AtGroup (group_func func result message) s f (configs, c, g, e, at_c, at_g) =
      let step_group = λ (x : GroupResult). record x {
        func_results = put_group_func func result message x.func_results;
      } in
      let step_config =
        λ (x : ConfigResult). record x { group_result = modify x.group_result j step_group } in
      rw e (
        modify configs i step_config,
        step_config c,
        step_group g,
        refl,
        get_elem?-modify configs i step_config at_c,
        get_elem?-modify c.group_result j step_group at_g,
      )

  perform-AtGroup :
      (calls : List Call) (s : Results)
      → All NoAssertion calls
      → AtGroup i j s
      → Returns (AtGroup i j) (perform calls s)
  unfolding perform
  perform-AtGroup [] s f h = h
  perform-AtGroup (c ∷ cs) s (f, fs) h =
      Returns->>= (AtGroup i j) (AtGroup i j) (perform_call c s) (perform cs)
        (perform_call-AtGroup c s f h) (λ s' h'. perform-AtGroup cs s' fs h')

  call-AtGroup :
      {E : Type 0} (f : Callback E) (w : World E)
      → All NoAssertion (f w.env w.context).calls
      → AtGroup i j w.results
      → Returns (λ (r : Bool × World E). AtGroup i j r.1.results) (call f w)
  unfolding call
  call-AtGroup {E} f w fits h =
      Returns->>= (AtGroup i j) (λ (r : Bool × World E). AtGroup i j r.1.results)
        (perform (f w.env w.context).calls w.results) _
        (perform-AtGroup (f w.env w.context).calls w.results fits h) (λ s h'. h')

  pub call_asserted-AtGroup :
      {E : Type 0} (o : Option (Callback E)) (w : World E)
      → Quiet o
      → AtGroup i j w.results
      → Returns (λ (r : Bool × World E). AtGroup i j r.1.results) (call_asserted o w)
  unfolding call_asserted
  call_asserted-AtGroup none w f h = f
  call_asserted-AtGroup (some f) w fits h = call-AtGroup f w (fits w.env w.context) h

  call_unchecked-AtGroup :
      {E : Type 0} (o : Option (Callback E)) (w : World E)
      → Quiet o
      → AtGroup i j w.results
      → Returns (λ (r : Bool × World E). AtGroup i j r.1.results) (call_unchecked o w)
  unfolding call_unchecked
  call_unchecked-AtGroup none w f h = f
  call_unchecked-AtGroup (some f) w fits h = call-AtGroup f w (fits w.env w.context) h

  -- The new case is the current one.
  alloc_run_test_case_result-AtCase :
      {E : Type 0} (test_case : TestCase E) (s : Results)
      → AtGroup i j s
      → (k : ℕ) × Returns
          (AtCase test_case.class_id test_case.case_id i j k)
          (alloc_run_test_case_result test_case s)
  unfolding alloc_run_test_case_result read_group on_group
  alloc_run_test_case_result-AtCase test_case s (configs, c, g, e, at_c, at_g) =
      let step_group = λ (x : GroupResult). record x {
        case_result = append x.case_result (new_case_result test_case);
      } in
      let step_config =
        λ (x : ConfigResult). record x { group_result = modify x.group_result j step_group } in
      let own : same_case test_case.class_id test_case.case_id (new_case_result test_case) ≡ true =
        ground arith in
      (
        length g.case_result,
        rw e (
            rw (at_c, at_g)
              (
                modify configs i step_config,
                refl,
                (
                  step_config c,
                  step_group g,
                  new_case_result test_case,
                  get_elem?-modify configs i step_config at_c,
                  get_elem?-modify c.group_result j step_group at_g,
                  get_elem?-append g.case_result (new_case_result test_case),
                  own,
                ),
              )),
      )

  clear_case-AtGroup :
      {E : Type 0} (class_id case_id k : ℕ) (w : World E)
      → WorldAt class_id case_id i j k w
      → AtGroup i j (clear_case w).results
  clear_case-AtGroup class_id case_id k w (configs, e, (c, g, r, at_c, at_g, at_r, same)) =
      (configs, c, g, ap (λ (x : Results). record x { current_case = none }) e, at_c, at_g)

  module _ {E : Type 0} (config : Config E) where
    case_round-AtGroup :
        (ran : Bool) (test_case : TestCase E) (w : World E)
        → ConfigFits test_case.class_id test_case.case_id config
        → CaseFits test_case
        → AtGroup i j w.results
        → Returns (λ (w' : World E). AtGroup i j w'.results) (case_round ran config test_case w)
    unfolding case_round
    case_round-AtGroup ran test_case w fits case_fits h =
        let (k, allocated) = alloc_run_test_case_result-AtCase test_case w.results h in
        Returns->>= (AtCase test_case.class_id test_case.case_id i j k)
          (λ (w' : World E). AtGroup i j w'.results)
          (alloc_run_test_case_result test_case w.results) _ allocated (after k ran)
      where
        after :
            (k : ℕ) (ran : Bool) (s : Results)
            → AtCase test_case.class_id test_case.case_id i j k s
            → Returns
                (λ (w' : World E). AtGroup i j w'.results)
                (let w' = set_action test_case.action (record w { results = s }) in
                  elim ran [
                    | true ↦
                        do_run_test_case test_case config w' >>= λ w''. returns (clear_case w'')
                    | false ↦ returns (clear_case w')
                  ])
        after k false s h' =
            clear_case-AtGroup test_case.class_id test_case.case_id k
              (set_action test_case.action (record w { results = s })) h'
        after k true s h' =
            let w' = set_action test_case.action (record w { results = s }) in
            Returns->>= (WorldAt test_case.class_id test_case.case_id i j k)
              (λ (x : World E). AtGroup i j x.results) (do_run_test_case test_case config w') _
              (do_run_test_case-At test_case.class_id test_case.case_id i j k config fits test_case
                case_fits.0 case_fits.1 case_fits.2 w' h')
              (λ x h''. clear_case-AtGroup test_case.class_id test_case.case_id k x h'')

    pub case_loop-AtGroup :
        (ran : Bool) (cases : List (TestCase E)) (w : World E)
        → All (λ x. ConfigFits x.class_id x.case_id config × CaseFits x) cases
        → AtGroup i j w.results
        → Returns (λ (w' : World E). AtGroup i j w'.results) (case_loop ran config cases w)
    unfolding case_loop
    case_loop-AtGroup ran [] w f h = h
    case_loop-AtGroup ran (x ∷ xs) w (f, fs) h =
        Returns->>= (λ (w' : World E). AtGroup i j w'.results)
          (λ (w' : World E). AtGroup i j w'.results) (case_round ran config x w)
          (case_loop ran config xs) (case_round-AtGroup ran x w f.0 f.1 h)
          (λ w' h'. case_loop-AtGroup ran xs w' fs h')

    pub group_teardown-AtGroup :
        (ran : Bool) (group : TestGroup E) (w : World E)
        → Quiet group.teardown_func
        → AtGroup i j w.results
        → Returns (λ (w' : World E). AtGroup i j w'.results) (group_teardown ran group w)
    unfolding group_teardown
    group_teardown-AtGroup false group w f h = h
    group_teardown-AtGroup true group w f h =
        Returns->>= (λ (r : Bool × World E). AtGroup i j r.1.results)
          (λ (w' : World E). AtGroup i j w'.results) (call_unchecked group.teardown_func w) _
          (call_unchecked-AtGroup group.teardown_func w f h) (λ r h'. h')
