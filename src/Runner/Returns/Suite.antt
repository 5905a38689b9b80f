-- ===== src/Runner/Returns/Suite.antt =====
-- `do_run_test_suite` on a suite whose callbacks fit: it returns, and the statistics are right.
use tee_io_validator.Common.{
  ℕ, Bool, true, List, [], ◌∷◌, none, some, ◌≡◌, refl, ap, get_elem?, get_elem?-modify,
  get_elem?-append, modify, append, length, All, Outcome, returns, asserts, faults,
}
use tee_io_validator.Results.{ConfigResult, Results}
use tee_io_validator.Results.Record.{on_config}
use tee_io_validator.Runner.{Config, TestGroup, World, call_asserted}
use tee_io_validator.Runner.Group.{group_body, do_run_test_group, case_loop, group_teardown}
use tee_io_validator.Runner.Suite.{
  new_config_result, alloc_run_test_config_result, new_group_result, read_config,
  alloc_run_test_group_result, clear_config, group_round, group_loop, config_loop,
  do_run_test_suite, test_suite_cases_statics,
}
use tee_io_validator.Runner.Statics.{all_passed, all_failed, do_run_test_suite-statics}
use tee_io_validator.Runner.Returns.{Returns, Returns->>=}
use tee_io_validator.Runner.Returns.Case.{ConfigFits, CaseFits}
use tee_io_validator.Runner.Returns.Group.{
  AtGroup, Quiet, call_asserted-AtGroup, case_loop-AtGroup, group_teardown-AtGroup,
}

-- A group whose functions exist and record no assertion, and whose cases fit the configuration.
abbrev pub GroupFits : {E : Type 0} → Config E → TestGroup E → Type 0
GroupFits config group =
    Quiet group.setup_func
    × Quiet group.teardown_func
    × All (λ x. ConfigFits x.class_id x.case_id config × CaseFits x) group.test_case

abbrev pub SuiteFits : {E : Type 0} → List (Config E) → List (TestGroup E) → Type 0
SuiteFits configs groups = All (λ config. All (GroupFits config) groups) configs

abbrev AtConfig : ℕ → Results → Type 0
AtConfig i s =
    (configs : List ConfigResult) × (c : ConfigResult) × (s ≡ record {
      configs = configs;
      current_config = some i;
      current_group = none;
      current_case = none;
    })
    × (get_elem? configs i ≡ some c)

-- No result is current.
abbrev pub Idle : Results → Type 0
Idle s =
    (configs : List ConfigResult) × (s ≡ record {
      configs = configs;
      current_config = none;
      current_group = none;
      current_case = none;
    })

module _ {E : Type 0} (config : Config E) where
  group_body-AtGroup :
      (i j : ℕ) (group : TestGroup E) (w : World E)
      → GroupFits config group
      → AtGroup i j w.results
      → Returns (λ (w' : World E). AtGroup i j w'.results) (group_body group config w)
  unfolding group_body
  group_body-AtGroup i j group w (setup, teardown, cases) h =
      Returns->>= (λ (r : Bool × World E). AtGroup i j r.1.results)
        (λ (w' : World E). AtGroup i j w'.results) (call_asserted group.setup_func w) _
        (call_asserted-AtGroup i j group.setup_func w setup h)
        (λ r h1.
          Returns->>= (λ (w' : World E). AtGroup i j w'.results)
            (λ (w' : World E). AtGroup i j w'.results) (case_loop r.0 config group.test_case r.1) _
            (case_loop-AtGroup i j config r.0 group.test_case r.1 cases h1)
            (λ w1 h2.
              Returns->>= (λ (w' : World E). AtGroup i j w'.results)
                (λ (w' : World E). AtGroup i j w'.results) (group_teardown r.0 group w1) _
                (group_teardown-AtGroup i j config r.0 group w1 teardown h2) (λ w2 h3. h3)))

  do_run_test_group-AtGroup :
      (i j : ℕ) (group : TestGroup E) (w : World E)
      → GroupFits config group
      → AtGroup i j w.results
      → Returns (λ (w' : World E). AtGroup i j w'.results) (do_run_test_group group config w)
  unfolding do_run_test_group
  do_run_test_group-AtGroup i j group w f h =
      let context = record (w.context) { config_id = config.config_id; attached = true } in
      let w' = record w { context = context } in
      elim group.test_case
        as (λ cases.
          Returns (λ (x : World E). AtGroup i j x.results)
            (elim cases [ [] ↦ returns w' | _ ∷ _ ↦ group_body group config w' ])) [
              | [] ↦ h
              | x ∷ xs ↦ group_body-AtGroup i j group w' f h
            ]

  alloc_run_test_group_result-AtGroup :
      (i : ℕ) (group : TestGroup E) (s : Results)
      → AtConfig i s
      → (j : ℕ) × Returns (AtGroup i j) (alloc_run_test_group_result group s)
  unfolding alloc_run_test_group_result read_config on_config
  alloc_run_test_group_result-AtGroup i group s (configs, c, e, at_c) =
      let step_config = λ (x : ConfigResult). record x {
        group_result = append x.group_result (new_group_result group);
      } in
      (
        length c.group_result,
        rw e (
            rw (alloc_run_test_group_result, at_c)
              (
                modify configs i step_config,
                step_config c,
                new_group_result group,
                refl,
                get_elem?-modify configs i step_config at_c,
                get_elem?-append c.group_result (new_group_result group),
              )),
      )

  group_round-AtConfig :
      (i : ℕ) (group : TestGroup E) (w : World E)
      → GroupFits config group
      → AtConfig i w.results
      → Returns (λ (w' : World E). AtConfig i w'.results) (group_round config group w)
  unfolding group_round
  group_round-AtConfig i group w f h =
      let (j, allocated) = alloc_run_test_group_result-AtGroup i group w.results h in
      Returns->>= (AtGroup i j) (λ (w' : World E). AtConfig i w'.results)
        (alloc_run_test_group_result group w.results) _ allocated
        (λ s h1.
          Returns->>= (λ (w' : World E). AtGroup i j w'.results)
            (λ (w' : World E). AtConfig i w'.results)
            (do_run_test_group group config (record w { results = s })) _
            (do_run_test_group-AtGroup i j group (record w { results = s }) f h1)
            (λ w' h2.
              let (configs, c, g, e, at_c, at_g) = h2 in
              (configs, c, ap (λ (x : Results). record x { current_group = none }) e, at_c)))

  group_loop-AtConfig :
      (i : ℕ) (groups : List (TestGroup E)) (w : World E)
      → All (GroupFits config) groups
      → AtConfig i w.results
      → Returns (λ (w' : World E). AtConfig i w'.results) (group_loop config groups w)
  unfolding group_loop
  group_loop-AtConfig i [] w f h = h
  group_loop-AtConfig i (x ∷ xs) w (f, fs) h =
      Returns->>= (λ (w' : World E). AtConfig i w'.results)
        (λ (w' : World E). AtConfig i w'.results) (group_round config x w) (group_loop config xs)
        (group_round-AtConfig i x w f h) (λ w' h'. group_loop-AtConfig i xs w' fs h')

  config_round-Idle :
      (groups : List (TestGroup E)) (w : World E)
      → All (GroupFits config) groups
      → Idle w.results
      → (i : ℕ) × Returns
          (λ (w' : World E). AtConfig i w'.results)
          (group_loop config groups
            (record w { results = alloc_run_test_config_result config w.results }))
  unfolding alloc_run_test_config_result
  config_round-Idle groups w f (configs, e) =
      let s = alloc_run_test_config_result config w.results in
      (
        length configs,
        group_loop-AtConfig (length configs) groups (record w { results = s }) f
            (rw e (
              append configs (new_config_result config),
              new_config_result config,
              refl,
              get_elem?-append configs (new_config_result config),
            )),
      )

module _ {E : Type 0} where
  no_groups : (configs : List (Config E)) → SuiteFits configs []
  no_groups [] = tt
  no_groups (c ∷ cs) = (tt, no_groups cs)

  config_loop-Idle :
      (configs : List (Config E)) (groups : List (TestGroup E)) (w : World E)
      → SuiteFits configs groups
      → Idle w.results
      → Returns (λ (w' : World E). Idle w'.results) (config_loop configs groups w)
  unfolding config_loop
  config_loop-Idle [] groups w f h = h
  config_loop-Idle (config ∷ rest) groups w (f, fs) h =
      let (i, ran) = config_round-Idle config groups w f h in
      Returns->>= (λ (w' : World E). AtConfig i w'.results) (λ (w' : World E). Idle w'.results)
        (group_loop config groups
          (record w { results = alloc_run_test_config_result config w.results }))
        _ ran
        (λ w' h'.
          let (configs, c, e, at_c) = h' in
          config_loop-Idle rest [] (clear_config w') (no_groups rest)
            (configs, ap (λ (x : Results). record x { current_config = none }) e))

  returned :
      {P : World E → Type 0} (m : Outcome (World E))
      → Returns P m
      → (w : World E) × (m ≡ returns w) × P w
  returned (returns w) h = (w, refl, h)
  returned asserts h = absurd h
  returned faults h = absurd h

  -- A suite returns if the functions of its groups exist and record no assertion, each
  -- configuration has an item and all functions of its items, and these and the functions of a
  -- case record assertions only with the ids of the case they run for. Begun with no results, it
  -- ends with none current, and `test_suite_cases_statics` reports the numbers of assertions that
  -- were recorded as passed and as failed in all its cases.
  pub do_run_test_suite-returns :
      (configs : List (Config E)) (groups : List (TestGroup E)) (w : World E)
      → SuiteFits configs groups
      → Idle w.results
      → w.results.configs ≡ []
      → (w' : World E) × (do_run_test_suite configs groups w ≡ returns w')
        × Idle w'.results
        × (test_suite_cases_statics 0 0 w'.results.configs
            ≡ (all_passed w'.results.configs, all_failed w'.results.configs))
  unfolding do_run_test_suite
  do_run_test_suite-returns configs groups w f h fresh =
      let (w', e, idle) =
        returned (config_loop configs groups w) (config_loop-Idle configs groups w f h) in
      (w', e, idle, do_run_test_suite-statics configs groups w fresh e)
