-- ===== src/Runner/Tally/Suite.antt =====
-- `do_run_test_suite` of teeio-validator/teeio_validator/ide_test.c keeps the counters tallied,
-- whatever the callbacks record, and `test_suite_cases_statics` counts what was recorded.
use tee_io_validator.Common.{
  Bool, true, false, List, [], ◌∷◌, Option, none, some, refl, arith, returns, Ensures, Ensures->>=,
  Ensures-deref, Ensures-bool, Ensures-unless, if◌then◌else◌, All-append, append, sum_of-append,
}
use tee_io_validator.Results.{CaseResult, GroupResult, Results}
use tee_io_validator.Results.Tally.{
  IsTallied, CaseTallied, GroupTallied, ConfigTallied, case_passed, case_failed, group_passed,
  group_failed,
}
use tee_io_validator.Runner.{
  skip, Callback, Config, TestCase, TestGroup, World, call, do_run_test_config_support,
  do_run_test_config_enable, do_run_test_config_disable, do_run_test_config_check,
}
use tee_io_validator.Runner.Case.{
  is_skip, set_action, setup_step, optional_step, check_step, body_step, done_step,
  do_run_test_case,
}
use tee_io_validator.Runner.Group.{
  new_case_result, read_group, alloc_run_test_case_result, case_round, case_loop, group_teardown,
  group_body, do_run_test_group,
}
use tee_io_validator.Runner.Suite.{
  new_config_result, alloc_run_test_config_result, new_group_result, read_config,
  alloc_run_test_group_result, clear_config, group_round, group_loop, config_loop,
}
use tee_io_validator.Runner.Tally.{
  Tallied, TalliedAfter, call-Tallied, call_asserted-Tallied, call_unchecked-Tallied,
  run_items-Tallied, on_config-IsTallied, on_group-IsTallied,
}

module _ {E : Type 0} where
  setup_step-Tallied :
      (f : Option (Callback E)) (w : World E) → Tallied w → Ensures TalliedAfter (setup_step f w)
  unfolding setup_step
  setup_step-Tallied none w t = t
  setup_step-Tallied (some f) w t =
      Ensures->>= TalliedAfter TalliedAfter (call f w) _ (call-Tallied f w t) after
    where
      after :
          (r : Bool × World E)
          → TalliedAfter r
          → Ensures TalliedAfter
              (returns (if r.0 then (true, r.1) else (false, set_action skip r.1)))
      after (true, w') h = h
      after (false, w') h = h

  optional_step-Tallied :
      (f : Option (Callback E)) (w : World E) → Tallied w → Ensures Tallied (optional_step f w)
  unfolding optional_step
  optional_step-Tallied none w t = t
  optional_step-Tallied (some f) w t =
      Ensures->>= TalliedAfter Tallied (call f w) _ (call-Tallied f w t) (λ r h. h)

  check_step-Tallied :
      (b : Bool) (config : Config E) (w : World E)
      → Tallied w
      → Ensures Tallied (check_step b config w)
  unfolding check_step do_run_test_config_check
  check_step-Tallied false config w t = t
  check_step-Tallied true config w t =
      Ensures->>= TalliedAfter Tallied _ _ (run_items-Tallied _ config.config_item w t) (λ r h. h)

  body_step-Tallied :
      (test_case : TestCase E) (config : Config E) (r : Bool × World E)
      → TalliedAfter r
      → Ensures Tallied (body_step test_case config r)
  unfolding body_step
  body_step-Tallied test_case config (false, w) t = t
  body_step-Tallied test_case config (true, w) t =
      Ensures-bool Tallied (is_skip w.context.action) _ _ t (
        Ensures->>= Tallied Tallied (optional_step test_case.run_func w)
          (check_step test_case.config_check_required config)
          (optional_step-Tallied test_case.run_func w t)
          (check_step-Tallied test_case.config_check_required config))

  done_step-Tallied :
      (test_case : TestCase E) (config : Config E) (w : World E)
      → Tallied w
      → Ensures Tallied (done_step test_case config w)
  unfolding done_step do_run_test_config_disable
  done_step-Tallied test_case config w t =
      Ensures->>= Tallied Tallied (optional_step test_case.teardown_func w) _
        (optional_step-Tallied test_case.teardown_func w t)
        (λ w' t'.
          Ensures->>= TalliedAfter Tallied _ _ (run_items-Tallied _ config.config_item w' t')
            (λ r h. h))

  pub do_run_test_case-Tallied :
      (test_case : TestCase E) (config : Config E) (w : World E)
      → Tallied w
      → Ensures Tallied (do_run_test_case test_case config w)
  unfolding do_run_test_case do_run_test_config_support do_run_test_config_enable
  do_run_test_case-Tallied test_case config w t =
      Ensures-bool Tallied (is_skip w.context.action) _ _ t (
        Ensures->>= TalliedAfter Tallied _ _ (run_items-Tallied _ config.config_item w t)
          (λ supported t. Ensures-unless Tallied supported.0 _ _ t (
            Ensures->>= TalliedAfter Tallied _ _
              (run_items-Tallied _ config.config_item supported.1 t)
              (λ enabled t. Ensures-unless Tallied enabled.0 _ _ t (
                Ensures->>= Tallied Tallied _ (done_step test_case config)
                  (Ensures->>= TalliedAfter Tallied _ (body_step test_case config)
                    (setup_step-Tallied test_case.setup_func enabled.1 t)
                    (body_step-Tallied test_case config))
                  (done_step-Tallied test_case config))))))

  alloc_run_test_case_result-IsTallied :
      (test_case : TestCase E) (s : Results)
      → IsTallied s
      → Ensures IsTallied (alloc_run_test_case_result test_case s)
  unfolding alloc_run_test_case_result
  alloc_run_test_case_result-IsTallied test_case s t =
      let r : CaseResult = new_case_result test_case in
      Ensures-deref IsTallied (read_group s) _ λ g _.
        Ensures->>= IsTallied IsTallied _ _
          (on_group-IsTallied (λ h. record h { case_result = append h.case_result r }) s
            (λ h (cases, passed, failures). (
              All-append CaseTallied h.case_result (r ∷ []) cases ((refl, refl), tt),
              omega (arith, sum_of-append case_passed h.case_result (r ∷ [])),
              omega (arith, sum_of-append case_failed h.case_result (r ∷ [])),
            ))
            (λ h. refl) (λ h. refl) t)
          (λ s' h. h)

  case_round-Tallied :
      (b : Bool) (config : Config E) (test_case : TestCase E) (w : World E)
      → Tallied w
      → Ensures Tallied (case_round b config test_case w)
  unfolding case_round
  case_round-Tallied b config test_case w t =
      Ensures->>= IsTallied Tallied _ _ (alloc_run_test_case_result-IsTallied test_case w.results t)
        (λ s t.
          let w' = set_action test_case.action (record w { results = s }) in
          Ensures-bool Tallied b _ _
            (Ensures->>= Tallied Tallied _ _ (do_run_test_case-Tallied test_case config w' t)
              (λ w'' h. h))
            t)

  case_loop-Tallied :
      (b : Bool) (config : Config E) (cases : List (TestCase E)) (w : World E)
      → Tallied w
      → Ensures Tallied (case_loop b config cases w)
  unfolding case_loop
  case_loop-Tallied b config [] w t = t
  case_loop-Tallied b config (test_case ∷ rest) w t =
      Ensures->>= Tallied Tallied (case_round b config test_case w) (case_loop b config rest)
        (case_round-Tallied b config test_case w t) (case_loop-Tallied b config rest)

  group_teardown-Tallied :
      (b : Bool) (group : TestGroup E) (w : World E)
      → Tallied w
      → Ensures Tallied (group_teardown b group w)
  unfolding group_teardown
  group_teardown-Tallied false group w t = t
  group_teardown-Tallied true group w t =
      Ensures->>= TalliedAfter Tallied _ _ (call_unchecked-Tallied group.teardown_func w t)
        (λ r h. h)

  group_body-Tallied :
      (group : TestGroup E) (config : Config E) (w : World E)
      → Tallied w
      → Ensures Tallied (group_body group config w)
  unfolding group_body
  group_body-Tallied group config w t =
      Ensures->>= TalliedAfter Tallied _ _ (call_asserted-Tallied group.setup_func w t) (λ r t.
        Ensures->>= Tallied Tallied _ _ (case_loop-Tallied r.0 config group.test_case r.1 t)
          (λ w' t.
            Ensures->>= Tallied Tallied _ _ (group_teardown-Tallied r.0 group w' t) (λ w'' h. h)))

  do_run_test_group-Tallied :
      (group : TestGroup E) (config : Config E) (w : World E)
      → Tallied w
      → Ensures Tallied (do_run_test_group group config w)
  unfolding do_run_test_group
  do_run_test_group-Tallied group config w t = cases group.test_case
    where
      w' : World E
      w' = record w {
        context = record (w.context) { config_id = config.config_id; attached = true };
      }

      cases :
          (l : List (TestCase E))
          → Ensures Tallied (elim l [ [] ↦ returns w' | _ ∷ _ ↦ group_body group config w' ])
      cases [] = t
      cases (_ ∷ _) = group_body-Tallied group config w' t

  alloc_run_test_group_result-IsTallied :
      (group : TestGroup E) (s : Results)
      → IsTallied s
      → Ensures IsTallied (alloc_run_test_group_result group s)
  unfolding alloc_run_test_group_result
  alloc_run_test_group_result-IsTallied group s t =
      let g : GroupResult = new_group_result group in
      Ensures-deref IsTallied (read_config s) _ λ c _.
        Ensures->>= IsTallied IsTallied _ _
          (on_config-IsTallied (λ d. record d { group_result = append d.group_result g }) s
            (λ d (groups, passed, failures). (
              All-append GroupTallied d.group_result (g ∷ []) groups ((tt, refl, refl), tt),
              omega (arith, sum_of-append group_passed d.group_result (g ∷ [])),
              omega (arith, sum_of-append group_failed d.group_result (g ∷ [])),
            ))
            t)
          (λ s' h. h)

  group_round-Tallied :
      (config : Config E) (group : TestGroup E) (w : World E)
      → Tallied w
      → Ensures Tallied (group_round config group w)
  unfolding group_round
  group_round-Tallied config group w t =
      Ensures->>= IsTallied Tallied _ _ (alloc_run_test_group_result-IsTallied group w.results t)
        (λ s t.
          Ensures->>= Tallied Tallied _ _
            (do_run_test_group-Tallied group config (record w { results = s }) t) (λ w' h. h))

  group_loop-Tallied :
      (config : Config E) (groups : List (TestGroup E)) (w : World E)
      → Tallied w
      → Ensures Tallied (group_loop config groups w)
  unfolding group_loop
  group_loop-Tallied config [] w t = t
  group_loop-Tallied config (group ∷ rest) w t =
      Ensures->>= Tallied Tallied (group_round config group w) (group_loop config rest)
        (group_round-Tallied config group w t) (group_loop-Tallied config rest)

  alloc_run_test_config_result-IsTallied :
      (config : Config E) (s : Results)
      → IsTallied s
      → IsTallied (alloc_run_test_config_result config s)
  unfolding alloc_run_test_config_result
  alloc_run_test_config_result-IsTallied config s t =
      All-append ConfigTallied s.configs (new_config_result config ∷ []) t ((tt, refl, refl), tt)

  pub config_loop-Tallied :
      (configs : List (Config E)) (groups : List (TestGroup E)) (w : World E)
      → Tallied w
      → Ensures Tallied (config_loop configs groups w)
  unfolding config_loop
  config_loop-Tallied [] groups w t = t
  config_loop-Tallied (config ∷ rest) groups w t =
      let w' = record w { results = alloc_run_test_config_result config w.results } in
      Ensures->>= Tallied Tallied (group_loop config groups w') _
        (group_loop-Tallied config groups w'
          (alloc_run_test_config_result-IsTallied config w.results t))
        (λ w'' t. config_loop-Tallied rest [] (clear_config w'') t)
