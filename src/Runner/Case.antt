-- ===== src/Runner/Case.antt =====
-- `do_run_test_case` of teeio-validator/teeio_validator/ide_test.c. It always returns true, so
-- that its value is left out.
use tee_io_validator.Common.{
  Bool, true, false, Option, none, some, Outcome, returns, ◌>>=◌, if◌then◌else◌,
}
use tee_io_validator.Runner.{
  Action, run, skip, Callback, Config, TestCase, World, call, do_run_test_config_support,
  do_run_test_config_enable, do_run_test_config_disable, do_run_test_config_check,
}

abbrev pub is_skip : Action → Bool
is_skip skip = true
is_skip run = false

abbrev pub set_action : {E : Type 0} → Action → World E → World E
set_action a w = record w { context = record (w.context) { action = a } }

-- The optional setup. The flag says whether the case goes on; a failed setup marks it skipped.
unfoldable pub setup_step : {E : Type 0} → Option (Callback E) → World E → Outcome (Bool × World E)
setup_step none w = returns (true, w)
setup_step (some f) w =
    call f w >>= λ r. returns (if r.0 then (true, r.1) else (false, set_action skip r.1))

-- An optional function whose answer is not used.
unfoldable pub optional_step : {E : Type 0} → Option (Callback E) → World E → Outcome (World E)
optional_step none w = returns w
optional_step (some f) w = call f w >>= λ r. returns r.1

unfoldable pub check_step : {E : Type 0} → Bool → Config E → World E → Outcome (World E)
check_step false config w = returns w
check_step true config w = do_run_test_config_check config w >>= λ r. returns r.1

-- From the test after setup to the label `TestCaseDone`.
unfoldable pub body_step : {E : Type 0} → TestCase E → Config E → Bool × World E → Outcome (World E)
unfolding optional_step check_step
body_step test_case config r = elim r.0 [
  | false ↦ returns r.1
  | true ↦ elim (is_skip r.1.context.action) [
    | true ↦ returns r.1
    | false ↦
        optional_step test_case.run_func r.1 >>= check_step test_case.config_check_required config
  ]
]

-- From the label `TestCaseDone`.
unfoldable pub done_step : {E : Type 0} → TestCase E → Config E → World E → Outcome (World E)
unfolding optional_step
done_step test_case config w = optional_step test_case.teardown_func w >>= λ w'.
    do_run_test_config_disable config w' >>= λ r. returns r.1

unfoldable pub do_run_test_case : {E : Type 0} → TestCase E → Config E → World E → Outcome (World E)
unfolding setup_step body_step done_step
do_run_test_case test_case config w = elim (is_skip w.context.action) [
  | true ↦ returns w
  | false ↦ do_run_test_config_support config w >>= λ supported. elim supported.0 [
    | false ↦ returns supported.1
    | true ↦ do_run_test_config_enable config supported.1 >>= λ enabled. elim enabled.0 [
      | false ↦ returns enabled.1
      | true ↦
          setup_step test_case.setup_func enabled.1
          >>= body_step test_case config
          >>= done_step test_case config
    ]
  ]
]
