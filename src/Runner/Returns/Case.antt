-- ===== src/Runner/Returns/Case.antt =====
-- `do_run_test_case` with callbacks that exist and record only for the case: it returns.
use tee_io_validator.Common.{
  ℕ, Bool, true, false, List, [], ◌∷◌, Option, none, some, ◌≢◌, refl, All, returns, ◌>>=◌,
  if◌then◌else◌,
}
use tee_io_validator.Runner.{
  skip, Context, Callback, ConfigItem, Config, TestCase, World, call, call_asserted, run_items,
  do_run_test_config_support, do_run_test_config_enable, do_run_test_config_disable,
  do_run_test_config_check,
}
use tee_io_validator.Runner.Case.{
  is_skip, set_action, setup_step, optional_step, check_step, body_step, done_step,
  do_run_test_case,
}
use tee_io_validator.Runner.Returns.{Returns, Returns->>=, ForCase, WorldAt, call-WorldAt}

abbrev pub Fits : {E : Type 0} → ℕ → ℕ → Callback E → Type 0
Fits {E} class_id case_id f =
    (env : E) (context : Context) → All (ForCase class_id case_id) (f env context).calls

-- A pointer that must not be NULL, and one that may be.
abbrev pub Required : {E : Type 0} → ℕ → ℕ → Option (Callback E) → Type 0
Required class_id case_id none = ⊥
Required class_id case_id (some f) = Fits class_id case_id f

abbrev pub Optional : {E : Type 0} → ℕ → ℕ → Option (Callback E) → Type 0
Optional class_id case_id none = Unit
Optional class_id case_id (some f) = Fits class_id case_id f

-- A configuration with an item, and with all functions in each item.
abbrev pub ConfigFits : {E : Type 0} → ℕ → ℕ → Config E → Type 0
ConfigFits class_id case_id config =
    (config.config_item ≢ [])
    × All (λ item. Required class_id case_id item.support_func) config.config_item
    × All (λ item. Required class_id case_id item.enable_func) config.config_item
    × All (λ item. Required class_id case_id item.disable_func) config.config_item
    × All (λ item. Required class_id case_id item.check_func) config.config_item

abbrev pub CaseFits : {E : Type 0} → TestCase E → Type 0
CaseFits test_case =
    Optional test_case.class_id test_case.case_id test_case.setup_func
    × Optional test_case.class_id test_case.case_id test_case.run_func
    × Optional test_case.class_id test_case.case_id test_case.teardown_func

module _ {E : Type 0} (class_id case_id i j k : ℕ) where
  abbrev At : World E → Type 0
  At = WorldAt class_id case_id i j k

  call_asserted-At :
      (o : Option (Callback E)) (w : World E)
      → Required class_id case_id o
      → At w
      → Returns (λ r. At r.1) (call_asserted o w)
  unfolding call_asserted
  call_asserted-At none w f h = f
  call_asserted-At (some f) w fits h =
      call-WorldAt class_id case_id i j k f w (fits w.env w.context) h

  run_items-At :
      (func : ConfigItem E → Option (Callback E)) (items : List (ConfigItem E)) (w : World E)
      → items ≢ []
      → All (λ item. Required class_id case_id (func item)) items
      → At w
      → Returns (λ r. At r.1) (run_items func items w)
  unfolding run_items
  run_items-At func [] w some_item f h = absurd (some_item refl)
  run_items-At func (item ∷ []) w some_item (f, fs) h = call_asserted-At (func item) w f h
  run_items-At func (item ∷ next ∷ rest) w some_item (f, fs) h =
      Returns->>= (λ r. At r.1) (λ r. At r.1) (call_asserted (func item) w) _
        (call_asserted-At (func item) w f h)
        (after (λ w' h'. run_items-At func (next ∷ rest) w' (λ e. absurd cc) fs h'))
    where
      after :
          ((w' : World E)
            → At w'
            → Returns (λ (q : Bool × World E). At q.1) (run_items func (next ∷ rest) w'))
          → (r : Bool × World E) → At r.1
          → Returns
              (λ (q : Bool × World E). At q.1)
              (elim r.0 [ true ↦ run_items func (next ∷ rest) r.1 | false ↦ returns (false, r.1) ])
      after go (true, w') h' = go w' h'
      after go (false, w') h' = h'

  optional_step-At :
      (o : Option (Callback E)) (w : World E)
      → Optional class_id case_id o
      → At w
      → Returns At (optional_step o w)
  unfolding optional_step
  optional_step-At none w f h = h
  optional_step-At (some f) w fits h =
      Returns->>= (λ r. At r.1) At (call f w) _
        (call-WorldAt class_id case_id i j k f w (fits w.env w.context) h) (λ r h'. h')

  setup_step-At :
      (o : Option (Callback E)) (w : World E)
      → Optional class_id case_id o
      → At w
      → Returns (λ r. At r.1) (setup_step o w)
  unfolding setup_step
  setup_step-At none w f h = h
  setup_step-At (some f) w fits h =
      Returns->>= (λ r. At r.1) (λ r. At r.1) (call f w) _
        (call-WorldAt class_id case_id i j k f w (fits w.env w.context) h) after
    where
      after :
          (r : Bool × World E)
          → At r.1
          → Returns
              (λ (q : Bool × World E). At q.1)
              (returns (if r.0 then (true, r.1) else (false, set_action skip r.1)))
      after (true, w') h' = h'
      after (false, w') h' = h'

  module _ (config : Config E) (fits : ConfigFits class_id case_id config) where
    check_step-At : (b : Bool) (w : World E) → At w → Returns At (check_step b config w)
    unfolding check_step do_run_test_config_check
    check_step-At false w h = h
    check_step-At true w h =
        Returns->>= (λ r. At r.1) At (do_run_test_config_check config w) _
          (run_items-At (λ item. item.check_func) config.config_item w fits.0 fits.4 h) (λ r h'. h')

    disable-At : (w : World E) → At w → Returns (λ r. At r.1) (do_run_test_config_disable config w)
    unfolding do_run_test_config_disable
    disable-At w h = run_items-At (λ item. item.disable_func) config.config_item w fits.0 fits.3 h

    enable-At : (w : World E) → At w → Returns (λ r. At r.1) (do_run_test_config_enable config w)
    unfolding do_run_test_config_enable
    enable-At w h = run_items-At (λ item. item.enable_func) config.config_item w fits.0 fits.2 h

    support-At : (w : World E) → At w → Returns (λ r. At r.1) (do_run_test_config_support config w)
    unfolding do_run_test_config_support
    support-At w h = run_items-At (λ item. item.support_func) config.config_item w fits.0 fits.1 h

    module _ (test_case : TestCase E) (setup_fits : Optional class_id case_id test_case.setup_func)
        (run_fits : Optional class_id case_id test_case.run_func)
        (teardown_fits : Optional class_id case_id test_case.teardown_func) where
      body_step-At : (r : Bool × World E) → At r.1 → Returns At (body_step test_case config r)
      unfolding body_step
      body_step-At (false, w) h = h
      body_step-At (true, w) h =
          elim (is_skip w.context.action)
            as (λ b. Returns At (elim b [
              | true ↦ returns w
              | false ↦
                  optional_step test_case.run_func w
                  >>= check_step test_case.config_check_required config
            ])) [
              | true ↦ h
              | false ↦
                  Returns->>= At At (optional_step test_case.run_func w)
                    (check_step test_case.config_check_required config)
                    (optional_step-At test_case.run_func w run_fits h)
                    (check_step-At test_case.config_check_required)
            ]

      done_step-At : (w : World E) → At w → Returns At (done_step test_case config w)
      unfolding done_step
      done_step-At w h =
          Returns->>= At At (optional_step test_case.teardown_func w) _
            (optional_step-At test_case.teardown_func w teardown_fits h)
            (λ w' h'.
              Returns->>= (λ r. At r.1) At (do_run_test_config_disable config w') _
                (disable-At w' h') (λ r h''. h''))

      enabled-At :
          (r : Bool × World E)
          → At r.1
          → Returns At (elim r.0 [
            | false ↦ returns r.1
            | true ↦
                setup_step test_case.setup_func r.1
                >>= body_step test_case config
                >>= done_step test_case config
          ])
      enabled-At (false, w) h = h
      enabled-At (true, w) h =
          Returns->>= At At (setup_step test_case.setup_func w >>= body_step test_case config)
            (done_step test_case config)
            (Returns->>= (λ r. At r.1) At (setup_step test_case.setup_func w)
              (body_step test_case config) (setup_step-At test_case.setup_func w setup_fits h)
              body_step-At)
            done_step-At

      supported-At :
          (r : Bool × World E)
          → At r.1
          → Returns At (elim r.0 [
            | false ↦ returns r.1
            | true ↦ do_run_test_config_enable config r.1 >>= λ enabled. elim enabled.0 [
              | false ↦ returns enabled.1
              | true ↦
                  setup_step test_case.setup_func enabled.1
                  >>= body_step test_case config
                  >>= done_step test_case config
            ]
          ])
      supported-At (false, w) h = h
      supported-At (true, w) h =
          Returns->>= (λ r. At r.1) At (do_run_test_config_enable config w) _ (enable-At w h)
            enabled-At

      pub do_run_test_case-At :
          (w : World E) → At w → Returns At (do_run_test_case test_case config w)
      unfolding do_run_test_case
      do_run_test_case-At w h =
          elim (is_skip w.context.action)
            as (λ b. Returns At (elim b [
              | true ↦ returns w
              | false ↦ do_run_test_config_support config w >>= λ supported. elim supported.0 [
                | false ↦ returns supported.1
                | true ↦ do_run_test_config_enable config supported.1 >>= λ enabled.
                    elim enabled.0 [
                      | false ↦ returns enabled.1
                      | true ↦
                          setup_step test_case.setup_func enabled.1
                          >>= body_step test_case config
                          >>= done_step test_case config
                    ]
              ]
            ])) [
              | true ↦ h
              | false ↦
                  Returns->>= (λ r. At r.1) At (do_run_test_config_support config w) _
                    (support-At w h) supported-At
            ]
