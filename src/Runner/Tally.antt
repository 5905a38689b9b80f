-- ===== src/Runner/Tally.antt =====
-- Every call of the recording functions, and so every callback, keeps the counters tallied, whatever the callbacks record.
pub mod Suite
use tee_io_validator.Common.{
  ℕ, zero, suc, ◌+◌, Bool, true, false, List, [], ◌∷◌, ◌++◌, Option, none, some, ◌≡◌, refl, arith,
  Outcome, returns, asserts, faults, ◌>>=◌, Ensures, Ensures->>=, Ensures-of_returns, Ensures-deref,
  Ensures-option, Ensures-bool, All, All-modify, All-append, sum_of, sum_of-modify, modify, append,
  get_elem?,
}
use tee_io_validator.Results.{
  TestResult, ConfigFunc, GroupFunc, CaseResult, GroupResult, ConfigResult, Results,
}
use tee_io_validator.Results.Record.{
  on_config, on_group, on_case, record_assertion_result, record_group_result,
}
use tee_io_validator.Results.Items.{record_config_item_result}
use tee_io_validator.Results.Tally.{
  IsTallied, CaseTallied, GroupTallied, ConfigTallied, case_passed, case_failed, group_passed,
  group_failed, record_assertion_result-IsTallied,
}
use tee_io_validator.Runner.{
  Call, assertion, config_item, group_func, Callback, ConfigItem, Config, TestCase, TestGroup,
  World, perform_call, perform, call, call_unchecked, call_asserted, run_items,
}

-- A change that moves no counter and touches no assertion keeps the sums above it.
sum_of-modify_same {ℓ} :
    {A : Type ℓ} (g : A → ℕ) (xs : List A) (i : ℕ) (f : A → A)
    → ((x : A) → g (f x) ≡ g x)
    → sum_of g (modify xs i f) ≡ sum_of g xs
sum_of-modify_same g [] i f h = refl
sum_of-modify_same g (x ∷ xs) zero f h = omega (arith, h x)
sum_of-modify_same g (x ∷ xs) (suc i) f h = omega (arith, sum_of-modify_same g xs i f h)

on_config-IsTallied :
    (f : ConfigResult → ConfigResult) (s : Results)
    → ((c : ConfigResult) → ConfigTallied c → ConfigTallied (f c))
    → IsTallied s
    → Ensures IsTallied (on_config f s)
unfolding on_config
on_config-IsTallied f s h t =
    Ensures-deref IsTallied s.current_config _
      λ i _. All-modify ConfigTallied s.configs i f (λ c _ tc. h c tc) t

on_group-IsTallied :
    (f : GroupResult → GroupResult) (s : Results)
    → ((g : GroupResult) → GroupTallied g → GroupTallied (f g))
    → ((g : GroupResult) → group_passed (f g) ≡ group_passed g)
    → ((g : GroupResult) → group_failed (f g) ≡ group_failed g)
    → IsTallied s
    → Ensures IsTallied (on_group f s)
unfolding on_group
on_group-IsTallied f s h p q t = Ensures-deref IsTallied s.current_group _ λ j _.
    on_config-IsTallied (λ c. record c { group_result = modify c.group_result j f }) s
      (λ c (groups, passed, failures). (
        All-modify GroupTallied c.group_result j f (λ g _ tg. h g tg) groups,
        omega (arith, sum_of-modify_same group_passed c.group_result j f p),
        omega (arith, sum_of-modify_same group_failed c.group_result j f q),
      ))
      t

on_case-IsTallied :
    (f : CaseResult → CaseResult) (s : Results)
    → ((r : CaseResult) → CaseTallied r → CaseTallied (f r))
    → ((r : CaseResult) → case_passed (f r) ≡ case_passed r)
    → ((r : CaseResult) → case_failed (f r) ≡ case_failed r)
    → IsTallied s
    → Ensures IsTallied (on_case f s)
unfolding on_case
on_case-IsTallied f s h p q t = Ensures-deref IsTallied s.current_case _ λ k _.
    on_group-IsTallied (λ g. record g { case_result = modify g.case_result k f }) s
      (λ g (cases, passed, failures). (
        All-modify CaseTallied g.case_result k f (λ r _ tr. h r tr) cases,
        omega (arith, sum_of-modify_same case_passed g.case_result k f p),
        omega (arith, sum_of-modify_same case_failed g.case_result k f q),
      ))
      (λ g. refl) (λ g. refl) t

perform_call-IsTallied :
    (c : Call) (s : Results) → IsTallied s → Ensures IsTallied (perform_call c s)
unfolding perform_call record_config_item_result record_group_result
perform_call-IsTallied (assertion case_class case_id id type result message) s t =
    Ensures-of_returns IsTallied _
      (λ s' e. record_assertion_result-IsTallied case_class case_id id type result message s t e)
perform_call-IsTallied (config_item id func result) s t =
    Ensures->>= (λ r. IsTallied r.1) IsTallied (record_config_item_result id func result s) _
      (Ensures-option (λ r. IsTallied r.1) s.current_case _ _ t
        λ k _.
          Ensures->>= IsTallied (λ r. IsTallied r.1) _ _
            (on_case-IsTallied _ s (λ r h. h) (λ r. refl) (λ r. refl) t) (λ s' h. h))
      (λ r h. h)
perform_call-IsTallied (group_func func result message) s t =
    Ensures->>= (λ r. IsTallied r.1) IsTallied (record_group_result func result message s) _
      (Ensures-option (λ r. IsTallied r.1) s.current_group _ _ t
        λ j _.
          Ensures->>= IsTallied (λ r. IsTallied r.1) _ _
            (on_group-IsTallied _ s (λ g h. h) (λ g. refl) (λ g. refl) t) (λ s' h. h))
      (λ r h. h)

pub perform-IsTallied :
    (cs : List Call) (s : Results) → IsTallied s → Ensures IsTallied (perform cs s)
unfolding perform
perform-IsTallied [] s t = t
perform-IsTallied (c ∷ cs) s t =
    Ensures->>= IsTallied IsTallied (perform_call c s) (perform cs) (perform_call-IsTallied c s t)
      (perform-IsTallied cs)

module _ {E : Type 0} where
  abbrev pub Tallied : World E → Type 0
  Tallied w = IsTallied w.results

  -- The same of a call that also answers.
  abbrev pub TalliedAfter : Bool × World E → Type 0
  TalliedAfter r = IsTallied r.1.results

  pub call-Tallied : (f : Callback E) (w : World E) → Tallied w → Ensures TalliedAfter (call f w)
  unfolding call
  call-Tallied f w t =
      Ensures->>= IsTallied TalliedAfter _ _
        (perform-IsTallied (f w.env w.context).calls w.results t) (λ s h. h)

  pub call_unchecked-Tallied :
      (f : Option (Callback E)) (w : World E)
      → Tallied w
      → Ensures TalliedAfter (call_unchecked f w)
  unfolding call_unchecked
  call_unchecked-Tallied none w t = tt
  call_unchecked-Tallied (some f) w t = call-Tallied f w t

  pub call_asserted-Tallied :
      (f : Option (Callback E)) (w : World E) → Tallied w → Ensures TalliedAfter (call_asserted f w)
  unfolding call_asserted
  call_asserted-Tallied none w t = tt
  call_asserted-Tallied (some f) w t = call-Tallied f w t

  pub run_items-Tallied :
      (func : ConfigItem E → Option (Callback E)) (items : List (ConfigItem E)) (w : World E)
      → Tallied w
      → Ensures TalliedAfter (run_items func items w)
  unfolding run_items
  run_items-Tallied func [] w t = tt
  run_items-Tallied func (item ∷ []) w t = call_asserted-Tallied (func item) w t
  run_items-Tallied func (item ∷ next ∷ rest) w t =
      Ensures->>= TalliedAfter TalliedAfter (call_asserted (func item) w) _
        (call_asserted-Tallied (func item) w t)
        (λ r h. Ensures-bool TalliedAfter r.0 _ _ (run_items-Tallied func (next ∷ rest) r.1 h) h)
