-- ===== src/Results.antt =====
-- teeio-validator/library/helperlib/teeio_common.c and the result records of
-- teeio-validator/include/ide_test.h: what a test run has recorded so far.
-- The globals `g_current_config_result`, `g_current_group_result` and `g_current_case_result`
-- point into lists that grow at the end. A pointer is modelled as the position in the list that
-- holds its target, so that the three of them make one path, and NULL as `none`.
pub mod Record
pub mod Tally
pub mod Items
use tee_io_validator.Common.{ℕ, Bool, List, Option, none, some}

-- A C string: its bytes before the terminating NUL.
abbrev pub Bytes : Type 0
Bytes = List ℕ

pub data TestResult : Type 0 where
  not_tested pass failed : TestResult

pub data AssertionType : Type 0 where
  na test separator : AssertionType

pub data ConfigFunc : Type 0 where
  support_func enable_func disable_func check_func : ConfigFunc

pub data GroupFunc : Type 0 where
  setup_func teardown_func : GroupFunc

pub record AssertionResult : Type 0 where
  pub type : AssertionType
  pub class_id : ℕ
  pub case_id : ℕ
  pub assertion_id : ℕ
  pub result : TestResult
  pub extra_data : Bytes

-- The array `results` has one entry for each function.
pub record ConfigItemResult : Type 0 where
  pub config_item_id : ℕ
  pub results : ConfigFunc → TestResult

pub record CaseResult : Type 0 where
  pub class : Bytes
  pub name : Bytes
  pub class_id : ℕ
  pub case_id : ℕ
  pub total_passed : ℕ
  pub total_failed : ℕ
  pub config_item_result : List ConfigItemResult
  pub assertion_result : List AssertionResult

pub record GroupFuncResult : Type 0 where
  pub result : TestResult
  pub extra_data : Bytes

pub record GroupResult : Type 0 where
  pub name : Bytes
  pub total_passed : ℕ
  pub total_failed : ℕ
  pub func_results : GroupFunc → GroupFuncResult
  pub case_result : List CaseResult

pub record ConfigResult : Type 0 where
  pub name : Bytes
  pub config_id : ℕ
  pub total_passed : ℕ
  pub total_failed : ℕ
  pub group_result : List GroupResult

-- `suite_context->result` and the three globals.
pub record Results : Type 0 where
  pub configs : List ConfigResult
  pub current_config : Option ℕ
  pub current_group : Option ℕ
  pub current_case : Option ℕ
