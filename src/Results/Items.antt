-- ===== src/Results/Items.antt =====
-- `teeio_record_config_item_result` of teeio-validator/library/helperlib/teeio_common.c: the
-- configuration items of a case, one for each id.
use tee_io_validator.Common.{
  ℕ, Bool, true, false, List, [], ◌∷◌, none, some, ◌≡◌, ◌≢◌, arith, ◌==◌, if◌then◌else◌, All,
  Outcome, returns, ◌>>=◌,
}
use tee_io_validator.Results.{
  TestResult, not_tested, ConfigFunc, support_func, enable_func, disable_func, check_func,
  ConfigItemResult, Results,
}
use tee_io_validator.Results.Record.{on_case}

abbrev pub config_func_eq : ConfigFunc → ConfigFunc → Bool
config_func_eq support_func support_func = true
config_func_eq enable_func enable_func = true
config_func_eq disable_func disable_func = true
config_func_eq check_func check_func = true
config_func_eq _ _ = false

-- `results[func] = result`.
abbrev pub put_result : ConfigFunc → TestResult → ConfigItemResult → ConfigItemResult
put_result func result item = record item {
  results = λ f. if config_func_eq func f then result else item.results f;
}

-- The item after `malloc` and `memset`.
abbrev pub new_item : ℕ → ConfigItemResult
new_item id = record { config_item_id = id; results = λ _. not_tested }

-- The walk to the first item with the id, or to the end of the list, where a new one is put.
unfoldable pub record_item :
    ℕ → ConfigFunc → TestResult → List ConfigItemResult → List ConfigItemResult
record_item id func result [] = put_result func result (new_item id) ∷ []
record_item id func result (item ∷ rest) =
    if item.config_item_id == id
    then put_result func result item ∷ rest
    else item ∷ record_item id func result rest

unfoldable pub record_config_item_result :
    ℕ → ConfigFunc → TestResult → Results → Outcome (Bool × Results)
record_config_item_result id func result s = elim s.current_case [
  | none ↦ returns (false, s)
  | some k ↦
      on_case
        (λ r. record r { config_item_result = record_item id func result r.config_item_result }) s
      >>= λ s'. returns (true, s')
]

-- The result that stands for a function of an item; `not_tested` where the item is missing.
abbrev pub item_result : ℕ → ConfigFunc → List ConfigItemResult → TestResult
item_result id func [] = not_tested
item_result id func (item ∷ rest) =
    if item.config_item_id == id then item.results func else item_result id func rest

-- Reading a result back gives what was recorded last for this item and function, and what was
-- there before for every other.
pub item_result-record_item :
    (id id' : ℕ) (func func' : ConfigFunc) (result : TestResult) (items : List ConfigItemResult)
    → item_result id' func' (record_item id func result items) ≡ (
        if id == id'
        then if config_func_eq func func' then result else item_result id' func' items
        else item_result id' func' items)
unfolding record_item
item_result-record_item id id' func func' result [] = ground arith
item_result-record_item id id' func func' result (item ∷ rest) =
    ground (arith, item_result-record_item id id' func func' result rest)

-- No id occurs twice.
abbrev pub UniqueIds : List ConfigItemResult → Type 0
UniqueIds [] = Unit
UniqueIds (item ∷ rest) =
    All (λ other. other.config_item_id ≢ item.config_item_id) rest × UniqueIds rest

record_item-All-ne :
    (id other : ℕ) (func : ConfigFunc) (result : TestResult) (items : List ConfigItemResult)
    → id ≢ other
    → All (λ item. item.config_item_id ≢ other) items
    → All (λ item. item.config_item_id ≢ other) (record_item id func result items)
unfolding record_item
record_item-All-ne id other func result [] ne h = (ne, tt)
record_item-All-ne id other func result (item ∷ rest) ne h =
    ground (arith, record_item-All-ne id other func result rest ne h.1)

-- Recording keeps one item for each id.
pub record_item-UniqueIds :
    (id : ℕ) (func : ConfigFunc) (result : TestResult) (items : List ConfigItemResult)
    → UniqueIds items
    → UniqueIds (record_item id func result items)
unfolding record_item
record_item-UniqueIds id func result [] u = (tt, tt)
record_item-UniqueIds id func result (item ∷ rest) u = ground (
  arith,
  record_item-UniqueIds id func result rest u.1,
  record_item-All-ne id item.config_item_id func result rest,
)
