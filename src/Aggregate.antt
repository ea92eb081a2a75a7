-- ===== src/Aggregate.antt =====
-- The progressive aggregation of crates/runtime/src/aggregate.rs: what one aggregate accepts,
-- accumulates and puts out. Names of columns are numbers.
pub mod Average
pub mod Projection
pub mod Output
pub mod Run
pub mod Exact
pub mod Scan
pub mod Tests
use rowtrail.Base.{
  Bool, List, Option, Result, [], checked_add, false, guard, if◌then◌else◌, length, ltb, none, ok,
  ok_or, some, true, ℕ, ℤ, ◌+◌, ◌>>=◌, ◌>>◌, ◌^◌, ◌∷◌,
}

pub data AggregateError : Type 0 where
  unsupported bad_argument overflow corrupt source_changed stopped : AggregateError

pub data Function : Type 0 where
  count_function sum_function avg_function : Function
  other_function : ℕ → Function

-- The types that the code tells apart; a decimal has its scale.
pub data ColumnType : Type 0 where
  int64 uint64 other_type : ColumnType
  decimal128 : ℤ → ColumnType

-- An element of `AnalyzeParams.aggregates`.
pub record Aggregate : Type 0 where
  pub function : Function
  pub alias : List ℕ  -- its bytes
  pub column : Option ℕ

pub record Column : Type 0 where
  pub type : ColumnType
  pub values : List (Option ℤ)

pub record Batch : Type 0 where
  pub num_rows : ℕ
  pub columns : ℕ → Option Column

pub record State : Type 0 where
  pub sum : ℤ
  pub count : ℕ
  pub scale : ℤ

-- A cell of the output row.
pub data Cell : Type 0 where
  unsigned : ℕ → Cell
  decimal : ℤ → Option ℤ → Cell

-- `add`
unfoldable pub add : State → ℤ → Result AggregateError State
add state value = do
  total ← ok_or (checked_add 127 state.sum value) overflow
  ok (record state { sum = total })

-- `count`
unfoldable pub count : State → ℕ → Result AggregateError State
count state n = do
  guard (ltb (state.count + n) (2 ^ 64)) overflow
  ok (record state { count = state.count + n })

unfoldable pub is_count : Function → Bool
is_count count_function = true
is_count _ = false

unfoldable pub is_avg : Function → Bool
is_avg avg_function = true
is_avg _ = false

unfoldable pub flatten : List (Option ℤ) → List ℤ
flatten [] = []
flatten (none ∷ values) = flatten values
flatten (some v ∷ values) = v ∷ flatten values

unfoldable pub add_all : State → List ℤ → Result AggregateError State
unfolding add
add_all state [] = ok state
add_all state (v ∷ values) = add state v >>= λ next. add_all next values

unfoldable pub is_numeric : ColumnType → Bool
is_numeric other_type = false
is_numeric _ = true

-- The body of the loop of `accumulate`; `len() - null_count()` is the count of the values.
unfoldable pub accumulate_one : Aggregate → Batch → State → Result AggregateError State
unfolding count is_count flatten add_all is_numeric
accumulate_one a batch state = elim a.column [
  | none ↦ count state batch.num_rows
  | some name ↦ do
    array ← ok_or (batch.columns name) corrupt
    counted ← count state (length (flatten array.values))
    if is_count a.function
        then ok counted
        else guard (is_numeric array.type) unsupported >> add_all counted (flatten array.values)
]

-- `accumulate`, over the aggregates zipped with their states.
unfoldable pub accumulate :
    List (Aggregate × State) → Batch → Result AggregateError (List (Aggregate × State))
unfolding accumulate_one
accumulate [] batch = ok []
accumulate ((a, state) ∷ rest) batch = do
  next ← accumulate_one a batch state
  others ← accumulate rest batch
  ok ((a, next) ∷ others)
