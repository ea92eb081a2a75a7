-- ===== src/Aggregate/Projection.antt =====
-- aggregate.rs: `projection`, which checks a request and names the columns to read.
pub mod Typed
use rowtrail.Base.{
  Bool, List, Option, Result, [], eqb_list, false, guard, if◌then◌else◌, leb, length, ltb, none,
  not, ok, ok_or, pos, some, true, ℕ, ◌&&◌, ◌==◌, ◌>>=◌, ◌>>◌, ◌||◌, ◌∷◌,
}
use rowtrail.Jobs.{FragmentUnit}
use rowtrail.Aggregate.{
  Aggregate, AggregateError, ColumnType, Function, bad_argument, decimal128, int64, is_count,
  other_function, uint64, unsupported,
}

-- contracts: `AnalyzeParams`. A unit that is neither of the two is none.
pub record AnalyzeParams : Type 0 where
  pub fragment_unit : Option FragmentUnit
  pub checkpoint_interval_ms : ℕ
  pub aggregates : List Aggregate

-- The schema of the input: the types of its columns.
abbrev pub Schema : Type 0
Schema = ℕ → Option ColumnType

unfoldable pub is_unit : Option FragmentUnit → Bool
is_unit none = false
is_unit (some u) = true

unfoldable pub has_alias : List ℕ → List (List ℕ) → Bool
has_alias alias [] = false
has_alias alias (other ∷ others) = eqb_list alias other || has_alias alias others

unfoldable pub is_known : Function → Bool
is_known (other_function name) = false
is_known _ = true

-- Int64 | UInt64 | Decimal128(_, 0..=6)
unfoldable pub is_summable : ColumnType → Bool
is_summable int64 = true
is_summable uint64 = true
is_summable (decimal128 (pos scale)) = leb scale 6
is_summable _ = false

-- `BTreeSet::insert`
unfoldable pub insert_column : ℕ → List ℕ → List ℕ
insert_column name [] = name ∷ []
insert_column name (c ∷ columns) =
    let rest = insert_column name columns in
    if ltb name c then name ∷ c ∷ columns else if name == c then c ∷ columns else c ∷ rest

unfoldable pub check_column : Schema → Function → Option ℕ → List ℕ → Result AggregateError (List ℕ)
unfolding is_count is_summable insert_column
check_column schema function none columns = guard (is_count function) bad_argument >> ok columns
check_column schema function (some name) columns = do
  type ← ok_or (schema name) bad_argument
  guard (is_count function || is_summable type) unsupported
  ok (insert_column name columns)

unfoldable pub check_aggregates :
    Schema → List (List ℕ) → List ℕ → List Aggregate → Result AggregateError (List ℕ)
unfolding has_alias is_known check_column
check_aggregates schema aliases columns [] = ok columns
check_aggregates schema aliases columns (a ∷ rest) = do
  guard (ltb 0 (length a.alias) && leb (length a.alias) 128 && not (has_alias a.alias aliases))
      bad_argument
  guard (is_known a.function) unsupported
  next ← check_column schema a.function a.column columns
  check_aggregates schema (a.alias ∷ aliases) next rest

-- `projection`. No column at all is read as a constant of each row.
unfoldable pub projection : Schema → AnalyzeParams → Result AggregateError (List ℕ)
unfolding is_unit check_aggregates
projection schema p = do
  guard (is_unit p.fragment_unit) unsupported
  guard (leb p.checkpoint_interval_ms 60000) bad_argument
  guard (ltb 0 (length p.aggregates) && leb (length p.aggregates) 16) bad_argument
  check_aggregates schema [] [] p.aggregates
