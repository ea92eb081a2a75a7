-- ===== src/Aggregate/Output.antt =====
-- aggregate.rs: `output`, the row of one checkpoint, and the states of `execute` at its start.
use rowtrail.Base.{
  Bool, List, Option, Result, [], abs, guard, if◌then◌else◌, ltb, none, ok, ok_or, pos, pos_part,
  some, true, ℕ, ℤ, ◌-◌, ◌==◌, ◌>>=◌, ◌>>◌, ◌^◌, ◌∷◌,
}
use rowtrail.Aggregate.{
  Aggregate, AggregateError, Cell, ColumnType, Function, State, decimal, decimal128, is_avg,
  is_count, overflow, unsigned,
}
use rowtrail.Aggregate.Average.{average}
use rowtrail.Aggregate.Projection.{Schema}

-- `value.unsigned_abs() < 10u128.pow(38)`
unfoldable pub fits_decimal : Option ℤ → Bool
fits_decimal none = true
fits_decimal (some v) = ltb (abs v) (10 ^ 38)

-- `10i128.pow((6 - scale) as u32)`, for the scales that `projection` lets through.
unfoldable pub scale_factor : ℤ → ℕ
scale_factor scale = 10 ^ (6 - pos_part scale)

unfoldable pub output_value : Function → State → Result AggregateError (Option ℤ)
unfolding is_avg average scale_factor
output_value function state =
    if state.count == 0
    then ok none
    else if is_avg function
    then (do
      v ← ok_or (average state.sum state.count (scale_factor state.scale)) overflow
      ok (some v))
    else ok (some state.sum)

unfoldable pub output_cell : Aggregate → State → Result AggregateError Cell
unfolding is_count is_avg output_value fits_decimal
output_cell a state = if is_count a.function then ok (unsigned state.count) else do
  value ← output_value a.function state
  guard (fits_decimal value) overflow
  ok (decimal (if is_avg a.function then pos 6 else state.scale) value)

-- `output`
unfoldable pub output : List (Aggregate × State) → Result AggregateError (List Cell)
unfolding output_cell
output [] = ok []
output ((a, state) ∷ rest) = do cell ← output_cell a state; cells ← output rest; ok (cell ∷ cells)

unfoldable pub scale_of : Option ColumnType → ℤ
scale_of (some (decimal128 scale)) = scale
scale_of _ = pos 0

abbrev pub new_state : Schema → Aggregate → State
new_state schema a = record {
  sum = pos 0;
  count = 0;
  scale = elim a.column [ none ↦ pos 0 | some name ↦ scale_of (schema name) ];
}

unfoldable pub new_states : Schema → List Aggregate → List (Aggregate × State)
unfolding scale_of
new_states schema [] = []
new_states schema (a ∷ rest) = (a, new_state schema a) ∷ new_states schema rest
