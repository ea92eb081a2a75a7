-- ===== src/Numeric.antt =====
-- The checked SUM of crates/runtime/src/numeric.rs: data types, the declared output range, and the
-- wide state that every accumulator keeps. The children model the batch fold and the accumulators.
-- An i256 is an integer with a range test; a u64 count is a number with an explicit test. An error
-- ends the query that meets it, so the state that an error leaves behind is not modelled.
pub mod Output
pub mod Batch
pub mod Accumulator
pub mod Groups
pub mod Tests
use rowtrail.Base.{
  Bool, Option, Result, String, checked_add, checked_sub, err, false, if◌then◌else◌, in_signed, ltb,
  ltb_ℤ, neg_part, negsuc, none, ok, ok_or, pos, pos_part, some, true, ℕ, ℤ, ◌%◌, ◌+◌, ◌-ℤ◌, ◌-◌,
  ◌==◌, ◌>>=◌, ◌>>◌, ◌^◌, ◌||◌,
}

-- arrow's `DataType`, with the constructors that the module tells apart; `plain` is any other.
-- Precisions are u8 and scales i8; a field of a nested type is its data type.
mutual
  pub data DataType : Type 0 where
    int64 uint64 float64 plain : DataType
    decimal32 decimal64 decimal128 decimal256 : ℕ → ℤ → DataType
    list large_list list_view large_list_view map_of : DataType → DataType
    fixed_size_list : DataType → ℕ → DataType
    run_end_encoded : DataType → DataType → DataType
    struct_of union_of : Fields → DataType
    dictionary : DataType → DataType → DataType

  pub data Fields : Type 0 where
    nil : Fields
    cons : DataType → Fields → Fields

-- The literal reasons of `NumericError`.
pub data Reason : Type 0 where
  final_sum_range sum_overflow row_count_overflow invalid_retraction : Reason
  distinct_count_overflow invalid_distinct_retraction : Reason

-- `numeric` is a `NumericError` of SUM, `internal` the engine's error for an input type that the
-- planner never sends, and `panic` a failed `unwrap` or an index out of bounds.
pub data SumError : Type 0 where
  numeric : DataType → String → Reason → SumError
  internal : DataType → SumError
  panic : SumError

unfoldable pub checked : DataType → Bool
checked int64 = true
checked uint64 = true
checked (decimal32 p s) = true
checked (decimal64 p s) = true
checked (decimal128 p s) = true
checked (decimal256 p s) = true
checked _ = false

pub record Range : Type 0 where
  pub dt : DataType
  pub expression : String
  pub min : ℤ
  pub max : ℤ

-- `i256::from_i128(10).checked_pow(p).unwrap() - ONE`, and its negation; `none` is the panic.
decimal_range : DataType → String → ℕ → Option Range
decimal_range dt name p =
    if in_signed 255 (pos (10 ^ p))
    then some (record {
      dt = dt;
      expression = name;
      min = pos 0 -ℤ pos (10 ^ p - 1);
      max = pos (10 ^ p - 1);
    })
    else none

-- `Range::new`; `none` is `unreachable!()`.
unfoldable pub new_range : DataType → String → Option Range
unfolding decimal_range in_signed
new_range int64 name =
    some
      (record { dt = int64; expression = name; min = negsuc (2 ^ 63 - 1); max = pos (2 ^ 63 - 1) })
new_range uint64 name =
    some (record { dt = uint64; expression = name; min = pos 0; max = pos (2 ^ 64 - 1) })
new_range (decimal32 p s) name = decimal_range (decimal32 p s) name p
new_range (decimal64 p s) name = decimal_range (decimal64 p s) name p
new_range (decimal128 p s) name = decimal_range (decimal128 p s) name p
new_range (decimal256 p s) name = decimal_range (decimal256 p s) name p
new_range _ name = none

abbrev pub fail : Range → Reason → SumError
fail range reason = numeric range.dt range.expression reason

pub record State : Type 0 where
  pub sum : ℤ  -- i256
  pub count : ℕ  -- u64

abbrev pub default : State
default = record { sum = pos 0; count = 0 }

-- `u64::checked_add`
unfoldable pub checked_add_u64 : ℕ → ℕ → Option ℕ
checked_add_u64 a b = if ltb (a + b) (2 ^ 64) then some (a + b) else none

-- `State::add`
unfoldable pub add : State → ℤ → ℕ → Range → Result SumError State
add state value count range = do
  sum ← ok_or (checked_add 255 state.sum value) (fail range sum_overflow)
  total ← ok_or (checked_add_u64 state.count count) (fail range row_count_overflow)
  ok (record { sum = sum; count = total })

-- `u64::checked_sub` of one
checked_pred : ℕ → Option ℕ
checked_pred n = if n == 0 then none else some (n - 1)

-- `State::subtract`
unfoldable pub subtract : State → ℤ → Range → Result SumError State
unfolding checked_pred
subtract state value range = do
  sum ← ok_or (checked_sub 255 state.sum value) (fail range sum_overflow)
  total ← ok_or (checked_pred state.count) (fail range invalid_retraction)
  ok (record { sum = sum; count = total })

pub data ScalarValue : Type 0 where
  null : DataType → ScalarValue
  scalar_value : DataType → ℤ → ScalarValue

-- `as iN` at N = k + 1 and `as u64`: the low bits, read in two's complement or as they are.
low_bits : ℕ → ℤ → ℕ
low_bits m v = (pos_part v + (m - neg_part v % m)) % m

wrap_signed : ℕ → ℤ → ℤ
unfolding low_bits
wrap_signed k v =
    let bits = low_bits (2 ^ (k + 1)) v in
    if ltb bits (2 ^ k) then pos bits else negsuc (2 ^ (k + 1) - 1 - bits)

-- `i256::to_i128().unwrap()`
to_i128 : ℤ → Result SumError ℤ
to_i128 v = if in_signed 127 v then ok v else err panic

-- The match of `Range::scalar` on the declared type.
cast : DataType → ℤ → Result SumError ScalarValue
unfolding to_i128 in_signed wrap_signed low_bits
cast int64 v = do w ← to_i128 v; ok (scalar_value int64 (wrap_signed 63 w))
cast uint64 v = do w ← to_i128 v; ok (scalar_value uint64 (pos (low_bits (2 ^ 64) w)))
cast (decimal32 p s) v = do w ← to_i128 v; ok (scalar_value (decimal32 p s) (wrap_signed 31 w))
cast (decimal64 p s) v = do w ← to_i128 v; ok (scalar_value (decimal64 p s) (wrap_signed 63 w))
cast (decimal128 p s) v = do w ← to_i128 v; ok (scalar_value (decimal128 p s) w)
cast (decimal256 p s) v = ok (scalar_value (decimal256 p s) v)
cast _ v = err panic

-- `Range::scalar`
unfoldable pub scalar : Range → State → Result SumError ScalarValue
unfolding cast
scalar range state =
    if state.count == 0
    then ok (null range.dt)
    else if ltb_ℤ state.sum range.min || ltb_ℤ range.max state.sum
    then err (fail range final_sum_range)
    else cast range.dt state.sum
