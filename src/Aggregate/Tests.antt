-- ===== src/Aggregate/Tests.antt =====
-- Runs of the aggregation.
use mathlib.Core.Option.{none-ne-some, some-injective}
use rowtrail.Base.{
  Bool-cases, Ensures, List, Option, OptionAny, Result, Returns, [], abs_sum, arith, checked_add,
  eqb_list, err, if◌then◌else◌, in_signed, inl, inr, map, negsuc, none, ok, pos, refl, some, ℕ,
  ◌*ℤ◌, ◌+ℤ◌, ◌+◌, ◌==◌, ◌^◌, ◌∷◌, ◌≡◌,
}
use rowtrail.Jobs.{available, parquet_row_group}
use rowtrail.Aggregate.{
  Aggregate, AggregateError, Batch, Column, State, accumulate, count_function, int64, is_count,
  is_numeric, sum_function,
}
use rowtrail.Aggregate.Average.{
  and_then, average, average-exact_average, checked_mul, exact_average, quotient, remainder,
}
use rowtrail.Aggregate.Output.{new_state}
use rowtrail.Aggregate.Projection.{AnalyzeParams, Schema, projection}
use rowtrail.Aggregate.Projection.Typed.{Matches, OnlyOverflows, projection-overflows}
use rowtrail.Aggregate.Exact.{counted_all, rows_all, summed_all}
use rowtrail.Aggregate.Scan.{AllGrown, scan-AllGrown}
use rowtrail.Aggregate.Run.{InputFile, Opened, Plan, Session, execute, known_groups, scan}
use rowtrail.Aggregate.Run.Landed.{IsEnded}
use rowtrail.Aggregate.Run.Ended.{execute-Ended}

-- -10 / 4 at scale 6.
two_and_a_half : average (negsuc 9) 4 (10 ^ 6) ≡ some (negsuc 2499999)
unfolding average checked_mul quotient remainder checked_add in_signed and_then ◌*ℤ◌ ◌+ℤ◌
two_and_a_half = refl

average-exact_average_example : average (negsuc 9) 4 (10 ^ 6) ≡ exact_average (negsuc 9) 4 (10 ^ 6)
average-exact_average_example =
    average-exact_average (negsuc 9) 4 (10 ^ 6) (omega arith) (omega arith) (omega arith)

abbrev count_all : Aggregate
count_all = record { function = count_function; alias = 110 ∷ []; column = none }

abbrev sum_price : Aggregate
sum_price = record { function = sum_function; alias = 115 ∷ []; column = some 3 }

abbrev prices : Schema
prices name = if name == 3 then some int64 else none

abbrev price_column : Column
price_column = record { type = int64; values = some (pos 7) ∷ none ∷ some (negsuc 1) ∷ [] }

abbrev price_batch : Batch
price_batch = record {
  num_rows = 3;
  columns = λ name. if name == 3 then some price_column else none;
}

abbrev two_states : List (Aggregate × State)
two_states = (count_all, new_state prices count_all) ∷ (sum_price, new_state prices sum_price) ∷ []

abbrev params : AnalyzeParams
params = record {
  fragment_unit = some parquet_row_group;
  checkpoint_interval_ms = 500;
  aggregates = count_all ∷ sum_price ∷ [];
}

has_price : Matches prices (3 ∷ []) price_batch
has_price name type read h = elim (Bool-cases (name == 3)) [
  | inl e ↦ let same : int64 ≡ type = some-injective _ _ (rw e at h) in rw (e, OptionAny) same
  | inr e ↦ absurd (none-ne-some _ (rw e at h))
]

projection-overflows_example : OnlyOverflows (accumulate two_states price_batch)
unfolding eqb_list
projection-overflows_example =
    projection-overflows prices params (3 ∷ []) two_states price_batch (unfold projection in refl)
      refl has_price

scan-AllGrown_example :
    Returns
      (λ (next, n).
        AllGrown
          (λ a. counted_all a (price_batch ∷ price_batch ∷ []))
          (λ a. summed_all a (price_batch ∷ price_batch ∷ []))
          two_states
          next
        × (n ≡ 0 + rows_all (price_batch ∷ price_batch ∷ [])))
      (scan two_states 0 (map ok (price_batch ∷ price_batch ∷ [])))
unfolding is_count is_numeric
scan-AllGrown_example = scan-AllGrown two_states 0 (price_batch ∷ price_batch ∷ []) (
  (
    (tt, (tt, tt)),
    unfold summed_all in unfold abs_sum in omega arith,
    unfold counted_all in omega arith,
  ),
  (
    (
      (refl, (refl, tt)),
      unfold summed_all in unfold abs_sum in omega arith,
      unfold counted_all in omega arith,
    ),
    tt,
  ),
)

-- One file of two row groups and one without any, whose number is not declared.
abbrev two_groups : Opened
two_groups = record {
  num_row_groups = 2;
  num_rows = 6;
  group_rows = 3 ∷ 3 ∷ [];
  stream = λ index. ok price_batch ∷ [];
  validated = λ index. ok tt;
}

abbrev no_rows : Opened
no_rows = record {
  num_row_groups = 0;
  num_rows = 0;
  group_rows = [];
  stream = λ index. [];
  validated = λ index. ok tt;
}

abbrev price_files : List InputFile
price_files =
    record { row_groups = some 2; rows = some 6; opened = ok two_groups }
    ∷ record { row_groups = none; rows = none; opened = ok no_rows }
    ∷ []

abbrev price_plan : Plan
price_plan = record {
  analysis = record { fragment_unit = parquet_row_group; preview = available };
  result_bytes = 1000;
  due = λ file index. index == 1;
  checkpoint = λ seq left progress cells. ok 10;
}

abbrev seq_of : Result AggregateError Session → Option ℕ
seq_of (ok s) = some s.seq
seq_of (err e) = none

-- A checkpoint after each of the row groups, and the final one.
three_sent :
    seq_of (execute price_plan prices (count_all ∷ sum_price ∷ []) price_files (ok tt)) ≡ some 3
unfolding execute checked_add ◌+ℤ◌
three_sent = refl

execute-Ended_example :
    Ensures
      (IsEnded price_plan.analysis (known_groups price_files))
      (execute price_plan prices (count_all ∷ sum_price ∷ []) price_files (ok tt))
execute-Ended_example =
    execute-Ended price_plan prices (count_all ∷ sum_price ∷ []) price_files (ok tt)
