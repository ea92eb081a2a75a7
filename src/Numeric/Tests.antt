-- ===== src/Numeric/Tests.antt =====
-- Runs of the checked SUM on small inputs.
use rowtrail.Base.{
  Bool, List, Option, [], abs_sum, arith, checked_add, checked_sub, eqb_ℤ, false, get_elem?,
  in_signed, length, negsuc, none, ok, pos, refl, some, sub_ℕ, sum, true, ◌+ℤ◌, ◌+◌, ◌-◌, ◌^◌, ◌∷◌,
  ◌≡◌,
}
use rowtrail.Numeric.{
  Range, State, add, checked, checked_add_u64, decimal128, decimal64, int64, new_range, subtract,
}
use rowtrail.Numeric.Output.{HasRange, output_of, scalar_correct}
use rowtrail.Numeric.Batch.{Array, add_batch, flatten, values}
use rowtrail.Numeric.Batch.Exact.{add_batch_exact}
use rowtrail.Numeric.Batch.Total.{add_batch_total}
use rowtrail.Numeric.Accumulator.{Accumulator, evaluate, insert, new_accumulator, retract}
use rowtrail.Numeric.Accumulator.Sound.Window.{
  Move, enter, leave, slide, slide-evaluate, window_after, window_state,
}
use rowtrail.Numeric.Groups.Sound.{bumped, update_batch_groups, values_of}
use rowtrail.Numeric.Groups.{resize, update_batch}

abbrev int_range : Range
int_range = record {
  dt = int64;
  expression = "sum(x)";
  min = negsuc (2 ^ 63 - 1);
  max = pos (2 ^ 63 - 1);
}

-- Five values and a null.
abbrev cells_with_null : Array
cells_with_null = record {
  data_type = int64;
  cells = some (pos 3) ∷ none ∷ some (negsuc 0) ∷ some (pos 10) ∷ some (pos 4) ∷ some (pos 7) ∷ [];
}

-- A batch whose lanes overflow i128.
abbrev wide_cells : Array
wide_cells = record {
  data_type = decimal128 38 (pos 0);
  cells =
      some (pos (2 ^ 126))
      ∷ some (pos 1)
      ∷ some (pos 1)
      ∷ some (pos 1)
      ∷ some (pos (2 ^ 126))
      ∷ some (pos 5)
      ∷ [];
}

abbrev no_rows : State
no_rows = record { sum = pos 0; count = 0 }

abbrev five_rows : State
five_rows = record { sum = pos 23; count = 5 }

add_batch_exact_example :
    (pos 23 ≡ pos 0 +ℤ sum (flatten cells_with_null.cells))
    × (5 ≡ 0 + length (flatten cells_with_null.cells))
unfolding add_batch add checked_add ◌+ℤ◌ checked_add_u64 in_signed sub_ℕ
add_batch_exact_example = add_batch_exact no_rows cells_with_null int_range {t = five_rows} refl

add_batch_total_example :
    add_batch no_rows wide_cells int_range
    ≡ ok (record {
      sum = pos 0 +ℤ sum (flatten wide_cells.cells);
      count = 0 + length (flatten wide_cells.cells);
    })
add_batch_total_example =
    add_batch_total no_rows wide_cells int_range (unfold checked in refl)
      (unfold flatten abs_sum in omega arith) (unfold flatten in omega arith)

scalar_correct_example : HasRange (decimal64 3 (pos 0)) "sum(x)"
scalar_correct_example = scalar_correct (decimal64 3 (pos 0)) "sum(x)" (omega arith)

-- A batch of 4, null, 9 and 4 enters, and a batch of one 4 leaves.
abbrev entering : Array
entering = record {
  data_type = int64;
  cells = some (pos 4) ∷ none ∷ some (pos 9) ∷ some (pos 4) ∷ [];
}

abbrev leaving : Array
leaving = record { data_type = int64; cells = some (pos 4) ∷ [] }

abbrev window_moves : List Move
window_moves = enter entering ∷ leave leaving ∷ []

abbrev distinct_start : Accumulator
distinct_start = record { range = int_range; state = no_rows; distinct = some [] }

abbrev distinct_end : Accumulator
distinct_end = record {
  range = int_range;
  state = record { sum = pos 13; count = 2 };
  distinct = some ((pos 4, 1) ∷ (pos 9, 1) ∷ []);
}

abbrev plain_end : Accumulator
plain_end = record {
  range = int_range;
  state = record { sum = pos 13; count = 2 };
  distinct = none;
}

-- The same moves on a plain window go through the lanes.
plain_slide : slide window_moves (record distinct_start { distinct = none }) ≡ ok plain_end
unfolding slide insert retract add subtract checked_add checked_sub ◌+ℤ◌ checked_add_u64 in_signed
    add_batch values checked rowtrail.Base.◌-ℤ◌
plain_slide = refl

slide-evaluate_example :
    evaluate distinct_end ≡ output_of int64 "sum(x)" (window_state true (pos 9 ∷ pos 4 ∷ []))
unfolding new_range new_accumulator window_after slide insert retract add subtract checked_add
    checked_sub ◌+ℤ◌ checked_add_u64 in_signed sub_ℕ eqb_ℤ values checked
slide-evaluate_example =
    slide-evaluate int64 "sum(x)" true window_moves {acc = distinct_start} {acc' = distinct_end}
      {window = pos 9 ∷ pos 4 ∷ []} tt refl refl refl

-- Rows of two groups, with a null and a filtered row; a third group is new.
abbrev two_groups : List State
two_groups = record { sum = pos 1; count = 1 } ∷ no_rows ∷ []

abbrev groups_after : List State
groups_after = record { sum = pos 4; count = 2 } ∷ record { sum = pos 14; count = 2 } ∷ no_rows ∷ []

abbrev row_filter : Option (List (Option Bool))
row_filter = some (some true ∷ some true ∷ none ∷ some true ∷ some true ∷ some false ∷ [])

update_batch_groups_example :
    get_elem? groups_after 1
    ≡ bumped
        (values_of (0 ∷ 1 ∷ 0 ∷ 1 ∷ 1 ∷ 0 ∷ []) row_filter 1 0 cells_with_null.cells)
        (get_elem? (resize 3 two_groups) 1)
unfolding update_batch checked_add ◌+ℤ◌ checked_add_u64 in_signed sub_ℕ add values checked
update_batch_groups_example =
    update_batch_groups int_range cells_with_null (0 ∷ 1 ∷ 0 ∷ 1 ∷ 1 ∷ 0 ∷ []) row_filter 3
      two_groups groups_after 1 refl
