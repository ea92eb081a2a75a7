-- ===== src/Numeric/Groups.antt =====
-- numeric.rs: `CheckedGroups`, one wide state for each group of a GROUP BY. A row carries its
-- group's index; a filter keeps the rows at which it is true, and neither null nor false.
pub mod Sound
use rowtrail.Base.{
  Bool, List, Option, Result, [], false, get_elem?, if◌then◌else◌, length, map, none, ok, ok_or,
  pos, replicate, set, some, suc, true, zero, ℕ, ℤ, ◌>>=◌, ◌>>◌, ◌∷◌,
}
use rowtrail.Numeric.{Range, ScalarValue, State, SumError, add, decimal256, default, panic, scalar}
use rowtrail.Numeric.Batch.{Array, values}

-- `Vec::resize(total, State::default())`
pub resize : ℕ → List State → List State
resize zero groups = []
resize (suc n) [] = default ∷ resize n []
resize (suc n) (s ∷ groups) = s ∷ resize n groups

-- `filter.is_none_or(|f| !f.is_null(i) && f.value(i))`; a cell of the filter is a nullable Boolean.
pub keeps : Option (List (Option Bool)) → ℕ → Result SumError Bool
keeps none i = ok true
keeps (some filter) i = do
  cell ← ok_or (get_elem? filter i) panic
  elim cell [ none ↦ ok false | some b ↦ ok b ]

-- `self.groups[index].add(v, count, range)?`; an index out of bounds is a panic.
add_at : Range → ℕ → ℤ → ℕ → List State → Result SumError (List State)
add_at range index v count groups = do
  s ← ok_or (get_elem? groups index) panic
  s' ← add s v count range
  ok (set groups index s')

-- The closure of `update_batch`.
update_row :
    Range → List ℕ → Option (List (Option Bool)) → ℕ → ℤ → List State → Result SumError (List State)
unfolding keeps add_at
update_row range indices filter i v groups = do
  kept ← keeps filter i
  if kept
      then (do index ← ok_or (get_elem? indices i) panic; add_at range index v 1 groups)
      else ok groups

-- `update_batch`
unfoldable pub update_batch :
    Range
    → Array
    → List ℕ
    → Option (List (Option Bool))
    → ℕ
    → List State
    → Result SumError (List State)
unfolding update_row resize
update_batch range array indices filter total groups =
    values array (update_row range indices filter) (resize total groups)

-- The closure of `merge_batch`.
merge_row : Range → List ℕ → List ℕ → ℕ → ℤ → List State → Result SumError (List State)
unfolding add_at
merge_row range counts indices i v groups = do
  index ← ok_or (get_elem? indices i) panic
  count ← ok_or (get_elem? counts i) panic
  add_at range index v count groups

-- `merge_batch` of a column of wide sums and a column of counts.
pub merge_batch : Range → Array → List ℕ → List ℕ → ℕ → List State → Result SumError (List State)
unfolding merge_row resize
merge_batch range sums counts indices total groups =
    values sums (merge_row range counts indices) (resize total groups)

-- `convert_to_state`: every row becomes a partial state of its own. A null row, or one that the
-- filter drops, keeps the zeros that the two vectors start with.
convert_row :
    Option (List (Option Bool)) → ℕ → ℤ → List ℤ × List ℕ → Result SumError (List ℤ × List ℕ)
unfolding keeps
convert_row filter i v (sums, counts) = do
  kept ← keeps filter i
  if kept then ok (set sums i v, set counts i 1) else ok (sums, counts)

pub convert_to_state : Array → Option (List (Option Bool)) → Result SumError (List ℤ × List ℕ)
unfolding convert_row
convert_to_state array filter =
    values array (convert_row filter)
      (replicate (length array.cells) (pos 0), replicate (length array.cells) 0)

-- The partial sums as the array that a merge reads: `Decimal256(76, 0)` without nulls.
pub wide_array : List ℤ → Array
wide_array sums = record { data_type = decimal256 76 (pos 0); cells = map (λ v. some v) sums }

-- `evaluate` of the emitted groups.
pub evaluate : Range → List State → Result SumError (List ScalarValue)
evaluate range [] = ok []
evaluate range (s ∷ groups) = do v ← scalar range s; vs ← evaluate range groups; ok (v ∷ vs)
