-- ===== src/Numeric/Accumulator.antt =====
-- numeric.rs: `CheckedAccumulator`, for a plain, a DISTINCT and a sliding-window SUM. The hash map
-- of DISTINCT is an association list with one entry for each key; its order is never observed but
-- in `state`, whose list a merge reads in any order.
pub mod Sound
use rowtrail.Base.{
  Bool, List, Option, Result, String, [], eqb_ℤ, err, if◌then◌else◌, ltb, none, ok, ok_or, some, ℕ,
  ℤ, ◌-◌, ◌==◌, ◌>>=◌, ◌>>◌, ◌∷◌,
}
use rowtrail.Numeric.{
  DataType, Range, ScalarValue, State, SumError, add, checked_add_u64, default,
  distinct_count_overflow, fail, invalid_distinct_retraction, new_range, panic, scalar, subtract,
}
use rowtrail.Numeric.Batch.{Array, add_batch, values}

abbrev pub Counts : Type 0
Counts = List (ℤ × ℕ)

pub record Accumulator : Type 0 where
  pub range : Range
  pub state : State
  pub distinct : Option Counts

-- `CheckedAccumulator::new`; `none` is the panic of `Range::new`.
unfoldable pub new_accumulator : DataType → String → Bool → Option Accumulator
new_accumulator dt name is_distinct = elim (new_range dt name) [
  | none ↦ none
  | some range ↦
      some (record {
        range = range;
        state = default;
        distinct = if is_distinct then some [] else none;
      })
]

-- The map: `get`, `insert` and `remove` of a key.
count_of : ℤ → Counts → Option ℕ
count_of v [] = none
count_of v ((w, n) ∷ counts) = if eqb_ℤ w v then some n else count_of v counts

put : ℤ → ℕ → Counts → Counts
put v n [] = (v, n) ∷ []
put v n ((w, m) ∷ counts) = if eqb_ℤ w v then (w, n) ∷ counts else (w, m) ∷ put v n counts

remove : ℤ → Counts → Counts
remove v [] = []
remove v ((w, m) ∷ counts) = if eqb_ℤ w v then counts else (w, m) ∷ remove v counts

-- `set.entry(v).or_default()`
or_zero : Option ℕ → ℕ
or_zero none = 0
or_zero (some n) = n

-- `insert` on the map and the state; the flag of the map is fixed, so it is matched first.
insert_distinct : Range → ℤ → State × Counts → Result SumError (State × Counts)
insert_distinct range v (state, counts) = do
  n ← ok_or (checked_add_u64 (or_zero (count_of v counts)) 1) (fail range distinct_count_overflow)
  let counts' = put v n counts
  if ltb 1 n then ok (state, counts') else do state' ← add state v 1 range; ok (state', counts')

-- One value of `retract_batch`. A count that is 0 would underflow: a panic.
retract_distinct : Range → ℤ → State × Counts → Result SumError (State × Counts)
retract_distinct range v (state, counts) = do
  n ← ok_or (count_of v counts) (fail range invalid_distinct_retraction)
  if n == 0
      then err panic
      else if ltb 1 n
      then ok (state, put v (n - 1) counts)
      else do state' ← subtract state v range; ok (state', remove v counts)

-- The new state in place.
stored : Accumulator → Result SumError (State × Counts) → Result SumError Accumulator
stored acc r = do (state, counts) ← r; ok (record acc { state = state; distinct = some counts })

-- `insert`
unfoldable pub insert : Accumulator → ℤ → Result SumError Accumulator
unfolding insert_distinct stored or_zero put count_of
insert acc v = elim acc.distinct [
  | none ↦ do state ← add acc.state v 1 acc.range; ok (record acc { state = state })
  | some counts ↦ stored acc (insert_distinct acc.range v (acc.state, counts))
]

-- The closure of `retract_batch`.
unfoldable pub retract : Accumulator → ℤ → Result SumError Accumulator
unfolding retract_distinct stored put count_of remove
retract acc v = elim acc.distinct [
  | none ↦ do state ← subtract acc.state v acc.range; ok (record acc { state = state })
  | some counts ↦ stored acc (retract_distinct acc.range v (acc.state, counts))
]

-- `update_batch`
pub update_batch : Accumulator → Array → Result SumError Accumulator
unfolding insert
update_batch acc array = elim acc.distinct [
  | none ↦ do state ← add_batch acc.state array acc.range; ok (record acc { state = state })
  | some counts ↦ values array (λ i v acc. insert acc v) acc
]

-- `retract_batch`
pub retract_batch : Accumulator → Array → Result SumError Accumulator
unfolding retract
retract_batch acc array = values array (λ i v acc. retract acc v) acc

-- `evaluate`
pub evaluate : Accumulator → Result SumError ScalarValue
evaluate acc = scalar acc.range acc.state

-- The partial state that `state` hands to a merge: one wide sum and a count, or the list of keys.
pub data Partial : Type 0 where
  wide : ℤ → ℕ → Partial
  keys : List ℤ → Partial

unfoldable pub keys_of : Counts → List ℤ
keys_of [] = []
keys_of ((v, n) ∷ counts) = v ∷ keys_of counts

pub state_of : Accumulator → Partial
unfolding keys_of
state_of acc = elim acc.distinct [
  | none ↦ wide acc.state.sum acc.state.count
  | some counts ↦ keys (keys_of counts)
]

insert_all : Accumulator → List ℤ → Result SumError Accumulator
unfolding insert
insert_all acc [] = ok acc
insert_all acc (v ∷ vs) = do acc' ← insert acc v; insert_all acc' vs

-- One row of `merge_batch`; a partial state of the other kind fails the downcast.
merge_wide : Accumulator → Partial → Result SumError Accumulator
merge_wide acc (wide total count) = do
  state ← add acc.state total count acc.range
  ok (record acc { state = state })
merge_wide acc (keys vs) = err panic

merge_keys : Accumulator → Partial → Result SumError Accumulator
unfolding insert_all
merge_keys acc (wide total count) = err panic
merge_keys acc (keys vs) = insert_all acc vs

pub merge : Accumulator → Partial → Result SumError Accumulator
unfolding merge_wide merge_keys
merge acc part = elim acc.distinct [
  | none ↦ merge_wide acc part
  | some counts ↦ merge_keys acc part
]
