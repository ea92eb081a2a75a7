-- ===== src/Aggregate/Exact.antt =====
-- aggregate.rs: `accumulate` over the batches of a fragment is exact.
-- use mathlib.Core.List.{*}
use rowtrail.Base.{
  +ℤ_assoc, +ℤ_zero, Bool-cases, List, Option, Option-cases, OptionAny, OptionAny-value, Returns,
  Returns-bind, Returns-weaken, [], abs, abs-+ℤ-le, abs_sum, ap, arith, checked_add, guard,
  if◌then◌else◌, in_signed, inl, inr, length, ltb, none, ok, refl, some, sum, sym, true, ℕ, ℤ, ◌++◌,
  ◌+ℤ◌, ◌+◌, ◌<◌, ◌>>=◌, ◌>>◌, ◌^◌, ◌||◌, ◌∙◌, ◌∷◌, ◌≡◌,
}
use rowtrail.Aggregate.{
  Aggregate, Batch, Column, Function, State, accumulate_one, add, add_all, count, flatten, is_count,
  is_numeric, unsupported,
}

unfoldable pub column_values : Option Column → List ℤ
unfolding flatten
column_values none = []
column_values (some array) = flatten array.values

-- The values that a batch adds to the sum of an aggregate.
unfoldable pub summed : Aggregate → Batch → List ℤ
unfolding column_values is_count
summed a batch = elim a.column [
  | none ↦ []
  | some name ↦ if is_count a.function then [] else column_values (batch.columns name)
]

-- The rows that a batch adds to its count.
unfoldable pub counted : Aggregate → Batch → ℕ
unfolding column_values
counted a batch = elim a.column [
  | none ↦ batch.num_rows
  | some name ↦ length (column_values (batch.columns name))
]

unfoldable pub summed_all : Aggregate → List Batch → List ℤ
unfolding summed
summed_all a [] = []
summed_all a (batch ∷ batches) = summed a batch ++ summed_all a batches

unfoldable pub counted_all : Aggregate → List Batch → ℕ
unfolding counted
counted_all a [] = 0
counted_all a (batch ∷ batches) = counted a batch + counted_all a batches

unfoldable pub rows_all : List Batch → ℕ
rows_all [] = 0
rows_all (batch ∷ batches) = batch.num_rows + rows_all batches

-- The column of an aggregate is there, and numeric unless it is only counted.
abbrev pub IsReadable : Aggregate → Batch → Type 0
IsReadable a batch = elim a.column [
  | none ↦ Unit
  | some name ↦
      OptionAny (λ array. (is_count a.function || is_numeric array.type) ≡ true)
        (batch.columns name)
]

-- The state that the batches must leave.
abbrev pub IsGrown : ℕ → List ℤ → State → State → Type 0
IsGrown n values state next =
    (next.sum ≡ state.sum +ℤ sum values)
    × (next.count ≡ state.count + n)
    × (next.scale ≡ state.scale)

sum_in_range : (s v : ℤ) → abs s + abs v < 2 ^ 127 → in_signed 127 (s +ℤ v) ≡ true
unfolding in_signed
sum_in_range s v h = let parts = abs-+ℤ-le s v in ground (arith, parts)

add_all-IsGrown :
    (values : List ℤ) (state : State)
    → abs state.sum + abs_sum values < 2 ^ 127
    → Returns (IsGrown 0 values state) (add_all state values)
unfolding add_all add checked_add sum abs_sum
add_all-IsGrown [] state h = (sym (+ℤ_zero state.sum), omega arith, refl)
add_all-IsGrown (v ∷ values) state h =
    let fits = sum_in_range state.sum v (omega arith) in
    let next = record state { sum = state.sum +ℤ v } in
    let bound = abs-+ℤ-le state.sum v in
    rw fits (
      Returns-weaken (IsGrown 0 values next) (IsGrown 0 (v ∷ values) state) (add_all next values)
        (λ t (x, y, z). (x ∙ +ℤ_assoc state.sum v (sum values), y, z))
        (add_all-IsGrown values next (omega arith)))

count-IsGrown :
    (n : ℕ) (state : State)
    → state.count + n < 2 ^ 64
    → Returns (IsGrown n [] state) (count state n)
unfolding count sum
count-IsGrown n state h =
    let fits : ltb (state.count + n) (2 ^ 64) ≡ true = ground arith in
    rw (fits, Returns) (sym (+ℤ_zero state.sum), refl, refl)

-- The branches of `accumulate_one` on the column that it found.
array-IsGrown :
    (function : Function) (array : Column) (state : State)
    → (is_count function || is_numeric array.type) ≡ true
    → abs state.sum + abs_sum (if is_count function then [] else flatten array.values) < 2 ^ 127
    → state.count + length (flatten array.values) < 2 ^ 64
    → Returns
        (IsGrown
          (length (flatten array.values))
          (if is_count function then [] else flatten array.values)
          state)
        (count state (length (flatten array.values)) >>= λ grown.
          if is_count function
          then ok grown
          else guard (is_numeric array.type) unsupported >> add_all grown (flatten array.values))
unfolding sum
array-IsGrown function array state numeric small few =
    Returns-bind (IsGrown rows [] state) _ (count state rows) _ (count-IsGrown rows state few)
      λ grown (x, y, z). elim (Bool-cases (is_count function)) [
        | inl e ↦ rw (e, Returns, e) (x, y, z)
        | inr e ↦
            let sums : grown.sum ≡ state.sum = x ∙ +ℤ_zero state.sum in
            rw (e, rw e at numeric)
              (Returns-weaken (IsGrown 0 values grown) (IsGrown rows values state)
                (add_all grown values)
                (λ t (p, q, r). (p ∙ ap (λ v. v +ℤ sum values) sums, omega (arith, q, y), r ∙ z))
                (add_all-IsGrown values grown (
                  let below : abs state.sum + abs_sum values < 2 ^ 127 = rw e at small in
                  rw sums below)))
      ]
  where
    values : List ℤ
    values = flatten array.values

    rows : ℕ
    rows = length (flatten array.values)

pub accumulate_one-IsGrown :
    (a : Aggregate) (batch : Batch) (state : State)
    → IsReadable a batch
    → abs state.sum + abs_sum (summed a batch) < 2 ^ 127
    → state.count + counted a batch < 2 ^ 64
    → Returns (IsGrown (counted a batch) (summed a batch) state) (accumulate_one a batch state)
unfolding accumulate_one summed counted column_values
accumulate_one-IsGrown a batch state readable small few = elim (Option-cases a.column) [
  | inl e ↦ rw e (count-IsGrown batch.num_rows state (rw e at few))
  | inr (name, e) ↦
      let (array, found, numeric) = OptionAny-value _ (batch.columns name) (rw e at readable) in
      rw (e, found)
        (array-IsGrown a.function array state numeric (rw (e, found) at small)
          (rw (e, found) at few))
]
