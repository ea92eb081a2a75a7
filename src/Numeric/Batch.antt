-- ===== src/Numeric/Batch.antt =====
-- numeric.rs: `add_batch`, the fold of one array into a state by four checked i128 lanes, and
-- `values`, the plain visit of an array. A primitive array is its type and its nullable cells; the
-- conversions to i128 and i256 are widenings, so a cell is an integer.
pub mod Exact
pub mod Total
use rowtrail.Base.{
  List, Option, Result, [], checked_add, err, if◌then◌else◌, length, none, ok, pos, some, suc, sum,
  ℕ, ℤ, ◌+◌, ◌==◌, ◌>>=◌, ◌>>◌, ◌∷◌,
}
use rowtrail.Numeric.{
  DataType, Range, State, SumError, add, checked, decimal128, decimal32, decimal64, int64, internal,
  uint64,
}

pub record Array : Type 0 where
  pub data_type : DataType
  pub cells : List (Option ℤ)

-- `a.iter().flatten()`
unfoldable pub flatten : List (Option ℤ) → List ℤ
flatten [] = []
flatten (none ∷ cells) = flatten cells
flatten (some v ∷ cells) = v ∷ flatten cells

-- `a.null_count()`
null_count : List (Option ℤ) → ℕ
null_count [] = 0
null_count (none ∷ cells) = suc (null_count cells)
null_count (some v ∷ cells) = null_count cells

-- The four lanes.
record Lanes : Type 0 where
  a : ℤ
  b : ℤ
  c : ℤ
  d : ℤ

-- `sum.checked_add(value)`, or a flush of the lane's partial sum into the wide state.
lane : Range → State → ℤ → ℤ → Result SumError (State × ℤ)
lane range state sum value = elim (checked_add 127 sum value) [
  | some total ↦ ok (state, total)
  | none ↦ do state' ← add state sum 0 range; ok (state', value)
]

-- The inner loop over one chunk of four values.
chunk : Range → State → Lanes → ℤ → ℤ → ℤ → ℤ → Result SumError (State × Lanes)
unfolding lane
chunk range s l v w x y = do
  (s1, a) ← lane range s l.a v
  (s2, b) ← lane range s1 l.b w
  (s3, c) ← lane range s2 l.c x
  (s4, d) ← lane range s3 l.d y
  ok (s4, record { a = a; b = b; c = c; d = d })

-- The loop over `chunks.remainder()`, which goes to the first lane.
remainder : Range → State → ℤ → List ℤ → Result SumError (State × ℤ)
unfolding lane
remainder range s sum [] = ok (s, sum)
remainder range s sum (v ∷ vs) = do (s', sum') ← lane range s sum v; remainder range s' sum' vs

-- `chunks_exact(4)` and its remainder.
lanes : Range → State → Lanes → List ℤ → Result SumError (State × Lanes)
unfolding chunk remainder
lanes range s l (v ∷ w ∷ x ∷ y ∷ rest) = do
  (s', l') ← chunk range s l v w x y
  lanes range s' l' rest
lanes range s l rest = do (s', a) ← remainder range s l.a rest; ok (s', record l { a = a })

abbrev zero_lanes : Lanes
zero_lanes = record { a = pos 0; b = pos 0; c = pos 0; d = pos 0 }

-- The branch without nulls.
dense : Range → State → List ℤ → Result SumError State
unfolding lanes
dense range state vals = do
  (s0, l) ← lanes range state zero_lanes vals
  s1 ← add s0 l.a 0 range
  s2 ← add s1 l.b 0 range
  s3 ← add s2 l.c 0 range
  s4 ← add s3 l.d 0 range
  add s4 (pos 0) (length vals) range

-- The branch with nulls: one lane, which carries its own row count.
sparse : Range → State → ℤ → ℕ → List ℤ → Result SumError State
sparse range state sum count [] = add state sum count range
sparse range state sum count (v ∷ vs) = elim (checked_add 127 sum v) [
  | some total ↦ sparse range state total (count + 1) vs
  | none ↦ do state' ← add state sum count range; sparse range state' v 1 vs
]

-- The macro `fold!`.
fold : Range → State → List (Option ℤ) → Result SumError State
unfolding dense sparse null_count flatten
fold range state cells =
    if null_count cells == 0
    then dense range state (flatten cells)
    else sparse range state (pos 0) 0 (flatten cells)

-- The macro `visit!`: a closure over the captured state is a function on it.
unfoldable pub visit {ℓ} :
    {S : Type ℓ} → (ℕ → ℤ → S → Result SumError S) → ℕ → List (Option ℤ) → S → Result SumError S
visit f i [] s = ok s
visit f i (none ∷ cells) s = visit f (i + 1) cells s
visit f i (some v ∷ cells) s = do s' ← f i v s; visit f (i + 1) cells s'

-- `values`; its match takes the six checked types.
unfoldable pub values {ℓ} :
    {S : Type ℓ} → Array → (ℕ → ℤ → S → Result SumError S) → S → Result SumError S
unfolding visit
values array f s =
    if checked array.data_type then visit f 0 array.cells s else err (internal array.data_type)

batch_of : DataType → Range → State → Array → Result SumError State
unfolding fold values
batch_of int64 range state array = fold range state array.cells
batch_of uint64 range state array = fold range state array.cells
batch_of (decimal32 p s) range state array = fold range state array.cells
batch_of (decimal64 p s) range state array = fold range state array.cells
batch_of (decimal128 p s) range state array = fold range state array.cells
batch_of _ range state array = values array (λ i v s. add s v 1 range) state

-- `add_batch`
unfoldable pub add_batch : State → Array → Range → Result SumError State
unfolding batch_of
add_batch state array range = batch_of array.data_type range state array
