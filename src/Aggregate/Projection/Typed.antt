-- ===== src/Aggregate/Projection/Typed.antt =====
-- aggregate.rs: an accepted request never meets a column that it cannot accumulate.
use rowtrail.Base.{
  All, Bool, Bool-cases, Ensures, Ensures-bind, Ensures-guarded, Ensures-ok, Ensures-weaken, List,
  Option, Option-cases, OptionAny, OptionAny-of, OptionAny-value, Result, [], arith, checked_add,
  err, false, guard, if◌then◌else◌, inl, inr, leb, length, ltb, map, none, not, ok, ok_or, refl,
  some, true, ℕ, ℤ, ◌&&◌, ◌+◌, ◌==◌, ◌>>=◌, ◌>>◌, ◌^◌, ◌||◌, ◌∷◌, ◌≡◌,
}
use rowtrail.Aggregate.{
  Aggregate, AggregateError, Batch, Column, ColumnType, Function, State, accumulate, accumulate_one,
  add, add_all, bad_argument, count, decimal128, flatten, int64, is_count, is_numeric, other_type,
  overflow, uint64, unsupported,
}
use rowtrail.Aggregate.Projection.{
  AnalyzeParams, Schema, check_aggregates, check_column, has_alias, insert_column, is_known,
  is_summable, is_unit, projection,
}

-- The column is one of those that are read.
unfoldable pub reads : ℕ → List ℕ → Bool
reads name [] = false
reads name (c ∷ columns) = name == c || reads name columns

-- An aggregate without a column is a count; a sum or an average has a column that can be summed.
abbrev pub TypedColumn : Schema → Function → Option ℕ → Type 0
TypedColumn schema function none = is_count function ≡ true
TypedColumn schema function (some name) =
    OptionAny (λ type. (is_count function || is_summable type) ≡ true) (schema name)

-- The column of an aggregate is read.
abbrev pub ReadsColumn : List ℕ → Option ℕ → Type 0
ReadsColumn columns none = Unit
ReadsColumn columns (some name) = reads name columns ≡ true

abbrev pub IsTyped : Schema → List ℕ → Aggregate → Type 0
IsTyped schema columns a = TypedColumn schema a.function a.column × ReadsColumn columns a.column

-- A batch has the columns that are read, with their types in the schema, and maybe no other.
abbrev pub Matches : Schema → List ℕ → Batch → Type 0
Matches schema columns batch =
    (name : ℕ) (type : ColumnType)
    → reads name columns ≡ true
    → schema name ≡ some type
    → OptionAny (λ array. array.type ≡ type) (batch.columns name)

-- The code returns, or fails with ARITHMETIC_OVERFLOW.
abbrev pub OnlyOverflows {ℓ} : {A : Type ℓ} → Result AggregateError A → Type 0
OnlyOverflows (ok a) = Unit
OnlyOverflows (err e) = e ≡ overflow

overflows-bind {ℓ κ} :
    {A : Type ℓ} {B : Type κ} (m : Result AggregateError A) (f : A → Result AggregateError B)
    → OnlyOverflows m
    → ((a : A) → OnlyOverflows (f a))
    → OnlyOverflows (m >>= f)
overflows-bind (ok a) f h k = k a
overflows-bind (err e) f h k = h

overflows-guard : (b : Bool) → OnlyOverflows (guard b overflow)
overflows-guard true = tt
overflows-guard false = refl

overflows-ok_or : (o : Option ℤ) → OnlyOverflows (ok_or o overflow)
overflows-ok_or none = refl
overflows-ok_or (some v) = tt

count-overflows : (state : State) (n : ℕ) → OnlyOverflows (count state n)
unfolding count
count-overflows state n =
    overflows-bind (guard (ltb (state.count + n) (2 ^ 64)) overflow) _
      (overflows-guard (ltb (state.count + n) (2 ^ 64))) λ u. tt

add_all-overflows : (values : List ℤ) (state : State) → OnlyOverflows (add_all state values)
unfolding add_all
add_all-overflows [] state = tt
add_all-overflows (v ∷ values) state =
    overflows-bind (add state v) _
      (overflows-bind (ok_or (checked_add 127 state.sum v) overflow) _
        (overflows-ok_or (checked_add 127 state.sum v)) λ total. tt)
      λ next. add_all-overflows values next

summable-numeric : (type : ColumnType) → is_summable type ≡ true → is_numeric type ≡ true
unfolding is_summable is_numeric
summable-numeric int64 h = refl
summable-numeric uint64 h = refl
summable-numeric other_type h = cc
summable-numeric (decimal128 scale) h = refl

array-overflows :
    (a : Aggregate) (state : State) (array : Column)
    → (is_count a.function || is_summable array.type) ≡ true
    → OnlyOverflows (
        count state (length (flatten array.values)) >>= λ counted.
        if is_count a.function
        then ok counted
        else guard (is_numeric array.type) unsupported >> add_all counted (flatten array.values))
array-overflows a state array h =
    overflows-bind (count state (length (flatten array.values))) _
      (count-overflows state (length (flatten array.values)))
      λ counted. elim (Bool-cases (is_count a.function)) [
        | inl e ↦ rw (e, OnlyOverflows) tt
        | inr e ↦
            let numeric = summable-numeric array.type (rw e at h) in
            rw (e, numeric) (add_all-overflows (flatten array.values) counted)
      ]

accumulate_one-overflows :
    (schema : Schema) (columns : List ℕ) (a : Aggregate) (batch : Batch) (state : State)
    → IsTyped schema columns a
    → Matches schema columns batch
    → OnlyOverflows (accumulate_one a batch state)
unfolding accumulate_one
accumulate_one-overflows schema columns a batch state typed matches = elim (Option-cases a.column) [
  | inl e ↦ rw e (count-overflows state batch.num_rows)
  | inr (name, e) ↦
      let (type, known, h) = OptionAny-value _ (schema name) (rw e at typed.0) in
      let (array, found, same) =
        OptionAny-value _ (batch.columns name) (matches name type (rw e at typed.1) known) in
      rw (e, found) (array-overflows a state array (rw same h))
]

-- The aggregates that a list of states belongs to.
abbrev pub AllTyped : Schema → List ℕ → List (Aggregate × State) → Type 0
AllTyped schema columns states = All (λ (p : Aggregate × State). IsTyped schema columns p.0) states

accumulate-overflows :
    (schema : Schema) (columns : List ℕ) (states : List (Aggregate × State)) (batch : Batch)
    → AllTyped schema columns states
    → Matches schema columns batch
    → OnlyOverflows (accumulate states batch)
unfolding accumulate
accumulate-overflows schema columns [] batch typed matches = tt
accumulate-overflows schema columns ((a, state) ∷ rest) batch typed matches =
    overflows-bind (accumulate_one a batch state) _
      (accumulate_one-overflows schema columns a batch state typed.0 matches)
      λ next.
        overflows-bind (accumulate rest batch) _
          (accumulate-overflows schema columns rest batch typed.1 matches) λ others. tt

-- `insert_column` puts a column in, and keeps the others.
reads-insert_column : (name : ℕ) (columns : List ℕ) → reads name (insert_column name columns) ≡ true
unfolding reads insert_column
reads-insert_column name [] = ground arith
reads-insert_column name (c ∷ columns) = ground (arith, reads-insert_column name columns)

insert_column-keeps :
    (other name : ℕ) (columns : List ℕ)
    → reads other columns ≡ true
    → reads other (insert_column name columns) ≡ true
unfolding reads insert_column
insert_column-keeps other name [] h = cc
insert_column-keeps other name (c ∷ columns) h = elim (Bool-cases (reads other columns)) [
  | inl e ↦ ground (arith, insert_column-keeps other name columns e)
  | inr e ↦ ground arith
]

Keeps : List ℕ → List ℕ → Type 0
Keeps columns next = (name : ℕ) → reads name columns ≡ true → reads name next ≡ true

check_column-typed :
    (schema : Schema) (function : Function) (column : Option ℕ) (columns : List ℕ)
    → Ensures
        (λ next. TypedColumn schema function column × ReadsColumn next column × Keeps columns next)
        (check_column schema function column columns)
unfolding check_column Keeps
check_column-typed schema function none columns = elim (Bool-cases (is_count function)) [
  | inl c ↦ rw (c, Ensures) (c, tt, λ name h. h)
  | inr c ↦ rw (c, Ensures) tt
]
check_column-typed schema function (some name) columns = elim (Option-cases (schema name)) [
  | inl c ↦ rw (c, Ensures) tt
  | inr (type, c) ↦ elim (Bool-cases (is_count function || is_summable type)) [
    | inl d ↦
        rw (c, d, Ensures)
          (
            OptionAny-of _ (schema name) c d,
            reads-insert_column name columns,
            λ other h. insert_column-keeps other name columns h,
          )
    | inr d ↦ rw (c, d, Ensures) tt
  ]
]

ReadsColumn-Keeps :
    (columns next : List ℕ) (column : Option ℕ)
    → Keeps columns next
    → ReadsColumn columns column
    → ReadsColumn next column
unfolding Keeps
ReadsColumn-Keeps columns next none k h = tt
ReadsColumn-Keeps columns next (some name) k h = k name h

check_aggregates-IsTyped :
    (schema : Schema) (aliases : List (List ℕ)) (columns : List ℕ) (aggregates : List Aggregate)
    → Ensures
        (λ next. All (IsTyped schema next) aggregates × Keeps columns next)
        (check_aggregates schema aliases columns aggregates)
unfolding check_aggregates
check_aggregates-IsTyped schema aliases columns [] = (tt, unfold Keeps in λ name h. h)
check_aggregates-IsTyped schema aliases columns (a ∷ rest) =
    Ensures-guarded _
      (ltb 0 (length a.alias) && leb (length a.alias) 128 && not (has_alias a.alias aliases))
      bad_argument _
      (Ensures-guarded _ (is_known a.function) unsupported _ (
        Ensures-bind
          (λ next.
            TypedColumn schema a.function a.column × ReadsColumn next a.column × Keeps columns next)
          _ (check_column schema a.function a.column columns) _
          (check_column-typed schema a.function a.column columns)
          λ next (typed, has, kept).
            Ensures-weaken (λ cs. All (IsTyped schema cs) rest × Keeps next cs)
              (λ cs. (IsTyped schema cs a × All (IsTyped schema cs) rest) × Keeps columns cs)
              (check_aggregates schema (a.alias ∷ aliases) next rest)
              (λ cs (others, more). (
                ((typed, ReadsColumn-Keeps next cs a.column more has), others),
                unfold Keeps in λ name h. more name (kept name h),
              ))
              (check_aggregates-IsTyped schema (a.alias ∷ aliases) next rest)))

projection-IsTyped :
    (schema : Schema) (p : AnalyzeParams)
    → Ensures (λ columns. All (IsTyped schema columns) p.aggregates) (projection schema p)
unfolding projection
projection-IsTyped schema p = Ensures-guarded _ (is_unit p.fragment_unit) unsupported _ (
    Ensures-guarded _ (leb p.checkpoint_interval_ms 60000) bad_argument _ (
      Ensures-guarded _ (ltb 0 (length p.aggregates) && leb (length p.aggregates) 16) bad_argument
        (check_aggregates schema [] [] p.aggregates)
        (Ensures-weaken (λ columns. All (IsTyped schema columns) p.aggregates × Keeps [] columns)
          (λ columns. All (IsTyped schema columns) p.aggregates)
          (check_aggregates schema [] [] p.aggregates) (λ columns h. h.0)
          (check_aggregates-IsTyped schema [] [] p.aggregates))))

AllTyped-of :
    (schema : Schema) (columns : List ℕ) (states : List (Aggregate × State))
    (aggregates : List Aggregate)
    → map (λ p. p.0) states ≡ aggregates
    → All (IsTyped schema columns) aggregates
    → AllTyped schema columns states
AllTyped-of schema columns [] aggregates e h = tt
AllTyped-of schema columns ((a, state) ∷ rest) aggregates e h =
    let h' = rw (← e) at h in (h'.0, AllTyped-of schema columns rest _ refl h'.1)

-- A request that `projection` accepts is well typed and names what it needs: on batches that have the
-- columns `projection` returns, with their types in the input's schema, `accumulate` fails with
-- nothing but an overflow, whatever the states of its aggregates are.
pub projection-overflows :
    (schema : Schema) (p : AnalyzeParams) (columns : List ℕ) (states : List (Aggregate × State))
    (batch : Batch)
    → projection schema p ≡ ok columns
    → map (λ p. p.0) states ≡ p.aggregates
    → Matches schema columns batch
    → OnlyOverflows (accumulate states batch)
projection-overflows schema p columns states batch accepted same matches =
    accumulate-overflows schema columns states batch
      (AllTyped-of schema columns states p.aggregates same
        (Ensures-ok _ (projection schema p) (projection-IsTyped schema p) accepted))
      matches
