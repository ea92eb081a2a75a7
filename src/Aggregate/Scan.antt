-- ===== src/Aggregate/Scan.antt =====
-- aggregate.rs: the whole stream of a fragment is accumulated exactly, for every aggregate.
use rowtrail.Base.{
  +ℤ_assoc, +ℤ_zero, All, List, Returns, Returns-bind, Returns-weaken, [], abs, abs-+ℤ-le, abs_sum,
  ap, arith, map, ok, refl, sum, sum-append, sym, ℕ, ℤ, ◌++◌, ◌+ℤ◌, ◌+◌, ◌<◌, ◌^◌, ◌∙◌, ◌∷◌, ◌≡◌,
  ◌≤◌,
}
use rowtrail.Aggregate.{Aggregate, Batch, State, accumulate, accumulate_one}
use rowtrail.Aggregate.Exact.{
  IsGrown, IsReadable, accumulate_one-IsGrown, counted, counted_all, rows_all, summed, summed_all,
}
use rowtrail.Aggregate.Run.{scan}

-- Each aggregate is kept, and its state has grown by these counts and values.
abbrev pub AllGrown :
    (Aggregate → ℕ)
    → (Aggregate → List ℤ)
    → List (Aggregate × State)
    → List (Aggregate × State)
    → Type 0
AllGrown n values [] [] = Unit
AllGrown n values [] (t ∷ next) = ⊥
AllGrown n values (s ∷ states) [] = ⊥
AllGrown n values ((a, s) ∷ states) ((b, t) ∷ next) =
    (b ≡ a) × IsGrown (n a) (values a) s t × AllGrown n values states next

abbrev pub AllReadable : Aggregate → List Batch → Type 0
AllReadable a batches = All (IsReadable a) batches

-- What an aggregate still has to take in is readable and fits.
abbrev pub Fits : List Batch → Aggregate × State → Type 0
Fits batches (a, s) =
    AllReadable a batches
    × (abs s.sum + abs_sum (summed_all a batches) < 2 ^ 127)
    × (s.count + counted_all a batches < 2 ^ 64)

abs_sum-append : (xs ys : List ℤ) → abs_sum (xs ++ ys) ≡ abs_sum xs + abs_sum ys
unfolding abs_sum
abs_sum-append [] ys = omega arith
abs_sum-append (x ∷ xs) ys = omega (arith, abs_sum-append xs ys)

abs-sum-le : (xs : List ℤ) → abs (sum xs) ≤ abs_sum xs
unfolding sum abs_sum
abs-sum-le [] = omega arith
abs-sum-le (x ∷ xs) = omega (arith, abs-sum-le xs, abs-+ℤ-le x (sum xs))

accumulate-AllGrown :
    (states : List (Aggregate × State)) (batch : Batch) (batches : List Batch)
    → All (Fits (batch ∷ batches)) states
    → Returns
        (λ next.
          AllGrown (λ a. counted a batch) (λ a. summed a batch) states next
          × All (Fits batches) next)
        (accumulate states batch)
unfolding accumulate summed_all counted_all
accumulate-AllGrown [] batch batches h = (tt, tt)
accumulate-AllGrown ((a, s) ∷ states) batch batches ((readable, small, few), h) =
    let sums = abs_sum-append (summed a batch) (summed_all a batches) in
    Returns-bind (IsGrown (counted a batch) (summed a batch) s) _ (accumulate_one a batch s) _
      (accumulate_one-IsGrown a batch s readable.0 (omega (arith, sums)) (omega arith))
      λ t (x, y, z).
        Returns-bind
          (λ next.
            AllGrown (λ a. counted a batch) (λ a. summed a batch) states next
            × All (Fits batches) next)
          _ (accumulate states batch) _ (accumulate-AllGrown states batch batches h)
          λ next (grown, fits).
            let bound = abs-+ℤ-le s.sum (sum (summed a batch)) in
            let inner = abs-sum-le (summed a batch) in
            (
              (refl, (x, y, z), grown),
              ((readable.1, omega (arith, ap abs x, bound, inner, sums), omega (arith, y)), fits),
            )

grown_trans :
    (n m k : Aggregate → ℕ) (u v w : Aggregate → List ℤ)
    (states between next : List (Aggregate × State))
    → ((a : Aggregate) → k a ≡ n a + m a)
    → ((a : Aggregate) → w a ≡ u a ++ v a)
    → AllGrown n u states between
    → AllGrown m v between next
    → AllGrown k w states next
grown_trans n m k u v w [] [] [] e f g h = tt
grown_trans n m k u v w [] [] (t ∷ next) e f g h = absurd h
grown_trans n m k u v w [] (b ∷ between) next e f g h = absurd g
grown_trans n m k u v w (s ∷ states) [] next e f g h = absurd g
grown_trans n m k u v w (s ∷ states) (b ∷ between) [] e f g h = absurd h
grown_trans n m k u v w ((a, s) ∷ states) ((b, r) ∷ between) ((c, t) ∷ next) e f
      (same, (x, y, z), g) (same', (x', y', z'), h) =
    (
      same' ∙ same,
      (
        x'
            ∙ ap (λ q. q +ℤ sum (v b)) x
            ∙ +ℤ_assoc s.sum (sum (u a)) (sum (v b))
            ∙ ap (λ q. s.sum +ℤ (sum (u a) +ℤ sum (v q))) same
            ∙ ap (λ q. s.sum +ℤ q) (sym (sum-append (u a) (v a)))
            ∙ ap (λ q. s.sum +ℤ sum q) (sym (f a)),
        omega (arith, e a, y, y', ap m same),
        z' ∙ z,
      ),
      grown_trans n m k u v w states between next e f g h,
    )

grown_none :
    (states : List (Aggregate × State))
    → AllGrown (λ a. counted_all a []) (λ a. summed_all a []) states states
unfolding counted_all summed_all sum
grown_none [] = tt
grown_none ((a, s) ∷ states) = (refl, (sym (+ℤ_zero s.sum), omega arith, refl), grown_none states)

-- The stream of a fragment whose columns are readable is taken in whole: the rows are counted, and each
-- aggregate grows by exactly its values and their number, where these fit into an i128 and a u64.
pub scan-AllGrown :
    (states : List (Aggregate × State)) (rows : ℕ) (batches : List Batch)
    → All (Fits batches) states
    → Returns
        (λ (next, n).
          AllGrown (λ a. counted_all a batches) (λ a. summed_all a batches) states next
          × (n ≡ rows + rows_all batches))
        (scan states rows (map ok batches))
unfolding scan rows_all
scan-AllGrown states rows [] h = (grown_none states, omega arith)
scan-AllGrown states rows (batch ∷ batches) h =
    Returns-bind
      (λ next.
        AllGrown (λ a. counted a batch) (λ a. summed a batch) states next × All (Fits batches) next)
      _ (accumulate states batch) _ (accumulate-AllGrown states batch batches h)
      λ between (grown, fits).
        Returns-weaken _ _ (scan between (rows + batch.num_rows) (map ok batches))
          (λ (next, n) (x, e). (
            grown_trans (λ a. counted a batch) (λ a. counted_all a batches) _ (λ a. summed a batch)
                (λ a. summed_all a batches) _ states between next (unfold counted_all in λ a. refl)
                (unfold summed_all in λ a. refl) grown x,
            omega arith,
          ))
          (scan-AllGrown between (rows + batch.num_rows) batches fits)
