-- ===== src/Numeric/Batch/Total.antt =====
-- numeric.rs: where the absolute values stay below 2^255 the batch fold reports no error, however
-- often its lanes overflow i128 on the way.
use rowtrail.Base.{
  Bool-cases, List, Option, Option-cases, Returns, Returns-bind, Returns-value, Returns-weaken, [],
  abs, abs-+ℤ-le, abs_sum, ap, arith, checked_add, checked_add_exact, inl, inr, length, none, ok,
  pos, some, sum, true, ℕ, ℤ, ◌+ℤ◌, ◌+◌, ◌<◌, ◌==◌, ◌>>=◌, ◌^◌, ◌∙◌, ◌∷◌, ◌≡◌, ◌≤◌,
}
use rowtrail.Numeric.{
  DataType, Range, State, add, checked, checked_add_u64, decimal128, decimal256, decimal32,
  decimal64, int64, uint64,
}
use rowtrail.Numeric.Batch.{
  Array, Lanes, add_batch, batch_of, chunk, dense, flatten, fold, lane, lanes, null_count,
  remainder, sparse, values, visit, zero_lanes,
}
use rowtrail.Numeric.Batch.Exact.{add_batch_exact}

-- What the state and the lanes hold, in absolute values.
abbrev held : State → Lanes → ℕ
held s l = abs s.sum + (abs l.a + (abs l.b + (abs l.c + abs l.d)))

-- A step returns, grows what is held by `n` at most, and keeps the row count.
abbrev LaneGrows : State → ℤ → ℕ → State × ℤ → Type 0
LaneGrows s a n p = (abs p.0.sum + abs p.1 ≤ abs s.sum + abs a + n) × (p.0.count ≡ s.count)

abbrev LanesGrow : State → Lanes → ℕ → State × Lanes → Type 0
LanesGrow s l n p = (held p.0 p.1 ≤ held s l + n) × (p.0.count ≡ s.count)

abbrev Grows : State → ℕ → ℕ → State → Type 0
Grows s n c t = (abs t.sum ≤ abs s.sum + n) × (t.count ≡ s.count + c)

module _ (r : Range) where
  add-Grows :
      (s : State) (v : ℤ) (n : ℕ)
      → abs s.sum + abs v < 2 ^ 255
      → s.count + n < 2 ^ 64
      → Returns (Grows s (abs v) n) (add s v n r)
  unfolding add checked_add checked_add_u64
  add-Grows s v n h k = ground (arith, abs-+ℤ-le s.sum v)

  lane_grows :
      (s : State) (a v : ℤ)
      → abs s.sum + abs a + abs v < 2 ^ 255
      → s.count < 2 ^ 64
      → Returns (LaneGrows s a (abs v)) (lane r s a v)
  unfolding lane add checked_add checked_add_u64
  lane_grows s a v h k = ground (arith, abs-+ℤ-le s.sum a, abs-+ℤ-le a v)

  remainder_grows :
      (s : State) (a : ℤ) (vs : List ℤ)
      → abs s.sum + abs a + abs_sum vs < 2 ^ 255
      → s.count < 2 ^ 64
      → Returns (LaneGrows s a (abs_sum vs)) (remainder r s a vs)
  unfolding remainder abs_sum
  remainder_grows s a [] h k = omega arith
  remainder_grows s a (v ∷ vs) h k =
      Returns-bind (LaneGrows s a (abs v)) _ (lane r s a v) _ (lane_grows s a v (omega arith) k)
        λ p g.
          Returns-weaken _ _ (remainder r p.0 p.1 vs) (λ q f. omega arith)
            (remainder_grows p.0 p.1 vs (omega arith) (omega arith))

  chunk_grows :
      (s : State) (l : Lanes) (v w x y : ℤ)
      → held s l + (abs v + (abs w + (abs x + abs y))) < 2 ^ 255
      → s.count < 2 ^ 64
      → Returns (LanesGrow s l (abs v + (abs w + (abs x + abs y)))) (chunk r s l v w x y)
  unfolding chunk
  chunk_grows s l v w x y h k =
      Returns-bind (LaneGrows s l.a (abs v)) _ (lane r s l.a v) _
        (lane_grows s l.a v (omega arith) k)
        λ p e1.
          Returns-bind (LaneGrows p.0 l.b (abs w)) _ (lane r p.0 l.b w) _
            (lane_grows p.0 l.b w (omega arith) (omega arith))
            λ q e2.
              Returns-bind (LaneGrows q.0 l.c (abs x)) _ (lane r q.0 l.c x) _
                (lane_grows q.0 l.c x (omega arith) (omega arith))
                λ t e3.
                  Returns-bind (LaneGrows t.0 l.d (abs y)) _ (lane r t.0 l.d y) _
                    (lane_grows t.0 l.d y (omega arith) (omega arith)) λ u e4. omega arith

  rest_grows :
      (s : State) (l : Lanes) (vs : List ℤ)
      → held s l + abs_sum vs < 2 ^ 255
      → s.count < 2 ^ 64
      → Returns
          (LanesGrow s l (abs_sum vs))
          (remainder r s l.a vs >>= λ p. ok (p.0, record l { a = p.1 }))
  rest_grows s l vs h k =
      Returns-bind (LaneGrows s l.a (abs_sum vs)) _ (remainder r s l.a vs) _
        (remainder_grows s l.a vs (omega arith) k) λ p g. omega arith

  lanes_grow :
      (s : State) (l : Lanes) (vs : List ℤ)
      → held s l + abs_sum vs < 2 ^ 255
      → s.count < 2 ^ 64
      → Returns (LanesGrow s l (abs_sum vs)) (lanes r s l vs)
  unfolding lanes abs_sum
  lanes_grow s l (v ∷ w ∷ x ∷ y ∷ rest) h k =
      Returns-bind (LanesGrow s l (abs v + (abs w + (abs x + abs y)))) _ (chunk r s l v w x y) _
        (chunk_grows s l v w x y (omega arith) k)
        λ p g.
          Returns-weaken _ _ (lanes r p.0 p.1 rest) (λ q f. omega arith)
            (lanes_grow p.0 p.1 rest (omega arith) (omega arith))
  lanes_grow s l rest h k = rest_grows s l rest h k

  dense-Grows :
      (s : State) (vs : List ℤ)
      → abs s.sum + abs_sum vs < 2 ^ 255
      → s.count + length vs < 2 ^ 64
      → Returns (Grows s (abs_sum vs) (length vs)) (dense r s vs)
  unfolding dense
  dense-Grows s vs h k =
      Returns-bind (LanesGrow s zero_lanes (abs_sum vs)) _ (lanes r s zero_lanes vs) _
        (lanes_grow s zero_lanes vs (omega arith) (omega arith))
        λ p g.
          Returns-bind (Grows p.0 (abs p.1.a) 0) _ (add p.0 p.1.a 0 r) _
            (add-Grows p.0 p.1.a 0 (omega arith) (omega arith))
            λ s1 g1.
              Returns-bind (Grows s1 (abs p.1.b) 0) _ (add s1 p.1.b 0 r) _
                (add-Grows s1 p.1.b 0 (omega arith) (omega arith))
                λ s2 g2.
                  Returns-bind (Grows s2 (abs p.1.c) 0) _ (add s2 p.1.c 0 r) _
                    (add-Grows s2 p.1.c 0 (omega arith) (omega arith))
                    λ s3 g3.
                      Returns-bind (Grows s3 (abs p.1.d) 0) _ (add s3 p.1.d 0 r) _
                        (add-Grows s3 p.1.d 0 (omega arith) (omega arith))
                        λ s4 g4.
                          Returns-weaken _ _ (add s4 (pos 0) (length vs) r) (λ t f. omega arith)
                            (add-Grows s4 (pos 0) (length vs) (omega arith) (omega arith))

  sparse-Grows :
      (s : State) (a : ℤ) (n : ℕ) (vs : List ℤ)
      → abs s.sum + abs a + abs_sum vs < 2 ^ 255
      → s.count + n + length vs < 2 ^ 64
      → Returns (Grows s (abs a + abs_sum vs) (n + length vs)) (sparse r s a n vs)
  unfolding sparse abs_sum
  sparse-Grows s a n [] h k =
      Returns-weaken _ _ (add s a n r) (λ t f. omega arith)
        (add-Grows s a n (omega arith) (omega arith))
  sparse-Grows s a n (v ∷ vs) h k = elim (Option-cases (checked_add 127 a v)) [
    | inl e ↦
        rw (e, Returns)
          (Returns-bind (Grows s (abs a) n) _ (add s a n r) _
            (add-Grows s a n (omega arith) (omega arith))
            λ s1 g.
              Returns-weaken _ _ (sparse r s1 v 1 vs) (λ t f. omega arith)
                (sparse-Grows s1 v 1 vs (omega arith) (omega arith)))
    | inr (t, e) ↦
        let g : abs t ≤ abs a + abs v = rw (checked_add_exact 127 a v t e) (abs-+ℤ-le a v) in
        rw (e, Returns)
          (Returns-weaken _ _ (sparse r s t (n + 1) vs) (λ q f. omega arith)
            (sparse-Grows s t (n + 1) vs (omega arith) (omega arith)))
  ]

  visit-Grows :
      (s : State) (i : ℕ) (cells : List (Option ℤ))
      → abs s.sum + abs_sum (flatten cells) < 2 ^ 255
      → s.count + length (flatten cells) < 2 ^ 64
      → Returns
          (Grows s (abs_sum (flatten cells)) (length (flatten cells)))
          (visit (λ i v s. add s v 1 r) i cells s)
  unfolding visit flatten abs_sum
  visit-Grows s i [] h k = omega arith
  visit-Grows s i (none ∷ cells) h k = visit-Grows s (i + 1) cells h k
  visit-Grows s i (some v ∷ cells) h k =
      Returns-bind (Grows s (abs v) 1) _ (add s v 1 r) _
        (add-Grows s v 1 (omega arith) (omega arith))
        λ s1 g.
          Returns-weaken _ _ (visit (λ i v s. add s v 1 r) (i + 1) cells s1) (λ t f. omega arith)
            (visit-Grows s1 (i + 1) cells (omega arith) (omega arith))

  fold-Grows :
      (s : State) (cells : List (Option ℤ))
      → abs s.sum + abs_sum (flatten cells) < 2 ^ 255
      → s.count + length (flatten cells) < 2 ^ 64
      → Returns (Grows s (abs_sum (flatten cells)) (length (flatten cells))) (fold r s cells)
  unfolding fold
  fold-Grows s cells h k = elim (Bool-cases (null_count cells == 0)) [
    | inl e ↦ rw (e, Returns) (dense-Grows s (flatten cells) h k)
    | inr e ↦
        rw (e, Returns)
          (Returns-weaken _ _ (sparse r s (pos 0) 0 (flatten cells)) (λ t f. omega arith)
            (sparse-Grows s (pos 0) 0 (flatten cells) (omega arith) (omega arith)))
  ]

  batch-Grows :
      (dt : DataType) (s : State) (cells : List (Option ℤ))
      → checked dt ≡ true
      → abs s.sum + abs_sum (flatten cells) < 2 ^ 255
      → s.count + length (flatten cells) < 2 ^ 64
      → Returns
          (Grows s (abs_sum (flatten cells)) (length (flatten cells)))
          (batch_of dt r s (record { data_type = dt; cells = cells }))
  unfolding batch_of values checked
  batch-Grows int64 s cells c h k = fold-Grows s cells h k
  batch-Grows uint64 s cells c h k = fold-Grows s cells h k
  batch-Grows (decimal32 p z) s cells c h k = fold-Grows s cells h k
  batch-Grows (decimal64 p z) s cells c h k = fold-Grows s cells h k
  batch-Grows (decimal128 p z) s cells c h k = fold-Grows s cells h k
  batch-Grows (decimal256 p z) s cells c h k = visit-Grows s 0 cells h k
  batch-Grows _ s cells c h k = cc

-- A batch of a checked type is accepted, and the new state is the exact one, wherever the absolute
-- values stay below 2^255 and the row count below 2^64. Lanes that overflow i128 do not matter.
pub add_batch_total :
    (s : State) (a : Array) (r : Range)
    → checked a.data_type ≡ true
    → abs s.sum + abs_sum (flatten a.cells) < 2 ^ 255
    → s.count + length (flatten a.cells) < 2 ^ 64
    → add_batch s a r
      ≡ ok (record {
        sum = s.sum +ℤ sum (flatten a.cells);
        count = s.count + length (flatten a.cells);
      })
unfolding add_batch
add_batch_total s a r c h k =
    let (t, e, _) =
      Returns-value _ (batch_of a.data_type r s a) (batch-Grows r a.data_type s a.cells c h k) in
    let (x, y) = add_batch_exact s a r e in e ∙ ap ok (λ i. record { sum = x i; count = y i })
