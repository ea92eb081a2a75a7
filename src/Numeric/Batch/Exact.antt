-- ===== src/Numeric/Batch/Exact.antt =====
-- numeric.rs: a batch that `add_batch` accepts adds exactly its non-null values and their number.
use rowtrail.Base.{
  +ℤ_assoc, +ℤ_zero, Bool-cases, Ensures, Ensures-bind, Ensures-ok, Ensures-weaken, List, Option,
  Option-cases, [], ap, arith, checked_add, checked_add_exact, inl, inr, int_laws, length, none, ok,
  parts_of_eq, pos, refl, some, sum, sym, zero_+ℤ, ℕ, ℤ, ◌+ℤ◌, ◌+◌, ◌==◌, ◌>>=◌, ◌∙◌, ◌∷◌, ◌≡◌,
}
use rowtrail.Numeric.Output.{Adds, add-Adds}
use rowtrail.Numeric.{
  DataType, Range, State, add, checked, checked_add_u64, decimal128, decimal32, decimal64, int64,
  uint64,
}
use rowtrail.Numeric.Batch.{
  Array, Lanes, add_batch, batch_of, chunk, dense, flatten, fold, lane, lanes, null_count,
  remainder, sparse, values, visit, zero_lanes,
}

-- What the wide state and the lanes hold together.
abbrev total : State → Lanes → ℤ
total s l = s.sum +ℤ l.a +ℤ l.b +ℤ l.c +ℤ l.d

-- A step from a lane `a` took in `v`.
abbrev LaneAdds : State → ℤ → ℤ → State × ℤ → Type 0
LaneAdds s a v p = (p.0.sum +ℤ p.1 ≡ s.sum +ℤ a +ℤ v) × (p.0.count ≡ s.count)

abbrev LanesAdd : State → Lanes → ℤ → State × Lanes → Type 0
LanesAdd s l v p = (total p.0 p.1 ≡ total s l +ℤ v) × (p.0.count ≡ s.count)

lane_exact : (r : Range) (s : State) (a v : ℤ) → Ensures (LaneAdds s a v) (lane r s a v)
unfolding lane add checked_add checked_add_u64
lane_exact r s a v = ground (arith, +ℤ_assoc s.sum a v)

remainder_exact :
    (r : Range) (s : State) (a : ℤ) (vs : List ℤ)
    → Ensures (LaneAdds s a (sum vs)) (remainder r s a vs)
unfolding remainder sum
remainder_exact r s a [] = (sym (+ℤ_zero (s.sum +ℤ a)), refl)
remainder_exact r s a (v ∷ vs) =
    Ensures-bind (LaneAdds s a v) _ (lane r s a v) _ (lane_exact r s a v) λ p h.
      Ensures-weaken _ _ (remainder r p.0 p.1 vs)
        (λ q k. (k.0 ∙ ap (λ t. t +ℤ sum vs) h.0 ∙ +ℤ_assoc (s.sum +ℤ a) v (sum vs), k.1 ∙ h.1))
        (remainder_exact r p.0 p.1 vs)

-- One chunk, at every lane.
chunk_exact :
    (r : Range) (s : State) (l : Lanes) (v w x y : ℤ)
    → Ensures (LanesAdd s l (v +ℤ (w +ℤ (x +ℤ y)))) (chunk r s l v w x y)
unfolding chunk
chunk_exact r s l v w x y =
    Ensures-bind (LaneAdds s l.a v) _ (lane r s l.a v) _ (lane_exact r s l.a v) λ p e1.
      Ensures-bind (LaneAdds p.0 l.b w) _ (lane r p.0 l.b w) _ (lane_exact r p.0 l.b w) λ q e2.
        Ensures-bind (LaneAdds q.0 l.c x) _ (lane r q.0 l.c x) _ (lane_exact r q.0 l.c x) λ t e3.
          Ensures-bind (LaneAdds t.0 l.d y) _ (lane r t.0 l.d y) _ (lane_exact r t.0 l.d y) λ u e4.
            (
              omega (
                int_laws,
                parts_of_eq e1.0,
                parts_of_eq e2.0,
                parts_of_eq e3.0,
                parts_of_eq e4.0,
              ),
              omega arith,
            )

-- The remainder, as part of the lanes.
rest_exact :
    (r : Range) (s : State) (l : Lanes) (vs : List ℤ)
    → Ensures (LanesAdd s l (sum vs)) (remainder r s l.a vs >>= λ p. ok (p.0, record l { a = p.1 }))
rest_exact r s l vs =
    Ensures-bind (LaneAdds s l.a (sum vs)) _ (remainder r s l.a vs) _ (remainder_exact r s l.a vs)
      λ p h. (omega (int_laws, parts_of_eq h.0), h.1)

lanes_exact :
    (r : Range) (s : State) (l : Lanes) (vs : List ℤ)
    → Ensures (LanesAdd s l (sum vs)) (lanes r s l vs)
unfolding lanes
lanes_exact r s l (v ∷ w ∷ x ∷ y ∷ rest) =
    Ensures-bind (LanesAdd s l (v +ℤ (w +ℤ (x +ℤ y)))) _ (chunk r s l v w x y) _
      (chunk_exact r s l v w x y)
      λ p h.
        Ensures-weaken _ _ (lanes r p.0 p.1 rest)
          (λ q k. (unfold sum in omega (int_laws, parts_of_eq h.0, parts_of_eq k.0), k.1 ∙ h.1))
          (lanes_exact r p.0 p.1 rest)
lanes_exact r s l rest = rest_exact r s l rest

dense_exact :
    (r : Range) (s : State) (vs : List ℤ) → Ensures (Adds s (sum vs) (length vs)) (dense r s vs)
unfolding dense
dense_exact r s vs =
    Ensures-bind (LanesAdd s zero_lanes (sum vs)) _ (lanes r s zero_lanes vs) _
      (lanes_exact r s zero_lanes vs)
      λ p h.
        Ensures-bind (Adds p.0 p.1.a 0) _ (add p.0 p.1.a 0 r) _ (add-Adds r p.0 p.1.a 0) λ s1 h1.
          Ensures-bind (Adds s1 p.1.b 0) _ (add s1 p.1.b 0 r) _ (add-Adds r s1 p.1.b 0) λ s2 h2.
            Ensures-bind (Adds s2 p.1.c 0) _ (add s2 p.1.c 0 r) _ (add-Adds r s2 p.1.c 0) λ s3 h3.
              Ensures-bind (Adds s3 p.1.d 0) _ (add s3 p.1.d 0 r) _ (add-Adds r s3 p.1.d 0) λ s4 h4.
                Ensures-weaken _ _ (add s4 (pos 0) (length vs) r)
                  (λ t k. (
                    omega (
                      int_laws,
                      parts_of_eq h.0,
                      parts_of_eq h1.0,
                      parts_of_eq h2.0,
                      parts_of_eq h3.0,
                      parts_of_eq h4.0,
                      parts_of_eq k.0,
                    ),
                    omega arith,
                  ))
                  (add-Adds r s4 (pos 0) (length vs))

sparse_exact :
    (r : Range) (s : State) (a : ℤ) (n : ℕ) (vs : List ℤ)
    → Ensures (Adds s (a +ℤ sum vs) (n + length vs)) (sparse r s a n vs)
unfolding sparse sum
sparse_exact r s a n [] =
    Ensures-weaken _ _ (add s a n r)
      (λ t k. (k.0 ∙ ap (λ x. s.sum +ℤ x) (sym (+ℤ_zero a)), omega arith)) (add-Adds r s a n)
sparse_exact r s a n (v ∷ vs) = elim (Option-cases (checked_add 127 a v)) [
  | inl e ↦
      rw (e, Ensures)
        (Ensures-bind (Adds s a n) _ (add s a n r) _ (add-Adds r s a n) λ s1 h.
          Ensures-weaken _ _ (sparse r s1 v 1 vs)
            (λ t k. (omega (int_laws, parts_of_eq h.0, parts_of_eq k.0), omega arith))
            (sparse_exact r s1 v 1 vs))
  | inr (t, e) ↦
      rw (e, Ensures)
        (Ensures-weaken _ _ (sparse r s t (n + 1) vs)
          (λ q k. (
            omega (int_laws, parts_of_eq (checked_add_exact 127 a v t e), parts_of_eq k.0),
            omega arith,
          ))
          (sparse_exact r s t (n + 1) vs))
]

-- The plain visit that adds one value at a time.
visit_exact :
    (r : Range) (s : State) (i : ℕ) (cells : List (Option ℤ))
    → Ensures
        (Adds s (sum (flatten cells)) (length (flatten cells)))
        (visit (λ i v s. add s v 1 r) i cells s)
unfolding visit flatten sum
visit_exact r s i [] = (sym (+ℤ_zero s.sum), omega arith)
visit_exact r s i (none ∷ cells) = visit_exact r s (i + 1) cells
visit_exact r s i (some v ∷ cells) =
    Ensures-bind (Adds s v 1) _ (add s v 1 r) _ (add-Adds r s v 1) λ s1 h.
      Ensures-weaken _ _ (visit (λ i v s. add s v 1 r) (i + 1) cells s1)
        (λ t k. (omega (int_laws, parts_of_eq h.0, parts_of_eq k.0), omega arith))
        (visit_exact r s1 (i + 1) cells)

fold_exact :
    (r : Range) (s : State) (cells : List (Option ℤ))
    → Ensures (Adds s (sum (flatten cells)) (length (flatten cells))) (fold r s cells)
unfolding fold
fold_exact r s cells = elim (Bool-cases (null_count cells == 0)) [
  | inl e ↦ rw (e, Ensures) (dense_exact r s (flatten cells))
  | inr e ↦
      rw (e, Ensures)
        (Ensures-weaken _ _ (sparse r s (pos 0) 0 (flatten cells))
          (λ t k. (k.0 ∙ ap (λ x. s.sum +ℤ x) (zero_+ℤ _), omega arith))
          (sparse_exact r s (pos 0) 0 (flatten cells)))
]

batch_exact :
    (dt : DataType) (r : Range) (s : State) (a : Array)
    → Ensures (Adds s (sum (flatten a.cells)) (length (flatten a.cells))) (batch_of dt r s a)
unfolding batch_of values
batch_exact int64 r s a = fold_exact r s a.cells
batch_exact uint64 r s a = fold_exact r s a.cells
batch_exact (decimal32 p c) r s a = fold_exact r s a.cells
batch_exact (decimal64 p c) r s a = fold_exact r s a.cells
batch_exact (decimal128 p c) r s a = fold_exact r s a.cells
batch_exact _ r s a = elim (Bool-cases (checked a.data_type)) [
  | inl e ↦ rw (e, Ensures) (visit_exact r s 0 a.cells)
  | inr e ↦ rw (e, Ensures) tt
]

-- Whatever way the batch takes, through lanes, flushes and nulls: a state that `add_batch` returns
-- holds the exact sum of the old state and the non-null cells, and counts each such cell once.
pub add_batch_exact :
    (s : State) (a : Array) (r : Range) {t : State}
    → add_batch s a r ≡ ok t
    → (t.sum ≡ s.sum +ℤ sum (flatten a.cells)) × (t.count ≡ s.count + length (flatten a.cells))
unfolding add_batch
add_batch_exact s a r h = Ensures-ok _ _ (batch_exact a.data_type r s a) h
