-- ===== src/Numeric/Groups/Sound.antt =====
-- numeric.rs: what GROUP BY adds to each group.
use rowtrail.Base.{
  +ℤ_assoc, +ℤ_zero, Bool, Bool-cases, Ensures, Ensures-bind, Ensures-ok, Ensures-weaken, List,
  Option, Option-cases, Result, [], arith, err, err-ne-ok, false, get_elem?, get_elem?-set,
  if◌then◌else◌, inl, inr, length, none, ok, ok_or, refl, some, suc, sum, sym, true, ℕ, ℤ, ◌&&◌,
  ◌+ℤ◌, ◌+◌, ◌==◌, ◌>>=◌, ◌∙◌, ◌∷◌, ◌≡◌,
}
use rowtrail.Numeric.{Range, State, SumError, add, checked, panic}
use rowtrail.Numeric.Output.{Adds, add-Adds}
use rowtrail.Numeric.Batch.{Array, values, visit}
use rowtrail.Numeric.Groups.{add_at, keeps, resize, update_batch, update_row}

is_ok_true : Result SumError Bool → Bool
is_ok_true (ok b) = b
is_ok_true (err e) = false

is_at : Option ℕ → ℕ → Bool
is_at none g = false
is_at (some i) g = i == g

-- Row `i` counts for group `g`: the filter keeps it, and its index is `g`.
pub selected : List ℕ → Option (List (Option Bool)) → ℕ → ℕ → Bool
unfolding is_ok_true is_at keeps
selected indices filter g i = is_ok_true (keeps filter i) && is_at (get_elem? indices i) g

-- The values of the rows, from row `i` on, that count for group `g`.
pub values_of : List ℕ → Option (List (Option Bool)) → ℕ → ℕ → List (Option ℤ) → List ℤ
unfolding selected
values_of indices filter g i [] = []
values_of indices filter g i (none ∷ cells) = values_of indices filter g (i + 1) cells
values_of indices filter g i (some v ∷ cells) =
    let rest = values_of indices filter g (i + 1) cells in
    if selected indices filter g i then v ∷ rest else rest

-- A group with the values added to it.
abbrev pub bumped : List ℤ → Option State → Option State
bumped vs none = none
bumped vs (some s) = some (record { sum = s.sum +ℤ sum vs; count = s.count + length vs })

-- `n` more rows of total `v` for one group.
abbrev plus : ℤ → ℕ → Option State → Option State
plus v n none = none
plus v n (some s) = some (record { sum = s.sum +ℤ v; count = s.count + n })

module _ (r : Range) (g : ℕ) where
  abbrev AddedAt : ℕ → ℤ → ℕ → List State → List State → Type 0
  AddedAt index v n groups after =
      get_elem? after g ≡ (if index == g then plus v n (get_elem? groups g) else get_elem? groups g)

  add_at_bumps :
      (index : ℕ) (v : ℤ) (n : ℕ) (groups : List State)
      → Ensures (AddedAt index v n groups) (add_at r index v n groups)
  unfolding add_at
  add_at_bumps index v n groups = elim (Option-cases (get_elem? groups index)) [
    | inl e ↦ rw (e, Ensures) tt
    | inr (s, e) ↦
        rw (e, Ensures)
          (Ensures-bind (Adds s v n) _ (add s v n r) _ (add-Adds r s v n)
            λ t (x, y). get_elem?-set groups index g t s e ∙ ground arith)
  ]

  abbrev RowAdded : Bool → ℤ → List State → List State → Type 0
  RowAdded counts v groups after =
      get_elem? after g ≡ (if counts then plus v 1 (get_elem? groups g) else get_elem? groups g)

  row_bumps :
      (v : ℤ) (groups : List State) (kept : Result SumError Bool) (index : Option ℕ)
      → Ensures (RowAdded (is_ok_true kept && is_at index g) v groups) (
          kept >>= λ b. if b then (ok_or index panic >>= λ i. add_at r i v 1 groups) else ok groups)
  unfolding is_ok_true is_at
  row_bumps v groups (err e) index = tt
  row_bumps v groups (ok false) index = refl
  row_bumps v groups (ok true) none = tt
  row_bumps v groups (ok true) (some i) = add_at_bumps i v 1 groups

  -- The closure of a row adds it to its group, if the row counts.
  update_row_bumps :
      (indices : List ℕ) (filter : Option (List (Option Bool))) (i : ℕ) (v : ℤ)
      (groups : List State)
      → Ensures
          (RowAdded (selected indices filter g i) v groups)
          (update_row r indices filter i v groups)
  unfolding update_row selected
  update_row_bumps indices filter i v groups =
      row_bumps v groups (keeps filter i) (get_elem? indices i)

  bumped-plus :
      (v : ℤ) (vs : List ℤ) (o : Option State) → bumped vs (plus v 1 o) ≡ bumped (v ∷ vs) o
  unfolding sum
  bumped-plus v vs none = refl
  bumped-plus v vs (some s) =
      λ i. some (record { sum = +ℤ_assoc s.sum v (sum vs) i; count = count_step i })
    where
      count_step : s.count + 1 + length vs ≡ s.count + suc (length vs)
      count_step = omega arith

  bumped_nil : (o : Option State) → o ≡ bumped [] o
  bumped_nil none = refl
  bumped_nil (some s) = λ i. some (record { sum = zero_right i; count = count_same i })
    where
      zero_right : s.sum ≡ s.sum +ℤ sum []
      zero_right = unfold sum in sym (+ℤ_zero s.sum)

      count_same : s.count ≡ s.count + 0
      count_same = omega arith

  visit_bumps :
      (indices : List ℕ) (filter : Option (List (Option Bool))) (i : ℕ) (cells : List (Option ℤ))
      (groups : List State)
      → Ensures
          (λ after.
            get_elem? after g ≡ bumped (values_of indices filter g i cells) (get_elem? groups g))
          (visit (update_row r indices filter) i cells groups)
  unfolding visit values_of
  visit_bumps indices filter i [] groups = bumped_nil (get_elem? groups g)
  visit_bumps indices filter i (none ∷ cells) groups =
      visit_bumps indices filter (i + 1) cells groups
  visit_bumps indices filter i (some v ∷ cells) groups =
      Ensures-bind (RowAdded (selected indices filter g i) v groups) _
        (update_row r indices filter i v groups) _ (update_row_bumps indices filter i v groups)
        λ mid h.
          Ensures-weaken _ _ (visit (update_row r indices filter) (i + 1) cells mid)
            (λ after k. ground (
              arith,
              h,
              k,
              bumped-plus v (values_of indices filter g (i + 1) cells) (get_elem? groups g),
            ))
            (visit_bumps indices filter (i + 1) cells mid)

-- After a successful update, every group holds exactly the values of its own rows besides what it
-- held: the non-null cells whose index is the group and which the filter keeps. A new group starts
-- from zero, and a group beyond `total` is dropped.
pub update_batch_groups :
    (r : Range) (array : Array) (indices : List ℕ) (filter : Option (List (Option Bool)))
    (total : ℕ) (groups after : List State) (g : ℕ)
    → update_batch r array indices filter total groups ≡ ok after
    → get_elem? after g
      ≡ bumped (values_of indices filter g 0 array.cells) (get_elem? (resize total groups) g)
unfolding update_batch values
update_batch_groups r array indices filter total groups after g h =
    elim (Bool-cases (checked array.data_type)) [
      | inl e ↦
          Ensures-ok _ (visit (update_row r indices filter) 0 array.cells (resize total groups))
            (visit_bumps r g indices filter 0 array.cells (resize total groups)) (rw e at h)
      | inr e ↦ absurd (err-ne-ok (rw e at h))
    ]
