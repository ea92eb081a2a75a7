-- ===== src/Numeric/Accumulator/Sound/Window.antt =====
-- numeric.rs: a sliding window over any sequence of batches of entering and leaving values. The accumulator
-- always holds the SUM, or the DISTINCT SUM, of exactly the values that are in the window.
use rowtrail.Base.{
  +ℤ-ℤ_cancel, +ℤ_assoc, +ℤ_comm, +ℤ_zero, Bool, Bool-cases, Ensures, Ensures-bind, Ensures-ok,
  List, Option, Option-cases, Result, String, [], ap, arith, checked_add, checked_sub, eqb_ℤ,
  eqb_ℤ_sound, err, false, if◌then◌else◌, inl, inr, length, none, ok, refl, some, sum, sym, true, ℕ,
  ℤ, ◌+ℤ◌, ◌+◌, ◌<◌, ◌==◌, ◌>>=◌, ◌∙◌, ◌∷◌, ◌≡◌,
}
use rowtrail.Numeric.{
  DataType, Range, State, SumError, add, checked, checked_add_u64, default, new_range, scalar,
  subtract,
}
use rowtrail.Numeric.Output.{IsDeclared, output_of, scalar_correct}
use rowtrail.Numeric.Batch.{Array, add_batch, flatten, values, visit}
use rowtrail.Numeric.Batch.Exact.{add_batch_exact}
use rowtrail.Numeric.Accumulator.Sound.Different.{distinct_count, distinct_sum, keys-distinct}
use mathlib.Core.Option.{none-ne-some, some-injective}
use mathlib.Core.Path.{subst}
use rowtrail.Numeric.Accumulator.{
  Accumulator, Counts, count_of, evaluate, insert, insert_distinct, keys_of, new_accumulator,
  or_zero, retract, retract_batch, retract_distinct, stored, update_batch,
}
use rowtrail.Numeric.Accumulator.Sound.{Holds, insert-Holds, occurrences, retract-Holds}

-- A batch of values that enter the window, or leave it.
pub data Move : Type 0 where
  enter : Array → Move
  leave : Array → Move

-- The window without the first value that equals `v`.
erase : ℤ → List ℤ → List ℤ
erase v [] = []
erase v (w ∷ ws) = if eqb_ℤ w v then ws else w ∷ erase v ws

-- The window after values enter, and after values leave; `none` when one leaves that is not there.
unfoldable pub enter_all : List ℤ → List ℤ → List ℤ
enter_all [] window = window
enter_all (v ∷ vs) window = enter_all vs (v ∷ window)

unfoldable pub leave_all : List ℤ → List ℤ → Option (List ℤ)
unfolding erase occurrences
leave_all [] window = some window
leave_all (v ∷ vs) window =
    let rest = leave_all vs (erase v window) in if occurrences v window == 0 then none else rest

-- The window after the moves.
unfoldable pub window_after : List Move → List ℤ → Option (List ℤ)
unfolding enter_all leave_all flatten
window_after [] window = some window
window_after (enter a ∷ moves) window = window_after moves (enter_all (flatten a.cells) window)
window_after (leave a ∷ moves) window = elim (leave_all (flatten a.cells) window) [
  | none ↦ none
  | some rest ↦ window_after moves rest
]

-- The calls that the engine makes for the moves.
unfoldable pub slide : List Move → Accumulator → Result SumError Accumulator
unfolding update_batch retract_batch
slide [] acc = ok acc
slide (enter a ∷ moves) acc = do acc' ← update_batch acc a; slide moves acc'
slide (leave a ∷ moves) acc = do acc' ← retract_batch acc a; slide moves acc'

leaves-erase :
    (v w : ℤ) (window : List ℤ)
    → 0 < occurrences v window
    → occurrences w window ≡ occurrences w (v ∷ erase v window)
unfolding erase occurrences
leaves-erase v w [] h = elim h [ ]
leaves-erase v w (u ∷ us) h =
    ground (arith, leaves-erase v w us, eqb_ℤ_sound u v, eqb_ℤ_sound v w, eqb_ℤ_sound u w)

sum-erase :
    (v : ℤ) (window : List ℤ)
    → 0 < occurrences v window
    → (sum window ≡ sum (erase v window) +ℤ v) × (length window ≡ length (erase v window) + 1)
unfolding erase occurrences sum
sum-erase v [] h = elim h [ ]
sum-erase v (u ∷ us) h =
    ground
      (arith, sum-erase v us, eqb_ℤ_sound u v, +ℤ_comm v (sum us), +ℤ_assoc u (sum (erase v us)) v)

-- The accumulator agrees with a window, and keeps its kind.
abbrev Tracks : Bool → Option Counts → State → List ℤ → Type 0
Tracks false none s window = (s.sum ≡ sum window) × (s.count ≡ length window)
Tracks true (some counts) s window = Holds s counts window
Tracks _ _ s window = ⊥

abbrev TracksAcc : Range → Bool → List ℤ → Accumulator → Type 0
TracksAcc r kind window acc = (acc.range ≡ r) × Tracks kind acc.distinct acc.state window

abbrev acc_of : Range → State → Option Counts → Accumulator
acc_of r s d = record { range = r; state = s; distinct = d }

module _ (r : Range) (s : State) (v : ℤ) (window : List ℤ) where
  stored_tracks :
      (d : Option Counts) (kept : List ℤ) (m : Result SumError (State × Counts))
      → Ensures (λ p. Holds p.0 p.1 kept) m
      → Ensures (TracksAcc r true kept) (stored (acc_of r s d) m)
  unfolding stored
  stored_tracks d kept (ok p) h = (refl, h)
  stored_tracks d kept (err e) h = tt

  enter-Tracks :
      (kind : Bool) (d : Option Counts)
      → Tracks kind d s window
      → Ensures (TracksAcc r kind (v ∷ window)) (insert (acc_of r s d) v)
  unfolding insert add checked_add checked_add_u64 sum
  enter-Tracks false none h = ground (arith, +ℤ_comm v s.sum)
  enter-Tracks true (some counts) h =
      stored_tracks (some counts) _ (insert_distinct r v (s, counts))
        (insert-Holds r v s counts window h)
  enter-Tracks true none h = absurd h
  enter-Tracks false (some counts) h = absurd h

  leave-Tracks :
      (kind : Bool) (d : Option Counts)
      → 0 < occurrences v window
      → Tracks kind d s window
      → Ensures (TracksAcc r kind (erase v window)) (retract (acc_of r s d) v)
  unfolding retract subtract checked_sub
  leave-Tracks false none g h =
      ground (arith, sum-erase v window g, +ℤ-ℤ_cancel (sum (erase v window)) v)
  leave-Tracks true (some counts) g h =
      stored_tracks (some counts) _ (retract_distinct r v (s, counts))
        (retract-Holds r v s counts window h (erase v window) (λ w. leaves-erase v w window g))
  leave-Tracks true none g h = absurd h
  leave-Tracks false (some counts) g h = absurd h

-- The plain visit of a batch, value by value.
visit_enter :
    (r : Range) (kind : Bool) (i : ℕ) (cells : List (Option ℤ)) (acc : Accumulator)
    (window : List ℤ)
    → TracksAcc r kind window acc
    → Ensures
        (TracksAcc r kind (enter_all (flatten cells) window))
        (visit (λ i v acc. insert acc v) i cells acc)
unfolding visit flatten enter_all
visit_enter r kind i [] acc window h = h
visit_enter r kind i (none ∷ cells) acc window h = visit_enter r kind (i + 1) cells acc window h
visit_enter r kind i (some v ∷ cells) acc window (e, h) =
    Ensures-bind (TracksAcc acc.range kind (v ∷ window)) _ (insert acc v) _
      (enter-Tracks acc.range acc.state v window kind acc.distinct h)
      λ acc' h'. visit_enter r kind (i + 1) cells acc' (v ∷ window) (h'.0 ∙ e, h'.1)

visit_leave :
    (r : Range) (kind : Bool) (i : ℕ) (cells : List (Option ℤ)) (acc : Accumulator)
    (window : List ℤ) {after : List ℤ}
    → leave_all (flatten cells) window ≡ some after
    → TracksAcc r kind window acc
    → Ensures (TracksAcc r kind after) (visit (λ i v acc. retract acc v) i cells acc)
unfolding visit flatten leave_all
visit_leave r kind i [] acc window w (e, h) =
    (e, subst (Tracks kind acc.distinct acc.state) (some-injective _ _ w) h)
visit_leave r kind i (none ∷ cells) acc window w h = visit_leave r kind (i + 1) cells acc window w h
visit_leave r kind i (some v ∷ cells) acc window w (e, h) =
    let occurs : 0 < occurrences v window = ground arith in
    Ensures-bind (TracksAcc acc.range kind (erase v window)) _ (retract acc v) _
      (leave-Tracks acc.range acc.state v window kind acc.distinct occurs h)
      λ acc' h'.
        visit_leave r kind (i + 1) cells acc' (erase v window) (ground arith) (h'.0 ∙ e, h'.1)

values-Ensures :
    {S : Type 0} (P : S → Type 0) (array : Array) (f : ℕ → ℤ → S → Result SumError S) (s : S)
    → Ensures P (visit f 0 array.cells s)
    → Ensures P (values array f s)
unfolding values
values-Ensures P array f s h = elim (Bool-cases (checked array.data_type)) [
  | inl e ↦ rw e h
  | inr e ↦ rw e tt
]

-- What entering values add to the sum and the length of a window.
sum-enter_all :
    (vs window : List ℤ)
    → (sum (enter_all vs window) ≡ sum window +ℤ sum vs)
      × (length (enter_all vs window) ≡ length window + length vs)
unfolding enter_all sum
sum-enter_all [] window = (sym (+ℤ_zero (sum window)), omega arith)
sum-enter_all (v ∷ vs) window =
    let (x, y) = sum-enter_all vs (v ∷ window) in
    (
      x ∙ ap (λ t. t +ℤ sum vs) (+ℤ_comm v (sum window)) ∙ +ℤ_assoc (sum window) v (sum vs),
      omega (arith, y),
    )

module _ (r : Range) (s : State) (window : List ℤ) (array : Array) where
  -- The batch that enters a plain window goes through `add_batch`.
  plain_enter :
      (m : Result SumError State)
      → m ≡ add_batch s array r
      → (s.sum ≡ sum window) × (s.count ≡ length window)
      → Ensures
          (TracksAcc r false (enter_all (flatten array.cells) window))
          (do state ← m; ok (acc_of r state none))
  plain_enter (err e) same h = tt
  plain_enter (ok t) same (total, size) =
      let (x, y) = add_batch_exact s array r (sym same) in
      let (u, v) = sum-enter_all (flatten array.cells) window in
      (
        refl,
        (x ∙ ap (λ k. k +ℤ sum (flatten array.cells)) total ∙ sym u, omega (arith, y, v, size)),
      )

  batch_enter :
      (kind : Bool) (d : Option Counts)
      → Tracks kind d s window
      → Ensures
          (TracksAcc r kind (enter_all (flatten array.cells) window))
          (update_batch (acc_of r s d) array)
  unfolding update_batch
  batch_enter false none h = plain_enter (add_batch s array r) refl h
  batch_enter true (some counts) h =
      values-Ensures (TracksAcc r true (enter_all (flatten array.cells) window)) array
        (λ i v acc. insert acc v) (acc_of r s (some counts))
        (visit_enter r true 0 array.cells (acc_of r s (some counts)) window (refl, h))
  batch_enter true none h = absurd h
  batch_enter false (some counts) h = absurd h

batch_leave :
    (r : Range) (kind : Bool) (array : Array) (acc : Accumulator) (window : List ℤ) {after : List ℤ}
    → leave_all (flatten array.cells) window ≡ some after
    → TracksAcc r kind window acc
    → Ensures (TracksAcc r kind after) (retract_batch acc array)
unfolding retract_batch
batch_leave r kind array acc window {after} w h =
    values-Ensures (TracksAcc r kind after) array (λ i v acc. retract acc v) acc
      (visit_leave r kind 0 array.cells acc window w h)

slide_tracks :
    (r : Range) (kind : Bool) (moves : List Move) (acc : Accumulator) (window : List ℤ)
    {after : List ℤ}
    → window_after moves window ≡ some after
    → TracksAcc r kind window acc
    → Ensures (TracksAcc r kind after) (slide moves acc)
unfolding window_after slide
slide_tracks r kind [] acc window w (e, h) =
    (e, subst (Tracks kind acc.distinct acc.state) (some-injective _ _ w) h)
slide_tracks r kind (enter a ∷ moves) acc window w (e, h) =
    Ensures-bind (TracksAcc acc.range kind (enter_all (flatten a.cells) window)) _
      (update_batch acc a) _ (batch_enter acc.range acc.state window a kind acc.distinct h)
      λ acc' h'.
        slide_tracks r kind moves acc' (enter_all (flatten a.cells) window) w (h'.0 ∙ e, h'.1)
slide_tracks r kind (leave a ∷ moves) acc window w h =
    elim (Option-cases (leave_all (flatten a.cells) window)) [
      | inl x ↦ absurd (none-ne-some _ (rw (x, window_after) at w))
      | inr (rest, x) ↦
          Ensures-bind (TracksAcc r kind rest) _ (retract_batch acc a) _
            (batch_leave r kind a acc window x h)
            λ acc' h'. slide_tracks r kind moves acc' rest (rw (x, window_after) at w) h'
    ]

-- What an accumulator of each kind should hold for a window.
abbrev pub window_state : Bool → List ℤ → State
window_state false window = record { sum = sum window; count = length window }
window_state true window = record { sum = distinct_sum window; count = distinct_count window }

Tracks-state :
    (kind : Bool) (d : Option Counts) (s : State) (window : List ℤ)
    → Tracks kind d s window
    → s ≡ window_state kind window
Tracks-state false none s window h = λ i. record { sum = h.0 i; count = h.1 i }
Tracks-state true (some counts) s window h =
    let (x, y) = keys-distinct window counts h.is_map h.counted in
    λ i. record { sum = (h.sum_exact ∙ x) i; count = (h.count_exact ∙ y) i }
Tracks-state true none s window h = absurd h
Tracks-state false (some counts) s window h = absurd h

abbrev empty_map : Bool → Option Counts
empty_map kind = if kind then some [] else none

fresh_tracks : (r : Range) (kind : Bool) → TracksAcc r kind [] (acc_of r default (empty_map kind))
unfolding sum
fresh_tracks r false = (refl, (refl, refl))
fresh_tracks r true = (
  refl,
  record {
    is_map = tt;
    counted = λ v. unfold count_of or_zero occurrences in refl;
    sum_exact = unfold keys_of in refl;
    count_exact = unfold keys_of in refl;
  },
)

new_tracks :
    (dt : DataType) (name : String) (kind : Bool) (r : Range) {acc : Accumulator}
    → new_range dt name ≡ some r
    → new_accumulator dt name kind ≡ some acc
    → TracksAcc r kind [] acc
unfolding new_accumulator
new_tracks dt name kind r e h =
    subst (TracksAcc r kind []) (some-injective _ _ (rw (e, new_accumulator) at h))
      (fresh_tracks r kind)

-- A sliding window, plain or DISTINCT, of a declared type: whatever batches enter, by `update_batch`,
-- and leave, by `retract_batch`, if none reports an error then `evaluate` is null for an empty window, the exact sum of the values
-- in the window (each once under DISTINCT) where the declared type holds it, and else the range
-- error. A value may leave only if it is in the window.
pub slide-evaluate :
    (dt : DataType) (name : String) (kind : Bool) (moves : List Move) {acc acc' : Accumulator}
    {window : List ℤ}
    → IsDeclared dt
    → new_accumulator dt name kind ≡ some acc
    → window_after moves [] ≡ some window
    → slide moves acc ≡ ok acc'
    → evaluate acc' ≡ output_of dt name (window_state kind window)
unfolding evaluate
slide-evaluate dt name kind moves {acc' = acc'} d new w s =
    let (r, range, correct) = scalar_correct dt name d in
    let (e, t) =
      Ensures-ok _ _ (slide_tracks r kind moves _ [] w (new_tracks dt name kind r range new)) s in
    ap (λ k. scalar k acc'.state) e
    ∙ correct acc'.state
    ∙ ap (output_of dt name) (Tracks-state kind acc'.distinct acc'.state _ t)
