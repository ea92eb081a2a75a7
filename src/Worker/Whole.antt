-- ===== src/Worker/Whole.antt =====
-- worker.rs: what is left of the output of a stream when it has ended.
use mathlib.Core.List.{append-nil}
use rowtrail.Base.{
  Bool, Bool-cases, Ensures, Ensures-bind, Ensures-weaken, List, Option, [], arith, inl, inr,
  length, none, refl, some, sym, true, ℕ, ◌&&◌, ◌++◌, ◌==◌, ◌>>=◌, ◌∙◌, ◌∷◌, ◌≡◌, ◌⊎◌,
}
use rowtrail.Worker.{Batch}
use rowtrail.Worker.Order.{
  AllSealed, IsSealed, Numbered, Took, given_by, publish-AllSealed, push-Took, push_all-Took,
  sealed_batches,
}
use rowtrail.Worker.Output.{
  Execution, Output, SealedPart, StagedPart, no_output, pad, publish, push, push_all, rows_of,
  write_output,
}

-- Nothing is left to seal, and the sealed batches are those given, or one without rows if there are
-- none.
unfoldable pub IsWhole : Batch → List Batch → Output → Type 0
IsWhole empty given o =
    (o.staged ≡ none)
    × IsSealed o
    × ((sealed_batches o.sealed ≡ given) ⊎ ((given ≡ []) × (sealed_batches o.sealed ≡ empty ∷ [])))

-- What `pad` leaves: all that was given, or the batch without rows in place of nothing.
Padded : Batch → List Batch → Output → Type 0
Padded empty given o = Took given o ⊎ ((given ≡ []) × Took (empty ∷ []) o)

AllSealed-IsWhole :
    (empty : Batch) (given : List Batch) (o : Output)
    → AllSealed given o
    → (o.staged ≡ none) × IsSealed o × (sealed_batches o.sealed ≡ given)
unfolding Took
AllSealed-IsWhole empty given o ((same, few, sealed), gone) =
    (gone, sealed, sym (append-nil (sealed_batches o.sealed)) ∙ (rw gone at same))

no-parts :
    (given : List Batch) (sealed : List SealedPart)
    → 0 ≡ length sealed
    → sealed_batches sealed ++ [] ≡ given
    → given ≡ []
unfolding sealed_batches
no-parts given [] h same = sym same
no-parts given (part ∷ parts) h same = absurd (omega (arith, h))

none-prepared : (prepared : Bool) (n : ℕ) → (prepared && (n == 0)) ≡ true → n ≡ 0
none-prepared prepared n h = ground arith

module _ (run : Execution) (empty : Batch) (given : List Batch) where
  pad_staged-Padded :
      (parts written rows : ℕ) (sealed : List SealedPart) (staged : Option StagedPart)
      → Took given (record {
        staged = staged;
        parts = parts;
        written = written;
        rows = rows;
        sealed = sealed;
      })
      → Ensures (Padded empty given) (
          pad run empty (record {
            staged = staged;
            parts = parts;
            written = written;
            rows = rows;
            sealed = sealed;
          }))
  unfolding pad Padded Took IsSealed
  pad_staged-Padded parts written rows sealed (some part) t = inl t
  pad_staged-Padded parts written rows sealed none t =
      let o : Output = record {
        staged = none;
        parts = parts;
        written = written;
        rows = rows;
        sealed = sealed;
      } in
      elim (Bool-cases (run.style.prepared && (parts == 0))) [
        | inr skip ↦ rw skip (inl t)
        | inl needed ↦
            let nothing =
              no-parts given sealed (sym (none-prepared run.style.prepared parts needed) ∙ t.2.0)
                t.0 in
            rw needed (
              Ensures-weaken (Took (given ++ empty ∷ [])) (Padded empty given) (push run empty o)
                (λ o' k. inr (nothing, rw nothing at k)) (push-Took run given empty o t))
      ]

  pad-Padded : (o : Output) → Took given o → Ensures (Padded empty given) (pad run empty o)
  pad-Padded o t = pad_staged-Padded o.parts o.written o.rows o.sealed o.staged t

  publish-IsWhole :
      (o : Output) → Padded empty given o → Ensures (IsWhole empty given) (publish run o)
  unfolding Padded IsWhole
  publish-IsWhole o (inl t) =
      Ensures-weaken (AllSealed given) (IsWhole empty given) (publish run o)
        (λ o' k.
          let (gone, sealed, same) = AllSealed-IsWhole empty given o' k in (gone, sealed, inl same))
        (publish-AllSealed run given o t)
  publish-IsWhole o (inr (nothing, t)) =
      Ensures-weaken (AllSealed (empty ∷ [])) (IsWhole empty given) (publish run o)
        (λ o' k.
          let (gone, sealed, same) = AllSealed-IsWhole empty (empty ∷ []) o' k in
          (gone, sealed, inr (nothing, same)))
        (publish-AllSealed run (empty ∷ []) o t)

no_output-Took : Took [] no_output
unfolding Took IsSealed Numbered sealed_batches rows_of
no_output-Took = (refl, omega arith, (refl, refl, tt, tt))

-- Whatever the sizes of the batches, the clock and the answers of the libraries and the coordinator:
-- when the output of a stream is written without an error, nothing is left to seal, and the parts are
-- numbered from 0, each with its rows and at most 128 batches, and hold exactly the batches of the
-- stream in order, or the one without rows if there were none; their number and rows are counted.
pub write_output-IsWhole :
    (run : Execution) (empty : Batch) (steps : List (Option Batch))
    → Ensures (IsWhole empty (given_by steps)) (write_output run empty steps)
unfolding write_output
write_output-IsWhole run empty steps =
    Ensures-bind (Took (given_by steps)) (IsWhole empty (given_by steps))
      (push_all run steps no_output) (λ o. pad run empty o >>= publish run)
      (push_all-Took run [] steps no_output no_output-Took)
      λ o t.
        Ensures-bind (Padded empty (given_by steps)) (IsWhole empty (given_by steps))
          (pad run empty o) (publish run) (pad-Padded run empty (given_by steps) o t)
          (publish-IsWhole run empty (given_by steps))
