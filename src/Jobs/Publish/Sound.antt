-- ===== src/Jobs/Publish/Sound.antt =====
-- db.rs: a publication keeps the shape of its result and adds to what was committed.
use mathlib.Core.List.{append-nil}
use mathlib.Core.Path.{subst}
use rowtrail.Base.{
  Bool, Bool-cases, Ensures, Ensures-bind, Ensures-of_Returns, List, Returns, Returns-bind,
  Returns-weaken, [], ap, arith, if◌then◌else◌, inl, inr, length, length-append, none, refl, some,
  sym, take, take_all, ℕ, ◌++◌, ◌+◌, ◌∙◌, ◌∷◌, ◌≡◌,
}
use rowtrail.Jobs.{JobSpec, ResultRow, Revision, is_some}
use rowtrail.Jobs.Publish.{
  Part, add_revision, part_row, preview_revision, store_part, store_preview, store_progress,
  sum_rows, wants_preview, with_checkpoint,
}
use rowtrail.Jobs.Shape.{
  Extends, Fits, Fits-of_rows, IsSound, add_part-IsSound, add_revision-IsSound,
}

-- The row after the branch on the checkpoint descriptor.
abbrev progressed : Part → ResultRow → ResultRow
progressed part row = record row {
  progress = elim part.checkpoint [ none ↦ row.progress | some p ↦ some p ];
}

store_progress_lem :
    (spec : JobSpec) (part : Part) (row : ResultRow)
    → Ensures
        (λ row'. (row' ≡ progressed part row) × (is_some spec.analysis ≡ is_some part.checkpoint))
        (store_progress spec part row)
unfolding store_progress
store_progress_lem spec part row = ground arith

abbrev checkpointed : Part → ℕ → ResultRow → ResultRow
checkpointed part rev row = record row {
  checkpoints = elim part.checkpoint [
    | none ↦ row.checkpoints
    | some p ↦ row.checkpoints ++ (rev, part.seq) ∷ []
  ];
}

with_checkpoint_lem :
    (part : Part) (rev : ℕ) (row : ResultRow)
    → with_checkpoint part rev row ≡ checkpointed part rev row
unfolding with_checkpoint
with_checkpoint_lem part rev row = ground arith

-- Sound, with these parts, and with the revisions of the row before and perhaps more.
abbrev Grown : Bool → ResultRow → ResultRow → Type 0
Grown progressive row after =
    IsSound progressive after
    × (after.parts ≡ row.parts)
    × ((rs : List Revision) × (after.revisions ≡ row.revisions ++ rs))

module _ (spec : JobSpec) (part : Part) (row : ResultRow) (progressive : Bool)
    (kind : progressive ≡ is_some part.checkpoint) (sound : IsSound progressive row)
    (last : length row.parts ≡ part.seq + 1) where
  preview_rows :
      (preview_revision spec part row).rows
      ≡ (if progressive then 1 else sum_rows (take (part.seq + 1) row.parts))
  unfolding preview_revision
  preview_rows =
      ground (arith, ap (λ n. sum_rows (take n row.parts)) last, ap sum_rows (take_all row.parts))

  preview-Fits : Fits progressive row.parts (preview_revision spec part row)
  preview-Fits =
      Fits-of_rows progressive row.parts (preview_revision spec part row)
        (unfold preview_revision in omega arith) (unfold preview_revision in omega arith)
        (preview_rows ∙ (unfold preview_revision in refl))

  checkpointed-IsSound : (rev : ℕ) → IsSound progressive (checkpointed part rev row)
  checkpointed-IsSound rev = record {
    parts_numbered = sound.parts_numbered;
    revisions_numbered = sound.revisions_numbered;
    head_last = sound.head_last;
    revisions_fit = sound.revisions_fit;
  }

  revise :
      Returns
        (λ after. Grown progressive row after)
        (add_revision
          (preview_revision spec part row)
          (with_checkpoint part (preview_revision spec part row).revision row))
  revise =
      let rev = preview_revision spec part row in
      rw (with_checkpoint_lem part rev.revision row) (
        Returns-weaken _ _ (add_revision rev (checkpointed part rev.revision row))
          (λ after (h, e). (h, ap (λ r. r.parts) e, (rev ∷ [], ap (λ r. r.revisions) e)))
          (add_revision-IsSound progressive rev (checkpointed part rev.revision row)
            (checkpointed-IsSound rev.revision) (unfold preview_revision in refl) preview-Fits))

  preview-IsSound : Returns (λ p. Grown progressive row p.0) (store_preview spec part row)
  unfolding store_preview
  preview-IsSound = elim (Bool-cases (wants_preview spec)) [
    | inl e ↦
        rw (e, Returns)
          (Returns-bind (Grown progressive row) _
            (add_revision (preview_revision spec part row)
              (with_checkpoint part (preview_revision spec part row).revision row))
            _ revise (λ after h. h))
    | inr e ↦ rw (e, Returns) (sound, refl, ([], sym (append-nil row.revisions)))
  ]

progressed-IsSound :
    (progressive : Bool) (part : Part) (row : ResultRow)
    → IsSound progressive row
    → IsSound progressive (progressed part row)
progressed-IsSound progressive part row h = record {
  parts_numbered = h.parts_numbered;
  revisions_numbered = h.revisions_numbered;
  head_last = h.head_last;
  revisions_fit = h.revisions_fit;
}

-- Whatever `publish` stores in a sound result leaves it sound and keeps what was committed.
pub store_part-IsSound :
    (spec : JobSpec) (part : Part) (inline : Bool) (row : ResultRow)
    → IsSound (is_some spec.analysis) row
    → part.seq ≡ length row.parts
    → Ensures
        (λ p. IsSound (is_some spec.analysis) p.0 × Extends row p.0)
        (store_part spec part inline row)
unfolding store_part
store_part-IsSound spec part inline row h e =
    let new = part_row part inline in
    let grown : ResultRow = record row { parts = row.parts ++ new ∷ [] } in
    let after = progressed part grown in
    Ensures-bind _ _ (store_progress spec part grown) _ (store_progress_lem spec part grown)
      λ row' (x, kind).
        subst
          (λ r.
            Ensures (λ p. IsSound (is_some spec.analysis) p.0 × Extends row p.0)
              (store_preview spec part r))
          (sym x)
          (Ensures-of_Returns _ _ (store_preview spec part after)
            (λ p (sound, parts, revisions).
              (sound, record { more_parts = (new ∷ [], parts); more_revisions = revisions }))
            (preview-IsSound spec part after (is_some spec.analysis) kind
              (progressed-IsSound (is_some spec.analysis) part grown
                (add_part-IsSound (is_some spec.analysis) row new h (unfold part_row in e)))
              (omega (arith, length-append row.parts (new ∷ [])))))
