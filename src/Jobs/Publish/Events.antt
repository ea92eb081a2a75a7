-- ===== src/Jobs/Publish/Events.antt =====
-- db.rs: `publish` ends no job and changes no job row.
use rowtrail.Base.{
  Bool, Bool-cases, Ensures, Ensures-any, Ensures-bind, List, Option, Result-cases, [], inl, inr,
  refl, ℕ, ◌++◌, ◌>>◌, ◌∷◌,
}
use rowtrail.Jobs.{JobSpec, ResultRow, Tables}
use rowtrail.Jobs.Publish.{
  Disk, Part, add_revision, admit, check_descriptor, check_inline, commit_on, duplicate, fresh,
  part_row, place, preview_revision, publish, publish_fresh, store_part, store_preview,
  store_progress, wants_preview, with_checkpoint,
}
use rowtrail.Jobs.Events.{Quiet, SameJobs, SameJobs-refl, commit_part-SameJobs}

store_preview-Quiet :
    (spec : JobSpec) (part : Part) (row : ResultRow)
    → Ensures (λ stored. Quiet stored.1) (store_preview spec part row)
unfolding store_preview
store_preview-Quiet spec part row = elim (Bool-cases (wants_preview spec)) [
  | inl e ↦
      let rev = preview_revision spec part row in
      rw (e, Ensures)
        (Ensures-bind _ _ (add_revision rev (with_checkpoint part rev.revision row)) _
          (Ensures-any _) λ row' u. (λ job id. refl, tt))
  | inr e ↦ rw (e, Ensures) tt
]

store_part-Quiet :
    (spec : JobSpec) (part : Part) (inline : Bool) (row : ResultRow)
    → Ensures (λ stored. Quiet stored.1) (store_part spec part inline row)
unfolding store_part
store_part-Quiet spec part inline row =
    Ensures-bind _ _
      (store_progress spec part (record row { parts = row.parts ++ part_row part inline ∷ [] })) _
      (Ensures-any _) λ row' u. store_preview-Quiet spec part row'

module _ (decode : List ℕ → Option (List ℕ)) (digest : List ℕ → ℕ) where
  publish_fresh-SameJobs :
      (spec : JobSpec) (part : Part) (row : ResultRow) (db : Tables) (disk : Disk)
      → Ensures (SameJobs db) (publish_fresh decode digest spec part row db disk).0
  unfolding publish_fresh
  publish_fresh-SameJobs spec part row db disk =
      elim (Result-cases
        (do check_descriptor spec part row; check_inline decode digest spec part)) [
          | inl (e, x) ↦ rw (x, Ensures) tt
          | inr (inline, x) ↦
              rw (x, Ensures)
                (elim (Result-cases (place decode digest spec part inline disk)) [
                  | inl (e, y) ↦ rw (y, Ensures) tt
                  | inr (disk', y) ↦
                      rw (y, Ensures)
                        (unfold commit_on in
                          (Ensures-bind _ _ (store_part spec part inline row) _
                            (store_part-Quiet spec part inline row)
                            λ stored h. commit_part-SameJobs spec stored.0 stored.1 db h))
                ])
        ]

  pub publish-SameJobs :
      (spec : JobSpec) (part : Part) (db : Tables) (disk : Disk)
      → Ensures (SameJobs db) (publish decode digest spec part db disk).0
  unfolding publish
  publish-SameJobs spec part db disk = elim (Result-cases (admit spec part db)) [
    | inl (e, x) ↦ rw (x, Ensures) tt
    | inr (duplicate, x) ↦ rw (x, Ensures) (SameJobs-refl db)
    | inr (fresh row, x) ↦ rw (x, Ensures) (publish_fresh-SameJobs spec part row db disk)
  ]
