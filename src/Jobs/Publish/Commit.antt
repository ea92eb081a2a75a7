-- ===== src/Jobs/Publish/Commit.antt =====
-- db.rs: `publish` as a whole keeps every committed part and revision, and the shape of all results.
use rowtrail.Base.{
  Bool, Ensures, Ensures-any, Ensures-bind, Ensures-ok, Ensures-ok_or, Ensures-weaken, List, Option,
  OptionAll-value, Result-cases, arith, find, guard, inl, inr, length, ok_or, some, sym, ℕ, ◌&&◌,
  ◌==◌, ◌>>◌, ◌≡◌,
}
use rowtrail.Jobs.{JobSpec, ResultRow, Tables, is_some, not_found, publication_rejected}
use rowtrail.Jobs.Publish.{
  Admission, Disk, Part, admit, admit_new, check_descriptor, check_inline, commit_on, commit_part,
  duplicate, fresh, is_running, place, publish, publish_fresh, store_part,
}
use rowtrail.Jobs.Publish.Sound.{store_part-IsSound}
use rowtrail.Jobs.Shape.{
  ExtendsAll-refl, IsSound, Keeps, SoundTables, commit_part-ExtendsAll, commit_part-SoundTables,
}

-- What `admit` has established of the part that it lets in.
abbrev Admitted : JobSpec → Part → Tables → Admission → Type 0
Admitted spec part db duplicate = Unit
Admitted spec part db (fresh row) =
    (find spec.result_ref db.results ≡ some row) × (part.seq ≡ length row.parts)

admit_new_lem :
    (spec : JobSpec) (part : Part) (db : Tables) (row : ResultRow)
    → find spec.result_ref db.results ≡ some row
    → Ensures (Admitted spec part db) (admit_new part row)
unfolding admit_new
admit_new_lem spec part db row e = ground arith

admit_lem :
    (spec : JobSpec) (part : Part) (db : Tables)
    → Ensures (Admitted spec part db) (admit spec part db)
unfolding admit
admit_lem spec part db =
    Ensures-bind _ _ (ok_or (find spec.job_id db.jobs) not_found) _ (Ensures-any _) λ job u.
      Ensures-bind _ _
        (guard (is_running job.state && job.spec.attempt == spec.attempt) publication_rejected) _
        (Ensures-any _)
        λ v w.
          Ensures-bind _ _ (ok_or (find spec.result_ref db.results) not_found) _
            (Ensures-ok_or (find spec.result_ref db.results) not_found)
            λ row e. admit_new_lem spec part db row e

store_part-Keeps :
    (kinds : ℕ → Bool) (spec : JobSpec) (part : Part) (inline : Bool) (row : ResultRow)
    (db : Tables)
    → SoundTables kinds db
    → kinds spec.result_ref ≡ is_some spec.analysis
    → Admitted spec part db (fresh row)
    → Ensures
        (λ stored. Keeps kinds db (commit_part spec stored db))
        (store_part spec part inline row)
store_part-Keeps kinds spec part inline row db sound kind (read, next) =
    Ensures-weaken _ _ (store_part spec part inline row)
      (λ stored (s, x). (
        commit_part-SoundTables kinds spec db row stored read (rw kind s) sound,
        commit_part-ExtendsAll kinds spec db row stored read x,
      ))
      (store_part-IsSound spec part inline row
        (rw (sym kind) (
          OptionAll-value (IsSound (kinds spec.result_ref)) (find spec.result_ref db.results)
            (sound spec.result_ref) read))
        next)

module _ (decode : List ℕ → Option (List ℕ)) (digest : List ℕ → ℕ) where
  publish_fresh-Keeps :
      (kinds : ℕ → Bool) (spec : JobSpec) (part : Part) (row : ResultRow) (db : Tables)
      (disk : Disk)
      → SoundTables kinds db
      → kinds spec.result_ref ≡ is_some spec.analysis
      → Admitted spec part db (fresh row)
      → Ensures (Keeps kinds db) (publish_fresh decode digest spec part row db disk).0
  unfolding publish_fresh
  publish_fresh-Keeps kinds spec part row db disk sound kind h =
      elim (Result-cases
        ((do check_descriptor spec part row; check_inline decode digest spec part))) [
          | inl (e, x) ↦ rw (x, Ensures) tt
          | inr (inline, x) ↦
              rw (x, Ensures)
                (elim (Result-cases (place decode digest spec part inline disk)) [
                  | inl (e, y) ↦ rw (y, Ensures) tt
                  | inr (disk', y) ↦
                      rw (y, Ensures)
                        (unfold commit_on in
                          (Ensures-bind _ _ (store_part spec part inline row) _
                            (store_part-Keeps kinds spec part inline row db sound kind h)
                            λ stored k. k))
                ])
        ]

  -- Whatever publish commits keeps every committed part and revision of every result in its place,
  -- and leaves the parts and revisions of every result numbered without a gap, its head at its last
  -- revision, and each revision over committed parts with their row count, if this was so before
  -- and `kinds` tells which results a progressive aggregate writes.
  pub publish-Keeps :
      (kinds : ℕ → Bool) (spec : JobSpec) (part : Part) (db : Tables) (disk : Disk)
      → SoundTables kinds db
      → kinds spec.result_ref ≡ is_some spec.analysis
      → Ensures (Keeps kinds db) (publish decode digest spec part db disk).0
  unfolding publish
  publish-Keeps kinds spec part db disk sound kind = elim (Result-cases (admit spec part db)) [
    | inl (e, x) ↦ rw (x, Ensures) tt
    | inr (duplicate, x) ↦ rw (x, Ensures) (sound, ExtendsAll-refl db)
    | inr (fresh row, x) ↦
        rw (x, Ensures)
          (publish_fresh-Keeps kinds spec part row db disk sound kind
            (Ensures-ok (Admitted spec part db) (admit spec part db) (admit_lem spec part db) x))
  ]
