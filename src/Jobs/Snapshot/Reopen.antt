-- ===== src/Jobs/Snapshot/Reopen.antt =====
-- results.rs: which revision `snapshot` opens.
use rowtrail.Base.{
  Bool-cases, Ensures, Ensures-ok, Option-cases, find, inl, inr, length, ltb, ok, refl, some, ℕ,
  ◌-◌, ◌==◌, ◌≡◌,
}
use rowtrail.Jobs.{JobState, ResultRow, Tables}
use rowtrail.Jobs.Snapshot.{
  Snapshot, find_revision, is_expired, read_row, select, snapshot, start_of,
}

read_row-revision :
    (row : ResultRow) (state : JobState) (revision : ℕ)
    → Ensures (λ (s : Snapshot). s.revision ≡ revision) (read_row row state revision)
unfolding read_row
read_row-revision row state revision = elim (Bool-cases (ltb 0 revision)) [
  | inr a ↦ rw (a, Ensures) tt
  | inl a ↦ elim (Option-cases (find_revision revision row.revisions)) [
    | inl b ↦ rw (a, b, Ensures) tt
    | inr (r, b) ↦
        let start = start_of revision row.checkpoints in
        elim (Bool-cases (length (select start r.cutoff row.parts) == r.cutoff - start)) [
          | inr c ↦ rw (a, b, c, Ensures) tt
          | inl c ↦ elim (Option-cases row.schema) [
            | inl d ↦ rw (a, b, c, d, Ensures) tt
            | inr (schema, d) ↦ rw (a, b, c, d, Ensures) refl
          ]
        ]
  ]
]

pub snapshot-revision :
    (id revision : ℕ) (db : Tables)
    → Ensures (λ (s : Snapshot). s.revision ≡ revision) (snapshot id (some revision) db)
unfolding snapshot
snapshot-revision id revision db = elim (Option-cases (find id db.results)) [
  | inl a ↦ rw (a, Ensures) tt
  | inr (row, a) ↦ elim (Option-cases (find row.job_id db.jobs)) [
    | inl b ↦ rw (a, b, Ensures) tt
    | inr (job, b) ↦ elim (Bool-cases (is_expired row.validity)) [
      | inl c ↦ rw (a, b, c, Ensures) tt
      | inr c ↦ rw (a, b, c) (read_row-revision row job.state revision)
    ]
  ]
]

pub revision_asked :
    (id n : ℕ) (db : Tables) {snap : Snapshot}
    → snapshot id (some n) db ≡ ok snap
    → snap.revision ≡ n
revision_asked id n db h =
    Ensures-ok (λ (s : Snapshot). s.revision ≡ n) (snapshot id (some n) db)
      (snapshot-revision id n db) h
