-- ===== src/Jobs/Finish/Events.antt =====
-- db.rs: the one job row and the one `job.ended` event that `finish` writes.
use rowtrail.Base.{
  Bool, Bool-cases, Ensures, Ensures-any, Ensures-bind, Ensures-guarded, List, Option, Option-cases,
  Table, ap, arith, find, guard, if◌then◌else◌, inl, inr, length, ltb, modify, not, ok_or, refl, ℕ,
  ◌&&◌, ◌+◌, ◌==◌, ◌||◌, ◌≡◌,
}
use rowtrail.Jobs.{
  ErrorCode, JobSpec, JobState, ObjectRow, Prepared, ResultRow, Revision, Tables, constraint,
  dataset_ready, export_failed, is_some, job_ended, not_found, resource_exhausted, result_corrupt,
  set_job, with_event,
}
use rowtrail.Jobs.Publish.{add_revision, commit_part}
use rowtrail.Jobs.Finish.{
  Outcome, announce, close_prepared, close_result, commit_prepared, conclude, conclude_analysis,
  end_job, final_aggregate, finish_as, full_coverage, has_object, is_completed, plain_query,
  salvage,
}
use rowtrail.Jobs.Events.{
  Quiet, SameJobs, SameJobs-refl, SameJobs-trans, commit_part-SameJobs, ended_count,
  ended_count-with_event,
}

announce-Quiet :
    (spec : JobSpec) (rev : Revision) (row : ResultRow)
    → Ensures (λ change. Quiet change.1) (announce spec rev row)
unfolding announce
announce-Quiet spec rev row =
    Ensures-bind _ _ (add_revision rev row) _ (Ensures-any _) λ row' u. (λ job id. refl, tt)

conclude_analysis-Quiet :
    (spec : JobSpec) (row : ResultRow)
    → Ensures (λ change. Quiet change.1) (conclude_analysis spec row)
unfolding conclude_analysis
conclude_analysis-Quiet spec row =
    Ensures-bind _ _ (guard (ltb 0 (length row.parts)) result_corrupt) _ (Ensures-any _) λ u v.
      Ensures-bind _ _ (ok_or row.progress not_found) _ (Ensures-any _) λ p w.
        Ensures-bind _ _ (guard (full_coverage p) result_corrupt) _ (Ensures-any _)
          λ x y. announce-Quiet spec (final_aggregate spec p row) _

conclude-Quiet :
    (spec : JobSpec) (row : ResultRow) → Ensures (λ change. Quiet change.1) (conclude spec row)
unfolding conclude
conclude-Quiet spec row =
    Ensures-bind _ _ (guard (is_some row.schema) result_corrupt) _ (Ensures-any _)
      λ u v. announce-Quiet spec _ row

salvage-Quiet :
    (spec : JobSpec) (row : ResultRow) → Ensures (λ change. Quiet change.1) (salvage spec row)
unfolding salvage
salvage-Quiet spec row = elim (Bool-cases (row.head == 0 && ltb 0 (length row.parts))) [
  | inl e ↦ rw (e, Ensures) (announce-Quiet spec _ row)
  | inr e ↦ rw (e, Ensures) tt
]

close_result-Quiet :
    (spec : JobSpec) (state : JobState) (row : ResultRow)
    → Ensures (λ change. Quiet change.1) (close_result spec state row)
unfolding close_result
close_result-Quiet spec state row = elim (Bool-cases (is_completed state)) [
  | inl a ↦ rw a (elim (Bool-cases (plain_query spec)) [
    | inl b ↦ rw b (conclude-Quiet spec row)
    | inr b ↦ rw b (elim (Bool-cases (is_some spec.analysis)) [
      | inl c ↦ rw c (conclude_analysis-Quiet spec row)
      | inr c ↦ rw (c, Ensures) tt
    ])
  ])
  | inr a ↦ rw a (elim (Bool-cases (plain_query spec)) [
    | inl b ↦ rw b (salvage-Quiet spec row)
    | inr b ↦ rw (b, Ensures) tt
  ])
]

ready-SameJobs :
    (job data_ref manifest_ref : ℕ) (objects : Table ObjectRow) (deps : List (ℕ × ℕ)) (db : Tables)
    → SameJobs db (
        with_event job
          (dataset_ready data_ref manifest_ref)
          (record db { objects = objects; deps = deps }))
ready-SameJobs job data_ref manifest_ref objects deps db = record {
  jobs_same = refl;
  ended_same =
      λ id. omega (arith, ended_count-with_event id job (dataset_ready data_ref manifest_ref) db);
}

commit_prepared-SameJobs :
    (fits : Bool) (spec : JobSpec) (p : Prepared) (row : ResultRow) (db : Tables)
    → Ensures (SameJobs db) (commit_prepared fits spec p row db)
unfolding commit_prepared
commit_prepared-SameJobs fits spec p row db =
    Ensures-guarded (SameJobs db) (is_some row.schema) not_found _ (
      Ensures-guarded (SameJobs db) (ltb 0 (length row.parts)) result_corrupt _ (
        Ensures-guarded (SameJobs db) fits resource_exhausted _ (
          Ensures-guarded (SameJobs db)
            (not (has_object p.dataset_ref db.objects)
              && not (has_object p.manifest_ref db.objects)
              && not (p.dataset_ref == p.manifest_ref))
            constraint _ (ready-SameJobs spec.job_id p.dataset_ref p.manifest_ref _ _ db))))

close_prepared-SameJobs :
    (fits : Bool) (spec : JobSpec) (state : JobState) (row : ResultRow) (db : Tables)
    → Ensures (SameJobs db) (close_prepared fits spec state row db)
unfolding close_prepared
close_prepared-SameJobs fits spec state row db = elim (Option-cases spec.prepared) [
  | inl e ↦ rw (e, Ensures) (SameJobs-refl db)
  | inr (p, e) ↦ rw e (elim (Bool-cases (is_completed state)) [
    | inl a ↦ rw a (commit_prepared-SameJobs fits spec p row db)
    | inr a ↦ rw (a, Ensures) (SameJobs-refl db)
  ])
]

-- What a job that ends leaves in the log and in its row.
abbrev pub Ended : JobSpec → JobState → Option ErrorCode → ℕ → Tables → Tables → Type 0
Ended spec state error now db db' =
    (db'.jobs ≡ modify spec.job_id (end_job state error now) db.jobs)
    × ((id : ℕ)
        → ended_count id db'.events
          ≡ ended_count id db.events + (if spec.job_id == id then 1 else 0))

pub finish_as-Ended :
    (world : Outcome) (spec : JobSpec) (state : JobState) (error : Option ErrorCode) (now : ℕ)
    (db : Tables)
    → Ensures (Ended spec state error now db) (finish_as world spec state error now db)
unfolding finish_as
finish_as-Ended world spec state error now db =
    Ensures-bind _ _
      (guard (not (is_completed state && spec.is_export) || world.linked) export_failed) _
      (Ensures-any _)
      λ u v.
        Ensures-bind _ _ (ok_or (find spec.result_ref db.results) not_found) _ (Ensures-any _)
          λ row w.
            Ensures-bind _ _ (close_result spec state row) _ (close_result-Quiet spec state row)
              λ change quiet.
                let mid = commit_part spec change db in
                Ensures-bind _ _ (close_prepared world.fits spec state change.0 mid) _
                  (close_prepared-SameJobs world.fits spec state change.0 mid)
                  λ db' h.
                    let k =
                      SameJobs-trans db mid db'
                        (commit_part-SameJobs spec change.0 change.1 db quiet) h in
                    (
                      ap (modify spec.job_id (end_job state error now)) k.jobs_same,
                      λ id. omega (
                        arith,
                        k.ended_same id,
                        ended_count-with_event id spec.job_id (job_ended state)
                            (set_job spec.job_id (end_job state error now) db'),
                      ),
                    )
