-- ===== src/Jobs/Finish/Commit.antt =====
-- db.rs: `finish` and `recover` as a whole keep every committed part and revision.
use rowtrail.Base.{
  Bool, Bool-cases, Ensures, Ensures-any, Ensures-bind, Ensures-ok_or, Ensures-weaken, Option,
  OptionAll-value, arith, find, guard, inl, inr, not, ok_or, some, sym, ℕ, ◌&&◌, ◌||◌, ◌≡◌,
}
use rowtrail.Jobs.{
  ErrorCode, JobSpec, JobState, ResultRow, Tables, export_failed, is_some, job_ended, not_found,
  set_job, terminal, with_event,
}
use rowtrail.Jobs.Publish.{commit_part}
use rowtrail.Jobs.Finish.{
  Outcome, close_prepared, close_result, commit_prepared, end_job, finish, finish_as, is_completed,
  or_state, stop_error,
}
use rowtrail.Jobs.Finish.Sound.{close_result-Closed}
use rowtrail.Jobs.Shape.{
  ExtendsAll-refl, IsSound, Keeps, Keeps-same, SoundTables, commit_part-ExtendsAll,
  commit_part-SoundTables,
}

-- Committing a prepared dataset changes no result row.
close_prepared-results :
    (fits : Bool) (spec : JobSpec) (state : JobState) (row : ResultRow) (db : Tables)
    → Ensures (λ db'. db'.results ≡ db.results) (close_prepared fits spec state row db)
unfolding close_prepared commit_prepared
close_prepared-results fits spec state row db = ground arith

close_result-Keeps :
    (kinds : ℕ → Bool) (spec : JobSpec) (state : JobState) (row : ResultRow) (db : Tables)
    → SoundTables kinds db
    → kinds spec.result_ref ≡ is_some spec.analysis
    → find spec.result_ref db.results ≡ some row
    → Ensures (λ change. Keeps kinds db (commit_part spec change db)) (close_result spec state row)
close_result-Keeps kinds spec state row db sound kind read =
    Ensures-weaken _ _ (close_result spec state row)
      (λ stored (s, x). (
        commit_part-SoundTables kinds spec db row stored read (rw kind s) sound,
        commit_part-ExtendsAll kinds spec db row stored read x,
      ))
      (close_result-Closed spec state row (
        rw (sym kind) (
          OptionAll-value (IsSound (kinds spec.result_ref)) (find spec.result_ref db.results)
            (sound spec.result_ref) read)))

finish_as-Keeps :
    (world : Outcome) (kinds : ℕ → Bool) (spec : JobSpec) (state : JobState)
    (error : Option ErrorCode) (now : ℕ) (db : Tables)
    → SoundTables kinds db
    → kinds spec.result_ref ≡ is_some spec.analysis
    → Ensures (Keeps kinds db) (finish_as world spec state error now db)
unfolding finish_as
finish_as-Keeps world kinds spec state error now db sound kind =
    Ensures-bind _ _
      (guard (not (is_completed state && spec.is_export) || world.linked) export_failed) _
      (Ensures-any _)
      λ u v.
        Ensures-bind _ _ (ok_or (find spec.result_ref db.results) not_found) _
          (Ensures-ok_or (find spec.result_ref db.results) not_found)
          λ row read.
            Ensures-bind _ _ (close_result spec state row) _
              (close_result-Keeps kinds spec state row db sound kind read)
              λ change kept.
                Ensures-bind _ _
                  (close_prepared world.fits spec state change.0 (commit_part spec change db)) _
                  (close_prepared-results world.fits spec state change.0
                    (commit_part spec change db))
                  λ db' same.
                    Keeps-same kinds db (commit_part spec change db)
                      (with_event spec.job_id (job_ended state)
                        (set_job spec.job_id (end_job state error now) db'))
                      same kept

-- Ending a job keeps every committed part and revision of every result in its place, and leaves
-- every result sound if all were and `kinds` tells which results a progressive aggregate writes.
pub finish-Keeps :
    (world : Outcome) (kinds : ℕ → Bool) (spec : JobSpec) (state : JobState)
    (error : Option ErrorCode) (now : ℕ) (db : Tables)
    → SoundTables kinds db
    → kinds spec.result_ref ≡ is_some spec.analysis
    → Ensures (Keeps kinds db) (finish world spec state error now db)
unfolding finish
finish-Keeps world kinds spec state error now db sound kind =
    Ensures-bind _ _ (ok_or (find spec.job_id db.jobs) not_found) _ (Ensures-any _) λ job u.
      elim (Bool-cases (terminal job.state)) [
        | inl e ↦ rw (e, Ensures) (sound, ExtendsAll-refl db)
        | inr e ↦
            rw (e, Ensures)
              (finish_as-Keeps world kinds spec (or_state job.stop_requested state)
                (stop_error job.stop_requested error) now db sound kind)
      ]
