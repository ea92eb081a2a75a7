-- ===== src/Jobs/Finish/Total.antt =====
-- db.rs: a job that does not complete can always be ended.
use rowtrail.Base.{
  Bool, Bool-cases, Option, Option-cases, Returns, Returns-bind, Returns-of_Ensures, Returns-weaken,
  false, find, guard, inl, inr, not, some, ℕ, ◌&&◌, ◌||◌, ◌≡◌,
}
use rowtrail.Jobs.{
  ErrorCode, Job, JobSpec, JobState, ResultRow, Tables, export_failed, is_some, terminal,
}
use rowtrail.Jobs.Publish.{commit_part}
use rowtrail.Jobs.Finish.{
  Outcome, close_prepared, close_result, finish, finish_as, is_completed, or_state, plain_query,
  salvage, stop_error,
}
use rowtrail.Jobs.Finish.Sound.{plain_query-analysis, salvage-Closed}
use rowtrail.Jobs.Finish.Events.{Ended, finish_as-Ended}
use rowtrail.Jobs.Shape.{IsSound}

close_result_failed :
    (spec : JobSpec) (state : JobState) (row : ResultRow)
    → is_completed state ≡ false
    → IsSound (is_some spec.analysis) row
    → Returns (λ change. Unit) (close_result spec state row)
unfolding close_result
close_result_failed spec state row e h = elim (Bool-cases (plain_query spec)) [
  | inl p ↦
      let sound : IsSound false row = rw (plain_query-analysis spec p) at h in
      rw (e, p, Returns)
        (Returns-weaken _ _ (salvage spec row) (λ c k. tt) (salvage-Closed spec row sound))
  | inr p ↦ rw (e, p, Returns) tt
]

close_prepared_failed :
    (fits : Bool) (spec : JobSpec) (state : JobState) (row : ResultRow) (db : Tables)
    → is_completed state ≡ false
    → Returns (λ db'. Unit) (close_prepared fits spec state row db)
unfolding close_prepared
close_prepared_failed fits spec state row db e = elim (Option-cases spec.prepared) [
  | inl p ↦ rw (p, Returns) tt
  | inr (x, p) ↦ rw (p, e, Returns) tt
]

may_link :
    (world : Outcome) (spec : JobSpec) (state : JobState)
    → is_completed state ≡ false
    → Returns
        (λ u. Unit)
        (guard (not (is_completed state && spec.is_export) || world.linked) export_failed)
may_link world spec state e = rw (e, Returns) tt

finish_as_failed :
    (world : Outcome) (spec : JobSpec) (state : JobState) (error : Option ErrorCode) (now : ℕ)
    (db : Tables) (row : ResultRow)
    → is_completed state ≡ false
    → find spec.result_ref db.results ≡ some row
    → IsSound (is_some spec.analysis) row
    → Returns (λ db'. Unit) (finish_as world spec state error now db)
unfolding finish_as
finish_as_failed world spec state error now db row e read h =
    Returns-bind _ _
      (guard (not (is_completed state && spec.is_export) || world.linked) export_failed) _
      (may_link world spec state e)
      λ u v.
        rw (read, Returns)
          (Returns-bind _ _ (close_result spec state row) _ (close_result_failed spec state row e h)
            λ change w.
              Returns-bind _ _
                (close_prepared world.fits spec state change.0 (commit_part spec change db)) _
                (close_prepared_failed world.fits spec state change.0 (commit_part spec change db)
                  e)
                λ db' x. tt)

-- A job that has not ended and does not complete, by its worker's outcome or by a stored stop
-- request, can always be ended: with its result there and sound, `finish` commits, gives the job the
-- stored stop request as its state, or else the worker's, with the matching error, and adds exactly
-- one `job.ended` event for it and none for another job.
pub finish_failed :
    (world : Outcome) (spec : JobSpec) (state : JobState) (error : Option ErrorCode) (now : ℕ)
    (db : Tables) (job : Job) (row : ResultRow)
    → find spec.job_id db.jobs ≡ some job
    → terminal job.state ≡ false
    → is_completed (or_state job.stop_requested state) ≡ false
    → find spec.result_ref db.results ≡ some row
    → IsSound (is_some spec.analysis) row
    → Returns
        (Ended spec
          (or_state job.stop_requested state)
          (stop_error job.stop_requested error)
          now
          db)
        (finish world spec state error now db)
unfolding finish
finish_failed world spec state error now db job row found going e read h =
    let s = or_state job.stop_requested state in
    let x = stop_error job.stop_requested error in
    rw (found, going, Returns)
      (Returns-of_Ensures (Ended spec s x now db) (λ db'. Unit) (finish_as world spec s x now db)
        (finish_as-Ended world spec s x now db)
        (finish_as_failed world spec s x now db row e read h))
