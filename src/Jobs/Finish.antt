-- ===== src/Jobs/Finish.antt =====
-- db.rs: `finish`, the transaction that ends a job, and `recover`; prepare.rs: `commit`.
pub mod Sound
pub mod Commit
pub mod Events
pub mod Total
use rowtrail.Base.{
  Bool, List, Option, Result, Table, [], false, find, guard, if◌then◌else◌, length, ltb, none, not,
  ok, ok_or, some, true, ℕ, ◌&&◌, ◌++◌, ◌+◌, ◌-◌, ◌==◌, ◌>>=◌, ◌>>◌, ◌||◌, ◌∷◌,
}
use rowtrail.Jobs.{
  Checkpoint, DbError, ErrorCode, EventKind, Job, JobSpec, JobState, ObjectKind, ObjectRow,
  Prepared, Quality, ResultRow, Revision, Tables, budget_code, budget_exhausted, cancelled,
  cancelled_code, completed, constraint, dataset, dataset_ready, ended, export_failed, interrupted,
  is_some, job_ended, manifest, not_found, of_checkpoint, partial, resource_exhausted,
  result_corrupt, result_ready, running, set_job, stopping, terminal, valid, with_event,
  worker_lost,
}
use rowtrail.Jobs.Publish.{add_revision, commit_part, sum_rows}

abbrev pub or_state : Option JobState → JobState → JobState
or_state none state = state
or_state (some stop) state = stop

-- The error that a stored stop request puts in the place of the worker's.
unfoldable pub stop_error : Option JobState → Option ErrorCode → Option ErrorCode
stop_error (some cancelled) error = some cancelled_code
stop_error (some budget_exhausted) error = some budget_code
stop_error _ error = error

abbrev pub is_completed : JobState → Bool
is_completed completed = true
is_completed _ = false

-- `spec.query.is_some() && spec.prepared.is_none() && spec.analysis.is_none()`
pub plain_query : JobSpec → Bool
plain_query spec = is_some spec.query && not (is_some spec.prepared) && not (is_some spec.analysis)

-- The revision over all parts of a result.
whole_revision : ℕ → Quality → ResultRow → Revision
whole_revision n q row = record {
  revision = n;
  cutoff = length row.parts;
  rows = sum_rows row.parts;
  quality = q;
}

abbrev pub Change : Type 0
Change = ResultRow × List EventKind

-- One new revision with its event.
announce : JobSpec → Revision → ResultRow → Result DbError Change
announce spec rev row = do
  row' ← add_revision rev row
  ok (row', result_ready spec.result_ref rev.revision rev.quality ∷ [])

-- A plain query that did not complete keeps its parts readable as one partial revision.
pub salvage : JobSpec → ResultRow → Result DbError Change
unfolding announce whole_revision
salvage spec row =
    if row.head == 0 && ltb 0 (length row.parts)
    then announce spec
        (whole_revision 1 (record spec.quality { kind = partial; final_for_request = false }) row)
        row
    else ok (row, [])

-- A plain query that completed gets its final revision.
conclude : JobSpec → ResultRow → Result DbError Change
unfolding announce whole_revision
conclude spec row = do
  guard (is_some row.schema) result_corrupt
  announce spec
      (whole_revision (row.head + 1) (record spec.quality { final_for_request = true }) row) row

abbrev full_coverage : Checkpoint → Bool
full_coverage p =
    p.completed_files == p.total_files
    && elim p.total_fragments [ none ↦ false | some n ↦ n == p.completed_fragments ]

-- The final revision of a progressive aggregate: its last part.
final_aggregate : JobSpec → Checkpoint → ResultRow → Revision
final_aggregate spec p row = record {
  revision = row.head + 1;
  cutoff = length row.parts;
  rows = 1;
  quality = record spec.quality { final_for_request = true; input_coverage = of_checkpoint p };
}

conclude_analysis : JobSpec → ResultRow → Result DbError Change
unfolding announce final_aggregate
conclude_analysis spec row = do
  guard (ltb 0 (length row.parts)) result_corrupt
  p ← ok_or row.progress not_found
  guard (full_coverage p) result_corrupt
  announce spec (final_aggregate spec p row)
      (record row { checkpoints = row.checkpoints ++ (row.head + 1, length row.parts - 1) ∷ [] })

-- What ends the result, by the job's final state.
pub close_result : JobSpec → JobState → ResultRow → Result DbError Change
unfolding plain_query salvage conclude conclude_analysis
close_result spec state row =
    if is_completed state
    then if plain_query spec
      then conclude spec row
      else if is_some spec.analysis
      then conclude_analysis spec row
      else ok (row, [])
    else if plain_query spec
    then salvage spec row
    else ok (row, [])

-- prepare.rs `commit`: the managed dataset and its manifest become visible, and the result no
-- longer depends on the source. `fits` says that the encoded manifest is within its limit.
keep_parents : ℕ → List (ℕ × ℕ) → List (ℕ × ℕ)
keep_parents child [] = []
keep_parents child ((c, p) ∷ deps) =
    if c == child then keep_parents child deps else (c, p) ∷ keep_parents child deps

has_object : ℕ → Table ObjectRow → Bool
has_object id objects = is_some (find id objects)

new_object : ObjectKind → ObjectRow
new_object kind = record { kind = kind; validity = valid }

commit_prepared : Bool → JobSpec → Prepared → ResultRow → Tables → Result DbError Tables
unfolding keep_parents has_object new_object
commit_prepared fits spec p row db = do
  guard (is_some row.schema) not_found
  guard (ltb 0 (length row.parts)) result_corrupt
  guard fits resource_exhausted
  guard
      (not (has_object p.dataset_ref db.objects)
        && not (has_object p.manifest_ref db.objects)
        && not (p.dataset_ref == p.manifest_ref))
      constraint
  ok (
      with_event spec.job_id (dataset_ready p.dataset_ref p.manifest_ref) (record db {
        objects =
            db.objects
            ++ (p.dataset_ref, new_object dataset) ∷ (p.manifest_ref, new_object manifest) ∷ [];
        deps =
            keep_parents spec.result_ref db.deps
            ++ (p.dataset_ref, spec.result_ref) ∷ (p.manifest_ref, p.dataset_ref) ∷ [];
      }))

close_prepared : Bool → JobSpec → JobState → ResultRow → Tables → Result DbError Tables
unfolding commit_prepared
close_prepared fits spec state row db = elim spec.prepared [
  | none ↦ ok db
  | some p ↦ if is_completed state then commit_prepared fits spec p row db else ok db
]

-- The last row update.
unfoldable pub end_job : JobState → Option ErrorCode → ℕ → Job → Job
end_job state error now job = record job {
  state = state;
  phase = ended state;
  error = error;
  finished = some now;
}

-- What the world answers to a completion: whether the export's files could be linked in place, and
-- whether a prepared manifest fits.
pub record Outcome : Type 0 where
  pub linked : Bool
  pub fits : Bool

unfoldable pub finish_as :
    Outcome → JobSpec → JobState → Option ErrorCode → ℕ → Tables → Result DbError Tables
unfolding close_result close_prepared end_job
finish_as world spec state error now db = do
  guard (not (is_completed state && spec.is_export) || world.linked) export_failed
  row ← ok_or (find spec.result_ref db.results) not_found
  (row', kinds) ← close_result spec state row
  db' ← close_prepared world.fits spec state row' (commit_part spec (row', kinds) db)
  ok (with_event spec.job_id (job_ended state) (set_job spec.job_id (end_job state error now) db'))

-- `finish`
unfoldable pub finish :
    Outcome → JobSpec → JobState → Option ErrorCode → ℕ → Tables → Result DbError Tables
unfolding finish_as stop_error
finish world spec state error now db = do
  job ← ok_or (find spec.job_id db.jobs) not_found
  if terminal job.state
      then ok db
      else finish_as world spec (or_state job.stop_requested state)
          (stop_error job.stop_requested error) now db

is_held : JobState → Bool
is_held running = true
is_held stopping = true
is_held _ = false

-- SELECT spec FROM jobs WHERE state IN ('running','stopping')
held_specs : Table Job → List JobSpec
unfolding is_held
held_specs [] = []
held_specs ((i, job) ∷ jobs) =
    let rest = held_specs jobs in if is_held job.state then job.spec ∷ rest else rest

interrupt_all : Outcome → ℕ → List JobSpec → Tables → Result DbError Tables
unfolding finish
interrupt_all world now [] db = ok db
interrupt_all world now (spec ∷ specs) db = do
  db' ← finish world spec interrupted (some worker_lost) now db
  interrupt_all world now specs db'

-- `recover`, once the previous workers are known to have stopped.
unfoldable pub recover : Outcome → ℕ → Tables → Result DbError Tables
unfolding interrupt_all held_specs
recover world now db = interrupt_all world now (held_specs db.jobs) db
