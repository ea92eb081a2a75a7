-- ===== src/Jobs/Queue.antt =====
-- db.rs: `queued`, `cancel`, `set_schema`, `set_worker`, `stopping` and `job_in`.
use rowtrail.Base.{
  Bool, Option, Result, Table, [], false, find, if◌then◌else◌, leb, ltb, none, ok, ok_or, some,
  true, ℕ, ◌&&◌, ◌==◌, ◌>>=◌, ◌||◌, ◌∷◌,
}
use rowtrail.Jobs.{
  DbError, Job, JobSpec, JobState, Tables, ended, executing, is_queued, job_ended, job_started,
  not_found, planning, running, set_job, set_result, stopping, terminal, with_event,
}

-- `ORDER BY created,id`: the first of two rows.
before : ℕ × Job → ℕ × Job → Bool
before (i, a) (j, b) = ltb a.created b.created || (a.created == b.created && leb i j)

unfoldable pub is_waiting : JobState → Bool
is_waiting is_queued = true
is_waiting _ = false

first_of : ℕ × Job → Option (ℕ × Job) → Option (ℕ × Job)
unfolding before
first_of row none = some row
first_of row (some other) = if before row other then some row else some other

-- SELECT … WHERE state='queued' ORDER BY created,id LIMIT 1
unfoldable pub first_queued : Table Job → Option (ℕ × Job)
unfolding first_of is_waiting
first_queued [] = none
first_queued ((i, job) ∷ jobs) =
    let rest = first_queued jobs in if is_waiting job.state then first_of (i, job) rest else rest

-- UPDATE jobs SET state='running',phase='planning',started=? WHERE id=? AND state='queued'
unfoldable pub start_job : ℕ → Job → Job
unfolding is_waiting
start_job now job =
    if is_waiting job.state
    then record job { state = running; phase = planning; started = some now }
    else job

-- `queued`
unfoldable pub queued : ℕ → Tables → Option JobSpec × Tables
unfolding first_queued start_job
queued now db = elim (first_queued db.jobs) [
  | none ↦ (none, db)
  | some (i, job) ↦
      let spec = job.spec in
      (some spec, with_event spec.job_id job_started (set_job spec.job_id (start_job now) db))
]

-- `COALESCE(stop_requested,?)`
unfoldable pub coalesce : Option JobState → JobState → JobState
coalesce none reason = reason
coalesce (some old) reason = old

-- The row update of `cancel` on a queued job.
unfoldable pub drop_job : JobState → ℕ → Job → Job
drop_job reason now job = record job {
  state = reason;
  phase = ended reason;
  stop_requested = some reason;
  finished = some now;
}

-- The row update of `cancel` on a job that a worker holds.
unfoldable pub stop_job : JobState → Job → Job
unfolding coalesce
stop_job reason job = record job {
  state = stopping;
  stop_requested = some (coalesce job.stop_requested reason);
}

unfoldable pub cancel_in : ℕ → JobState → ℕ → Job → Tables → Tables
unfolding drop_job stop_job is_waiting
cancel_in id reason now job db =
    if terminal job.state
    then db
    else if is_waiting job.state
    then with_event id (job_ended reason) (set_job id (drop_job reason now) db)
    else set_job id (stop_job reason) db

-- `cancel`
unfoldable pub cancel : ℕ → JobState → ℕ → Tables → Result DbError Tables
unfolding cancel_in
cancel id reason now db = do
  job ← ok_or (find id db.jobs) not_found
  ok (cancel_in id reason now job db)

-- `set_schema`
unfoldable pub set_schema : JobSpec → ℕ → Tables → Tables
set_schema spec schema db =
    set_job spec.job_id (λ job. record job { phase = executing })
      (set_result spec.result_ref (λ row. record row { schema = some schema }) db)

-- `set_worker`
unfoldable pub set_worker : ℕ → ℕ → ℕ → Tables → Tables
set_worker id pid token db = set_job id (λ job. record job { worker = some (pid, token) }) db

-- `stopping`: the stored stop request.
unfoldable pub stop_requested_of : ℕ → Tables → Result DbError (Option JobState)
stop_requested_of id db = do job ← ok_or (find id db.jobs) not_found; ok job.stop_requested

positive : ℕ → Option ℕ
positive n = if n == 0 then none else some n

-- `job_in`: the state that a client sees, with the head revision once it is positive.
unfoldable pub job_view : ℕ → Tables → Result DbError (JobState × Option ℕ)
unfolding positive
job_view id db = do
  job ← ok_or (find id db.jobs) not_found
  ok (
    job.state,
    elim (find job.spec.result_ref db.results) [ none ↦ none | some row ↦ positive row.head ],
  )
