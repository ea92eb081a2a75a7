-- ===== src/Coordinator.antt =====
-- The supervision of a job in crates/runtime/src/coordinator.rs: what `run_job` does on the messages of
-- the worker, on its pipe and on the ticks of the clock, and the recovery when it fails. What
-- `select!` yields is a list of signals, ended by the end of the worker's output. Requests of clients
-- on the same job come in between as signals of their own.
pub mod Watch
pub mod Held
pub mod Ends
pub mod Tests
use rowtrail.Base.{
  Bool, List, Option, Result, [], err, false, if◌then◌else◌, none, ok, some, true, ℕ, ◌∷◌,
}
use rowtrail.Jobs.{
  DbError, ErrorCode, JobSpec, JobState, Tables, budget_exhausted, cancelled, completed, failed,
  interrupted, reported, worker_lost,
}
use rowtrail.Jobs.Queue.{cancel, set_schema, set_worker, stop_requested_of}
use rowtrail.Jobs.Publish.{Disk, Part, publish}
use rowtrail.Jobs.Finish.{Outcome, finish}
use rowtrail.Jobs.Retention.{invalidate}

-- The codes of a failed worker that the coordinator tells apart.
pub data FailureCode : Type 0 where
  code_source_changed code_resource_exhausted code_budget_exhausted code_cancelled : FailureCode
  other_code : FailureCode

-- A message of the worker with what the pipe did to the answer, a broken or unreadable pipe, a tick
-- with its two timeouts, or a client that cancels. Every signal has its time.
pub data Signal : Type 0 where
  schema_message : ℕ → Signal
  part_message : Part → Bool → Signal
  completed_message : Signal
  failed_message : FailureCode → ℕ → Signal
  pipe_broken bad_frame : Signal
  tick : Bool → Bool → Signal
  client_cancel : Signal

-- How the loop ends: with a report, without one, or with an error, which may be the pipe's.
pub data Exit : Type 0 where
  reported_as : JobState → Option ErrorCode → Exit
  no_report : Exit
  failed_with : Bool → Exit

pub data Flow : Type 0 where
  go_on : Tables → Disk → Flow
  leave : Exit → Tables → Flow

unfoldable pub state_of : FailureCode → JobState
state_of code_resource_exhausted = budget_exhausted
state_of code_budget_exhausted = budget_exhausted
state_of code_cancelled = cancelled
state_of _ = failed

-- `for source in &spec.sources { db.invalidate(&source.id)?; }`
unfoldable pub invalidate_sources : List ℕ → Tables → Tables
invalidate_sources [] db = db
invalidate_sources (id ∷ ids) db = invalidate_sources ids (invalidate id db)

unfoldable pub on_failure : FailureCode → List ℕ → Tables → Tables
unfolding invalidate_sources
on_failure code_source_changed sources db = invalidate_sources sources db
on_failure _ sources db = db

unfoldable pub on_stop : Tables → Result DbError (Option JobState) → (Option JobState → Flow) → Flow
on_stop db (err e) next = leave (failed_with false) db
on_stop db (ok stop) next = next stop

-- `db.stopping(&spec.job_id)?`, in a loop that leaves on an error.
unfoldable pub when_stopping : ℕ → Tables → (Option JobState → Flow) → Flow
unfolding on_stop
when_stopping id db next = on_stop db (stop_requested_of id db) next

-- What SQLite cannot do on an existing job is an error of the loop.
unfoldable pub or_leave : Tables → Result DbError Tables → (Tables → Flow) → Flow
or_leave db (err e) next = leave (failed_with false) db
or_leave db (ok db') next = next db'

unfoldable pub after : Flow → (Tables → Disk → Exit × Tables) → Exit × Tables
after (leave exit db) next = (exit, db)
after (go_on db disk) next = next db disk

-- A client's failed request leaves the store as it is.
unfoldable pub or_same : Tables → Result DbError Tables → Tables
or_same db (err e) = db
or_same db (ok db') = db'

module _ (decode : List ℕ → Option (List ℕ)) (digest : List ℕ → ℕ) (spec : JobSpec)
    (sources : List ℕ) where
  -- A rejected part ends the loop, unless the job is to stop anyway.
  unfoldable pub on_rejected : Tables → Disk → Option JobState → Flow
  on_rejected db disk none = leave (failed_with false) db
  on_rejected db disk (some state) = go_on db disk

  unfoldable pub on_part : Bool → Result DbError Tables × Disk → Tables → Flow
  unfolding on_rejected when_stopping
  on_part false (err e, disk) db = leave (failed_with true) db
  on_part false (ok db', disk) db = leave (failed_with true) db'
  on_part true (err e, disk) db = when_stopping spec.job_id db (on_rejected db disk)
  on_part true (ok db', disk) db = go_on db' disk

  -- `cancel` at the timeout of the run, unless the job is to stop already.
  unfoldable pub on_timeout : Bool → ℕ → Tables → Option JobState → (Tables → Flow) → Flow
  unfolding or_leave
  on_timeout true now db none next = or_leave db (cancel spec.job_id budget_exhausted now db) next
  on_timeout true now db (some state) next = next db
  on_timeout false now db stop next = next db

  -- A worker that does not stop is killed after its grace period.
  unfoldable pub on_grace : Bool → Tables → Disk → Option JobState → Flow
  on_grace true db disk (some state) = leave no_report db
  on_grace false db disk (some state) = go_on db disk
  on_grace grace db disk none = go_on db disk

  -- One round of the loop.
  unfoldable pub handle : ℕ → Signal → Tables → Disk → Flow
  unfolding on_part on_timeout on_grace on_failure state_of when_stopping or_same
  handle now (schema_message schema) db disk = go_on (set_schema spec schema db) disk
  handle now (part_message part answered) db disk =
      on_part answered (publish decode digest spec part db disk) db
  handle now completed_message db disk = leave (reported_as completed none) db
  handle now (failed_message code text) db disk =
      leave (reported_as (state_of code) (some (reported text))) (on_failure code sources db)
  handle now pipe_broken db disk = leave (failed_with true) db
  handle now bad_frame db disk = leave (failed_with false) db
  handle now (tick late grace) db disk = when_stopping spec.job_id db λ stop.
      on_timeout late now db stop λ db'. when_stopping spec.job_id db' (on_grace grace db' disk)
  handle now client_cancel db disk = go_on (or_same db (cancel spec.job_id cancelled now db)) disk

  -- The loop. The end of the list is the end of the worker's output.
  unfoldable pub watch : List (ℕ × Signal) → Tables → Disk → Exit × Tables
  unfolding handle after
  watch [] db disk = (no_report, db)
  watch ((now, signal) ∷ signals) db disk =
      after (handle now signal db disk) (λ db' disk'. watch signals db' disk')

  -- `run_job_with_recovery`: an error of `run_job` ends the job as interrupted or failed.
  unfoldable pub recover_as : Outcome → Bool → ℕ → Tables → Tables
  unfolding or_same
  recover_as world pipe now db =
      or_same db
        (finish world spec (if pipe then interrupted else failed) (some worker_lost) now db)

  unfoldable pub or_recover : Result DbError Tables → Tables → Tables
  or_recover (ok db') recovered = db'
  or_recover (err e) recovered = recovered

  -- The end of `run_job`, and the recovery if the report cannot be committed.
  unfoldable pub conclude_as : Outcome → JobState → Option ErrorCode → ℕ → Tables → Tables
  unfolding recover_as or_recover
  conclude_as world state error now db =
      or_recover (finish world spec state error now db) (recover_as world false now db)

  unfoldable pub conclude_exit : Outcome → ℕ → Exit × Tables → Tables
  unfolding conclude_as recover_as
  conclude_exit world now (reported_as state error, db) = conclude_as world state error now db
  conclude_exit world now (no_report, db) = conclude_as world interrupted (some worker_lost) now db
  conclude_exit world now (failed_with pipe, db) = recover_as world pipe now db

  -- `run_job_with_recovery` of a worker that runs as process `pid`.
  unfoldable pub supervise : Outcome → ℕ → ℕ → ℕ → List (ℕ × Signal) → Tables → Disk → Tables
  unfolding watch conclude_exit
  supervise world pid token now signals db disk =
      conclude_exit world now (watch signals (set_worker spec.job_id pid token db) disk)
