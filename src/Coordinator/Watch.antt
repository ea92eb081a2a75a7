-- ===== src/Coordinator/Watch.antt =====
-- coordinator.rs: what every transaction of a supervised run keeps, the whole run keeps.
use rowtrail.Base.{
  Bool, Ensures, Ensures-value, Ensures-weaken, List, Option, Result, Result-cases, [], err, false,
  inl, inr, none, ok, refl, some, true, ℕ, ◌∷◌, ◌≡◌,
}
use rowtrail.Jobs.{DbError, JobSpec, JobState, Tables, budget_exhausted, cancelled, terminal}
use rowtrail.Jobs.Queue.{cancel, set_schema, stop_requested_of}
use rowtrail.Jobs.Publish.{Disk, Part, publish}
use rowtrail.Jobs.Retention.{invalidate}
use rowtrail.Coordinator.{
  Exit, FailureCode, Flow, Signal, after, bad_frame, client_cancel, code_budget_exhausted,
  code_cancelled, code_resource_exhausted, code_source_changed, completed_message, failed_message,
  failed_with, go_on, handle, invalidate_sources, leave, no_report, on_failure, on_grace, on_part,
  on_rejected, on_stop, on_timeout, or_leave, or_same, other_code, part_message, pipe_broken,
  reported_as, schema_message, state_of, tick, watch, when_stopping,
}

-- A report names a state in which a job ends.
abbrev pub IsReport : Exit → Type 0
IsReport (reported_as state error) = terminal state ≡ true
IsReport no_report = Unit
IsReport (failed_with pipe) = Unit

-- What holds of the tables that a round leaves.
abbrev pub FlowHolds : (Tables → Type 0) → Flow → Type 0
FlowHolds P (go_on db disk) = P db
FlowHolds P (leave exit db) = IsReport exit × P db

state_of-terminal : (code : FailureCode) → terminal (state_of code) ≡ true
unfolding state_of terminal
state_of-terminal code_source_changed = refl
state_of-terminal code_resource_exhausted = refl
state_of-terminal code_budget_exhausted = refl
state_of-terminal code_cancelled = refl
state_of-terminal other_code = refl

-- A predicate of the tables that every transaction of the loop keeps is kept by the loop.
module _ (decode : List ℕ → Option (List ℕ)) (digest : List ℕ → ℕ) (spec : JobSpec)
    (sources : List ℕ) (P : Tables → Type 0)
    (schema_kept : (schema : ℕ) (db : Tables) → P db → P (set_schema spec schema db))
    (part_kept : (part : Part) (db db' : Tables) (disk : Disk)
      → (publish decode digest spec part db disk).0 ≡ ok db'
      → P db
      → P db')
    (invalid_kept : (id : ℕ) (db : Tables) → P db → P (invalidate id db))
    (timeout_kept : (now : ℕ) (db db' : Tables)
      → cancel spec.job_id budget_exhausted now db ≡ ok db'
      → P db
      → P db')
    (cancel_kept : (now : ℕ) (db db' : Tables)
      → cancel spec.job_id cancelled now db ≡ ok db'
      → P db
      → P db') where
  stop-Holds :
      (db : Tables) (next : Option JobState → Flow)
      → P db
      → ((stop : Option JobState) → FlowHolds P (next stop))
      → FlowHolds P (when_stopping spec.job_id db next)
  unfolding when_stopping on_stop
  stop-Holds db next h k = elim (Result-cases (stop_requested_of spec.job_id db)) [
    | inl (e, x) ↦ rw x (tt, h)
    | inr (stop, x) ↦ rw x (k stop)
  ]

  on_rejected-Holds :
      (db : Tables) (disk : Disk) (stop : Option JobState)
      → P db
      → FlowHolds P (on_rejected decode digest spec sources db disk stop)
  unfolding on_rejected
  on_rejected-Holds db disk none h = (tt, h)
  on_rejected-Holds db disk (some state) h = h

  on_part-Holds :
      (answered : Bool) (r : Result DbError Tables × Disk) (db : Tables)
      → P db
      → Ensures P r.0
      → FlowHolds P (on_part decode digest spec sources answered r db)
  unfolding on_part
  on_part-Holds false (err e, disk) db h k = (tt, h)
  on_part-Holds false (ok db', disk) db h k = (tt, k)
  on_part-Holds true (err e, disk) db h k =
      stop-Holds db _ h λ stop. on_rejected-Holds db disk stop h
  on_part-Holds true (ok db', disk) db h k = k

  on_timeout-Holds :
      (late : Bool) (now : ℕ) (db : Tables) (stop : Option JobState) (next : Tables → Flow)
      → P db
      → ((db' : Tables) → P db' → FlowHolds P (next db'))
      → FlowHolds P (on_timeout decode digest spec sources late now db stop next)
  unfolding on_timeout or_leave
  on_timeout-Holds true now db none next h k =
      elim (Result-cases (cancel spec.job_id budget_exhausted now db)) [
        | inl (e, x) ↦ rw x (tt, h)
        | inr (db', x) ↦ rw x (k db' (timeout_kept now db db' x h))
      ]
  on_timeout-Holds true now db (some state) next h k = k db h
  on_timeout-Holds false now db stop next h k = k db h

  on_grace-Holds :
      (grace : Bool) (db : Tables) (disk : Disk) (stop : Option JobState)
      → P db
      → FlowHolds P (on_grace decode digest spec sources grace db disk stop)
  unfolding on_grace
  on_grace-Holds true db disk (some state) h = (tt, h)
  on_grace-Holds false db disk (some state) h = h
  on_grace-Holds true db disk none h = h
  on_grace-Holds false db disk none h = h

  invalidate_sources-Holds : (ids : List ℕ) (db : Tables) → P db → P (invalidate_sources ids db)
  unfolding invalidate_sources
  invalidate_sources-Holds [] db h = h
  invalidate_sources-Holds (id ∷ ids) db h =
      invalidate_sources-Holds ids (invalidate id db) (invalid_kept id db h)

  on_failure-Holds : (code : FailureCode) (db : Tables) → P db → P (on_failure code sources db)
  unfolding on_failure
  on_failure-Holds code_source_changed db h = invalidate_sources-Holds sources db h
  on_failure-Holds code_resource_exhausted db h = h
  on_failure-Holds code_budget_exhausted db h = h
  on_failure-Holds code_cancelled db h = h
  on_failure-Holds other_code db h = h

  handle-Holds :
      (now : ℕ) (signal : Signal) (db : Tables) (disk : Disk)
      → P db
      → FlowHolds P (handle decode digest spec sources now signal db disk)
  unfolding handle or_same
  handle-Holds now (schema_message schema) db disk h = schema_kept schema db h
  handle-Holds now (part_message part answered) db disk h =
      on_part-Holds answered (publish decode digest spec part db disk) db h (
        Ensures-weaken (λ db'. (publish decode digest spec part db disk).0 ≡ ok db') P
          (publish decode digest spec part db disk).0 (λ db' e. part_kept part db db' disk e h)
          (Ensures-value (publish decode digest spec part db disk).0))
  handle-Holds now completed_message db disk h = (unfold terminal in refl, h)
  handle-Holds now (failed_message code text) db disk h =
      (state_of-terminal code, on_failure-Holds code db h)
  handle-Holds now pipe_broken db disk h = (tt, h)
  handle-Holds now bad_frame db disk h = (tt, h)
  handle-Holds now (tick late grace) db disk h = stop-Holds db _ h λ stop.
      on_timeout-Holds late now db stop _ h
        λ db' h'. stop-Holds db' _ h' λ stop'. on_grace-Holds grace db' disk stop' h'
  handle-Holds now client_cancel db disk h =
      elim (Result-cases (cancel spec.job_id cancelled now db)) [
        | inl (e, x) ↦ rw x h
        | inr (db', x) ↦ rw x (cancel_kept now db db' x h)
      ]

  abbrev Left : Exit × Tables → Type 0
  Left (exit, db) = IsReport exit × P db

  after-Left :
      (flow : Flow) (next : Tables → Disk → Exit × Tables)
      → FlowHolds P flow
      → ((db : Tables) (disk : Disk) → P db → Left (next db disk))
      → Left (after flow next)
  unfolding after
  after-Left (leave exit db) next h k = h
  after-Left (go_on db disk) next h k = k db disk h

  pub watch-Holds :
      (signals : List (ℕ × Signal)) (db : Tables) (disk : Disk)
      → P db
      → Left (watch decode digest spec sources signals db disk)
  unfolding watch
  watch-Holds [] db disk h = (tt, h)
  watch-Holds ((now, signal) ∷ signals) db disk h =
      after-Left (handle decode digest spec sources now signal db disk) _
        (handle-Holds now signal db disk h) λ db' disk' k. watch-Holds signals db' disk' k
