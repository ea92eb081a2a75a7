-- ===== src/Coordinator/Held.antt =====
-- coordinator.rs: while a worker runs, its job is held, and its result stays there and sound.
use mathlib.Core.Path.{subst}
use rowtrail.Base.{
  Bool, Bool-cases, Ensures-ok, List, Option, OptionAll, OptionAll-map_option, OptionAll-value,
  OptionAny, OptionAny-map_option, OptionAny-of, OptionAny-value, Table, arith, false, find,
  find-modify, if◌then◌else◌, inl, inr, map_option, modify, none, ok, ok-injective, refl, some,
  true, ℕ, ◌==◌, ◌∙◌, ◌≡◌,
}
use rowtrail.Jobs.{Job, JobSpec, JobState, ResultRow, Tables, executing, is_some, set_job, terminal}
use rowtrail.Jobs.Queue.{cancel, cancel_in, coalesce, is_waiting, set_schema, set_worker, stop_job}
use rowtrail.Jobs.Publish.{Disk, Part, publish}
use rowtrail.Jobs.Publish.Commit.{publish-Keeps}
use rowtrail.Jobs.Publish.Events.{publish-SameJobs}
use rowtrail.Jobs.Finish.{is_completed}
use rowtrail.Jobs.Events.{SameJobs}
use rowtrail.Jobs.Shape.{Extends, IsSound, Keeps}
use rowtrail.Jobs.Retention.{changed, invalidate}
use rowtrail.Jobs.Retention.Invalid.{invalidate-SameJobs, invalidate-results, invalidated_row}

-- A stop request names a state in which a job ends, but not as completed.
abbrev pub StopsEarly : JobState → Type 0
StopsEarly s = (terminal s ≡ true) × (is_completed s ≡ false)

-- A worker holds the job.
abbrev pub IsHeld : Job → Type 0
IsHeld job =
    (terminal job.state ≡ false)
    × (is_waiting job.state ≡ false)
    × OptionAll StopsEarly job.stop_requested

module _ (spec : JobSpec) (kinds : ℕ → Bool) where
  abbrev pub JobHeld : Tables → Type 0
  JobHeld db = OptionAny IsHeld (find spec.job_id db.jobs)

  abbrev pub RowsHeld : Table ResultRow → Type 0
  RowsHeld results =
      ((id : ℕ) → OptionAll (IsSound (kinds id)) (find id results))
      × OptionAny (λ row. Unit) (find spec.result_ref results)

  abbrev pub ResultHeld : Tables → Type 0
  ResultHeld db = RowsHeld db.results

  abbrev pub Held : Tables → Type 0
  Held db = JobHeld db × ResultHeld db

  job_modified :
      (f : Job → Job) (jobs : Table Job)
      → ((job : Job) → IsHeld job → IsHeld (f job))
      → OptionAny IsHeld (find spec.job_id jobs)
      → OptionAny IsHeld (find spec.job_id (modify spec.job_id f jobs))
  job_modified f jobs k h =
      let here : (spec.job_id == spec.job_id) ≡ true = ground arith in
      let at =
        find-modify spec.job_id spec.job_id f jobs
        ∙ if_here (spec.job_id == spec.job_id) (map_option f (find spec.job_id jobs))
            (find spec.job_id jobs) here in
      rw at (OptionAny-map_option IsHeld IsHeld f (find spec.job_id jobs) h k)
    where
      if_here : (b : Bool) (x y : Option Job) → b ≡ true → (if b then x else y) ≡ x
      if_here b x y e = rw e refl

  job_same : (db db' : Tables) → db'.jobs ≡ db.jobs → JobHeld db → JobHeld db'
  job_same db db' e h = rw e h

  result_modified :
      (id : ℕ) (f : ResultRow → ResultRow) (results : Table ResultRow)
      → ((progressive : Bool) (row : ResultRow)
          → IsSound progressive row
          → IsSound progressive (f row))
      → RowsHeld results
      → RowsHeld (modify id f results)
  result_modified id f results k (sound, present) = (
    λ other. rw (find-modify id other f results) (elim (Bool-cases (id == other)) [
      | inl x ↦ rw x (
          OptionAll-map_option (IsSound (kinds other)) (IsSound (kinds other)) f
            (find other results) (sound other) (k (kinds other)))
      | inr x ↦ rw x (sound other)
    ]),
    rw (find-modify id spec.result_ref f results) (elim (Bool-cases (id == spec.result_ref)) [
      | inl x ↦ rw x (
          OptionAny-map_option (λ row. Unit) (λ row. Unit) f (find spec.result_ref results) present
            λ row u. tt)
      | inr x ↦ rw x present
    ]),
  )

  pub set_worker-Held :
      (pid token : ℕ) (db : Tables) → Held db → Held (set_worker spec.job_id pid token db)
  unfolding set_worker
  set_worker-Held pid token db (job, result) = (
    job_modified (λ job. record job { worker = some (pid, token) }) db.jobs (λ j h. h) job,
    result,
  )

  pub set_schema-Held : (schema : ℕ) (db : Tables) → Held db → Held (set_schema spec schema db)
  unfolding set_schema
  set_schema-Held schema db (job, result) = (
    job_modified (λ job. record job { phase = executing }) db.jobs (λ j h. h) job,
    result_modified spec.result_ref (λ row. record row { schema = some schema }) db.results
        (λ k row h. record {
          parts_numbered = h.parts_numbered;
          revisions_numbered = h.revisions_numbered;
          head_last = h.head_last;
          revisions_fit = h.revisions_fit;
        })
        result,
  )

  pub publish-Held :
      (decode : List ℕ → Option (List ℕ)) (digest : List ℕ → ℕ) (part : Part) (db db' : Tables)
      (disk : Disk)
      → kinds spec.result_ref ≡ is_some spec.analysis
      → (publish decode digest spec part db disk).0 ≡ ok db'
      → Held db
      → Held db'
  publish-Held decode digest part db db' disk kind e (job, (sound, present)) =
      let same =
        Ensures-ok (SameJobs db) (publish decode digest spec part db disk).0
          (publish-SameJobs decode digest spec part db disk) e in
      let (sound', more) =
        Ensures-ok (Keeps kinds db) (publish decode digest spec part db disk).0
          (publish-Keeps decode digest kinds spec part db disk sound kind) e in
      let (row, found, u) = OptionAny-value _ (find spec.result_ref db.results) present in
      let (row', found', x) = OptionAny-value (Extends row) (find spec.result_ref db'.results) (
        OptionAll-value (λ r. OptionAny (Extends r) (find spec.result_ref db'.results))
          (find spec.result_ref db.results) (more spec.result_ref) found) in
      (
        job_same db db' same.jobs_same job,
        (sound', OptionAny-of (λ r. Unit) (find spec.result_ref db'.results) found' tt),
      )

  pub cancel-Held :
      (reason : JobState) (now : ℕ) (db db' : Tables)
      → StopsEarly reason
      → cancel spec.job_id reason now db ≡ ok db'
      → Held db
      → Held db'
  unfolding cancel cancel_in stop_job coalesce terminal is_waiting
  cancel-Held reason now db db' early e (job, result) =
      let (row, found, (going, taken, stop)) =
        OptionAny-value IsHeld (find spec.job_id db.jobs) job in
      let same : set_job spec.job_id (stop_job reason) db ≡ db' =
        ok-injective (rw (found, going, taken) at e) in
      subst Held same (job_modified (stop_job reason) db.jobs stopped job, result)
    where
      coalesced :
          (stop : Option JobState) → OptionAll StopsEarly stop → StopsEarly (coalesce stop reason)
      coalesced none h = early
      coalesced (some s) h = h

      stopped : (j : Job) → IsHeld j → IsHeld (stop_job reason j)
      stopped j (going, taken, stop) = (refl, refl, coalesced j.stop_requested stop)

  pub invalidate-Held : (id : ℕ) (db : Tables) → Held db → Held (invalidate id db)
  unfolding changed
  invalidate-Held id db (job, result) = (
    job_same db (invalidate id db) (invalidate-SameJobs id db).jobs_same job,
    invalidate-results RowsHeld
        (λ other results held.
          result_modified other invalidated_row results
            (λ k row h. record {
              parts_numbered = h.parts_numbered;
              revisions_numbered = h.revisions_numbered;
              head_last = h.head_last;
              revisions_fit = h.revisions_fit;
            })
            held)
        id db result,
  )
