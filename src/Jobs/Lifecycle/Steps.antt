-- ===== src/Jobs/Lifecycle/Steps.antt =====
-- Each transaction of the job store, as one row update of `Lifecycle`.
use mathlib.Core.Option.{some-injective, none-ne-some}
use mathlib.Core.Path.{subst}
use rowtrail.Base.{
  Bool, Bool-cases, Ensures, Ensures-any, Ensures-bind, Ensures-guarded, Ensures-ok, Ensures-ok_or,
  Ensures-weaken, List, Option, Option-cases, Result, [], arith, false, find, find-append,
  if◌then◌else◌, inl, inr, modify, none, ok, ok_or, refl, some, sym, true, ℕ, ◌++◌, ◌+◌, ◌==◌, ◌∙◌,
  ◌∷◌, ◌≡◌,
}
use rowtrail.Jobs.Datasets.{open_dataset, refresh_dataset}
use rowtrail.Jobs.Retention.{configure, gc, invalidate, retain}
use rowtrail.Jobs.Retention.Storage.{
  configure-SameJobs, gc-SameJobs, open_dataset-SameJobs, refresh_dataset-SameJobs, retain-SameJobs,
}
use rowtrail.Jobs.Retention.Invalid.{invalidate-SameJobs}
use rowtrail.Jobs.{
  DbError, ErrorCode, Job, JobSpec, JobState, Tables, budget_exhausted, cancelled, completed,
  constraint, executing, failed, interrupted, is_queued, job_accepted, job_ended, job_started,
  not_found, planning, running, set_job, stopping, terminal, with_event,
}
use rowtrail.Jobs.Submit.{admit_query, check_inputs, free_keys, insert_rows, new_job, submit}
use rowtrail.Jobs.Queue.{
  cancel, cancel_in, coalesce, drop_job, first_queued, is_waiting, queued, set_schema, set_worker,
  start_job, stop_job,
}
use rowtrail.Jobs.Publish.{Disk, Part, publish}
use rowtrail.Jobs.Publish.Events.{publish-SameJobs}
use rowtrail.Jobs.Finish.{Outcome, end_job, finish, finish_as, or_state, stop_error}
use rowtrail.Jobs.Finish.Events.{finish_as-Ended}
use rowtrail.Jobs.Events.{SameJobs, ended_count, ended_count-with_event}
use rowtrail.Jobs.Lifecycle.{
  Accounted, Entry, IsStop, Later-refl, LaterAll, Lawful, Move, Step, cancel_asked, collected,
  configured, dequeued, opened, refreshed, retained, ended_as, keep_end, published, row_update,
  same_jobs, schema_set, source_invalidated, submitted, worker_set,
}

-- An update that adds no event.
quiet_update :
    (key : ℕ) (f : Job → Job) (db db' : Tables)
    → db'.jobs ≡ modify key f db.jobs
    → ((id : ℕ) → ended_count id db'.events ≡ ended_count id db.events)
    → ((n : ℕ) (job : Job)
        → find key db.jobs ≡ some job
        → Entry n (some job)
        → Move n (some job) n (some (f job)))
    → Accounted db
    → Lawful db db'
quiet_update key f db db' jobs events step =
    row_update key f db db' 0 jobs (λ id. events id ∙ ground arith)
      (λ n job e h. subst (λ m. Move n (some job) m (some (f job))) (omega arith) (step n job e h))
      (λ e. refl)

schema_set-Lawful :
    (spec : JobSpec) (schema : ℕ) (db : Tables)
    → Accounted db
    → Lawful db (set_schema spec schema db)
unfolding set_schema
schema_set-Lawful spec schema db =
    let f : Job → Job = λ job. record job { phase = executing } in
    quiet_update spec.job_id f db (set_schema spec schema db) refl (λ id. refl)
      λ n job e h. keep_end f n job (refl, refl, refl) refl h

worker_set-Lawful :
    (id pid token : ℕ) (db : Tables) → Accounted db → Lawful db (set_worker id pid token db)
unfolding set_worker
worker_set-Lawful id pid token db =
    let f : Job → Job = λ job. record job { worker = some (pid, token) } in
    quiet_update id f db (set_worker id pid token db) refl (λ i. refl)
      λ n job e h. keep_end f n job (refl, refl, refl) refl h

waiting-terminal : (state : JobState) → is_waiting state ≡ true → terminal state ≡ false
unfolding is_waiting terminal
waiting-terminal is_queued h = refl
waiting-terminal running h = refl
waiting-terminal stopping h = refl
waiting-terminal completed h = cc
waiting-terminal failed h = cc
waiting-terminal cancelled h = cc
waiting-terminal budget_exhausted h = cc
waiting-terminal interrupted h = cc

-- A job that has not ended, and still has not.
open_move :
    (n : ℕ) (a b : Job)
    → terminal a.state ≡ false
    → terminal b.state ≡ false
    → IsStop b.stop_requested
    → Entry n (some a)
    → Move n (some a) n (some b)
open_move n a b x y s h = rw (x, y) ((rw x at h.0, s), tt)

start_job-move :
    (now n : ℕ) (job : Job) → Entry n (some job) → Move n (some job) n (some (start_job now job))
unfolding start_job
start_job-move now n job h = elim (Bool-cases (is_waiting job.state)) [
  | inl e ↦ rw e (
      open_move n job (record job { state = running; phase = planning; started = some now })
        (waiting-terminal job.state e) (unfold terminal in refl) h.1 h)
  | inr e ↦ rw e (h, Later-refl (some job))
]

dequeued-Lawful : (now : ℕ) (db : Tables) → Accounted db → Lawful db (queued now db).1
unfolding queued
dequeued-Lawful now db a = elim (Option-cases (first_queued db.jobs)) [
  | inl e ↦ rw (e, queued) (a, λ id. Later-refl (find id db.jobs))
  | inr ((i, job), e) ↦
      rw (e, queued)
        (quiet_update job.spec.job_id (start_job now) db
          (with_event job.spec.job_id job_started (set_job job.spec.job_id (start_job now) db)) refl
          (λ id. ended_count-with_event id job.spec.job_id job_started db ∙ omega arith)
          (λ n j x h. start_job-move now n j h) a)
]

published-Lawful :
    (decode : List ℕ → Option (List ℕ)) (digest : List ℕ → ℕ) (spec : JobSpec) (part : Part)
    (disk : Disk) (db db' : Tables)
    → (publish decode digest spec part db disk).0 ≡ ok db'
    → Accounted db
    → Lawful db db'
published-Lawful decode digest spec part disk db db' e = same_jobs db db' (
    Ensures-ok (SameJobs db) (publish decode digest spec part db disk).0
      (publish-SameJobs decode digest spec part db disk) e)

-- A job that has not ended, and now has.
end_move :
    (n : ℕ) (a b : Job)
    → terminal a.state ≡ false
    → terminal b.state ≡ true
    → IsStop b.stop_requested
    → Entry n (some a)
    → Move n (some a) (n + 1) (some b)
end_move n a b x y s h = rw (x, y) (((let z = rw x at h.0 in omega arith), s), tt)

pub or_state-terminal :
    (stop : Option JobState) (state : JobState)
    → IsStop stop
    → terminal state ≡ true
    → terminal (or_state stop state) ≡ true
or_state-terminal none state h e = e
or_state-terminal (some s) state h e = h

ended-Lawful :
    (world : Outcome) (spec : JobSpec) (state : JobState) (error : Option ErrorCode) (now : ℕ)
    (db : Tables)
    → terminal state ≡ true
    → Accounted db
    → Ensures (Lawful db) (finish world spec state error now db)
unfolding finish
ended-Lawful world spec state error now db t a =
    Ensures-bind _ _ (ok_or (find spec.job_id db.jobs) not_found) _
      (Ensures-ok_or (find spec.job_id db.jobs) not_found)
      λ job found. elim (Bool-cases (terminal job.state)) [
        | inl e ↦ rw (e, Ensures) (a, λ id. Later-refl (find id db.jobs))
        | inr e ↦
            rw (e, Ensures)
              (let entry =
                  subst (Entry (ended_count spec.job_id db.events)) found (a spec.job_id) in
                let s = or_state job.stop_requested state in
                let x = stop_error job.stop_requested error in
                Ensures-weaken _ _ (finish_as world spec s x now db)
                  (λ db' (jobs, events).
                    row_update spec.job_id (end_job s x now) db db' 1 jobs events
                      (λ n j y h.
                        subst (λ i. Move n (some i) (n + 1) (some (end_job s x now i)))
                          (some-injective _ _ (sym found ∙ y))
                          (end_move n job (end_job s x now job) e
                            (unfold end_job in
                              (or_state-terminal job.stop_requested state entry.1 t))
                            (unfold end_job in entry.1)
                            (subst (λ i. Entry n (some i)) (some-injective _ _ (sym y ∙ found)) h)))
                      (λ y. absurd (none-ne-some _ (sym y ∙ found))) a)
                  (finish_as-Ended world spec s x now db))
      ]

coalesce-terminal :
    (reason : JobState)
    → terminal reason ≡ true
    → (stop : Option JobState) → IsStop stop
    → terminal (coalesce stop reason) ≡ true
unfolding coalesce
coalesce-terminal reason t none h = t
coalesce-terminal reason t (some old) h = h

cancel_in-move :
    (id : ℕ) (reason : JobState) (now : ℕ) (job : Job) (db : Tables)
    → terminal reason ≡ true
    → find id db.jobs ≡ some job
    → Accounted db
    → Lawful db (cancel_in id reason now job db)
unfolding cancel_in
cancel_in-move id reason now job db t found a =
    let entry = subst (Entry (ended_count id db.events)) found (a id) in
    elim (Bool-cases (terminal job.state)) [
      | inl e ↦ rw e (a, λ i. Later-refl (find i db.jobs))
      | inr e ↦ rw e (elim (Bool-cases (is_waiting job.state)) [
        | inl w ↦ rw w (
            row_update id (drop_job reason now) db
              (with_event id (job_ended reason) (set_job id (drop_job reason now) db)) 1 refl
              (λ i. ended_count-with_event i id (job_ended reason) db)
              (λ n j y h.
                end_move n j (drop_job reason now j) (rw (some-injective _ _ (sym y ∙ found)) e)
                  (unfold drop_job in t) (unfold drop_job in t) h)
              (λ y. absurd (none-ne-some _ (sym y ∙ found))) a)
        | inr w ↦ rw w (
            quiet_update id (stop_job reason) db (set_job id (stop_job reason) db) refl (λ i. refl)
              (λ n j y h.
                open_move n j (stop_job reason j) (rw (some-injective _ _ (sym y ∙ found)) e)
                  (unfold stop_job in (unfold terminal in refl))
                  (unfold stop_job in (coalesce-terminal reason t j.stop_requested h.1)) h)
              a)
      ])
    ]

cancel-Lawful :
    (id : ℕ) (reason : JobState) (now : ℕ) (db : Tables)
    → terminal reason ≡ true
    → Accounted db
    → Ensures (Lawful db) (cancel id reason now db)
unfolding cancel
cancel-Lawful id reason now db t a =
    Ensures-bind _ _ (ok_or (find id db.jobs) not_found) _
      (Ensures-ok_or (find id db.jobs) not_found)
      λ job found. cancel_in-move id reason now job db t found a

insert_move :
    (new : Job)
    → terminal new.state ≡ false
    → IsStop new.stop_requested
    → (n : ℕ) (here : Bool) (o : Option Job) → Entry n o
    → Move n o n (elim o [ some job ↦ some job | none ↦ if here then some new else none ])
insert_move new t s n here (some job) h = (h, Later-refl (some job))
insert_move new t s n true none h = ((rw t h, s), tt)
insert_move new t s n false none h = (h, tt)

submit_rows :
    (spec : JobSpec) (view scope : ℕ) (sources : List ℕ) (now : ℕ) (db : Tables)
    → Accounted db
    → Lawful db (
        with_event spec.job_id
          (job_accepted spec.result_ref)
          (insert_rows spec view scope sources now db))
unfolding insert_rows
submit_rows spec view scope sources now db a =
    let new = new_job spec now in
    let each : (id : ℕ)
        → Move (ended_count id db.events) (find id db.jobs) (ended_count id db.events)
            (find id (db.jobs ++ (spec.job_id, new) ∷ [])) =
      λ id.
        subst (Move (ended_count id db.events) (find id db.jobs) (ended_count id db.events))
          (sym (find-append id spec.job_id new db.jobs))
          (insert_move new (unfold new_job in (unfold terminal in refl)) (unfold new_job in tt)
            (ended_count id db.events) (spec.job_id == id) (find id db.jobs) (a id)) in
    (
      λ id.
          subst (λ n. Entry n (find id (db.jobs ++ (spec.job_id, new) ∷ [])))
            (sym (
              ended_count-with_event id spec.job_id (job_accepted spec.result_ref) db
              ∙ omega arith))
            (each id).0,
      λ id. (each id).1,
    )

submitted-Lawful :
    (spec : JobSpec) (view scope : ℕ) (sources : List ℕ) (now : ℕ) (db : Tables)
    → Accounted db
    → Ensures (Lawful db) (submit spec view scope sources now db)
unfolding submit
submitted-Lawful spec view scope sources now db a =
    Ensures-bind _ _ (admit_query spec.query db) _ (Ensures-any _) λ u v.
      Ensures-bind _ _ (check_inputs sources db) _ (Ensures-any _) λ w x.
        Ensures-guarded (Lawful db) (free_keys spec view scope db) constraint _
          (submit_rows spec view scope sources now db a)

same_result :
    (db db' : Tables) (m : Result DbError Tables)
    → Ensures (SameJobs db) m
    → m ≡ ok db'
    → Accounted db
    → Lawful db db'
same_result db db' m h e = same_jobs db db' (Ensures-ok (SameJobs db) m h e)

-- A transaction of the job store keeps the account of the events that end jobs, given that it held
-- before: every job that has ended has exactly one `job.ended` event, every other id has none, and
-- every stored stop request names a state in which a job can end. It also keeps every job, and the
-- state, the error and the time of the end of every job that has ended.
pub Step-Lawful : (db db' : Tables) → Step db db' → Accounted db → Accounted db' × LaterAll db db'
Step-Lawful db db' (submitted spec view scope sources now _ _ e) a =
    Ensures-ok (Lawful db) (submit spec view scope sources now db)
      (submitted-Lawful spec view scope sources now db a) e
Step-Lawful db db' (dequeued now _) a = dequeued-Lawful now db a
Step-Lawful db db' (cancel_asked id reason now _ _ t e) a =
    Ensures-ok (Lawful db) (cancel id reason now db) (cancel-Lawful id reason now db t a) e
Step-Lawful db db' (schema_set spec schema _) a = schema_set-Lawful spec schema db a
Step-Lawful db db' (worker_set id pid token _) a = worker_set-Lawful id pid token db a
Step-Lawful db db' (published decode digest spec part disk _ _ e) a =
    published-Lawful decode digest spec part disk db db' e a
Step-Lawful db db' (source_invalidated id _) a =
    same_jobs db (invalidate id db) (invalidate-SameJobs id db) a
Step-Lawful db db' (ended_as world spec state error now _ _ t e) a =
    Ensures-ok (Lawful db) (finish world spec state error now db)
      (ended-Lawful world spec state error now db t a) e
Step-Lawful db db' (collected dry_run _) a =
    same_jobs db (gc dry_run db).1 (gc-SameJobs dry_run db) a
Step-Lawful db db' (configured quota _ _ e) a =
    same_result db db' (configure quota db) (configure-SameJobs quota db) e a
Step-Lawful db db' (retained reference pin _ _ e) a =
    same_result db db' (retain reference pin db) (retain-SameJobs reference pin db) e a
Step-Lawful db db' (opened dataset_ref manifest_ref _ _ e) a =
    same_result db db' (open_dataset dataset_ref manifest_ref db)
      (open_dataset-SameJobs dataset_ref manifest_ref db) e a
Step-Lawful db db' (refreshed dataset_ref manifest_ref _ _ e) a =
    same_result db db' (refresh_dataset dataset_ref manifest_ref db)
      (refresh_dataset-SameJobs dataset_ref manifest_ref db) e a
