-- ===== src/Jobs/Events.antt =====
-- db.rs: the `job.ended` events of the log, and what leaves them and the job rows as they are.
use rowtrail.Base.{List, [], arith, if◌then◌else◌, refl, ℕ, ◌++◌, ◌+◌, ◌==◌, ◌∙◌, ◌∷◌, ◌≡◌}
use rowtrail.Jobs.{Event, EventKind, JobSpec, ResultRow, Tables, job_ended, set_result, with_event}
use rowtrail.Jobs.Publish.{commit_part, with_events}

-- How many times an event tells that the job has ended.
abbrev pub ends : ℕ → EventKind → ℕ → ℕ
ends job (job_ended state) id = if job == id then 1 else 0
ends job _ id = 0

unfoldable pub ended_count : ℕ → List Event → ℕ
ended_count id [] = 0
ended_count id (e ∷ events) = ends e.job e.kind id + ended_count id events

ended_count-append :
    (id : ℕ) (xs ys : List Event)
    → ended_count id (xs ++ ys) ≡ ended_count id xs + ended_count id ys
unfolding ended_count
ended_count-append id [] ys = omega arith
ended_count-append id (x ∷ xs) ys = omega (arith, ended_count-append id xs ys)

pub ended_count-with_event :
    (id job : ℕ) (kind : EventKind) (db : Tables)
    → ended_count id (with_event job kind db).events ≡ ended_count id db.events + ends job kind id
ended_count-with_event id job kind db =
    ended_count-append id db.events (record { job = job; kind = kind } ∷ [])
    ∙ (unfold ended_count in omega arith)

-- No event of the list ends a job.
abbrev pub Quiet : List EventKind → Type 0
Quiet [] = Unit
Quiet (k ∷ ks) = ((job id : ℕ) → ends job k id ≡ 0) × Quiet ks

-- The job rows and the events that end jobs are as they were.
pub record SameJobs (before after : Tables) : Type 0 where
  pub jobs_same : after.jobs ≡ before.jobs
  pub ended_same : (id : ℕ) → ended_count id after.events ≡ ended_count id before.events

with_events-SameJobs :
    (job : ℕ) (kinds : List EventKind) (db : Tables)
    → Quiet kinds
    → SameJobs db (with_events job kinds db)
unfolding with_events
with_events-SameJobs job [] db q = record { jobs_same = refl; ended_same = λ id. refl }
with_events-SameJobs job (k ∷ ks) db (q, qs) =
    let h = with_events-SameJobs job ks (with_event job k db) qs in
    record {
      jobs_same = h.jobs_same;
      ended_same =
          λ id. omega (arith, h.ended_same id, ended_count-with_event id job k db, q job id);
    }

pub commit_part-SameJobs :
    (spec : JobSpec) (row : ResultRow) (kinds : List EventKind) (db : Tables)
    → Quiet kinds
    → SameJobs db (commit_part spec (row, kinds) db)
unfolding commit_part
commit_part-SameJobs spec row kinds db q =
    let h = with_events-SameJobs spec.job_id kinds (set_result spec.result_ref (λ r. row) db) q in
    record { jobs_same = h.jobs_same; ended_same = h.ended_same }

pub SameJobs-refl : (db : Tables) → SameJobs db db
SameJobs-refl db = record { jobs_same = refl; ended_same = λ id. refl }

pub SameJobs-trans : (a b c : Tables) → SameJobs a b → SameJobs b c → SameJobs a c
SameJobs-trans a b c h k = record {
  jobs_same = k.jobs_same ∙ h.jobs_same;
  ended_same = λ id. k.ended_same id ∙ h.ended_same id;
}
