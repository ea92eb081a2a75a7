-- ===== src/Jobs/Lifecycle.antt =====
-- The transactions of db.rs, storage.rs and api.rs as a step relation, and the life of a job under them: it
-- ends once, with one `job.ended` event, and never changes its outcome.
pub mod Steps
pub mod Reach
use mathlib.Core.Option.{some-injective}
use mathlib.Core.Path.{subst}
use rowtrail.Base.{
  ==_iff, Bool, Bool-cases, List, Option, OptionAll, ap, arith, find, find-modify, if◌then◌else◌,
  inl, inr, map_option, modify, none, ok, refl, some, true, ℕ, ◌+◌, ◌==◌, ◌∙◌, ◌≡◌,
}
use rowtrail.Jobs.{ErrorCode, Job, JobSpec, JobState, Tables, terminal}
use rowtrail.Jobs.Submit.{submit}
use rowtrail.Jobs.Queue.{cancel, queued, set_schema, set_worker}
use rowtrail.Jobs.Publish.{Disk, Part, publish}
use rowtrail.Jobs.Finish.{Outcome, finish}
use rowtrail.Jobs.Datasets.{open_dataset, refresh_dataset}
use rowtrail.Jobs.Retention.{configure, gc, invalidate, retain}
use rowtrail.Jobs.Events.{SameJobs, ended_count}

-- A stored stop request is a state in which a job can end.
abbrev pub IsStop : Option JobState → Type 0
IsStop = OptionAll (λ state. terminal state ≡ true)

-- The `job.ended` events of an id that no job has, and of a job.
abbrev pub Entry : ℕ → Option Job → Type 0
Entry n none = n ≡ 0
Entry n (some job) = (n ≡ (if terminal job.state then 1 else 0)) × IsStop job.stop_requested

-- Each job that has ended has one `job.ended` event, and any other id has none.
abbrev pub Accounted : Tables → Type 0
Accounted db = (id : ℕ) → Entry (ended_count id db.events) (find id db.jobs)

abbrev pub SameEnd : Job → Job → Type 0
SameEnd a b = (b.state ≡ a.state) × (b.error ≡ a.error) × (b.finished ≡ a.finished)

-- A job is still there, and the same if it had ended.
abbrev pub Later : Option Job → Option Job → Type 0
Later none after = Unit
Later (some a) none = ⊥
Later (some a) (some b) = if terminal a.state then SameEnd a b else Unit

abbrev pub LaterAll : Tables → Tables → Type 0
LaterAll db db' = (id : ℕ) → Later (find id db.jobs) (find id db'.jobs)

-- The transactions. A stop request and a worker's outcome name a state in which a job ends.
pub data Step : Tables → Tables → Type 0 where
  submitted :
      (spec : JobSpec) (view scope : ℕ) (sources : List ℕ) (now : ℕ) (db db' : Tables)
      → submit spec view scope sources now db ≡ ok db'
      → Step db db'
  dequeued : (now : ℕ) (db : Tables) → Step db (queued now db).1
  cancel_asked :
      (id : ℕ) (reason : JobState) (now : ℕ) (db db' : Tables)
      → terminal reason ≡ true
      → cancel id reason now db ≡ ok db'
      → Step db db'
  schema_set : (spec : JobSpec) (schema : ℕ) (db : Tables) → Step db (set_schema spec schema db)
  worker_set : (id pid token : ℕ) (db : Tables) → Step db (set_worker id pid token db)
  published :
      (decode : List ℕ → Option (List ℕ)) (digest : List ℕ → ℕ) (spec : JobSpec) (part : Part)
      (disk : Disk) (db db' : Tables)
      → (publish decode digest spec part db disk).0 ≡ ok db'
      → Step db db'
  source_invalidated : (id : ℕ) (db : Tables) → Step db (invalidate id db)
  ended_as :
      (world : Outcome) (spec : JobSpec) (state : JobState) (error : Option ErrorCode) (now : ℕ)
      (db db' : Tables)
      → terminal state ≡ true
      → finish world spec state error now db ≡ ok db'
      → Step db db'
  collected : (dry_run : Bool) (db : Tables) → Step db (gc dry_run db).1
  configured : (quota : ℕ) (db db' : Tables) → configure quota db ≡ ok db' → Step db db'
  retained :
      (reference : ℕ) (pin : Bool) (db db' : Tables)
      → retain reference pin db ≡ ok db'
      → Step db db'
  opened :
      (dataset_ref manifest_ref : ℕ) (db db' : Tables)
      → open_dataset dataset_ref manifest_ref db ≡ ok db'
      → Step db db'
  refreshed :
      (dataset_ref manifest_ref : ℕ) (db db' : Tables)
      → refresh_dataset dataset_ref manifest_ref db ≡ ok db'
      → Step db db'

-- What one transaction does to the account and to the jobs.
abbrev Lawful : Tables → Tables → Type 0
Lawful db db' = Accounted db' × LaterAll db db'

Later-refl : (o : Option Job) → Later o o
Later-refl none = tt
Later-refl (some a) = elim (Bool-cases (terminal a.state)) [
  | inl e ↦ rw e (refl, refl, refl)
  | inr e ↦ rw e tt
]

same_jobs : (db db' : Tables) → SameJobs db db' → Accounted db → Lawful db db'
same_jobs db db' h a = (
  λ id. rw (h.jobs_same, h.ended_same id) (a id),
  λ id. rw h.jobs_same (Later-refl (find id db.jobs)),
)

abbrev Move : ℕ → Option Job → ℕ → Option Job → Type 0
Move n o n' o' = Entry n' o' × Later o o'

-- One row update of jobs: what it must keep of a row, and how many events it may add.
module _ (key : ℕ) (f : Job → Job) (db db' : Tables) (added : ℕ)
    (jobs : db'.jobs ≡ modify key f db.jobs)
    (events : (id : ℕ)
      → ended_count id db'.events ≡ ended_count id db.events + (if key == id then added else 0))
    (step : (n : ℕ) (job : Job)
      → find key db.jobs ≡ some job
      → Entry n (some job)
      → Move n (some job) (n + added) (some (f job)))
    (absent : find key db.jobs ≡ none → added ≡ 0) where
  row_at :
      (id : ℕ)
      → find id db'.jobs ≡ (if key == id then map_option f (find id db.jobs) else find id db.jobs)
  row_at id = ap (find id) jobs ∙ find-modify key id f db.jobs

  key_row :
      (n : ℕ) (o : Option Job)
      → find key db.jobs ≡ o
      → Entry n o
      → Move n o (n + added) (map_option f o)
  key_row n none e h = (omega (arith, absent e, h), tt)
  key_row n (some job) e h = step n job e h

  one_row :
      Accounted db
      → (id : ℕ)
      → Move
          (ended_count id db.events)
          (find id db.jobs)
          (ended_count id db'.events)
          (find id db'.jobs)
  one_row a id =
      rw (row_at id, events id)
        (elim (Bool-cases (key == id)) [
          | inl e ↦ rw e (
              key_row (ended_count id db.events) (find id db.jobs)
                (ap (λ k. find k db.jobs) ((==_iff key id).0 e)) (a id))
          | inr e ↦ rw e (
              subst (λ n. Move (ended_count id db.events) (find id db.jobs) n (find id db.jobs))
                (omega arith) (a id, Later-refl (find id db.jobs)))
        ])

  row_update : Accounted db → Lawful db db'
  row_update a = (λ id. (one_row a id).0, λ id. (one_row a id).1)

-- An update that leaves the outcome of a job alone.
keep_end :
    (f : Job → Job) (n : ℕ) (job : Job)
    → SameEnd job (f job)
    → (f job).stop_requested ≡ job.stop_requested
    → Entry n (some job)
    → Move n (some job) n (some (f job))
keep_end f n job h e (c, s) = (
  (rw (h.0) c, rw e s),
  elim (Bool-cases (terminal job.state)) [ inl t ↦ rw t h | inr t ↦ rw t tt ],
)
