-- ===== src/Jobs.antt =====
-- The durable job store of crates/runtime/src/db.rs, with the records of model.rs: the SQLite
-- tables and what one transaction does to them. Identifiers, checksums and schemas are tokens that
-- the code only compares, so they are numbers; times, and what the file system answers, are
-- arguments. A transaction returns the new tables, or an error and then nothing has changed.
pub mod Submit
pub mod Queue
pub mod Coverage
pub mod Publish
pub mod Finish
pub mod Shape
pub mod Events
pub mod Lifecycle
pub mod Snapshot
pub mod Datasets
pub mod Retention
pub mod Tests
use rowtrail.Base.{Bool, List, Option, Table, [], false, modify, none, some, true, ℕ, ◌++◌, ◌∷◌}

pub data JobState : Type 0 where
  is_queued running stopping completed failed cancelled budget_exhausted interrupted : JobState

-- contracts: `terminal`
unfoldable pub terminal : JobState → Bool
terminal completed = true
terminal failed = true
terminal cancelled = true
terminal budget_exhausted = true
terminal interrupted = true
terminal _ = false

pub data Phase : Type 0 where
  waiting planning executing : Phase
  ended : JobState → Phase

-- The codes of the errors that are stored with a job.
pub data ErrorCode : Type 0 where
  worker_lost cancelled_code budget_code : ErrorCode
  reported : ℕ → ErrorCode

pub data Preview : Type 0 where
  available withheld : Preview

pub data FragmentUnit : Type 0 where
  manifest_file parquet_row_group : FragmentUnit

-- model.rs: `Checkpoint`
pub record Checkpoint : Type 0 where
  pub unit : FragmentUnit
  pub completed_fragments : ℕ
  pub total_fragments : Option ℕ
  pub processed_rows : ℕ
  pub completed_files : ℕ
  pub total_files : ℕ

-- What `coverage()` reports of a checkpoint, and the coverage that a quality starts with.
pub data InputCoverage : Type 0 where
  declared unknown : InputCoverage
  of_checkpoint : Checkpoint → InputCoverage

pub data CoverageKind : Type 0 where
  declared_kind partial : CoverageKind

-- The fields of the quality document that a publication changes, and the rest of it.
pub record Quality : Type 0 where
  pub kind : CoverageKind
  pub input_coverage : InputCoverage
  pub final_for_request : Bool
  pub rest : ℕ

-- The parts of `QueryParams`, `AnalyzeParams` and `Input` that the store reads. The row groups of
-- a file are known or not.
pub record Query : Type 0 where
  pub preview : Preview
  pub result_bytes : ℕ
  pub spill_bytes : ℕ

pub record Analysis : Type 0 where
  pub fragment_unit : FragmentUnit
  pub preview : Preview

-- A managed dataset that a `prepare` job will create, with its manifest.
pub record Prepared : Type 0 where
  pub dataset_ref : ℕ
  pub manifest_ref : ℕ

-- model.rs: `JobSpec`
pub record JobSpec : Type 0 where
  pub job_id : ℕ
  pub attempt : ℕ
  pub result_ref : ℕ
  pub query : Option Query
  pub is_export : Bool
  pub prepared : Option Prepared
  pub analysis : Option Analysis
  pub row_groups : List (Option ℕ)  -- of the first input's files
  pub quality : Quality

pub record Job : Type 0 where
  pub state : JobState
  pub phase : Phase
  pub spec : JobSpec
  pub error : Option ErrorCode
  pub created : ℕ
  pub started : Option ℕ
  pub finished : Option ℕ
  pub stop_requested : Option JobState
  pub worker : Option (ℕ × ℕ)  -- process and token

pub record PartRow : Type 0 where
  pub seq : ℕ
  pub rows : ℕ
  pub bytes : ℕ
  pub checksum : ℕ
  pub inline : Bool

pub record Revision : Type 0 where
  pub revision : ℕ
  pub cutoff : ℕ
  pub rows : ℕ
  pub quality : Quality

pub data Validity : Type 0 where
  valid source_changed expired : Validity

-- A row of `results` with the rows of `parts`, `revisions`, `checkpoints` and `analysis_progress`
-- that its id keys, each in the order of insertion.
pub record ResultRow : Type 0 where
  pub job_id : ℕ
  pub schema : Option ℕ
  pub head : ℕ
  pub validity : Validity
  pub parts : List PartRow
  pub revisions : List Revision
  pub checkpoints : List (ℕ × ℕ)
  pub progress : Option Checkpoint

pub data EventKind : Type 0 where
  job_accepted : ℕ → EventKind
  job_started : EventKind
  job_ended : JobState → EventKind
  result_ready : ℕ → ℕ → Quality → EventKind
  result_invalidated : ℕ → EventKind
  dataset_ready : ℕ → ℕ → EventKind

pub record Event : Type 0 where
  pub job : ℕ
  pub kind : EventKind

pub data ObjectKind : Type 0 where
  dataset manifest other_object : ObjectKind

pub record ObjectRow : Type 0 where
  pub kind : ObjectKind
  pub validity : Validity

pub data Owner : Type 0 where
  user system : Owner

pub record Tables : Type 0 where
  pub jobs : Table Job
  pub results : Table ResultRow
  pub objects : Table ObjectRow
  pub deps : List (ℕ × ℕ)  -- child and parent
  pub events : List Event
  pub retention : Table ℕ
  pub pins : List (ℕ × Owner)
  pub quota : Option ℕ

pub data DbError : Type 0 where
  not_found publication_rejected result_conflict out_of_order bad_staging result_corrupt : DbError
  result_unavailable symlink_part constraint export_failed resource_exhausted : DbError
  object_expired source_changed_input result_not_ready invalid_reference : DbError

-- `Option::is_some`
abbrev pub is_some {ℓ} : {A : Type ℓ} → Option A → Bool
is_some none = false
is_some (some a) = true

-- `event`: the row that is appended. Its identifier, time and correlation come from outside.
abbrev pub with_event : ℕ → EventKind → Tables → Tables
with_event job kind db = record db { events = db.events ++ record { job = job; kind = kind } ∷ [] }

abbrev pub set_job : ℕ → (Job → Job) → Tables → Tables
set_job id f db = record db { jobs = modify id f db.jobs }

abbrev pub set_result : ℕ → (ResultRow → ResultRow) → Tables → Tables
set_result id f db = record db { results = modify id f db.results }
