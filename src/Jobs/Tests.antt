-- ===== src/Jobs/Tests.antt =====
-- Runs of the job store on small tables.
use rowtrail.Base.{
  Bool, Bool-cases, Ensures, OptionAll, Returns, [], arith, false, find, inl, inr, is_ok, map,
  modify, none, ok, refl, some, true, ℕ, ◌++◌, ◌==◌, ◌∷◌, ◌≡◌,
}
use rowtrail.Jobs.{
  Job, JobSpec, Quality, ResultRow, Tables, available, budget_exhausted, cancelled, cancelled_code,
  completed, declared, declared_kind, ended, executing, failed, job_accepted, job_ended,
  job_started, other_object, planning, running, stopping, terminal, user, valid, worker_lost,
}
use rowtrail.Jobs.Submit.{
  is_active, new_job, new_result, reserved_from, stored_bytes, submit, sum_bytes, usage,
}
use rowtrail.Jobs.Queue.{cancel, first_queued, is_waiting, queued, start_job}
use rowtrail.Jobs.Publish.{
  Disk, Part, add_revision, arrow, commit_part, other_path, publish, staging_path, store_path,
  sum_rows,
}
use rowtrail.Jobs.Publish.Commit.{publish-Keeps}
use rowtrail.Jobs.Finish.{Outcome, end_job, finish, stop_error}
use rowtrail.Jobs.Finish.Commit.{finish-Keeps}
use rowtrail.Jobs.Finish.Events.{Ended}
use rowtrail.Jobs.Finish.Total.{finish_failed}
use rowtrail.Jobs.Shape.{Keeps, SoundTables}
use rowtrail.Jobs.Retention.{contains, gc, roots, selected}
use rowtrail.Jobs.Retention.Needed.{ancestor, pinned, selected-Needed}
use rowtrail.Jobs.Snapshot.{find_revision, is_expired, snapshot, snapshot-view_of, view_of}
use rowtrail.Jobs.Lifecycle.{
  Accounted, LaterAll, Step, cancel_asked, collected, dequeued, ended_as, submitted,
}
use rowtrail.Jobs.Lifecycle.Reach.{
  Reaches, empty_tables, here, next, outcome_final, reachable-Accounted,
}

abbrev pub plain_quality : Quality
plain_quality = record {
  kind = declared_kind;
  input_coverage = declared;
  final_for_request = false;
  rest = 0;
}

-- A query with a preview.
abbrev pub query_spec : JobSpec
query_spec = record {
  job_id = 1;
  attempt = 10;
  result_ref = 2;
  query = some (record { preview = available; result_bytes = 1000; spill_bytes = 500 });
  is_export = false;
  prepared = none;
  analysis = none;
  row_groups = [];
  quality = plain_quality;
}

abbrev pub running_job : Job
running_job = record {
  state = running;
  phase = executing;
  spec = query_spec;
  error = none;
  created = 5;
  started = some 6;
  finished = none;
  stop_requested = none;
  worker = some (77, 10);
}

abbrev pub one_part : ResultRow
one_part = record {
  job_id = 1;
  schema = some 4;
  head = 1;
  validity = valid;
  parts = record { seq = 0; rows = 3; bytes = 64; checksum = 8; inline = false } ∷ [];
  revisions = record { revision = 1; cutoff = 1; rows = 3; quality = plain_quality } ∷ [];
  checkpoints = [];
  progress = none;
}

abbrev pub running_tables : Tables
running_tables = record empty_tables { jobs = (1, running_job) ∷ []; results = (2, one_part) ∷ [] }

-- The second part, as a staged file.
abbrev pub second_part : Part
second_part = record {
  seq = 1;
  path = staging_path 10 arrow 1;
  bytes = 32;
  rows = 2;
  checksum = 9;
  schema = 4;
  inline_data = none;
  checkpoint = none;
}

abbrev pub staged_disk : Disk
staged_disk = λ p. elim p [
  | staging_path a e n ↦ some (record { len = 32; symlink = false })
  | store_path a e n ↦ none
  | other_path n ↦ none
]

abbrev pub no_kinds : ℕ → Bool
no_kinds id = false

pub running_tables_sound : SoundTables no_kinds running_tables
unfolding find
running_tables_sound id = elim (Bool-cases (2 == id)) [
  | inl e ↦
      rw (e, OptionAll)
        (record {
          parts_numbered = (refl, tt);
          revisions_numbered = (refl, tt);
          head_last = refl;
          revisions_fit = ((omega arith, unfold sum_rows in refl), tt);
        })
  | inr e ↦ rw (e, OptionAll) tt
]

publish-Keeps_example :
    Ensures
      (Keeps no_kinds running_tables)
      (publish (λ raw. some raw) (λ bytes. 0) query_spec second_part running_tables staged_disk).0
publish-Keeps_example =
    publish-Keeps (λ raw. some raw) (λ bytes. 0) no_kinds query_spec second_part running_tables
      staged_disk running_tables_sound refl

abbrev pub all_well : Outcome
all_well = record { linked = true; fits = true }

finish-Keeps_example :
    Ensures
      (Keeps no_kinds running_tables)
      (finish all_well query_spec completed none 9 running_tables)
finish-Keeps_example =
    finish-Keeps all_well no_kinds query_spec completed none 9 running_tables running_tables_sound
      refl

-- Both of them commit.
publish_commits :
    is_ok
      (publish (λ raw. some raw) (λ bytes. 0) query_spec second_part running_tables staged_disk).0
    ≡ true
unfolding publish find
publish_commits = refl

finish_commits : is_ok (finish all_well query_spec completed none 9 running_tables) ≡ true
unfolding finish find terminal add_revision
finish_commits = refl

-- A job that is submitted, started and cancelled, and then reported as completed by its worker.
abbrev submitted_tables : Tables
submitted_tables = record {
  jobs = (1, new_job query_spec 5) ∷ [];
  results = (2, new_result 1) ∷ [];
  objects =
      (3, record { kind = other_object; validity = valid })
      ∷ (4, record { kind = other_object; validity = valid })
      ∷ [];
  deps = [];
  events = record { job = 1; kind = job_accepted 2 } ∷ [];
  retention = [];
  pins = [];
  quota = none;
}

abbrev started_tables : Tables
started_tables = record submitted_tables {
  jobs =
      (1, record (new_job query_spec 5) { state = running; phase = planning; started = some 6 })
      ∷ [];
  events = submitted_tables.events ++ record { job = 1; kind = job_started } ∷ [];
}

abbrev stopping_tables : Tables
stopping_tables = record started_tables {
  jobs =
      (
        1,
        record (new_job query_spec 5) {
          state = stopping;
          phase = planning;
          started = some 6;
          stop_requested = some cancelled;
        },
      )
      ∷ [];
}

abbrev ended_tables : Tables
ended_tables = record stopping_tables {
  jobs =
      (
        1,
        record (new_job query_spec 5) {
          state = cancelled;
          phase = ended cancelled;
          error = some cancelled_code;
          started = some 6;
          finished = some 8;
          stop_requested = some cancelled;
        },
      )
      ∷ [];
  events = started_tables.events ++ record { job = 1; kind = job_ended cancelled } ∷ [];
}

submit-Step : Step empty_tables submitted_tables
unfolding submit new_job new_result find usage reserved_from stored_bytes
submit-Step = submitted query_spec 3 4 [] 5 _ _ refl

cancel-Step : Step started_tables stopping_tables
unfolding cancel find new_job modify terminal
cancel-Step = cancel_asked 1 cancelled 7 _ _ refl refl

-- The worker reports completion, and the stored request wins.
end-Step : Step stopping_tables ended_tables
unfolding finish find new_job new_result modify terminal end_job stop_error add_revision commit_part
end-Step = ended_as all_well query_spec completed none 8 _ _ refl refl

start-Step : Step submitted_tables started_tables
unfolding queued find new_job modify start_job first_queued is_waiting
start-Step = dequeued 6 submitted_tables

cancelled_history : Reaches empty_tables ended_tables
cancelled_history =
    next _ _ _
      (next _ _ _ (next _ _ _ (next _ _ _ (here empty_tables) submit-Step) start-Step) cancel-Step)
      end-Step

reachable-Accounted_example : Accounted ended_tables
reachable-Accounted_example = reachable-Accounted ended_tables cancelled_history

abbrev collected_tables : Tables
collected_tables = (gc false ended_tables).1

-- Garbage is collected after the job has ended.
outcome_final_example : LaterAll ended_tables collected_tables
outcome_final_example =
    outcome_final ended_tables collected_tables cancelled_history
      (next _ _ _ (here ended_tables) (collected false ended_tables))

snapshot-view_of_example :
    snapshot 2 (some 1) running_tables
    ≡ ok (
        view_of one_part
          (record { revision = 1; cutoff = 1; rows = 3; quality = plain_quality })
          4
          running)
snapshot-view_of_example =
    snapshot-view_of 2 1 4 running_tables one_part running_job
      (record { revision = 1; cutoff = 1; rows = 3; quality = plain_quality }) (unfold find in refl)
      (unfold find in refl) (unfold is_expired in refl)
      (record {
        parts_numbered = (refl, tt);
        revisions_numbered = (refl, tt);
        head_last = refl;
        revisions_fit = ((omega arith, unfold sum_rows in refl), tt);
      })
      refl refl (unfold find_revision in refl)

-- Result 2 is released while its job runs; result 6 is released and its job has ended.
abbrev released_tables : Tables
released_tables = record running_tables {
  jobs = (1, running_job) ∷ (5, record running_job { state = failed }) ∷ [];
  results = (2, one_part) ∷ (6, record one_part { job_id = 5 }) ∷ [];
  deps = (2, 7) ∷ [];
  retention = (2, 1) ∷ (6, 1) ∷ [];
}

released_selected : selected released_tables ≡ (6, 64) ∷ []
unfolding selected roots contains find terminal sum_bytes is_active
released_selected = refl

-- The released result 6 is what the pinned object 8 was derived from.
abbrev pinned_tables : Tables
pinned_tables = record released_tables { deps = (2, 7) ∷ (8, 6) ∷ []; pins = (8, user) ∷ [] }

selected-Needed_example : contains 6 (map (λ row. row.0) (selected pinned_tables)) ≡ false
selected-Needed_example =
    selected-Needed pinned_tables 6 (ancestor 6 8 (pinned 8 user (inl refl)) (inr (inl refl)))

-- The worker is lost while a stop is requested.
abbrev stopping_job : Job
stopping_job = record running_job { state = stopping; stop_requested = some budget_exhausted }

abbrev stopped_tables : Tables
stopped_tables = record running_tables { jobs = (1, stopping_job) ∷ [] }

finish_failed_example :
    Returns
      (Ended query_spec budget_exhausted
        (stop_error (some budget_exhausted) (some worker_lost))
        9
        stopped_tables)
      (finish all_well query_spec failed (some worker_lost) 9 stopped_tables)
finish_failed_example =
    finish_failed all_well query_spec failed (some worker_lost) 9 stopped_tables stopping_job
      one_part (unfold find in refl) (unfold terminal in refl) refl (unfold find in refl)
      (record {
        parts_numbered = (refl, tt);
        revisions_numbered = (refl, tt);
        head_last = refl;
        revisions_fit = ((omega arith, unfold sum_rows in refl), tt);
      })
