-- ===== src/Aggregate/Run.antt =====
-- aggregate.rs: the loops of `execute` over files, fragments and batches, and the checkpoints that it
-- sends. The Parquet library opens a file and streams its batches; the clock tells whether the
-- checkpoint interval has passed; the pipe to the coordinator answers a checkpoint with its bytes.
pub mod Accepted
pub mod Counts
pub mod Steps
pub mod Landed
pub mod Files
pub mod Ended
use rowtrail.Base.{
  Bool, List, Option, Result, [], false, get_elem?, guard, if◌then◌else◌, length, ltb, map, none,
  not, ok, some, suc, true, zero, ℕ, ◌&&◌, ◌+◌, ◌-◌, ◌==◌, ◌>>=◌, ◌>>◌, ◌||◌, ◌∷◌,
}
use rowtrail.Jobs.{
  Analysis, Checkpoint, FragmentUnit, manifest_file, parquet_row_group, source_changed,
}
use rowtrail.Jobs.Coverage.{sum_known}
use rowtrail.Jobs.Publish.{is_available}
use rowtrail.Aggregate.{
  Aggregate, AggregateError, Batch, Cell, State, accumulate, bad_argument, corrupt, source_changed,
}
use rowtrail.Aggregate.Output.{new_states, output}
use rowtrail.Aggregate.Projection.{Schema}

-- The metadata of an opened file, the batches of a fragment, and the validation after it.
pub record Opened : Type 0 where
  pub num_row_groups : ℕ
  pub num_rows : ℕ
  pub group_rows : List ℕ
  pub stream : ℕ → List (Result AggregateError Batch)
  pub validated : ℕ → Result AggregateError (Unit {0})

pub record InputFile : Type 0 where
  pub row_groups : Option ℕ
  pub rows : Option ℕ
  pub opened : Result AggregateError Opened

pub record Sent : Type 0 where
  pub seq : ℕ
  pub progress : Checkpoint
  pub cells : List Cell

-- The variables of `execute`; the checkpoints that were sent stand last first.
pub record Session : Type 0 where
  pub progress : Checkpoint
  pub states : List (Aggregate × State)
  pub seq : ℕ
  pub written : ℕ
  pub published : Option (ℕ × ℕ)
  pub sent : List Sent

pub record Plan : Type 0 where
  pub analysis : Analysis
  pub result_bytes : ℕ
  pub due : ℕ → ℕ → Bool
  pub checkpoint : ℕ → ℕ → Checkpoint → List Cell → Result AggregateError ℕ

-- The loop over the stream of a fragment.
unfoldable pub scan :
    List (Aggregate × State)
    → ℕ
    → List (Result AggregateError Batch)
    → Result AggregateError (List (Aggregate × State) × ℕ)
unfolding accumulate
scan states rows [] = ok (states, rows)
scan states rows (next ∷ batches) = do
  batch ← next
  grown ← accumulate states batch
  scan grown (rows + batch.num_rows) batches

unfoldable pub is_file : FragmentUnit → Bool
is_file manifest_file = true
is_file parquet_row_group = false

unfoldable pub matches_known : Option ℕ → ℕ → Bool
matches_known none n = true
matches_known (some expected) n = n == expected

unfoldable pub or_zero : Option ℕ → ℕ
or_zero none = 0
or_zero (some n) = n

unfoldable pub fragment_rows : FragmentUnit → Opened → ℕ → ℕ
unfolding or_zero
fragment_rows manifest_file f index = f.num_rows
fragment_rows parquet_row_group f index = or_zero (get_elem? f.group_rows index)

-- `published != Some(key)`
unfoldable pub is_new : Option (ℕ × ℕ) → Checkpoint → Bool
is_new none p = true
is_new (some (fragments, files)) p =
    not (fragments == p.completed_fragments && files == p.completed_files)

-- The counters after a fragment; `last` is `index + 1 == fragments`.
unfoldable pub advance : Bool → Bool → ℕ → ℕ → Checkpoint → Checkpoint
advance counted last file_index rows p = record p {
  processed_rows = p.processed_rows + rows;
  completed_fragments = p.completed_fragments + (if counted then 1 else 0);
  completed_files = if last then file_index + 1 else p.completed_files;
}

unfoldable pub is_final : Checkpoint → Bool
is_final p = p.completed_files == p.total_files

unfoldable pub close_total : Checkpoint → Checkpoint
unfolding is_final
close_total p = record p {
  total_fragments = if is_final p then some p.completed_fragments else p.total_fragments;
}

unfoldable pub send_checkpoint : Plan → Session → Result AggregateError Session
unfolding output
send_checkpoint plan s = do
  cells ← output s.states
  bytes ← plan.checkpoint s.seq (plan.result_bytes - s.written) s.progress cells
  ok (record s {
    seq = s.seq + 1;
    written = s.written + bytes;
    published = some (s.progress.completed_fragments, s.progress.completed_files);
    sent = record { seq = s.seq; progress = s.progress; cells = cells } ∷ s.sent;
  })

unfoldable pub is_wanted : Plan → Bool → Session → Bool
unfolding is_available is_final
is_wanted plan due s =
    (is_available plan.analysis.preview && (s.seq == 0 || due)) || is_final s.progress

unfoldable pub publish_if : Plan → Bool → Session → Result AggregateError Session
unfolding is_wanted is_new send_checkpoint
publish_if plan due s =
    if is_wanted plan due s && is_new s.published s.progress then send_checkpoint plan s else ok s

-- One round of the loop over the fragments of a file.
unfoldable pub run_fragment : Plan → Opened → ℕ → ℕ → ℕ → Session → Result AggregateError Session
unfolding scan fragment_rows is_file advance close_total publish_if
run_fragment plan f file_index fragments index s = do
  (states, rows) ← scan s.states 0 (f.stream index)
  guard (rows == fragment_rows plan.analysis.fragment_unit f index) corrupt
  f.validated index
  let counted = is_file plan.analysis.fragment_unit || ltb 0 f.num_row_groups
  let progress = close_total (advance counted (index + 1 == fragments) file_index rows s.progress)
  publish_if plan (plan.due file_index index) (record s { states = states; progress = progress })

-- `left` rounds from `index` on.
unfoldable pub run_fragments :
    Plan → Opened → ℕ → ℕ → ℕ → ℕ → Session → Result AggregateError Session
unfolding run_fragment
run_fragments plan f file_index fragments zero index s = ok s
run_fragments plan f file_index fragments (suc left) index s =
    run_fragment plan f file_index fragments index s
    >>= run_fragments plan f file_index fragments left (index + 1)

-- `max(1)`
unfoldable pub at_least_one : ℕ → ℕ
at_least_one zero = 1
at_least_one (suc n) = suc n

unfoldable pub fragments_of : FragmentUnit → Opened → ℕ
unfolding at_least_one
fragments_of manifest_file f = 1
fragments_of parquet_row_group f = at_least_one f.num_row_groups

unfoldable pub run_file : Plan → ℕ → InputFile → Session → Result AggregateError Session
unfolding matches_known fragments_of run_fragments
run_file plan file_index file s = do
  f ← file.opened
  guard (matches_known file.row_groups f.num_row_groups) source_changed
  guard (matches_known file.rows f.num_rows) source_changed
  let fragments = fragments_of plan.analysis.fragment_unit f
  run_fragments plan f file_index fragments fragments 0 s

unfoldable pub run_files : Plan → ℕ → List InputFile → Session → Result AggregateError Session
unfolding run_file
run_files plan file_index [] s = ok s
run_files plan file_index (file ∷ files) s =
    run_file plan file_index file s >>= run_files plan (file_index + 1) files

abbrev pub known_groups : List InputFile → List (Option ℕ)
known_groups files = map (λ (f : InputFile). f.row_groups) files

unfoldable pub total_of : FragmentUnit → List InputFile → Option ℕ
unfolding sum_known
total_of manifest_file files = some (length files)
total_of parquet_row_group files = sum_known (known_groups files)

abbrev pub first_progress : FragmentUnit → List InputFile → Checkpoint
first_progress unit files = record {
  unit = unit;
  completed_fragments = 0;
  total_fragments = total_of unit files;
  processed_rows = 0;
  completed_files = 0;
  total_files = length files;
}

abbrev pub first_session : Plan → Schema → List Aggregate → List InputFile → Session
first_session plan schema aggregates files = record {
  progress = first_progress plan.analysis.fragment_unit files;
  states = new_states schema aggregates;
  seq = 0;
  written = 0;
  published = none;
  sent = [];
}

-- `execute`; `sources` is the validation of the sources at its end.
unfoldable pub execute :
    Plan
    → Schema
    → List Aggregate
    → List InputFile
    → Result AggregateError (Unit {0})
    → Result AggregateError Session
unfolding new_states run_files output
execute plan schema aggregates files sources = do
  guard (ltb 0 (length files)) bad_argument
  header ← output (new_states schema aggregates)
  s ← run_files plan 0 files (first_session plan schema aggregates files)
  sources
  ok s
