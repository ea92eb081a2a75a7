-- ===== src/Jobs/Publish.antt =====
-- db.rs: `publish`, the transaction that commits one part of a result. The staged file is moved
-- into the store before the commit, so a refusal after the move leaves the moved file behind.
pub mod Sound
pub mod Commit
pub mod Events
use rowtrail.Base.{
  Bool, List, Option, Result, [], err, false, find, guard, if◌then◌else◌, leb, length, none, not,
  ok, ok_or, some, true, ℕ, ◌&&◌, ◌*◌, ◌++◌, ◌+◌, ◌==◌, ◌>>=◌, ◌>>◌, ◌||◌, ◌∷◌,
}
use rowtrail.Jobs.{
  Checkpoint, DbError, EventKind, JobSpec, JobState, PartRow, Preview, Quality, ResultRow, Revision,
  Tables, available, bad_staging, constraint, is_some, not_found, of_checkpoint, out_of_order,
  partial, publication_rejected, result_conflict, result_corrupt, result_ready, result_unavailable,
  running, set_result, symlink_part, unknown, with_event, withheld,
}
use rowtrail.Jobs.Coverage.{check_checkpoint}

pub data Extension : Type 0 where
  parquet arrow : Extension

pub data FilePath : Type 0 where
  staging_path : ℕ → Extension → ℕ → FilePath  -- attempt and number
  store_path : ℕ → Extension → ℕ → FilePath  -- result and number
  other_path : ℕ → FilePath

pub record FileEntry : Type 0 where
  pub len : ℕ
  pub symlink : Bool

abbrev pub Disk : Type 0
Disk = FilePath → Option FileEntry

-- model.rs: `Part`. The inline data is its hex text.
pub record Part : Type 0 where
  pub seq : ℕ
  pub path : FilePath
  pub bytes : ℕ
  pub rows : ℕ
  pub checksum : ℕ
  pub schema : ℕ
  pub inline_data : Option (List ℕ)
  pub checkpoint : Option Checkpoint

abbrev pub inline_limit : ℕ
inline_limit = 128 * 1024

same_extension : Extension → Extension → Bool
same_extension parquet parquet = true
same_extension arrow arrow = true
same_extension _ _ = false

same_path : FilePath → FilePath → Bool
unfolding same_extension
same_path (staging_path a e n) (staging_path b f m) = a == b && same_extension e f && n == m
same_path (store_path a e n) (store_path b f m) = a == b && same_extension e f && n == m
same_path (other_path a) (other_path b) = a == b
same_path _ _ = false

extension_of : JobSpec → Extension
extension_of spec = if is_some spec.prepared then parquet else arrow

-- SELECT checksum FROM parts WHERE result_id=? AND seq=?
part_checksum : ℕ → List PartRow → Option ℕ
part_checksum seq [] = none
part_checksum seq (p ∷ parts) = if p.seq == seq then some p.checksum else part_checksum seq parts

-- COALESCE(SUM(rows),0)
unfoldable pub sum_rows : List PartRow → ℕ
sum_rows [] = 0
sum_rows (p ∷ parts) = p.rows + sum_rows parts

is_running : JobState → Bool
is_running running = true
is_running _ = false

-- A part that is committed already, or a new one for this row.
pub data Admission : Type 0 where
  duplicate : Admission
  fresh : ResultRow → Admission

admit_new : Part → ResultRow → Result DbError Admission
admit_new part row = elim (part_checksum part.seq row.parts) [
  | some hash ↦ do guard (hash == part.checksum) result_conflict; ok duplicate
  | none ↦ do guard (part.seq == length row.parts) out_of_order; ok (fresh row)
]

-- The checks up to the part's number. A foreign key gives every job its result row.
admit : JobSpec → Part → Tables → Result DbError Admission
unfolding is_running admit_new part_checksum
admit spec part db = do
  job ← ok_or (find spec.job_id db.jobs) not_found
  guard (is_running job.state && job.spec.attempt == spec.attempt) publication_rejected
  row ← ok_or (find spec.result_ref db.results) not_found
  admit_new part row

-- The staging descriptor and the schema.
check_descriptor : JobSpec → Part → ResultRow → Result DbError (Unit {0})
unfolding same_path extension_of
check_descriptor spec part row = do
  guard (same_path part.path (staging_path spec.attempt (extension_of spec) part.seq)) bad_staging
  saved ← ok_or row.schema not_found
  guard (saved == part.schema) result_corrupt

move : FilePath → FilePath → Disk → Disk
unfolding same_path
move source dest disk p =
    if same_path p dest then disk source else if same_path p source then none else disk p

-- The file of a part that is not inline.
place_part : JobSpec → Part → Disk → Result DbError Disk
unfolding extension_of move
place_part spec part disk =
    let source = staging_path spec.attempt (extension_of spec) part.seq in
    let dest = store_path spec.result_ref (extension_of spec) part.seq in
    elim (disk source) [
      | some file ↦ do
        guard (not file.symlink) symlink_part
        guard (file.len == part.bytes) result_corrupt
        ok (move source dest disk)
      | none ↦ do
        file ← ok_or (disk dest) result_unavailable
        guard (file.len == part.bytes) result_unavailable
        ok disk
    ]

-- The number of a revision is a primary key.
unfoldable pub has_revision : ℕ → List Revision → Bool
has_revision n [] = false
has_revision n (r ∷ revisions) = r.revision == n || has_revision n revisions

-- INSERT INTO revisions, and the new head.
unfoldable pub add_revision : Revision → ResultRow → Result DbError ResultRow
unfolding has_revision
add_revision r row = do
  guard (not (has_revision r.revision row.revisions)) constraint
  ok (record row { revisions = row.revisions ++ r ∷ []; head = r.revision })

-- The branch on the checkpoint descriptor, with the stored progress.
store_progress : JobSpec → Part → ResultRow → Result DbError ResultRow
store_progress spec part row = elim part.checkpoint [
  | none ↦ do guard (not (is_some spec.analysis)) result_corrupt; ok row
  | some progress ↦ do
    a ← ok_or spec.analysis result_corrupt
    check_checkpoint a spec.row_groups part.seq part.rows row.progress progress
    ok (record row { progress = some progress })
]

partial_quality : Quality → Option Checkpoint → Quality
partial_quality q none = record q {
  kind = partial;
  input_coverage = unknown;
  final_for_request = false;
}
partial_quality q (some p) = record q {
  kind = partial;
  input_coverage = of_checkpoint p;
  final_for_request = false;
}

unfoldable pub is_available : Preview → Bool
is_available available = true
is_available withheld = false

wants_preview : JobSpec → Bool
unfolding is_available
wants_preview spec =
    not (is_some spec.prepared)
    && elim spec.query [ none ↦ false | some q ↦ is_available q.preview ]

preview_revision : JobSpec → Part → ResultRow → Revision
unfolding sum_rows partial_quality
preview_revision spec part row = record {
  revision = row.head + 1;
  cutoff = part.seq + 1;
  rows = elim part.checkpoint [ none ↦ sum_rows row.parts | some p ↦ 1 ];
  quality = partial_quality spec.quality part.checkpoint;
}

-- INSERT INTO checkpoints
with_checkpoint : Part → ℕ → ResultRow → ResultRow
with_checkpoint part rev row = elim part.checkpoint [
  | none ↦ row
  | some p ↦ record row { checkpoints = row.checkpoints ++ (rev, part.seq) ∷ [] }
]

store_preview : JobSpec → Part → ResultRow → Result DbError (ResultRow × List EventKind)
unfolding wants_preview preview_revision add_revision with_checkpoint
store_preview spec part row =
    if wants_preview spec
    then (do
      let rev = preview_revision spec part row
      row' ← add_revision rev (with_checkpoint part rev.revision row)
      ok (row', result_ready spec.result_ref rev.revision rev.quality ∷ []))
    else ok (row, [])

-- Everything from INSERT INTO parts to the commit.
part_row : Part → Bool → PartRow
part_row part inline = record {
  seq = part.seq;
  rows = part.rows;
  bytes = part.bytes;
  checksum = part.checksum;
  inline = inline;
}

pub store_part : JobSpec → Part → Bool → ResultRow → Result DbError (ResultRow × List EventKind)
unfolding store_progress store_preview part_row
store_part spec part inline row = do
  row' ← store_progress spec part (record row { parts = row.parts ++ part_row part inline ∷ [] })
  store_preview spec part row'

unfoldable pub with_events : ℕ → List EventKind → Tables → Tables
with_events job [] db = db
with_events job (k ∷ kinds) db = with_events job kinds (with_event job k db)

unfoldable pub commit_part : JobSpec → ResultRow × List EventKind → Tables → Tables
unfolding with_events
commit_part spec (row, kinds) db =
    with_events spec.job_id kinds (set_result spec.result_ref (λ _. row) db)

-- `hex::decode` and the hex SHA-256 of bytes, from outside.
module _ (decode : List ℕ → Option (List ℕ)) (digest : List ℕ → ℕ) where
  check_inline : JobSpec → Part → Result DbError Bool
  check_inline spec part = elim part.inline_data [
    | none ↦ ok false
    | some raw ↦ do
      guard
          (not (is_some spec.prepared)
            && leb part.bytes inline_limit
            && length raw == part.bytes * 2)
          result_corrupt
      bytes ← ok_or (decode raw) result_corrupt
      guard (digest bytes == part.checksum) result_corrupt
      ok true
  ]

  place : JobSpec → Part → Bool → Disk → Result DbError Disk
  unfolding place_part
  place spec part true disk = ok disk
  place spec part false disk = place_part spec part disk

  commit_on : JobSpec → Part → Bool → ResultRow → Tables → Disk → Result DbError Tables × Disk
  unfolding store_part commit_part
  commit_on spec part inline row db disk =
      ((do stored ← store_part spec part inline row; ok (commit_part spec stored db)), disk)

  publish_fresh : JobSpec → Part → ResultRow → Tables → Disk → Result DbError Tables × Disk
  unfolding check_descriptor check_inline place commit_on
  publish_fresh spec part row db disk =
      let checked = (do check_descriptor spec part row; check_inline spec part) in
      elim checked [
        | err e ↦ (err e, disk)
        | ok inline ↦ elim (place spec part inline disk) [
          | err e ↦ (err e, disk)
          | ok disk' ↦ commit_on spec part inline row db disk'
        ]
      ]

  -- `publish`
  unfoldable pub publish : JobSpec → Part → Tables → Disk → Result DbError Tables × Disk
  unfolding admit publish_fresh
  publish spec part db disk = elim (admit spec part db) [
    | err e ↦ (err e, disk)
    | ok duplicate ↦ (ok db, disk)
    | ok (fresh row) ↦ publish_fresh spec part row db disk
  ]
